-- ===== src/Ib/Machine.antt =====
-- The machine that runs the two modules: one context, the calls made so far and a counter of
-- wake-ups. Handlers run while a call of the main thread is under way, as its reply says.
use infiniband.Common.{
  ℕ, ◌+◌, Bool, not, ◌||◌, ◌&&◌, Option, none, some, List, [], ◌∷◌, ◌==◌, if◌then◌else◌, length,
}
use infiniband.Ib.Types.{
  Ptr, null, minus, is_err, TestState, IbContext, le_state, Sge, SgeRef, recv_sgl, send_sgl,
  rdma_sgl,
}
use infiniband.Ib.Calls.{Call, Callback, Reply, Env, wait_event_interruptible}

-- `calls` is newest first, each with its answer.
pub record Sys : Type 0 where
  pub ctx : IbContext
  pub calls : List (Call × ℕ)
  pub wakes : ℕ

-- A run ends, sleeps with no handler left to wake it, or stops at a bad pointer or a BUG_ON.
pub data Outcome (A : Type 0) : Type 0 where
  done : A → Sys → Outcome A
  asleep : Sys → Outcome A
  oops : Outcome A

abbrev pub Cmd : Type 0 → Type 0
Cmd A = Sys → Outcome A

abbrev pub pure : {A : Type 0} → A → Cmd A
pure = done

module _ {A B : Type 0} where
  abbrev pub and_then : Outcome A → (A → Cmd B) → Outcome B
  and_then (done a s) k = k a s
  and_then (asleep s) k = asleep s
  and_then oops k = oops

  infixl 5 ◌>>=◌
  abbrev pub ◌>>=◌ : Cmd A → (A → Cmd B) → Cmd B
  m >>= k = λ s. and_then (m s) k

infixl 5 ◌>>◌
abbrev pub ◌>>◌ : {B : Type 0} → Cmd (Unit {0}) → Cmd B → Cmd B
m >> n = m >>= λ _. n

abbrev pub skip : Cmd (Unit {0})
skip s = done tt s

abbrev pub fail : {A : Type 0} → Cmd A
fail s = oops

-- The context, and a change of it.
abbrev pub context : Cmd IbContext
context s = done s.ctx s

abbrev pub modify : (IbContext → IbContext) → Cmd (Unit {0})
modify f s = done tt (record s { ctx = f s.ctx })

abbrev pub set_state : TestState → Cmd (Unit {0})
set_state t = modify λ c. record c { state = t }

abbrev pub wake_up : Cmd (Unit {0})
wake_up s = done tt (record s { wakes = s.wakes + 1 })

-- `if (test) m;`
abbrev pub when : Bool → Cmd (Unit {0}) → Cmd (Unit {0})
when b m = if b then m else skip

-- A field is read through `p`.
abbrev pub deref : Ptr → Cmd (Unit {0})
deref p = if (p == null) || is_err p then fail else skip

-- The entry that an `sg_list` points to.
abbrev pub sge_at : IbContext → SgeRef → Sge
sge_at c recv_sgl = c.recv_sge
sge_at c send_sgl = c.send_sge
sge_at c rdma_sgl = c.rdma_sge

abbrev pub put_sge : IbContext → SgeRef → Sge → IbContext
put_sge c recv_sgl e = record c { recv_sge = e }
put_sge c send_sgl e = record c { send_sge = e }
put_sge c rdma_sgl e = record c { rdma_sge = e }

-- What the library finds through an `sg_list`.
abbrev pub entry : IbContext → Option SgeRef → Option Sge
entry c none = none
entry c (some r) = some (sge_at c r)

-- `*wr->sg_list`; a null `sg_list` is a bad pointer.
abbrev pub load_sge : Option SgeRef → Cmd Sge
load_sge none s = oops
load_sge (some r) s = done (sge_at s.ctx r) s

-- `wr->sg_list->length = n`
abbrev pub store_length : Option SgeRef → ℕ → Cmd (Unit {0})
store_length none n s = oops
store_length (some r) n s =
    done tt (record s { ctx = put_sge s.ctx r (record (sge_at s.ctx r) { length = n }) })

module _ (env : Env) where
  -- What the call `c` is answered, made in the state `s`.
  abbrev pub reply_at : Call → Sys → Reply
  reply_at c s = env.reply (length s.calls) c

  abbrev pub logged : Call → Sys → Sys
  logged c s = record s { calls = (c, (reply_at c s).answer) ∷ s.calls }

  -- A call that a handler makes; no handler interrupts another.
  unfoldable pub raw_call : Call → Cmd ℕ
  raw_call c s = done (reply_at c s).answer (logged c s)

  module _ (handler : Callback → Cmd (Unit {0})) where
    unfoldable pub deliver : List Callback → Cmd (Unit {0})
    deliver [] s = done tt s
    deliver (k ∷ ks) s = and_then (handler k s) (λ _. deliver ks)

    -- A call of the main thread, with the handlers that run meanwhile.
    unfoldable pub call : Call → Cmd ℕ
    call c s =
        and_then (deliver (reply_at c s).callbacks (logged c s)) (λ _. pure (reply_at c s).answer)

    -- Asleep until `state >= t`: the test is made again after each handler that wakes the queue,
    -- and when a signal comes.
    unfoldable pub sleep : TestState → Bool → List Callback → Cmd ℕ
    sleep t signal [] s =
        if signal then done (if le_state t s.ctx.state then 0 else minus 512) s else asleep s
    sleep t signal (k ∷ ks) s = and_then (handler k s) λ _ s'.
        (let rest = sleep t signal ks s' in
          if not (s'.wakes == s.wakes) && le_state t s'.ctx.state then done 0 s' else rest)

    -- wait_event_interruptible(sem, state >= t)
    unfoldable pub wait_until : TestState → Cmd ℕ
    wait_until t s =
        let r = reply_at (wait_event_interruptible t) s in
        if le_state t s.ctx.state
        then done 0 s
        else sleep t r.signal r.callbacks (logged (wait_event_interruptible t) s)
