-- ===== src/Client/Faults.antt =====
-- What the client does with an error of `ib_get_dma_mr`.
use mathlib.Core.Path.{subst}
use infiniband.Common.{
  ℕ, ◌≡◌, refl, ap, ◌∙◌, sym, Bool, true, false, not, ◌||◌, some, List, ◌∷◌, ◌==◌, arith, length,
  if◌then◌else◌,
}
use infiniband.Ib.Types.{
  IsGood, MemType, Ptr, IbContext, dma, null, is_err, minus, sizeof_rdma_info,
}
use infiniband.Ib.Calls.{
  Call, Env, Region, recv_region, send_region, rdma_region, start_region, ib_get_dma_mr, kmalloc,
  dma_map_single,
}
use infiniband.Ib.Machine.{
  Outcome, done, asleep, oops, Cmd, pure, context, ◌>>=◌, Sys, and_then, call, reply_at, deref,
}
use infiniband.Ib.Ledger.{Resource, mr, block, settle}
use infiniband.Ib.Frame.{Stops}
use infiniband.Ib.Rules.{At, IsPolite, call-Stops}
use infiniband.Ib.Steps
use infiniband.Client.Events.{handler}
use infiniband.Client.Setup.{
  get_dma_mr, setup_wr, setup_source, setup_sink, setup_buffers, is_dma, register, bail,
}
use infiniband.Ib.Follow.{At-modify, At-if}
use infiniband.Ib.Mild.{IsMild}
use infiniband.Client.Quiet.{handler-Keeps}

-- The region is refused with an error pointer, and memory is there.
pub record Refuses (env : Env) : Type 0 where
  pub polite : IsPolite IsMild env
  pub refused : (n : ℕ) (p : Ptr) → is_err (env.reply n (ib_get_dma_mr p)).answer ≡ true
  pub memory : (n k : ℕ) → ((env.reply n (kmalloc k)).answer == 0) ≡ false

and_then_assoc :
    {A B C : Type 0} (o : Outcome A) (k : A → Cmd B) (l : B → Cmd C)
    → and_then (and_then o k) l ≡ and_then o (λ x s. and_then (k x s) l)
and_then_assoc (done x s) k l = refl
and_then_assoc (asleep s) k l = refl
and_then_assoc oops k l = refl

module _ (env : Env) (w : Refuses env) where
  module _ {A : Type 0} {r : IbContext} {rs : List Resource} {s : Sys} (a : At env r rs s) where
    ask_on :
        (c : Call) (rs' : List Resource) (k : ℕ → Cmd A)
        → settle env c (reply_at env c s).answer rs ≡ some rs'
        → ((t : Sys) → At env r rs' t → Stops (k (reply_at env c s).answer t))
        → Stops (and_then (call env (handler env) c s) k)
    ask_on = call-Stops env (handler env) IsMild w.polite (handler-Keeps env) a

    map_on :
        (region : Region) (n : ℕ) (k : ℕ → Cmd A)
        → IsGood r.pd
        → ((x : ℕ) (t : Sys) → At env r rs t → Stops (k x t))
        → Stops (and_then (Steps.map_region env (handler env) region n s) k)
    map_on region n k good next =
        let here : IsGood s.ctx.pd = subst IsGood (sym (ap (λ c. c.pd) a.context)) good in
        rw (here, deref) (ask_on (dma_map_single region n) rs k refl (λ t at. next _ t at))

  setup_wr-Stops :
      {r : IbContext} {rs : List Resource} {s : Sys} {A : Type 0} (k : Unit {0} → Cmd A)
      → is_err r.dma_mr ≡ true
      → At env r rs s
      → Stops (and_then (setup_wr env s) k)
  unfolding setup_wr
  setup_wr-Stops {r} {rs} {s} k bad a =
      let here : is_err s.ctx.dma_mr ≡ true = ap (λ c. is_err c.dma_mr) a.context ∙ bad in
      let test : ((s.ctx.dma_mr == null) || is_err s.ctx.dma_mr) ≡ true = ground arith in
      rw (test, deref) tt

  module _ (r : IbContext) (domain : IsGood r.pd) (bad : is_err r.dma_mr ≡ true) where
    setup_source-Stops :
        {rs : List Resource} {s : Sys} (n : ℕ) → At env r rs s → Stops (setup_source env n s)
    unfolding setup_source
    setup_source-Stops {rs} {s} n a =
        let there = w.memory (length s.calls) n in
        let x = (reply_at env (kmalloc n) s).answer in
        ask_on a (kmalloc n) _ _ refl λ t at. rw there (
          map_on
            (At-modify env (λ c. record c { start_buf = x; start_data = env.garbage x })
              (λ c. record c { start_buf = x; start_data = env.garbage x }) (λ c. refl)
              (At-if env rs (block x ∷ rs) (x == null) false there at))
            start_region n _ domain
            λ addr u au. setup_wr-Stops _ bad (
              At-modify env (λ c. record c { start_dma_addr = addr; start_mapping = addr })
                (λ c. record c { start_dma_addr = addr; start_mapping = addr }) (λ c. refl) au))

  module _ (r : IbContext) (domain : IsGood r.pd) where
    setup_sink-Stops :
        {rs : List Resource} {s : Sys} (n : ℕ)
        → is_err r.dma_mr ≡ true
        → At env r rs s
        → Stops (setup_sink env n s)
    unfolding setup_sink
    setup_sink-Stops {rs} {s} n bad a =
        let there = w.memory (length s.calls) n in
        let x = (reply_at env (kmalloc n) s).answer in
        ask_on a (kmalloc n) _ _ refl λ t at. rw there (
          map_on
            (At-modify env (λ c. record c { rdma_buf = x; rdma_data = env.garbage x })
              (λ c. record c { rdma_buf = x }) (λ c. refl)
              (At-if env rs (block x ∷ rs) (x == null) false there at))
            rdma_region n _ domain
            λ addr u au.
              setup_source-Stops
                (record r { rdma_buf = x; rdma_dma_addr = addr; rdma_mapping = addr }) domain bad n
                (At-modify env (λ c. record c { rdma_dma_addr = addr; rdma_mapping = addr })
                  (λ c. record c { rdma_dma_addr = addr; rdma_mapping = addr }) (λ c. refl) au))

  -- `setup_buffers` from `ib_get_dma_mr` on.
  abbrev from_region : Bool → Cmd ℕ
  from_region b = if not b then bail env (minus 1) else (do c ← context; setup_sink env c.size)

  refused-Stops :
      (r : IbContext) {rs : List Resource} (x : Ptr) (t : Sys)
      → IsGood r.pd
      → is_err x ≡ true
      → At env r rs t
      → Stops (from_region (not (x == null)) (record t { ctx = record (t.ctx) { dma_mr = x } }))
  refused-Stops r x t domain bad at =
      let there : (x == null) ≡ false = ground arith in
      rw (there, not)
        (setup_sink-Stops (record r { dma_mr = x }) domain t.ctx.size bad
          (At-modify env (λ c. record c { dma_mr = x }) (λ c. record c { dma_mr = x }) (λ c. refl)
            at))

  get_dma_mr-Stops :
      (r : IbContext) {rs : List Resource} {s : Sys}
      → IsGood r.pd
      → r.mem ≡ dma
      → At env r rs s
      → Stops (and_then (get_dma_mr env s) from_region)
  get_dma_mr-Stops r {rs} {s} domain m_dma a =
      let mem : s.ctx.mem ≡ dma = ap (λ c. c.mem) a.context ∙ m_dma in
      let bad = w.refused (length s.calls) s.ctx.pd in
      subst {A = MemType}
        (λ m.
          Stops (and_then ((if is_dma m then register env s.ctx.pd else pure true) s) from_region))
        (sym mem)
        (subst Stops
          (sym (and_then_assoc (call env (handler env) (ib_get_dma_mr s.ctx.pd) s) _ from_region))
          (ask_on a (ib_get_dma_mr s.ctx.pd) _ _ refl λ t at.
            refused-Stops r _ t domain bad (At-if env rs (mr _ ∷ rs) (is_err _) true bad at)))

  -- On a driver that refuses the region with an error pointer, has memory, reports no RDMA transfer and
  -- lets a signal end a wait: with a good protection domain and memory of the type DMA,
  -- `megaVM_setup_buffers` does not take its error path. Whatever else it is answered and whatever the
  -- handlers do meanwhile, it reads through the error pointer.
  pub setup_buffers-Stops :
      (r : IbContext) (rs : List Resource) {s : Sys}
      → IsGood r.pd
      → r.mem ≡ dma
      → At env r rs s
      → Stops (setup_buffers env s)
  unfolding setup_buffers
  setup_buffers-Stops r rs {s} domain m_dma a =
      map_on a recv_region sizeof_rdma_info _ domain λ from t at.
        map_on
          (At-modify env (λ c. record c { recv_dma_addr = from; recv_mapping = from })
            (λ c. record c { recv_dma_addr = from; recv_mapping = from }) (λ c. refl) at)
          send_region sizeof_rdma_info _ domain
          λ to u au.
            get_dma_mr-Stops
              (record r {
                recv_dma_addr = from;
                recv_mapping = from;
                send_dma_addr = to;
                send_mapping = to;
              })
              domain m_dma
              (At-modify env (λ c. record c { send_dma_addr = to; send_mapping = to })
                (λ c. record c { send_dma_addr = to; send_mapping = to }) (λ c. refl) au)
