-- ===== src/Ib/Rules.antt =====
-- Rules for a run of the main thread, whatever the handlers do meanwhile: each follows the context
-- and the resources held through one call or one wait.
use mathlib.Core.Path.{subst}
use infiniband.Common.{sym, ℕ, ◌≡◌, refl, ◌∙◌, Bool, true, false, some, List, length, if◌then◌else◌}
use infiniband.Ib.Types.{Ptr, IsGood, IbContext, TestState}
use infiniband.Ib.Calls.{Call, Callback, Env, wait_event_interruptible}
use infiniband.Ib.Machine.{
  deref, Sys, Outcome, done, asleep, oops, Cmd, and_then, reply_at, logged, call, wait_until, skip,
}
use infiniband.Ib.Ledger.{Resource, held, held-step, settle}
use infiniband.Ib.Invariant.{All, call-keeps, wait-keeps}
use infiniband.Ib.Frame.{Stops, Stops-bind, Returns, Returns-bind, frozen, Kept, Keeps}

-- The context with the handlers' fields blotted out, and the resources held.
pub record At (env : Env) (r : IbContext) (rs : List Resource) (s : Sys) : Type 0 where
  pub context : frozen s.ctx ≡ r
  pub resources : held env s.calls ≡ some rs

-- The environment runs no handler that is not `Mild`, and an operator's signal ends a wait that no
-- handler ends.
pub record IsPolite (Mild : Callback → Type 0) (env : Env) : Type 0 where
  pub mild : (n : ℕ) (c : Call) → All Mild (env.reply n c).callbacks
  pub signal : (n : ℕ) (c : Call) → (env.reply n c).signal ≡ true

pub Returns-mono :
    {A : Type 0} (P Q : A → Sys → Type 0) (o : Outcome A)
    → Returns P o
    → ((x : A) (t : Sys) → P x t → Q x t)
    → Returns Q o
Returns-mono P Q (done x t) p next = next x t p
Returns-mono P Q (asleep t) p next = absurd p
Returns-mono P Q oops p next = absurd p

pub At-Kept :
    (env : Env) {r : IbContext} {rs : List Resource} {s t : Sys}
    → At env r rs s
    → Kept env s t
    → At env r rs t
At-Kept env a h = record { context = h.context ∙ a.context; resources = h.resources ∙ a.resources }

-- A call is made, and settled.
pub At-logged :
    (env : Env) {r : IbContext} {rs : List Resource} {s : Sys}
    → At env r rs s
    → (c : Call) (rs' : List Resource) → settle env c (reply_at env c s).answer rs ≡ some rs'
    → At env r rs' (logged env c s)
At-logged env {s = s} a c rs' e = record {
  context = a.context;
  resources = held-step env c (reply_at env c s).answer s.calls a.resources ∙ e;
}

-- A field is read through a good pointer.
pub Returns-deref :
    {A : Type 0} (Q : A → Sys → Type 0) (p : Ptr) (s : Sys) (k : Unit {0} → Cmd A)
    → IsGood p
    → Returns Q (k tt s)
    → Returns Q (and_then (deref p s) k)
Returns-deref Q p s k good next = rw (good, deref) next

-- A test fails, or holds.
pub Returns-else :
    {A : Type 0} (Q : A → Sys → Type 0) (b : Bool) (m n : Cmd A) (s : Sys)
    → b ≡ false
    → Returns Q (n s)
    → Returns Q ((if b then m else n) s)
Returns-else Q b m n s e next = rw e next

pub Returns-then :
    {A : Type 0} (Q : A → Sys → Type 0) (b : Bool) (m n : Cmd A) (s : Sys)
    → b ≡ true
    → Returns Q (m s)
    → Returns Q ((if b then m else n) s)
Returns-then Q b m n s e next = rw e next

module _ (env : Env) (handler : Callback → Cmd (Unit {0})) (Mild : Callback → Type 0)
    (polite : IsPolite Mild env)
    (quiet : (k : Callback) → Mild k → (s : Sys) → Keeps env s (handler k s)) where
  handler-At :
      (r : IbContext) (rs : List Resource) (k : Callback)
      → Mild k
      → (s : Sys) → At env r rs s
      → Returns (λ _ t. At env r rs t) (handler k s)
  handler-At r rs k m s a =
      Returns-mono (λ _ t. Kept env s t) (λ _ t. At env r rs t) (handler k s) (quiet k m s)
        λ x t h. At-Kept env a h

  module _ {r : IbContext} {rs : List Resource} {s : Sys} (a : At env r rs s) where
    pub call-At :
        (c : Call) (rs' : List Resource)
        → settle env c (reply_at env c s).answer rs ≡ some rs'
        → Returns (λ x t. (x ≡ (reply_at env c s).answer) × At env r rs' t) (call env handler c s)
    call-At c rs' e =
        call-keeps env handler Mild (At env r rs') (handler-At r rs') c s
          (polite.mild (length s.calls) c) (At-logged env a c rs' e)

    pub wait-At : (st : TestState) → Returns (λ _ t. At env r rs t) (wait_until env handler st s)
    wait-At st =
        wait-keeps env handler Mild (At env r rs) (handler-At r rs) st s
          (polite.signal (length s.calls) (wait_event_interruptible st))
          (polite.mild (length s.calls) (wait_event_interruptible st)) a
          (At-logged env a (wait_event_interruptible st) rs refl)

    -- The same for a run that stops later.
    pub call-Stops :
        {A : Type 0} (c : Call) (rs' : List Resource) (k : ℕ → Cmd A)
        → settle env c (reply_at env c s).answer rs ≡ some rs'
        → ((t : Sys) → At env r rs' t → Stops (k (reply_at env c s).answer t))
        → Stops (and_then (call env handler c s) k)
    call-Stops c rs' k e next =
        Stops-bind _ (call env handler c s) k (call-At c rs' e)
          λ x t (ex, at). subst (λ y. Stops (k y t)) (sym ex) (next t at)

    module _ {A : Type 0} (Q : A → Sys → Type 0) where
      -- The rest of the run after a call that turns the resources `rs` into `rs'`.
      pub call-Returns :
          (c : Call) (rs' : List Resource) (k : ℕ → Cmd A)
          → settle env c (reply_at env c s).answer rs ≡ some rs'
          → ((t : Sys) → At env r rs' t → Returns Q (k (reply_at env c s).answer t))
          → Returns Q (and_then (call env handler c s) k)
      call-Returns c rs' k e next =
          Returns-bind _ Q (call env handler c s) k (call-At c rs' e)
            λ x t (ex, at). subst (λ y. Returns Q (k y t)) (sym ex) (next t at)

      -- The same where the answer is dropped.
      pub run-Returns :
          (c : Call) (rs' : List Resource) (k : Unit {0} → Cmd A)
          → settle env c (reply_at env c s).answer rs ≡ some rs'
          → ((t : Sys) → At env r rs' t → Returns Q (k tt t))
          → Returns Q (and_then (and_then (call env handler c s) (λ _. skip)) k)
      run-Returns c rs' k e next =
          Returns-bind (λ _ t. At env r rs' t) Q (and_then (call env handler c s) (λ _. skip)) k
            (Returns-bind _ (λ _ t. At env r rs' t) (call env handler c s) (λ _. skip)
              (call-At c rs' e) (λ x t (_, at). at))
            (λ _ t at. next t at)

      -- The rest of the run after a wait.
      pub wait-Returns :
          (st : TestState) (k : ℕ → Cmd A)
          → ((x : ℕ) (t : Sys) → At env r rs t → Returns Q (k x t))
          → Returns Q (and_then (wait_until env handler st s) k)
      wait-Returns st k next =
          Returns-bind (λ _ t. At env r rs t) Q (wait_until env handler st s) k (wait-At st) next
