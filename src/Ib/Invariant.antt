-- ===== src/Ib/Invariant.antt =====
-- Rules for a property of the run that every handler keeps: it holds after a call of the main thread
-- and after a wait, whatever the handlers do meanwhile.
use infiniband.Common.{
  ℕ, ◌≡◌, refl, Bool, true, false, List, [], ◌∷◌, not, ◌&&◌, ◌==◌, arith, if◌then◌else◌, inl, inr,
  Bool-cases,
}
use infiniband.Ib.Types.{TestState, le_state}
use infiniband.Ib.Calls.{Call, Callback, Env, wait_event_interruptible}
use infiniband.Ib.Machine.{
  Sys, Outcome, done, Cmd, reply_at, logged, deliver, call, sleep, wait_until,
}
use infiniband.Ib.Frame.{Returns, Returns-bind}

abbrev pub All : (Callback → Type 0) → List Callback → Type 0
All P [] = Unit
All P (k ∷ ks) = P k × All P ks

module _ (env : Env) (handler : Callback → Cmd (Unit {0})) (Fine : Callback → Type 0)
    (P : Sys → Type 0)
    (keeps : (k : Callback) → Fine k → (s : Sys) → P s → Returns (λ _ t. P t) (handler k s)) where
  deliver-Returns :
      (ks : List Callback) (s : Sys)
      → All Fine ks
      → P s
      → Returns (λ _ t. P t) (deliver env handler ks s)
  unfolding deliver
  deliver-Returns [] s f p = p
  deliver-Returns (k ∷ ks) s f p =
      Returns-bind (λ _ t. P t) (λ _ t. P t) (handler k s) _ (keeps k f.0 s p)
        λ _ t h. deliver-Returns ks t f.1 h

  pub call-keeps :
      (c : Call) (s : Sys)
      → All Fine (reply_at env c s).callbacks
      → P (logged env c s)
      → Returns (λ x t. (x ≡ (reply_at env c s).answer) × P t) (call env handler c s)
  unfolding call
  call-keeps c s f p =
      Returns-bind (λ _ t. P t) _
        (deliver env handler (reply_at env c s).callbacks (logged env c s)) _
        (deliver-Returns (reply_at env c s).callbacks (logged env c s) f p) λ _ t h. (refl, h)

  choice :
      (b : Bool) (o o' : Outcome ℕ)
      → Returns (λ _ t. P t) o
      → Returns (λ _ t. P t) o'
      → Returns (λ _ t. P t) (if b then o else o')
  choice true o o' h h' = h
  choice false o o' h h' = h'

  sleep-Returns :
      (t : TestState) (signal : Bool) (ks : List Callback) (s : Sys)
      → signal ≡ true
      → All Fine ks
      → P s
      → Returns (λ _ u. P u) (sleep env handler t signal ks s)
  unfolding sleep
  sleep-Returns t true [] s e f p = p
  sleep-Returns t false [] s e f p = absurd (ground arith)
  sleep-Returns t signal (k ∷ ks) s e f p =
      Returns-bind (λ _ u. P u) (λ _ u. P u) (handler k s) _ (keeps k f.0 s p)
        λ _ u h.
          choice (not (u.wakes == s.wakes) && le_state t u.ctx.state) (done 0 u)
            (sleep env handler t signal ks u) h (sleep-Returns t signal ks u e f.1 h)

  pub wait-keeps :
      (st : TestState) (s : Sys)
      → (reply_at env (wait_event_interruptible st) s).signal ≡ true
      → All Fine (reply_at env (wait_event_interruptible st) s).callbacks
      → P s
      → P (logged env (wait_event_interruptible st) s)
      → Returns (λ _ t. P t) (wait_until env handler st s)
  unfolding wait_until
  wait-keeps st s e f now logged_too = elim (Bool-cases (le_state st s.ctx.state)) [
    | inl ready ↦ rw (ready, wait_until) now
    | inr later ↦
        rw (later, wait_until)
          (sleep-Returns st (reply_at env (wait_event_interruptible st) s).signal
            (reply_at env (wait_event_interruptible st) s).callbacks
            (logged env (wait_event_interruptible st) s) e f logged_too)
  ]
