-- ===== src/Ib/Follow.antt =====
-- The rules of Ib/Rules for a main thread whose handlers are quiet: calls, a change of the context, and
-- the steps that map memory and give back what may be null.
use mathlib.Core.Path.{subst}
use infiniband.Common.{
  ℕ, ◌≡◌, refl, ap, ◌∙◌, sym, Bool, true, false, not, some, List, ◌==◌, arith, if◌then◌else◌,
}
use infiniband.Ib.Types.{IsGood, Ptr, IbContext, is_err, null}
use infiniband.Ib.Calls.{Call, Callback, Env, Region, dma_map_single, dma_unmap_single, ib_dereg_mr}
use infiniband.Ib.Machine.{call, skip, reply_at, Sys, Cmd, and_then, deref, when}
use infiniband.Ib.Steps
use infiniband.Ib.Ledger.{Resource, settle}
use infiniband.Ib.Frame.{Returns, Returns-bind, Keeps, frozen}
use infiniband.Ib.Mild.{IsCalm}
use infiniband.Ib.Rules.{At, IsPolite, call-At}

-- The family `P` says where a run stands: it fixes what the handlers leave alone of the context, and
-- the resources held, and it can be followed through every calm call.
pub record Follows (env : Env) (handler : Callback → Cmd (Unit {0}))
    (P : IbContext → List Resource → Sys → Type 0) : Type 0 where
  pub at : (r : IbContext) (rs : List Resource) (s : Sys) → P r rs s → At env r rs s
  pub settled :
      (r : IbContext) (rs rs' : List Resource) (s : Sys) (c : Call)
      → P r rs s
      → IsCalm c
      → settle env c (reply_at env c s).answer rs ≡ some rs'
      → Returns (λ x t. (x ≡ (reply_at env c s).answer) × P r rs' t) (call env handler c s)

-- If the handlers that run leave the set-up fields and the resources alone, that is enough.
pub quiet-Follows :
    (env : Env) (handler : Callback → Cmd (Unit {0})) (Mild : Callback → Type 0)
    → IsPolite Mild env
    → ((k : Callback) → Mild k → (s : Sys) → Keeps env s (handler k s))
    → Follows env handler (At env)
quiet-Follows env handler Mild polite quiet = record {
  at = λ r rs s a. a;
  settled = λ r rs rs' s c a calm e. call-At env handler Mild polite quiet a c rs' e;
}

module _ (env : Env) where
  -- The context is changed by `f`, which does `g` to what the handlers leave alone.
  pub At-modify :
      (f g : IbContext → IbContext)
      → ((c : IbContext) → frozen (f c) ≡ g (frozen c))
      → {r : IbContext} {rs : List Resource} {s : Sys} → At env r rs s
      → At env (g r) rs (record s { ctx = f s.ctx })
  At-modify f g commute {s = s} a = record {
    context = commute s.ctx ∙ ap g a.context;
    resources = a.resources;
  }

  -- The branch of the resources that a test has taken.
  pub At-if :
      {r' : IbContext} (rs1 rs2 : List Resource) {t : Sys} (b b' : Bool)
      → b ≡ b'
      → At env r' (if b then rs1 else rs2) t
      → At env r' (if b' then rs1 else rs2) t
  At-if {r'} rs1 rs2 {t} b b' e at = subst (λ b. At env r' (if b then rs1 else rs2) t) e at

  module _ (handler : Callback → Cmd (Unit {0})) {P : IbContext → List Resource → Sys → Type 0}
      (q : Follows env handler P) {A : Type 0} (Q : A → Sys → Type 0) {r : IbContext}
      {rs : List Resource} {s : Sys} (a : P r rs s) where
    pub ask :
        (c : Call) (rs' : List Resource) (k : ℕ → Cmd A)
        → IsCalm c
        → settle env c (reply_at env c s).answer rs ≡ some rs'
        → ((t : Sys) → P r rs' t → Returns Q (k (reply_at env c s).answer t))
        → Returns Q (and_then (call env handler c s) k)
    ask c rs' k calm e next =
        Returns-bind _ Q (call env handler c s) k (q.settled r rs rs' s c a calm e)
          λ x t (ex, at). subst (λ y. Returns Q (k y t)) (sym ex) (next t at)

    pub do_call :
        (c : Call) (rs' : List Resource) (k : Unit {0} → Cmd A)
        → IsCalm c
        → settle env c (reply_at env c s).answer rs ≡ some rs'
        → ((t : Sys) → P r rs' t → Returns Q (k tt t))
        → Returns Q (and_then (and_then (call env handler c s) (λ _. skip)) k)
    do_call c rs' k calm e next =
        Returns-bind (λ _ t. P r rs' t) Q (and_then (call env handler c s) (λ _. skip)) k
          (Returns-bind _ (λ _ t. P r rs' t) (call env handler c s) (λ _. skip)
            (q.settled r rs rs' s c a calm e) (λ x t (_, at). at))
          (λ _ t at. next t at)

    here-IsGood : IsGood r.pd → IsGood s.ctx.pd
    here-IsGood good = subst IsGood (sym (ap (λ c. c.pd) (q.at r rs s a).context)) good

    pub map_region-Returns :
        (region : Region) (n : ℕ) (k : ℕ → Cmd A)
        → IsGood r.pd
        → ((x : ℕ) (t : Sys) → P r rs t → Returns Q (k x t))
        → Returns Q (and_then (Steps.map_region env handler region n s) k)
    map_region-Returns region n k good next =
        rw (here-IsGood good, deref)
          (ask (dma_map_single region n) rs k tt refl (λ t at. next _ t at))

    pub unmap-Returns :
        (addr n : ℕ) (k : Unit {0} → Cmd A)
        → IsGood r.pd
        → ((t : Sys) → P r rs t → Returns Q (k tt t))
        → Returns Q (and_then (Steps.unmap env handler addr n s) k)
    unmap-Returns addr n k good next =
        rw (here-IsGood good, deref) (do_call (dma_unmap_single addr n) rs k tt refl next)

    pub dereg_null :
        (p : Ptr) (k : Unit {0} → Cmd A)
        → (p == null) ≡ true
        → Returns Q (k tt s)
        → Returns Q (and_then (Steps.dereg env handler p s) k)
    dereg_null p k e next = rw (e, when, not) next

    pub dereg_valid_null :
        (p : Ptr) (k : Unit {0} → Cmd A)
        → (p == null) ≡ true
        → Returns Q (k tt s)
        → Returns Q (and_then (Steps.dereg_valid env handler p s) k)
    dereg_valid_null p k e next = rw (e, when, not) next

    pub dereg-Returns :
        (p : Ptr) (rs' : List Resource) (k : Unit {0} → Cmd A)
        → (p == null) ≡ false
        → settle env (ib_dereg_mr p) 0 rs ≡ some rs'
        → ((t : Sys) → P r rs' t → Returns Q (k tt t))
        → Returns Q (and_then (Steps.dereg env handler p s) k)
    dereg-Returns p rs' k e back next =
        rw (e, when, not) (do_call (ib_dereg_mr p) rs' k tt back next)

    pub dereg_valid-Returns :
        (p : Ptr) (rs' : List Resource) (k : Unit {0} → Cmd A)
        → IsGood p
        → settle env (ib_dereg_mr p) 0 rs ≡ some rs'
        → ((t : Sys) → P r rs' t → Returns Q (k tt t))
        → Returns Q (and_then (Steps.dereg_valid env handler p s) k)
    dereg_valid-Returns p rs' k good back next =
        let there : (p == null) ≡ false = ground arith in
        let valid : is_err p ≡ false = ground arith in
        rw (there, valid, when, not) (do_call (ib_dereg_mr p) rs' k tt back next)
