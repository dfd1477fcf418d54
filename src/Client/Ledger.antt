-- ===== src/Client/Ledger.antt =====
-- The rules of Ib/Rules for the main thread of client/megaVM_client.c, and what `megaVM_create_qp` and
-- the error path of `megaVM_setup_qp` do to the resources held.
use mathlib.Core.Path.{subst}
use infiniband.Common.{
  sym, ℕ, ◌≡◌, refl, ap, ◌∙◌, ◌⊎◌, inl, inr, true, false, some, List, ◌∷◌, ◌==◌, arith, Bool-cases,
  if◌then◌else◌,
}
use infiniband.Ib.Types.{IsGood, Ptr, IbContext}
use infiniband.Ib.Calls.{Call, Env, QpInitAttr, ib_dealloc_pd, ib_destroy_cq, rdma_create_qp}
use infiniband.Ib.Machine.{
  Sys, Outcome, done, asleep, oops, Cmd, and_then, call, deref, reply_at, when, skip,
}
use infiniband.Ib.Ledger.{Resource, pd, cq, qp, settle}
use infiniband.Ib.Frame.{Returns}
use infiniband.Ib.Rules.{At, call-Returns, run-Returns}
use infiniband.Client.Events.{handler}
use infiniband.Client.Setup.{create_qp, destroy_cq_and_pd}
use infiniband.Ib.Mild.{IsMild}
use infiniband.Client.Quiet.{IsDriver, handler-Keeps}

module _ (env : Env) (d : IsDriver env) where
  module _ {A : Type 0} (Q : A → Sys → Type 0) {r : IbContext} {rs : List Resource} {s : Sys}
      (a : At env r rs s) where
    pub ask :
        (c : Call) (rs' : List Resource) (k : ℕ → Cmd A)
        → settle env c (reply_at env c s).answer rs ≡ some rs'
        → ((t : Sys) → At env r rs' t → Returns Q (k (reply_at env c s).answer t))
        → Returns Q (and_then (call env (handler env) c s) k)
    ask = call-Returns env (handler env) IsMild d.polite (handler-Keeps env) a Q

    pub do_call :
        (c : Call) (rs' : List Resource) (k : Unit {0} → Cmd A)
        → settle env c (reply_at env c s).answer rs ≡ some rs'
        → ((t : Sys) → At env r rs' t → Returns Q (k tt t))
        → Returns Q (and_then (and_then (call env (handler env) c s) (λ _. skip)) k)
    do_call = run-Returns env (handler env) IsMild d.polite (handler-Keeps env) a Q

    pub read_through :
        (p : Ptr) (k : Unit {0} → Cmd A)
        → IsGood p
        → Returns Q (k tt s)
        → Returns Q (and_then (deref p s) k)
    read_through p k good next = rw (good, deref) next

  module _ {r : IbContext} {rs : List Resource} {s : Sys} (a : At env r rs s) where
    -- What `create_qp` leaves behind, by its result.
    abbrev pub QueueMade : ℕ → Sys → Type 0
    QueueMade ret t =
        (((ret == 0) ≡ true)
          × At env (record r { qp = env.qp_of r.cm_id }) (qp (env.qp_of r.cm_id) ∷ rs) t)
        ⊎ (((ret == 0) ≡ false) × At env r rs t)

    made :
        (x id : ℕ) (t : Sys)
        → id ≡ r.cm_id
        → (x == 0) ≡ true
        → At env r (if x == 0 then qp (env.qp_of id) ∷ rs else rs) t
        → At env r (qp (env.qp_of r.cm_id) ∷ rs) t
    made x id t ei e at = record { context = at.context; resources = at.resources ∙ rw (e, ei) }

    unmade :
        (x id : ℕ) (t : Sys)
        → (x == 0) ≡ false
        → At env r (if x == 0 then qp (env.qp_of id) ∷ rs else rs) t
        → At env r rs t
    unmade x id t e at = record { context = at.context; resources = at.resources ∙ rw e }

    pub create_qp-Returns : IsGood r.cm_id → Returns QueueMade (create_qp env s)
    unfolding create_qp
    create_qp-Returns good =
        ask QueueMade a (rdma_create_qp s.ctx.cm_id s.ctx.pd attr) _ _ refl λ t at.
          elim (Bool-cases (x == 0)) [
            | inl e ↦
                let same_id : t.ctx.cm_id ≡ r.cm_id = ap (λ c. c.cm_id) at.context in
                let there : IsGood t.ctx.cm_id = subst IsGood (sym same_id) good in
                rw (e, when, there, deref)
                  (inl (
                    e,
                    record {
                      context =
                          ap {A = IbContext} (λ c. record c { qp = env.qp_of c.cm_id }) at.context;
                      resources =
                          (made x s.ctx.cm_id t (ap (λ c. c.cm_id) a.context) e at).resources;
                    },
                  ))
            | inr e ↦ rw (e, when) (inr (e, unmade x s.ctx.cm_id t e at))
          ]
      where
        attr : QpInitAttr
        attr = record {
          max_send_wr = s.ctx.txdepth;
          max_recv_wr = 2;
          max_recv_sge = 1;
          max_send_sge = 1;
          send_cq = s.ctx.cq;
          recv_cq = s.ctx.cq;
        }

        x : ℕ
        x = (reply_at env (rdma_create_qp s.ctx.cm_id s.ctx.pd attr) s).answer

    -- The failure of a function that leaves the resources `rs'`.
    abbrev pub Failed : List Resource → ℕ → Sys → Type 0
    Failed rs' ret t = ((ret == 0) ≡ false) × At env r rs' t

    -- After a failure the completion queue and the domain are given back.
    pub destroy_cq_and_pd-Returns :
        (ret : ℕ) (rs' : List Resource)
        → (ret == 0) ≡ false
        → rs ≡ cq r.cq ∷ pd r.pd ∷ rs'
        → Returns (Failed rs') (destroy_cq_and_pd env ret s)
    destroy_cq_and_pd-Returns ret rs' fails ers =
        do_call (Failed rs') a (ib_destroy_cq s.ctx.cq) (pd r.pd ∷ rs') _
          (ground (arith, ers, ap (λ c. c.cq) a.context))
          λ t at.
            do_call (Failed rs') at (ib_dealloc_pd s.ctx.pd) rs' _
              (ground (arith, ap (λ c. c.pd) a.context)) λ u at'. (fails, at')

    -- What `setup_queue` leaves behind of the queue `q` and the domain `p`, by its result.
    abbrev pub QueuePair : List Resource → ℕ → Sys → Type 0
    QueuePair rs' ret t =
        (((ret == 0) ≡ true)
          × At env (record r { qp = env.qp_of r.cm_id }) (qp (env.qp_of r.cm_id) ∷ rs) t)
        ⊎ (((ret == 0) ≡ false) × At env r rs' t)

    pub Returns-or :
        (rs' : List Resource) (o : Outcome ℕ) → Returns (Failed rs') o → Returns (QueuePair rs') o
    Returns-or rs' (done x t) h = inr h
    Returns-or rs' (asleep t) h = absurd h
    Returns-or rs' oops h = absurd h
