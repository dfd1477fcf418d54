-- ===== src/Server/Queues.antt =====
-- The queues of the server: what `setup_pd_and_qp` acquires and `megaVM_free_qp` gives back.
use mathlib.Core.Path.{subst}
use infiniband.Common.{
  ℕ, ◌≡◌, refl, ap, ◌∙◌, sym, ◌⊎◌, inl, inr, true, false, not, List, ◌∷◌, ◌*◌, ◌==◌, arith,
  Bool-cases, if◌then◌else◌,
}
use infiniband.Ib.Types.{IsGood, Ptr, IbContext, is_err, null}
use infiniband.Ib.Calls.{
  Env, QpInitAttr, ib_alloc_pd, ib_dealloc_pd, ib_create_cq, ib_destroy_cq, ib_destroy_qp,
  ib_req_notify_cq, rdma_create_qp,
}
use infiniband.Ib.Machine.{Sys, pure, ◌>>=◌, reply_at, when, deref}
use infiniband.Ib.Ledger.{Resource, pd, cq, qp}
use infiniband.Ib.Frame.{Returns, Returns-bind}
use infiniband.Ib.Rules.{Returns-deref, Returns-else}
use infiniband.Ib.Follow.{ask, do_call}
use infiniband.Server.Events.{handler}
use infiniband.Server.Setup.{
  ask as ask_server, create_qp, free_qp, setup_pd_and_qp, setup_cq_and_qp, destroy_cq_and_pd,
}
use infiniband.Server.Live.{Live, IsFollowed, Live-modify, Live-if}
use infiniband.Server.Guards.{Named, Named-IsStable}
use infiniband.Server.Served.{IsServed, served}

module _ (env : Env) (child : Ptr) (w : IsServed env child) where
  -- The run stands at `r` and `rs`, and the child is there.
  abbrev pub Here : IbContext → List Resource → Sys → Type 0
  Here = Live env (Named child)

  pub serves : IsFollowed env child (Named child)
  serves = served env child (Named child) w (Named-IsStable env child w.text)

  -- What `create_qp` leaves behind, by its result.
  abbrev QueueMade : IbContext → List Resource → ℕ → Sys → Type 0
  QueueMade r rs ret t =
      (((ret == 0) ≡ true) × ((q : Ptr) × Here (record r { qp = q }) (qp q ∷ rs) t))
      ⊎ (((ret == 0) ≡ false) × Here r rs t)

  -- All of a domain, a completion queue and a queue pair, or none of them.
  abbrev pub QueuesReady : IbContext → List Resource → ℕ → Sys → Type 0
  QueuesReady r rs ret t =
      (((ret == 0) ≡ true)
        × ((p c q : Ptr) × IsGood p
            × Here (record r { pd = p; cq = c; qp = q }) (qp q ∷ cq c ∷ pd p ∷ rs) t))
      ⊎ (((ret == 0) ≡ false) × ((r' : IbContext) × (r'.cm_id ≡ r.cm_id) × Here r' rs t))

  queue_here :
      (r : IbContext) (rs : List Resource) (q q' : Ptr) (t : Sys)
      → q ≡ q'
      → Here r (qp q ∷ rs) t
      → Here (record r { qp = q' }) (qp q' ∷ rs) (record t { ctx = record (t.ctx) { qp = q' } })
  queue_here r rs q q' t e a =
      Live-modify env child (Named child) serves (λ c. record c { qp = q' })
        (λ c. record c { qp = q' }) (λ c. refl) (λ c. (refl, refl, refl, inl refl))
        (subst (λ p. Here r (qp p ∷ rs) t) e a)

  create_qp-Returns :
      (r : IbContext) (rs : List Resource) {s : Sys}
      → Here r rs s
      → Returns (QueueMade r rs) (create_qp env s)
  unfolding create_qp
  create_qp-Returns r rs {s} a =
      let x = (reply_at env (rdma_create_qp s.ctx.child_cm_id s.ctx.pd attr) s).answer in
      let id = s.ctx.child_cm_id in
      ask env (handler env) serves.follows (QueueMade r rs) a (rdma_create_qp id s.ctx.pd attr) _ _
        tt refl
        λ t at.
          let same : t.ctx.child_cm_id ≡ child = at.guard.0 in
          let there : IsGood t.ctx.child_cm_id = subst IsGood (sym same) w.good_child in
          elim (Bool-cases (x == 0)) [
            | inl e ↦
                rw (e, when, there, deref)
                  (inl (
                    e,
                    (
                      env.qp_of t.ctx.child_cm_id,
                      queue_here r rs (env.qp_of id) (env.qp_of t.ctx.child_cm_id) t
                          (ap env.qp_of (a.guard.0 ∙ sym same))
                          (Live-if env child (Named child) serves (qp (env.qp_of id) ∷ rs) rs
                            (x == 0) true e at),
                    ),
                  ))
            | inr e ↦
                rw (e, when)
                  (inr (
                    e,
                    Live-if env child (Named child) serves (qp (env.qp_of id) ∷ rs) rs (x == 0)
                        false e at,
                  ))
          ]
    where
      attr : QpInitAttr
      attr = record {
        max_send_wr = s.ctx.txdepth;
        max_recv_wr = 2;
        max_recv_sge = 1;
        max_send_sge = 1;
        send_cq = s.ctx.cq;
        recv_cq = s.ctx.cq;
      }

  module _ (r : IbContext) (rs : List Resource) (p : Ptr) (good : IsGood p) where
    -- The domain and the queue are there.
    abbrev with_cq : Ptr → IbContext
    with_cq x = record r { pd = p; cq = x }

    destroy_cq_and_pd-Returns :
        (x ret : ℕ) {s : Sys}
        → (ret == 0) ≡ false
        → Here (with_cq x) (cq x ∷ pd p ∷ rs) s
        → Returns (QueuesReady r rs) (destroy_cq_and_pd env ret s)
    destroy_cq_and_pd-Returns x ret {s} fails a =
        let Q = QueuesReady r rs in
        do_call env (handler env) serves.follows Q a (ib_destroy_cq s.ctx.cq) (pd p ∷ rs) _ tt
          (ground (arith, ap (λ c. c.cq) a.at.context))
          λ t at.
            do_call env (handler env) serves.follows Q at (ib_dealloc_pd s.ctx.pd) rs _ tt
              (ground (arith, ap (λ c. c.pd) a.at.context))
              λ u au. inr (fails, (with_cq x, refl, au))

    after_create :
        (x ret : ℕ) (t : Sys)
        → QueueMade (with_cq x) (cq x ∷ pd p ∷ rs) ret t
        → Returns
            (QueuesReady r rs)
            ((if not (ret == 0) then destroy_cq_and_pd env ret else pure 0) t)
    after_create x ret t (inl (e, (q, at))) = rw (e, not) (inl (refl, (p, x, q, good, at)))
    after_create x ret t (inr (e, at)) = rw (e, not) (destroy_cq_and_pd-Returns x ret e at)

    notify-Returns :
        (x : ℕ) {s : Sys}
        → Here (with_cq x) (cq x ∷ pd p ∷ rs) s
        → Returns (QueuesReady r rs) (
            (do
              ret ← ask_server env (ib_req_notify_cq x)
              if not (ret == 0) then destroy_cq_and_pd env ret else do
                made ← create_qp env
                if not (made == 0) then destroy_cq_and_pd env made else pure 0)
              s)
    notify-Returns x {s} a =
        let Q = QueuesReady r rs in
        ask env (handler env) serves.follows Q a (ib_req_notify_cq x) _ _ tt refl λ t at.
          elim (Bool-cases ((reply_at env (ib_req_notify_cq x) s).answer == 0)) [
            | inl e ↦
                rw (e, not)
                  (Returns-bind (QueueMade (with_cq x) (cq x ∷ pd p ∷ rs)) Q (create_qp env t) _
                    (create_qp-Returns (with_cq x) (cq x ∷ pd p ∷ rs) at) (after_create x))
            | inr e ↦ rw (e, not) (destroy_cq_and_pd-Returns x _ e at)
          ]

    setup_cq_and_qp-Returns :
        {s : Sys}
        → Here (record r { pd = p }) (pd p ∷ rs) s
        → Returns (QueuesReady r rs) (setup_cq_and_qp env child s)
    setup_cq_and_qp-Returns {s} a =
        let Q = QueuesReady r rs in
        let n = s.ctx.txdepth * 2 in
        let x = (reply_at env (ib_create_cq (env.device_of child) n) s).answer in
        let good_x : IsGood x = w.good_cq _ (env.device_of child) n in
        let there : (x == null) ≡ false = ground arith in
        let valid : is_err x ≡ false = ground arith in
        Returns-deref Q child s _ w.good_child (
          ask env (handler env) serves.follows Q a (ib_create_cq (env.device_of child) n) _ _ tt
            refl
            λ t at. Returns-else Q (x == null) _ _ _ there (
              notify-Returns x (
                Live-modify env child (Named child) serves (λ c. record c { cq = x })
                  (λ c. record c { cq = x }) (λ c. refl) (λ c. (refl, refl, refl, inl refl))
                  (Live-if env child (Named child) serves (pd p ∷ rs) (cq x ∷ pd p ∷ rs) (is_err x)
                    false valid at))))

  -- On a server whose one client connects as `child`, under the conditions of `IsServed`, among them that
  -- `ib_alloc_pd` and `ib_create_cq` never fail, and where the context names `child`: `setup_pd_and_qp`
  -- returns, whatever else it is answered and whatever the
  -- handlers do meanwhile. With 0 it holds one queue pair, one completion queue and one protection
  -- domain more, the ones that the context names, and the domain is a good pointer; with another
  -- result it holds exactly `rs`. The context names `child` in either case.
  pub setup_pd_and_qp-Returns :
      (r : IbContext) (rs : List Resource) {s : Sys}
      → Here r rs s
      → Returns (QueuesReady r rs) (setup_pd_and_qp env child s)
  unfolding setup_pd_and_qp
  setup_pd_and_qp-Returns r rs {s} a =
      let Q = QueuesReady r rs in
      let x = (reply_at env (ib_alloc_pd (env.device_of child)) s).answer in
      let good_x : IsGood x = w.good_pd _ (env.device_of child) in
      let there : (x == null) ≡ false = ground arith in
      let valid : is_err x ≡ false = ground arith in
      let good_id : IsGood child = w.good_child in
      let some_id : (child == null) ≡ false = ground arith in
      Returns-else Q (child == null) _ _ s some_id (
        Returns-deref Q child s _ good_id (
          ask env (handler env) serves.follows Q a (ib_alloc_pd (env.device_of child)) _ _ tt refl
            λ t at. Returns-else Q (x == null) _ _ _ there (
              setup_cq_and_qp-Returns r rs x good_x (
                Live-modify env child (Named child) serves (λ c. record c { pd = x })
                  (λ c. record c { pd = x }) (λ c. refl) (λ c. (refl, refl, refl, inl refl))
                  (Live-if env child (Named child) serves rs (pd x ∷ rs) (is_err x) false valid
                    at)))))

  abbrev Gone : IbContext → List Resource → Unit {0} → Sys → Type 0
  Gone r rs u t = Here r rs t

  pub free_qp-Returns :
      (r : IbContext) (rs : List Resource) {s : Sys}
      → Here r (qp r.qp ∷ cq r.cq ∷ pd r.pd ∷ rs) s
      → Returns (λ _ t. Here r rs t) (free_qp env s)
  unfolding free_qp
  free_qp-Returns r rs {s} a =
      let h = handler env in
      let f = serves.follows in
      do_call env h f (Gone r rs) a (ib_destroy_qp s.ctx.qp) (cq r.cq ∷ pd r.pd ∷ rs) _ tt
        (ground (arith, ap (λ c. c.qp) a.at.context))
        λ t at.
          do_call env h f (Gone r rs) at (ib_destroy_cq s.ctx.cq) (pd r.pd ∷ rs) _ tt
            (ground (arith, ap (λ c. c.cq) a.at.context))
            λ u au.
              ask env h f (Gone r rs) au (ib_dealloc_pd s.ctx.pd) rs _ tt
                (ground (arith, ap (λ c. c.pd) a.at.context)) λ v av. av
