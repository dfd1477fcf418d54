-- ===== src/Client/Queues.antt =====
-- The queues of the client: what `megaVM_setup_qp` acquires and `megaVM_free_qp` gives back.
use infiniband.Common.{
  ℕ, ◌≡◌, refl, ap, ◌∙◌, ◌⊎◌, inl, inr, true, false, not, List, ◌∷◌, ◌*◌, ◌==◌, ◌^◌, ◌<◌, arith,
  Bool-cases, if◌then◌else◌,
}
use infiniband.Ib.Types.{IsGood, Ptr, IbContext, is_err, null}
use infiniband.Ib.Calls.{
  Call, Env, ib_alloc_pd, ib_dealloc_pd, ib_create_cq, ib_destroy_cq, ib_destroy_qp,
  ib_req_notify_cq,
}
use infiniband.Ib.Machine.{Sys, Outcome, done, asleep, oops, pure, ◌>>=◌, ◌>>◌, reply_at, skip}
use infiniband.Ib.Ledger.{Resource, pd, cq, qp}
use infiniband.Ib.Frame.{Returns, Returns-bind}
use infiniband.Ib.Rules.{At}
use infiniband.Client.Setup.{
  run, setup_qp, free_qp, setup_queue, setup_queues, create_qp, ptr_err, destroy_cq_and_pd,
}
use infiniband.Client.Ledger.{
  ask, do_call, read_through, QueueMade, QueuePair, create_qp-Returns, destroy_cq_and_pd-Returns,
  Returns-or,
}
use infiniband.Client.Quiet.{IsDriver}

module _ (env : Env) (d : IsDriver env) where
  -- `setup_qp` ends with all of a domain, a completion queue and a queue pair, or with none of them.
  abbrev pub QueuesReady : IbContext → List Resource → ℕ → Sys → Type 0
  QueuesReady r rs ret t =
      (((ret == 0) ≡ true)
        × ((p c q : Ptr) × ((p == null) ≡ false)
            × (is_err p ≡ false)
            × At env (record r { pd = p; cq = c; qp = q }) (qp q ∷ cq c ∷ pd p ∷ rs) t))
      ⊎ (((ret == 0) ≡ false) × ((r' : IbContext) × (r'.cm_id ≡ r.cm_id) × At env r' rs t))

  module _ {r : IbContext} (rs' : List Resource) {s : Sys} (good : IsGood r.cm_id)
      (a : At env r (cq r.cq ∷ pd r.pd ∷ rs') s) where
    after_create :
        (ret : ℕ) (t : Sys)
        → QueueMade env d a ret t
        → Returns
            (QueuePair env d a rs')
            ((if not (ret == 0) then destroy_cq_and_pd env ret else pure 0) t)
    after_create ret t (inl (e, at)) = rw (e, not) (inl (refl, at))
    after_create ret t (inr (e, at)) =
        rw (e, not) (Returns-or env d a rs' _ (destroy_cq_and_pd-Returns env d at ret rs' e refl))

    setup_queue-Returns : (p : Ptr) → Returns (QueuePair env d a rs') (setup_queue env p s)
    setup_queue-Returns p =
        ask env d (QueuePair env d a rs') a (ib_req_notify_cq p) _ _ refl λ t at.
          elim (Bool-cases ((reply_at env (ib_req_notify_cq p) s).answer == 0)) [
            | inl e ↦
                rw (e, not)
                  (Returns-bind (QueueMade env d at) (QueuePair env d a rs') (create_qp env t) _
                    (create_qp-Returns env d at good) after_create)
            | inr e ↦
                rw (e, not)
                  (Returns-or env d a rs' _ (destroy_cq_and_pd-Returns env d at _ rs' e refl))
          ]

  -- A pointer that is an error is no zero as an int.
  ptr_err-nonzero :
      (n : ℕ) (c : Call)
      → is_err (env.reply n c).answer ≡ true
      → (ptr_err (env.reply n c).answer == 0) ≡ false
  ptr_err-nonzero n c e = let small : (env.reply n c).answer < 2 ^ 64 = d.word n c in ground arith

  abbrev with_queue : Ptr → Sys → Sys
  with_queue x t = record t { ctx = record (t.ctx) { cq = x } }

  abbrev with_pd : Ptr → Sys → Sys
  with_pd x t = record t { ctx = record (t.ctx) { pd = x } }

  module _ (r : IbContext) (rs : List Resource) (good : IsGood r.cm_id) (p : Ptr)
      (ok : is_err p ≡ false) (there : (p == null) ≡ false) where
    with_queue-At :
        (x : Ptr) (rs' : List Resource) (t : Sys)
        → At env (record r { pd = p }) rs' t
        → At env (record (record r { pd = p }) { cq = x }) rs' (with_queue x t)
    with_queue-At x rs' t at = record {
      context = ap {A = IbContext} (λ c. record c { cq = x }) at.context;
      resources = at.resources;
    }

    Returns-ready :
        (x : Ptr) (s : Sys)
        (at : At env (record (record r { pd = p }) { cq = x }) (cq x ∷ pd p ∷ rs) s) (o : Outcome ℕ)
        → Returns (QueuePair env d at rs) o
        → Returns (QueuesReady r rs) o
    Returns-ready x s at (done ret t) (inl (e, at')) =
        inl (e, (p, x, env.qp_of r.cm_id, there, ok, at'))
    Returns-ready x s at (done ret t) (inr (e, at')) =
        inr (e, (record (record r { pd = p }) { cq = x }, refl, at'))
    Returns-ready x s at (asleep t) h = absurd h
    Returns-ready x s at oops h = absurd h

    no_queue :
        (x : Ptr) (t : Sys)
        → (ptr_err x == 0) ≡ false
        → At env (record r { pd = p }) (pd p ∷ rs) t
        → Returns
            (QueuesReady r rs)
            ((do run env (ib_dealloc_pd p); pure (ptr_err x)) (with_queue x t))
    no_queue x t e at =
        do_call env d (QueuesReady r rs) (with_queue-At x (pd p ∷ rs) t at) (ib_dealloc_pd p) rs _
          (ground arith) λ u at'. inr (e, (record (record r { pd = p }) { cq = x }, refl, at'))

    after_cq :
        (x : Ptr) (t : Sys)
        → (is_err x ≡ true → (ptr_err x == 0) ≡ false)
        → At env (record r { pd = p }) (if is_err x then pd p ∷ rs else (cq x ∷ pd p ∷ rs)) t
        → Returns (QueuesReady r rs) (
            (if is_err x
                then (do run env (ib_dealloc_pd p); pure (ptr_err x))
                else setup_queue env x)
              (with_queue x t))
    after_cq x t fails at = elim (Bool-cases (is_err x)) [
      | inl e ↦ rw e (
          no_queue x t (fails e) (record { context = at.context; resources = at.resources ∙ rw e }))
      | inr e ↦
          rw e
            let at' : At env (record (record r { pd = p }) { cq = x }) (cq x ∷ pd p ∷ rs)
                  (with_queue x t) =
                with_queue-At x (cq x ∷ pd p ∷ rs) t
                  (record { context = at.context; resources = at.resources ∙ rw e }) in
              Returns-ready x (with_queue x t) at' _ (setup_queue-Returns rs good at' x)
    ]

    setup_queues-Returns :
        {s : Sys}
        → At env (record r { pd = p }) (pd p ∷ rs) s
        → Returns (QueuesReady r rs) (setup_queues env r.cm_id p s)
    setup_queues-Returns {s} a =
        ask env d (QueuesReady r rs) a (ib_create_cq (env.device_of r.cm_id) (s.ctx.txdepth * 2)) _
          _ refl λ t at. after_cq _ t (ptr_err-nonzero _ _) at

  module _ (r : IbContext) (rs : List Resource) (good : IsGood r.cm_id) where
    after_pd :
        (x : Ptr) (t : Sys)
        → (is_err x ≡ true → (ptr_err x == 0) ≡ false)
        → (x == null) ≡ false
        → At env r (if is_err x then rs else (pd x ∷ rs)) t
        → Returns
            (QueuesReady r rs)
            ((if is_err x then pure (ptr_err x) else setup_queues env r.cm_id x) (with_pd x t))
    after_pd x t fails there at = elim (Bool-cases (is_err x)) [
      | inl e ↦ rw e (
          inr (
            fails e,
            (
              record r { pd = x },
              refl,
              record {
                context = ap {A = IbContext} (λ c. record c { pd = x }) at.context;
                resources = at.resources ∙ rw e;
              },
            ),
          ))
      | inr e ↦ rw e (
          setup_queues-Returns r rs good x e there (record {
            context = ap {A = IbContext} (λ c. record c { pd = x }) at.context;
            resources = at.resources ∙ rw e;
          }))
    ]

    -- On an identifier that may be read, under a driver that answers as documented, reports no RDMA
    -- transfer and lets a signal end a wait: started with the resources `rs` held, `setup_qp` returns,
    -- whatever the calls answer and whatever the handlers do meanwhile. With 0 it holds one queue pair,
    -- one completion queue and one protection domain more, the ones that the context names, and the
    -- domain is a good pointer; with another result it holds exactly `rs`.
    pub setup_qp-Returns :
        {s : Sys} → At env r rs s → Returns (QueuesReady r rs) (setup_qp env r.cm_id s)
    unfolding setup_qp
    setup_qp-Returns a = read_through env d (QueuesReady r rs) a r.cm_id _ good (
        ask env d (QueuesReady r rs) a (ib_alloc_pd (env.device_of r.cm_id)) _ _ refl
          λ t at. after_pd _ t (ptr_err-nonzero _ _) (d.good_pd _ _) at)

  module _ {r : IbContext} {rs : List Resource} {s : Sys}
      (a : At env r (qp r.qp ∷ cq r.cq ∷ pd r.pd ∷ rs) s) where
    abbrev pub Freed : Unit {0} → Sys → Type 0
    Freed u t = At env r rs t

    pub free_qp-Returns : Returns Freed (free_qp env s)
    unfolding free_qp
    free_qp-Returns =
        do_call env d Freed a (ib_destroy_qp s.ctx.qp) (cq r.cq ∷ pd r.pd ∷ rs) _
          (ground (arith, ap (λ c. c.qp) a.context))
          λ t at.
            do_call env d Freed at (ib_destroy_cq s.ctx.cq) (pd r.pd ∷ rs) _
              (ground (arith, ap (λ c. c.cq) a.context))
              λ u at'.
                ask env d Freed at' (ib_dealloc_pd s.ctx.pd) rs _
                  (ground (arith, ap (λ c. c.pd) a.context)) λ v at''. at''

  -- What is held is `rs` again, whatever the context.
  abbrev pub Balanced : List Resource → Unit {0} → Sys → Type 0
  Balanced rs u t = (r : IbContext) × At env r rs t

  Freed-Balanced :
      {r : IbContext} (rs : List Resource) {s : Sys}
      (a : At env r (qp r.qp ∷ cq r.cq ∷ pd r.pd ∷ rs) s) (o : Outcome (Unit {0}))
      → Returns (Freed a) o
      → Returns (Balanced rs) o
  Freed-Balanced {r} rs a (done u t) h = (r, h)
  Freed-Balanced rs a (asleep t) h = absurd h
  Freed-Balanced rs a oops h = absurd h

  free_after :
      (r : IbContext) (rs : List Resource) (ret : ℕ) (t : Sys)
      → QueuesReady r rs ret t
      → Returns (Balanced rs) ((if ret == 0 then free_qp env else skip) t)
  free_after r rs ret t (inl (e, (p, c, q, there, ok, at))) =
      rw e (Freed-Balanced rs at (free_qp env t) (free_qp-Returns at))
  free_after r rs ret t (inr (e, (r', same_id, at))) = rw e (r', at)

  -- `megaVM_setup_qp`, and `megaVM_free_qp` where it has returned 0, on an identifier that may be read,
  -- under a driver that answers as documented, reports no RDMA transfer and lets a signal end a wait:
  -- the two return, whatever the driver answers and whatever the handlers do meanwhile, every resource
  -- is given back as often as it was acquired, and what is held then is what was held before.
  pub setup_qp-free_qp :
      (r : IbContext) (rs : List Resource) {s : Sys}
      → IsGood r.cm_id
      → At env r rs s
      → Returns
          (Balanced rs)
          ((setup_qp env r.cm_id >>= λ ret. if ret == 0 then free_qp env else skip) s)
  setup_qp-free_qp r rs {s} good a =
      Returns-bind (QueuesReady r rs) (Balanced rs) (setup_qp env r.cm_id s) _
        (setup_qp-Returns r rs good a) (free_after r rs)
