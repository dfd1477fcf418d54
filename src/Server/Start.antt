-- ===== src/Server/Start.antt =====
-- What `megaVM_StartServer` does from the bind to the end, and what is held then.
use mathlib.Core.Path.{subst}
use infiniband.Common.{
  ℕ, ◌≡◌, refl, ◌∙◌, sym, ◌⊎◌, inl, inr, true, false, not, some, List, ◌==◌, arith, if◌then◌else◌,
  Bool-cases,
}
use infiniband.Ib.Types.{Ptr, IbContext, minus, eq_state, connect_request}
use infiniband.Ib.Calls.{Env, rdma_bind_addr, rdma_listen}
use infiniband.Ib.Machine.{Outcome, wait_until, pure, ◌>>=◌, ◌>>◌, Sys, reply_at, context}
use infiniband.Ib.Ledger.{Resource, give_back, id}
use infiniband.Ib.Frame.{Returns, Returns-bind}
use infiniband.Ib.Rules.{Returns-mono}
use infiniband.Ib.Follow.{ask}
use infiniband.Ib.Steps.{fill_sockaddr}
use infiniband.Server.Events.{handler}
use infiniband.Server.Setup.{setup_pd_and_qp, setup_buffers}
use infiniband.Server.Transfer.{wait}
use infiniband.Server.Session.{bind_server, err0, err1, serve, run_server}
use infiniband.Server.Live.{Live, IsFollowed}
use infiniband.Server.Quiet.{Anything}
use infiniband.Server.Guards.{Awaited, Named, Awaited-IsStable}
use infiniband.Server.Served.{IsServed, served, wait_for_request}
use infiniband.Server.Buffers.{NoRegions, Untouched, BuffersReady, buffers_of}
use infiniband.Server.Buffers.Ready.{setup_buffers-Returns}
use infiniband.Server.Queues.{Here, serves, QueuesReady, setup_pd_and_qp-Returns}
use infiniband.Server.Teardown.{queues_of, Home, err0-Home, err1-Home, serve-Home}

module _ (env : Env) (child : Ptr) (w : IsServed env child) where
  -- Before a request is seen.
  abbrev pub Waiting : IbContext → List Resource → Sys → Type 0
  Waiting = Live env (Awaited child)

  pub waits : IsFollowed env child (Awaited child)
  waits = served env child (Awaited child) w (Awaited-IsStable env child w.text)

  -- What `bind_server` leaves behind, by its result: with 0 the child is there.
  abbrev Bound : IbContext → List Resource → ℕ → Sys → Type 0
  Bound r rs ret t =
      (((ret == 0) ≡ true) × Here env child w r rs t) ⊎ (((ret == 0) ≡ false) × Waiting r rs t)

  requested :
      (r : IbContext) (rs : List Resource) (t : Sys)
      → eq_state t.ctx.state connect_request ≡ true
      → Waiting r rs t
      → Here env child w r rs t
  requested r rs t e a = elim (a.guard.0) [
    | inl none_yet ↦ absurd (ground arith)
    | inr there ↦ record { at = a.at; guard = (there, a.guard.1) }
  ]

  bind_server-Returns :
      (r : IbContext) (rs : List Resource) {s : Sys}
      → Waiting r rs s
      → Returns (Bound r rs) (bind_server env s)
  unfolding bind_server
  bind_server-Returns r rs {s} a =
      let Q = Bound r rs in
      let c = rdma_bind_addr s.ctx.cm_id (fill_sockaddr s.ctx) in
      ask env (handler env) waits.follows Q a c rs _ tt refl λ t at.
        elim (Bool-cases ((reply_at env c s).answer == 0)) [
          | inr e ↦ rw (e, not) (inr (e, at))
          | inl e ↦
              rw (e, not)
                (let l = rdma_listen s.ctx.cm_id 3 in
                  ask env (handler env) waits.follows Q at l rs _ tt refl λ u au.
                    elim (Bool-cases ((reply_at env l t).answer == 0)) [
                      | inr e' ↦ rw (e', not) (inr (e', au))
                      | inl e' ↦ rw (e', not) (listened u au)
                    ])
        ]
    where
      listened :
          (u : Sys)
          → Waiting r rs u
          → Returns (Bound r rs) (
              (do
                wait env connect_request
                c' ← context
                if not (eq_state c'.state connect_request) then pure (minus 1) else pure 0)
                u)
      listened u au =
          Returns-bind (λ _ v. Waiting r rs v) (Bound r rs) (wait env connect_request u) _
            (Returns-bind (λ _ v. Waiting r rs v) (λ _ v. Waiting r rs v)
              (wait_until env (handler env) connect_request u) _
              (wait_for_request env child (Awaited child) w (Awaited-IsStable env child w.text) r rs
                u au)
              λ x v av. av)
            λ x v av. elim (Bool-cases (eq_state v.ctx.state connect_request)) [
              | inl e ↦ rw (e, not) (inl (refl, requested r rs v e av))
              | inr e ↦ rw (e, not) (inr (refl, av))
            ]

  same_queues :
      (r r' : IbContext) (rs : List Resource) → Untouched r r' → queues_of r rs ≡ queues_of r' rs
  same_queues r r' rs (ei, ep, ec, eq) = rw (ep, ec, eq) refl

  module _ (r : IbContext) (before after : List Resource)
      (gone : give_back (id child) before ≡ some after) (regions : NoRegions r) where
    -- What `megaVM_StartServer` leaves behind: the child's identifier is gone, if one was taken on.
    abbrev pub Ended : Unit {0} → Sys → Type 0
    Ended u t =
        (r' : IbContext) × ((r'.cm_id ≡ r.cm_id)
          × (Live env Anything r' before t ⊎ Live env Anything r' after t))

    Home-Ended :
        (o : Outcome (Unit {0}))
        → Returns (Home env child w r.cm_id before after gone) o
        → Returns Ended o
    Home-Ended o h =
        Returns-mono (Home env child w r.cm_id before after gone) Ended o h
          λ x t (r', e, a). (r', (e, inr (record { at = a.at; guard = tt })))

    after_buffers :
        (r1 : IbContext) (ret : ℕ) (t : Sys)
        → r1.cm_id ≡ r.cm_id
        → BuffersReady env child (Named child) (serves env child w) r1 (queues_of r1 before) ret t
        → Returns
            (Home env child w r.cm_id before after gone)
            ((if not (ret == 0) then err1 env else serve env) t)
    after_buffers r1 ret t same_id (inl (e, (r2, u, b, a))) =
        rw (e, not)
          (serve-Home env child w r.cm_id before after gone r2 (u.0 ∙ same_id) b
            (subst (λ qs. Here env child w r2 (buffers_of r2 qs) t) (same_queues r1 r2 before u) a))
    after_buffers r1 ret t same_id (inr (e, (r2, u, a))) =
        rw (e, not)
          (err1-Home env child w r.cm_id before after gone r2 (u.0 ∙ same_id)
            (subst (λ qs. Here env child w r2 qs t) (same_queues r1 r2 before u) a))

    after_queues :
        (made : ℕ) (t : Sys)
        → QueuesReady env child w r before made t
        → Returns (Home env child w r.cm_id before after gone) (
            (if not (made == 0)
                then err0 env
                else do ready ← setup_buffers env; if not (ready == 0) then err1 env else serve env)
              t)
    after_queues made t (inl (e, (p, c, q, good, a))) =
        let r1 : IbContext = record r { pd = p; cq = c; qp = q } in
        rw (e, not)
          (Returns-bind
            (BuffersReady env child (Named child) (serves env child w) r1 (queues_of r1 before))
            (Home env child w r.cm_id before after gone) (setup_buffers env t) _
            (setup_buffers-Returns env child (Named child) (serves env child w) r1
              (queues_of r1 before) (record { domain = good; regions = regions }) a)
            (λ ret u. after_buffers r1 ret u refl))
    after_queues made t (inr (e, (r', same_id, a))) =
        rw (e, not) (err0-Home env child w r.cm_id before after gone r' same_id a)

    pub run_server-Ended : {s : Sys} → Waiting r before s → Returns Ended (run_server env s)
    unfolding run_server
    run_server-Ended {s} a =
        Returns-bind (Bound r before) Ended (bind_server env s) _ (bind_server-Returns r before a)
          λ ret t h. elim h [
            | inl (e, at) ↦
                rw (e, not)
                  (Home-Ended _ (
                    Returns-bind (QueuesReady env child w r before)
                      (Home env child w r.cm_id before after gone)
                      (setup_pd_and_qp env t.ctx.child_cm_id t) _
                      (subst
                        (λ i. Returns (QueuesReady env child w r before) (setup_pd_and_qp env i t))
                        (sym at.guard.0) (setup_pd_and_qp-Returns env child w r before at))
                      after_queues))
            | inr (e, at) ↦ rw (e, not) (r, (refl, inl (record { at = at.at; guard = tt })))
          ]
