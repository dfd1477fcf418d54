-- ===== src/Server/Teardown.antt =====
-- The serving of a connection in server/megaVM_server.c, from the first receive to the teardown.
use infiniband.Common.{◌≡◌, refl, ap, ◌∙◌, inl, inr, not, some, List, ◌∷◌, ◌==◌, Bool-cases}
use infiniband.Ib.Types.{Ptr, IbContext}
use infiniband.Ib.Calls.{Env, rdma_destroy_id, rdma_disconnect, ib_post_recv}
use infiniband.Ib.Machine.{entry, context, ◌>>=◌, ◌>>◌, Sys, reply_at}
use infiniband.Ib.Ledger.{Resource, give_back, qp, cq, pd, id}
use infiniband.Ib.Frame.{Returns, Returns-bind}
use infiniband.Ib.Follow.{ask}
use infiniband.Ib.Steps
use infiniband.Server.Events.{handler}
use infiniband.Server.Setup.{free_qp, free_buffers}
use infiniband.Server.Transfer.{start_server}
use infiniband.Server.Session.{accept_connections, err0, err1, err2, serve}
use infiniband.Server.Guards.{Named}
use infiniband.Server.Served.{IsServed}
use infiniband.Server.Buffers.{HasBuffers, buffers_of, free_buffers-Returns}
use infiniband.Server.Queues.{Here, serves, free_qp-Returns}
use infiniband.Server.TenRounds.{Served, start_server-Served}
use infiniband.Server.Serve.{accept_connections-Returns, here_ask, here_do_call}

abbrev pub queues_of : IbContext → List Resource → List Resource
queues_of r rs = qp r.qp ∷ cq r.cq ∷ pd r.pd ∷ rs

-- The resources with the child's identifier, and without it.
module _ (env : Env) (child : Ptr) (w : IsServed env child) (i : Ptr) (before after : List Resource)
    (gone : give_back (id child) before ≡ some after) where
  -- What is held is `after`, and the identifier is `i`.
  abbrev pub Home : Unit {0} → Sys → Type 0
  Home u t = (r : IbContext) × (r.cm_id ≡ i) × Here env child w r after t

  pub err0-Home :
      (r : IbContext) {s : Sys}
      → r.cm_id ≡ i
      → Here env child w r before s
      → Returns Home (err0 env s)
  err0-Home r {s} e a =
      ask env (handler env) (serves env child w).follows Home a (rdma_destroy_id s.ctx.child_cm_id)
        after _ tt (ap (λ p. give_back (id p) before) a.guard.0 ∙ gone) λ t at. (r, e, at)

  pub err1-Home :
      (r : IbContext) {s : Sys}
      → r.cm_id ≡ i
      → Here env child w r (queues_of r before) s
      → Returns Home (err1 env s)
  err1-Home r {s} e a =
      Returns-bind (λ _ t. Here env child w r before t) Home (free_qp env s) _
        (free_qp-Returns env child w r before a) λ _ t at. err0-Home r e at

  err2-Home :
      (r : IbContext) {s : Sys}
      → r.cm_id ≡ i
      → HasBuffers r
      → Here env child w r (buffers_of r (queues_of r before)) s
      → Returns Home (err2 env s)
  err2-Home r {s} e b a =
      Returns-bind (λ _ t. Here env child w r (queues_of r before) t) Home (free_buffers env s) _
        (free_buffers-Returns env child (Named child) (serves env child w) r (queues_of r before) b
          a)
        λ _ t at. err1-Home r e at

  finish-Home :
      (r : IbContext) {s : Sys}
      → r.cm_id ≡ i
      → HasBuffers r
      → Here env child w r (buffers_of r (queues_of r before)) s
      → Returns Home (
          (do
            start_server env
            c ← context
            Steps.run env (handler env) (rdma_disconnect c.child_cm_id)
            err2 env)
            s)
  finish-Home r {s} e b a =
      let rs = buffers_of r (queues_of r before) in
      Returns-bind (Served env child w r rs b.memory b.sink _) Home (start_server env s) _
        (start_server-Served env child w r rs b.memory b.sink s
          (r.rdma_sq_wr, (r.rdma_sge, (b.entry, a))))
        λ _ t ((q, (f, (set, at))), posted).
          here_do_call env child w set b.sink Home at (rdma_disconnect t.ctx.child_cm_id) _ _ refl
            λ u au.
              err2-Home (record r { rdma_sq_wr = q; rdma_sge = f }) e
                (record {
                  domain = b.domain;
                  memory = b.memory;
                  regions = b.regions;
                  sink = b.sink;
                  entry = set;
                })
                au

  pub serve-Home :
      (r : IbContext) {s : Sys}
      → r.cm_id ≡ i
      → HasBuffers r
      → Here env child w r (buffers_of r (queues_of r before)) s
      → Returns Home (serve env s)
  unfolding serve
  serve-Home r {s} e b a =
      let rs = buffers_of r (queues_of r before) in
      let c = ib_post_recv s.ctx.qp s.ctx.rq_wr (entry s.ctx s.ctx.rq_wr.sg_list) in
      here_ask env child w b.entry b.sink Home a c _ _ refl λ t at.
        elim (Bool-cases ((reply_at env c s).answer == 0)) [
          | inl ok ↦
              rw (ok, not)
                (Returns-bind (λ _ u. Here env child w r rs u) Home (accept_connections env t) _
                  (accept_connections-Returns env child w r rs b.entry b.sink at)
                  λ linked u au. elim (Bool-cases (linked == 0)) [
                    | inl e' ↦ rw (e', not) (finish-Home r e b au)
                    | inr e' ↦ rw (e', not) (err2-Home r e b au)
                  ])
          | inr bad ↦ rw (bad, not) (err2-Home r e b at)
        ]
