-- ===== src/Client/Converse.antt =====
-- The teardown of a client, and its run behind the setup.
use infiniband.Common.{◌≡◌, refl, inl, inr, not, List, ◌∷◌, ◌==◌, length, Bool-cases}
use infiniband.Ib.Types.{Ptr, IbContext}
use infiniband.Ib.Calls.{Env, rdma_disconnect, ib_post_recv}
use infiniband.Ib.Machine.{entry, context, ◌>>=◌, ◌>>◌, Sys, reply_at}
use infiniband.Ib.Ledger.{Resource, qp, cq, pd}
use infiniband.Ib.Frame.{Returns, Returns-bind}
use infiniband.Ib.Rules.{At, Returns-mono}
use infiniband.Ib.Steps
use infiniband.Ib.Steps.{fill_sockaddr}
use infiniband.Client.Events.{handler}
use infiniband.Client.Setup.{free_qp, free_buffers}
use infiniband.Client.Ping.{test_client}
use infiniband.Client.Session.{connect_client, err2, converse}
use infiniband.Client.Ledger.{ask, do_call}
use infiniband.Client.Queues.{free_qp-Returns}
use infiniband.Client.Buffers.{HasBuffers, buffers_of}
use infiniband.Client.Quiet.{IsDriver}
use infiniband.Client.Buffers.Free.{free_buffers-Returns}
use infiniband.Client.Connect.{Tested, connect_client-Returns, test_client-Returns}

abbrev pub queues_of : IbContext → List Resource → List Resource
queues_of r rs = qp r.qp ∷ cq r.cq ∷ pd r.pd ∷ rs

module _ (env : Env) (d : IsDriver env) where
  module _ (i : Ptr) (rs : List Resource) where
    -- What is held is `rs`, and the identifier is `i`.
    abbrev pub Home : Unit {0} → Sys → Type 0
    Home u t = (r : IbContext) × (r.cm_id ≡ i) × At env r rs t

    pub free_qp-Home :
        (r : IbContext) {s : Sys}
        → r.cm_id ≡ i
        → At env r (queues_of r rs) s
        → Returns Home (free_qp env s)
    free_qp-Home r {s} e a =
        Returns-mono _ Home (free_qp env s) (free_qp-Returns env d a) λ u t at. (r, e, at)

    err2-Home :
        (r : IbContext) {s : Sys}
        → r.cm_id ≡ i
        → HasBuffers r
        → At env r (buffers_of r (queues_of r rs)) s
        → Returns Home (err2 env s)
    err2-Home r {s} e b a =
        Returns-bind (λ _ t. At env r (queues_of r rs) t) Home (free_buffers env s)
          (λ _. free_qp env) (free_buffers-Returns env d r (queues_of r rs) b a)
          λ u t at. free_qp-Home r e at

    finish-Home :
        (r : IbContext) {s : Sys}
        → r.cm_id ≡ i
        → HasBuffers r
        → length r.start_data ≡ 64
        → At env r (buffers_of r (queues_of r rs)) s
        → Returns Home (
            (do
              test_client env
              c ← context
              Steps.run env (handler env) (rdma_disconnect c.cm_id)
              err2 env)
              s)
    finish-Home r {s} e b len a =
        Returns-bind (Tested env d r (buffers_of r (queues_of r rs))) Home (test_client env s) _
          (test_client-Returns env d r (buffers_of r (queues_of r rs)) b len a)
          λ u t (bs, (info, at)).
            do_call env d Home at (rdma_disconnect t.ctx.cm_id) _ _ refl λ t1 a1.
              err2-Home (record r { start_data = bs; send_buf = info }) e
                (record {
                  domain = b.domain;
                  memory = b.memory;
                  regions = b.regions;
                  sink = b.sink;
                  source = b.source;
                  size = b.size;
                })
                a1

    pub converse-Home :
        (r : IbContext) {s : Sys}
        → r.cm_id ≡ i
        → HasBuffers r
        → length r.start_data ≡ 64
        → At env r (buffers_of r (queues_of r rs)) s
        → Returns Home (converse env s)
    unfolding converse
    converse-Home r {s} e b len a =
        ask env d Home a (ib_post_recv s.ctx.qp s.ctx.rq_wr (entry s.ctx s.ctx.rq_wr.sg_list)) _ _
          refl
          λ t at.
            elim (Bool-cases (
              (reply_at env (ib_post_recv s.ctx.qp s.ctx.rq_wr (entry s.ctx s.ctx.rq_wr.sg_list))
                s).answer
              == 0)) [
                | inl ok ↦
                    rw (ok, not)
                      (Returns-bind (λ _ u. At env r (buffers_of r (queues_of r rs)) u) Home
                        (connect_client env t) _ (connect_client-Returns env d at)
                        λ linked u au. elim (Bool-cases (linked == 0)) [
                          | inl e' ↦ rw (e', not) (finish-Home r e b len au)
                          | inr e' ↦ rw (e', not) (err2-Home r e b au)
                        ])
                | inr bad ↦ rw (bad, not) (err2-Home r e b at)
              ]
