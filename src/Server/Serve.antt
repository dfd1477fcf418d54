-- ===== src/Server/Serve.antt =====
-- The service of server/megaVM_server.c, whatever the handlers do meanwhile: the transfers, their
-- rounds, and the acceptance of a connection come to an end.
use infiniband.Common.{
  ℕ, zero, suc, ◌≡◌, refl, ap, ◌∙◌, inl, inr, false, not, ◌||◌, some, List, ◌==◌, arith, Bool-cases,
  length,
}
use infiniband.Ib.Types.{
  TestState, IsGood, Ptr, IbContext, Sge, SendWr, rdma_sgl, rdma_read_complete, rdma_write_complete,
  connected, error, eq_state, is_err, null,
}
use infiniband.Ib.Calls.{Call, ConnParam, Env, ib_post_send, rdma_accept}
use infiniband.Ib.Machine.{call, wait_until, Sys, Cmd, entry, deref, reply_at, skip, and_then}
use infiniband.Ib.Ledger.{Resource, settle}
use infiniband.Ib.Frame.{Returns, Returns-bind}
use infiniband.Ib.Steps.{HasString}
use infiniband.Server.Events.{handler}
use infiniband.Server.Transfer.{wait, prepare_read, prepare_write, rdma_read, rdma_write, rounds}
use infiniband.Server.Session.{accept_connections}
use infiniband.Server.Live.{Live-modify}
use infiniband.Server.Guards.{Named, Named-IsStable, Printable}
use infiniband.Server.Served.{IsServed, serve_ask, serve_wait}
use infiniband.Server.Queues.{Here, serves}

module _ (env : Env) (child : Ptr) (w : IsServed env child) where
  -- The transfer request and its entry are as some round has left them.
  abbrev pub Serving : IbContext → List Resource → Unit {0} → Sys → Type 0
  Serving r rs u t =
      (q : SendWr) × ((e : Sge) × ((q.sg_list ≡ some rdma_sgl)
          × Here env child w (record r { rdma_sq_wr = q; rdma_sge = e }) rs t))

  request_here :
      (r : IbContext) (rs : List Resource) (q : SendWr) (e : Sge) {s : Sys}
      → Here env child w r rs s
      → Here env child w
          (record r { rdma_sq_wr = q; rdma_sge = e })
          rs
          (record s { ctx = record (s.ctx) { rdma_sq_wr = q; rdma_sge = e } })
  request_here r rs q e a =
      Live-modify env child (Named child) (serves env child w)
        (λ c. record c { rdma_sq_wr = q; rdma_sge = e })
        (λ c. record c { rdma_sq_wr = q; rdma_sge = e }) (λ c. refl)
        (λ c. (refl, refl, refl, inl refl)) a

  -- Once there is a buffer, it has its size and holds a string.
  printed :
      (c : IbContext)
      → (c.rdma_buf == null) ≡ false
      → Printable c
      → (length c.rdma_data ≡ 64) × HasString c.rdma_data
  printed c there (inl e) = absurd (ground arith)
  printed c there (inr h) = h

  room : (c : IbContext) → Named child c → (c.rdma_buf == null) ≡ false → length c.rdma_data ≡ 64
  room c g there = (printed c there g.1).0

  -- The rules of Server/Served once the request has its entry.
  module _ {r : IbContext} (set : r.rdma_sq_wr.sg_list ≡ some rdma_sgl)
      (sink : (r.rdma_buf == null) ≡ false) {A : Type 0} (Q : A → Sys → Type 0) {rs : List Resource}
      {s : Sys} (a : Here env child w r rs s) where
    pub here_ask :
        (c : Call) (rs' : List Resource) (k : ℕ → Cmd A)
        → settle env c (reply_at env c s).answer rs ≡ some rs'
        → ((t : Sys) → Here env child w r rs' t → Returns Q (k (reply_at env c s).answer t))
        → Returns Q (and_then (call env (handler env) c s) k)
    here_ask =
        serve_ask env child (Named child) w (Named-IsStable env child w.text) room rdma_sgl set sink
          Q a

    here_wait :
        (st : TestState) (k : ℕ → Cmd A)
        → ((x : ℕ) (t : Sys) → Here env child w r rs t → Returns Q (k x t))
        → Returns Q (and_then (wait_until env (handler env) st s) k)
    here_wait =
        serve_wait env child (Named child) w (Named-IsStable env child w.text) room rdma_sgl set
          sink Q a

  module _ {r : IbContext} (set : r.rdma_sq_wr.sg_list ≡ some rdma_sgl)
      (sink : (r.rdma_buf == null) ≡ false) {A : Type 0} (Q : A → Sys → Type 0) {rs : List Resource}
      {s : Sys} (a : Here env child w r rs s) where
    -- The same where the answer is dropped.
    pub here_do_call :
        (c : Call) (rs' : List Resource) (k : Unit {0} → Cmd A)
        → settle env c (reply_at env c s).answer rs ≡ some rs'
        → ((t : Sys) → Here env child w r rs' t → Returns Q (k tt t))
        → Returns Q (and_then (and_then (call env (handler env) c s) (λ _. skip)) k)
    here_do_call c rs' k e next =
        Returns-bind (λ _ t. Here env child w r rs' t) Q
          (and_then (call env (handler env) c s) (λ _. skip)) k
          (here_ask set sink (λ _ t. Here env child w r rs' t) a c rs' _ e λ t at. at)
          λ _ t at. next t at

    here_do_wait :
        (st : TestState) (k : Unit {0} → Cmd A)
        → ((t : Sys) → Here env child w r rs t → Returns Q (k tt t))
        → Returns Q (and_then (wait env st s) k)
    here_do_wait st k next =
        Returns-bind (λ _ t. Here env child w r rs t) Q (wait env st s) k
          (here_wait set sink (λ _ t. Here env child w r rs t) a st _ λ x t at. at)
          λ _ t at. next t at

  module _ (r : IbContext) (rs : List Resource) (sink : (r.rdma_buf == null) ≡ false) where
    pub wait-Serving :
        (st : TestState) {s : Sys} → Serving r rs tt s → Returns (Serving r rs) (wait env st s)
    wait-Serving st (q, (e, (set, a))) =
        here_wait set sink (Serving r rs) a st _ λ x t at. (q, (e, (set, at)))

    -- The go-ahead.
    pub go_ahead-Serving :
        {s : Sys}
        → Serving r rs tt s
        → Returns (Serving r rs) (
            and_then
              (call env
                (handler env)
                (ib_post_send s.ctx.qp s.ctx.sq_wr (entry s.ctx s.ctx.sq_wr.sg_list))
                s)
              (λ _. skip))
    go_ahead-Serving {s} (q, (e, (set, a))) =
        here_ask set sink (Serving r rs) a
          (ib_post_send s.ctx.qp s.ctx.sq_wr (entry s.ctx s.ctx.sq_wr.sg_list)) rs _ refl
          λ t at. (q, (e, (set, at)))

  module _ (r : IbContext) (rs : List Resource) (memory : IsGood r.dma_mr)
      (sink : (r.rdma_buf == null) ≡ false) where
    module _ (q : SendWr) (e : Sge) (set : q.sg_list ≡ some rdma_sgl) {s : Sys}
        (a : Here env child w (record r { rdma_sq_wr = q; rdma_sge = e }) rs s) where
      entry_here : s.ctx.rdma_sq_wr.sg_list ≡ some rdma_sgl
      entry_here = ap (λ c. c.rdma_sq_wr.sg_list) a.at.context ∙ set

      memory_here : IsGood s.ctx.dma_mr
      memory_here = ap (λ c. (c.dma_mr == null) || is_err c.dma_mr) a.at.context ∙ memory

      prepare_read-Returns : Returns (Serving r rs) (prepare_read env s)
      prepare_read-Returns =
          rw (entry_here, memory_here, deref) (_, (_, (refl, request_here _ rs _ _ a)))

      prepare_write-Returns : Returns (Serving r rs) (prepare_write env s)
      prepare_write-Returns =
          let there : (s.ctx.rdma_buf == null) ≡ false =
            ap (λ c. c.rdma_buf == null) a.at.context ∙ sink in
          let (z, (n, text)) = printed s.ctx there a.guard.1 in
          rw (there, text, entry_here, memory_here, deref) (_, (_, (refl, request_here _ rs _ _ a)))

    rdma_read-Returns : {s : Sys} → Serving r rs tt s → Returns (Serving r rs) (rdma_read env s)
    unfolding rdma_read
    rdma_read-Returns {s} (q, (e, (set, a))) =
        let Q = Serving r rs in
        Returns-bind Q Q (prepare_read env s) _ (prepare_read-Returns q e set a)
          λ _ t (q1, (e1, (set1, a1))).
            here_ask set1 sink Q a1
              (ib_post_send t.ctx.qp t.ctx.rdma_sq_wr (entry t.ctx t.ctx.rdma_sq_wr.sg_list)) rs _
              refl
              λ t2 a2.
                here_wait {r = record r { rdma_sq_wr = record q1 { next = null }; rdma_sge = e1 }}
                  set1 sink Q
                  (Live-modify env child (Named child) (serves env child w)
                    (λ c. record c { rdma_sq_wr = record (c.rdma_sq_wr) { next = null } })
                    (λ c. record c { rdma_sq_wr = record (c.rdma_sq_wr) { next = null } })
                    (λ c. refl) (λ c. (refl, refl, refl, inl refl)) a2)
                  rdma_read_complete _ λ x t3 a3. (record q1 { next = null }, (e1, (set1, a3)))

    rdma_write-Returns : {s : Sys} → Serving r rs tt s → Returns (Serving r rs) (rdma_write env s)
    unfolding rdma_write
    rdma_write-Returns {s} (q, (e, (set, a))) =
        let Q = Serving r rs in
        Returns-bind Q Q (prepare_write env s) _ (prepare_write-Returns q e set a)
          λ _ t (q1, (e1, (set1, a1))).
            here_ask set1 sink Q a1
              (ib_post_send t.ctx.qp t.ctx.rdma_sq_wr (entry t.ctx t.ctx.rdma_sq_wr.sg_list)) rs _
              refl
              λ t2 a2.
                here_wait set1 sink Q a2 rdma_write_complete _ λ x t3 a3. (q1, (e1, (set1, a3)))

    pub rounds-Returns :
        (n : ℕ) {s : Sys} → Serving r rs tt s → Returns (Serving r rs) (rounds n env s)
    unfolding rounds
    rounds-Returns zero a = a
    rounds-Returns (suc n) {s} a =
        let Q = Serving r rs in
        Returns-bind Q Q (rdma_read env s) _ (rdma_read-Returns a) λ _ t at.
          Returns-bind Q Q (rdma_write env t) _ (rdma_write-Returns at)
            λ _ u au. rounds-Returns n au

  -- A connection is accepted or not, and nothing else changes.
  pub accept_connections-Returns :
      (r : IbContext) (rs : List Resource) {s : Sys}
      → r.rdma_sq_wr.sg_list ≡ some rdma_sgl
      → (r.rdma_buf == null) ≡ false
      → Here env child w r rs s
      → Returns (λ _ t. Here env child w r rs t) (accept_connections env s)
  unfolding accept_connections
  accept_connections-Returns r rs {s} set sink a =
      here_ask set sink Same a (rdma_accept s.ctx.child_cm_id param) rs _ refl λ t at.
        elim (Bool-cases ((reply_at env (rdma_accept s.ctx.child_cm_id param) s).answer == 0)) [
          | inl e ↦
              rw (e, not)
                (here_do_wait set sink Same at connected _ λ u au.
                  elim (Bool-cases (eq_state u.ctx.state error)) [
                    | inl e' ↦ rw e' au
                    | inr e' ↦ rw e' au
                  ])
          | inr e ↦ rw (e, not) at
        ]
    where
      Same : ℕ → Sys → Type 0
      Same _ t = Here env child w r rs t

      param : ConnParam
      param = record { responder_resources = 1; initiator_depth = 1; retry_count = 0 }
