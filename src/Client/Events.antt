-- ===== src/Client/Events.antt =====
-- The event handlers of client/megaVM_client.c.
use infiniband.Common.{false, ℕ, not, ◌==◌, List, if◌then◌else◌}
use infiniband.Ib.Types.{
  minus, sizeof_rdma_info, eq_state, rdma_read_adv, rdma_write_adv, rdma_write_complete, Ptr,
}
use infiniband.Ib.Calls.{Wc, CmEvent, Callback, cma, cqe, Env}
use infiniband.Ib.Machine.{Cmd, pure, ◌>>=◌, ◌>>◌, context, set_state}
use infiniband.Ib.Events
use infiniband.Ib.Events.{Treatment}

-- client_recv. The message itself is not read: it is the server's go-ahead.
unfoldable pub client_recv : Wc → Cmd ℕ
client_recv wc = if not (wc.byte_len == sizeof_rdma_info) then pure (minus 1) else do
  c ← context
  set_state (if eq_state c.state rdma_read_adv then rdma_write_adv else rdma_write_complete)
  pure 0

-- `ret = context->server; if (!ret) ret = client_recv(context, &wc);`
unfoldable pub recv_result : Env → Wc → Cmd ℕ
unfolding client_recv
recv_result env wc = do c ← context; if c.server == 0 then client_recv wc else pure c.server

-- What is the module's own in the handlers.
abbrev pub treatment : Env → Treatment
treatment env = record { message = recv_result env; prints = false }

-- megaVM_cma_event_handler
unfoldable pub cma_event_handler : Env → Ptr → CmEvent → Cmd (Unit {0})
unfolding Events.cma_event_handler
cma_event_handler env = Events.cma_event_handler env

-- megaVM_cq_event_handler
unfoldable pub cq_event_handler : Env → List Wc → ℕ → Cmd (Unit {0})
unfolding Events.cq_event_handler recv_result
cq_event_handler env = Events.cq_event_handler env (treatment env)

-- The handlers that the module registers.
unfoldable pub handler : Env → Callback → Cmd (Unit {0})
unfolding cma_event_handler cq_event_handler
handler env (cma cma_id e) = cma_event_handler env cma_id e
handler env (cqe wcs last) = cq_event_handler env wcs last
