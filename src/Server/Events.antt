-- ===== src/Server/Events.antt =====
-- The event handlers of server/megaVM_server.c.
use infiniband.Common.{true, ℕ, not, ◌||◌, ◌==◌, List, if◌then◌else◌}
use infiniband.Ib.Types.{
  minus, sizeof_rdma_info, le_state, eq_state, connected, rdma_read_adv, rdma_write_adv,
  rdma_write_complete, Ptr,
}
use infiniband.Ib.Calls.{Wc, CmEvent, Callback, cma, cqe, Env}
use infiniband.Ib.Machine.{Cmd, pure, ◌>>=◌, ◌>>◌, context, modify, set_state}
use infiniband.Ib.Events
use infiniband.Ib.Events.{Treatment}

-- server_recv. The message is decoded, and the state says which of the two advertisements it is.
unfoldable pub server_recv : Env → Wc → Cmd ℕ
server_recv env wc = if not (wc.byte_len == sizeof_rdma_info) then pure (minus 1) else do
  modify λ c. record c {
    remote_rkey = env.ntohl c.recv_buf.rkey;
    remote_addr = env.cpu_to_be64 c.recv_buf.buf;
    remote_len = env.ntohl c.recv_buf.size;
  }
  c ← context
  set_state (
      if le_state c.state connected || eq_state c.state rdma_write_complete
      then rdma_read_adv
      else rdma_write_adv)
  pure 0

-- `ret = cb->server; if (ret) ret = server_recv(cb, &wc);`
unfoldable pub recv_result : Env → Wc → Cmd ℕ
unfolding server_recv
recv_result env wc = do c ← context; if c.server == 0 then pure c.server else server_recv env wc

-- What is the module's own in the handlers.
abbrev pub treatment : Env → Treatment
treatment env = record { message = recv_result env; prints = true }

-- megaVM_cma_event_handler
unfoldable pub cma_event_handler : Env → Ptr → CmEvent → Cmd (Unit {0})
unfolding Events.cma_event_handler
cma_event_handler env = Events.cma_event_handler env

-- megaVM_cq_event_handler
unfoldable pub cq_event_handler : Env → List Wc → ℕ → Cmd (Unit {0})
unfolding Events.cq_event_handler recv_result
cq_event_handler env = Events.cq_event_handler env (treatment env)

-- The handlers that the module registers.
unfoldable pub handler : Env → Callback → Cmd (Unit {0})
unfolding cma_event_handler cq_event_handler
handler env (cma cma_id e) = cma_event_handler env cma_id e
handler env (cqe wcs last) = cq_event_handler env wcs last
