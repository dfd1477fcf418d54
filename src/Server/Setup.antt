-- ===== src/Server/Setup.antt =====
-- The resources of server/megaVM_server.c: protection domain, queues, memory regions, buffers.
use infiniband.Common.{ℕ, ◌*◌, true, not, some, ◌==◌, if◌then◌else◌}
use infiniband.Ib.Types.{Ptr, null, minus, sizeof_rdma_info, recv_sgl, send_sgl, rdma_sgl, wr_send}
use infiniband.Ib.Calls.{
  Call, Env, recv_region, send_region, rdma_region, rdma_create_qp, ib_destroy_qp, ib_alloc_pd,
  ib_dealloc_pd, ib_create_cq, ib_destroy_cq, ib_req_notify_cq, ib_get_dma_mr, kmalloc, kfree,
}
use infiniband.Ib.Machine.{Cmd, pure, ◌>>=◌, ◌>>◌, context, modify, when, deref, call}
use infiniband.Ib.Steps
use infiniband.Ib.Steps.{fill_sockaddr, strlen, blank}
use infiniband.Server.Events.{handler}

abbrev pub ask : Env → Call → Cmd ℕ
ask env = call env (handler env)

abbrev pub run : Env → Call → Cmd (Unit {0})
run env = Steps.run env (handler env)

-- setup_wr: the receive request, the go-ahead, and the request for RDMA reads and writes.
unfoldable pub setup_wr : Env → Cmd (Unit {0})
setup_wr env = do
  c ← context
  deref c.dma_mr
  let lkey = env.lkey_of c.dma_mr
  modify λ c. record c {
    recv_sge = record { addr = c.recv_dma_addr; length = sizeof_rdma_info; lkey = lkey };
    rq_wr = record { sg_list = some recv_sgl; num_sge = 1 };
    send_sge = record { addr = c.send_dma_addr; length = sizeof_rdma_info; lkey = lkey };
    sq_wr = record (c.sq_wr) {
      opcode = wr_send;
      signaled = true;
      sg_list = some send_sgl;
      num_sge = 1;
    };
    rdma_sge = record (c.rdma_sge) { addr = c.rdma_dma_addr };
    rdma_sq_wr = record (c.rdma_sq_wr) { signaled = true; sg_list = some rdma_sgl; num_sge = 1 };
  }

-- The label `bail` of `setup_buffers`.
unfoldable pub bail : Env → ℕ → Cmd ℕ
bail env ret = do
  c ← context
  Steps.dereg_valid env (handler env) c.rdma_mr
  Steps.dereg_valid env (handler env) c.dma_mr
  Steps.dereg_valid env (handler env) c.recv_mr
  Steps.dereg_valid env (handler env) c.send_mr
  when (not (c.rdma_buf == null)) (run env (kfree c.rdma_buf))
  pure ret

-- `setup_buffers` from the kmalloc on.
unfoldable pub setup_sink : Env → ℕ → Cmd ℕ
setup_sink env size = do
  sink ← ask env (kmalloc size)
  modify λ c. record c { rdma_buf = sink; rdma_data = env.garbage sink }
  if sink == null then bail env (minus 1) else do
    addr ← Steps.map_region env (handler env) rdma_region size
    modify λ c. record c { rdma_dma_addr = addr; rdma_mapping = addr }
    setup_wr env
    pure 0

unfoldable pub setup_buffers : Env → Cmd ℕ
setup_buffers env = do
  recv ← Steps.map_region env (handler env) recv_region sizeof_rdma_info
  modify λ c. record c { recv_dma_addr = recv; recv_mapping = recv }
  send ← Steps.map_region env (handler env) send_region sizeof_rdma_info
  modify λ c. record c { send_dma_addr = send; send_mapping = send }
  c ← context
  mr ← ask env (ib_get_dma_mr c.pd)
  modify λ c. record c { dma_mr = mr }
  if mr == null then bail env (minus 1) else do c' ← context; setup_sink env c'.size

-- megaVM_free_buffers
unfoldable pub free_buffers : Env → Cmd (Unit {0})
free_buffers env = do
  c ← context
  Steps.dereg env (handler env) c.dma_mr
  Steps.dereg env (handler env) c.send_mr
  Steps.dereg env (handler env) c.recv_mr
  Steps.dereg env (handler env) c.rdma_mr
  Steps.unmap env (handler env) c.recv_mapping sizeof_rdma_info
  Steps.unmap env (handler env) c.send_mapping sizeof_rdma_info
  Steps.unmap env (handler env) c.rdma_mapping c.size
  run env (kfree c.rdma_buf)

unfoldable pub create_qp : Env → Cmd ℕ
create_qp env = do
  c ← context
  ret ← ask env (
      rdma_create_qp c.child_cm_id c.pd (record {
        max_send_wr = c.txdepth;
        max_recv_wr = 2;
        max_recv_sge = 1;
        max_send_sge = 1;
        send_cq = c.cq;
        recv_cq = c.cq;
      }))
  when (ret == 0)
      (do c' ← context; deref c'.child_cm_id; modify λ c. record c { qp = env.qp_of c.child_cm_id })
  pure ret

-- megaVM_free_qp
unfoldable pub free_qp : Env → Cmd (Unit {0})
free_qp env = do
  c ← context
  run env (ib_destroy_qp c.qp)
  run env (ib_destroy_cq c.cq)
  run env (ib_dealloc_pd c.pd)

-- The labels `err2` and `err1` of `setup_pd_and_qp`.
abbrev pub destroy_cq_and_pd : Env → ℕ → Cmd ℕ
destroy_cq_and_pd env ret = do
  c ← context
  run env (ib_destroy_cq c.cq)
  run env (ib_dealloc_pd c.pd)
  pure ret

-- Behind the allocation of the domain. Where `ib_create_cq` yields NULL the code returns a variable
-- that nothing has set.
abbrev pub setup_cq_and_qp : Env → Ptr → Cmd ℕ
setup_cq_and_qp env cm_id = do
  deref cm_id
  c ← context
  cq ← ask env (ib_create_cq (env.device_of cm_id) (c.txdepth * 2))
  modify λ c. record c { cq = cq }
  if cq == null then (do run env (ib_dealloc_pd c.pd); pure env.uninitialised) else do
    ret ← ask env (ib_req_notify_cq cq)
    if not (ret == 0)
        then destroy_cq_and_pd env ret
        else do made ← create_qp env; if not (made == 0) then destroy_cq_and_pd env made else pure 0

unfoldable pub setup_pd_and_qp : Env → Ptr → Cmd ℕ
setup_pd_and_qp env cm_id = if cm_id == null then setup_cq_and_qp env cm_id else do
  deref cm_id
  pd ← ask env (ib_alloc_pd (env.device_of cm_id))
  modify λ c. record c { pd = pd }
  if pd == null then pure (minus 1) else setup_cq_and_qp env cm_id
