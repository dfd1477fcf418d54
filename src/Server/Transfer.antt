-- ===== src/Server/Transfer.antt =====
-- The transfers of server/megaVM_server.c: RDMA read and write, and the ten rounds of them.
use infiniband.Common.{ℕ, zero, suc, ◌+◌, ◌%◌, ◌^◌, Option, none, some, ◌==◌}
use infiniband.Ib.Types.{
  SgeRef, null, wr_rdma_read, wr_rdma_write, TestState, rdma_read_adv, rdma_read_complete,
  rdma_write_complete,
}
use infiniband.Ib.Calls.{Env}
use infiniband.Ib.Machine.{
  Cmd, ◌>>=◌, ◌>>◌, skip, fail, when, context, modify, store_length, deref, wait_until,
}
use infiniband.Ib.Steps
use infiniband.Ib.Steps.{fill_sockaddr, strlen, blank}
use infiniband.Server.Events.{handler}

-- Blocks until the state is at least `t`.
abbrev pub wait : Env → TestState → Cmd (Unit {0})
wait env t = wait_until env (handler env) t >>= λ _. skip

-- The request of a read, from the advertisement that the client has sent.
abbrev pub prepare_read : Env → Cmd (Unit {0})
prepare_read env = do
  c ← context
  modify λ c. record c {
    rdma_sq_wr = record (c.rdma_sq_wr) { rkey = c.remote_rkey; remote_addr = c.remote_addr };
  }
  store_length c.rdma_sq_wr.sg_list c.remote_len
  deref c.dma_mr
  modify λ c. record c {
    rdma_sge = record (c.rdma_sge) { lkey = env.rkey_of c.dma_mr };
    rdma_sq_wr = record (c.rdma_sq_wr) { next = null; opcode = wr_rdma_read };
  }

-- megaVM_rdma_read. A failed post is logged and no more.
unfoldable pub rdma_read : Env → Cmd (Unit {0})
rdma_read env = do
  prepare_read env
  c ← context
  ret ← Steps.post_send env (handler env) c.rdma_sq_wr
  modify λ c. record c { rdma_sq_wr = record (c.rdma_sq_wr) { next = null } }
  wait env rdma_read_complete

-- `sg_list->length = strlen(rdma_buf) + 1`
abbrev pub store_string : Option SgeRef → Option ℕ → Cmd (Unit {0})
store_string list none = fail
store_string list (some n) = store_length list ((n + 1) % 2 ^ 32)

-- The request of a write of the string that the buffer holds.
abbrev pub prepare_write : Env → Cmd (Unit {0})
prepare_write env = do
  c ← context
  modify λ c. record c {
    rdma_sq_wr = record (c.rdma_sq_wr) {
      opcode = wr_rdma_write;
      rkey = c.remote_rkey;
      remote_addr = c.remote_addr;
    };
  }
  when (c.rdma_buf == null) fail
  store_string c.rdma_sq_wr.sg_list (strlen c.rdma_data)
  deref c.dma_mr
  modify λ c. record c { rdma_sge = record (c.rdma_sge) { lkey = env.rkey_of c.dma_mr } }

-- megaVM_rdma_write
unfoldable pub rdma_write : Env → Cmd (Unit {0})
rdma_write env = do
  prepare_write env
  c ← context
  ret ← Steps.post_send env (handler env) c.rdma_sq_wr
  wait env rdma_write_complete

-- `for (i = 0; i < n; i++)` of `start_MegaVM_server`.
unfoldable pub rounds : ℕ → Env → Cmd (Unit {0})
rounds zero env = skip
rounds (suc n) env = do rdma_read env; rdma_write env; rounds n env

-- start_MegaVM_server
unfoldable pub start_server : Env → Cmd (Unit {0})
start_server env = do
  wait env rdma_read_adv
  rounds 10 env
  c ← context
  ret ← Steps.post_send env (handler env) c.sq_wr
  skip
