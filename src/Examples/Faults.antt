-- ===== src/Examples/Faults.antt =====
-- The client on a driver that refuses the region of its memory, and the server with a client whose
-- bytes hold no string.
use infiniband.Common.{ℕ, ◌+◌, ◌-◌, ◌^◌, refl, true, some, List, [], ◌∷◌, replicate}
use infiniband.Ib.Types.{IbContext, WrOpcode, wr_send, rdma_read_adv, rdma_sgl}
use infiniband.Ib.Calls.{Call, Callback, WcOpcode, Env, cqe}
use infiniband.Ib.Machine.{Sys}
use infiniband.Ib.Ledger.{held-nil}
use infiniband.Ib.Steps.{blank}
use infiniband.Ib.Frame.{Stops, frozen}
use infiniband.Server.Echo.{completed}
use infiniband.Client.Setup.{setup_buffers}
use infiniband.Client.Faults.{Refuses, setup_buffers-Stops}

-- ERR_PTR(-ENOMEM) for the region.
abbrev answer : Call → ℕ
answer (Call.ib_get_dma_mr p) = 2 ^ 64 - 12
answer (Call.kmalloc n) = 20480
answer _ = 0

abbrev refusing : Env
refusing = record {
  reply = λ n c. record { answer = answer c; callbacks = []; signal = true };
  lkey_of = λ p. p;
  rkey_of = λ p. p + 1;
  qp_of = λ p. p + 2;
  device_of = λ p. p + 3;
  htons = λ n. n;
  htonl = λ n. n;
  ntohl = λ n. n;
  cpu_to_be64 = λ n. n;
  in4_pton = λ s. 12 ∷ 12 ∷ 12 ∷ 1 ∷ [];
  garbage = λ p. replicate 64 0;
  uninitialised = 0;
  requests = [];
}

refusing-Refuses : Refuses refusing
refusing-Refuses = record {
  polite = record { mild = λ n c. tt; signal = λ n c. refl };
  refused = λ n p. refl;
  memory = λ n k. refl;
}

-- A context with its protection domain.
abbrev begun : IbContext
begun = record (blank) { cm_id = 4096; pd = 12288 }

abbrev before : Sys
before = record { ctx = begun; calls = []; wakes = 0 }

setup_buffers-Stops_example : Stops (setup_buffers refusing before)
setup_buffers-Stops_example =
    setup_buffers-Stops refusing refusing-Refuses (frozen begun) [] refl refl
      (record { context = refl; resources = held-nil refusing })

-- A device that completes each transfer while it is posted; what it reads has no NUL.
abbrev endless : List ℕ
endless = replicate 64 7

abbrev ends : WrOpcode → List Callback
ends WrOpcode.wr_rdma_read = cqe (completed WcOpcode.wc_rdma_read endless ∷ []) 0 ∷ []
ends WrOpcode.wr_rdma_write = cqe (completed WcOpcode.wc_rdma_write [] ∷ []) 0 ∷ []
ends WrOpcode.wr_send = []

abbrev during : Call → List Callback
during (Call.ib_post_send q wr e) = ends wr.opcode
during _ = []

abbrev flooding : Env
flooding = record refusing {
  reply = λ n c. record { answer = answer c; callbacks = during c; signal = true };
}

-- A server that has heard the advertisement of a region of 64 bytes.
abbrev told : Sys
told = record {
  ctx = record (blank) {
    server = 1;
    dma_mr = 8192;
    state = rdma_read_adv;
    sq_wr = record (blank.sq_wr) { opcode = wr_send };
    rdma_sq_wr = record (blank.rdma_sq_wr) { sg_list = some rdma_sgl };
    remote_addr = 4096;
    remote_rkey = 77;
    remote_len = 64;
    rdma_buf = 20480;
    rdma_data = replicate 64 0;
  };
  calls = [];
  wakes = 3;
}
