-- ===== src/Examples/Lives.antt =====
-- The life of a server whose client connects, advertises a region and is served.
use infiniband.Common.{
  ℕ, ◌+◌, refl, inl, inr, true, some, List, [], ◌∷◌, replicate, arith, length-replicate,
}
use infiniband.Ib.Types.{
  rdma_sgl, wr_send, IbContext, WrOpcode, TestState, connect_request, connected, sizeof_rdma_info,
}
use infiniband.Ib.Calls.{Call, Callback, CmEvent, Env, Wc, WcOpcode, WcStatus, cma, cqe}
use infiniband.Ib.Machine.{Sys}
use infiniband.Ib.Ledger.{held-nil, ids}
use infiniband.Ib.Steps.{blank, no_info, strlen, HasString}
use infiniband.Ib.Frame.{Returns, frozen}
use infiniband.Ib.Invariant.{All}
use infiniband.Ib.Mild.{IsMild, IsCalm}
use infiniband.Ib.Guard.{IsFair}
use infiniband.Server.Setup.{setup_pd_and_qp}
use infiniband.Server.Transfer.{start_server}
use infiniband.Server.Session.{initialisation}
use infiniband.Server.Queues.{QueuesReady, setup_pd_and_qp-Returns}
use infiniband.Server.TenRounds.{Served, start_server-Served}
use infiniband.Server.Posts.{round_trips}
use infiniband.Server.Served.{IsServed}
use infiniband.Server.Life.{Left, initialisation-Returns}

abbrev hello : List ℕ
hello = 104 ∷ 105 ∷ 0 ∷ []

abbrev transferred : WcOpcode → Wc
transferred o = record {
  status = WcStatus.success;
  opcode = o;
  byte_len = 3;
  message = no_info;
  bytes = hello;
}

abbrev advertisement : Wc
advertisement = record {
  status = WcStatus.success;
  opcode = WcOpcode.wc_recv;
  byte_len = sizeof_rdma_info;
  message = record { buf = 4096; rkey = 77; size = 64 };
  bytes = [];
}

abbrev ends : WrOpcode → List Callback
ends WrOpcode.wr_rdma_read = cqe (transferred WcOpcode.wc_rdma_read ∷ []) 0 ∷ []
ends WrOpcode.wr_rdma_write = cqe (transferred WcOpcode.wc_rdma_write ∷ []) 0 ∷ []
ends WrOpcode.wr_send = cqe (transferred WcOpcode.wc_send ∷ []) 0 ∷ []

abbrev while_waiting : TestState → List Callback
while_waiting connect_request = cma 24576 CmEvent.connect_request ∷ []
while_waiting connected = cqe (advertisement ∷ []) 0 ∷ []
while_waiting _ = []

abbrev during : Call → List Callback
during (Call.ib_post_send q wr e) = ends wr.opcode
during (Call.wait_event_interruptible t) = while_waiting t
during _ = []

abbrev answer : Call → ℕ
answer Call.rdma_create_id = 4096
answer (Call.ib_get_dma_mr p) = 8192
answer (Call.ib_alloc_pd p) = 12288
answer (Call.ib_create_cq p n) = 16384
answer (Call.kmalloc n) = 20480
answer Call.kzalloc = 28672
answer _ = 0

abbrev one_client : Env
one_client = record {
  reply = λ n c. record { answer = answer c; callbacks = during c; signal = true };
  lkey_of = λ p. p;
  rkey_of = λ p. p + 1;
  qp_of = λ p. p + 2;
  device_of = λ p. p + 3;
  htons = λ n. n;
  htonl = λ n. n;
  ntohl = λ n. n;
  cpu_to_be64 = λ n. n;
  in4_pton = λ s. 12 ∷ 12 ∷ 12 ∷ 1 ∷ [];
  garbage = λ p. replicate 64 0;
  uninitialised = 0;
  requests = 24576 ∷ [];
}

hello-HasString : HasString hello
unfolding strlen
hello-HasString = (2, refl)

zeros-HasString : HasString (replicate 64 0)
unfolding strlen
zeros-HasString = (0, refl)

ends-IsFair : (o : WrOpcode) → All (IsFair 24576) (ends o)
ends-IsFair WrOpcode.wr_rdma_read = (((omega arith, hello-HasString), tt), tt)
ends-IsFair WrOpcode.wr_rdma_write = ((tt, tt), tt)
ends-IsFair WrOpcode.wr_send = ((tt, tt), tt)

while_waiting-IsFair : (t : TestState) → All (IsFair 24576) (while_waiting t)
while_waiting-IsFair connect_request = (refl, tt)
while_waiting-IsFair connected = ((tt, tt), tt)
while_waiting-IsFair _ = tt

during-IsFair : (c : Call) → All (IsFair 24576) (during c)
during-IsFair (Call.ib_post_send q wr e) = ends-IsFair wr.opcode
during-IsFair (Call.wait_event_interruptible t) = while_waiting-IsFair t
during-IsFair _ = tt

while_waiting-IsMild :
    (t : TestState) → IsCalm (Call.wait_event_interruptible t) → All IsMild (while_waiting t)
while_waiting-IsMild connect_request h = (tt, tt)
while_waiting-IsMild connected h = absurd h
while_waiting-IsMild _ h = tt

during-IsMild : (c : Call) → IsCalm c → All IsMild (during c)
during-IsMild (Call.ib_post_send q wr e) h = absurd h
during-IsMild (Call.wait_event_interruptible t) h = while_waiting-IsMild t h
during-IsMild _ h = tt

one_client-IsServed : IsServed one_client 24576
one_client-IsServed = record {
  fair = λ n c. during-IsFair c;
  calm = λ n c h. during-IsMild c h;
  signal = λ n c. refl;
  good_child = refl;
  good_pd = λ n p. refl;
  good_cq = λ n p k. refl;
  good_mr = λ n p. refl;
  good_id = λ n. refl;
  other_id = λ n. refl;
  text = λ p. (length-replicate {A = ℕ} 64 0, zeros-HasString);
}

start : Sys
start = record { ctx = blank; calls = []; wakes = 0 }

initialisation-Returns_example :
    Returns (Left one_client 24576 one_client-IsServed []) (initialisation one_client start)
unfolding start
initialisation-Returns_example =
    initialisation-Returns one_client 24576 one_client-IsServed [] start (held-nil one_client)

-- The context of a server that has taken a request on, and that of one that is set up.
abbrev requested : IbContext
requested = record (blank) { server = 1; child_cm_id = 24576; cm_id = 4096; txdepth = 64 }

abbrev prepared : IbContext
prepared = record requested {
  dma_mr = 8192;
  rdma_buf = 20480;
  rdma_data = replicate 64 0;
  rdma_sq_wr = record (blank.rdma_sq_wr) { sg_list = some rdma_sgl };
  sq_wr = record (blank.sq_wr) { opcode = wr_send };
}

abbrev at : IbContext → Sys
at c = record { ctx = c; calls = []; wakes = 0 }

setup_pd_and_qp-Returns_example :
    Returns
      (QueuesReady one_client 24576 one_client-IsServed (frozen requested) (ids (24576 ∷ [])))
      (setup_pd_and_qp one_client 24576 (at requested))
setup_pd_and_qp-Returns_example =
    setup_pd_and_qp-Returns one_client 24576 one_client-IsServed (frozen requested)
      (ids (24576 ∷ []))
      (record {
        at = record { context = refl; resources = held-nil one_client };
        guard = (refl, inl refl);
      })

start_server-Served_example :
    Returns
      (Served one_client 24576 one_client-IsServed
        (frozen prepared)
        (ids (24576 ∷ []))
        refl
        refl
        (round_trips 10 []))
      (start_server one_client (at prepared))
start_server-Served_example =
    start_server-Served one_client 24576 one_client-IsServed (frozen prepared) (ids (24576 ∷ []))
      refl refl (at prepared)
      (
        prepared.rdma_sq_wr,
        (
          prepared.rdma_sge,
          (
            refl,
            record {
              at = record { context = refl; resources = held-nil one_client };
              guard = (refl, inr (length-replicate {A = ℕ} 64 0, zeros-HasString));
            },
          ),
        ),
      )
