-- ===== src/Examples/Modules.antt =====
-- The client and the server on a driver that answers every call at once.
use infiniband.Common.{
  ℕ, ◌+◌, ◌^◌, ◌<◌, ◌≡◌, refl, true, some, [], ◌∷◌, arith, replicate, length-replicate, ◌==◌,
  if◌then◌else◌,
}
use infiniband.Ib.Types.{
  IbContext, rdma_sgl, rdma_read_adv, rdma_write_complete, connected, sizeof_rdma_info,
}
use infiniband.Ib.Calls.{Call, Env, cqe, Wc, WcOpcode, WcStatus}
use infiniband.Ib.Machine.{Sys, ◌>>=◌, skip}
use infiniband.Ib.Ledger.{held-nil}
use infiniband.Ib.Steps.{blank, strlen, HasString}
use infiniband.Ib.Frame.{Returns, frozen, Kept}
use infiniband.Ib.Rules.{At}
use infiniband.Ib.Wake.{Wakes}
use infiniband.Client.Quiet.{IsDriver}
use infiniband.Client.Events as ClientEvents
use infiniband.Client.Queues.{QueuesReady, Balanced, setup_qp-Returns, setup_qp-free_qp}
use infiniband.Client.Setup.{setup_qp, free_qp}
use infiniband.Client.Ping.{format_send, write_ping}
use infiniband.Client.Text.{ping_text, write_ping-text}
use infiniband.Client.Session.{doit}
use infiniband.Client.Life.{Holds, doit-Returns}
use infiniband.Client.Wake.{client_handler-Returns}
use infiniband.Server.Events as ServerEvents
use infiniband.Server.Wake.{server_handler-Returns}
use infiniband.Server.Transfer.{rdma_read}
use infiniband.Server.Rounds.{ReadPosted, rdma_read-stale}
use infiniband.Advert.{advert, AreConnected, format_send-cq_event_handler}

abbrev answer : Call → ℕ
answer Call.rdma_create_id = 4096
answer (Call.ib_get_dma_mr p) = 8192
answer (Call.ib_alloc_pd d) = 12288
answer (Call.ib_create_cq d n) = 16384
answer _ = 0

abbrev driver : Env
driver = record {
  reply = λ n c. record { answer = answer c; callbacks = []; signal = true };
  lkey_of = λ p. p;
  rkey_of = λ p. p + 1;
  qp_of = λ p. p + 2;
  device_of = λ p. p + 3;
  htons = λ n. n;
  htonl = λ n. n;
  ntohl = λ n. n;
  cpu_to_be64 = λ n. n;
  in4_pton = λ s. 12 ∷ 12 ∷ 12 ∷ 1 ∷ [];
  garbage = λ p. replicate 64 0;
  uninitialised = 0;
  requests = [];
}

answer-small : (c : Call) → answer c < 2 ^ 64
answer-small Call.rdma_create_id = omega arith
answer-small (Call.ib_get_dma_mr p) = omega arith
answer-small (Call.ib_alloc_pd d) = omega arith
answer-small (Call.ib_create_cq d n) = omega arith
answer-small _ = omega arith

driver-IsDriver : IsDriver driver
driver-IsDriver = record {
  polite = record { mild = λ n c. tt; signal = λ n c. refl };
  word = λ n c. answer-small c;
  good_id = λ n. refl;
  good_mr = λ n p. refl;
  good_pd = λ n d. refl;
  memory = λ p. length-replicate {A = ℕ} 64 0;
}

-- A context whose identifier is there.
abbrev opened : IbContext
opened = record (blank) { cm_id = 4096; dma_mr = 8192 }

abbrev start : Sys
start = record { ctx = opened; calls = []; wakes = 0 }

start-At : At driver (frozen opened) [] start
start-At = record { context = refl; resources = held-nil driver }

setup_qp-Returns_example :
    Returns (QueuesReady driver driver-IsDriver (frozen opened) []) (setup_qp driver 4096 start)
setup_qp-Returns_example = setup_qp-Returns driver driver-IsDriver (frozen opened) [] refl start-At

doit-Returns_example : Returns (Holds driver driver-IsDriver []) (doit driver start)
doit-Returns_example = doit-Returns driver driver-IsDriver [] start (held-nil driver)

-- The completion of a receive of the right length.
abbrev message : Wc
message = record {
  status = WcStatus.success;
  opcode = WcOpcode.wc_recv;
  byte_len = sizeof_rdma_info;
  message = record { buf = 1; rkey = 2; size = 3 };
  bytes = [];
}

setup_qp-free_qp_example :
    Returns
      (Balanced driver driver-IsDriver [])
      ((setup_qp driver 4096 >>= λ ret. if ret == 0 then free_qp driver else skip) start)
setup_qp-free_qp_example = setup_qp-free_qp driver driver-IsDriver (frozen opened) [] refl start-At

client_handler-Returns_example :
    Returns
      (λ _ t. Kept driver start t × Wakes driver (cqe (message ∷ []) 0) start t)
      (ClientEvents.handler driver (cqe (message ∷ []) 0) start)
client_handler-Returns_example = client_handler-Returns driver (cqe (message ∷ []) 0) start (tt, tt)

-- The server after its setup, in the state that a round leaves.
abbrev serving : Sys
serving = record {
  ctx = record (opened) {
    server = 1;
    state = rdma_write_complete;
    rdma_sq_wr = record (blank.rdma_sq_wr) { sg_list = some rdma_sgl };
    remote_rkey = 77;
    rdma_buf = 20480;
    rdma_data = replicate 64 0;
  };
  calls = [];
  wakes = 4;
}

abbrev read_done : Wc
read_done = record (message) { opcode = WcOpcode.wc_rdma_read; bytes = 1 ∷ 0 ∷ [] }

read-HasString : HasString (1 ∷ 0 ∷ [])
unfolding strlen
read-HasString = (1, refl)

server_handler-Returns_example :
    Returns
      (λ _ t. Kept driver serving t × Wakes driver (cqe (read_done ∷ []) 0) serving t)
      (ServerEvents.handler driver (cqe (read_done ∷ []) 0) serving)
server_handler-Returns_example =
    server_handler-Returns driver (cqe (read_done ∷ []) 0) serving rdma_sgl refl
      ((omega (arith, length-replicate {A = ℕ} 64 0), read-HasString), tt)

rdma_read-stale_example :
    Returns
      (λ _ t.
        ReadPosted driver serving t
        × (t.ctx.rdma_data ≡ serving.ctx.rdma_data)
        × (t.ctx.state ≡ serving.ctx.state))
      (rdma_read driver serving)
rdma_read-stale_example = rdma_read-stale driver serving refl refl refl (λ n q wr e. refl)

write_ping-text_example :
    (write_ping 16 (replicate 16 255) ≡ some (ping_text 16)) × (strlen (ping_text 16) ≡ some 15)
write_ping-text_example = write_ping-text 16 (replicate 16 255) refl (omega arith)

driver-AreConnected : AreConnected driver driver
driver-AreConnected = record {
  word = λ n h. refl;
  double_word = λ n h. refl;
  posted = λ n q wr e. refl;
}

-- A server that has accepted.
abbrev waiting : Sys
waiting = record { ctx = record (opened) { server = 1; state = connected }; calls = []; wakes = 2 }

format_send-cq_event_handler_example :
    Returns
      (λ _ s'.
        Returns
          (λ _ t'.
            (t'.ctx.remote_addr ≡ 123456)
            × (t'.ctx.remote_rkey ≡ 8193)
            × (t'.ctx.remote_len ≡ 64)
            × (t'.ctx.state ≡ rdma_read_adv)
            × (2 < t'.wakes))
          (ServerEvents.cq_event_handler driver (advert s' ∷ []) 0 waiting))
      (format_send driver 123456 start)
format_send-cq_event_handler_example =
    format_send-cq_event_handler driver driver driver-AreConnected 123456 start waiting refl
      (omega arith) (omega arith) (omega arith) refl refl
