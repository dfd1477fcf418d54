-- ===== src/Examples/Services.antt =====
-- The server's rounds on a driver that completes every transfer while it is posted.
use infiniband.Common.{
  ℕ, ◌+◌, ◌≤◌, ◌≡◌, refl, true, some, List, [], ◌∷◌, arith, replicate, length-replicate, length,
}
use infiniband.Ib.Types.{IbContext, WrOpcode, rdma_sgl, rdma_read_adv, connected, wr_send}
use infiniband.Ib.Calls.{Call, Callback, Env, cqe, Wc, WcOpcode}
use infiniband.Ib.Machine.{Sys}
use infiniband.Ib.Steps.{blank, strlen, no_stats, HasString}
use infiniband.Ib.Frame.{Returns}
use infiniband.Client.Ping.{format_send}
use infiniband.Client.Text.{ping_text, write_ping-text}
use infiniband.Server.Events.{cq_event_handler, handler, treatment}
use infiniband.Server.Transfer.{start_server}
use infiniband.Server.Echo.{IsPrompt, Echoed, completed}
use infiniband.Server.Echo.Service.{start_server-Echoed}
use infiniband.Ib.Tally.{tally}
use infiniband.Counters.{handler-tally}
use infiniband.Advert.{advert, AreConnected}
use infiniband.Advert.Echo.{format_send-start_server}

abbrev text : List ℕ
text = ping_text 64

abbrev ends : WrOpcode → List Callback
ends WrOpcode.wr_rdma_read = cqe (completed WcOpcode.wc_rdma_read text ∷ []) 0 ∷ []
ends WrOpcode.wr_rdma_write = cqe (completed WcOpcode.wc_rdma_write [] ∷ []) 0 ∷ []
ends WrOpcode.wr_send = []

abbrev during : Call → List Callback
during (Call.ib_post_send q wr e) = ends wr.opcode
during _ = []

abbrev prompt : Env
prompt = record {
  reply = λ n c. record { answer = 0; callbacks = during c; signal = true };
  lkey_of = λ p. p;
  rkey_of = λ p. p + 1;
  qp_of = λ p. p + 2;
  device_of = λ p. p + 3;
  htons = λ n. n;
  htonl = λ n. n;
  ntohl = λ n. n;
  cpu_to_be64 = λ n. n;
  in4_pton = λ s. 12 ∷ 12 ∷ 12 ∷ 1 ∷ [];
  garbage = λ p. replicate 64 0;
  uninitialised = 0;
  requests = [];
}

prompt-IsPrompt : (addr key len : ℕ) → IsPrompt prompt text addr key len
prompt-IsPrompt addr key len = record {
  read = λ n q wr e o a k z. rw o refl;
  write = λ n q wr e o. rw o refl;
  send = λ n q wr e o. rw o refl;
}

prompt-AreConnected : AreConnected prompt prompt
prompt-AreConnected = record {
  word = λ n h. refl;
  double_word = λ n h. refl;
  posted = λ n q wr e. refl;
}

strlen-text : strlen text ≡ some 63
strlen-text = (write_ping-text 64 (replicate 64 0) (length-replicate {A = ℕ} 64 0) (omega arith)).1

length-text : length text ≡ 64
length-text = refl

-- A client with the text in its buffer.
abbrev client : Sys
client = record { ctx = record (blank) { dma_mr = 8192; start_data = text }; calls = []; wakes = 0 }

-- A server that has accepted, and the same with the advertisement heard.
abbrev accepted : IbContext
accepted = record (blank) {
  server = 1;
  dma_mr = 8192;
  state = connected;
  sq_wr = record (blank.sq_wr) { opcode = wr_send };
  rdma_sq_wr = record (blank.rdma_sq_wr) { sg_list = some rdma_sgl };
  rdma_buf = 20480;
  rdma_data = replicate 64 7;
}

abbrev server : Sys
server = record { ctx = accepted; calls = []; wakes = 2 }

abbrev told : Sys
told = record {
  ctx = record (accepted) {
    state = rdma_read_adv;
    remote_addr = 4096;
    remote_rkey = 77;
    remote_len = 64;
  };
  calls = [];
  wakes = 3;
}

start_server-Echoed_example : Returns (Echoed 4096 77 64 text told) (start_server prompt told)
start_server-Echoed_example =
    start_server-Echoed prompt text 4096 77 64 (prompt-IsPrompt 4096 77 64) 63 strlen-text
      length-text refl (omega arith) told
      (record {
        entry = refl;
        memory = refl;
        remote_addr = refl;
        remote_rkey = refl;
        remote_len = refl;
        go_ahead = refl;
        sink = refl;
        room = omega (arith, length-replicate {A = ℕ} 64 7);
      })
      refl

format_send-start_server_example :
    Returns
      (λ _ s'.
        Returns
          (λ _ t'. Returns (Echoed 123456 8193 64 text t') (start_server prompt t'))
          (cq_event_handler prompt (advert s' ∷ []) 0 server))
      (format_send prompt 123456 client)
format_send-start_server_example =
    format_send-start_server prompt prompt prompt-AreConnected 123456 client server 63
      (prompt-IsPrompt 123456 8193 64) strlen-text length-text refl refl (omega arith) (omega arith)
      (omega arith)
      (record {
        server = refl;
        early = refl;
        entry = refl;
        memory = refl;
        go_ahead = refl;
        sink = refl;
        memory_size = length-replicate {A = ℕ} 64 7;
      })

-- Two reads and a write, in one interrupt.
abbrev ended : List Wc
ended =
    completed WcOpcode.wc_rdma_read text
    ∷ completed WcOpcode.wc_rdma_write []
    ∷ completed WcOpcode.wc_rdma_read text
    ∷ []

abbrev ready : Sys
ready = record told {
  ctx = record (told.ctx) { rdma_sge = record { addr = 0; length = 64; lkey = 0 } };
}

text-Arrives : (length text ≤ length (replicate {A = ℕ} 64 7)) × HasString text
text-Arrives = (omega (arith, length-text, length-replicate {A = ℕ} 64 7), (63, strlen-text))

handler-tally_example :
    Returns
      (λ _ t. t.ctx.stats ≡ tally prompt (treatment prompt) 0 64 ended no_stats)
      (handler prompt (cqe ended 0) ready)
handler-tally_example =
    handler-tally prompt 0 64 ended 0 ready (tt, (tt, (tt, tt)))
      (text-Arrives, (tt, (text-Arrives, tt)))
      (record {
        send_bytes = omega arith;
        send_msgs = omega arith;
        write_bytes = omega arith;
        write_msgs = omega arith;
        read_bytes = omega arith;
        read_msgs = omega arith;
      })
      (refl, refl, refl) refl
