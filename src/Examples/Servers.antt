-- ===== src/Examples/Servers.antt =====
-- The server on a driver that has memory, and reports a connection request while it is asked for it.
use infiniband.Common.{ℕ, ◌+◌, refl, true, List, [], ◌∷◌, replicate}
use infiniband.Ib.Calls.{Call, Callback, CmEvent, Env, cma}
use infiniband.Ib.Machine.{Sys}
use infiniband.Ib.Ledger.{held-nil}
use infiniband.Ib.Steps.{blank}
use infiniband.Ib.Frame.{Returns}
use infiniband.Ib.Mild.{IsMild}
use infiniband.Ib.Invariant.{All}
use infiniband.Server.Setup.{setup_buffers}
use infiniband.Server.Quiet.{IsAdapter}
use infiniband.Server.Mappings.{IsIdle}
use infiniband.Server.Mappings.Buffers.{Leaked, Mapped, setup_buffers-Leaked, setup_buffers-Mapped}
use infiniband.Server.Buffers.Ready.{Balanced, setup_buffers-free_buffers}

abbrev answer : Call → ℕ
answer (Call.ib_get_dma_mr p) = 8192
answer (Call.kmalloc n) = 20480
answer _ = 0

abbrev during : Call → List Callback
during (Call.kmalloc n) = cma 24576 CmEvent.connect_request ∷ []
during _ = []

abbrev adapter : Env
adapter = record {
  reply = λ n c. record { answer = answer c; callbacks = during c; signal = true };
  lkey_of = λ p. p;
  rkey_of = λ p. p + 1;
  qp_of = λ p. p + 2;
  device_of = λ p. p + 3;
  htons = λ n. n;
  htonl = λ n. n;
  ntohl = λ n. n;
  cpu_to_be64 = λ n. n;
  in4_pton = λ s. 12 ∷ 12 ∷ 12 ∷ 1 ∷ [];
  garbage = λ p. replicate 64 0;
  uninitialised = 0;
  requests = [];
}

during-IsMild : (c : Call) → All IsMild (during c)
during-IsMild (Call.kmalloc n) = (tt, tt)
during-IsMild _ = tt

adapter-IsAdapter : IsAdapter adapter
adapter-IsAdapter = record {
  polite = record { mild = λ n c. during-IsMild c; signal = λ n c. refl };
  good_mr = λ n p. refl;
}

abbrev ready : Sys
ready = record { ctx = record (blank) { server = 1; pd = 12288; size = 64 }; calls = []; wakes = 0 }

setup_buffers-free_buffers_example :
    Returns (Balanced adapter adapter-IsAdapter []) (setup_buffers adapter ready)
setup_buffers-free_buffers_example =
    setup_buffers-free_buffers adapter adapter-IsAdapter ready []
      (record { domain = refl; regions = record { recv = refl; send = refl; rdma = refl } })
      (held-nil adapter)

-- The same driver with no handler that runs, once with memory and once without.
abbrev idle : Env
idle = record adapter { reply = λ n c. record { answer = answer c; callbacks = []; signal = true } }

abbrev no_answer : Call → ℕ
no_answer (Call.ib_get_dma_mr p) = 8192
no_answer _ = 0

abbrev full : Env
full = record adapter {
  reply = λ n c. record { answer = no_answer c; callbacks = []; signal = true };
}

idle-IsIdle : IsIdle idle
idle-IsIdle = record { idle = λ n c. refl; good_mr = λ n p. refl }

full-IsIdle : IsIdle full
full-IsIdle = record { idle = λ n c. refl; good_mr = λ n p. refl }

setup_buffers-Leaked_example : Returns (Leaked full full-IsIdle [] []) (setup_buffers full ready)
setup_buffers-Leaked_example =
    setup_buffers-Leaked full full-IsIdle ready refl
      (record { recv = refl; send = refl; rdma = refl }) (λ n k. refl)

setup_buffers-Mapped_example : Returns (Mapped idle idle-IsIdle [] []) (setup_buffers idle ready)
setup_buffers-Mapped_example =
    setup_buffers-Mapped idle idle-IsIdle ready refl
      (record { recv = refl; send = refl; rdma = refl }) (λ n k. refl)
