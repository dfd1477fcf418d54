-- ===== src/Client/Wake.antt =====
-- The handlers of client/megaVM_client.c: what they leave alone, and whom they wake.
use infiniband.Common.{◌≤◌, not, ◌==◌, arith}
use infiniband.Ib.Types.{sizeof_rdma_info}
use infiniband.Ib.Calls.{Wc, Callback, cma, cqe, Env}
use infiniband.Ib.Machine.{Sys}
use infiniband.Ib.Frame.{Returns, Kept}
use infiniband.Ib.Wake.{
  Wakes, Leaves, Leaves-if, Returns-both, cq_event_handler-Woke, cma_event_handler-Woke,
}
use infiniband.Client.Events.{handler, treatment, recv_result, client_recv}
use infiniband.Ib.Mild.{IsMild}
use infiniband.Client.Quiet.{handler-Keeps}

module _ (env : Env) where
  recv_result-calm : (wc : Wc) (s : Sys) → Leaves (λ _ t. s.wakes ≤ t.wakes) (recv_result env wc s)
  unfolding recv_result client_recv
  recv_result-calm wc s =
      Leaves-if (λ _ t. s.wakes ≤ t.wakes) (s.ctx.server == 0) _ _ s
        (Leaves-if (λ _ t. s.wakes ≤ t.wakes) (not (wc.byte_len == sizeof_rdma_info)) _ _ s
          (ground arith) (ground arith))
        (ground arith)

  handler-Woke : (k : Callback) (s : Sys) → Leaves (λ _ t. Wakes env k s t) (handler env k s)
  unfolding handler
  handler-Woke (cma id e) s = cma_event_handler-Woke env id e s
  handler-Woke (cqe wcs last) s =
      cq_event_handler-Woke env (treatment env) recv_result-calm wcs last s

  -- Every run of a handler that reports no RDMA transfer ends. It leaves the context as it was but
  -- for the state, the counters and what arrives from the other side, and acquires and gives back
  -- nothing.
  -- Any event but ADDR_RESOLVED and DEVICE_REMOVAL wakes the main thread;
  -- ADDR_RESOLVED sets its state, and wakes the main thread just where the route cannot be asked for;
  -- DEVICE_REMOVAL changes nothing; and a completion interrupt that changes the state wakes the main
  -- thread.
  pub client_handler-Returns :
      (k : Callback) (s : Sys)
      → IsMild k
      → Returns (λ _ t. Kept env s t × Wakes env k s t) (handler env k s)
  client_handler-Returns k s mild =
      Returns-both (λ _ t. Kept env s t) (λ _ t. Wakes env k s t) (handler env k s)
        (handler-Keeps env k mild s) (handler-Woke k s)
