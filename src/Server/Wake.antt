-- ===== src/Server/Wake.antt =====
-- The handlers of server/megaVM_server.c: what they leave alone, and whom they wake.
use infiniband.Common.{◌≡◌, refl, ◌≤◌, not, some, List, [], ◌∷◌, ◌==◌, arith}
use infiniband.Ib.Types.{SgeRef, sizeof_rdma_info}
use infiniband.Ib.Calls.{Wc, WcOpcode, Callback, cma, cqe, Env}
use infiniband.Ib.Machine.{Sys}
use infiniband.Ib.Frame.{
  Returns, Kept, Keeps, Keeps-if, Kept-refl, Kept-blotted, CanCount, Arrives,
  cma_event_handler-Keeps,
}
use infiniband.Ib.Completions.{AllCount, cq_event_handler-Keeps}
use infiniband.Ib.Wake.{
  Wakes, Leaves, Leaves-if, Returns-both, cq_event_handler-Woke, cma_event_handler-Woke,
}
use infiniband.Server.Events.{handler, treatment, recv_result, server_recv}

module _ (env : Env) where
  recv_result-calm : (wc : Wc) (s : Sys) → Leaves (λ _ t. s.wakes ≤ t.wakes) (recv_result env wc s)
  unfolding recv_result server_recv
  recv_result-calm wc s =
      Leaves-if (λ _ t. s.wakes ≤ t.wakes) (s.ctx.server == 0) _ _ s (ground arith)
        (Leaves-if (λ _ t. s.wakes ≤ t.wakes) (not (wc.byte_len == sizeof_rdma_info)) _ _ s
          (ground arith) (ground arith))

  pub recv_result-Keeps : (wc : Wc) (s : Sys) → Keeps env s (recv_result env wc s)
  unfolding recv_result server_recv
  recv_result-Keeps wc s = Keeps-if env s (s.ctx.server == 0) _ _ (Kept-refl env s) (
      Keeps-if env s (not (wc.byte_len == sizeof_rdma_info)) _ _ (Kept-refl env s)
        (Kept-blotted env s _ s.wakes refl refl))

  -- With a scatter entry set, every kind of completion can be counted.
  can_count :
      (o : WcOpcode) (s : Sys) (r : SgeRef) → s.ctx.rdma_sq_wr.sg_list ≡ some r → CanCount env s o
  can_count WcOpcode.wc_rdma_write s r e = (r, e)
  can_count WcOpcode.wc_rdma_read s r e = (r, e)
  can_count WcOpcode.wc_send s r e = tt
  can_count WcOpcode.wc_recv s r e = tt
  can_count WcOpcode.wc_other s r e = tt

  -- What the reads among the completions bring fits the buffer and has a NUL.
  abbrev pub AllArriveIn : Sys → List Wc → Type 0
  AllArriveIn s [] = Unit
  AllArriveIn s (wc ∷ wcs) = Arrives env s wc.opcode wc.status wc.bytes × AllArriveIn s wcs

  abbrev pub AllArrive : Sys → Callback → Type 0
  AllArrive s (cma id e) = Unit
  AllArrive s (cqe wcs last) = AllArriveIn s wcs

  counts :
      (wcs : List Wc) (s : Sys) (r : SgeRef)
      → s.ctx.rdma_sq_wr.sg_list ≡ some r
      → AllArriveIn s wcs
      → AllCount env (treatment env) recv_result-Keeps s wcs
  counts [] s r e a = tt
  counts (wc ∷ wcs) s r e a = ((can_count wc.opcode s r e, a.0), counts wcs s r e a.1)

  pub handler-Keeps :
      (k : Callback) (s : Sys) (r : SgeRef)
      → s.ctx.rdma_sq_wr.sg_list ≡ some r
      → AllArrive s k
      → Keeps env s (handler env k s)
  unfolding handler
  handler-Keeps (cma id e) s r set a = cma_event_handler-Keeps env id e s
  handler-Keeps (cqe wcs last) s r set a =
      cq_event_handler-Keeps env (treatment env) recv_result-Keeps wcs last s (counts wcs s r set a)

  handler-Woke : (k : Callback) (s : Sys) → Leaves (λ _ t. Wakes env k s t) (handler env k s)
  unfolding handler
  handler-Woke (cma id e) s = cma_event_handler-Woke env id e s
  handler-Woke (cqe wcs last) s =
      cq_event_handler-Woke env (treatment env) recv_result-calm wcs last s

  -- Once the transfer request has its scatter entry, every run of a handler ends where what its reads
  -- bring fits the buffer and has a NUL. It leaves the
  -- context as it was but for the state, the counters and what arrives from the other side, and
  -- acquires and gives back nothing.
  -- Any event but ADDR_RESOLVED and DEVICE_REMOVAL wakes the main thread;
  -- ADDR_RESOLVED sets its state, and wakes the main thread just where the route cannot be asked for;
  -- DEVICE_REMOVAL changes nothing; and a completion interrupt that changes the state wakes the main
  -- thread.
  pub server_handler-Returns :
      (k : Callback) (s : Sys) (r : SgeRef)
      → s.ctx.rdma_sq_wr.sg_list ≡ some r
      → AllArrive s k
      → Returns (λ _ t. Kept env s t × Wakes env k s t) (handler env k s)
  server_handler-Returns k s r set a =
      Returns-both (λ _ t. Kept env s t) (λ _ t. Wakes env k s t) (handler env k s)
        (handler-Keeps k s r set a) (handler-Woke k s)
