-- ===== src/Ib/Mild.antt =====
-- Handler runs that report no RDMA transfer.
use infiniband.Common.{ℕ, List, [], ◌∷◌}
use infiniband.Ib.Types.{TestState, connect_request}
use infiniband.Ib.Calls.{Call, Wc, WcOpcode, WcStatus, Callback, cma, cqe, Env}
use infiniband.Ib.Machine.{Sys}
use infiniband.Ib.Frame.{Keeps, CanCount, Arrives}
use infiniband.Ib.Events.{Treatment}
use infiniband.Ib.Completions.{AllCount}

abbrev pub IsMessage : WcOpcode → Type 0
IsMessage WcOpcode.wc_rdma_write = ⊥
IsMessage WcOpcode.wc_rdma_read = ⊥
IsMessage WcOpcode.wc_send = Unit
IsMessage WcOpcode.wc_recv = Unit
IsMessage WcOpcode.wc_other = Unit

abbrev pub AllMessages : List Wc → Type 0
AllMessages [] = Unit
AllMessages (wc ∷ wcs) = IsMessage wc.opcode × AllMessages wcs

abbrev pub IsMild : Callback → Type 0
IsMild (cma id e) = Unit
IsMild (cqe wcs last) = AllMessages wcs

-- The calls during which no device reports a transfer: all but the posts, the two ends of a connection,
-- and the waits behind the setup.
abbrev IsCalmWait : TestState → Type 0
IsCalmWait connect_request = Unit
IsCalmWait _ = ⊥

abbrev pub IsCalm : Call → Type 0
IsCalm (Call.ib_post_recv q wr e) = ⊥
IsCalm (Call.ib_post_send q wr e) = ⊥
IsCalm (Call.rdma_accept id p) = ⊥
IsCalm (Call.rdma_disconnect id) = ⊥
IsCalm (Call.wait_event_interruptible t) = IsCalmWait t
IsCalm _ = Unit

module _ (env : Env) where
  can_count : (o : WcOpcode) (s : Sys) → IsMessage o → CanCount env s o
  can_count WcOpcode.wc_rdma_write s m = absurd m
  can_count WcOpcode.wc_rdma_read s m = absurd m
  can_count WcOpcode.wc_send s m = tt
  can_count WcOpcode.wc_recv s m = tt
  can_count WcOpcode.wc_other s m = tt

  arrives :
      (o : WcOpcode) (st : WcStatus) (bs : List ℕ) (s : Sys) → IsMessage o → Arrives env s o st bs
  arrives WcOpcode.wc_rdma_read WcStatus.success bs s m = absurd m
  arrives _ _ bs s m = tt

  pub counts :
      (on : Treatment) (keeps : (wc : Wc) (s : Sys) → Keeps env s (on.message wc s)) (wcs : List Wc)
      (s : Sys)
      → AllMessages wcs
      → AllCount env on keeps s wcs
  counts on keeps [] s m = tt
  counts on keeps (wc ∷ wcs) s m = (
    (can_count wc.opcode s m.0, arrives wc.opcode wc.status wc.bytes s m.0),
    counts on keeps wcs s m.1,
  )
