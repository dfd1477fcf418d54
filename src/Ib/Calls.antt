-- ===== src/Ib/Calls.antt =====
-- The calls that the two modules make of the kernel, the verbs library and the connection manager,
-- and what comes back from them. All of that code is outside the repository: its answers are the
-- parameter `Env`.
use Prim.Native.String.{String}
use infiniband.Common.{ℕ, Bool, Option, List}
use infiniband.Ib.Types.{Ptr, Sge, RdmaInfo, TestState, SendWr, RecvWr}

-- struct sockaddr_in, as far as `fill_sockaddr` fills it. All zero where it fills nothing.
pub record Sockaddr : Type 0 where
  pub sin_family : ℕ
  pub sin_addr : List ℕ
  pub sin_port : ℕ

-- struct rdma_conn_param
pub record ConnParam : Type 0 where
  pub responder_resources : ℕ
  pub initiator_depth : ℕ
  pub retry_count : ℕ

-- struct ib_qp_init_attr; the type is IB_QPT_RC and the signal type IB_SIGNAL_REQ_WR.
pub record QpInitAttr : Type 0 where
  pub max_send_wr : ℕ
  pub max_recv_wr : ℕ
  pub max_recv_sge : ℕ
  pub max_send_sge : ℕ
  pub send_cq : Ptr
  pub recv_cq : Ptr

-- The four pieces of the context's memory that are mapped for the device.
pub data Region : Type 0 where
  recv_region send_region rdma_region start_region : Region

pub data Call : Type 0 where
  rdma_create_id : Call
  rdma_resolve_addr : Ptr → Sockaddr → ℕ → Call
  rdma_resolve_route : Ptr → ℕ → Call
  rdma_bind_addr : Ptr → Sockaddr → Call
  rdma_listen : Ptr → ℕ → Call
  rdma_connect rdma_accept : Ptr → ConnParam → Call
  rdma_disconnect rdma_destroy_id : Ptr → Call
  rdma_create_qp : Ptr → Ptr → QpInitAttr → Call
  ib_destroy_qp : Ptr → Call
  ib_alloc_pd ib_dealloc_pd : Ptr → Call
  ib_create_cq : Ptr → ℕ → Call
  ib_destroy_cq ib_req_notify_cq : Ptr → Call
  ib_get_dma_mr ib_dereg_mr : Ptr → Call
  dma_map_single : Region → ℕ → Call
  dma_unmap_single : ℕ → ℕ → Call
  -- with the scatter entry that the request's `sg_list` leads to
  ib_post_recv : Ptr → RecvWr → Option Sge → Call
  ib_post_send : Ptr → SendWr → Option Sge → Call
  kzalloc : Call
  kmalloc : ℕ → Call
  kfree : Ptr → Call
  wait_event_interruptible : TestState → Call

-- enum ib_wc_status and enum ib_wc_opcode, as far as the handlers tell them apart.
pub data WcStatus : Type 0 where
  success flush_err failure : WcStatus

pub data WcOpcode : Type 0 where
  wc_send wc_rdma_write wc_rdma_read wc_recv wc_other : WcOpcode

-- struct ib_wc, with what the device has written by the time that it is polled: the message of
-- a receive and the bytes of a read.
pub record Wc : Type 0 where
  pub status : WcStatus
  pub opcode : WcOpcode
  pub byte_len : ℕ
  pub message : RdmaInfo
  pub bytes : List ℕ

-- enum rdma_cm_event_type, as far as the handlers tell it apart.
pub data CmEvent : Type 0 where
  addr_resolved addr_error route_resolved route_error connect_request connect_error : CmEvent
  unreachable rejected established disconnected device_removal other_event : CmEvent

-- The kernel runs a handler: an event of the connection manager on an identifier, or a completion
-- interrupt, with the completions that `ib_poll_cq` hands out one by one and its last result.
pub data Callback : Type 0 where
  cma : Ptr → CmEvent → Callback
  cqe : List Wc → ℕ → Callback

-- What a call comes back with, and the handlers that run meanwhile, in order. `signal` says whether
-- a signal ends a wait that no handler ends.
pub record Reply : Type 0 where
  pub answer : ℕ
  pub callbacks : List Callback
  pub signal : Bool

-- The world outside the modules. `reply n c` is the reply to the call `c` if it is the `n`-th;
-- the other fields read structs of the library, or are the library's conversions.
pub record Env : Type 0 where
  pub reply : ℕ → Call → Reply
  pub lkey_of : Ptr → ℕ
  pub rkey_of : Ptr → ℕ
  pub qp_of : Ptr → Ptr
  pub device_of : Ptr → Ptr
  pub htons : ℕ → ℕ
  pub htonl : ℕ → ℕ
  pub ntohl : ℕ → ℕ
  pub cpu_to_be64 : ℕ → ℕ
  pub in4_pton : String → List ℕ
  -- The bytes of a fresh allocation, and the value of a variable that is read before it is set.
  pub garbage : Ptr → List ℕ
  pub uninitialised : ℕ
  -- The identifiers that the connection manager makes for requests, each the module's to destroy.
  pub requests : List Ptr
