-- ===== src/Ib/Types.antt =====
-- The enums and structs of client/megaVM_client.c and server/megaVM_server.c, and the parts of the
-- verbs library's structs that the two modules fill in.
use infiniband.Common.{◌≡◌, false, ◌||◌, ℕ, Bool, Option, List, ◌-◌, ◌^◌, leb, ◌==◌}

-- A pointer is its 64-bit pattern; an int is its 32-bit pattern.
abbrev pub Ptr : Type 0
Ptr = ℕ

abbrev pub null : Ptr
null = 0

-- The bit pattern of the int -n.
abbrev pub minus : ℕ → ℕ
minus n = 2 ^ 32 - n

-- A pattern whose sign bit is set.
abbrev pub is_negative : ℕ → Bool
is_negative n = leb (2 ^ 31) n

-- IS_ERR of the kernel: the last 4095 addresses carry an error number.
abbrev pub is_err : Ptr → Bool
is_err p = leb (2 ^ 64 - 4095) p

-- A pointer that may be read through.
abbrev pub IsGood : Ptr → Type 0
IsGood p = ((p == null) || is_err p) ≡ false

abbrev pub af_inet : ℕ
af_inet = 2

abbrev pub rping_sq_depth : ℕ
rping_sq_depth = 64

pub data MemType : Type 0 where
  dma fastreg mw mr : MemType

pub data TestState : Type 0 where
  idle connect_request addr_resolved route_resolved connected : TestState
  rdma_read_adv rdma_read_complete rdma_write_adv rdma_write_complete error : TestState

-- The enum's values, by which the code compares states.
abbrev pub rank : TestState → ℕ
rank idle = 1
rank connect_request = 2
rank addr_resolved = 3
rank route_resolved = 4
rank connected = 5
rank rdma_read_adv = 6
rank rdma_read_complete = 7
rank rdma_write_adv = 8
rank rdma_write_complete = 9
rank error = 10

-- `a <= b` and `a == b` on the enum.
abbrev pub le_state : TestState → TestState → Bool
le_state a b = leb (rank a) (rank b)

abbrev pub eq_state : TestState → TestState → Bool
eq_state a b = rank a == rank b

-- Eight counters of type unsigned long long.
pub record MegaVmStats : Type 0 where
  pub send_bytes : ℕ
  pub send_msgs : ℕ
  pub recv_bytes : ℕ
  pub recv_msgs : ℕ
  pub write_bytes : ℕ
  pub write_msgs : ℕ
  pub read_bytes : ℕ
  pub read_msgs : ℕ

-- The advertisement that travels from the client to the server, in network byte order.
pub record RdmaInfo : Type 0 where
  pub buf : ℕ
  pub rkey : ℕ
  pub size : ℕ

-- sizeof(struct megaVM_rdma_info).
abbrev pub sizeof_rdma_info : ℕ
sizeof_rdma_info = 16

-- struct ib_sge
pub record Sge : Type 0 where
  pub addr : ℕ
  pub length : ℕ
  pub lkey : ℕ

-- What a work request's `sg_list` may point to: one of the three entries of its own context.
pub data SgeRef : Type 0 where
  recv_sgl send_sgl rdma_sgl : SgeRef

pub record RecvWr : Type 0 where
  pub sg_list : Option SgeRef
  pub num_sge : ℕ

pub data WrOpcode : Type 0 where
  wr_rdma_write wr_send wr_rdma_read : WrOpcode

-- `signaled` is the flag IB_SEND_SIGNALED; `next` is the pointer to a next request.
pub record SendWr : Type 0 where
  pub opcode : WrOpcode
  pub signaled : Bool
  pub sg_list : Option SgeRef
  pub num_sge : ℕ
  pub rkey : ℕ
  pub remote_addr : ℕ
  pub next : Ptr

-- struct ib_context. The server's declaration has all but the four fields `start_…`. `rdma_data`
-- and `start_data` are the bytes behind the pointers `rdma_buf` and `start_buf`; `verbose`,
-- `validate` and `addr_str`, which no live code reads back, are left out.
pub record IbContext : Type 0 where
  pub server : ℕ
  pub cq : Ptr
  pub pd : Ptr
  pub qp : Ptr
  pub mem : MemType
  pub dma_mr : Ptr
  pub rq_wr : RecvWr
  pub recv_sge : Sge
  pub recv_buf : RdmaInfo
  pub recv_dma_addr : ℕ
  pub recv_mapping : ℕ
  pub recv_mr : Ptr
  pub sq_wr : SendWr
  pub send_sge : Sge
  pub send_buf : RdmaInfo
  pub send_dma_addr : ℕ
  pub send_mapping : ℕ
  pub send_mr : Ptr
  pub rdma_sq_wr : SendWr
  pub rdma_sge : Sge
  pub rdma_buf : Ptr
  pub rdma_data : List ℕ
  pub rdma_dma_addr : ℕ
  pub rdma_mapping : ℕ
  pub rdma_mr : Ptr
  pub start_buf : Ptr
  pub start_data : List ℕ
  pub start_dma_addr : ℕ
  pub start_mapping : ℕ
  pub start_mr : Ptr
  pub remote_rkey : ℕ
  pub remote_addr : ℕ
  pub remote_len : ℕ
  pub state : TestState
  pub stats : MegaVmStats
  pub port : ℕ
  pub addr : List ℕ
  pub addr_type : ℕ
  pub count : ℕ
  pub size : ℕ
  pub txdepth : ℕ
  pub cm_id : Ptr
  pub child_cm_id : Ptr
