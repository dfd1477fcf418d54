-- ===== src/Server/Echo.antt =====
-- The transfers of the ten rounds of server/megaVM_server.c on a device that completes each transfer while it is posted.
use mathlib.Core.Path.{subst}
use infiniband.Common.{
  ℕ, zero, suc, ◌+◌, ◌%◌, ◌^◌, ◌<◌, ◌≤◌, ◌++◌, ◌≡◌, refl, ap, ◌∙◌, sym, true, false, ◌||◌, Option,
  none, some, List, [], ◌∷◌, ◌==◌, arith, length,
}
use infiniband.Ib.Types.{
  Ptr, null, is_err, le_state, eq_state, Sge, SgeRef, SendWr, WrOpcode, wr_rdma_read, wr_rdma_write,
  wr_send, rdma_sgl, rdma_read_adv, rdma_read_complete, rdma_write_complete, error, RdmaInfo,
  TestState,
}
use infiniband.Ib.Calls.{Call, Callback, Env, Wc, WcOpcode, WcStatus, cqe, ib_post_send}
use infiniband.Ib.Machine.{
  entry, context, Cmd, ◌>>=◌, ◌>>◌, reply_at, logged, skip, Sys, deref, deliver, call, wait_until,
  raw_call, and_then,
}
use infiniband.Ib.Frame.{Returns, Returns-bind}
use infiniband.Ib.Events
use infiniband.Ib.Events.{on_opcode, on_status, landed, poll_loop}
use infiniband.Ib.Steps
use infiniband.Ib.Steps.{no_info, strlen}
use infiniband.Server.Events.{handler, cq_event_handler}
use infiniband.Server.Transfer.{wait, rdma_read, rdma_write, rounds, start_server}
pub mod Posts
pub mod Service
pub mod Overrun

-- The completion of a transfer that has come to a good end.
abbrev pub completed : WcOpcode → List ℕ → Wc
completed o bs = record {
  status = WcStatus.success;
  opcode = o;
  byte_len = 0;
  message = no_info;
  bytes = bs;
}

-- A transfer as it was posted.
pub record Transfer : Type 0 where
  pub opcode : WrOpcode
  pub remote_addr : ℕ
  pub rkey : ℕ
  pub length : ℕ

-- A post with its scatter entry, before the transfers `l`; a message is no transfer.
abbrev pub posted_on : WrOpcode → SendWr → Option Sge → List Transfer → List Transfer
posted_on wr_send wr e l = l
posted_on o wr none l = l
posted_on o wr (some e) l =
    record { opcode = o; remote_addr = wr.remote_addr; rkey = wr.rkey; length = e.length } ∷ l

-- The RDMA transfers among the calls, newest first.
abbrev pub transfers : List (Call × ℕ) → List Transfer
transfers [] = []
transfers ((ib_post_send q wr e, a) ∷ l) = posted_on wr.opcode wr e (transfers l)
transfers ((c, a) ∷ l) = transfers l

-- A read of the `len` bytes at `addr` under `key` brings `bs`, and each transfer completes while it is
-- posted.
pub record IsPrompt (env : Env) (bs : List ℕ) (addr key len : ℕ) : Type 0 where
  pub read :
      (n : ℕ) (q : Ptr) (wr : SendWr) (e : Sge)
      → wr.opcode ≡ wr_rdma_read
      → wr.remote_addr ≡ addr
      → wr.rkey ≡ key
      → e.length ≡ len
      → (env.reply n (ib_post_send q wr (some e))).callbacks
        ≡ cqe (completed WcOpcode.wc_rdma_read bs ∷ []) 0 ∷ []
  pub write :
      (n : ℕ) (q : Ptr) (wr : SendWr) (e : Option Sge)
      → wr.opcode ≡ wr_rdma_write
      → (env.reply n (ib_post_send q wr e)).callbacks
        ≡ cqe (completed WcOpcode.wc_rdma_write [] ∷ []) 0 ∷ []
  pub send :
      (n : ℕ) (q : Ptr) (wr : SendWr) (e : Option Sge)
      → wr.opcode ≡ wr_send
      → (env.reply n (ib_post_send q wr e)).callbacks ≡ []

-- The region advertised, which fits the buffer, and the go-ahead prepared.
pub record HasRegion (addr key len : ℕ) (s : Sys) : Type 0 where
  pub entry : s.ctx.rdma_sq_wr.sg_list ≡ some rdma_sgl
  pub memory : ((s.ctx.dma_mr == null) || is_err s.ctx.dma_mr) ≡ false
  pub remote_addr : s.ctx.remote_addr ≡ addr
  pub remote_rkey : s.ctx.remote_rkey ≡ key
  pub remote_len : s.ctx.remote_len ≡ len
  pub go_ahead : s.ctx.sq_wr.opcode ≡ wr_send
  pub sink : (s.ctx.rdma_buf == null) ≡ false
  pub room : len ≤ length s.ctx.rdma_data

-- The buffer begins with `bs`.
abbrev pub Begins : List ℕ → Sys → Type 0
Begins bs t = (rest : List ℕ) × (t.ctx.rdma_data ≡ bs ++ rest)

module _ (addr key len : ℕ) where
  -- A read and a write of the whole region.
  abbrev pub read_of : Transfer
  read_of = record { opcode = wr_rdma_read; remote_addr = addr; rkey = key; length = len }

  abbrev pub write_of : Transfer
  write_of = record { opcode = wr_rdma_write; remote_addr = addr; rkey = key; length = len }

  -- `n` rounds behind the transfers `l`, newest first.
  abbrev pub echoes : ℕ → List Transfer → List Transfer
  echoes zero l = l
  echoes (suc n) l = echoes n (write_of ∷ read_of ∷ l)

  -- What the service leaves behind: ten reads and ten writes, in turn, each of the whole region.
  abbrev pub Echoed : List ℕ → Sys → Unit {0} → Sys → Type 0
  Echoed bs s u t =
      (transfers t.calls ≡ echoes 10 (transfers s.calls))
      × Begins bs t
      × (t.ctx.state ≡ rdma_write_complete)

  -- The end of a transfer, with the state `st` and the calls `l` as far as they are transfers.
  pub record IsAt (bs : List ℕ) (st : TestState) (l : List Transfer) (t : Sys) : Type 0 where
    pub region : HasRegion addr key len t
    pub state : t.ctx.state ≡ st
    pub bytes : Begins bs t
    pub posted : transfers t.calls ≡ l
