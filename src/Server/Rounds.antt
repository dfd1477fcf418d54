-- ===== src/Server/Rounds.antt =====
-- The rounds of server/megaVM_server.c: what `megaVM_rdma_read` posts, and what it waits for.
use infiniband.Common.{ℕ, ◌≡◌, refl, true, false, ◌||◌, Option, some, [], ◌∷◌, ◌==◌}
use infiniband.Ib.Types.{
  Ptr, null, is_err, le_state, Sge, SendWr, wr_rdma_read, rdma_sgl, rdma_read_complete,
}
use infiniband.Ib.Calls.{Env, ib_post_send}
use infiniband.Ib.Machine.{Sys, deref, deliver, call, wait_until}
use infiniband.Ib.Frame.{Returns}
use infiniband.Server.Transfer.{rdma_read}

module _ (env : Env) where
  -- The scatter entry and the request of a read of what the client has advertised.
  pub record ReadPosted (s t : Sys) : Type 0 where
    pub wr : SendWr
    pub sge : Sge
    pub answer : ℕ
    pub posted : t.calls ≡ (ib_post_send s.ctx.qp wr (some sge), answer) ∷ s.calls
    pub opcode : wr.opcode ≡ wr_rdma_read
    pub rkey : wr.rkey ≡ s.ctx.remote_rkey
    pub remote_addr : wr.remote_addr ≡ s.ctx.remote_addr
    pub length : sge.length ≡ s.ctx.remote_len

  -- In a state not below RDMA_READ_COMPLETE, as every round but the first finds it, and where no
  -- completion arrives during the post itself: `megaVM_rdma_read` posts a read of just the region
  -- advertised, and returns at once, with no data read and the state as it was.
  pub rdma_read-stale :
      (s : Sys)
      → s.ctx.rdma_sq_wr.sg_list ≡ some rdma_sgl
      → ((s.ctx.dma_mr == null) || is_err s.ctx.dma_mr) ≡ false
      → le_state rdma_read_complete s.ctx.state ≡ true
      → ((n : ℕ) (q : Ptr) (wr : SendWr) (e : Option Sge)
          → (env.reply n (ib_post_send q wr e)).callbacks ≡ [])
      → Returns
          (λ _ t.
            ReadPosted s t × (t.ctx.rdma_data ≡ s.ctx.rdma_data) × (t.ctx.state ≡ s.ctx.state))
          (rdma_read env s)
  unfolding rdma_read call deliver wait_until
  rdma_read-stale s set good late idle =
      rw (set, good, deref)
        (rw (idle _ _ _ _, deliver, late, wait_until)
          (
            record {
              wr = _;
              sge = _;
              answer = _;
              posted = refl;
              opcode = refl;
              rkey = refl;
              remote_addr = refl;
              length = refl;
            },
            refl,
            refl,
          ))
