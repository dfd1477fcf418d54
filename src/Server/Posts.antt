-- ===== src/Server/Posts.antt =====
-- What the service of server/megaVM_server.c posts, whatever its calls are answered and whatever the
-- handlers do meanwhile: a read and a write in each of the ten rounds.
use infiniband.Common.{ℕ, zero, suc, ◌≡◌, refl, not, ◌||◌, ◌==◌, Option, none, some, List, ◌∷◌}
use infiniband.Ib.Types.{
  null, is_err, SendWr, SgeRef, WrOpcode, wr_rdma_read, wr_rdma_write, sizeof_rdma_info, TestState,
  rdma_read_complete, rdma_write_complete,
}
use infiniband.Ib.Calls.{Callback, cma, cqe, Wc, Env, ib_post_send}
use infiniband.Ib.Machine.{Sys, call, deref, store_length, entry, fail, skip, when}
use infiniband.Ib.Wake.{Leaves, Leaves-bind, Leaves-if}
use infiniband.Ib.Posts.{
  Posted, LeavesPosted, opcode_on, cma_event_handler-Posted, cq_event_handler-Posted, call-Posted,
  wait-Posted,
}
use infiniband.Ib.Steps.{strlen}
use infiniband.Server.Events.{handler, recv_result, server_recv, treatment}
use infiniband.Server.Transfer.{
  wait, store_string, prepare_read, prepare_write, rdma_read, rdma_write, rounds,
}

-- A read and a write in each of `n` rounds, behind the transfers `l`, newest first.
abbrev pub round_trips : ℕ → List WrOpcode → List WrOpcode
round_trips zero l = l
round_trips (suc n) l = round_trips n (wr_rdma_write ∷ wr_rdma_read ∷ l)

module _ (env : Env) where
  recv_result-Posted :
      (l : List WrOpcode) (wc : Wc) (s : Sys) → Posted l s → LeavesPosted l (recv_result env wc s)
  unfolding recv_result server_recv
  recv_result-Posted l wc s p =
      Leaves-if (λ _ t. Posted l t) (s.ctx.server == 0) _ _ s p
        (Leaves-if (λ _ t. Posted l t) (not (wc.byte_len == sizeof_rdma_info)) _ _ s p p)

  handler-Posted :
      (l : List WrOpcode) (k : Callback) (s : Sys) → Posted l s → LeavesPosted l (handler env k s)
  unfolding handler
  handler-Posted l (cma id e) s p = cma_event_handler-Posted env l id e s p
  handler-Posted l (cqe wcs last) s p =
      cq_event_handler-Posted env l (treatment env) (recv_result-Posted l) wcs last s p

  pub wait_posts_none :
      (l : List WrOpcode) (t : TestState) (s : Sys) → Posted l s → LeavesPosted l (wait env t s)
  wait_posts_none l t s p =
      Leaves-bind (λ _ u. Posted l u) (λ _ u. Posted l u) _ (λ _. skip)
        (wait-Posted env l (handler env) (handler-Posted l) t s p) λ _ u pu. pu

  -- A request that is posted with the opcode `o`.
  pub post-Posted :
      (l : List WrOpcode) (o : WrOpcode) (wr : SendWr) (s : Sys)
      → wr.opcode ≡ o
      → Posted l s
      → LeavesPosted
          (opcode_on o l)
          (call env (handler env) (ib_post_send s.ctx.qp wr (entry s.ctx wr.sg_list)) s)
  post-Posted l o wr s e p =
      call-Posted env (opcode_on o l) (handler env) (handler-Posted (opcode_on o l))
        (ib_post_send s.ctx.qp wr (entry s.ctx wr.sg_list)) s (rw (e, p) refl)

  module _ (l : List WrOpcode) where
    -- A request with the opcode `o`, and nothing more posted.
    abbrev Prepared : WrOpcode → {A : Type 0} → A → Sys → Type 0
    Prepared o _ t = Posted l t × (t.ctx.rdma_sq_wr.opcode ≡ o)

    store_length-Prepared :
        (o : WrOpcode) (r : Option SgeRef) (n : ℕ) (s : Sys)
        → Prepared o tt s
        → Leaves (Prepared o) (store_length r n s)
    store_length-Prepared o none n s p = tt
    store_length-Prepared o (some SgeRef.recv_sgl) n s p = p
    store_length-Prepared o (some SgeRef.send_sgl) n s p = p
    store_length-Prepared o (some SgeRef.rdma_sgl) n s p = p

    store_string-Prepared :
        (o : WrOpcode) (r : Option SgeRef) (n : Option ℕ) (s : Sys)
        → Prepared o tt s
        → Leaves (Prepared o) (store_string r n s)
    store_string-Prepared o r none s p = tt
    store_string-Prepared o r (some n) s p = store_length-Prepared o r _ s p

    prepare_read-Prepared :
        (s : Sys) → Posted l s → Leaves (Prepared wr_rdma_read) (prepare_read env s)
    prepare_read-Prepared s p =
        Leaves-bind (Prepared s.ctx.rdma_sq_wr.opcode) (Prepared wr_rdma_read)
          (store_length s.ctx.rdma_sq_wr.sg_list s.ctx.remote_len _) _
          (store_length-Prepared s.ctx.rdma_sq_wr.opcode s.ctx.rdma_sq_wr.sg_list _ _ (p, refl))
          λ _ t pt.
            Leaves-bind (Prepared s.ctx.rdma_sq_wr.opcode) (Prepared wr_rdma_read)
              (deref s.ctx.dma_mr t) _
              (Leaves-if (Prepared s.ctx.rdma_sq_wr.opcode)
                ((s.ctx.dma_mr == null) || is_err s.ctx.dma_mr) fail skip t tt pt)
              λ _ u pu. (pu.0, refl)

    prepare_write-Prepared :
        (s : Sys) → Posted l s → Leaves (Prepared wr_rdma_write) (prepare_write env s)
    prepare_write-Prepared s p =
        Leaves-bind (Prepared wr_rdma_write) (Prepared wr_rdma_write)
          (when (s.ctx.rdma_buf == null) fail _) _
          (Leaves-if (Prepared wr_rdma_write) (s.ctx.rdma_buf == null) fail skip _ tt (p, refl))
          λ _ t pt.
            Leaves-bind (Prepared wr_rdma_write) (Prepared wr_rdma_write)
              (store_string s.ctx.rdma_sq_wr.sg_list (strlen s.ctx.rdma_data) t) _
              (store_string-Prepared wr_rdma_write s.ctx.rdma_sq_wr.sg_list (strlen s.ctx.rdma_data)
                t pt)
              λ _ u pu.
                Leaves-bind (Prepared wr_rdma_write) (Prepared wr_rdma_write) (deref s.ctx.dma_mr u)
                  _
                  (Leaves-if (Prepared wr_rdma_write)
                    ((s.ctx.dma_mr == null) || is_err s.ctx.dma_mr) fail skip u tt pu)
                  λ _ v pv. pv

    rdma_read-Posted : (s : Sys) → Posted l s → LeavesPosted (wr_rdma_read ∷ l) (rdma_read env s)
    unfolding rdma_read
    rdma_read-Posted s p =
        Leaves-bind (Prepared wr_rdma_read) (λ _ t. Posted (wr_rdma_read ∷ l) t)
          (prepare_read env s) _ (prepare_read-Prepared s p)
          λ _ t pt.
            Leaves-bind (λ _ u. Posted (wr_rdma_read ∷ l) u) (λ _ u. Posted (wr_rdma_read ∷ l) u)
              (call env (handler env)
                (ib_post_send t.ctx.qp t.ctx.rdma_sq_wr (entry t.ctx t.ctx.rdma_sq_wr.sg_list)) t)
              _ (post-Posted l wr_rdma_read t.ctx.rdma_sq_wr t pt.1 pt.0)
              λ _ u pu. wait_posts_none (wr_rdma_read ∷ l) rdma_read_complete _ pu

    rdma_write-Posted : (s : Sys) → Posted l s → LeavesPosted (wr_rdma_write ∷ l) (rdma_write env s)
    unfolding rdma_write
    rdma_write-Posted s p =
        Leaves-bind (Prepared wr_rdma_write) (λ _ t. Posted (wr_rdma_write ∷ l) t)
          (prepare_write env s) _ (prepare_write-Prepared s p)
          λ _ t pt.
            Leaves-bind (λ _ u. Posted (wr_rdma_write ∷ l) u) (λ _ u. Posted (wr_rdma_write ∷ l) u)
              (call env (handler env)
                (ib_post_send t.ctx.qp t.ctx.rdma_sq_wr (entry t.ctx t.ctx.rdma_sq_wr.sg_list)) t)
              _ (post-Posted l wr_rdma_write t.ctx.rdma_sq_wr t pt.1 pt.0)
              λ _ u pu. wait_posts_none (wr_rdma_write ∷ l) rdma_write_complete u pu

  pub rounds-Posted :
      (n : ℕ) (l : List WrOpcode) (s : Sys)
      → Posted l s
      → LeavesPosted (round_trips n l) (rounds n env s)
  unfolding rounds
  rounds-Posted zero l s p = p
  rounds-Posted (suc n) l s p =
      let Q : Unit {0} → Sys → Type 0 = λ _ t. Posted (round_trips (suc n) l) t in
      Leaves-bind (λ _ t. Posted (wr_rdma_read ∷ l) t) Q (rdma_read env s) _
        (rdma_read-Posted l s p)
        λ _ t pt.
          Leaves-bind (λ _ u. Posted (wr_rdma_write ∷ wr_rdma_read ∷ l) u) Q (rdma_write env t) _
            (rdma_write-Posted (wr_rdma_read ∷ l) t pt)
            λ _ u pu. rounds-Posted n (wr_rdma_write ∷ wr_rdma_read ∷ l) u pu
