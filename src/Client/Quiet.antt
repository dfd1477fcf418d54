-- ===== src/Client/Quiet.antt =====
-- The client's handlers under the rules of Ib/Rules: no RDMA transfer is ever reported to a client.
use infiniband.Common.{ℕ, ◌≡◌, refl, not, ◌<◌, ◌^◌, ◌==◌, ◌||◌, false, length}
use infiniband.Ib.Types.{Ptr, sizeof_rdma_info, is_err}
use infiniband.Ib.Calls.{Wc, Callback, cma, cqe, Env, rdma_create_id, ib_get_dma_mr, Call}
use infiniband.Ib.Machine.{Sys}
use infiniband.Ib.Frame.{Keeps, Keeps-if, Kept-refl, Kept-blotted, cma_event_handler-Keeps}
use infiniband.Ib.Completions.{cq_event_handler-Keeps}
use infiniband.Ib.Mild.{IsMild, counts}
use infiniband.Ib.Rules.{At, IsPolite}
use infiniband.Ib.Follow.{Follows, quiet-Follows}
use infiniband.Client.Events.{handler, treatment, recv_result, client_recv}

module _ (env : Env) where
  recv_result-Keeps : (wc : Wc) (s : Sys) → Keeps env s (recv_result env wc s)
  unfolding recv_result client_recv
  recv_result-Keeps wc s =
      Keeps-if env s (s.ctx.server == 0) _ _
        (Keeps-if env s (not (wc.byte_len == sizeof_rdma_info)) _ _ (Kept-refl env s)
          (Kept-blotted env s _ s.wakes refl refl))
        (Kept-refl env s)

  pub handler-Keeps : (k : Callback) → IsMild k → (s : Sys) → Keeps env s (handler env k s)
  unfolding handler
  handler-Keeps (cma id e) m s = cma_event_handler-Keeps env id e s
  handler-Keeps (cqe wcs last) m s =
      cq_event_handler-Keeps env (treatment env) recv_result-Keeps wcs last s
        (counts env (treatment env) recv_result-Keeps wcs s m)

-- The calls that the client relies on: answers are machine words, a protection domain is an error pointer
-- or no null pointer, an identifier and a memory region are good pointers, so that `rdma_create_id` and
-- `ib_get_dma_mr` do not fail, and the block that kmalloc gives has the 64 bytes that the client asks for.
pub record IsDriver (env : Env) : Type 0 where
  pub polite : IsPolite IsMild env
  pub word : (n : ℕ) (c : Call) → (env.reply n c).answer < 2 ^ 64
  pub good_id :
      (n : ℕ)
      → (((env.reply n rdma_create_id).answer == 0) || is_err (env.reply n rdma_create_id).answer)
        ≡ false
  pub good_mr :
      (n : ℕ) (p : Ptr)
      → (((env.reply n (ib_get_dma_mr p)).answer == 0)
          || is_err (env.reply n (ib_get_dma_mr p)).answer)
        ≡ false
  pub good_pd : (n : ℕ) (d : Ptr) → ((env.reply n (Call.ib_alloc_pd d)).answer == 0) ≡ false
  pub memory : (p : Ptr) → length (env.garbage p) ≡ 64

pub thread : (env : Env) → IsDriver env → Follows env (handler env) (At env)
thread env d = quiet-Follows env (handler env) IsMild d.polite (handler-Keeps env)
