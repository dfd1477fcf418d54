-- ===== src/Counters.antt =====
-- The counters of server/megaVM_server.c over a completion interrupt.
use infiniband.Common.{ℕ, ◌≡◌, false, List}
use infiniband.Ib.Types.{eq_state, error, rdma_sgl}
use infiniband.Ib.Calls.{Wc, Env, cqe}
use infiniband.Ib.Machine.{Sys}
use infiniband.Ib.Frame.{Returns, Kept}
use infiniband.Ib.Rules.{Returns-mono}
use infiniband.Ib.Wake.{Leaves, Returns-both}
use infiniband.Ib.Tally.{AllGoodEnds, AreWords, IsSized, tally, cq_event_handler-tally}
use infiniband.Server.Events.{handler, cq_event_handler, treatment}
use infiniband.Server.Wake.{AllArrive, handler-Keeps}

module _ (env : Env) (k n : ℕ) where
  handled :
      (wcs : List Wc) (last : ℕ) (s : Sys)
      → AllGoodEnds wcs
      → AreWords s.ctx.stats
      → IsSized env (treatment env) k n s
      → eq_state s.ctx.state error ≡ false
      → Leaves
          (λ _ t. t.ctx.stats ≡ tally env (treatment env) k n wcs s.ctx.stats)
          (handler env (cqe wcs last) s)
  unfolding handler cq_event_handler
  handled wcs last s g words z calm =
      cq_event_handler-tally env (treatment env) k n wcs last s g words z calm

  -- A completion interrupt of the server outside of the state ERROR, whatever number of sends, RDMA
  -- writes and RDMA reads it reports, in whatever order, all come to a good end: where the scatter
  -- entry of the sends has `k` bytes and that of the transfers `n`, what the reads bring fits the buffer
  -- with a NUL, and the counters are 64-bit words, the handler returns. Each counter of messages has
  -- then grown by the number of those completions, that of bytes by their number times `k` or `n`, all
  -- modulo 2^64, and the counters of receives are as they were.
  pub handler-tally :
      (wcs : List Wc) (last : ℕ) (s : Sys)
      → AllGoodEnds wcs
      → AllArrive env s (cqe wcs last)
      → AreWords s.ctx.stats
      → IsSized env (treatment env) k n s
      → eq_state s.ctx.state error ≡ false
      → Returns
          (λ _ t. t.ctx.stats ≡ tally env (treatment env) k n wcs s.ctx.stats)
          (handler env (cqe wcs last) s)
  handler-tally wcs last s g arrive words z calm =
      Returns-mono _ (λ _ t. t.ctx.stats ≡ tally env (treatment env) k n wcs s.ctx.stats) _
        (Returns-both (λ _ t. Kept env s t)
          (λ _ t. t.ctx.stats ≡ tally env (treatment env) k n wcs s.ctx.stats)
          (handler env (cqe wcs last) s) (handler-Keeps env (cqe wcs last) s rdma_sgl z.1 arrive)
          (handled wcs last s g words z calm))
        λ _ t h. h.1
