-- ===== src/Ib/Tally.antt =====
-- The statistics after a completion interrupt of transfers and sends, against totals that are computed
-- at once.
mod Counted
pub use Counted.*
use mathlib.Core.Path.{subst}
use infiniband.Common.{
  ℕ, ◌+◌, ◌*◌, ◌%◌, ◌^◌, ◌<◌, ◌≡◌, refl, ap, ◌∙◌, sym, true, false, Option, none, some, List, [],
  ◌∷◌, arith, if◌then◌else◌, Bool,
}
use infiniband.Ib.Types.{MegaVmStats, rdma_sgl, eq_state, error}
use infiniband.Ib.Calls.{Wc, WcOpcode, WcStatus, Env}
use infiniband.Ib.Machine.{Sys, raw_call, pure, skip, set_state, wake_up, ◌>>◌}
use infiniband.Ib.Wake.{Leaves, Leaves-bind, Leaves-if, Leaves-mono, print_sink-same}
use infiniband.Ib.Events.{
  Treatment, cq_event_handler, on_opcode, on_status, landed, poll_loop, print_sink, store_bytes,
  put_block, count_send, count_write, count_read,
}

module _ (env : Env) (on : Treatment) (k n : ℕ) where
  -- The scatter entries of the two send requests have `k` and `n` bytes.
  abbrev pub IsSized : Sys → Type 0
  IsSized s =
      (s.ctx.send_sge.length ≡ k)
      × (s.ctx.rdma_sq_wr.sg_list ≡ some rdma_sgl)
      × (s.ctx.rdma_sge.length ≡ n)

  -- The counters from `st` on, with the entries as they were.
  abbrev Stands : MegaVmStats → Sys → Type 0
  Stands st t = (t.ctx.stats ≡ st) × IsSized t

  on_opcode-Stands :
      (o : WcOpcode) (wc : Wc) (st : MegaVmStats) (s : Sys)
      → IsGoodEnd WcStatus.success o
      → Stands st s
      → Leaves (λ go t. (go ≡ true) × Stands (one k n o st) t) (on_opcode env on o wc s)
  unfolding on_opcode one
  on_opcode-Stands WcOpcode.wc_send wc st s g (e, z) = (refl, (rw (z.0, e) refl, z))
  on_opcode-Stands WcOpcode.wc_rdma_write wc st s g (e, z) =
      rw z.1 (refl, (rw (z.2, e) refl, (z.0, refl, z.2)))
  on_opcode-Stands WcOpcode.wc_rdma_read wc st s g (e, z) =
      Leaves-bind (λ _ t. t ≡ s) (λ go t. (go ≡ true) × Stands (one k n WcOpcode.wc_rdma_read st) t)
        (print_sink on.prints s) _ (print_sink-same env on.prints s)
        λ _ t same.
          let zt : IsSized t = subst IsSized (sym same) z in
          let et : t.ctx.stats ≡ st = ap (λ t. t.ctx.stats) same ∙ e in
          rw zt.1 (refl, (rw (zt.2, et) refl, (zt.0, refl, zt.2)))
  on_opcode-Stands WcOpcode.wc_recv wc st s g h = absurd g
  on_opcode-Stands WcOpcode.wc_other wc st s g h = absurd g

  on_status-Stands :
      (status : WcStatus) (wc : Wc) (st : MegaVmStats) (s : Sys)
      → IsGoodEnd status wc.opcode
      → Stands st s
      → Leaves
          (λ go t. (go ≡ true) × Stands (one k n wc.opcode st) t)
          (on_status env on status wc s)
  unfolding on_status
  on_status-Stands WcStatus.success wc st s g h = on_opcode-Stands wc.opcode wc st s g h
  on_status-Stands WcStatus.flush_err wc st s g h = absurd g
  on_status-Stands WcStatus.failure wc st s g h = absurd g

  put_block-Stands :
      (o : Option (List ℕ)) (st : MegaVmStats) (s : Sys)
      → Stands st s
      → Leaves (λ _ t. Stands st t) (put_block o s)
  put_block-Stands none st s h = tt
  put_block-Stands (some block) st s h = h

  landed-Stands :
      (o : WcOpcode) (status : WcStatus) (wc : Wc) (st : MegaVmStats) (s : Sys)
      → Stands st s
      → Leaves (λ _ t. Stands st t) (landed o status wc s)
  unfolding landed
  landed-Stands WcOpcode.wc_recv WcStatus.success wc st s h = h
  landed-Stands WcOpcode.wc_rdma_read WcStatus.success wc st s h =
      put_block-Stands (store_bytes wc.bytes s.ctx.rdma_data) st s h
  landed-Stands _ _ wc st s h = h

  -- The counters with all the completions counted.
  abbrev pub tally : List Wc → MegaVmStats → MegaVmStats
  tally wcs = counted k n (total sends_in wcs) (total writes_in wcs) (total reads_in wcs)

  next-tally :
      (last : ℕ) (wcs : List Wc) (goal st : MegaVmStats)
      → ((t : Sys) → Stands st t → Leaves (λ _ u. u.ctx.stats ≡ goal) (poll_loop env on last wcs t))
      → (go : Bool) (t : Sys) → (go ≡ true) × Stands st t
      → Leaves
          (λ _ u. u.ctx.stats ≡ goal)
          ((if go then poll_loop env on last wcs else pure false) t)
  next-tally last wcs goal st rest true t (e, h) = rest t h
  next-tally last wcs goal st rest false t (e, h) = absurd (ground (arith, e))

  poll_loop-tally :
      (last : ℕ) (wcs : List Wc) (st : MegaVmStats) (s : Sys)
      → AllGoodEnds wcs
      → AreWords st
      → Stands st s
      → Leaves (λ _ t. t.ctx.stats ≡ tally wcs st) (poll_loop env on last wcs s)
  unfolding poll_loop
  poll_loop-tally last [] st s g words (e, z) = e ∙ sym (counted-none k n st words)
  poll_loop-tally last (wc ∷ wcs) st s g words h =
      Leaves-bind (λ _ t. Stands st t) (λ _ t. t.ctx.stats ≡ tally (wc ∷ wcs) st)
        (landed wc.opcode wc.status wc s) _ (landed-Stands wc.opcode wc.status wc st s h)
        λ _ t ht.
          Leaves-bind (λ go u. (go ≡ true) × Stands (one k n wc.opcode st) u)
            (λ _ u. u.ctx.stats ≡ tally (wc ∷ wcs) st) (on_status env on wc.status wc t) _
            (on_status-Stands wc.status wc st t g.0 ht)
            (next-tally last wcs (tally (wc ∷ wcs) st) (one k n wc.opcode st) λ u hu.
              Leaves-mono (λ _ v. v.ctx.stats ≡ tally wcs (one k n wc.opcode st))
                (λ _ v. v.ctx.stats ≡ tally (wc ∷ wcs) st) _
                (poll_loop-tally last wcs (one k n wc.opcode st) u g.1
                  (one-AreWords k n wc.opcode st words) hu)
                λ _ v e.
                  e
                  ∙ one-counted k n (total sends_in wcs) (total writes_in wcs) (total reads_in wcs)
                      wc.status wc.opcode st g.0)

  -- A completion interrupt outside of the state ERROR, of sends and transfers that have come to a good
  -- end.
  pub cq_event_handler-tally :
      (wcs : List Wc) (last : ℕ) (s : Sys)
      → AllGoodEnds wcs
      → AreWords s.ctx.stats
      → IsSized s
      → eq_state s.ctx.state error ≡ false
      → Leaves (λ _ t. t.ctx.stats ≡ tally wcs s.ctx.stats) (cq_event_handler env on wcs last s)
  unfolding cq_event_handler raw_call
  cq_event_handler-tally wcs last s g words z calm = rw calm (
      Leaves-bind (λ _ t. t.ctx.stats ≡ tally wcs s.ctx.stats)
        (λ _ t. t.ctx.stats ≡ tally wcs s.ctx.stats) (poll_loop env on last wcs _) _
        (poll_loop-tally last wcs s.ctx.stats _ g words (refl, z))
        λ good u e.
          Leaves-if (λ _ t. t.ctx.stats ≡ tally wcs s.ctx.stats) good skip
            (set_state error >> wake_up) u e e)
