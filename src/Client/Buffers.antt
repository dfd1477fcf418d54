-- ===== src/Client/Buffers.antt =====
-- The buffers of the client: what `megaVM_setup_buffers` acquires and `megaVM_free_buffers` gives back.
use mathlib.Core.Path.{subst}
use infiniband.Common.{
  ℕ, ◌≡◌, refl, ap, ◌∙◌, sym, ◌⊎◌, inl, inr, Bool, true, false, not, ◌||◌, some, List, ◌∷◌, ◌==◌,
  ==_iff, arith, length, if◌then◌else◌, Bool-cases,
}
use infiniband.Ib.Types.{
  IsGood, MemType, recv_sgl, send_sgl, wr_send, Ptr, IbContext, dma, null, is_err, minus,
  sizeof_rdma_info,
}
use infiniband.Ib.Calls.{
  Env, recv_region, send_region, rdma_region, start_region, ib_get_dma_mr, ib_dereg_mr, kmalloc,
  kfree,
}
use infiniband.Ib.Machine.{pure, context, ◌>>=◌, Sys, reply_at, when, deref}
use infiniband.Ib.Ledger.{Resource, give_back, mr, block}
use infiniband.Ib.Frame.{Returns, Returns-bind, frozen}
use infiniband.Ib.Rules.{At}
use infiniband.Client.Events.{handler}
use infiniband.Client.Setup.{
  setup_wr, bail, setup_source, setup_sink, get_dma_mr, is_dma, register, setup_buffers,
  free_buffers,
}
use infiniband.Client.Ledger.{ask, do_call, read_through}
use infiniband.Ib.Follow.{
  At-modify, At-if, map_region-Returns, unmap-Returns, dereg_null, dereg_valid_null, dereg-Returns,
  dereg_valid-Returns,
}
use infiniband.Client.Quiet.{IsDriver, thread}
pub mod Source
pub mod Ready
pub mod Free

-- The regions that are never registered, since the memory is of the type DMA.
pub record AreNull (recv_mr send_mr rdma_mr start_mr : Ptr) : Type 0 where
  pub recv : (recv_mr == null) ≡ true
  pub send : (send_mr == null) ≡ true
  pub rdma : (rdma_mr == null) ≡ true
  pub start : (start_mr == null) ≡ true

abbrev pub NoRegions : IbContext → Type 0
NoRegions r = AreNull r.recv_mr r.send_mr r.rdma_mr r.start_mr

-- Before `setup_buffers`.
pub record IsFresh (r : IbContext) : Type 0 where
  pub mem : r.mem ≡ dma
  pub domain : IsGood r.pd
  pub regions : NoRegions r
  pub sink : (r.rdma_buf == null) ≡ true
  pub source : (r.start_buf == null) ≡ true
  pub size : r.size ≡ 64

-- After it.
pub record HasBuffers (r : IbContext) : Type 0 where
  pub domain : IsGood r.pd
  pub memory : IsGood r.dma_mr
  pub regions : NoRegions r
  pub sink : (r.rdma_buf == null) ≡ false
  pub source : (r.start_buf == null) ≡ false
  pub size : r.size ≡ 64

abbrev pub buffers_of : IbContext → List Resource → List Resource
buffers_of r rs = block r.start_buf ∷ block r.rdma_buf ∷ mr r.dma_mr ∷ rs

-- The identifier and the queues are the same.
abbrev pub Untouched : IbContext → IbContext → Type 0
Untouched r r' = (r'.cm_id ≡ r.cm_id) × (r'.pd ≡ r.pd) × (r'.cq ≡ r.cq) × (r'.qp ≡ r.qp)

module _ (env : Env) (d : IsDriver env) where
  -- What `setup_buffers` leaves behind, by its result.
  abbrev pub BuffersReady : IbContext → List Resource → ℕ → Sys → Type 0
  BuffersReady r rs ret t =
      (((ret == 0) ≡ true)
        × ((r' : IbContext) × Untouched r r'
            × HasBuffers r'
            × (length r'.start_data ≡ 64)
            × At env r' (buffers_of r' rs) t))
      ⊎ (((ret == 0) ≡ false) × ((r' : IbContext) × Untouched r r' × At env r' rs t))

  module _ (s : Sys) (rs : List Resource) (regions : NoRegions s.ctx) (good : IsGood s.ctx.dma_mr)
      (no_source : (s.ctx.start_buf == null) ≡ true) where
    pub bail_sink :
        (ret : ℕ)
        → (ret == 0) ≡ false
        → (s.ctx.rdma_buf == null) ≡ false
        → At env (frozen s.ctx) (block s.ctx.rdma_buf ∷ mr s.ctx.dma_mr ∷ rs) s
        → Returns (BuffersReady (frozen s.ctx) rs) (bail env ret s)
    unfolding bail
    bail_sink ret fails e at =
        let Q = BuffersReady (frozen s.ctx) rs in
        dereg_valid_null env (handler env) (thread env d) Q at s.ctx.rdma_mr _ regions.rdma (
          dereg_valid-Returns env (handler env) (thread env d) Q at s.ctx.dma_mr
            (block s.ctx.rdma_buf ∷ rs) _ good (ground arith)
            λ t a1.
              dereg_valid_null env (handler env) (thread env d) Q a1 s.ctx.recv_mr _ regions.recv (
                dereg_valid_null env (handler env) (thread env d) Q a1 s.ctx.send_mr _ regions.send
                  (rw (e, no_source, when, not)
                    (do_call env d Q a1 (kfree s.ctx.rdma_buf) rs _ (rw e (ground arith))
                      λ u a2. inr (fails, (frozen s.ctx, (refl, refl, refl, refl), a2))))))

    pub bail_no_sink :
        (ret : ℕ)
        → (ret == 0) ≡ false
        → (s.ctx.rdma_buf == null) ≡ true
        → At env (frozen s.ctx) (mr s.ctx.dma_mr ∷ rs) s
        → Returns (BuffersReady (frozen s.ctx) rs) (bail env ret s)
    unfolding bail
    bail_no_sink ret fails e at =
        let Q = BuffersReady (frozen s.ctx) rs in
        dereg_valid_null env (handler env) (thread env d) Q at s.ctx.rdma_mr _ regions.rdma (
          dereg_valid-Returns env (handler env) (thread env d) Q at s.ctx.dma_mr rs _ good
            (ground arith)
            λ t a1.
              dereg_valid_null env (handler env) (thread env d) Q a1 s.ctx.recv_mr _ regions.recv (
                dereg_valid_null env (handler env) (thread env d) Q a1 s.ctx.send_mr _ regions.send
                  (rw (e, no_source, when, not)
                    (inr (fails, (frozen s.ctx, (refl, refl, refl, refl), a1))))))
