-- ===== src/Server/Buffers.antt =====
-- The buffers of the server: what `setup_buffers` acquires and `megaVM_free_buffers` gives back.
use mathlib.Core.Path.{subst}
use infiniband.Common.{
  ℕ, ◌≡◌, refl, ◌⊎◌, inl, inr, true, false, not, List, ◌∷◌, ◌==◌, arith, ap, sym, some,
}
use infiniband.Ib.Types.{
  Ptr, IbContext, IsGood, null, sizeof_rdma_info, recv_sgl, send_sgl, rdma_sgl, wr_send,
}
use infiniband.Ib.Calls.{Env, kfree}
use infiniband.Ib.Machine.{Sys, when, deref}
use infiniband.Ib.Ledger.{Resource, mr, block}
use infiniband.Ib.Frame.{Returns, frozen}
use infiniband.Ib.Follow.{
  ask, unmap-Returns, dereg_null, dereg_valid_null, dereg-Returns, dereg_valid-Returns,
}
use infiniband.Server.Events.{handler}
use infiniband.Server.Setup.{setup_wr, bail, free_buffers}
use infiniband.Server.Live.{Live, IsFollowed, Live-modify}
pub mod Ready

-- The regions that the server never registers.
pub record AreNull (recv_mr send_mr rdma_mr : Ptr) : Type 0 where
  pub recv : (recv_mr == null) ≡ true
  pub send : (send_mr == null) ≡ true
  pub rdma : (rdma_mr == null) ≡ true

abbrev pub NoRegions : IbContext → Type 0
NoRegions r = AreNull r.recv_mr r.send_mr r.rdma_mr

-- Before `setup_buffers`.
pub record IsFresh (r : IbContext) : Type 0 where
  pub domain : IsGood r.pd
  pub regions : NoRegions r

-- After it.
pub record HasBuffers (r : IbContext) : Type 0 where
  pub domain : IsGood r.pd
  pub memory : IsGood r.dma_mr
  pub regions : NoRegions r
  pub sink : (r.rdma_buf == null) ≡ false
  pub entry : r.rdma_sq_wr.sg_list ≡ some rdma_sgl

-- The identifier and the queues are the same.
abbrev pub Untouched : IbContext → IbContext → Type 0
Untouched r r' = (r'.cm_id ≡ r.cm_id) × (r'.pd ≡ r.pd) × (r'.cq ≡ r.cq) × (r'.qp ≡ r.qp)

abbrev pub buffers_of : IbContext → List Resource → List Resource
buffers_of r rs = block r.rdma_buf ∷ mr r.dma_mr ∷ rs

-- What `setup_wr` does to the context.
abbrev pub put_wr : ℕ → IbContext → IbContext
put_wr lkey c = record c {
  recv_sge = record { addr = c.recv_dma_addr; length = sizeof_rdma_info; lkey = lkey };
  rq_wr = record { sg_list = some recv_sgl; num_sge = 1 };
  send_sge = record { addr = c.send_dma_addr; length = sizeof_rdma_info; lkey = lkey };
  sq_wr = record (c.sq_wr) {
    opcode = wr_send;
    signaled = true;
    sg_list = some send_sgl;
    num_sge = 1;
  };
  rdma_sge = record (c.rdma_sge) { addr = c.rdma_dma_addr };
  rdma_sq_wr = record (c.rdma_sq_wr) { signaled = true; sg_list = some rdma_sgl; num_sge = 1 };
}

module _ (env : Env) (child : Ptr) (G : IbContext → Type 0) (d : IsFollowed env child G) where
  -- What `setup_buffers` leaves behind, by its result.
  abbrev pub BuffersReady : IbContext → List Resource → ℕ → Sys → Type 0
  BuffersReady r rs ret t =
      (((ret == 0) ≡ true)
        × ((r' : IbContext) × Untouched r r' × HasBuffers r' × Live env G r' (buffers_of r' rs) t))
      ⊎ (((ret == 0) ≡ false) × ((r' : IbContext) × Untouched r r' × Live env G r' rs t))

  module _ (s : Sys) (rs : List Resource) (regions : NoRegions s.ctx)
      (good : IsGood s.ctx.dma_mr) where
    bail_here :
        (ret : ℕ)
        → (ret == 0) ≡ false
        → (s.ctx.rdma_buf == null) ≡ true
        → Live env G (frozen s.ctx) (mr s.ctx.dma_mr ∷ rs) s
        → Returns (BuffersReady (frozen s.ctx) rs) (bail env ret s)
    unfolding bail
    bail_here ret fails e at =
        let Q = BuffersReady (frozen s.ctx) rs in
        let q = d.follows in
        let h = handler env in
        dereg_valid_null env h q Q at s.ctx.rdma_mr _ regions.rdma (
          dereg_valid-Returns env h q Q at s.ctx.dma_mr rs _ good (ground arith) λ t a1.
            dereg_valid_null env h q Q a1 s.ctx.recv_mr _ regions.recv (
              dereg_valid_null env h q Q a1 s.ctx.send_mr _ regions.send
                (rw (e, when, not) (inr (fails, (frozen s.ctx, (refl, refl, refl, refl), a1))))))

    abbrev Kept-rest : Unit {0} → Sys → Type 0
    Kept-rest u t = Live env G (frozen s.ctx) rs t

    free_here :
        IsGood s.ctx.pd
        → (s.ctx.rdma_buf == null) ≡ false
        → Live env G (frozen s.ctx) (buffers_of (frozen s.ctx) rs) s
        → Returns Kept-rest (free_buffers env s)
    unfolding free_buffers
    free_here domain sink a =
        let Q = Kept-rest in
        let q = d.follows in
        let h = handler env in
        let there : (s.ctx.dma_mr == null) ≡ false = ground arith in
        dereg-Returns env h q Q a s.ctx.dma_mr (block s.ctx.rdma_buf ∷ rs) _ there (ground arith)
          λ t1 a1. dereg_null env h q Q a1 s.ctx.send_mr _ regions.send (
            dereg_null env h q Q a1 s.ctx.recv_mr _ regions.recv (
              dereg_null env h q Q a1 s.ctx.rdma_mr _ regions.rdma (
                unmap-Returns env h q Q a1 s.ctx.recv_mapping sizeof_rdma_info _ domain λ t2 a2.
                  unmap-Returns env h q Q a2 s.ctx.send_mapping sizeof_rdma_info _ domain λ t3 a3.
                    unmap-Returns env h q Q a3 s.ctx.rdma_mapping s.ctx.size _ domain λ t4 a4.
                      ask env h q Q a4 (kfree s.ctx.rdma_buf) rs _ tt (rw sink (ground arith))
                        λ t5 a5. a5)))

  pub bail-Returns :
      (r : IbContext) (rs : List Resource) {s : Sys} (ret : ℕ)
      → NoRegions r
      → IsGood r.dma_mr
      → (r.rdma_buf == null) ≡ true
      → (ret == 0) ≡ false
      → Live env G r (mr r.dma_mr ∷ rs) s
      → Returns (BuffersReady r rs) (bail env ret s)
  bail-Returns r rs {s} ret regions good empty fails a =
      subst
        (λ c.
          NoRegions c
          → IsGood c.dma_mr
          → (c.rdma_buf == null) ≡ true
          → Live env G c (mr c.dma_mr ∷ rs) s
          → Returns (BuffersReady c rs) (bail env ret s))
        a.at.context (λ h1 h2 h3 at. bail_here s rs h1 h2 ret fails h3 at) regions good empty a

  -- On buffers that are all there, `free_buffers` returns, and gives back all that `setup_buffers`
  -- acquired.
  pub free_buffers-Returns :
      (r : IbContext) (rs : List Resource) {s : Sys}
      → HasBuffers r
      → Live env G r (buffers_of r rs) s
      → Returns (λ _ t. Live env G r rs t) (free_buffers env s)
  free_buffers-Returns r rs {s} b a =
      subst
        (λ c.
          HasBuffers c
          → Live env G c (buffers_of c rs) s
          → Returns (λ _ t. Live env G c rs t) (free_buffers env s))
        a.at.context (λ h at. free_here s rs h.regions h.memory h.domain h.sink at) b a

  pub setup_wr-Returns :
      {r : IbContext} {rs : List Resource} {s : Sys}
      → IsGood r.dma_mr
      → Live env G r rs s
      → Returns (λ _ t. (lkey : ℕ) × Live env G (put_wr lkey r) rs t) (setup_wr env s)
  unfolding setup_wr
  setup_wr-Returns {r} {rs} {s} good a =
      let good' : IsGood s.ctx.dma_mr = subst IsGood (sym (ap (λ c. c.dma_mr) a.at.context)) good in
      let lkey = env.lkey_of s.ctx.dma_mr in
      rw (good', deref)
        (
          lkey,
          Live-modify env child G d (put_wr lkey) (put_wr lkey) (λ c. refl)
              (λ c. (refl, refl, refl, inl refl)) a,
        )
