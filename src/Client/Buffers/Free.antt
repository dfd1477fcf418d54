-- ===== src/Client/Buffers/Free.antt =====
-- What `megaVM_free_buffers` gives back.
use mathlib.Core.Path.{subst}
use infiniband.Common.{
  ◌≡◌, refl, inl, inr, true, false, not, some, List, ◌∷◌, ◌==◌, ==_iff, arith, Bool-cases,
}
use infiniband.Ib.Types.{IsGood, Ptr, IbContext, null, sizeof_rdma_info}
use infiniband.Ib.Calls.{Env, kfree}
use infiniband.Ib.Machine.{Sys, when}
use infiniband.Ib.Ledger.{Resource, give_back, block}
use infiniband.Ib.Frame.{Returns, frozen}
use infiniband.Ib.Rules.{At}
use infiniband.Client.Events.{handler}
use infiniband.Client.Setup.{free_buffers}
use infiniband.Client.Ledger.{ask, do_call}
use infiniband.Ib.Follow.{unmap-Returns, dereg_null, dereg-Returns}
use infiniband.Client.Quiet.{IsDriver, thread}
use infiniband.Client.Buffers.{NoRegions, HasBuffers, buffers_of}

module _ (env : Env) (d : IsDriver env) where
  module _ (s : Sys) (rs : List Resource) (regions : NoRegions s.ctx) (memory : IsGood s.ctx.dma_mr)
      (domain : IsGood s.ctx.pd) (sink : (s.ctx.rdma_buf == null) ≡ false)
      (source : (s.ctx.start_buf == null) ≡ false) where
    give_back-second :
        (p q : Ptr) (rs' : List Resource)
        → give_back (block p) (block q ∷ block p ∷ rs') ≡ some (block q ∷ rs')
    give_back-second p q rs' =
        let same_p : (p == p) ≡ true = (==_iff p p).1 refl in
        elim (Bool-cases (p == q)) [
          | inl e ↦ let eq : p ≡ q = (==_iff p q).0 e in rw e (rw eq refl)
          | inr e ↦ rw (e, same_p) refl
        ]

    abbrev Kept-rest : Unit {0} → Sys → Type 0
    Kept-rest u t = At env (frozen s.ctx) rs t

    free_here :
        At env (frozen s.ctx) (buffers_of (frozen s.ctx) rs) s
        → Returns Kept-rest (free_buffers env s)
    unfolding free_buffers
    free_here a =
        let Q = Kept-rest in
        let there : (s.ctx.dma_mr == null) ≡ false = ground arith in
        dereg-Returns env (handler env) (thread env d) Q a s.ctx.dma_mr
          (block s.ctx.start_buf ∷ block s.ctx.rdma_buf ∷ rs) _ there (ground arith)
          λ t1 a1. dereg_null env (handler env) (thread env d) Q a1 s.ctx.send_mr _ regions.send (
            dereg_null env (handler env) (thread env d) Q a1 s.ctx.recv_mr _ regions.recv (
              dereg_null env (handler env) (thread env d) Q a1 s.ctx.rdma_mr _ regions.rdma (
                dereg_null env (handler env) (thread env d) Q a1 s.ctx.start_mr _ regions.start (
                  unmap-Returns env (handler env) (thread env d) Q a1 s.ctx.recv_mapping
                    sizeof_rdma_info _ domain
                    λ t2 a2.
                      unmap-Returns env (handler env) (thread env d) Q a2 s.ctx.send_mapping
                        sizeof_rdma_info _ domain
                        λ t3 a3.
                          unmap-Returns env (handler env) (thread env d) Q a3 s.ctx.rdma_mapping
                            s.ctx.size _ domain
                            λ t4 a4.
                              do_call env d Q a4 (kfree s.ctx.rdma_buf) (block s.ctx.start_buf ∷ rs)
                                _ (rw sink (give_back-second s.ctx.rdma_buf s.ctx.start_buf rs))
                                λ t5 a5.
                                  rw (source, when, not)
                                    (unmap-Returns env (handler env) (thread env d) Q a5
                                      s.ctx.start_mapping s.ctx.size _ domain
                                      λ t6 a6.
                                        ask env d Q a6 (kfree s.ctx.start_buf) rs _
                                          (rw source (ground arith)) λ t7 a7. a7)))))

  -- On buffers that are all there, `free_buffers` returns, and gives back all that `setup_buffers` acquired.
  pub free_buffers-Returns :
      (r : IbContext) (rs : List Resource) {s : Sys}
      → HasBuffers r
      → At env r (buffers_of r rs) s
      → Returns (λ _ t. At env r rs t) (free_buffers env s)
  free_buffers-Returns r rs {s} b a =
      subst
        (λ c.
          HasBuffers c
          → At env c (buffers_of c rs) s
          → Returns (λ _ t. At env c rs t) (free_buffers env s))
        a.context (λ h at. free_here s rs h.regions h.memory h.domain h.sink h.source at) b a
