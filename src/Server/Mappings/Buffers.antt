-- ===== src/Server/Mappings/Buffers.antt =====
-- The mappings that the server's `setup_buffers` makes, and `megaVM_free_buffers` undoes.
use mathlib.Core.Path.{subst}
use infiniband.Common.{ℕ, ◌≡◌, refl, ap, ◌∙◌, sym, true, false, not, List, ◌∷◌, ◌==◌, arith}
use infiniband.Ib.Types.{IsGood, Ptr, IbContext, null, minus, sizeof_rdma_info}
use infiniband.Ib.Calls.{Env, ib_get_dma_mr, kmalloc, kfree, recv_region, send_region, rdma_region}
use infiniband.Ib.Machine.{Sys, Cmd, and_then, deref, reply_at, when}
use infiniband.Ib.Frame.{Returns}
use infiniband.Server.Setup.{bail, setup_wr, setup_sink, setup_buffers, free_buffers}
use infiniband.Server.Buffers.{NoRegions}
use infiniband.Server.Buffers.{put_wr}
use infiniband.Server.Mappings.{
  mapped, unmapped, IsIdle, Stands, Stands-modify, alone, map_alone, unmap_alone, dereg_valid_alone,
  dereg_alone, no_dereg, skip_null,
}

module _ (env : Env) (d : IsIdle env) where
  -- Two mappings more, and none undone.
  abbrev pub Leaked : List ℕ → List ℕ → ℕ → Sys → Type 0
  Leaked m u ret t =
      (ret ≡ minus 1) × ((from to : ℕ) × (mapped t.calls ≡ to ∷ from ∷ m) × (unmapped t.calls ≡ u))

  bail-Leaked :
      (c : IbContext) (m u : List ℕ) (from to : ℕ) {s : Sys}
      → NoRegions c
      → IsGood c.dma_mr
      → (c.rdma_buf == null) ≡ true
      → Stands c (to ∷ from ∷ m) u s
      → Returns (Leaked m u) (bail env (minus 1) s)
  unfolding bail
  bail-Leaked c m u from to {s} regions good no_sink a =
      let Q = Leaked m u in
      let null_rdma : (s.ctx.rdma_mr == null) ≡ true =
        ap (λ c. c.rdma_mr == null) a.context ∙ regions.rdma in
      let null_recv : (s.ctx.recv_mr == null) ≡ true =
        ap (λ c. c.recv_mr == null) a.context ∙ regions.recv in
      let null_send : (s.ctx.send_mr == null) ≡ true =
        ap (λ c. c.send_mr == null) a.context ∙ regions.send in
      let null_sink : (s.ctx.rdma_buf == null) ≡ true =
        ap (λ c. c.rdma_buf == null) a.context ∙ no_sink in
      let good_here : IsGood s.ctx.dma_mr = subst (λ c. IsGood c.dma_mr) (sym a.context) good in
      skip_null env d Q a s.ctx.rdma_mr _ null_rdma (
        dereg_valid_alone env d Q a s.ctx.dma_mr _ good_here λ t1 a1.
          skip_null env d Q a1 s.ctx.recv_mr _ null_recv (
            skip_null env d Q a1 s.ctx.send_mr _ null_send
              (rw (null_sink, when, not) (refl, (from, to, a1.maps, a1.unmaps)))))

  -- The context behind the two small mappings and the region.
  abbrev begun : IbContext → ℕ → ℕ → Ptr → IbContext
  begun c from to x = record c {
    recv_dma_addr = from;
    recv_mapping = from;
    send_dma_addr = to;
    send_mapping = to;
    dma_mr = x;
  }

  -- The way of `setup_buffers` to the kmalloc.
  to_sink :
      (Q : ℕ → Sys → Type 0) (s : Sys)
      → IsGood s.ctx.pd
      → ((from to x n : ℕ) (t : Sys)
          → IsGood x
          → Stands (begun s.ctx from to x) (to ∷ from ∷ mapped s.calls) (unmapped s.calls) t
          → Returns Q (setup_sink env n t))
      → Returns Q (setup_buffers env s)
  unfolding setup_buffers
  to_sink Q s good next =
      let start : Stands s.ctx (mapped s.calls) (unmapped s.calls) s = record {
        context = refl;
        maps = refl;
        unmaps = refl;
      } in
      map_alone env d Q start recv_region sizeof_rdma_info _ good λ from t1 a1.
        map_alone env d Q
          (Stands-modify (λ c. record c { recv_dma_addr = from; recv_mapping = from }) a1)
          send_region sizeof_rdma_info _ good
          λ to t2 a2.
            let x = (reply_at env (ib_get_dma_mr t2.ctx.pd) t2).answer in
            let good_x : IsGood x = d.good_mr _ t2.ctx.pd in
            let there : (x == null) ≡ false = ground arith in
            alone env d Q
              (Stands-modify (λ c. record c { send_dma_addr = to; send_mapping = to }) a2)
              (ib_get_dma_mr t2.ctx.pd) _
              λ t3 a3. rw there (
                next from to x t3.ctx.size _ good_x
                  (Stands-modify (λ c. record c { dma_mr = x }) a3))

  -- Where no handler runs, the region of the memory is given and kmalloc yields NULL, `setup_buffers`
  -- returns -1 with two mappings for the device made and none undone.
  pub setup_buffers-Leaked :
      (s : Sys)
      → IsGood s.ctx.pd
      → NoRegions s.ctx
      → ((n k : ℕ) → ((env.reply n (kmalloc k)).answer == 0) ≡ true)
      → Returns (Leaked (mapped s.calls) (unmapped s.calls)) (setup_buffers env s)
  unfolding setup_sink
  setup_buffers-Leaked s good regions full =
      let Q = Leaked (mapped s.calls) (unmapped s.calls) in
      to_sink Q s good λ from to x n t good_x a.
        let y = (reply_at env (kmalloc n) t).answer in
        let none_left : (y == null) ≡ true = full _ n in
        alone env d Q a (kmalloc n) _ λ t1 a1. rw none_left (
          bail-Leaked _ (mapped s.calls) (unmapped s.calls) from to regions good_x none_left
            (Stands-modify (λ c. record c { rdma_buf = y; rdma_data = env.garbage y }) a1))

  -- Three mappings more, and `free_buffers` undoes just them.
  abbrev pub Mapped : List ℕ → List ℕ → ℕ → Sys → Type 0
  Mapped m u ret t =
      (ret ≡ 0)
      × ((from to sink : ℕ) × (mapped t.calls ≡ sink ∷ to ∷ from ∷ m)
          × (unmapped t.calls ≡ u)
          × Returns
              (λ _ v.
                (mapped v.calls ≡ sink ∷ to ∷ from ∷ m) × (unmapped v.calls ≡ sink ∷ to ∷ from ∷ u))
              (free_buffers env t))

  -- What `free_buffers` undoes.
  abbrev Undone : IbContext → List ℕ → List ℕ → Unit {0} → Sys → Type 0
  Undone c m u x v =
      (mapped v.calls ≡ m)
      × (unmapped v.calls ≡ c.rdma_mapping ∷ c.send_mapping ∷ c.recv_mapping ∷ u)

  free_here :
      (m u : List ℕ) (s : Sys)
      → NoRegions s.ctx
      → IsGood s.ctx.dma_mr
      → IsGood s.ctx.pd
      → Stands s.ctx m u s
      → Returns (Undone s.ctx m u) (free_buffers env s)
  unfolding free_buffers
  free_here m u s regions memory domain a =
      let Q = Undone s.ctx m u in
      let there : (s.ctx.dma_mr == null) ≡ false = ground arith in
      dereg_alone env d Q a s.ctx.dma_mr _ there λ t1 a1.
        no_dereg env d Q a1 s.ctx.send_mr _ regions.send (
          no_dereg env d Q a1 s.ctx.recv_mr _ regions.recv (
            no_dereg env d Q a1 s.ctx.rdma_mr _ regions.rdma (
              unmap_alone env d Q a1 s.ctx.recv_mapping sizeof_rdma_info _ domain λ t2 a2.
                unmap_alone env d Q a2 s.ctx.send_mapping sizeof_rdma_info _ domain λ t3 a3.
                  unmap_alone env d Q a3 s.ctx.rdma_mapping s.ctx.size _ domain λ t4 a4.
                    alone env d Q a4 (kfree s.ctx.rdma_buf) _ λ t5 a5. (a5.maps, a5.unmaps))))

  free_after :
      (c : IbContext) (m u : List ℕ) {s : Sys}
      → NoRegions c
      → IsGood c.dma_mr
      → IsGood c.pd
      → Stands c m u s
      → Returns (Undone c m u) (free_buffers env s)
  free_after c m u {s} regions memory domain a =
      subst
        (λ c.
          NoRegions c
          → IsGood c.dma_mr
          → IsGood c.pd
          → Stands c m u s
          → Returns (Undone c m u) (free_buffers env s))
        a.context (λ h1 h2 h3 at. free_here m u s h1 h2 h3 at) regions memory domain a

  -- `setup_wr` on a region that is there.
  wired :
      (c : IbContext) (m u : List ℕ) {A : Type 0} (Q : A → Sys → Type 0) {s : Sys}
      (k : Unit {0} → Cmd A)
      → IsGood c.dma_mr
      → Stands c m u s
      → ((lkey : ℕ) (t : Sys) → Stands (put_wr lkey c) m u t → Returns Q (k tt t))
      → Returns Q (and_then (setup_wr env s) k)
  unfolding setup_wr
  wired c m u Q {s} k good a next =
      let here : IsGood s.ctx.dma_mr = subst (λ c. IsGood c.dma_mr) (sym a.context) good in
      let lkey = env.lkey_of s.ctx.dma_mr in
      rw (here, deref) (next lkey _ (Stands-modify (put_wr lkey) a))

  -- Where no handler runs, the region of the memory is given and kmalloc yields a block,
  -- `setup_buffers` returns 0 with three mappings for the device made, and `megaVM_free_buffers`, run
  -- next, undoes just these, each once.
  pub setup_buffers-Mapped :
      (s : Sys)
      → IsGood s.ctx.pd
      → NoRegions s.ctx
      → ((n k : ℕ) → ((env.reply n (kmalloc k)).answer == 0) ≡ false)
      → Returns (Mapped (mapped s.calls) (unmapped s.calls)) (setup_buffers env s)
  unfolding setup_sink
  setup_buffers-Mapped s good regions room =
      let m = mapped s.calls in
      let u = unmapped s.calls in
      let Q = Mapped m u in
      to_sink Q s good λ from to x n t good_x a.
        let y = (reply_at env (kmalloc n) t).answer in
        let there : (y == null) ≡ false = room _ n in
        alone env d Q a (kmalloc n) _ λ t1 a1. rw there (
          map_alone env d Q
            (Stands-modify (λ c. record c { rdma_buf = y; rdma_data = env.garbage y }) a1)
            rdma_region n _ good
            λ sink t2 a2.
              wired _ (sink ∷ to ∷ from ∷ m) u Q _ good_x
                (Stands-modify (λ c. record c { rdma_dma_addr = sink; rdma_mapping = sink }) a2)
                λ lkey t3 a3. (
                  refl,
                  (
                    from,
                    to,
                    sink,
                    a3.maps,
                    a3.unmaps,
                    free_after _ (sink ∷ to ∷ from ∷ m) u regions good_x good a3,
                  ),
                ))
