-- ===== src/Server/Buffers/Ready.antt =====
-- What the server's `setup_buffers` acquires, and that `megaVM_free_buffers` gives it back.
use mathlib.Core.Path.{subst}
use infiniband.Common.{
  ℕ, sym, ◌≡◌, refl, ◌⊎◌, inl, inr, true, false, List, ◌∷◌, ◌==◌, arith, some, Bool-cases,
  if◌then◌else◌,
}
use infiniband.Ib.Types.{Ptr, IbContext, IsGood, null, minus, sizeof_rdma_info, is_err}
use infiniband.Ib.Calls.{Env, ib_get_dma_mr, kmalloc, recv_region, send_region, rdma_region}
use infiniband.Ib.Machine.{Sys, reply_at, context, modify, ◌>>=◌, ◌>>◌}
use infiniband.Ib.Ledger.{Resource, mr, block, held}
use infiniband.Ib.Frame.{Returns, Returns-bind, frozen}
use infiniband.Ib.Rules.{Returns-mono}
use infiniband.Ib.Follow.{ask, map_region-Returns}
use infiniband.Server.Events.{handler}
use infiniband.Server.Setup.{
  ask as ask_server, setup_wr, bail, setup_sink, setup_buffers, free_buffers,
}
use infiniband.Server.Live.{Live, IsFollowed, Live-modify, Live-if, Live-sink}
use infiniband.Server.Quiet.{IsAdapter, Anything, thread}
use infiniband.Server.Buffers.{
  NoRegions, IsFresh, BuffersReady, put_wr, bail-Returns, setup_wr-Returns, buffers_of,
  free_buffers-Returns,
}

module _ (env : Env) (child : Ptr) (G : IbContext → Type 0) (d : IsFollowed env child G) where
  module _ (r : IbContext) (rs : List Resource) (regions : NoRegions r) (good : IsGood r.dma_mr)
      (domain : IsGood r.pd) where
    abbrev mapped : Ptr → ℕ → IbContext
    mapped x addr = record r { rdma_buf = x; rdma_dma_addr = addr; rdma_mapping = addr }

    setup_sink-Returns :
        {s : Sys} (n : ℕ)
        → Live env G r (mr r.dma_mr ∷ rs) s
        → Returns (BuffersReady env child G d r rs) (setup_sink env n s)
    unfolding setup_sink
    setup_sink-Returns {s} n a =
        let Q = BuffersReady env child G d r rs in
        let q = d.follows in
        let h = handler env in
        let held_before = mr r.dma_mr ∷ rs in
        let x = (reply_at env (kmalloc n) s).answer in
        ask env h q Q a (kmalloc n) _ _ tt refl λ t at. elim (Bool-cases (x == null)) [
          | inl e ↦ rw e (
              bail-Returns env child G d (record r { rdma_buf = x }) rs (minus 1) regions good e
                refl
                (Live-sink env child G d x (
                  Live-if env child G d held_before (block x ∷ held_before) (x == null) true e at)))
          | inr e ↦ rw e (
              map_region-Returns env h q Q
                (Live-sink env child G d x (
                  Live-if env child G d held_before (block x ∷ held_before) (x == null) false e at))
                rdma_region n _ domain
                λ addr u au.
                  Returns-bind
                    (λ _ v.
                      (lkey : ℕ) × Live env G (put_wr lkey (mapped x addr)) (block x ∷ held_before)
                        v)
                    Q
                    (setup_wr env (record u {
                      ctx = record (u.ctx) { rdma_dma_addr = addr; rdma_mapping = addr };
                    }))
                    _
                    (setup_wr-Returns env child G d {r = mapped x addr} good (
                      Live-modify env child G d
                        (λ c. record c { rdma_dma_addr = addr; rdma_mapping = addr })
                        (λ c. record c { rdma_dma_addr = addr; rdma_mapping = addr }) (λ c. refl)
                        (λ c. (refl, refl, refl, inl refl)) au))
                    λ y v (lkey, av). inl (
                      refl,
                      (
                        put_wr lkey (mapped x addr),
                        (refl, refl, refl, refl),
                        record {
                          domain = domain;
                          memory = good;
                          regions = regions;
                          sink = e;
                          entry = refl;
                        },
                        av,
                      ),
                    ))
        ]

  module _ (r : IbContext) (rs : List Resource) (fresh : IsFresh r) where
    -- The two small buffers are mapped.
    abbrev mapped_small : ℕ → ℕ → IbContext
    mapped_small from to = record r {
      recv_dma_addr = from;
      recv_mapping = from;
      send_dma_addr = to;
      send_mapping = to;
    }

    register-Returns :
        {s : Sys} (from to : ℕ)
        → Live env G (mapped_small from to) rs s
        → Returns (BuffersReady env child G d r rs) (
            (do
              c ← context
              region ← ask_server env (ib_get_dma_mr c.pd)
              modify λ c. record c { dma_mr = region }
              if region == null
                  then bail env (minus 1)
                  else do c' ← context; setup_sink env c'.size)
              s)
    register-Returns {s} from to a =
        let Q = BuffersReady env child G d r rs in
        let x = (reply_at env (ib_get_dma_mr s.ctx.pd) s).answer in
        let good : IsGood x = d.good_mr _ s.ctx.pd in
        let there : (x == null) ≡ false = ground arith in
        let valid : is_err x ≡ false = ground arith in
        ask env (handler env) (d.follows) Q a (ib_get_dma_mr s.ctx.pd) _ _ tt refl λ t at.
          rw there (
            setup_sink-Returns (record (mapped_small from to) { dma_mr = x }) rs fresh.regions good
              fresh.domain t.ctx.size
              (Live-modify env child G d (λ c. record c { dma_mr = x })
                (λ c. record c { dma_mr = x }) (λ c. refl) (λ c. (refl, refl, refl, inl refl))
                (Live-if env child G d rs (mr x ∷ rs) (is_err x) false valid at)))

    pub setup_buffers-Returns :
        {s : Sys}
        → Live env G r rs s
        → Returns (BuffersReady env child G d r rs) (setup_buffers env s)
    unfolding setup_buffers
    setup_buffers-Returns {s} a =
        let Q = BuffersReady env child G d r rs in
        let q = d.follows in
        let h = handler env in
        map_region-Returns env h q Q a recv_region sizeof_rdma_info _ fresh.domain λ from t at.
          map_region-Returns env h q Q
            (Live-modify env child G d (λ c. record c { recv_dma_addr = from; recv_mapping = from })
              (λ c. record c { recv_dma_addr = from; recv_mapping = from }) (λ c. refl)
              (λ c. (refl, refl, refl, inl refl)) at)
            send_region sizeof_rdma_info _ fresh.domain
            λ to u au. register-Returns from to (
              Live-modify env child G d (λ c. record c { send_dma_addr = to; send_mapping = to })
                (λ c. record c { send_dma_addr = to; send_mapping = to }) (λ c. refl)
                (λ c. (refl, refl, refl, inl refl)) au)

module _ (env : Env) (d : IsAdapter env) where
  -- What holds after a run of `setup_buffers` with the given result, where `rs` was held before.
  abbrev pub Balanced : List Resource → ℕ → Sys → Type 0
  Balanced rs ret t =
      (((ret == 0) ≡ true)
        × (held env t.calls ≡ some (buffers_of t.ctx rs))
        × Returns (λ _ u. held env u.calls ≡ some rs) (free_buffers env t))
      ⊎ (((ret == 0) ≡ false) × (held env t.calls ≡ some rs))

  -- On an adapter where `ib_get_dma_mr` never fails, that reports no RDMA transfer and lets a signal end
  -- a wait, and from a context with a domain and no regions, `setup_buffers` returns, whatever
  -- else it is answered and whatever the handlers do meanwhile. Of the blocks, the regions of the memory
  -- and the other resources of Ib/Ledger, mappings for the device not counted: with 0 the server holds
  -- one block and one region more, those that the context names, and `megaVM_free_buffers`, run next,
  -- returns and leaves what was held before; with another result that is held already.
  pub setup_buffers-free_buffers :
      (s : Sys) (rs : List Resource)
      → IsFresh s.ctx
      → held env s.calls ≡ some rs
      → Returns (Balanced rs) (setup_buffers env s)
  setup_buffers-free_buffers s rs fresh before =
      Returns-mono (BuffersReady env 0 Anything (thread env d) (frozen s.ctx) rs) (Balanced rs) _
        (setup_buffers-Returns env 0 Anything (thread env d) (frozen s.ctx) rs
          (record { domain = fresh.domain; regions = fresh.regions })
          (record { at = record { context = refl; resources = before }; guard = tt }))
        λ ret t h. elim h [
          | inl (zero_ret, (r, u, b, a)) ↦ inl (
            zero_ret,
            subst (λ c. held env t.calls ≡ some (buffers_of c rs)) (sym a.at.context)
                a.at.resources,
            Returns-mono (λ _ v. Live env Anything r rs v) (λ _ u. held env u.calls ≡ some rs) _
                (free_buffers-Returns env 0 Anything (thread env d) r rs b a)
                (λ _ v a'. a'.at.resources),
          )
          | inr (fails, (r, u, a)) ↦ inr (fails, a.at.resources)
        ]
