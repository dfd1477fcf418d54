-- ===== src/Client/Buffers/Ready.antt =====
-- What `megaVM_setup_buffers` acquires.
use mathlib.Core.Path.{subst}
use infiniband.Common.{
  ℕ, ◌≡◌, refl, ap, ◌∙◌, sym, inl, inr, Bool, true, false, not, List, ◌∷◌, ◌==◌, arith, length,
  if◌then◌else◌, Bool-cases,
}
use infiniband.Ib.Types.{
  IsGood, MemType, Ptr, IbContext, dma, null, is_err, minus, sizeof_rdma_info,
}
use infiniband.Ib.Calls.{Env, recv_region, send_region, rdma_region, ib_get_dma_mr, kmalloc}
use infiniband.Ib.Machine.{pure, context, ◌>>=◌, Sys, reply_at}
use infiniband.Ib.Ledger.{Resource, mr, block}
use infiniband.Ib.Frame.{Returns, Returns-bind}
use infiniband.Ib.Rules.{At}
use infiniband.Client.Events.{handler}
use infiniband.Client.Setup.{bail, setup_sink, get_dma_mr, is_dma, register, setup_buffers}
use infiniband.Client.Ledger.{ask}
use infiniband.Ib.Follow.{At-modify, At-if, map_region-Returns}
use infiniband.Client.Quiet.{IsDriver, thread}
use infiniband.Client.Buffers.{IsFresh, NoRegions, BuffersReady, bail_no_sink}
use infiniband.Client.Buffers.Source.{setup_source-Returns}

module _ (env : Env) (d : IsDriver env) where
  module _ (r : IbContext) (rs : List Resource) (regions : NoRegions r) (good : IsGood r.dma_mr)
      (domain : IsGood r.pd) (no_source : (r.start_buf == null) ≡ true) (size : r.size ≡ 64) where
    bail-sink :
        {t : Sys} (x : Ptr)
        → (x == null) ≡ true
        → At env (record r { rdma_buf = x }) (mr r.dma_mr ∷ rs) t
        → Returns (BuffersReady env d r rs) (bail env (minus 1) t)
    bail-sink {t} x e at =
        subst
          (λ c.
            NoRegions c
            → IsGood c.dma_mr
            → (c.start_buf == null) ≡ true
            → (c.rdma_buf == null) ≡ true
            → At env c (mr c.dma_mr ∷ rs) t
            → Returns (BuffersReady env d c rs) (bail env (minus 1) t))
          at.context (λ h1 h2 h3 h4 a. bail_no_sink env d t rs h1 h2 h3 (minus 1) refl h4 a) regions
          good no_source e at

    with_sink :
        {t : Sys} (x : Ptr) (rs' : List Resource)
        → At env r rs' t
        → At env
            (record r { rdma_buf = x })
            rs'
            (record t { ctx = record (t.ctx) { rdma_buf = x; rdma_data = env.garbage x } })
    with_sink x rs' at =
        At-modify env (λ c. record c { rdma_buf = x; rdma_data = env.garbage x })
          (λ c. record c { rdma_buf = x }) (λ c. refl) at

    setup_sink-Returns :
        {s : Sys} (n : ℕ)
        → At env r (mr r.dma_mr ∷ rs) s
        → Returns (BuffersReady env d r rs) (setup_sink env n s)
    unfolding setup_sink
    setup_sink-Returns {s} n a =
        let Q = BuffersReady env d r rs in
        let held_before = mr r.dma_mr ∷ rs in
        let x = (reply_at env (kmalloc n) s).answer in
        ask env d Q a (kmalloc n) _ _ refl λ t at. elim (Bool-cases (x == null)) [
          | inl e ↦ rw e (
              bail-sink x e (
                with_sink x _
                  (At-if env held_before (block x ∷ held_before) (x == null) true e at)))
          | inr e ↦ rw e (
              map_region-Returns env (handler env) (thread env d) Q
                (with_sink x _
                  (At-if env held_before (block x ∷ held_before) (x == null) false e at))
                rdma_region n _ domain
                λ addr u au.
                  setup_source-Returns env d
                    (record r { rdma_buf = x; rdma_dma_addr = addr; rdma_mapping = addr }) rs
                    regions good domain e size n
                    (At-modify env (λ c. record c { rdma_dma_addr = addr; rdma_mapping = addr })
                      (λ c. record c { rdma_dma_addr = addr; rdma_mapping = addr }) (λ c. refl) au))
        ]

  -- The region of the memory is there.
  abbrev Registered : IbContext → List Resource → Bool → Sys → Type 0
  Registered r rs b t =
      (b ≡ true) × ((p : Ptr) × IsGood p × At env (record r { dma_mr = p }) (mr p ∷ rs) t)

  region_there :
      (r : IbContext) (rs : List Resource) (x : Ptr) (t : Sys)
      → IsGood x
      → At env r (if is_err x then rs else (mr x ∷ rs)) t
      → Registered r rs (not (x == null)) (record t { ctx = record (t.ctx) { dma_mr = x } })
  region_there r rs x t good at =
      let there : (x == null) ≡ false = ground arith in
      let valid : is_err x ≡ false = ground arith in
      (
        rw (there, not) refl,
        (
          x,
          good,
          At-modify env (λ c. record c { dma_mr = x }) (λ c. record c { dma_mr = x }) (λ c. refl)
              (At-if env rs (mr x ∷ rs) (is_err x) false valid at),
        ),
      )

  get_dma_mr-Returns :
      (r : IbContext) (rs : List Resource) {s : Sys}
      → r.mem ≡ dma
      → At env r rs s
      → Returns (Registered r rs) (get_dma_mr env s)
  get_dma_mr-Returns r rs {s} m_dma a =
      let mem : s.ctx.mem ≡ dma = ap (λ c. c.mem) a.context ∙ m_dma in
      subst {A = MemType}
        (λ m. Returns (Registered r rs) ((if is_dma m then register env s.ctx.pd else pure true) s))
        (sym mem)
        (ask env d (Registered r rs) a (ib_get_dma_mr s.ctx.pd) _ _ refl
          λ t at. region_there r rs _ t (d.good_mr (length s.calls) s.ctx.pd) at)

  module _ (r : IbContext) (rs : List Resource) (fresh : IsFresh r) where
    -- The two small buffers are mapped.
    abbrev mapped_small : ℕ → ℕ → IbContext
    mapped_small from to = record r {
      recv_dma_addr = from;
      recv_mapping = from;
      send_dma_addr = to;
      send_mapping = to;
    }

    after_region :
        (from to : ℕ) (b : Bool) (t : Sys)
        → Registered (mapped_small from to) rs b t
        → Returns
            (BuffersReady env d r rs)
            ((if not b then bail env (minus 1) else (do c ← context; setup_sink env c.size)) t)
    after_region from to b t (e, (p, good, at)) =
        rw (e, not)
          (setup_sink-Returns (record (mapped_small from to) { dma_mr = p }) rs fresh.regions good
            fresh.domain fresh.source fresh.size t.ctx.size at)

    pub setup_buffers-Returns :
        {s : Sys} → At env r rs s → Returns (BuffersReady env d r rs) (setup_buffers env s)
    unfolding setup_buffers
    setup_buffers-Returns {s} a =
        let Q = BuffersReady env d r rs in
        map_region-Returns env (handler env) (thread env d) Q a recv_region sizeof_rdma_info _
          fresh.domain
          λ from t at.
            map_region-Returns env (handler env) (thread env d) Q
              (At-modify env (λ c. record c { recv_dma_addr = from; recv_mapping = from })
                (λ c. record c { recv_dma_addr = from; recv_mapping = from }) (λ c. refl) at)
              send_region sizeof_rdma_info _ fresh.domain
              λ to u au.
                Returns-bind (Registered (mapped_small from to) rs) Q (get_dma_mr env _) _
                  (get_dma_mr-Returns (mapped_small from to) rs fresh.mem (
                    At-modify env (λ c. record c { send_dma_addr = to; send_mapping = to })
                      (λ c. record c { send_dma_addr = to; send_mapping = to }) (λ c. refl) au))
                  (after_region from to)
