-- ===== src/Client/Buffers/Source.antt =====
-- The second half of `megaVM_setup_buffers`: the buffer of the text and the work requests.
use mathlib.Core.Path.{subst}
use infiniband.Common.{
  ℕ, ◌≡◌, refl, ap, sym, inl, inr, true, false, some, List, ◌∷◌, ◌==◌, Bool-cases,
}
use infiniband.Ib.Types.{
  IsGood, recv_sgl, send_sgl, wr_send, Ptr, IbContext, null, minus, sizeof_rdma_info,
}
use infiniband.Ib.Calls.{Env, start_region, kmalloc}
use infiniband.Ib.Machine.{Sys, reply_at, deref}
use infiniband.Ib.Ledger.{Resource, mr, block}
use infiniband.Ib.Frame.{Returns, Returns-bind}
use infiniband.Ib.Rules.{At}
use infiniband.Client.Events.{handler}
use infiniband.Client.Setup.{setup_wr, bail, setup_source}
use infiniband.Client.Ledger.{ask}
use infiniband.Ib.Follow.{At-modify, At-if, map_region-Returns}
use infiniband.Client.Quiet.{IsDriver, thread}
use infiniband.Client.Buffers.{NoRegions, BuffersReady, bail_sink}

module _ (env : Env) (d : IsDriver env) where
  -- What `setup_wr` does to the context.
  abbrev put_wr : ℕ → IbContext → IbContext
  put_wr lkey c = record c {
    recv_sge = record { addr = c.recv_dma_addr; length = sizeof_rdma_info; lkey = lkey };
    rq_wr = record { sg_list = some recv_sgl; num_sge = 1 };
    send_sge = record { addr = c.send_dma_addr; length = sizeof_rdma_info; lkey = lkey };
    sq_wr = record (c.sq_wr) {
      opcode = wr_send;
      signaled = true;
      sg_list = some send_sgl;
      num_sge = 1;
    };
  }

  setup_wr-Returns :
      {r : IbContext} {rs : List Resource} {s : Sys}
      → IsGood r.dma_mr
      → At env r rs s
      → Returns (λ _ t. (lkey : ℕ) × At env (put_wr lkey r) rs t) (setup_wr env s)
  unfolding setup_wr
  setup_wr-Returns {r} {rs} {s} good a =
      let good' : IsGood s.ctx.dma_mr = subst IsGood (sym (ap (λ c. c.dma_mr) a.context)) good in
      let lkey = env.lkey_of s.ctx.dma_mr in
      rw (good', deref) (lkey, At-modify env (put_wr lkey) (put_wr lkey) (λ c. refl) a)

  module _ (r : IbContext) (rs : List Resource) (regions : NoRegions r) (good : IsGood r.dma_mr)
      (domain : IsGood r.pd) (sink : (r.rdma_buf == null) ≡ false) (size : r.size ≡ 64) where
    bail-source :
        {t : Sys} (x : Ptr)
        → (x == null) ≡ true
        → At env
            (record r { start_buf = x; start_data = env.garbage x })
            (block r.rdma_buf ∷ mr r.dma_mr ∷ rs)
            t
        → Returns (BuffersReady env d r rs) (bail env (minus 12) t)
    bail-source {t} x e at =
        subst
          (λ c.
            NoRegions c
            → IsGood c.dma_mr
            → (c.start_buf == null) ≡ true
            → (c.rdma_buf == null) ≡ false
            → At env c (block c.rdma_buf ∷ mr c.dma_mr ∷ rs) t
            → Returns (BuffersReady env d c rs) (bail env (minus 12) t))
          at.context (λ h1 h2 h3 h4 a. bail_sink env d t rs h1 h2 h3 (minus 12) refl h4 a) regions
          good e sink at

    with_source :
        {t : Sys} (x : Ptr) (rs' : List Resource)
        → At env r rs' t
        → At env
            (record r { start_buf = x; start_data = env.garbage x })
            rs'
            (record t { ctx = record (t.ctx) { start_buf = x; start_data = env.garbage x } })
    with_source x rs' at =
        At-modify env (λ c. record c { start_buf = x; start_data = env.garbage x })
          (λ c. record c { start_buf = x; start_data = env.garbage x }) (λ c. refl) at

    abbrev mapped : Ptr → ℕ → IbContext
    mapped x addr = record r {
      start_buf = x;
      start_data = env.garbage x;
      start_dma_addr = addr;
      start_mapping = addr;
    }

    pub setup_source-Returns :
        {s : Sys} (n : ℕ)
        → At env r (block r.rdma_buf ∷ mr r.dma_mr ∷ rs) s
        → Returns (BuffersReady env d r rs) (setup_source env n s)
    unfolding setup_source
    setup_source-Returns {s} n a =
        let Q = BuffersReady env d r rs in
        let held_before = block r.rdma_buf ∷ mr r.dma_mr ∷ rs in
        let x = (reply_at env (kmalloc n) s).answer in
        ask env d Q a (kmalloc n) _ _ refl λ t at. elim (Bool-cases (x == null)) [
          | inl e ↦ rw e (
              bail-source x e (
                with_source x _
                  (At-if env held_before (block x ∷ held_before) (x == null) true e at)))
          | inr e ↦ rw e (
              map_region-Returns env (handler env) (thread env d) Q
                (with_source x _
                  (At-if env held_before (block x ∷ held_before) (x == null) false e at))
                start_region n _ domain
                λ addr u au.
                  Returns-bind
                    (λ _ v.
                      (lkey : ℕ) × At env (put_wr lkey (mapped x addr)) (block x ∷ held_before) v)
                    Q
                    (setup_wr env (record u {
                      ctx = record (u.ctx) { start_dma_addr = addr; start_mapping = addr };
                    }))
                    _
                    (setup_wr-Returns good (
                      At-modify env (λ c. record c { start_dma_addr = addr; start_mapping = addr })
                        (λ c. record c { start_dma_addr = addr; start_mapping = addr }) (λ c. refl)
                        au))
                    λ y v (lkey, av). inl (
                      refl,
                      (
                        put_wr lkey (mapped x addr),
                        (refl, refl, refl, refl),
                        record {
                          domain = domain;
                          memory = good;
                          regions = regions;
                          sink = sink;
                          source = e;
                          size = size;
                        },
                        d.memory x,
                        av,
                      ),
                    ))
        ]
