-- ===== src/Client/Life.antt =====
-- The life of a client, from `megaVM_doit` down: that it ends, and what it holds then.
use mathlib.Core.Path.{subst}
use infiniband.Common.{
  ℕ, ◌≡◌, refl, ap, ◌∙◌, sym, inl, inr, true, false, not, ◌||◌, some, List, ◌∷◌, ◌==◌, arith,
  length, if◌then◌else◌, Bool-cases,
}
use infiniband.Ib.Types.{IsGood, Ptr, IbContext, dma, null, is_err, minus}
use infiniband.Ib.Calls.{Env, rdma_create_id, rdma_destroy_id, kzalloc, kfree}
use infiniband.Ib.Machine.{pure, ◌>>=◌, ◌>>◌, Sys, reply_at, skip}
use infiniband.Ib.Ledger.{Resource, held, block, id}
use infiniband.Ib.Frame.{Returns, Returns-bind, frozen}
use infiniband.Ib.Rules.{At}
use infiniband.Client.Setup.{run, free_qp, setup_qp, setup_buffers}
use infiniband.Client.Session.{bind_client, converse, run_client, initial, with_id, doit}
use infiniband.Client.Ledger.{ask, do_call}
use infiniband.Ib.Follow.{At-modify, At-if}
use infiniband.Client.Queues.{QueuesReady, setup_qp-Returns}
use infiniband.Client.Buffers.{NoRegions, Untouched, buffers_of, BuffersReady}
use infiniband.Client.Quiet.{IsDriver}
use infiniband.Client.Buffers.Ready.{setup_buffers-Returns}
use infiniband.Client.Connect.{bind_client-Returns}
use infiniband.Client.Converse.{queues_of, Home, free_qp-Home, converse-Home}

module _ (env : Env) (d : IsDriver env) where
  -- The context of a client that has an identifier and nothing else.
  pub record IsOpen (r : IbContext) : Type 0 where
    pub identifier : IsGood r.cm_id
    pub mem : r.mem ≡ dma
    pub regions : NoRegions r
    pub sink : (r.rdma_buf == null) ≡ true
    pub source : (r.start_buf == null) ≡ true
    pub size : r.size ≡ 64

  same_queues :
      (r r' : IbContext) (rs : List Resource) → Untouched r r' → queues_of r rs ≡ queues_of r' rs
  same_queues r r' rs (ei, ep, ec, eq) = rw (ep, ec, eq) refl

  module _ (r : IbContext) (rs : List Resource) (o : IsOpen r) where
    after_buffers :
        (r1 : IbContext) (ret : ℕ) (t : Sys)
        → r1.cm_id ≡ r.cm_id
        → BuffersReady env d r1 (queues_of r1 rs) ret t
        → Returns (Home env d r.cm_id rs) ((if not (ret == 0) then free_qp env else converse env) t)
    after_buffers r1 ret t same_id (inl (e, (r2, u, b, len, at))) =
        rw (e, not)
          (converse-Home env d r.cm_id rs r2 (u.0 ∙ same_id) b len
            (subst (λ qs. At env r2 (buffers_of r2 qs) t) (same_queues r1 r2 rs u) at))
    after_buffers r1 ret t same_id (inr (e, (r2, u, at))) =
        rw (e, not)
          (free_qp-Home env d r.cm_id rs r2 (u.0 ∙ same_id)
            (subst (λ qs. At env r2 qs t) (same_queues r1 r2 rs u) at))

    after_queues :
        (made : ℕ) (t : Sys)
        → QueuesReady env d r rs made t
        → Returns (Home env d r.cm_id rs) (
            (if not (made == 0) then skip else do
              ready ← setup_buffers env
              if not (ready == 0) then free_qp env else converse env)
              t)
    after_queues made t (inl (e, (p, c, q, there, ok, at))) =
        let r1 : IbContext = record r { pd = p; cq = c; qp = q } in
        let good : IsGood p = rw (there, ok) refl in
        rw (e, not)
          (Returns-bind (BuffersReady env d r1 (queues_of r1 rs)) (Home env d r.cm_id rs)
            (setup_buffers env t) _
            (setup_buffers-Returns env d r1 (queues_of r1 rs)
              (record {
                mem = o.mem;
                domain = good;
                regions = o.regions;
                sink = o.sink;
                source = o.source;
                size = o.size;
              })
              at)
            (λ ret u. after_buffers r1 ret u refl))
    after_queues made t (inr (e, (r', same_id, at))) = rw (e, not) (r', same_id, at)

    run_client-Home : {s : Sys} → At env r rs s → Returns (Home env d r.cm_id rs) (run_client env s)
    unfolding run_client
    run_client-Home {s} a =
        let Q = Home env d r.cm_id rs in
        Returns-bind (λ _ t. At env r rs t) Q (bind_client env s) _ (bind_client-Returns env d a)
          λ ret t at. elim (Bool-cases (ret == 0)) [
            | inl e ↦
                rw (e, not)
                  (Returns-bind (QueuesReady env d r rs) Q (setup_qp env t.ctx.cm_id t) _
                    (subst (λ i. Returns (QueuesReady env d r rs) (setup_qp env i t))
                      (sym (ap (λ c. c.cm_id) at.context))
                      (setup_qp-Returns env d r rs o.identifier at))
                    after_queues)
            | inr e ↦ rw (e, not) (r, refl, at)
          ]

  -- What is held is `rs`.
  abbrev pub Holds : List Resource → ℕ → Sys → Type 0
  Holds rs ret t = held env t.calls ≡ some rs

  with_id-Returns :
      (b : Ptr) (r : IbContext) (rs : List Resource) {s : Sys}
      → (b == null) ≡ false
      → IsOpen r
      → At env r (id r.cm_id ∷ block b ∷ rs) s
      → Returns (Holds rs) (with_id env b s)
  unfolding with_id
  with_id-Returns b r rs {s} there o a =
      Returns-bind (Home env d r.cm_id (id r.cm_id ∷ block b ∷ rs)) (Holds rs) (run_client env s) _
        (run_client-Home r (id r.cm_id ∷ block b ∷ rs) o a)
        λ u t (r1, e, at).
          do_call env d (Holds rs) at (rdma_destroy_id t.ctx.cm_id) (block b ∷ rs) _
            (ground (arith, ap (λ c. c.cm_id) at.context, e))
            λ t1 a1.
              do_call env d (Holds rs) a1 (kfree b) rs _ (rw there (ground arith))
                λ t2 a2. a2.resources

  module _ (b : Ptr) (rs : List Resource) (there : (b == null) ≡ false) where
    with_block :
        (x : Ptr) (t : Sys)
        → IsGood x
        → At env
            (initial env)
            (if (x == 0) || is_err x then (block b ∷ rs) else (id x ∷ block b ∷ rs))
            t
        → Returns (Holds rs) (
            (if x == null then (do run env (kfree b); pure (minus 1)) else with_id env b)
              (record t { ctx = record (t.ctx) { cm_id = x } }))
    with_block x t good at =
        let some_id : (x == null) ≡ false = ground arith in
        rw some_id (
          with_id-Returns b (record (initial env) { cm_id = x }) rs there
            (record {
              identifier = good;
              mem = refl;
              regions = record { recv = refl; send = refl; rdma = refl; start = refl };
              sink = refl;
              source = refl;
              size = refl;
            })
            (At-modify env (λ c. record c { cm_id = x }) (λ c. record c { cm_id = x }) (λ c. refl)
              (At-if env (block b ∷ rs) (id x ∷ block b ∷ rs) ((x == 0) || is_err x) false good
                at)))

  -- Under a driver that reports no RDMA transfer, lets a signal end a wait, whose blocks have the size
  -- asked for and where `rdma_create_id` and `ib_get_dma_mr` never fail and `ib_alloc_pd` gives no null
  -- pointer: `megaVM_doit` returns, whatever else the driver answers and whatever the handlers do
  -- meanwhile. Started with the identifiers, regions of the memory, protection domains, completion
  -- queues, queue pairs and blocks `rs` held, it holds just them in the end; mappings for the device are
  -- not counted.
  pub doit-Returns :
      (rs : List Resource) (s : Sys) → held env s.calls ≡ some rs → Returns (Holds rs) (doit env s)
  unfolding doit
  doit-Returns rs s h =
      let x = (reply_at env kzalloc s).answer in
      let a : At env (frozen s.ctx) rs s = record { context = refl; resources = h } in
      ask env d (Holds rs) a kzalloc _ _ refl λ t at. elim (Bool-cases (x == null)) [
        | inl e ↦ rw e (At-if env rs (block x ∷ rs) (x == null) true e at).resources
        | inr e ↦ rw e (
            ask env d (Holds rs)
              (At-modify env (λ c. initial env) (λ c. initial env) (λ c. refl)
                (At-if env rs (block x ∷ rs) (x == null) false e at))
              rdma_create_id _ _ refl λ u au. with_block x rs e _ u (d.good_id (length t.calls)) au)
      ]
