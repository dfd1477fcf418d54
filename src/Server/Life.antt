-- ===== src/Server/Life.antt =====
-- The life of a server, from `initialisation` down: that it ends, and what it holds then.
use infiniband.Common.{
  ℕ, ◌≡◌, refl, ap, ◌⊎◌, inl, inr, true, false, not, ◌||◌, some, List, ◌∷◌, ◌==◌, arith, length,
  Bool-cases, ==_iff,
}
use infiniband.Ib.Types.{IsGood, Ptr, IbContext, null, is_err}
use infiniband.Ib.Calls.{Env, rdma_create_id, rdma_destroy_id, kzalloc, kfree}
use infiniband.Ib.Machine.{pure, ◌>>=◌, ◌>>◌, Sys, reply_at, context, when}
use infiniband.Ib.Ledger.{Resource, held, give_back, block, id}
use infiniband.Ib.Frame.{Returns, Returns-bind, frozen}
use infiniband.Ib.Rules.{Returns-mono}
use infiniband.Ib.Follow.{ask, do_call, At-modify, At-if}
use infiniband.Ib.Guard.{IsStable}
use infiniband.Ib.Steps.{blank}
use infiniband.Server.Events.{handler}
use infiniband.Server.Setup.{run}
use infiniband.Server.Session.{run_server, initialisation}
use infiniband.Server.Live.{Live, IsFollowed, Live-modify, Live-if}
use infiniband.Server.Quiet.{Anything}
use infiniband.Server.Guards.{Awaited}
use infiniband.Server.Served.{IsServed, served}
use infiniband.Server.Buffers.{NoRegions}
use infiniband.Server.Start.{Waiting, waits, Ended, run_server-Ended}

module _ (env : Env) (child : Ptr) (w : IsServed env child) where
  Anything-IsStable : IsStable env child Anything
  Anything-IsStable = record {
    quietly = λ c c' q g. tt;
    request = λ c g. tt;
    landed_lem = λ c bs block e h g. tt;
    sink = λ c p g. tt;
  }

  free : IsFollowed env child Anything
  free = served env child Anything w Anything-IsStable

  -- The block is there: its context, and the identifier in it.
  abbrev initial : IbContext
  initial = record blank { server = 1; port = env.htons 9999; addr = env.in4_pton "12.12.12.1" }

  -- What is held in the end: what was held before, with the child's identifier or without it.
  abbrev pub Left : List Resource → ℕ → Sys → Type 0
  Left rs ret t = (held env t.calls ≡ some (id child ∷ rs)) ⊎ (held env t.calls ≡ some rs)

  module _ (b : Ptr) (there : (b == null) ≡ false) where
    -- The block is given back, and the run ends.
    release :
        (rs : List Resource) (r : IbContext) {s : Sys} (Q : ℕ → Sys → Type 0)
        → ((t : Sys) → held env t.calls ≡ some rs → Q 0 t)
        → Live env Anything r (block b ∷ rs) s
        → Returns Q ((do run env (kfree b); pure 0) s)
    release rs r Q next a =
        do_call env (handler env) free.follows Q a (kfree b) rs _ tt (rw there (ground arith))
          λ t at. next t at.at.resources

    destroy :
        (i : Ptr) (r : IbContext) (rs : List Resource) {s : Sys}
        → r.cm_id ≡ i
        → Live env Anything r (id i ∷ block b ∷ rs) s
        → Returns
            (λ _ t. (r' : IbContext) × Live env Anything r' (block b ∷ rs) t)
            (run env (rdma_destroy_id s.ctx.cm_id) s)
    destroy i r rs {s} e a =
        ask env (handler env) free.follows
          (λ _ t. (r' : IbContext) × Live env Anything r' (block b ∷ rs) t) a
          (rdma_destroy_id s.ctx.cm_id) (block b ∷ rs) _ tt
          (ground (arith, ap (λ c. c.cm_id) a.at.context, e)) λ t at. (r, at)

    abbrev Closed : List Resource → Unit {0} → Sys → Type 0
    Closed rs u t =
        (r : IbContext) × (Live env Anything r (block b ∷ id child ∷ rs) t
          ⊎ Live env Anything r (block b ∷ rs) t)

    run_and_destroy :
        (i : Ptr) (rs : List Resource) {s : Sys}
        → (child == i) ≡ false
        → Waiting env child w (record initial { cm_id = i }) (id i ∷ block b ∷ id child ∷ rs) s
        → Returns
            (Closed rs)
            ((do run_server env; c ← context; run env (rdma_destroy_id c.cm_id)) s)
    run_and_destroy i rs {s} other a =
        let same : (child == child) ≡ true = (==_iff child child).1 refl in
        let r = record initial { cm_id = i } in
        let before = id i ∷ block b ∷ id child ∷ rs in
        let after = id i ∷ block b ∷ rs in
        let gone : give_back (id child) before ≡ some after = rw (other, same) refl in
        Returns-bind (Ended env child w r before after gone none_registered) (Closed rs)
          (run_server env s) _ (run_server-Ended env child w r before after gone none_registered a)
          λ u t (r', (e, h)). elim h [
            | inl kept ↦
                Returns-mono _ (Closed rs) (run env (rdma_destroy_id t.ctx.cm_id) t)
                  (destroy i r' (id child ∷ rs) e kept) λ x v (r'', l). (r'', inl l)
            | inr freed ↦
                Returns-mono _ (Closed rs) (run env (rdma_destroy_id t.ctx.cm_id) t)
                  (destroy i r' rs e freed) λ x v (r'', l). (r'', inr l)
          ]
      where
        none_registered : NoRegions (record initial { cm_id = i })
        none_registered = record { recv = refl; send = refl; rdma = refl }

    with_id :
        (i : Ptr) (rs : List Resource) {s : Sys}
        → IsGood i
        → (child == i) ≡ false
        → Waiting env child w (record initial { cm_id = i }) (id i ∷ block b ∷ id child ∷ rs) s
        → Returns (Left rs) (
            (do
              when
                  (not (i == null))
                  (do run_server env; c ← context; run env (rdma_destroy_id c.cm_id))
              run env (kfree b)
              pure 0)
              s)
    with_id i rs {s} good other a =
        let some_id : (i == null) ≡ false = ground arith in
        rw (some_id, when, not)
          (Returns-bind (Closed rs) (Left rs)
            ((do run_server env; c ← context; run env (rdma_destroy_id c.cm_id)) s) _
            (run_and_destroy i rs other a)
            λ u t (r, h). elim h [
              | inl kept ↦ release (id child ∷ rs) r (Left rs) (λ v e. inl e) kept
              | inr freed ↦ release rs r (Left rs) (λ v e. inr e) freed
            ])

  -- On a server whose one client connects as `child`, whose devices report transfers only while it
  -- serves, whose reads bring at most 64 bytes with a NUL among them, whose fresh blocks have 64 bytes
  -- with a NUL among them, and where a signal ends a wait and `ib_alloc_pd`, `ib_create_cq`,
  -- `ib_get_dma_mr` and `rdma_create_id` never fail: `initialisation` returns, whatever else it is
  -- answered and whatever the handlers do meanwhile, and gives back every identifier, region of the
  -- memory, protection domain, completion queue, queue pair and block just as often as it has acquired
  -- it; mappings for the device are not counted. The child's identifier, held from the start, is given
  -- back too, or stays held.
  pub initialisation-Returns :
      (rs : List Resource) (s : Sys)
      → held env s.calls ≡ some (id child ∷ rs)
      → Returns (Left rs) (initialisation env s)
  unfolding initialisation
  initialisation-Returns rs s h =
      let x = (reply_at env kzalloc s).answer in
      let Q = Left rs in
      let a : Live env Anything (frozen s.ctx) (id child ∷ rs) s = record {
        at = record { context = refl; resources = h };
        guard = tt;
      } in
      ask env (handler env) free.follows Q a kzalloc _ _ tt refl λ t at.
        elim (Bool-cases (x == null)) [
          | inl e ↦ rw e (
              inl
                (At-if env (id child ∷ rs) (block x ∷ id child ∷ rs) (x == null) true e
                  at.at).resources)
          | inr e ↦ rw e (
              ask env (handler env) (waits env child w).follows Q
                (record {
                  at =
                      At-modify env (λ c. initial) (λ c. initial) (λ c. refl)
                        (At-if env (id child ∷ rs) (block x ∷ id child ∷ rs) (x == null) false e
                          at.at);
                  guard = (inl refl, inl refl);
                })
                rdma_create_id _ _ tt refl
                λ u au.
                  let i = (env.reply (length t.calls) rdma_create_id).answer in
                  with_id x e i rs (w.good_id (length t.calls)) (w.other_id (length t.calls)) (
                    Live-modify env child (Awaited child) (waits env child w)
                      (λ c. record c { cm_id = i }) (λ c. record c { cm_id = i }) (λ c. refl)
                      (λ c. (refl, refl, refl, inl refl))
                      (Live-if env child (Awaited child) (waits env child w)
                        (block x ∷ id child ∷ rs) (id i ∷ block x ∷ id child ∷ rs)
                        ((i == 0) || is_err i) false (w.good_id (length t.calls)) au)))
        ]
