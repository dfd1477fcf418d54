-- ===== src/Server/Mappings.antt =====
-- The mappings for the device that a run of the server's main thread makes and undoes, where no handler
-- runs meanwhile.
pub mod Buffers
use mathlib.Core.Path.{subst}
use infiniband.Common.{
  ℕ, ◌≡◌, refl, ap, ◌∙◌, sym, true, false, not, ◌||◌, List, [], ◌∷◌, ◌==◌, arith, length,
  if◌then◌else◌,
}
use infiniband.Ib.Types.{IsGood, Ptr, IbContext, null, minus, is_err, sizeof_rdma_info}
use infiniband.Ib.Calls.{
  Call, Env, Region, dma_map_single, dma_unmap_single, ib_get_dma_mr, ib_dereg_mr, kmalloc, kfree,
  recv_region, send_region, rdma_region,
}
use infiniband.Ib.Machine.{Sys, Cmd, and_then, call, deliver, deref, logged, reply_at, skip, when}
use infiniband.Ib.Frame.{Returns}
use infiniband.Ib.Steps
use infiniband.Server.Events.{handler}
use infiniband.Server.Setup.{bail, setup_wr, setup_sink, setup_buffers, free_buffers}
use infiniband.Server.Buffers.{NoRegions}

-- What a call adds to the addresses that were mapped, and to those that were unmapped.
abbrev map_one : Call → ℕ → List ℕ → List ℕ
map_one (dma_map_single region n) a l = a ∷ l
map_one c a l = l

abbrev unmap_one : Call → List ℕ → List ℕ
unmap_one (dma_unmap_single addr n) l = addr ∷ l
unmap_one c l = l

-- Newest first.
abbrev pub mapped : List (Call × ℕ) → List ℕ
mapped [] = []
mapped ((c, a) ∷ l) = map_one c a (mapped l)

abbrev pub unmapped : List (Call × ℕ) → List ℕ
unmapped [] = []
unmapped ((c, a) ∷ l) = unmap_one c (unmapped l)

-- No handler runs, and the region of the memory is given.
pub record IsIdle (env : Env) : Type 0 where
  pub idle : (n : ℕ) (c : Call) → (env.reply n c).callbacks ≡ []
  pub good_mr : (n : ℕ) (p : Ptr) → IsGood (env.reply n (ib_get_dma_mr p)).answer

-- The context, and what was mapped and unmapped.
pub record Stands (c : IbContext) (m u : List ℕ) (s : Sys) : Type 0 where
  pub context : s.ctx ≡ c
  pub maps : mapped s.calls ≡ m
  pub unmaps : unmapped s.calls ≡ u

pub Stands-modify :
    (f : IbContext → IbContext) {c : IbContext} {m u : List ℕ} {s : Sys}
    → Stands c m u s
    → Stands (f c) m u (record s { ctx = f s.ctx })
Stands-modify f a = record { context = ap f a.context; maps = a.maps; unmaps = a.unmaps }

module _ (env : Env) (d : IsIdle env) {A : Type 0} (Q : A → Sys → Type 0) {c : IbContext}
    {m u : List ℕ} {s : Sys} (a : Stands c m u s) where
  Stands-logged :
      (k : Call) → Stands c (map_one k (reply_at env k s).answer m) (unmap_one k u) (logged env k s)
  Stands-logged k = record {
    context = a.context;
    maps = ap (map_one k (reply_at env k s).answer) a.maps;
    unmaps = ap (unmap_one k) a.unmaps;
  }

  pub alone :
      (q : Call) (k : ℕ → Cmd A)
      → ((t : Sys)
          → Stands c (map_one q (reply_at env q s).answer m) (unmap_one q u) t
          → Returns Q (k (reply_at env q s).answer t))
      → Returns Q (and_then (call env (handler env) q s) k)
  unfolding call deliver
  alone q k next = rw (d.idle (length s.calls) q, deliver) (next (logged env q s) (Stands-logged q))

  pub run_alone :
      (q : Call) (k : Unit {0} → Cmd A)
      → ((t : Sys)
          → Stands c (map_one q (reply_at env q s).answer m) (unmap_one q u) t
          → Returns Q (k tt t))
      → Returns Q (and_then (and_then (call env (handler env) q s) (λ _. skip)) k)
  unfolding call deliver
  run_alone q k next =
      rw (d.idle (length s.calls) q, deliver) (next (logged env q s) (Stands-logged q))

  pub map_alone :
      (region : Region) (n : ℕ) (k : ℕ → Cmd A)
      → IsGood c.pd
      → ((x : ℕ) (t : Sys) → Stands c (x ∷ m) u t → Returns Q (k x t))
      → Returns Q (and_then (Steps.map_region env (handler env) region n s) k)
  map_alone region n k good next =
      let here : IsGood s.ctx.pd = subst (λ c. IsGood c.pd) (sym a.context) good in
      rw (here, deref) (alone (dma_map_single region n) k (λ t at. next _ t at))

  pub unmap_alone :
      (addr n : ℕ) (k : Unit {0} → Cmd A)
      → IsGood c.pd
      → ((t : Sys) → Stands c m (addr ∷ u) t → Returns Q (k tt t))
      → Returns Q (and_then (Steps.unmap env (handler env) addr n s) k)
  unmap_alone addr n k good next =
      let here : IsGood s.ctx.pd = subst (λ c. IsGood c.pd) (sym a.context) good in
      rw (here, deref) (run_alone (dma_unmap_single addr n) k next)

  pub dereg_valid_alone :
      (p : Ptr) (k : Unit {0} → Cmd A)
      → IsGood p
      → ((t : Sys) → Stands c m u t → Returns Q (k tt t))
      → Returns Q (and_then (Steps.dereg_valid env (handler env) p s) k)
  dereg_valid_alone p k good next =
      let there : (p == null) ≡ false = ground arith in
      let valid : is_err p ≡ false = ground arith in
      rw (there, valid, when, not) (run_alone (ib_dereg_mr p) k next)

  pub dereg_alone :
      (p : Ptr) (k : Unit {0} → Cmd A)
      → (p == null) ≡ false
      → ((t : Sys) → Stands c m u t → Returns Q (k tt t))
      → Returns Q (and_then (Steps.dereg env (handler env) p s) k)
  dereg_alone p k there next = rw (there, when, not) (run_alone (ib_dereg_mr p) k next)

  pub no_dereg :
      (p : Ptr) (k : Unit {0} → Cmd A)
      → (p == null) ≡ true
      → Returns Q (k tt s)
      → Returns Q (and_then (Steps.dereg env (handler env) p s) k)
  no_dereg p k e next = rw (e, when, not) next

  pub skip_null :
      (p : Ptr) (k : Unit {0} → Cmd A)
      → (p == null) ≡ true
      → Returns Q (k tt s)
      → Returns Q (and_then (Steps.dereg_valid env (handler env) p s) k)
  skip_null p k e next = rw (e, when, not) next
