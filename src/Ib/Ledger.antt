-- ===== src/Ib/Ledger.antt =====
-- What a sequence of calls holds: the resources that it has acquired and not given back.
use infiniband.Common.{
  ℕ, ◌≡◌, refl, Bool, false, ◌||◌, Option, none, some, List, [], ◌∷◌, ◌==◌, if◌then◌else◌,
}
use infiniband.Ib.Types.{Ptr, is_err}
use infiniband.Ib.Calls.{
  Call, Env, rdma_create_id, rdma_destroy_id, ib_alloc_pd, ib_dealloc_pd, ib_create_cq,
  ib_destroy_cq, rdma_create_qp, ib_destroy_qp, ib_get_dma_mr, ib_dereg_mr, kmalloc, kzalloc, kfree,
}

-- Protection domains, completion queues, queue pairs, memory regions, blocks of memory and identifiers
-- of the connection manager.
pub data Resource : Type 0 where
  pd cq qp mr block id : Ptr → Resource

abbrev pub same : Resource → Resource → Bool
same (pd p) (pd q) = p == q
same (cq p) (cq q) = p == q
same (qp p) (qp q) = p == q
same (mr p) (mr q) = p == q
same (block p) (block q) = p == q
same (id p) (id q) = p == q
same _ _ = false

-- `none` if the resource is not there: given back twice, or never acquired.
abbrev pub give_back : Resource → List Resource → Option (List Resource)
give_back r [] = none
give_back r (x ∷ xs) =
    if same r x then some xs else elim (give_back r xs) [ none ↦ none | some ys ↦ some (x ∷ ys) ]

abbrev pub ids : List Ptr → List Resource
ids [] = []
ids (p ∷ ps) = id p ∷ ids ps

module _ (env : Env) where
  -- What a call does to the resources held, by its answer.
  abbrev pub settle : Call → ℕ → List Resource → Option (List Resource)
  settle (ib_alloc_pd d) a rs = some (if is_err a then rs else (pd a ∷ rs))
  settle (ib_create_cq d n) a rs = some (if is_err a then rs else (cq a ∷ rs))
  settle (rdma_create_qp cm_id p attr) a rs =
      some (if a == 0 then qp (env.qp_of cm_id) ∷ rs else rs)
  settle (ib_get_dma_mr p) a rs = some (if is_err a then rs else (mr a ∷ rs))
  settle (kmalloc n) a rs = some (if a == 0 then rs else (block a ∷ rs))
  settle (ib_dealloc_pd p) a rs = give_back (pd p) rs
  settle (ib_destroy_cq p) a rs = give_back (cq p) rs
  settle (ib_destroy_qp p) a rs = give_back (qp p) rs
  settle (ib_dereg_mr p) a rs = give_back (mr p) rs
  settle rdma_create_id a rs = some (if (a == 0) || is_err a then rs else (id a ∷ rs))
  settle (rdma_destroy_id p) a rs = give_back (id p) rs
  settle (kfree p) a rs = if p == 0 then some rs else give_back (block p) rs
  settle kzalloc a rs = some (if a == 0 then rs else (block a ∷ rs))
  settle _ a rs = some rs

  -- The resources held after the calls `l`, newest first; `none` after a wrong release. The
  -- identifiers made for requests are held from the start.
  pub held : List (Call × ℕ) → Option (List Resource)
  held [] = some (ids env.requests)
  held ((c, a) ∷ l) = elim (held l) [ none ↦ none | some rs ↦ settle c a rs ]

  pub held-nil : held [] ≡ some (ids env.requests)
  unfolding held
  held-nil = refl

  pub held-step :
      (c : Call) (a : ℕ) (l : List (Call × ℕ)) {rs : List Resource}
      → held l ≡ some rs
      → held ((c, a) ∷ l) ≡ settle c a rs
  unfolding held
  held-step c a l h = rw (h, held)

  -- A call that neither acquires nor gives back anything.
  abbrev pub IsNeutral : Call → Type 0
  IsNeutral c = (a : ℕ) (rs : List Resource) → settle c a rs ≡ some rs

  pub held-neutral :
      (c : Call) (a : ℕ) (l : List (Call × ℕ)) → IsNeutral c → held ((c, a) ∷ l) ≡ held l
  unfolding held
  held-neutral c a l n = go (held l)
    where
      go : (o : Option (List Resource)) → elim o [ none ↦ none | some rs ↦ settle c a rs ] ≡ o
      go none = refl
      go (some rs) = n a rs
