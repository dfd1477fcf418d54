-- ===== src/PteStore/Refinement.antt =====
-- The store refines a sequence: what `allocateArray` makes takes the elements in turn, row after row.
use mathlib.Core.List.{append_assoc}
use native.Mathlib.Decide.{dec_lt}
use infiniband.Common.{
  ℕ, zero, suc, ◌+◌, ◌*◌, ◌≤◌, ◌<◌, ◌≡◌, refl, true, none, some, List, [], ◌∷◌, ◌++◌, arith, length,
  get_elem?, length-append,
}
use infiniband.PteStore.{Row, Store, read_at, rows_from, allocate_array, add_all, fresh}
use infiniband.PteStore.Grid.{IsGrid}
use infiniband.PteStore.Holding.{
  Holds, add_in_array-append, add_in_array-overflow, Holds-append-nil,
}

-- The elements in turn, on a store that has room for them.
pub add_all-Holds :
    (n m : ℕ) (es : List ℕ) {st : Store} (xs : List ℕ)
    → Holds n m st xs
    → length xs + length es ≤ n * m
    → (st' : Store) × (add_all n m es st ≡ some st') × Holds n m st' (xs ++ es)
unfolding add_all
add_all-Holds n m [] {st} xs h room = (st, refl, Holds-append-nil n m h)
add_all-Holds n m (e ∷ es) {st} xs h room =
    let (st', ok, h') = add_in_array-append n m h e (omega arith) in
    let (st'', ok', h'') =
      add_all-Holds n m es (xs ++ e ∷ []) h' (omega (arith, length-append xs (e ∷ []))) in
    (st'', ground (arith, ok, ok'), rw append_assoc at h'')

-- One element too many.
add_all-none :
    (n m : ℕ) (es : List ℕ) {st : Store} (xs : List ℕ)
    → Holds n m st xs
    → 0 < n
    → 0 < m
    → length xs ≤ n * m
    → n * m < length xs + length es
    → add_all n m es st ≡ none
unfolding add_all
add_all-none n m [] xs h hn hm le lt = absurd (omega arith)
add_all-none n m (e ∷ es) {st} xs h hn hm le lt = elim (dec_lt (length xs) (n * m)) [
  | yes room ↦
      let (st', ok, h') = add_in_array-append n m h e room in
      ground (
        arith,
        ok,
        add_all-none n m es (xs ++ e ∷ []) h' hn hm (omega (arith, length-append xs (e ∷ [])))
            (omega (arith, length-append xs (e ∷ []))),
      )
  | no full ↦ ground (arith, add_in_array-overflow n m h e hn hm (omega arith))
]

-- A store whose allocation has succeeded throughout.
pub record Allocated (n m : ℕ) (malloc : ℕ → Row) : Type 0 where
  pub obtained : (i : ℕ) → i < n → (xs : List ℕ) × (malloc i ≡ some xs) × (length xs ≡ m)

rows_from-IsGrid :
    (n m k i : ℕ) (malloc : ℕ → Row)
    → Allocated n m malloc
    → k + i ≡ n
    → IsGrid k m (rows_from malloc k i)
unfolding rows_from
rows_from-IsGrid n m zero i malloc a e = refl
rows_from-IsGrid n m (suc k) i malloc a e =
    let (xs, got, len) = a.obtained i (omega arith) in
    rw got (k, refl, len, rows_from-IsGrid n m k (i + 1) malloc a (omega arith))

pub allocate_array-Holds :
    (n m : ℕ) (malloc : ℕ → Row)
    → Allocated n m malloc
    → (st : Store) × (allocate_array n m true malloc fresh ≡ some st) × Holds n m st []
unfolding allocate_array
allocate_array-Holds n m malloc a = (
  record fresh { my_ptes = some (rows_from malloc n 0) },
  refl,
  record {
    rows = rows_from malloc n 0;
    there = refl;
    grid = rows_from-IsGrid n m n 0 malloc a (omega arith);
    column = omega arith;
    started = λ _. refl;
    count = omega arith;
    reads = λ i j hj lt. absurd (omega arith);
  },
)

module _ (n m : ℕ) (malloc : ℕ → Row) (a : Allocated n m malloc) where
  -- After an allocation that succeeds throughout, any sequence of at most n * m elements is added
  -- without a bad access, and the k-th element stands in row i and column j with i * m + j = k.
  pub add_all-reads :
      (es : List ℕ)
      → length es ≤ n * m
      → (st st' : Store) × (allocate_array n m true malloc fresh ≡ some st)
        × (add_all n m es st ≡ some st')
        × ((i j : ℕ)
            → j < m
            → i * m + j < length es
            → read_at st'.my_ptes i j ≡ get_elem? es (i * m + j))
  unfolding read_at
  add_all-reads es room =
      let (st, made, h) = allocate_array-Holds n m malloc a in
      let (st', added, h') = add_all-Holds n m es [] h (omega arith) in
      (st, st', made, added, λ i j hj lt. ground (arith, h'.there, h'.reads i j hj lt))

  -- With one element more than n * m the store writes outside of its array of rows.
  pub add_all-overflow :
      (es : List ℕ)
      → 0 < n
      → 0 < m
      → n * m < length es
      → (st : Store) × (allocate_array n m true malloc fresh ≡ some st) × (add_all n m es st ≡ none)
  add_all-overflow es hn hm over =
      let (st, made, h) = allocate_array-Holds n m malloc a in
      (st, made, add_all-none n m es [] h hn hm (omega arith) (omega arith))
