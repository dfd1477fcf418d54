-- ===== src/PteCompare/Count.antt =====
-- What `compTwoArrays` of SharedPageExperiment/pteExp.c counts, against a reference definition.
use infiniband.Common.{
  drop, drop-some, drop-past, ℕ, zero, suc, ◌+◌, ◌*◌, ◌≤◌, ◌<◌, ◌≡◌, refl, ap, sym, ◌∙◌, ◌⊎◌, inl,
  inr, Bool, true, false, Option, some, List, [], ◌∷◌, ◌==◌, ◌&&◌, arith, leb, length, Bool-cases,
  if◌then◌else◌,
}
use native.Mathlib.Decide.{dec_lt}
use infiniband.PteStore.{Store, read_at}
use infiniband.PteStore.Holding.{Holds, row-lt}
use infiniband.PteCompare.{
  Search, found, past_end, row_over, search_row, search_rows, compare_row, compare_rows,
  comp_two_arrays,
}

abbrev pub occurs : ℕ → List ℕ → Bool
occurs v [] = false
occurs v (y ∷ ys) = if v == y then true else occurs v ys

-- How many of the elements of `xs` occur in `ys`.
abbrev pub common : List ℕ → List ℕ → ℕ
common [] ys = 0
common (x ∷ xs) ys = (if occurs x ys then 1 else 0) + common xs ys

module _ (n m : ℕ) {st : Store} {ys : List ℕ} (h : Holds n m st ys) where
  -- The test at the head of the inner loops: past the last element.
  past :
      (x y : ℕ) → ((x == st.current_array) && leb st.next_index y) ≡ true → drop (x * m + y) ys ≡ []
  past x y e =
      let row : x ≡ st.current_array = ground arith in
      let column : st.next_index ≤ y = ground arith in
      drop-past (x * m + y) ys (omega (arith, h.count, ap (λ (t : ℕ). t * m) row))

  inside :
      (x y : ℕ)
      → x ≤ st.current_array
      → y < m
      → ((x == st.current_array) && leb st.next_index y) ≡ false
      → x * m + y < length ys
  inside x y hx hy e = elim (dec_lt x st.current_array) [
    | yes lt ↦ omega (arith, h.count, row-lt m x st.current_array lt)
    | no ge ↦
        let row : x ≡ st.current_array = omega arith in
        let column : y < st.next_index = ground arith in
        omega (arith, h.count, ap (λ (t : ℕ). t * m) row)
  ]

  there :
      (x y : ℕ)
      → x ≤ st.current_array
      → y < m
      → ((x == st.current_array) && leb st.next_index y) ≡ false
      → (w : ℕ) × (read_at st.my_ptes x y ≡ some w)
        × (drop (x * m + y) ys ≡ w ∷ drop (x * m + (y + 1)) ys)
  unfolding read_at
  there x y hx hy e =
      let lt = inside x y hx hy e in
      let (w, ew, ed) = drop-some (x * m + y) ys lt in
      let z : x * m + y + 1 ≡ x * m + (y + 1) = omega arith in
      (w, ground (arith, h.there, h.reads x y hy lt, ew), rw z at ed)

  module _ (v : ℕ) where
    -- How the search of row `x` from column `y` on ends.
    abbrev Ends : ℕ → ℕ → Option Search → Type 0
    Ends x y o =
        ((o ≡ some found) × (occurs v (drop (x * m + y) ys) ≡ true))
        ⊎ ((o ≡ some past_end) × (occurs v (drop (x * m + y) ys) ≡ false))
        ⊎ ((o ≡ some row_over)
            × (occurs v (drop (x * m + y) ys) ≡ occurs v (drop ((x + 1) * m) ys)))

    search_row-Ends :
        (k x y : ℕ) → y + k ≡ m → x ≤ st.current_array → Ends x y (search_row m st v x k y)
    unfolding search_row
    search_row-Ends zero x y e hx =
        let z : x * m + y ≡ (x + 1) * m = omega arith in inr (inr (refl, rw z refl))
    search_row-Ends (suc k) x y e hx =
        elim (Bool-cases ((x == st.current_array) && leb st.next_index y)) [
          | inl over ↦ inr (inl (rw (over, search_row) refl, rw (past x y over) refl))
          | inr in_it ↦
              let (w, ew, ed) = there x y hx (omega arith) in_it in
              elim (Bool-cases (v == w)) [
                | inl same ↦ inl (rw (in_it, ew, same, search_row) refl, rw (ed, same) refl)
                | inr differ ↦ elim (search_row-Ends k x (y + 1) (omega arith) hx) [
                  | inl (o, f) ↦ inl (rw (in_it, ew, differ, search_row) o, rw (ed, differ) f)
                  | inr (inl (o, f)) ↦
                      inr (inl (rw (in_it, ew, differ, search_row) o, rw (ed, differ) f))
                  | inr (inr (o, f)) ↦
                      inr (inr (rw (in_it, ew, differ, search_row) o, rw (ed, differ) f))
                ]
              ]
        ]

    -- The search of the rows from `x` on.
    search_rows-eq :
        (k x : ℕ)
        → x + k ≡ st.current_array + 1
        → search_rows m st v k x ≡ some (if occurs v (drop (x * m) ys) then 1 else 0)
    unfolding search_rows
    search_rows-eq zero x e =
        rw (drop-past (x * m) ys (omega (arith, h.count, h.column, ap (λ (t : ℕ). t * m) e))) refl
    search_rows-eq (suc k) x e =
        let z : x * m + 0 ≡ x * m = omega arith in
        elim (search_row-Ends m x 0 (omega arith) (omega arith)) [
          | inl (o, f) ↦ rw (o, rw z at f, search_rows) refl
          | inr (inl (o, f)) ↦ rw (o, rw z at f, search_rows) refl
          | inr (inr (o, f)) ↦
              rw (o, rw z at f, search_rows) (search_rows-eq k (x + 1) (omega arith))
        ]

    search_all : search_rows m st v (st.current_array + 1) 0 ≡ some (if occurs v ys then 1 else 0)
    search_all =
        let z : 0 * m ≡ 0 = omega arith in
        rw z at (search_rows-eq (st.current_array + 1) 0 (omega arith))

module _ (n n' m : ℕ) {inn out : Store} {xs ys : List ℕ} (h : Holds n m inn xs)
    (g : Holds n' m out ys) where
  -- How the comparison of row `i` from column `j` on ends, with the similarity `sim` so far.
  abbrev Compared : ℕ → ℕ → ℕ → Option (ℕ × Bool) → Type 0
  Compared i j sim o =
      (o ≡ some (sim + common (drop (i * m + j) xs) ys, true))
      ⊎ ((sim' : ℕ) × (o ≡ some (sim', false))
          × (sim + common (drop (i * m + j) xs) ys ≡ sim' + common (drop ((i + 1) * m) xs) ys))

  compare_row-Compared :
      (k i j sim : ℕ)
      → j + k ≡ m
      → i ≤ inn.current_array
      → Compared i j sim (compare_row m inn out i k j sim)
  unfolding compare_row
  compare_row-Compared zero i j sim e hi =
      let z : i * m + j ≡ (i + 1) * m = omega arith in inr (sim, refl, rw z refl)
  compare_row-Compared (suc k) i j sim e hi =
      elim (Bool-cases ((i == inn.current_array) && leb inn.next_index j)) [
        | inl over ↦
            let z : sim + 0 ≡ sim = omega arith in
            inl (rw (over, compare_row) (rw (past n m h i j over, z) refl))
        | inr in_it ↦
            let (w, ew, ed) = there n m h i j hi (omega arith) in_it in
            let one : ℕ = if occurs w ys then 1 else 0 in
            let rest : ℕ = common (drop (i * m + (j + 1)) xs) ys in
            let step : common (drop (i * m + j) xs) ys ≡ one + rest = ap (λ l. common l ys) ed in
            let add : (sim + one) + rest ≡ sim + common (drop (i * m + j) xs) ys =
              omega (arith, step) in
            elim (compare_row-Compared k i (j + 1) (sim + one) (omega arith) hi) [
              | inl o ↦ inl (
                  rw (in_it, ew, search_all n' m g w, compare_row)
                    (o ∙ ap (λ q. some (q, true)) add))
              | inr (sim', o, eq) ↦
                  inr (sim', rw (in_it, ew, search_all n' m g w, compare_row) o, sym add ∙ eq)
            ]
      ]

  compare_rows-eq :
      (k i sim : ℕ)
      → i + k ≡ inn.current_array + 1
      → compare_rows m inn out k i sim ≡ some (sim + common (drop (i * m) xs) ys)
  unfolding compare_rows
  compare_rows-eq zero i sim e =
      rw (drop-past (i * m) xs (omega (arith, h.count, h.column, ap (λ (t : ℕ). t * m) e)))
        (ap some (omega arith))
  compare_rows-eq (suc k) i sim e =
      let z : i * m + 0 ≡ i * m = omega arith in
      elim (compare_row-Compared m i 0 sim (omega arith) (omega arith)) [
        | inl o ↦ rw (rw z at o, compare_rows) refl
        | inr (sim', o, eq) ↦
            rw (o, compare_rows)
              (compare_rows-eq k (i + 1) sim' (omega arith) ∙ ap some (sym (rw z at eq)))
      ]

  -- On two traces with rows of `m` columns that hold the sequences `xs` and `ys`, `compTwoArrays` reads
  -- no cell out of bounds and returns how many of the elements of `xs` occur in `ys`, empty traces and
  -- full rows included.
  pub comp_two_arrays-common : comp_two_arrays m inn out ≡ some (common xs ys)
  unfolding comp_two_arrays
  comp_two_arrays-common =
      let z : 0 * m ≡ 0 = omega arith in
      (rw z at (compare_rows-eq (inn.current_array + 1) 0 0 (omega arith))) ∙ ap some (omega arith)
