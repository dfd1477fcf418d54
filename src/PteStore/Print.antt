-- ===== src/PteStore/Print.antt =====
-- What `printArray` prints of a full store, and with it the whole program of
-- SharedPageExperiment/pteStore.c.
use mathlib.Core.Path.{subst}
use mathlib.Core.List.{append-nil, append_assoc}
use infiniband.Common.{
  ℕ, zero, suc, ◌+◌, ◌*◌, ◌≤◌, ◌≡◌, refl, ap, ◌∙◌, true, none, some, List, [], ◌∷◌, ◌++◌, arith,
  length, length-append, drop, drop-some, drop-past, inl, inr, Option-cases,
}
use infiniband.PteStore.{
  Row, Store, read_at, print_row, print_rows, print_array, add_in_array, add_all, free_rows,
  free_array, number_of_arrays, max_size_array, fill_row, fill_rows, fill_array, print_and_free,
  main,
}
use infiniband.PteStore.Grid.{IsGrid}
use infiniband.PteStore.Holding.{Holds, row-lt}
use infiniband.PteStore.Refinement.{Allocated, allocate_array-Holds, add_all-Holds}

module _ (n m : ℕ) {st : Store} {xs : List ℕ} (h : Holds n m st xs) where
  print_row-drop :
      (i k j : ℕ)
      → j + k ≡ m
      → i * m + m ≤ length xs
      → (vs : List ℕ) × (print_row st.my_ptes i k j ≡ some vs)
        × (vs ++ drop (i * m + m) xs ≡ drop (i * m + j) xs)
  unfolding print_row read_at
  print_row-drop i zero j e room =
      let z : i * m + m ≡ i * m + j = omega arith in ([], refl, rw z refl)
  print_row-drop i (suc k) j e room =
      let (v, ev, ed) = drop-some (i * m + j) xs (omega arith) in
      let (vs, ok, rest) = print_row-drop i k (j + 1) (omega arith) room in
      let z : i * m + (j + 1) ≡ i * m + j + 1 = omega arith in
      let read : read_at st.my_ptes i j ≡ some v =
        ground (arith, h.there, h.reads i j (omega arith) (omega arith), ev) in
      (v ∷ vs, rw (read, ok, print_row) refl, ap (◌∷◌ v) rest ∙ rw (z, ed) refl)

  print_rows-drop :
      (k i : ℕ)
      → i + k ≡ n
      → length xs ≡ n * m
      → print_rows n m st.my_ptes k i ≡ some (drop (i * m) xs)
  unfolding print_rows
  print_rows-drop zero i e full =
      rw (drop-past (i * m) xs (omega (arith, ap (λ (t : ℕ). t * m) e))) refl
  print_rows-drop (suc k) i e full =
      let (vs, ok, rest) =
        print_row-drop i m 0 (omega arith) (omega (arith, row-lt m i n (omega arith))) in
      let z : (i + 1) * m ≡ i * m + m = omega arith in
      let y : i * m + 0 ≡ i * m = omega arith in
      rw (ok, print_rows-drop k (i + 1) (omega arith) full, print_rows, z)
        (ap some (rest ∙ rw y refl))

  -- A store that holds a sequence and has no room left prints just that sequence, in order and without a
  -- bad access.
  pub print_array-full : length xs ≡ n * m → print_array n m st ≡ some xs
  unfolding print_array
  print_array-full full =
      let z : 0 * m ≡ 0 = omega arith in rw z at (print_rows-drop n 0 (omega arith) full)

free_rows-IsGrid : (n m : ℕ) (rows : List Row) → IsGrid n m rows → free_rows n rows ≡ some rows
unfolding free_rows
free_rows-IsGrid n m [] e = rw e refl
free_rows-IsGrid n m (none ∷ rows) g = absurd g
free_rows-IsGrid n m (some xs ∷ rows) (k, en, em, g) =
    rw (en, free_rows-IsGrid k m rows g, free_rows) refl

-- `freeArray` frees each of the rows once.
free_array-Holds :
    (n m : ℕ) {st : Store} {xs : List ℕ} (h : Holds n m st xs) → free_array n st ≡ some h.rows
unfolding free_array
free_array-Holds n m h = rw (h.there, free_array) (free_rows-IsGrid n m h.rows h.grid)

-- What the loops of `fillArray` add: `i + j` in row `i` and column `j`.
abbrev pub line : ℕ → ℕ → ℕ → List ℕ
line zero i j = []
line (suc k) i j = (i + j) ∷ line k i (j + 1)

abbrev pub table : ℕ → ℕ → ℕ → List ℕ
table zero m i = []
table (suc k) m i = line m i 0 ++ table k m (i + 1)

length-line : (k i j : ℕ) → length (line k i j) ≡ k
length-line zero i j = refl
length-line (suc k) i j = ap suc (length-line k i (j + 1))

length-table : (k m i : ℕ) → length (table k m i) ≡ k * m
length-table zero m i = omega arith
length-table (suc k) m i =
    length-append (line m i 0) (table k m (i + 1))
    ∙ omega (arith, length-line m i 0, length-table k m (i + 1))

fill_row-add_all :
    (k i j : ℕ) (st : Store)
    → fill_row k i j st ≡ add_all number_of_arrays max_size_array (line k i j) st
unfolding fill_row add_all
fill_row-add_all zero i j st = refl
fill_row-add_all (suc k) i j st =
    elim (Option-cases (add_in_array number_of_arrays max_size_array (i + j) st)) [
      | inl bad ↦ rw (bad, fill_row, add_all) refl
      | inr (st1, ok) ↦ rw (ok, fill_row, add_all) (fill_row-add_all k i (j + 1) st1)
    ]

fill_rows-Holds :
    (k i : ℕ) (xs : List ℕ) {st : Store}
    → Holds number_of_arrays max_size_array st xs
    → length xs + k * 100 ≤ 500
    → (st' : Store) × (fill_rows k i st ≡ some st')
      × Holds number_of_arrays max_size_array st' (xs ++ table k max_size_array i)
unfolding fill_rows
fill_rows-Holds zero i xs {st} h room = (st, refl, rw append-nil h)
fill_rows-Holds (suc k) i xs {st} h room =
    let row = line max_size_array i 0 in
    let (st1, ok, h1) =
      add_all-Holds number_of_arrays max_size_array row xs h
        (omega (arith, length-line max_size_array i 0)) in
    let (st2, rest, h2) =
      fill_rows-Holds k (i + 1) (xs ++ row) h1
        (omega (arith, length-append xs row, length-line max_size_array i 0)) in
    (
      st2,
      rw (fill_row-add_all max_size_array i 0 st ∙ ok, fill_rows) rest,
      subst (Holds number_of_arrays max_size_array st2)
          (append_assoc xs row (table k max_size_array (i + 1))) h2,
    )

print_and_free-some :
    (st : Store) (vs : List ℕ) (rows : List Row)
    → print_array number_of_arrays max_size_array st ≡ some vs
    → free_array number_of_arrays st ≡ some rows
    → print_and_free (some st) ≡ some (vs, rows)
print_and_free-some st vs rows p f = rw (p, f, print_and_free) refl

-- The whole program, where every `malloc` yields the room asked for: it makes no bad access, prints
-- five rows of a hundred numbers, `i + j` in row `i` and column `j`, and frees the five rows.
pub main-prints :
    (malloc : ℕ → Row)
    → Allocated 5 100 malloc
    → (rows : List Row) × (main true malloc ≡ some (table 5 100 0, rows)) × IsGrid 5 100 rows
unfolding main fill_array
main-prints malloc a =
    let (st, made, h) = allocate_array-Holds number_of_arrays max_size_array malloc a in
    let (st', filled, h') = fill_rows-Holds 5 0 [] h (omega arith) in
    (
      h'.rows,
      rw (made, filled, main)
          (print_and_free-some st' (table 5 100 0) h'.rows
            (print_array-full number_of_arrays max_size_array h' (length-table 5 100 0))
            (free_array-Holds number_of_arrays max_size_array h')),
      h'.grid,
    )
