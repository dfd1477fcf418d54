-- ===== src/PteStore.antt =====
-- SharedPageExperiment/pteStore.c: a store of numbers in several arrays of one size. The same code
-- stands in kernelFiles/memory.c and kernelFiles/vmscan.c with other sizes (`SwapTrace`).
pub mod Grid
pub mod Holding
pub mod Refinement
pub mod Print
use infiniband.Common.{
  ℕ, zero, suc, ◌+◌, ◌-◌, Bool, true, false, Option, none, some, List, [], ◌∷◌, ◌++◌, ltb, length,
  set, get_elem?, if◌then◌else◌,
}

-- A row is null if its `malloc` failed.
abbrev pub Row : Type 0
Row = Option (List ℕ)

-- `my_ptes` is null before the allocation. `next_index` is `currentIndex + 1`: the int starts at -1.
pub record Store : Type 0 where
  pub my_ptes : Option (List Row)
  pub current_array : ℕ
  pub next_index : ℕ

abbrev pub fresh : Store
fresh = record { my_ptes = none; current_array = 0; next_index = 0 }

-- `p[j] = e` through a pointer; `none` is a write through NULL or out of bounds.
unfoldable pub write_row : Row → ℕ → ℕ → Option Row
write_row none j e = none
write_row (some xs) j e = if ltb j (length xs) then some (some (set xs j e)) else none

unfoldable pub write_rows : List Row → ℕ → ℕ → ℕ → Option (List Row)
unfolding write_row
write_rows [] i j e = none
write_rows (r ∷ rs) zero j e = elim (write_row r j e) [ none ↦ none | some r' ↦ some (r' ∷ rs) ]
write_rows (r ∷ rs) (suc i) j e = elim (write_rows rs i j e) [
  | none ↦ none
  | some rs' ↦ some (r ∷ rs')
]

-- `myPtes[i][j] = e`, with the two counters as they are then.
unfoldable pub write_at : Store → ℕ → ℕ → ℕ → Option Store
unfolding write_rows
write_at st i j e = elim st.my_ptes [
  | none ↦ none
  | some rows ↦ elim (write_rows rows i j e) [
    | none ↦ none
    | some rows' ↦ some (record { my_ptes = some rows'; current_array = i; next_index = j + 1 })
  ]
]

-- `p[j]` through a pointer.
unfoldable pub read_row : Row → ℕ → Option ℕ
read_row none j = none
read_row (some xs) j = get_elem? xs j

unfoldable pub read_rows : List Row → ℕ → ℕ → Option ℕ
unfolding read_row
read_rows [] i j = none
read_rows (r ∷ rs) zero j = read_row r j
read_rows (r ∷ rs) (suc i) j = read_rows rs i j

unfoldable pub read_at : Option (List Row) → ℕ → ℕ → Option ℕ
unfolding read_rows
read_at none i j = none
read_at (some rows) i j = read_rows rows i j

-- `for (j = 0; j < max; ++j)` of `printArray` with `n` rounds left: the numbers printed.
unfoldable pub print_row : Option (List Row) → ℕ → ℕ → ℕ → Option (List ℕ)
unfolding read_at
print_row ptes i zero j = some []
print_row ptes i (suc n) j = elim (read_at ptes i j) [
  | none ↦ none
  | some v ↦ elim (print_row ptes i n (j + 1)) [ none ↦ none | some vs ↦ some (v ∷ vs) ]
]

-- The rows that the calls of `malloc` from the `i`-th on return.
unfoldable pub rows_from : (ℕ → Row) → ℕ → ℕ → List Row
rows_from malloc zero i = []
rows_from malloc (suc n) i = malloc i ∷ rows_from malloc n (i + 1)

module _ (number_of_arrays max_size_array : ℕ) where
  -- `malloc_arrays` says whether the array of rows is there; the loop writes into it unchecked.
  unfoldable pub allocate_array : Bool → (ℕ → Row) → Store → Option Store
  unfolding rows_from
  allocate_array malloc_arrays malloc st =
      if malloc_arrays
      then some (record st { my_ptes = some (rows_from malloc number_of_arrays 0) })
      else none

  unfoldable pub add_in_array : ℕ → Store → Option Store
  unfolding write_at
  add_in_array element st =
      if ltb st.current_array number_of_arrays
      then if ltb st.next_index max_size_array
        then write_at st st.current_array st.next_index element
        else write_at st (st.current_array + 1) 0 element
      else some st

  -- The numbers that `printArray` prints.
  unfoldable pub print_rows : Option (List Row) → ℕ → ℕ → Option (List ℕ)
  unfolding print_row
  print_rows ptes zero i = some []
  print_rows ptes (suc n) i = elim (print_row ptes i max_size_array 0) [
    | none ↦ none
    | some vs ↦ elim (print_rows ptes n (i + 1)) [ none ↦ none | some ws ↦ some (vs ++ ws) ]
  ]

  unfoldable pub print_array : Store → Option (List ℕ)
  unfolding print_rows
  print_array st = print_rows st.my_ptes number_of_arrays 0

  -- The elements in turn.
  unfoldable pub add_all : List ℕ → Store → Option Store
  add_all [] st = some st
  add_all (e ∷ es) st = elim (add_in_array e st) [ none ↦ none | some st' ↦ add_all es st' ]

-- The rows that `freeArray` frees, in order; it reads `n` of them unchecked.
unfoldable pub free_rows : ℕ → List Row → Option (List Row)
free_rows zero rows = some []
free_rows (suc n) [] = none
free_rows (suc n) (r ∷ rows) = elim (free_rows n rows) [ none ↦ none | some rs ↦ some (r ∷ rs) ]

unfoldable pub free_array : ℕ → Store → Option (List Row)
free_array n st = elim st.my_ptes [ none ↦ none | some rows ↦ free_rows n rows ]

-- The sizes of pteStore.c.
abbrev pub number_of_arrays : ℕ
number_of_arrays = 5

abbrev pub max_size_array : ℕ
max_size_array = 100

-- The inner loop of `fillArray`, with `n` rounds left.
unfoldable pub fill_row : ℕ → ℕ → ℕ → Store → Option Store
unfolding add_in_array
fill_row zero i j st = some st
fill_row (suc n) i j st = elim (add_in_array number_of_arrays max_size_array (i + j) st) [
  | none ↦ none
  | some st' ↦ fill_row n i (j + 1) st'
]

unfoldable pub fill_rows : ℕ → ℕ → Store → Option Store
unfolding fill_row
fill_rows zero i st = some st
fill_rows (suc n) i st = elim (fill_row max_size_array i 0 st) [
  | none ↦ none
  | some st' ↦ fill_rows n (i + 1) st'
]

-- fillArray
unfoldable pub fill_array : Store → Option Store
unfolding fill_rows
fill_array = fill_rows number_of_arrays 0

-- What `main` does with the filled store: the numbers printed and the rows freed.
abbrev print_and_free : Option Store → Option (List ℕ × List Row)
print_and_free none = none
print_and_free (some st) = elim (print_array number_of_arrays max_size_array st) [
  | none ↦ none
  | some printed ↦ elim (free_array number_of_arrays st) [
    | none ↦ none
    | some freed ↦ some (printed, freed)
  ]
]

unfoldable pub main : Bool → (ℕ → Row) → Option (List ℕ × List Row)
main malloc_arrays malloc =
    elim (allocate_array number_of_arrays max_size_array malloc_arrays malloc fresh) [
      | none ↦ none
      | some st ↦ print_and_free (fill_array st)
    ]
