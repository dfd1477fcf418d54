-- ===== src/PteCompare.antt =====
-- SharedPageExperiment/pteExp.c: the module that compares what was traced on the way into the swap
-- with what was traced on the way out.
pub mod Matches
pub mod Count
pub mod Experiment
use infiniband.Common.{
  ℕ, zero, suc, ◌+◌, Bool, true, false, Option, none, some, List, [], ◌&&◌, ◌==◌, leb, get_elem?,
  if◌then◌else◌,
}
use infiniband.PteStore
use infiniband.PteStore.{Store, Row}
use infiniband.SwapTrace.{PageContentStore}

abbrev pub max_elements : ℕ
max_elements = 20000

abbrev pub max_arrays : ℕ
max_arrays = 5

-- printArray
unfoldable pub print_array : Store → Option (List ℕ)
print_array inp = elim inp.my_ptes [
  | none ↦ some []
  | some rows ↦ PteStore.print_array max_arrays max_elements inp
]

-- How a search of the second array ends: at an equal element, at the end of what is filled (both
-- are `goto nextIter`), or at the end of a row.
pub data Search : Type 0 where
  found past_end row_over : Search

module _ (max : ℕ) where
  -- `for (y …)` over row `x`, with `n` rounds left; `none` is a bad read.
  unfoldable pub search_row : Store → ℕ → ℕ → ℕ → ℕ → Option Search
  search_row out v x zero y = some row_over
  search_row out v x (suc n) y = elim ((x == out.current_array) && leb out.next_index y) [
    | true ↦ some past_end
    | false ↦ elim (PteStore.read_at out.my_ptes x y) [
      | none ↦ none
      | some w ↦ elim (v == w) [ true ↦ some found | false ↦ search_row out v x n (y + 1) ]
    ]
  ]

  -- `for (x …)`: the number that `similarity` grows by.
  unfoldable pub search_rows : Store → ℕ → ℕ → ℕ → Option ℕ
  unfolding search_row
  search_rows out v zero x = some 0
  search_rows out v (suc n) x = elim (search_row out v x max 0) [
    | none ↦ none
    | some found ↦ some 1
    | some past_end ↦ some 0
    | some row_over ↦ search_rows out v n (x + 1)
  ]

  -- `for (j …)` over row `i`: the similarity so far, and whether it was `goto finish`.
  unfoldable pub compare_row : Store → Store → ℕ → ℕ → ℕ → ℕ → Option (ℕ × Bool)
  unfolding search_rows
  compare_row inn out i zero j sim = some (sim, false)
  compare_row inn out i (suc n) j sim = elim ((i == inn.current_array) && leb inn.next_index j) [
    | true ↦ some (sim, true)
    | false ↦ elim (PteStore.read_at inn.my_ptes i j) [
      | none ↦ none
      | some v ↦ elim (search_rows out v (out.current_array + 1) 0) [
        | none ↦ none
        | some one ↦ compare_row inn out i n (j + 1) (sim + one)
      ]
    ]
  ]

  -- `for (i …)`
  unfoldable pub compare_rows : Store → Store → ℕ → ℕ → ℕ → Option ℕ
  unfolding compare_row
  compare_rows inn out zero i sim = some sim
  compare_rows inn out (suc n) i sim = elim (compare_row inn out i max 0 sim) [
    | none ↦ none
    | some (sim', finished) ↦ elim finished [
      | true ↦ some sim'
      | false ↦ compare_rows inn out n (i + 1) sim'
    ]
  ]

  -- compTwoArrays
  unfoldable pub comp_two_arrays : Store → Store → Option ℕ
  unfolding compare_rows
  comp_two_arrays inn out = compare_rows inn out (inn.current_array + 1) 0 0

-- `for (j = 0; j < 4096; ++j) if (a[j] != b[j]) decision = 0;` with `n` rounds left.
unfoldable pub compare_pages : ℕ → ℕ → List ℕ → List ℕ → Bool → Option Bool
compare_pages zero j xs ys decision = some decision
compare_pages (suc n) j xs ys decision = elim (get_elem? xs j) [
  | none ↦ none
  | some x ↦ elim (get_elem? ys j) [
    | none ↦ none
    | some y ↦ compare_pages n (j + 1) xs ys (if x == y then decision else false)
  ]
]

-- `for (k …)` of `init_module`, with `n` rounds left. `some true` is `goto tag1`. The decision is
-- carried from one `k` to the next.
unfoldable pub match_out : List PageContentStore → PageContentStore → ℕ → ℕ → Bool → Option Bool
unfolding compare_pages
match_out out page zero k decision = some false
match_out out page (suc n) k decision = elim (get_elem? out k) [
  | none ↦ none
  | some other ↦ elim (other.value == page.value) [
    | false ↦ match_out out page n (k + 1) decision
    | true ↦ elim (compare_pages 4096 0 other.content page.content decision) [
      | none ↦ none
      | some true ↦ some true
      | some false ↦ match_out out page n (k + 1) false
    ]
  ]
]

-- `for (i = 0; i < pageFilled_IN; ++i)`: whether a matching page was found.
unfoldable pub match_in : List PageContentStore → List PageContentStore → ℕ → ℕ → Option Bool
unfolding match_out
match_in out inn zero i = some false
match_in out inn (suc n) i = elim (get_elem? inn i) [
  | none ↦ none
  | some page ↦ elim (match_out out page 1000 0 true) [
    | none ↦ none
    | some true ↦ some true
    | some false ↦ match_in out inn n (i + 1)
  ]
]

abbrev both : {A : Type 0} → Option A → Option A → Bool
both (some a) (some b) = true
both _ _ = false

-- init_module: the number of equal elements, if both traces are there, and whether a page of equal
-- contents was found in its place. The arrays of pages are not tested for NULL.
unfoldable pub init_module :
    Store → Store → List PageContentStore → List PageContentStore → ℕ → Option (Option ℕ × Bool)
init_module inn out pages_in pages_out page_filled_in = elim (both inn.my_ptes out.my_ptes) [
  | false ↦ elim (match_in pages_out pages_in page_filled_in 0) [
    | none ↦ none
    | some m ↦ some (none, m)
  ]
  | true ↦ elim (comp_two_arrays max_elements inn out) [
    | none ↦ none
    | some x ↦ elim (match_in pages_out pages_in page_filled_in 0) [
      | none ↦ none
      | some m ↦ some (some x, m)
    ]
  ]
]
