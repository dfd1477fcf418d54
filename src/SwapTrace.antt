-- ===== src/SwapTrace.antt =====
-- What the experiment adds to the kernel's swap code: SharedPageExperiment/kernelFiles/memory.c on
-- the way in and kernelFiles/vmscan.c on the way out. The rest of those two files is the kernel's.
pub mod Pages
pub mod Rows
pub mod Begin
pub mod History
pub mod Out
pub mod OutHistory
use infiniband.Common.{
  ℕ, zero, suc, ◌+◌, ◌-◌, ◌%◌, Bool, true, false, not, Option, none, some, List, [], ◌∷◌, ◌&&◌,
  ◌==◌, ltb, length, set, get_elem?, if◌then◌else◌,
}
use infiniband.PteStore
use infiniband.PteStore.{Store, Row}

-- struct pageContentStore
pub record PageContentStore : Type 0 where
  pub value : ℕ
  pub content : List ℕ

abbrev pub page_size : ℕ
page_size = 4096

-- What the allocator returns when the trace starts: the array of rows, its rows, the saved pages.
pub record Allocation : Type 0 where
  pub arrays : Bool
  pub row : ℕ → Row
  pub pages : Option (List PageContentStore)

-- The globals of either file.
pub record Trace : Type 0 where
  pub first_time : Bool
  pub ptes : Store
  pub pages : Option (List PageContentStore)
  pub page_filled : ℕ

abbrev pub start : Trace
start = record { first_time = true; ptes = PteStore.fresh; pages = none; page_filled = 0 }

-- `for (index = i; …; index++) content[index] = kmappedPage[index]` with `n` rounds left.
unfoldable pub copy_page : ℕ → ℕ → List ℕ → List ℕ → Option (List ℕ)
copy_page zero i src dst = some dst
copy_page (suc n) i src dst = elim (get_elem? src i) [
  | none ↦ none
  | some b ↦ if ltb i (length dst) then copy_page n (i + 1) src (set dst i b) else none
]

-- The slot `i` gets the value and, if the page could be mapped, its bytes and the next number.
-- `none` is a bad access.
unfoldable pub save_page :
    List PageContentStore → ℕ → ℕ → Option (List ℕ) → Option (List PageContentStore × ℕ)
save_page slots i v kmapped = elim (get_elem? slots i) [
  | none ↦ none
  | some slot ↦ elim kmapped [
    | none ↦ some (set slots i (record slot { value = v }), i)
    | some bytes ↦ elim (copy_page page_size 0 bytes slot.content) [
      | none ↦ none
      | some content ↦ some (set slots i (record { value = v; content = content }), i + 1)
    ]
  ]
]

abbrev with_pages : Trace → Option (List PageContentStore × ℕ) → Option Trace
with_pages t none = none
with_pages t (some (slots, n)) = some (record t { pages = some slots; page_filled = n })

module _ (arrays elements : ℕ) where
  -- The first call allocates.
  unfoldable pub begin_trace : Allocation → Trace → Option Trace
  begin_trace a t =
      if not t.first_time
      then some t
      else elim (PteStore.allocate_array arrays elements a.arrays a.row t.ptes) [
        | none ↦ none
        | some st ↦ some (record t { first_time = false; ptes = st; pages = a.pages })
      ]

  unfoldable pub trace_entry : ℕ → Trace → Option Trace
  trace_entry v t = elim (PteStore.add_in_array arrays elements v t.ptes) [
    | none ↦ none
    | some st ↦ some (record t { ptes = st })
  ]

-- memory.c: sizes, the start of `do_swap_page`, and its end.
abbrev pub arrays_in : ℕ
arrays_in = 20

abbrev pub elements_in : ℕ
elements_in = 20000

abbrev pub pages_in : ℕ
pages_in = 1000

unfoldable pub allocate_array_in : Bool → (ℕ → Row) → Store → Option Store
allocate_array_in = PteStore.allocate_array arrays_in elements_in

unfoldable pub free_array_in : Store → Option (List Row)
free_array_in = PteStore.free_array arrays_in

unfoldable pub print_array_in : Store → Option (List ℕ)
print_array_in = PteStore.print_array arrays_in elements_in

unfoldable pub add_in_array_in : ℕ → Store → Option Store
unfolding PteStore.add_in_array
add_in_array_in = PteStore.add_in_array arrays_in elements_in

unfoldable pub enter_swap_in : Allocation → ℕ → Trace → Option Trace
enter_swap_in a v t = elim (begin_trace arrays_in elements_in a t) [
  | none ↦ none
  | some t' ↦ trace_entry arrays_in elements_in v t'
]

-- `pageContentStore_IN` is not tested for NULL. `kmapped` is what `kmap` returns.
unfoldable pub leave_swap_in : ℕ → Option (List ℕ) → Trace → Option Trace
leave_swap_in v kmapped t =
    if (v % 100 == 0) && ltb t.page_filled pages_in
    then elim t.pages [
      | none ↦ none
      | some slots ↦ with_pages t (save_page slots t.page_filled v kmapped)
    ]
    else some t

-- vmscan.c: sizes and the block in `shrink_page_list`.
abbrev pub arrays_out : ℕ
arrays_out = 20

abbrev pub elements_out : ℕ
elements_out = 20000

abbrev pub pages_out : ℕ
pages_out = 100

unfoldable pub allocate_array_out : Bool → (ℕ → Row) → Store → Option Store
allocate_array_out = PteStore.allocate_array arrays_out elements_out

unfoldable pub free_array_out : Store → Option (List Row)
free_array_out = PteStore.free_array arrays_out

unfoldable pub print_array_out : Store → Option (List ℕ)
print_array_out = PteStore.print_array arrays_out elements_out

unfoldable pub add_in_array_out : ℕ → Store → Option Store
unfolding PteStore.add_in_array
add_in_array_out = PteStore.add_in_array arrays_out elements_out

-- Behind `addInArray`: the page is saved if there is a place for it.
unfoldable pub save_out : ℕ → Option (List ℕ) → Trace → Option Trace
save_out v kmapped t =
    if (v % 100 == 0) && ltb t.page_filled pages_out
    then elim t.pages [
      | none ↦ some t
      | some slots ↦ with_pages t (save_page slots t.page_filled v kmapped)
    ]
    else some t

-- `v` is `page_private(page)`.
unfoldable pub swap_out : Allocation → ℕ → Option (List ℕ) → Trace → Option Trace
swap_out a v kmapped t = elim (begin_trace arrays_out elements_out a t) [
  | none ↦ none
  | some t' ↦ if v == 0 then some t' else elim (trace_entry arrays_out elements_out v t') [
    | none ↦ none
    | some t'' ↦ save_out v kmapped t''
  ]
]
