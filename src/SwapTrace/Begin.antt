-- ===== src/SwapTrace/Begin.antt =====
-- The start of a trace of SharedPageExperiment/kernelFiles/memory.c and vmscan.c: the first call
-- allocates.
use infiniband.Common.{ℕ, ◌≡◌, refl, true, false, Option, some, List, [], arith, length, get_elem?}
use infiniband.PteStore.Refinement.{Allocated, allocate_array-Holds}
use infiniband.PteStore.{Store}
use infiniband.SwapTrace.{Allocation, Trace, PageContentStore, page_size, start, begin_trace}
use infiniband.SwapTrace.Rows.{Traced}
use infiniband.SwapTrace.Pages.{HasPages}

-- A swap: its entry, and the bytes that `kmap` shows, if it does.
pub record Swap : Type 0 where
  pub value : ℕ
  pub kmapped : Option (List ℕ)

-- The allocation of `n` rows of `m` cells and of `places` pages succeeds throughout.
pub record IsAllocated (n m places : ℕ) (a : Allocation) : Type 0 where
  pub arrays : a.arrays ≡ true
  pub rows : Allocated n m a.row
  pub slots : List PageContentStore
  pub there : a.pages ≡ some slots
  pub size : length slots ≡ places
  pub whole :
      (i : ℕ) (s : PageContentStore) → get_elem? slots i ≡ some s → length s.content ≡ page_size

module _ {n m places : ℕ} (a : Allocation) (ok : IsAllocated n m places a) where
  pub begin_trace-start :
      (t : Trace) × (begin_trace n m a start ≡ some t) × Traced n m t [] × HasPages places t
  unfolding begin_trace
  begin_trace-start =
      let (st, made, h) = allocate_array-Holds n m a.row ok.rows in
      (
        record { first_time = false; ptes = st; pages = a.pages; page_filled = 0 },
        rw (ok.arrays, made, begin_trace) refl,
        record { begun = refl; entries = h },
        record {
          slots = ok.slots;
          there = ok.there;
          size = ok.size;
          filled = omega arith;
          whole = ok.whole;
        },
      )

-- A new entry leaves the pages alone.
pub HasPages-entry :
    {places : ℕ} {t : Trace} (st : Store)
    → HasPages places t
    → HasPages places (record t { ptes = st })
HasPages-entry st h = record {
  slots = h.slots;
  there = h.there;
  size = h.size;
  filled = h.filled;
  whole = h.whole;
}
