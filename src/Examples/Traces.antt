-- ===== src/Examples/Traces.antt =====
-- The traces of SharedPageExperiment/kernelFiles with the sizes of the source.
use infiniband.Common.{
  ℕ, zero, suc, ap, ◌∙◌, ◌≤◌, ◌≡◌, refl, true, false, none, some, List, [], ◌∷◌, ◌++◌, arith,
  length, get_elem?, set, replicate, length-replicate, if◌then◌else◌, ◌==◌,
}
use infiniband.PteStore.{Store, Row, fresh}
use infiniband.PteStore.Holding.{Holds}
use infiniband.PteStore.Refinement.{Allocated, allocate_array-Holds, add_all-Holds}
use infiniband.SwapTrace.{
  PageContentStore, Allocation, Trace, page_size, pages_in, arrays_in, elements_in, enter_swap_in,
  leave_swap_in, swap_out, start,
}
use infiniband.SwapTrace.Rows.{
  Traced, enter_swap_in-append, enter_swap_in-overflow, swap_out-overflow,
}
use infiniband.SwapTrace.Begin.{Swap, IsAllocated}
use infiniband.SwapTrace.History.{IsRunning, swap_in_all, swap_in_all-start}
use infiniband.SwapTrace.Out.{IsRunningOut, swap_out-IsRunningOut}
use infiniband.SwapTrace.Pages.{HasPages, saved, leave_swap_in-saves, leave_swap_in-HasPages}

abbrev pub malloc : ℕ → Row
malloc i = some (replicate 20000 0)

pub malloc-Allocated : Allocated 20 20000 malloc
malloc-Allocated = record {
  obtained = λ i h. (replicate 20000 0, refl, length-replicate {A = ℕ} 20000 0);
}

abbrev pub allocation : Allocation
allocation = record { arrays = true; row = malloc; pages = none }

abbrev pub tracing : Store → Trace
tracing st = record { first_time = false; ptes = st; pages = none; page_filled = 0 }

abbrev pub empty : Store
empty = (allocate_array-Holds 20 20000 malloc malloc-Allocated).0

pub empty-Traced : Traced 20 20000 (tracing empty) []
empty-Traced = record {
  begun = refl;
  entries = (allocate_array-Holds 20 20000 malloc malloc-Allocated).2;
}

enter_swap_in-append_example :
    (t' : Trace) × (enter_swap_in allocation 42 (tracing empty) ≡ some t')
    × Traced arrays_in elements_in t' ([] ++ 42 ∷ [])
enter_swap_in-append_example = enter_swap_in-append allocation 42 empty-Traced (omega arith)

unfoldable many : List ℕ
many = replicate 400000 1

length-many : length many ≡ 400000
unfolding many
length-many = length-replicate {A = ℕ} 400000 1

filled : (st : Store) × Holds 20 20000 st many
filled =
    let (st, ok, h) =
      add_all-Holds 20 20000 many [] empty-Traced.entries (omega (arith, length-many)) in
    (st, h)

full-Traced : Traced 20 20000 (tracing filled.0) many
full-Traced = record { begun = refl; entries = filled.1 }

enter_swap_in-overflow_example : enter_swap_in allocation 42 (tracing filled.0) ≡ none
enter_swap_in-overflow_example = enter_swap_in-overflow allocation 42 full-Traced length-many

swap_out-overflow_example : swap_out allocation 42 none (tracing filled.0) ≡ none
swap_out-overflow_example =
    swap_out-overflow allocation 42 none full-Traced length-many (omega arith)

abbrev pub slot : PageContentStore
slot = record { value = 0; content = replicate page_size 0 }

pub get_elem?-replicate :
    {A : Type 0} (n i : ℕ) (a b : A) → get_elem? (replicate n a) i ≡ some b → b ≡ a
get_elem?-replicate zero i a b e = absurd (ground arith)
get_elem?-replicate (suc n) zero a b e = ground (arith, e)
get_elem?-replicate (suc n) (suc i) a b e = get_elem?-replicate n i a b e

unfoldable pub slots : List PageContentStore
slots = replicate 1000 slot

pub length-slots : length slots ≡ 1000
unfolding slots
length-slots = length-replicate 1000 slot

pub slots-whole :
    (i : ℕ) (s : PageContentStore) → get_elem? slots i ≡ some s → length s.content ≡ page_size
unfolding slots
slots-whole i s e =
    ap (λ s. length s.content) (get_elem?-replicate 1000 i slot s e)
    ∙ length-replicate {A = ℕ} page_size 0

abbrev pub with_pages : Trace
with_pages = record (tracing fresh) { pages = some slots; page_filled = 5 }

abbrev pub with_pages-HasPages : HasPages pages_in with_pages
with_pages-HasPages = record {
  slots = slots;
  there = refl;
  size = length-slots;
  filled = omega arith;
  whole = slots-whole;
}

unfoldable pub bytes : List ℕ
bytes = replicate page_size 7

pub length-bytes : length bytes ≡ page_size
unfolding bytes
length-bytes = length-replicate {A = ℕ} page_size 7

leave_swap_in-saves_example :
    (leave_swap_in 300 (some bytes) with_pages ≡ some (saved slots with_pages 300 bytes))
    × (let slots' = set slots 5 (record { value = 300; content = bytes }) in
        (k : ℕ)
        → k ≤ 5
        → get_elem? slots' k
          ≡ (if k == 5 then some (record { value = 300; content = bytes }) else get_elem? slots k))
leave_swap_in-saves_example =
    leave_swap_in-saves with_pages-HasPages 300 bytes length-bytes refl (omega arith)

leave_swap_in-HasPages_example :
    (t' : Trace) × (leave_swap_in 300 (some bytes) with_pages ≡ some t') × HasPages pages_in t'
leave_swap_in-HasPages_example =
    leave_swap_in-HasPages with_pages-HasPages 300 (some bytes) length-bytes

abbrev pub with_slots : Allocation
with_slots = record (allocation) { pages = some slots }

pub with_slots-IsAllocated : IsAllocated 20 20000 1000 with_slots
with_slots-IsAllocated = record {
  arrays = refl;
  rows = malloc-Allocated;
  slots = slots;
  there = refl;
  size = length-slots;
  whole = slots-whole;
}

-- A page that is saved, one that cannot be mapped, and one of another entry.
abbrev pub swaps : List Swap
swaps =
    record { value = 700; kmapped = some bytes }
    ∷ record { value = 800; kmapped = none }
    ∷ record { value = 42; kmapped = none }
    ∷ []

swap_in_all-start_example :
    (t : Trace) × (swap_in_all with_slots swaps start ≡ some t) × IsRunning t (700 ∷ 800 ∷ 42 ∷ [])
swap_in_all-start_example =
    swap_in_all-start with_slots (record { value = 700; kmapped = some bytes })
      (record { value = 800; kmapped = none } ∷ record { value = 42; kmapped = none } ∷ [])
      with_slots-IsAllocated (length-bytes, (tt, (tt, tt))) (omega arith)

unfoldable pub slots_out : List PageContentStore
slots_out = replicate 100 slot

pub length-slots_out : length slots_out ≡ 100
unfolding slots_out
length-slots_out = length-replicate 100 slot

pub slots_out-whole :
    (i : ℕ) (s : PageContentStore) → get_elem? slots_out i ≡ some s → length s.content ≡ page_size
unfolding slots_out
slots_out-whole i s e =
    ap (λ s. length s.content) (get_elem?-replicate 100 i slot s e)
    ∙ length-replicate {A = ℕ} page_size 0

abbrev running : Trace
running = record (tracing empty) { pages = some slots_out; page_filled = 5 }

running-IsRunningOut : IsRunningOut running []
running-IsRunningOut = record {
  traced = record { begun = refl; entries = empty-Traced.entries };
  pages = record {
    slots = slots_out;
    there = refl;
    size = length-slots_out;
    filled = omega arith;
    whole = slots_out-whole;
  };
}

swap_out-IsRunningOut_example :
    (t' : Trace) × (swap_out allocation 300 (some bytes) running ≡ some t')
    × IsRunningOut t' (if 300 == 0 then [] else [] ++ 300 ∷ [])
swap_out-IsRunningOut_example =
    swap_out-IsRunningOut allocation 300 (some bytes) length-bytes running-IsRunningOut
      (omega arith)
