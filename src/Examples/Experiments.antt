-- ===== src/Examples/Experiments.antt =====
-- SharedPageExperiment as a whole, on short histories and with the sizes of the source.
use infiniband.Common.{
  ℕ, zero, suc, ◌≡◌, refl, ap, ◌∙◌, none, some, List, [], ◌∷◌, arith, length, get_elem?, replicate,
  length-replicate,
}
use infiniband.SwapTrace.{
  PageContentStore, Allocation, Trace, page_size, start, arrays_out, elements_out, pages_out,
}
use infiniband.SwapTrace.Begin.{Swap, IsAllocated}
use infiniband.SwapTrace.History.{IsRunning, swap_in_all}
use infiniband.SwapTrace.Out.{IsRunningOut}
use infiniband.SwapTrace.OutHistory.{swap_out_all, swap_out_all-start}
use infiniband.PteCompare.{comp_two_arrays, init_module}
use infiniband.PteCompare.Experiment.{Lacks, experiment-common, init_module-past}
use infiniband.Examples.Traces.{
  allocation, malloc-Allocated, with_slots, with_slots-IsAllocated, slot, bytes, length-bytes,
  slots_out, length-slots_out, slots_out-whole, tracing, empty, empty-Traced, get_elem?-replicate,
}

abbrev allocation_out : Allocation
allocation_out = record (allocation) { pages = some slots_out }

allocation_out-IsAllocated : IsAllocated arrays_out elements_out pages_out allocation_out
allocation_out-IsAllocated = record {
  arrays = refl;
  rows = malloc-Allocated;
  slots = slots_out;
  there = refl;
  size = length-slots_out;
  whole = slots_out-whole;
}

-- A page that is saved, one that is not traced, and one of another entry.
abbrev page_700 : Swap
page_700 = record { value = 700; kmapped = some bytes }

abbrev page_0 : Swap
page_0 = record { value = 0; kmapped = some bytes }

abbrev page_42 : Swap
page_42 = record { value = 42; kmapped = none }

swap_out_all-start_example :
    (t : Trace) × (swap_out_all allocation_out (page_700 ∷ page_0 ∷ page_42 ∷ []) start ≡ some t)
    × IsRunningOut t (700 ∷ 42 ∷ [])
swap_out_all-start_example =
    swap_out_all-start allocation_out page_700 (page_0 ∷ page_42 ∷ []) allocation_out-IsAllocated
      (length-bytes, (length-bytes, (tt, tt))) (omega arith)

experiment-common_example :
    (t : Trace) × (u : Trace) × (swap_in_all with_slots (page_42 ∷ page_0 ∷ page_42 ∷ []) start
      ≡ some t)
    × (swap_out_all allocation_out (page_700 ∷ page_0 ∷ page_42 ∷ []) start ≡ some u)
    × (comp_two_arrays 20000 t.ptes u.ptes ≡ some 2)
experiment-common_example =
    experiment-common with_slots allocation_out page_42 page_700 (page_0 ∷ page_42 ∷ [])
      (page_0 ∷ page_42 ∷ []) with_slots-IsAllocated allocation_out-IsAllocated
      (tt, (length-bytes, (tt, tt))) (length-bytes, (length-bytes, (tt, tt))) (omega arith)
      (omega arith)

-- One page of the value 700 came in, and none of it went out.
abbrev slot_700 : PageContentStore
slot_700 = record { value = 700; content = bytes }

abbrev filled : List PageContentStore
filled = slot_700 ∷ replicate 999 slot

filled-whole :
    (i : ℕ) (s : PageContentStore) → get_elem? filled i ≡ some s → length s.content ≡ page_size
filled-whole zero s e = ground (arith, length-bytes, e)
filled-whole (suc i) s e =
    ap (λ s. length s.content) (get_elem?-replicate 999 i slot s e)
    ∙ length-replicate {A = ℕ} page_size 0

abbrev came_in : Trace
came_in = record (tracing empty) { pages = some filled; page_filled = 1 }

abbrev came_in-IsRunning : IsRunning came_in []
came_in-IsRunning = record {
  traced = record { begun = refl; entries = empty-Traced.entries };
  pages = record {
    slots = filled;
    there = refl;
    size = omega (arith, length-replicate 999 slot);
    filled = omega arith;
    whole = filled-whole;
  };
}

abbrev went_out : Trace
went_out = record (tracing empty) { pages = some slots_out; page_filled = 0 }

abbrev went_out-IsRunningOut : IsRunningOut went_out []
went_out-IsRunningOut = record {
  traced = record { begun = refl; entries = empty-Traced.entries };
  pages = record {
    slots = slots_out;
    there = refl;
    size = length-slots_out;
    filled = omega arith;
    whole = slots_out-whole;
  };
}

slots_out-Lacks : Lacks 700 slots_out
unfolding slots_out
slots_out-Lacks k s e same =
    let zero_there : s.value ≡ 0 = ap (λ s. s.value) (get_elem?-replicate 100 k slot s e) in
    absurd (omega arith)

init_module-past_example : init_module came_in.ptes went_out.ptes filled slots_out 1 ≡ none
init_module-past_example =
    init_module-past slot_700 came_in-IsRunning went_out-IsRunningOut (omega arith) refl
      slots_out-Lacks
