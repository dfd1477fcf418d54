-- ===== src/HeapSwap/Endless.antt =====
-- Where the loop of heap copy/file_fault.c never ends.
use infiniband.Common.{Bool, ℕ, zero, suc, ◌%◌, ◌≡◌, ◌≢◌, refl, ◌⊎◌, inl, inr, true, some, arith}
use infiniband.HeapSwap.{
  Round, next, gives_up, null_buffer, Mm, Kernel, returned, page_size, next_page, swap_page,
  swap_loop, init_module,
}
use infiniband.HeapSwap.Pages.{enter}

-- An end that the loop steps over.
abbrev IsSkipped : Mm → ℕ → Type 0
IsSkipped mm i = i % page_size ≢ mm.brk % page_size

next_page-IsSkipped : (mm : Mm) (i : ℕ) → IsSkipped mm i → IsSkipped mm (next_page i)
next_page-IsSkipped mm i h = omega arith

Round-cases : (o : Round) → ((o ≡ gives_up) ⊎ (o ≡ null_buffer)) ⊎ ((k : Kernel) × (o ≡ next k))
Round-cases gives_up = inl (inl refl)
Round-cases null_buffer = inl (inr refl)
Round-cases (next k) = inr (k, refl)

swap_loop-endless :
    (fuel i i2 : ℕ) (mm mm2 : Mm) (k k' : Kernel)
    → IsSkipped mm i
    → IsSkipped mm2 i2
    → swap_loop fuel mm mm2 i i2 k ≢ returned true k'
unfolding swap_loop
swap_loop-endless zero i i2 mm mm2 k k' h h2 e = cc
swap_loop-endless (suc fuel) i i2 mm mm2 k k' h h2 e =
    elim (Round-cases (swap_page (mm.pte i) (mm2.pte i2) k)) [
      | inl stops_here ↦ ground (arith, stops_here)
      | inr (k1, goes) ↦ ground (
        arith,
        goes,
        swap_loop-endless fuel (next_page i) (next_page i2) mm mm2 k1 k'
            (next_page-IsSkipped mm i h) (next_page-IsSkipped mm2 i2 h2),
      )
    ]

-- Where the end of neither heap is a whole number of pages from its start, the loop steps over both
-- and the module never returns 0, however long it runs and whatever the page tables hold.
pub init_module-endless :
    (fuel : ℕ) (allocated : Bool) (mm mm2 : Mm) (k k' : Kernel)
    → mm.start_brk % page_size ≢ mm.brk % page_size
    → mm2.start_brk % page_size ≢ mm2.brk % page_size
    → init_module fuel allocated (some mm) (some mm2) k ≢ returned true k'
unfolding init_module
init_module-endless fuel allocated mm mm2 k k' h h2 e =
    ground
      (arith, swap_loop-endless fuel mm.start_brk mm2.start_brk mm mm2 (enter allocated k) k' h h2)
