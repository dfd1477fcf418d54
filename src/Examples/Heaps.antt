-- ===== src/Examples/Heaps.antt =====
-- heap copy/file_fault.c on two heaps of one page each.
use infiniband.Common.{
  ℕ, ◌+◌, ◌≡◌, ◌≢◌, refl, true, false, some, ◌<◌, arith, if◌then◌else◌, ◌==◌, ltb,
}
use infiniband.HeapSwap.{Mm, Pte, present, Kernel, returned, init_module, page_size, swap_bytes}
use infiniband.HeapSwap.Endless.{init_module-endless}
use infiniband.HeapSwap.Bytes.{swap_bytes-eq}
use infiniband.HeapSwap.Pages.{IsAligned, Apart, pair, init_module-exchanges}

abbrev page : ℕ → Pte
page f = present (record { frame = f; anon = true; ksm = false; anon_vma = true; mapping = true })

abbrev heap : Mm
heap = record { start_brk = 0; brk = 4096; pte = page; has_vma = true }

abbrev heap2 : Mm
heap2 = record { start_brk = 8192; brk = 12288; pte = λ a. page (a + 1); has_vma = true }

abbrev machine : Kernel
machine = record {
  byte = λ f k. f + k;
  locked_one = false;
  locked_two = false;
  hooked = false;
  buffer = false;
}

heap-IsAligned : IsAligned heap 1
heap-IsAligned = record { pages = refl; low = omega arith }

heap2-IsAligned : IsAligned heap2 1
heap2-IsAligned = record { pages = refl; low = omega arith }

heap-Apart : Apart heap heap2
heap-Apart q r f g f' g' ne e e' = ground arith

init_module-exchanges_example :
    (k' : Kernel) × (init_module 2 true (some heap) (some heap2) machine ≡ returned true k')
    × ((k'.locked_one ≡ false) × (k'.locked_two ≡ false) × (k'.buffer ≡ false))
    × ((q f g j : ℕ)
        → q < 1
        → q < 1
        → pair heap heap2 q ≡ some (f, g)
        → j < page_size
        → (k'.byte f j ≡ machine.byte g j) × (k'.byte g j ≡ machine.byte f j))
    × ((h j : ℕ)
        → ((q f g : ℕ) → q < 1 → q < 1 → pair heap heap2 q ≡ some (f, g) → (h ≢ f) × (h ≢ g))
        → k'.byte h j ≡ machine.byte h j)
init_module-exchanges_example =
    init_module-exchanges heap-IsAligned heap2-IsAligned 2 machine refl (omega arith) (λ r h. refl)
      heap-Apart

abbrev uneven : Mm
uneven = record (heap) { brk = 5000 }

abbrev uneven2 : Mm
uneven2 = record (heap2) { brk = 12289 }

abbrev swapped : Kernel
swapped = record (machine) { byte = swap_bytes 0 8193 page_size machine.byte }

init_module-endless_example :
    init_module 100 true (some uneven) (some uneven2) machine ≢ returned true swapped
init_module-endless_example =
    init_module-endless 100 true uneven uneven2 machine swapped (omega arith) (omega arith)

swap_bytes-eq_example : swap_bytes 3 5 4096 machine.byte 3 7 ≡ (
    if ltb 7 4096
    then (if 3 == 3
        then machine.byte 5 7
        else if 3 == 5
        then machine.byte 3 7
        else machine.byte 3 7)
    else machine.byte 3 7)
swap_bytes-eq_example = swap_bytes-eq 3 5 4096 machine.byte 3 7
