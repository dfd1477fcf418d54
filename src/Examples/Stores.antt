-- ===== src/Examples/Stores.antt =====
-- SharedPageExperiment/pteStore.c with two rows of three.
use infiniband.Common.{
  ℕ, ◌+◌, ◌*◌, ◌≡◌, ◌<◌, refl, true, none, some, List, [], ◌∷◌, arith, length, get_elem?, replicate,
  length-replicate, leb, false, ◌∙◌, if◌then◌else◌,
}
use infiniband.ForkCall.{main, parent_process}
use infiniband.ForkCall.Bounds.{main-bounds}
use infiniband.PteStore
use infiniband.PteStore.Grid.{IsGrid}
use infiniband.PteStore.Print.{table, main-prints, print_array-full}
use infiniband.PteStore.{print_array, Store, Row, fresh, allocate_array, add_all, read_at}
use infiniband.PteStore.Holding.{Holds}
use infiniband.PteStore.Refinement.{
  allocate_array-Holds, add_all-Holds, Allocated, add_all-reads, add_all-overflow,
}

abbrev malloc : ℕ → Row
malloc i = some (replicate 3 0)

malloc-Allocated : Allocated 2 3 malloc
malloc-Allocated = record { obtained = λ i h. (replicate 3 0, refl, refl) }

abbrev four : List ℕ
four = 7 ∷ 8 ∷ 9 ∷ 10 ∷ []

abbrev seven : List ℕ
seven = 1 ∷ 2 ∷ 3 ∷ four

add_all-reads_example :
    (st st' : Store) × (allocate_array 2 3 true malloc fresh ≡ some st)
    × (add_all 2 3 four st ≡ some st')
    × ((i j : ℕ)
        → j < 3
        → i * 3 + j < length four
        → read_at st'.my_ptes i j ≡ get_elem? four (i * 3 + j))
add_all-reads_example = add_all-reads 2 3 malloc malloc-Allocated four (omega arith)

add_all-overflow_example :
    (st : Store) × (allocate_array 2 3 true malloc fresh ≡ some st) × (add_all 2 3 seven st ≡ none)
add_all-overflow_example =
    add_all-overflow 2 3 malloc malloc-Allocated seven (omega arith) (omega arith) (omega arith)

-- The sizes of the program.
abbrev malloc_row : ℕ → Row
malloc_row i = some (replicate 100 0)

main-prints_example :
    (rows : List Row) × (PteStore.main true malloc_row ≡ some (table 5 100 0, rows))
    × IsGrid 5 100 rows
main-prints_example =
    main-prints malloc_row
      (record { obtained = λ i h. (replicate 100 0, refl, length-replicate {A = ℕ} 100 0) })

-- A full store of two rows of three.
full : (st : Store) × Holds 2 3 st (1 ∷ 2 ∷ 3 ∷ 4 ∷ 5 ∷ 6 ∷ [])
full =
    let (st, made, h) = allocate_array-Holds 2 3 malloc malloc-Allocated in
    let (st', added, h') = add_all-Holds 2 3 (1 ∷ 2 ∷ 3 ∷ 4 ∷ 5 ∷ 6 ∷ []) [] h (omega arith) in
    (st', h')

print_array-full_example : print_array 2 3 full.0 ≡ some (1 ∷ 2 ∷ 3 ∷ 4 ∷ 5 ∷ 6 ∷ [])
print_array-full_example = print_array-full 2 3 full.1 refl

-- The block that `malloc(10000)` asks for.
unfoldable block : List ℕ
block = replicate 10000 0

length-block : length block ≡ 10000
unfolding block
length-block = length-replicate {A = ℕ} 10000 0

main-bounds_example :
    main (λ n. some block) 17 ≡ (if leb 40000 (length block) then some parent_process else none)
main-bounds_example = main-bounds (λ n. some block) 17 block refl

-- The block is too small.
main-block : main (λ n. some block) 17 ≡ none
main-block =
    let small : leb 40000 (length block) ≡ false = ground (arith, length-block) in
    main-bounds_example ∙ rw small refl
