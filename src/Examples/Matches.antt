-- ===== src/Examples/Matches.antt =====
-- SharedPageExperiment/pteExp.c on traces of one page.
use infiniband.Common.{
  ℕ, zero, suc, ◌≤◌, ◌<◌, ◌≡◌, ◌≢◌, refl, true, some, List, [], ◌∷◌, arith, get_elem?, replicate,
  length, length-replicate, ◌*◌,
}
use infiniband.SwapTrace.{PageContentStore}
use infiniband.PteStore.{Store, Row}
use infiniband.PteStore.Holding.{Holds}
use infiniband.PteStore.Refinement.{Allocated, allocate_array-Holds, add_all-Holds}
use infiniband.PteCompare.{match_in, match_out, comp_two_arrays}
use infiniband.PteCompare.Count.{comp_two_arrays-common}
use infiniband.PteCompare.Matches.{
  SameBytes, IsMatch, compare_pages-same, match_in-IsMatch, match_out-blocked,
}

get_elem?-replicate : {A : Type 0} (n i : ℕ) (a : A) → i < n → get_elem? (replicate n a) i ≡ some a
get_elem?-replicate zero i a h = absurd (omega arith)
get_elem?-replicate (suc n) zero a h = refl
get_elem?-replicate (suc n) (suc i) a h = get_elem?-replicate n i a (omega arith)

unfoldable fives : List ℕ
fives = replicate 4096 5

fives-SameBytes : SameBytes 4096 0 fives fives
unfolding fives
fives-SameBytes x lo hi =
    (5, get_elem?-replicate 4096 x 5 (omega arith), get_elem?-replicate 4096 x 5 (omega arith))

abbrev page : PageContentStore
page = record { value = 300; content = fives }

match_out-page : (n : ℕ) → match_out (page ∷ []) page (suc n) 0 true ≡ some true
unfolding match_out
match_out-page n = rw (match_out, compare_pages-same 4096 0 fives fives true fives-SameBytes) refl

match_in-page : match_in (page ∷ []) (page ∷ []) 1 0 ≡ some true
unfolding match_in
match_in-page = rw (match_in, match_out-page 999) refl

match_in-IsMatch_example :
    (j : ℕ) × (0 ≤ j)
    × (j < 1)
    × ((p : PageContentStore) × (get_elem? (page ∷ []) j ≡ some p)
        × ((k : ℕ) × (k < 1000) × IsMatch (page ∷ []) p k))
match_in-IsMatch_example = match_in-IsMatch (page ∷ []) (page ∷ []) 1 0 match_in-page

abbrev other : PageContentStore
other = record { value = 300; content = 6 ∷ fives }

abbrev changed : PageContentStore
changed = record { value = 300; content = 7 ∷ fives }

-- The second place matches, and is not found.
match_out-blocked_example : match_out (other ∷ changed ∷ []) changed 2 0 true ≢ some true
match_out-blocked_example =
    match_out-blocked (other ∷ changed ∷ []) changed other 1 0 0 6 7 refl refl (omega arith) refl
      refl (omega arith)

-- Two traces, of three and of two entries.
abbrev malloc : ℕ → Row
malloc i = some (replicate 20000 0)

malloc-Allocated : Allocated 20 20000 malloc
malloc-Allocated = record {
  obtained = λ i h. (replicate 20000 0, refl, length-replicate {A = ℕ} 20000 0);
}

trace_of : (xs : List ℕ) → length xs ≤ 20 * 20000 → (st : Store) × Holds 20 20000 st xs
trace_of xs room =
    let (st, made, h) = allocate_array-Holds 20 20000 malloc malloc-Allocated in
    let (st', added, h') = add_all-Holds 20 20000 xs [] h (omega (arith, room)) in (st', h')

inn : (st : Store) × Holds 20 20000 st (3 ∷ 1 ∷ 4 ∷ 1 ∷ [])
inn = trace_of (3 ∷ 1 ∷ 4 ∷ 1 ∷ []) (omega arith)

out : (st : Store) × Holds 20 20000 st (1 ∷ 4 ∷ [])
out = trace_of (1 ∷ 4 ∷ []) (omega arith)

comp_two_arrays-common_example : comp_two_arrays 20000 inn.0 out.0 ≡ some 3
comp_two_arrays-common_example = comp_two_arrays-common 20 20 20000 inn.1 out.1
