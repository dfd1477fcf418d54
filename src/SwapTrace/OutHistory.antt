-- ===== src/SwapTrace/OutHistory.antt =====
-- Whole histories of the pages that go out: one after another, from the start of the trace.
use infiniband.Common.{
  ℕ, ◌+◌, ◌≤◌, ◌≡◌, refl, inl, inr, Option, none, some, List, [], ◌∷◌, ◌++◌, arith, length,
  length-append, ◌==◌, if◌then◌else◌, Bool-cases,
}
use mathlib.Core.List.{append_assoc, append-nil}
use infiniband.SwapTrace.{Allocation, Trace, start, swap_out, arrays_out, elements_out, pages_out}
use infiniband.SwapTrace.Rows.{begin_trace-begun}
use infiniband.SwapTrace.Begin.{Swap, IsAllocated, begin_trace-start}
use infiniband.SwapTrace.History.{AllMappings}
use infiniband.SwapTrace.Out.{IsRunningOut, swap_out-begun}

-- The entries that are traced.
abbrev pub entries : List Swap → List ℕ
entries [] = []
entries (e ∷ es) = if e.value == 0 then entries es else e.value ∷ entries es

-- The pages in turn, each with the block in `shrink_page_list`.
unfoldable pub swap_out_all : Allocation → List Swap → Trace → Option Trace
swap_out_all a [] t = some t
swap_out_all a (e ∷ es) t = elim (swap_out a e.value e.kmapped t) [
  | none ↦ none
  | some t' ↦ swap_out_all a es t'
]

-- What one page adds.
abbrev add_entry : Swap → List ℕ → List ℕ
add_entry e xs = if e.value == 0 then xs else xs ++ e.value ∷ []

add_entry-append :
    (e : Swap) (es : List Swap) (xs : List ℕ)
    → add_entry e xs ++ entries es ≡ xs ++ entries (e ∷ es)
add_entry-append e es xs = elim (Bool-cases (e.value == 0)) [
  | inl zero_entry ↦ rw zero_entry refl
  | inr entry ↦ rw (entry, append_assoc) refl
]

length-add_entry : (e : Swap) (xs : List ℕ) → length (add_entry e xs) ≤ length xs + 1
length-add_entry e xs = elim (Bool-cases (e.value == 0)) [
  | inl zero_entry ↦ rw zero_entry (omega arith)
  | inr entry ↦ rw entry (omega (arith, length-append xs (e.value ∷ [])))
]

swap_out_all-IsRunningOut :
    (a : Allocation) (es : List Swap) {t : Trace} (xs : List ℕ)
    → IsRunningOut t xs
    → AllMappings es
    → length xs + length es ≤ 400000
    → (t' : Trace) × (swap_out_all a es t ≡ some t') × IsRunningOut t' (xs ++ entries es)
unfolding swap_out_all
swap_out_all-IsRunningOut a [] {t} xs r ms room = (t, refl, rw append-nil r)
swap_out_all-IsRunningOut a (e ∷ es) {t} xs r (m, ms) room =
    let (t1, out, r1) =
      swap_out-begun a e.value e.kmapped t
        (begin_trace-begun arrays_out elements_out a t r.traced.begun) m r (omega arith) in
    let (t2, done, r2) =
      swap_out_all-IsRunningOut a es (add_entry e xs) r1 ms
        (omega (arith, length-add_entry e xs)) in
    (t2, rw (out, swap_out_all) done, rw (add_entry-append e es xs) at r2)

-- From the start, with an allocation that succeeds throughout: any sequence of at most 400000 pages
-- that go out, each whole or one that cannot be mapped, makes no bad access. The trace then holds their
-- entries in order, row after row and without those that are 0, and the array of saved pages has its
-- size, its whole pages and at most 100 of them counted. It has begun even where all entries are 0.
pub swap_out_all-start :
    (a : Allocation) (e : Swap) (es : List Swap)
    → IsAllocated arrays_out elements_out pages_out a
    → AllMappings (e ∷ es)
    → length (e ∷ es) ≤ 400000
    → (t : Trace) × (swap_out_all a (e ∷ es) start ≡ some t) × IsRunningOut t (entries (e ∷ es))
unfolding swap_out_all
swap_out_all-start a e es ok (m, ms) room =
    let (t0, begun, traced, pages) = begin_trace-start a ok in
    let (t1, out, r1) =
      swap_out-begun a e.value e.kmapped start begun m (record { traced = traced; pages = pages })
        (omega arith) in
    let (t2, done, r2) =
      swap_out_all-IsRunningOut a es (add_entry e []) r1 ms
        (omega (arith, length-add_entry e [])) in
    (t2, rw (out, swap_out_all) done, rw (add_entry-append e es []) at r2)
