-- ===== src/SwapTrace/History.antt =====
-- Whole histories of the swapping: one swap after another, from the start of the trace.
use infiniband.Common.{
  ℕ, ◌+◌, ◌≤◌, ◌<◌, ◌≡◌, refl, ◌∙◌, inl, inr, Option, none, some, List, [], ◌∷◌, ◌++◌, arith,
  length, length-append, ltb, ◌%◌, ◌==◌, ◌&&◌, Bool-cases, Option-cases, ap, sym,
}
use mathlib.Core.List.{append_assoc, append-nil}
use mathlib.Core.Path.{subst}
use infiniband.PteStore.Holding.{Holds}
use infiniband.SwapTrace.{
  Allocation, Trace, PageContentStore, start, begin_trace, enter_swap_in, leave_swap_in, with_pages,
  arrays_in, elements_in, pages_in,
}
use infiniband.SwapTrace.Rows.{Traced, begin_trace-begun, trace_entry-Traced}
use infiniband.SwapTrace.Begin.{Swap, IsAllocated, begin_trace-start, HasPages-entry}
use infiniband.SwapTrace.Pages.{HasPages, IsMapping, leave_swap_in-HasPages}

abbrev pub values : List Swap → List ℕ
values [] = []
values (e ∷ es) = e.value ∷ values es

-- The swaps in turn, each with both of its blocks in `do_swap_page`.
unfoldable pub swap_in_all : Allocation → List Swap → Trace → Option Trace
swap_in_all a [] t = some t
swap_in_all a (e ∷ es) t = elim (enter_swap_in a e.value t) [
  | none ↦ none
  | some t' ↦ elim (leave_swap_in e.value e.kmapped t') [
    | none ↦ none
    | some t'' ↦ swap_in_all a es t''
  ]
]

abbrev pub AllMappings : List Swap → Type 0
AllMappings [] = Unit
AllMappings (e ∷ es) = IsMapping e.kmapped × AllMappings es

-- What the saves leave alone.
record SameEntries (t t' : Trace) : Type 0 where
  begun : t'.first_time ≡ t.first_time
  ptes : t'.ptes ≡ t.ptes

SameEntries-refl : (t : Trace) → SameEntries t t
SameEntries-refl t = record { begun = refl; ptes = refl }

some-injective : {A : Type 0} {x y : A} → Option.some x ≡ some y → x ≡ y
some-injective {x = x} e = ap (λ o. elim o [ none ↦ x | some a ↦ a ]) e

with_pages-SameEntries :
    (t : Trace) (o : Option (List PageContentStore × ℕ)) (t' : Trace)
    → with_pages t o ≡ some t'
    → SameEntries t t'
with_pages-SameEntries t none t' e = absurd (ground (arith, e))
with_pages-SameEntries t (some (slots, n)) t' e = record {
  begun = ap (λ t. t.first_time) (sym (some-injective e));
  ptes = ap (λ t. t.ptes) (sym (some-injective e));
}

leave_swap_in-SameEntries :
    (v : ℕ) (kmapped : Option (List ℕ)) (t t' : Trace)
    → leave_swap_in v kmapped t ≡ some t'
    → SameEntries t t'
unfolding leave_swap_in
leave_swap_in-SameEntries v kmapped t t' e =
    elim (Bool-cases ((v % 100 == 0) && ltb t.page_filled pages_in)) [
      | inr other ↦
          subst (SameEntries t) (some-injective (rw (other, leave_swap_in) at e))
            (SameEntries-refl t)
      | inl taken ↦ elim (Option-cases t.pages) [
        | inl missing ↦ absurd (ground (arith, rw (taken, missing, leave_swap_in) at e))
        | inr (slots, there) ↦ with_pages-SameEntries t _ t' (rw (taken, there, leave_swap_in) at e)
      ]
    ]

-- A trace that has begun, with the entries `xs` and its places for pages.
pub record IsRunning (t : Trace) (xs : List ℕ) : Type 0 where
  pub traced : Traced arrays_in elements_in t xs
  pub pages : HasPages pages_in t

-- The entry of a swap, where the trace has begun or begins with it.
enter-begun :
    (a : Allocation) (v : ℕ) (t0 : Trace) {t : Trace} {xs : List ℕ}
    → begin_trace arrays_in elements_in a t0 ≡ some t
    → IsRunning t xs
    → length xs < 400000
    → (t' : Trace) × (enter_swap_in a v t0 ≡ some t') × IsRunning t' (xs ++ v ∷ [])
unfolding enter_swap_in
enter-begun a v t0 {t} begun r room =
    let (st, ok, h) = trace_entry-Traced arrays_in elements_in r.traced v room in
    (
      record t { ptes = st },
      rw (begun, enter_swap_in) ok,
      record { traced = h; pages = HasPages-entry st r.pages },
    )

leave-IsRunning :
    (v : ℕ) (kmapped : Option (List ℕ)) {t : Trace} {xs : List ℕ}
    → IsMapping kmapped
    → IsRunning t xs
    → (t' : Trace) × (leave_swap_in v kmapped t ≡ some t') × IsRunning t' xs
leave-IsRunning v kmapped {t} {xs} m r =
    let (t', ok, h) = leave_swap_in-HasPages r.pages v kmapped m in
    let same = leave_swap_in-SameEntries v kmapped t t' ok in
    (
      t',
      ok,
      record {
        traced = record {
          begun = same.begun ∙ r.traced.begun;
          entries =
              subst (λ st. Holds arrays_in elements_in st xs) (sym same.ptes) r.traced.entries;
        };
        pages = h;
      },
    )

swap_in_all-IsRunning :
    (a : Allocation) (es : List Swap) {t : Trace} (xs : List ℕ)
    → IsRunning t xs
    → AllMappings es
    → length xs + length es ≤ 400000
    → (t' : Trace) × (swap_in_all a es t ≡ some t') × IsRunning t' (xs ++ values es)
unfolding swap_in_all
swap_in_all-IsRunning a [] {t} xs r ms room = (t, refl, rw append-nil r)
swap_in_all-IsRunning a (e ∷ es) {t} xs r (m, ms) room =
    let (t1, entered, r1) =
      enter-begun a e.value t (begin_trace-begun arrays_in elements_in a t r.traced.begun) r
        (omega arith) in
    let (t2, left, r2) = leave-IsRunning e.value e.kmapped m r1 in
    let (t3, done, r3) =
      swap_in_all-IsRunning a es (xs ++ e.value ∷ []) r2 ms
        (omega (arith, length-append xs (e.value ∷ []))) in
    (t3, rw (entered, left, swap_in_all) done, rw append_assoc at r3)

-- From the start, with an allocation that succeeds throughout: any sequence of at most 400000 swap-ins,
-- each of a whole page or of one that cannot be mapped, makes no bad access. The trace then holds their
-- entries in order, row after row, and the array of saved pages has its size, its whole pages and at
-- most 1000 of them counted.
pub swap_in_all-start :
    (a : Allocation) (e : Swap) (es : List Swap)
    → IsAllocated arrays_in elements_in pages_in a
    → AllMappings (e ∷ es)
    → length (e ∷ es) ≤ 400000
    → (t : Trace) × (swap_in_all a (e ∷ es) start ≡ some t) × IsRunning t (values (e ∷ es))
unfolding swap_in_all
swap_in_all-start a e es ok (m, ms) room =
    let (t0, begun, traced, pages) = begin_trace-start a ok in
    let (t1, entered, r1) =
      enter-begun a e.value start begun (record { traced = traced; pages = pages }) (omega arith) in
    let (t2, left, r2) = leave-IsRunning e.value e.kmapped m r1 in
    let (t3, done, r3) = swap_in_all-IsRunning a es (e.value ∷ []) r2 ms (omega arith) in
    (t3, rw (entered, left, swap_in_all) done, r3)
