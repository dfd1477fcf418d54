-- ===== src/PteCompare/Experiment.antt =====
-- SharedPageExperiment as a whole: the traces of kernelFiles/memory.c and kernelFiles/vmscan.c, and
-- pteExp.c loaded on them.
use infiniband.Common.{
  ℕ, zero, suc, ◌+◌, ◌≤◌, ◌<◌, ◌≡◌, ◌≢◌, refl, inl, inr, Bool, true, none, some, List, ◌∷◌, ◌==◌,
  arith, length, get_elem?, get_elem?-lt, Bool-cases, Option-cases, ==_iff,
}
use infiniband.SwapTrace.{
  PageContentStore, Allocation, Trace, start, arrays_in, elements_in, pages_in, arrays_out,
  elements_out, pages_out,
}
use infiniband.SwapTrace.Begin.{Swap, IsAllocated}
use infiniband.SwapTrace.History.{AllMappings, IsRunning, values, swap_in_all, swap_in_all-start}
use infiniband.SwapTrace.Out.{IsRunningOut}
use infiniband.SwapTrace.OutHistory.{entries, swap_out_all, swap_out_all-start}
use infiniband.PteCompare.{max_elements, comp_two_arrays, match_out, match_in, init_module}
use infiniband.PteCompare.Count.{common, comp_two_arrays-common}

-- Two traces that have begun, of the entries `xs` in and `ys` out.
running-common :
    {t u : Trace} {xs ys : List ℕ}
    → IsRunning t xs
    → IsRunningOut u ys
    → comp_two_arrays max_elements t.ptes u.ptes ≡ some (common xs ys)
running-common r q =
    comp_two_arrays-common arrays_in arrays_out elements_in r.traced.entries q.traced.entries

-- From the start, with allocations that succeed throughout: after any sequences of swap-ins and of
-- pages that go out, each of 1 to 400000, the comparison of the two traces makes no bad access, and
-- what it returns is how many of the entries that came in, counted with their repetitions, are among
-- the entries other than 0 that went out.
pub experiment-common :
    (a b : Allocation) (e o : Swap) (es os : List Swap)
    → IsAllocated arrays_in elements_in pages_in a
    → IsAllocated arrays_out elements_out pages_out b
    → AllMappings (e ∷ es)
    → AllMappings (o ∷ os)
    → length (e ∷ es) ≤ 400000
    → length (o ∷ os) ≤ 400000
    → (t : Trace) × (u : Trace) × (swap_in_all a (e ∷ es) start ≡ some t)
      × (swap_out_all b (o ∷ os) start ≡ some u)
      × (comp_two_arrays max_elements t.ptes u.ptes
          ≡ some (common (values (e ∷ es)) (entries (o ∷ os))))
experiment-common a b e o es os oka okb me mo he ho =
    let (t, came, r) = swap_in_all-start a e es oka me he in
    let (u, went, q) = swap_out_all-start b o os okb mo ho in (t, u, came, went, running-common r q)

-- No place has the value `v`.
abbrev pub Lacks : ℕ → List PageContentStore → Type 0
Lacks v out = (k : ℕ) (s : PageContentStore) → get_elem? out k ≡ some s → s.value ≢ v

-- A search that nothing ends leaves the places.
match_out-past :
    (out : List PageContentStore) (page : PageContentStore) (n k : ℕ) (d : Bool)
    → Lacks page.value out
    → k ≤ length out
    → length out < k + n
    → match_out out page n k d ≡ none
unfolding match_out
match_out-past out page zero k d lacks lo hi = absurd (omega arith)
match_out-past out page (suc n) k d lacks lo hi = elim (Option-cases (get_elem? out k)) [
  | inl past ↦ rw (past, match_out) refl
  | inr (other, there) ↦ elim (Bool-cases (other.value == page.value)) [
    | inl same ↦ absurd (lacks k other there ((==_iff other.value page.value).0 same))
    | inr differ ↦
        rw (there, differ, match_out)
          (match_out-past out page n (k + 1) d lacks (omega (arith, get_elem?-lt out k other there))
            (omega arith))
  ]
]

match_in-past :
    (out inn : List PageContentStore) (page : PageContentStore) (n : ℕ)
    → 0 < n
    → get_elem? inn 0 ≡ some page
    → match_out out page 1000 0 true ≡ none
    → match_in out inn n 0 ≡ none
unfolding match_in
match_in-past out inn page zero h first past = absurd (omega arith)
match_in-past out inn page (suc n) h first past = rw (first, past, match_in) refl

-- The module is loaded on two traces that have begun, with a page saved on the way in: where no place
-- of the way out has the value of the first saved page, it reads outside of the 100 places.
pub init_module-past :
    {t u : Trace} {xs ys : List ℕ} (page : PageContentStore)
    → (r : IsRunning t xs) → (q : IsRunningOut u ys) → 0 < t.page_filled
    → get_elem? r.pages.slots 0 ≡ some page
    → Lacks page.value q.pages.slots
    → init_module t.ptes u.ptes r.pages.slots q.pages.slots t.page_filled ≡ none
unfolding init_module
init_module-past {t} {u} page r q filled first lacks =
    let past : match_out q.pages.slots page 1000 0 true ≡ none =
      match_out-past q.pages.slots page 1000 0 true lacks (omega arith)
        (omega (arith, q.pages.size)) in
    let searched = match_in-past q.pages.slots r.pages.slots page t.page_filled filled first past in
    rw (r.traced.entries.there, q.traced.entries.there, running-common r q, searched, init_module)
      refl
