-- ===== src/SwapTrace/Out.antt =====
-- The block in `shrink_page_list` of SharedPageExperiment/kernelFiles/vmscan.c.
use infiniband.Common.{
  ℕ, ◌<◌, ◌≡◌, refl, inl, inr, Option, some, List, [], ◌∷◌, ◌++◌, arith, length, ltb, ◌%◌, ◌==◌,
  ◌&&◌, if◌then◌else◌, Bool-cases,
}
use infiniband.SwapTrace.{
  Allocation, Trace, begin_trace, swap_out, save_out, arrays_out, elements_out, pages_out,
}
use infiniband.SwapTrace.Rows.{Traced, begin_trace-begun, trace_entry-Traced}
use infiniband.SwapTrace.Begin.{HasPages-entry}
use infiniband.SwapTrace.Pages.{HasPages, IsMapping, save_page-HasPages}

-- A trace of the way out that has begun, with the entries `xs` and its places for pages.
pub record IsRunningOut (t : Trace) (xs : List ℕ) : Type 0 where
  pub traced : Traced arrays_out elements_out t xs
  pub pages : HasPages pages_out t

save_out-IsRunningOut :
    (v : ℕ) (kmapped : Option (List ℕ)) {t : Trace} {xs : List ℕ}
    → IsMapping kmapped
    → IsRunningOut t xs
    → (t' : Trace) × (save_out v kmapped t ≡ some t') × IsRunningOut t' xs
unfolding save_out
save_out-IsRunningOut v kmapped {t} {xs} m r =
    elim (Bool-cases ((v % 100 == 0) && ltb t.page_filled pages_out)) [
      | inr other ↦ (t, rw (other, save_out) refl, r)
      | inl taken ↦
          let room : t.page_filled < pages_out = ground arith in
          let (slots, (n, ok, h)) = save_page-HasPages r.pages room v kmapped m in
          (
            record t { pages = some slots; page_filled = n },
            rw (taken, r.pages.there, ok, save_out) refl,
            record {
              traced = record { begun = r.traced.begun; entries = r.traced.entries };
              pages = h;
            },
          )
    ]

module _ (a : Allocation) (v : ℕ) (kmapped : Option (List ℕ)) where
  -- The page, where the trace has begun or begins with it.
  pub swap_out-begun :
      (t0 : Trace) {t : Trace} {xs : List ℕ}
      → begin_trace arrays_out elements_out a t0 ≡ some t
      → IsMapping kmapped
      → IsRunningOut t xs
      → length xs < 400000
      → (t' : Trace) × (swap_out a v kmapped t0 ≡ some t')
        × IsRunningOut t' (if v == 0 then xs else xs ++ v ∷ [])
  unfolding swap_out
  swap_out-begun t0 {t} begun m r room = elim (Bool-cases (v == 0)) [
    | inl zero_entry ↦ (t, rw (begun, zero_entry, swap_out) refl, rw zero_entry r)
    | inr entry ↦
        let (st, ok, h) = trace_entry-Traced arrays_out elements_out r.traced v room in
        let (t', saved, r') =
          save_out-IsRunningOut v kmapped m
            (record { traced = h; pages = HasPages-entry st r.pages }) in
        (t', rw (begun, entry, ok, swap_out) saved, rw entry r')
  ]

  -- A page that is swapped out, on a trace of the way out that has begun and holds fewer than 400000
  -- entries: no access is bad, whatever the entry and whether or not the page can be mapped. The trace
  -- then holds the same entries, with this one behind them unless it is 0, and the array of saved pages
  -- keeps its size, its whole pages and its limit of 100.
  pub swap_out-IsRunningOut :
      {t : Trace} {xs : List ℕ}
      → IsMapping kmapped
      → IsRunningOut t xs
      → length xs < 400000
      → (t' : Trace) × (swap_out a v kmapped t ≡ some t')
        × IsRunningOut t' (if v == 0 then xs else xs ++ v ∷ [])
  swap_out-IsRunningOut {t} m r room =
      swap_out-begun t (begin_trace-begun arrays_out elements_out a t r.traced.begun) m r room
