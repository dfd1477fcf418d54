-- ===== src/SwapTrace/Rows.antt =====
-- The rows of traced entries: what one entry does to them, and where they end.
use infiniband.Common.{
  ℕ, ◌*◌, ◌<◌, ◌≡◌, ◌≢◌, false, Option, none, some, List, [], ◌∷◌, ◌++◌, arith, length,
}
use infiniband.PteStore.{Store}
use infiniband.PteStore.Holding.{Holds, add_in_array-append, add_in_array-overflow}
use infiniband.SwapTrace.{
  Allocation, Trace, begin_trace, trace_entry, enter_swap_in, swap_out, arrays_in, elements_in,
  arrays_out, elements_out,
}

-- A trace that has begun and has seen the entries `xs`.
pub record Traced (n m : ℕ) (t : Trace) (xs : List ℕ) : Type 0 where
  pub begun : t.first_time ≡ false
  pub entries : Holds n m t.ptes xs

pub begin_trace-begun :
    (n m : ℕ) (a : Allocation) (t : Trace) → t.first_time ≡ false → begin_trace n m a t ≡ some t
unfolding begin_trace
begin_trace-begun n m a t h = ground arith

module _ (n m : ℕ) {t : Trace} {xs : List ℕ} (h : Traced n m t xs) (v : ℕ) where
  pub trace_entry-Traced :
      length xs < n * m
      → (st : Store) × (trace_entry n m v t ≡ some (record t { ptes = st }))
        × Traced n m (record t { ptes = st }) (xs ++ v ∷ [])
  unfolding trace_entry
  trace_entry-Traced room =
      let (st, ok, h') = add_in_array-append n m h.entries v room in
      (st, rw (ok, trace_entry), record { begun = h.begun; entries = h' })

  trace_entry-overflow : 0 < n → 0 < m → length xs ≡ n * m → trace_entry n m v t ≡ none
  unfolding trace_entry
  trace_entry-overflow hn hm full =
      rw (add_in_array-overflow n m h.entries v hn hm full, trace_entry)

-- Once a trace that has begun holds 400000 entries, the next swap-in writes outside of the rows,
-- whatever its entry.
pub enter_swap_in-overflow :
    (a : Allocation) (v : ℕ) {t : Trace} {xs : List ℕ}
    → Traced arrays_in elements_in t xs
    → length xs ≡ 400000
    → enter_swap_in a v t ≡ none
unfolding enter_swap_in
enter_swap_in-overflow a v {t} h full =
    rw (begin_trace-begun arrays_in elements_in a t h.begun, enter_swap_in)
      (trace_entry-overflow arrays_in elements_in h v (omega arith) (omega arith) full)

-- Where a trace that has begun holds fewer than 400000 entries, a swap-in makes no bad access, and
-- the trace then holds those entries, each in its place, with the new one behind them.
pub enter_swap_in-append :
    (a : Allocation) (v : ℕ) {t : Trace} {xs : List ℕ}
    → Traced arrays_in elements_in t xs
    → length xs < 400000
    → (t' : Trace) × (enter_swap_in a v t ≡ some t')
      × Traced arrays_in elements_in t' (xs ++ v ∷ [])
unfolding enter_swap_in
enter_swap_in-append a v {t} h room =
    let (st, ok, h') = trace_entry-Traced arrays_in elements_in h v room in
    (
      record t { ptes = st },
      rw (begin_trace-begun arrays_in elements_in a t h.begun, enter_swap_in) ok,
      h',
    )

-- Once a trace of the way out that has begun holds 400000 entries, the next page that is swapped out
-- with an entry other than 0 makes it write outside of the rows, whether or not it can be mapped.
pub swap_out-overflow :
    (a : Allocation) (v : ℕ) (kmapped : Option (List ℕ)) {t : Trace} {xs : List ℕ}
    → Traced arrays_out elements_out t xs
    → length xs ≡ 400000
    → v ≢ 0
    → swap_out a v kmapped t ≡ none
unfolding swap_out
swap_out-overflow a v kmapped {t} h full ne =
    rw (begin_trace-begun arrays_out elements_out a t h.begun, swap_out)
      (ground
        (arith, trace_entry-overflow arrays_out elements_out h v (omega arith) (omega arith) full))
