-- ===== src/HeapSwap/Pages.antt =====
-- The loop over the pages of two heaps: what it exchanges, and when it never ends.
use Prim.Native.Nat.{min}
use native.Mathlib.Nat.{add-zero}
use native.Mathlib.Decide.{dec_lt}
use infiniband.Common.{
  Bool, ℕ, zero, suc, ◌+◌, ◌*◌, ◌^◌, ◌≤◌, ◌<◌, ◌≡◌, ◌≢◌, refl, ◌∙◌, ◌⊎◌, inl, inr, true, false, not,
  Option, none, some, arith, ◌==◌, ◌&&◌,
}
use infiniband.HeapSwap.{
  next, Pte, no_pte, not_present, present, Mm, Kernel, returned, walkable, page_size, next_page,
  unlock, swap_bytes, swap_page, swap_loop, init_module,
}
use infiniband.HeapSwap.Bytes.{swap_bytes-eq}

-- The frames behind two entries, if both are present.
abbrev pub frames : Pte → Pte → Option (ℕ × ℕ)
frames (present p) (present q) = some (p.frame, q.frame)
frames (present p) no_pte = none
frames (present p) not_present = none
frames no_pte _ = none
frames not_present _ = none

-- The walk over the areas of a present page does not give up.
abbrev pub Walks : Pte → Type 0
Walks (present p) = walkable p ≡ true
Walks _ = Unit

-- One page: the memory afterwards.
abbrev exchange : Option (ℕ × ℕ) → (ℕ → ℕ → ℕ) → ℕ → ℕ → ℕ
exchange none mem = mem
exchange (some (f, g)) mem = swap_bytes f g page_size mem

swap_page-eq :
    (p q : Pte) (k : Kernel)
    → Walks p
    → k.buffer ≡ true
    → swap_page p q k ≡ next (record k { byte = exchange (frames p q) k.byte })
unfolding swap_page
swap_page-eq (present p) (present q) k w b = rw (w, b)
swap_page-eq (present p) no_pte k w b = refl
swap_page-eq (present p) not_present k w b = refl
swap_page-eq no_pte _ k w b = refl
swap_page-eq not_present _ k w b = refl

-- A heap of `n` whole pages that does not reach the end of the address space.
pub record IsAligned (mm : Mm) (n : ℕ) : Type 0 where
  pub pages : mm.brk ≡ mm.start_brk + page_size * n
  pub low : mm.brk < 2 ^ 64

-- A round is made for the page number `q` as long as neither heap has ended.
module _ {mm mm2 : Mm} {n n2 : ℕ} (a : IsAligned mm n) (a2 : IsAligned mm2 n2) where
  abbrev addr : ℕ → ℕ
  addr q = mm.start_brk + page_size * q

  abbrev addr2 : ℕ → ℕ
  addr2 q = mm2.start_brk + page_size * q

  goes_on : (q : ℕ) → q < n → q < n2 → (not (addr q == mm.brk) && not (addr2 q == mm2.brk)) ≡ true
  goes_on q h h2 = ground (arith, a.pages, a2.pages)

  stops :
      (q : ℕ) → (q ≡ n) ⊎ (q ≡ n2) → (not (addr q == mm.brk) && not (addr2 q == mm2.brk)) ≡ false
  stops q (inl e) = ground (arith, a.pages, a2.pages)
  stops q (inr e) = ground (arith, a.pages, a2.pages)

  next-addr : (q : ℕ) → q < n → next_page (addr q) ≡ addr (q + 1)
  next-addr q h = omega (arith, a.pages, a.low)

  next-addr2 : (q : ℕ) → q < n2 → next_page (addr2 q) ≡ addr2 (q + 1)
  next-addr2 q h = omega (arith, a2.pages, a2.low)

exchange-avoids :
    (o : Option (ℕ × ℕ)) (mem : ℕ → ℕ → ℕ) (h k : ℕ)
    → ((f g : ℕ) → o ≡ some (f, g) → (h ≢ f) × (h ≢ g))
    → exchange o mem h k ≡ mem h k
exchange-avoids none mem h k avoid = refl
exchange-avoids (some (f, g)) mem h k avoid =
    ground (arith, swap_bytes-eq f g page_size mem h k, avoid f g refl)

exchange-hits :
    (o : Option (ℕ × ℕ)) (mem : ℕ → ℕ → ℕ) (f g k : ℕ)
    → o ≡ some (f, g)
    → k < page_size
    → (exchange o mem f k ≡ mem g k) × (exchange o mem g k ≡ mem f k)
exchange-hits none mem f g k e h = absurd (ground arith)
exchange-hits (some (f', g')) mem f g k e h =
    ground (arith, swap_bytes-eq f' g' page_size mem f k, swap_bytes-eq f' g' page_size mem g k)

module _ (mm mm2 : Mm) where
  -- The frames of the two pages number `q`, if both are present.
  abbrev pub pair : ℕ → Option (ℕ × ℕ)
  pair q = frames (mm.pte (mm.start_brk + page_size * q)) (mm2.pte (mm2.start_brk + page_size * q))

  -- The memory after `m` rounds from the page number `q` on.
  pub after : ℕ → ℕ → (ℕ → ℕ → ℕ) → ℕ → ℕ → ℕ
  after zero q mem = mem
  after (suc m) q mem = after m (q + 1) (exchange (pair q) mem)

  -- The pages of different numbers have different frames.
  abbrev pub Apart : Type 0
  Apart =
      (q r f g f' g' : ℕ)
      → q ≢ r
      → pair q ≡ some (f, g)
      → pair r ≡ some (f', g')
      → (f ≢ f') × (f ≢ g') × (g ≢ f') × (g ≢ g')

  after-avoids :
      (m q h k : ℕ) (mem : ℕ → ℕ → ℕ)
      → ((r f g : ℕ) → q ≤ r → r < q + m → pair r ≡ some (f, g) → (h ≢ f) × (h ≢ g))
      → after m q mem h k ≡ mem h k
  unfolding after
  after-avoids zero q h k mem avoid = refl
  after-avoids (suc m) q h k mem avoid =
      after-avoids m (q + 1) h k (exchange (pair q) mem)
        (λ r f g lo hi. avoid r f g (omega arith) (omega arith))
      ∙ exchange-avoids (pair q) mem h k (λ f g. avoid q f g (omega arith) (omega arith))

  after-exchanges :
      (m q r f g k : ℕ) (mem : ℕ → ℕ → ℕ)
      → Apart
      → q ≤ r
      → r < q + m
      → pair r ≡ some (f, g)
      → k < page_size
      → (after m q mem f k ≡ mem g k) × (after m q mem g k ≡ mem f k)
  unfolding after
  after-exchanges zero q r f g k mem apart lo hi e hk = absurd (omega arith)
  after-exchanges (suc m) q r f g k mem apart lo hi e hk = elim (dec_lt q r) [
    | yes later ↦
        let (one, two) =
          after-exchanges m (q + 1) r f g k (exchange (pair q) mem) apart (omega arith)
            (omega arith) e hk in
        (
          one ∙ exchange-avoids (pair q) mem g k (λ f' g' e'. ground (arith, apart q r f' g' f g)),
          two ∙ exchange-avoids (pair q) mem f k (λ f' g' e'. ground (arith, apart q r f' g' f g)),
        )
    | no first ↦
        let now : q ≡ r = omega arith in
        let e' : pair q ≡ some (f, g) = rw now e in
        let (one, two) = exchange-hits (pair q) mem f g k e' hk in
        (
          after-avoids m (q + 1) f k (exchange (pair q) mem)
                (λ r' f' g' lo' hi' e''. ground (arith, apart q r' f g f' g'))
              ∙ one,
          after-avoids m (q + 1) g k (exchange (pair q) mem)
                (λ r' f' g' lo' hi' e''. ground (arith, apart q r' f g f' g'))
              ∙ two,
        )
  ]

-- What the module does before the loop, where the first heap has an area.
abbrev pub enter : Bool → Kernel → Kernel
enter allocated k = record k {
  locked_one = true;
  locked_two = true;
  hooked = true;
  buffer = allocated;
}

init_module-runs :
    (fuel : ℕ) (allocated : Bool) (mm mm2 : Mm) (k : Kernel)
    → mm.has_vma ≡ true
    → init_module fuel allocated (some mm) (some mm2) k
      ≡ swap_loop fuel mm mm2 mm.start_brk mm2.start_brk (enter allocated k)
unfolding init_module
init_module-runs fuel allocated mm mm2 k vma = ground arith

module _ {mm mm2 : Mm} {n n2 : ℕ} (a : IsAligned mm n) (a2 : IsAligned mm2 n2) where
  -- With one unit of fuel more than rounds left the loop ends, and the locks are given back.
  swap_loop-after :
      (m q fuel : ℕ) (k : Kernel)
      → q + m ≡ min n n2
      → m < fuel
      → k.buffer ≡ true
      → ((r : ℕ) → r < n → Walks (mm.pte (mm.start_brk + page_size * r)))
      → swap_loop fuel mm mm2 (mm.start_brk + page_size * q) (mm2.start_brk + page_size * q) k
        ≡ returned true (unlock (record k { byte = after mm mm2 m q k.byte }))
  unfolding swap_loop after
  swap_loop-after m q zero k e h b walks = absurd (omega arith)
  swap_loop-after zero q (suc fuel) k e h b walks = rw (stops a a2 q (ground arith), swap_loop) refl
  swap_loop-after (suc m) q (suc fuel) k e h b walks =
      rw
        (
          goes_on a a2 q (omega arith) (omega arith),
          swap_page-eq _ _ k (walks q (omega arith)) b,
          next-addr a a2 q (omega arith),
          next-addr2 a a2 q (omega arith),
          swap_loop,
        )
        (swap_loop-after m (q + 1) fuel (record k { byte = exchange (pair mm mm2 q) k.byte })
          (omega arith) (omega arith) b walks)

  swap_loop-start :
      (m fuel : ℕ) (k : Kernel)
      → m ≡ min n n2
      → m < fuel
      → k.buffer ≡ true
      → ((r : ℕ) → r < n → Walks (mm.pte (mm.start_brk + page_size * r)))
      → swap_loop fuel mm mm2 mm.start_brk mm2.start_brk k
        ≡ returned true (unlock (record k { byte = after mm mm2 m 0 k.byte }))
  swap_loop-start m fuel k e h b walks =
      rw (add-zero, add-zero) at (swap_loop-after m 0 fuel k (omega arith) h b walks)

  -- On two heaps of whole pages, with a page table area in the first, the buffer allocated, no page
  -- whose walk gives up, and all frames apart, the module returns 0 with both locks released and its
  -- buffer freed; the contents of any two pages of the same number, both present, are exchanged, and
  -- a frame of no such pair is left alone. More than min(n, n2) rounds of fuel are enough.
  pub init_module-exchanges :
      (fuel : ℕ) (k : Kernel)
      → mm.has_vma ≡ true
      → min n n2 < fuel
      → ((r : ℕ) → r < n → Walks (mm.pte (mm.start_brk + page_size * r)))
      → Apart mm mm2
      → (k' : Kernel) × (init_module fuel true (some mm) (some mm2) k ≡ returned true k')
        × ((k'.locked_one ≡ false) × (k'.locked_two ≡ false) × (k'.buffer ≡ false))
        × ((q f g j : ℕ)
            → q < n
            → q < n2
            → pair mm mm2 q ≡ some (f, g)
            → j < page_size
            → (k'.byte f j ≡ k.byte g j) × (k'.byte g j ≡ k.byte f j))
        × ((h j : ℕ)
            → ((q f g : ℕ) → q < n → q < n2 → pair mm mm2 q ≡ some (f, g) → (h ≢ f) × (h ≢ g))
            → k'.byte h j ≡ k.byte h j)
  init_module-exchanges fuel k vma enough walks apart =
      let m = min n n2 in
      let held = enter true k in
      (
        unlock (record held { byte = after mm mm2 m 0 k.byte }),
        init_module-runs fuel true mm mm2 k vma
            ∙ swap_loop-start m fuel held refl enough refl walks,
        (refl, refl, refl),
        λ q f g j hq hq2 e hj.
            after-exchanges mm mm2 m 0 q f g j k.byte apart (omega arith) (omega arith) e hj,
        λ h j avoid.
            after-avoids mm mm2 m 0 h j k.byte
              (λ r f g lo hi. avoid r f g (omega arith) (omega arith)),
      )
