-- ===== src/SwapTrace/Pages.antt =====
-- The saved pages: no save leaves their array, and a save keeps the page as it was mapped.
use mathlib.Core.List.{append_assoc}
use infiniband.Common.{
  ℕ, zero, suc, ◌+◌, ◌≤◌, ◌<◌, ◌%◌, ◌≡◌, refl, ap, ◌∙◌, inl, inr, false, Option, none, some, List,
  [], ◌∷◌, ◌++◌, arith, length, set, get_elem?, get_elem?-some, get_elem?-set, length-append,
  length-set, ltb, Bool-cases, ◌==◌, ◌&&◌, if◌then◌else◌,
}
use infiniband.SwapTrace.{
  PageContentStore, Trace, page_size, copy_page, save_page, leave_swap_in, pages_in,
}

get_elem?-middle :
    (p : List ℕ) (s : ℕ) (src : List ℕ) → get_elem? (p ++ s ∷ src) (length p) ≡ some s
get_elem?-middle [] s src = refl
get_elem?-middle (x ∷ p) s src = get_elem?-middle p s src

set-middle : (p : List ℕ) (d s : ℕ) (dst : List ℕ) → set (p ++ d ∷ dst) (length p) s ≡ p ++ s ∷ dst
set-middle [] d s dst = refl
set-middle (x ∷ p) d s dst = ap (◌∷◌ x) (set-middle p d s dst)

-- With the first `length p` bytes copied, the loop copies the rest.
copy_page-middle :
    (p src dst : List ℕ) (i n : ℕ)
    → i ≡ length p
    → length src ≡ n
    → length dst ≡ n
    → copy_page n i (p ++ src) (p ++ dst) ≡ some (p ++ src)
unfolding copy_page
copy_page-middle p [] [] i zero e hs hd = refl
copy_page-middle p [] dst i (suc n) e hs hd = absurd (omega arith)
copy_page-middle p (s ∷ src) dst i zero e hs hd = absurd (omega arith)
copy_page-middle p [] (d ∷ dst) i zero e hs hd = absurd (omega arith)
copy_page-middle p (s ∷ src) [] i (suc n) e hs hd = absurd (omega arith)
copy_page-middle p (s ∷ src) (d ∷ dst) i (suc n) e hs hd =
    let ih =
      copy_page-middle (p ++ s ∷ []) src dst (i + 1) n (omega (arith, length-append p (s ∷ [])))
        (omega arith) (omega arith) in
    ground (
      arith,
      e,
      simp append_assoc at ih,
      get_elem?-middle p s src,
      set-middle p d s dst,
      length-append p (d ∷ dst),
    )

copy_page-eq :
    (src dst : List ℕ) (n : ℕ) → length src ≡ n → length dst ≡ n → copy_page n 0 src dst ≡ some src
copy_page-eq src dst n hs hd = copy_page-middle [] src dst 0 n refl hs hd

-- A trace whose page array has `slots` places of a page each.
pub record HasPages (places : ℕ) (t : Trace) : Type 0 where
  pub slots : List PageContentStore
  pub there : t.pages ≡ some slots
  pub size : length slots ≡ places
  pub filled : t.page_filled ≤ places
  pub whole :
      (i : ℕ) (s : PageContentStore) → get_elem? slots i ≡ some s → length s.content ≡ page_size

-- What `kmap` may return: nothing, or the bytes of a page.
abbrev pub IsMapping : Option (List ℕ) → Type 0
IsMapping none = Unit
IsMapping (some bytes) = length bytes ≡ page_size

save_page-none :
    (slots : List PageContentStore) (i v : ℕ) (s : PageContentStore)
    → get_elem? slots i ≡ some s
    → save_page slots i v none ≡ some (set slots i (record s { value = v }), i)
unfolding save_page
save_page-none slots i v s h = ground arith

save_page-some :
    (slots : List PageContentStore) (i v : ℕ) (s : PageContentStore) (bytes : List ℕ)
    → get_elem? slots i ≡ some s
    → length bytes ≡ page_size
    → length s.content ≡ page_size
    → save_page slots i v (some bytes)
      ≡ some (set slots i (record { value = v; content = bytes }), i + 1)
unfolding save_page
save_page-some slots i v s bytes h hb hs =
    rw (h, copy_page-eq bytes s.content page_size hb hs, save_page)

module _ {places : ℕ} {t : Trace} (h : HasPages places t) (room : t.page_filled < places) where
  -- The trace with one slot written, and `n` pages filled.
  HasPages-set :
      (s : PageContentStore) (n : ℕ)
      → length s.content ≡ page_size
      → n ≤ places
      → HasPages places (record t { pages = some (set h.slots t.page_filled s); page_filled = n })
  HasPages-set s n hs hn = record {
    slots = set h.slots t.page_filled s;
    there = refl;
    size = length-set h.slots t.page_filled s ∙ h.size;
    filled = hn;
    whole =
        λ i s' e. ground (arith, get_elem?-set h.slots t.page_filled i s, h.size, h.whole i s', e);
  }

  slot : (s : PageContentStore) × (get_elem? h.slots t.page_filled ≡ some s)
  slot = get_elem?-some h.slots t.page_filled (omega (arith, h.size))

  -- A save, whether or not the page could be mapped.
  pub save_page-HasPages :
      (v : ℕ) (kmapped : Option (List ℕ))
      → IsMapping kmapped
      → (slots' : List PageContentStore) × ((n : ℕ) × (save_page h.slots t.page_filled v kmapped
            ≡ some (slots', n))
          × HasPages places (record t { pages = some slots'; page_filled = n }))
  save_page-HasPages v none m =
      let (s, e) = slot in
      (
        set h.slots t.page_filled (record s { value = v }),
        (
          t.page_filled,
          save_page-none h.slots t.page_filled v s e,
          HasPages-set (record s { value = v }) t.page_filled (h.whole t.page_filled s e) h.filled,
        ),
      )
  save_page-HasPages v (some bytes) hb =
      let (s, e) = slot in
      (
        set h.slots t.page_filled (record { value = v; content = bytes }),
        (
          t.page_filled + 1,
          save_page-some h.slots t.page_filled v s bytes e hb (h.whole t.page_filled s e),
          HasPages-set (record { value = v; content = bytes }) (t.page_filled + 1) hb (omega arith),
        ),
      )

-- The trace after a save that could map the page.
abbrev pub saved : (slots : List PageContentStore) → Trace → ℕ → List ℕ → Trace
saved slots t v bytes = record t {
  pages = some (set slots t.page_filled (record { value = v; content = bytes }));
  page_filled = t.page_filled + 1;
}

module _ {t : Trace} (h : HasPages pages_in t) (v : ℕ) where
  -- At the end of a swap-in whose entry is a multiple of 100, while there is a free place, the value
  -- and the bytes of the mapped page are what the next place holds then, and the place is counted;
  -- the places before it and the rest of the trace stay as they were.
  pub leave_swap_in-saves :
      (bytes : List ℕ)
      → length bytes ≡ page_size
      → v % 100 ≡ 0
      → t.page_filled < pages_in
      → leave_swap_in v (some bytes) t ≡ some (saved h.slots t v bytes)
        × (let slots' = set h.slots t.page_filled (record { value = v; content = bytes }) in
            (k : ℕ)
            → k ≤ t.page_filled
            → get_elem? slots' k ≡ (
                if k == t.page_filled
                then some (record { value = v; content = bytes })
                else get_elem? h.slots k))
  unfolding leave_swap_in
  leave_swap_in-saves bytes hb hundred room =
      let (s, e) = slot h room in
      (
        ground (
          arith,
          h.there,
          save_page-some h.slots t.page_filled v s bytes e hb (h.whole t.page_filled s e),
        ),
        λ k hk. get_elem?-set h.slots t.page_filled k _ (omega (arith, h.size)),
      )

  leave_swap_in-skips :
      (kmapped : Option (List ℕ))
      → ((v % 100 == 0) && ltb t.page_filled pages_in) ≡ false
      → leave_swap_in v kmapped t ≡ some t
  unfolding leave_swap_in
  leave_swap_in-skips kmapped other = rw (other, leave_swap_in)

  leave_swap_in-taken :
      (kmapped : Option (List ℕ))
      → IsMapping kmapped
      → v % 100 ≡ 0
      → t.page_filled < pages_in
      → (t' : Trace) × (leave_swap_in v kmapped t ≡ some t') × HasPages pages_in t'
  unfolding leave_swap_in
  leave_swap_in-taken kmapped m hundred room =
      let (slots', (n, ok, h')) = save_page-HasPages h room v kmapped m in
      (record t { pages = some slots'; page_filled = n }, ground (arith, h.there, ok), h')

  -- At the end of a swap-in no access is bad, whatever the entry and whether or not the page could
  -- be mapped, and the array of saved pages keeps its size, its whole pages and its limit.
  pub leave_swap_in-HasPages :
      (kmapped : Option (List ℕ))
      → IsMapping kmapped
      → (t' : Trace) × (leave_swap_in v kmapped t ≡ some t') × HasPages pages_in t'
  leave_swap_in-HasPages kmapped m =
      elim (Bool-cases ((v % 100 == 0) && ltb t.page_filled pages_in)) [
        | inr other ↦ (t, leave_swap_in-skips kmapped other, h)
        | inl taken ↦ leave_swap_in-taken kmapped m (ground arith) (ground arith)
      ]
