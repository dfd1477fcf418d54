-- ===== src/PteCompare/Matches.antt =====
-- The search for a page of equal contents in SharedPageExperiment/pteExp.c: what a match means, and
-- what keeps it from being found.
use infiniband.Common.{
  ℕ, zero, suc, ◌+◌, ◌≤◌, ◌<◌, ◌≡◌, ◌≢◌, refl, ◌∙◌, inl, inr, Bool, true, false, some, List, ◌==◌,
  arith, get_elem?, Bool-cases, Option-cases, ==_iff, if◌then◌else◌,
}
use native.Mathlib.Decide.{dec_lt}
use infiniband.SwapTrace.{PageContentStore}
use infiniband.PteCompare.{compare_pages, match_out, match_in}

-- The bytes from `j` on, `n` of them, are there and equal.
abbrev pub SameBytes : ℕ → ℕ → List ℕ → List ℕ → Type 0
SameBytes n j xs ys =
    (x : ℕ) → j ≤ x → x < j + n → (b : ℕ) × (get_elem? xs x ≡ some b) × (get_elem? ys x ≡ some b)

compare_pages-SameBytes :
    (n j : ℕ) (xs ys : List ℕ) (d : Bool)
    → compare_pages n j xs ys d ≡ some true
    → (d ≡ true) × SameBytes n j xs ys
unfolding compare_pages
compare_pages-SameBytes zero j xs ys d e = (ground (arith, e), λ x lo hi. absurd (omega arith))
compare_pages-SameBytes (suc n) j xs ys d e = elim (Option-cases (get_elem? xs j)) [
  | inl ex ↦ absurd (ground (arith, ex, e))
  | inr (x, ex) ↦ elim (Option-cases (get_elem? ys j)) [
    | inl ey ↦ absurd (ground (arith, ex, ey, e))
    | inr (y, ey) ↦
        let e' : compare_pages n (j + 1) xs ys (if x == y then d else false) ≡ some true =
          rw (compare_pages, ex, ey) at e in
        let (on, rest) = compare_pages-SameBytes n (j + 1) xs ys _ e' in
        let same : x ≡ y = ground arith in
        (
          ground arith,
          λ k lo hi. elim (dec_lt j k) [
            | yes later ↦ rest k (omega arith) (omega arith)
            | no now ↦ let here : k ≡ j = omega arith in rw here (x, ex, ey ∙ rw same refl)
          ],
        )
  ]
]

-- Equal bytes leave the decision as it was.
pub compare_pages-same :
    (n j : ℕ) (xs ys : List ℕ) (d : Bool) → SameBytes n j xs ys → compare_pages n j xs ys d ≡ some d
unfolding compare_pages
compare_pages-same zero j xs ys d same = refl
compare_pages-same (suc n) j xs ys d same =
    let (b, ex, ey) = same j (omega arith) (omega arith) in
    let equal : (b == b) ≡ true = ground arith in
    rw (ex, ey, equal, compare_pages)
      (compare_pages-same n (j + 1) xs ys d (λ x lo hi. same x (omega arith) (omega arith)))

-- The place `k` has the value of `page` and the same bytes.
abbrev pub IsMatch : List PageContentStore → PageContentStore → ℕ → Type 0
IsMatch out page k =
    (other : PageContentStore) × (get_elem? out k ≡ some other)
    × (other.value ≡ page.value)
    × SameBytes 4096 0 other.content page.content

match_out-IsMatch :
    (out : List PageContentStore) (page : PageContentStore) (n k : ℕ) (d : Bool)
    → match_out out page n k d ≡ some true
    → (d ≡ true) × ((m : ℕ) × (m < k + n) × IsMatch out page m)
unfolding match_out
match_out-IsMatch out page zero k d e = absurd (ground (arith, e))
match_out-IsMatch out page (suc n) k d e = elim (Option-cases (get_elem? out k)) [
  | inl none_there ↦ absurd (ground (arith, none_there, e))
  | inr (other, there) ↦ elim (Bool-cases (other.value == page.value)) [
    | inr differ ↦
        let (on, (m, lt, is)) =
          match_out-IsMatch out page n (k + 1) d (rw (match_out, there, differ) at e) in
        (on, (m, omega arith, is))
    | inl same ↦ elim (Option-cases (compare_pages 4096 0 other.content page.content d)) [
      | inl bad ↦ absurd (ground (arith, rw (match_out, there, same, bad) at e))
      | inr (found, c) ↦ elim (Bool-cases found) [
        | inl yes_found ↦
            let (on, bytes) =
              compare_pages-SameBytes 4096 0 other.content page.content d (c ∙ rw yes_found refl) in
            (on, (k, omega arith, (other, there, (==_iff other.value page.value).0 same, bytes)))
        | inr no_found ↦
            let (on, rest) =
              match_out-IsMatch out page n (k + 1) false
                (rw (match_out, there, same, c, no_found) at e) in
            absurd (ground (arith, on))
      ]
    ]
  ]
]

-- Where the search reports a match, some saved page of the way in and some place of the array of the way
-- out, be it filled or not, have the same value and the same 4096 bytes.
pub match_in-IsMatch :
    (out inn : List PageContentStore) (n i : ℕ)
    → match_in out inn n i ≡ some true
    → (j : ℕ) × (i ≤ j)
      × (j < i + n)
      × ((page : PageContentStore) × (get_elem? inn j ≡ some page)
          × ((k : ℕ) × (k < 1000) × IsMatch out page k))
unfolding match_in
match_in-IsMatch out inn zero i e = absurd (ground (arith, e))
match_in-IsMatch out inn (suc n) i e = elim (Option-cases (get_elem? inn i)) [
  | inl none_there ↦ absurd (ground (arith, none_there, e))
  | inr (page, there) ↦ elim (Option-cases (match_out out page 1000 0 true)) [
    | inl bad ↦ absurd (ground (arith, rw (match_in, there, bad) at e))
    | inr (found, c) ↦ elim (Bool-cases found) [
      | inl yes_found ↦
          let (on, (k, lt, is)) = match_out-IsMatch out page 1000 0 true (c ∙ rw yes_found refl) in
          (i, omega arith, omega arith, (page, there, (k, omega arith, is)))
      | inr no_found ↦
          let (j, lo, hi, rest) =
            match_in-IsMatch out inn n (i + 1) (rw (match_in, there, c, no_found) at e) in
          (j, omega arith, omega arith, rest)
    ]
  ]
]

-- After one place with the value of the page and another byte somewhere, no match is reported for the
-- page, whatever the places behind it hold.
pub match_out-blocked :
    (out : List PageContentStore) (page other : PageContentStore) (n k x b c : ℕ)
    → get_elem? out k ≡ some other
    → other.value ≡ page.value
    → x < 4096
    → get_elem? other.content x ≡ some b
    → get_elem? page.content x ≡ some c
    → b ≢ c
    → match_out out page (suc n) k true ≢ some true
unfolding match_out
match_out-blocked out page other n k x b c there same hx hb hc differ e =
    let equal : (other.value == page.value) ≡ true = (==_iff other.value page.value).1 same in
    elim (Option-cases (compare_pages 4096 0 other.content page.content true)) [
      | inl bad ↦ absurd (ground (arith, rw (match_out, there, equal, bad) at e))
      | inr (found, r) ↦ elim (Bool-cases found) [
        | inl yes_found ↦
            let (on, bytes) =
              compare_pages-SameBytes 4096 0 other.content page.content true
                (r ∙ rw yes_found refl) in
            let (v, one, two) = bytes x (omega arith) (omega arith) in
            ground (arith, one, two, hb, hc, differ)
        | inr no_found ↦
            let (on, rest) =
              match_out-IsMatch out page n (k + 1) false
                (rw (match_out, there, equal, r, no_found) at e) in
            absurd (ground (arith, on))
      ]
    ]
