-- ===== src/Ib/Buffer.antt =====
-- Bytes put at the start of the buffer, and the string that it then holds.
use infiniband.Common.{
  ℕ, zero, suc, ◌≤◌, ◌≡◌, refl, ap, ◌∙◌, ◌+◌, sym, inl, inr, none, some, List, [], ◌∷◌, ◌++◌, arith,
  length, drop, length-append, Option-cases,
}
use infiniband.Ib.Steps.{strlen, HasString}
use infiniband.Ib.Events.{store_bytes}

-- Bytes that fit stand at the start, with the rest of the block behind them.
pub store_bytes-eq :
    (bs block : List ℕ)
    → length bs ≤ length block
    → store_bytes bs block ≡ some (bs ++ drop (length bs) block)
unfolding store_bytes
store_bytes-eq [] block h = refl
store_bytes-eq (b ∷ bs) [] h = absurd (omega arith)
store_bytes-eq (b ∷ bs) (x ∷ block) h = rw (store_bytes-eq bs block (omega arith), store_bytes) refl

length-drop : (block : List ℕ) (n : ℕ) → n ≤ length block → n + length (drop n block) ≡ length block
length-drop block zero h = omega arith
length-drop [] (suc n) h = absurd (omega arith)
length-drop (x ∷ block) (suc n) h = omega (arith, length-drop block n (omega arith))

pub length-stored :
    (bs block : List ℕ)
    → length bs ≤ length block
    → length (bs ++ drop (length bs) block) ≡ length block
length-stored bs block h =
    omega (arith, length-append bs (drop (length bs) block), length-drop block (length bs) h)

-- Bytes that run over the end do not fit.
pub store_bytes-length :
    (bs block d : List ℕ) → store_bytes bs block ≡ some d → length bs ≤ length block
unfolding store_bytes
store_bytes-length [] block d e = omega arith
store_bytes-length (b ∷ bs) [] d e = absurd (ground (arith, e))
store_bytes-length (b ∷ bs) (x ∷ block) d e = elim (Option-cases (store_bytes bs block)) [
  | inl n ↦ absurd (ground (arith, rw (n, store_bytes) at e))
  | inr (rest, r) ↦ omega (arith, store_bytes-length bs block rest r)
]

-- A string stays one, whatever stands behind it.
pub strlen-append : (bs cs : List ℕ) (n : ℕ) → strlen bs ≡ some n → strlen (bs ++ cs) ≡ some n
unfolding strlen
strlen-append [] cs n e = absurd (ground (arith, e))
strlen-append (zero ∷ bs) cs n e = e
strlen-append (suc b ∷ bs) cs n e = elim (Option-cases (strlen bs)) [
  | inl r ↦ absurd (ground (arith, rw (r, strlen) at e))
  | inr (k, r) ↦ rw (strlen-append bs cs k r, strlen) (rw (r, strlen) at e)
]

-- What a read leaves in the buffer.
pub stored-HasString :
    (bs block d : List ℕ)
    → store_bytes bs block ≡ some d
    → HasString bs
    → (length d ≡ length block) × HasString d
stored-HasString bs block d e (n, text) =
    let fits = store_bytes-length bs block d e in
    let same : d ≡ bs ++ drop (length bs) block =
      ap (λ o. elim o [ none ↦ d | some a ↦ a ]) ((sym e) ∙ store_bytes-eq bs block fits) in
    rw same (length-stored bs block fits, (n, strlen-append bs (drop (length bs) block) n text))
