-- ===== src/Client/Text.antt =====
-- The text that the client of client/megaVM_client.c puts into its buffer, in closed form.
use mathlib.Core.Path.{subst}
use infiniband.Common.{
  ℕ, zero, suc, ◌+◌, ◌-◌, ◌%◌, ◌≡◌, refl, ap, ◌∙◌, sym, inl, inr, ◌≤◌, ◌<◌, true, false, Option,
  none, some, List, [], ◌∷◌, ◌++◌, ltb, arith, length, Bool-cases, Option-cases,
}
use infiniband.Ib.Steps.{strlen}
use infiniband.Client.Ping.{store_byte, greeting, put_text, next_char, fill, write_ping}

-- `n` of the 58 characters from 'A' to 'z', in turn, from the `k`-th on.
abbrev pub alphabet : ℕ → ℕ → List ℕ
alphabet zero k = []
alphabet (suc n) k = suc (64 + k % 58) ∷ alphabet n (k + 1)

-- The text of a ping: the greeting, letters, and a NUL in the last of `size` bytes.
abbrev pub ping_text : ℕ → List ℕ
ping_text size = greeting ++ alphabet (size - 14) 0 ++ 0 ∷ []

abbrev onto : ℕ → Option (List ℕ) → Option (List ℕ)
onto x none = none
onto x (some bs) = some (x ∷ bs)

store_byte-cons :
    (x : ℕ) (bs : List ℕ) (i b : ℕ) → store_byte (x ∷ bs) (suc i) b ≡ onto x (store_byte bs i b)
unfolding store_byte
store_byte-cons x bs i b = elim (Bool-cases (ltb i (length bs))) [
  | inl e ↦ let e' : ltb (suc i) (suc (length bs)) ≡ true = ground arith in rw (e, e') refl
  | inr e ↦ let e' : ltb (suc i) (suc (length bs)) ≡ false = ground arith in rw (e, e') refl
]

put_text-cons :
    (text : List ℕ) (x : ℕ) (bs : List ℕ) (i : ℕ)
    → put_text text (x ∷ bs) (suc i) ≡ onto x (put_text text bs i)
unfolding put_text
put_text-cons [] x bs i = store_byte-cons x bs i 0
put_text-cons (b ∷ text) x bs i =
    let z : suc i + 1 ≡ suc (i + 1) = omega arith in
    rw (put_text, store_byte-cons x bs i b)
      (elim (Option-cases (store_byte bs i b)) [
        | inl e ↦ rw (put_text, e) refl
        | inr (bs', e) ↦ rw (put_text, e, z) (put_text-cons text x bs' (i + 1))
      ])

fill-cons : (n x : ℕ) (bs : List ℕ) (i c : ℕ) → fill n (x ∷ bs) (suc i) c ≡ onto x (fill n bs i c)
unfolding fill
fill-cons zero x bs i c = refl
fill-cons (suc n) x bs i c =
    let z : suc i + 1 ≡ suc (i + 1) = omega arith in
    rw (fill, store_byte-cons x bs i c)
      (elim (Option-cases (store_byte bs i c)) [
        | inl e ↦ rw (fill, e) refl
        | inr (bs', e) ↦ rw (fill, e, z) (fill-cons n x bs' (i + 1) (next_char c))
      ])

-- The same behind a whole list.
abbrev behind : List ℕ → Option (List ℕ) → Option (List ℕ)
behind pre none = none
behind pre (some bs) = some (pre ++ bs)

store_byte-behind :
    (pre bs : List ℕ) (i b : ℕ)
    → store_byte (pre ++ bs) (length pre + i) b ≡ behind pre (store_byte bs i b)
store_byte-behind [] bs i b =
    let z : 0 + i ≡ i = omega arith in
    rw z (elim (Option-cases (store_byte bs i b)) [ inl e ↦ rw e refl | inr (x, e) ↦ rw e refl ])
store_byte-behind (p ∷ pre) bs i b =
    let z : suc (length pre) + i ≡ suc (length pre + i) = omega arith in
    rw (z, store_byte-cons p (pre ++ bs) (length pre + i) b, store_byte-behind pre bs i b)
      (elim (Option-cases (store_byte bs i b)) [ inl e ↦ rw e refl | inr (x, e) ↦ rw e refl ])

fill-behind :
    (n : ℕ) (pre bs : List ℕ) (i c : ℕ)
    → fill n (pre ++ bs) (length pre + i) c ≡ behind pre (fill n bs i c)
fill-behind n [] bs i c =
    let z : 0 + i ≡ i = omega arith in
    rw z (elim (Option-cases (fill n bs i c)) [ inl e ↦ rw e refl | inr (x, e) ↦ rw e refl ])
fill-behind n (p ∷ pre) bs i c =
    let z : suc (length pre) + i ≡ suc (length pre + i) = omega arith in
    rw (z, fill-cons n p (pre ++ bs) (length pre + i) c, fill-behind n pre bs i c)
      (elim (Option-cases (fill n bs i c)) [ inl e ↦ rw e refl | inr (x, e) ↦ rw e refl ])

store_byte-first : (x : ℕ) (bs : List ℕ) (b : ℕ) → store_byte (x ∷ bs) 0 b ≡ some (b ∷ bs)
unfolding store_byte
store_byte-first x bs b = let e : ltb 0 (suc (length bs)) ≡ true = ground arith in rw e refl

put_text-start :
    (text bs : List ℕ)
    → length text < length bs
    → (rest : List ℕ) × (length rest + length text + 1 ≡ length bs)
      × (put_text text bs 0 ≡ some (text ++ 0 ∷ rest))
unfolding put_text
put_text-start text [] h = absurd (omega arith)
put_text-start [] (x ∷ bs) h = (bs, omega arith, store_byte-first x bs 0)
put_text-start (b ∷ text) (x ∷ bs) h =
    let (rest, el, e) = put_text-start text bs (omega arith) in
    (rest, omega arith, rw (put_text, store_byte-first x bs b, put_text-cons text b bs 0, e) refl)

next_char-letter : (k : ℕ) → next_char (suc (64 + k % 58)) ≡ suc (64 + (k + 1) % 58)
unfolding next_char
next_char-letter k = elim (Bool-cases (ltb 122 ((suc (64 + k % 58) + 1) % 256))) [
  | inl e ↦ rw e (ground arith)
  | inr e ↦ rw e (ground arith)
]

fill-letters :
    (n : ℕ) (bs : List ℕ) (k : ℕ)
    → length bs ≡ n
    → fill n bs 0 (suc (64 + k % 58)) ≡ some (alphabet n k)
unfolding fill
fill-letters zero [] k e = refl
fill-letters zero (x ∷ bs) k e = absurd (omega arith)
fill-letters (suc n) [] k e = absurd (omega arith)
fill-letters (suc n) (x ∷ bs) k e =
    rw
      (
        fill,
        store_byte-first x bs (suc (64 + k % 58)),
        fill-cons n (suc (64 + k % 58)) bs 0 (next_char (suc (64 + k % 58))),
        next_char-letter k,
        fill-letters n bs (k + 1) (omega arith),
      )
      refl

store_byte-last : (n k : ℕ) → store_byte (alphabet (suc n) k) n 0 ≡ some (alphabet n k ++ 0 ∷ [])
store_byte-last zero k = store_byte-first _ [] 0
store_byte-last (suc n) k =
    store_byte-cons (suc (64 + k % 58)) (alphabet (suc n) (k + 1)) n 0
    ∙ rw (store_byte-last n (k + 1)) refl

strlen-alphabet : (n k : ℕ) → strlen (alphabet n k ++ 0 ∷ []) ≡ some n
unfolding strlen
strlen-alphabet zero k = refl
strlen-alphabet (suc n) k = rw (strlen-alphabet n (k + 1)) refl

write_ping-run :
    (m : ℕ) (bs : List ℕ)
    → length bs ≡ 14 + m
    → write_ping (14 + m) bs ≡ some (greeting ++ alphabet m 0 ++ 0 ∷ [])
unfolding write_ping
write_ping-run m bs el =
    let (rest, er, ep) = put_text-start greeting bs (omega arith) in
    let rounds : (14 + m) - 13 ≡ suc m = omega arith in
    let last : (14 + m) - 1 ≡ 13 + m = omega arith in
    rw
      (
        write_ping,
        ep,
        rounds,
        fill-behind (suc m) greeting (0 ∷ rest) 0 65,
        fill-letters (suc m) (0 ∷ rest) 0 (omega arith),
        last,
        store_byte-behind greeting (alphabet (suc m) 0) m 0,
        store_byte-last m 0,
      )
      refl

strlen-ping : (m : ℕ) → strlen (greeting ++ alphabet m 0 ++ 0 ∷ []) ≡ some (13 + m)
unfolding strlen
strlen-ping m = rw (strlen, strlen-alphabet m 0) (ap some (omega arith))

-- Into a buffer of at least 14 bytes, whatever it holds, the client writes the greeting, the letters
-- and a NUL in the last byte; no write falls outside of it, and `strlen` of it is its size less 1.
pub write_ping-text :
    (size : ℕ) (bs : List ℕ)
    → length bs ≡ size
    → 14 ≤ size
    → (write_ping size bs ≡ some (ping_text size)) × (strlen (ping_text size) ≡ some (size - 1))
write_ping-text size bs el h =
    let split : size ≡ 14 + (size - 14) = omega arith in
    (
      subst (λ n. write_ping n bs ≡ some (ping_text size)) (sym split)
          (write_ping-run (size - 14) bs (el ∙ split)),
      strlen-ping (size - 14) ∙ ap some (omega arith),
    )
