-- ===== src/HeapSwap/Bytes.antt =====
-- The loop over the bytes exchanges two frames.
use infiniband.Common.{ℕ, zero, suc, ◌≡◌, arith, ltb, inl, inr, Bool-cases, ◌==◌, if◌then◌else◌}
use infiniband.HeapSwap.{swap_byte, swap_bytes}

swap_byte-eq :
    (f g j : ℕ) (mem : ℕ → ℕ → ℕ) (f' k : ℕ)
    → swap_byte f g j mem f' k ≡ (
        if k == j
        then (if f' == f then mem g k else if f' == g then mem f k else mem f' k)
        else mem f' k)
unfolding swap_byte
swap_byte-eq f g j mem f' k = ground arith

-- The bytes of `mem` with the first n of the frames f and g exchanged.
abbrev pub exchanged : ℕ → ℕ → ℕ → (ℕ → ℕ → ℕ) → ℕ → ℕ → ℕ
exchanged f g n mem f' k =
    if ltb k n
    then (if f' == f then mem g k else if f' == g then mem f k else mem f' k)
    else mem f' k

-- One more round, on a memory whose first n bytes are exchanged.
exchanged-suc :
    (f g n : ℕ) (mem mem' : ℕ → ℕ → ℕ) (f' k : ℕ)
    → mem' f' k ≡ exchanged f g n mem f' k
    → mem' f k ≡ exchanged f g n mem f k
    → mem' g k ≡ exchanged f g n mem g k
    → swap_byte f g n mem' f' k ≡ exchanged f g (suc n) mem f' k
exchanged-suc f g n mem mem' f' k h hf hg = elim (Bool-cases (k == n)) [
  | inl here ↦ ground (arith, swap_byte-eq f g n mem' f' k)
  | inr other ↦ rw (swap_byte-eq f g n mem' f' k, other, h) (ground arith)
]

-- After n rounds the first n bytes of the frames f and g are exchanged, also if f is g, and no other
-- byte has changed.
pub swap_bytes-eq :
    (f g n : ℕ) (mem : ℕ → ℕ → ℕ) (f' k : ℕ)
    → swap_bytes f g n mem f' k ≡ (
        if ltb k n
        then (if f' == f then mem g k else if f' == g then mem f k else mem f' k)
        else mem f' k)
unfolding swap_bytes
swap_bytes-eq f g zero mem f' k = ground arith
swap_bytes-eq f g (suc n) mem f' k =
    exchanged-suc f g n mem (swap_bytes f g n mem) f' k (swap_bytes-eq f g n mem f' k)
      (swap_bytes-eq f g n mem f k) (swap_bytes-eq f g n mem g k)
