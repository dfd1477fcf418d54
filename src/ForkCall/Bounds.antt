-- ===== src/ForkCall/Bounds.antt =====
-- How much memory SharedPageExperiment/forkCall.c needs.
use infiniband.Common.{
  ℕ, zero, suc, ◌+◌, ◌*◌, ◌≤◌, ◌<◌, ◌≡◌, refl, ◌∙◌, inl, inr, true, false, Option, none, some, List,
  leb, arith, length, ◌==◌, length-set, if◌then◌else◌, Bool-cases,
}
use infiniband.ForkCall.{put_int, child_process, parent_process, store_int, fill_ints, main}

length-put_int : (bs : List ℕ) (i v : ℕ) → length (put_int bs i v) ≡ length bs
length-put_int bs i v =
    length-set _ (4 * i + 3) _
    ∙ length-set _ (4 * i + 2) _
    ∙ length-set _ (4 * i + 1) _
    ∙ length-set bs (4 * i) _

store_int-some :
    (bs : List ℕ) (i v : ℕ)
    → 4 * i + 4 ≤ length bs
    → (bs' : List ℕ) × (store_int bs i v ≡ some bs') × (length bs' ≡ length bs)
unfolding store_int
store_int-some bs i v h =
    let in_block : leb (4 * i + 4) (length bs) ≡ true = ground arith in
    (put_int bs i v, rw in_block refl, length-put_int bs i v)

store_int-none : (bs : List ℕ) (i v : ℕ) → length bs < 4 * i + 4 → store_int bs i v ≡ none
unfolding store_int
store_int-none bs i v h =
    let outside : leb (4 * i + 4) (length bs) ≡ false = ground arith in rw outside refl

fill_ints-some :
    (n i : ℕ) (bs : List ℕ)
    → 4 * (i + n) ≤ length bs
    → (bs' : List ℕ) × (fill_ints n i bs ≡ some bs')
unfolding fill_ints
fill_ints-some zero i bs h = (bs, refl)
fill_ints-some (suc n) i bs h =
    let (bs1, ok, len) = store_int-some bs i i (omega arith) in
    let (bs2, rest) = fill_ints-some n (i + 1) bs1 (omega arith) in (bs2, rw (ok, fill_ints) rest)

fill_ints-none :
    (n i : ℕ) (bs : List ℕ) → 4 * i ≤ length bs → length bs < 4 * (i + n) → fill_ints n i bs ≡ none
unfolding fill_ints
fill_ints-none zero i bs lo h = absurd (omega arith)
fill_ints-none (suc n) i bs lo h = elim (Bool-cases (leb (4 * i + 4) (length bs))) [
  | inl inside ↦
      let fits : 4 * i + 4 ≤ length bs = ground arith in
      let (bs1, ok, len) = store_int-some bs i i fits in
      rw (ok, fill_ints) (fill_ints-none n (i + 1) bs1 (omega (arith, len)) (omega (arith, len)))
  | inr outside ↦ rw (store_int-none bs i i (ground arith), fill_ints) refl
]

-- `main` writes 10000 ints of 4 bytes. If the block that `malloc(10000)` yields has 40000 bytes, it goes
-- on in the child where `fork` has returned 0, and in the parent elsewhere; if it has fewer, as a block
-- of just 10000 has, it writes outside of it, and does not reach `fork`.
pub main-bounds :
    (malloc : ℕ → Option (List ℕ)) (pid : ℕ) (bs : List ℕ)
    → malloc 10000 ≡ some bs
    → main malloc pid ≡ (
        if leb 40000 (length bs)
        then some (if pid == 0 then child_process else parent_process)
        else none)
unfolding main
main-bounds malloc pid bs got = elim (Bool-cases (leb 40000 (length bs))) [
  | inl large ↦
      let (bs', ok) = fill_ints-some 10000 0 bs (ground arith) in rw (got, ok, large, main) refl
  | inr small ↦
      let less : length bs < 40000 = ground arith in
      rw (got, fill_ints-none 10000 0 bs (omega arith) (omega arith), small, main) refl
]
