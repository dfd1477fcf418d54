-- ===== src/ForkCall.antt =====
-- SharedPageExperiment/forkCall.c: a program that fills some memory and forks, to be observed.
pub mod Bounds
use infiniband.Common.{
  ℕ, zero, suc, ◌+◌, ◌*◌, ◌/◌, ◌%◌, ◌^◌, Option, none, some, List, leb, ◌==◌, length, set,
  if◌then◌else◌,
}

-- The four bytes of an int, little-endian.
abbrev put_int : List ℕ → ℕ → ℕ → List ℕ
put_int bs i v =
    set
      (set (set (set bs (4 * i) (v % 256)) (4 * i + 1) (v / 2 ^ 8 % 256)) (4 * i + 2)
        (v / 2 ^ 16 % 256))
      (4 * i + 3) (v / 2 ^ 24 % 256)

-- `a[i] = v` on the bytes behind an int pointer; `none` outside of them.
unfoldable pub store_int : List ℕ → ℕ → ℕ → Option (List ℕ)
store_int bs i v = if leb (4 * i + 4) (length bs) then some (put_int bs i v) else none

-- `for (…; i < 10000; ++i) a[i] = i;` with `n` rounds left.
unfoldable pub fill_ints : ℕ → ℕ → List ℕ → Option (List ℕ)
unfolding store_int
fill_ints zero i bs = some bs
fill_ints (suc n) i bs = elim (store_int bs i i) [
  | none ↦ none
  | some bs' ↦ fill_ints n (i + 1) bs'
]

-- Which of `ChildProcess` and `ParentProcess` goes on, to print its process id and sleep.
pub data Process : Type 0 where
  child_process parent_process : Process

abbrev pub process_of : ℕ → Process
process_of pid = if pid == 0 then child_process else parent_process

-- `main`, where `malloc` yields NULL or the bytes of a block, and `pid` is what `fork` returns.
unfoldable pub main : (ℕ → Option (List ℕ)) → ℕ → Option Process
unfolding fill_ints
main malloc pid = elim (malloc 10000) [
  | none ↦ none
  | some bs ↦ elim (fill_ints 10000 0 bs) [ none ↦ none | some filled ↦ some (process_of pid) ]
]
