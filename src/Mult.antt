-- ===== src/Mult.antt =====
-- heap copy/mult.c: a program with two ints on its heap, to be observed.
use infiniband.Common.{ℕ, ◌+◌, ◌%◌, ◌^◌, Option, none, some, List, get_elem?}

-- An int that `malloc` has given room for; none where it has yielded NULL.
abbrev Cell : Type 0
Cell = Option ℕ

-- `*a = v`
abbrev store : Cell → ℕ → Option ℕ
store none v = none
store (some old) v = some v

-- What `main` prints: the process id, and the process id with the sum. An argument that is missing is
-- a null pointer, which `atoi` reads through. The sum of two ints wraps.
pub record Printed : Type 0 where
  pub first_pid : ℕ
  pub second_pid : ℕ
  pub result : ℕ

-- The two cells hold the argument each.
abbrev add : Option ℕ → Option ℕ → Option ℕ
add (some x) (some y) = some ((x + y) % 2 ^ 32)
add _ _ = none

abbrev printed : ℕ → Option ℕ → Option Printed
printed pid none = none
printed pid (some n) = some (record { first_pid = pid; second_pid = pid; result = n })

-- `main` with its process id, the two cells and the arguments.
unfoldable pub main : (List ℕ → ℕ) → ℕ → Cell → Cell → List (List ℕ) → Option Printed
main atoi pid a b argv = elim (get_elem? argv 1) [
  | none ↦ none
  | some text ↦ printed pid (add (store a (atoi text)) (store b (atoi text)))
]
