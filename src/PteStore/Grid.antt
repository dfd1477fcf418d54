-- ===== src/PteStore/Grid.antt =====
-- The rows as a grid of `n` rows of `m` numbers, where every write in range succeeds.
use infiniband.Common.{
  ℕ, zero, suc, ◌<◌, ◌≡◌, refl, ◌∙◌, none, some, List, [], ◌∷◌, ◌&&◌, ◌==◌, arith, length, set,
  get_elem?-set, length-set, if◌then◌else◌,
}
use infiniband.PteStore.{Row, write_rows, read_rows}

-- `n` rows, none of them null, of `m` numbers each.
abbrev pub IsGrid : ℕ → ℕ → List Row → Type 0
IsGrid n m [] = n ≡ 0
IsGrid n m (none ∷ rs) = ⊥
IsGrid n m (some xs ∷ rs) = (k : ℕ) × (n ≡ suc k) × (length xs ≡ m) × IsGrid k m rs

-- The rows after a write at `i`, `j`.
pub record Written (n m i j e : ℕ) (rows rows' : List Row) : Type 0 where
  pub grid : IsGrid n m rows'
  pub reads :
      (a b : ℕ)
      → read_rows rows' a b ≡ (if (a == i) && (b == j) then some e else read_rows rows a b)

reads_here :
    (xs : List ℕ) (rs : List Row) (j e : ℕ)
    → j < length xs
    → (a b : ℕ)
    → read_rows (some (set xs j e) ∷ rs) a b
      ≡ (if (a == 0) && (b == j) then some e else read_rows (some xs ∷ rs) a b)
unfolding read_rows
reads_here xs rs j e h zero b = ground (arith, get_elem?-set xs j b e h)
reads_here xs rs j e h (suc a) b = ground arith

reads_below :
    (r : Row) (rs rs' : List Row) (i j e : ℕ)
    → ((a b : ℕ) → read_rows rs' a b ≡ (if (a == i) && (b == j) then some e else read_rows rs a b))
    → (a b : ℕ)
    → read_rows (r ∷ rs') a b
      ≡ (if (a == suc i) && (b == j) then some e else read_rows (r ∷ rs) a b)
unfolding read_rows
reads_below r rs rs' i j e h zero b = ground arith
reads_below r rs rs' i j e h (suc a) b = ground (arith, h a b)

pub write_rows-Written :
    (n m : ℕ) (rows : List Row) (i j e : ℕ)
    → IsGrid n m rows
    → i < n
    → j < m
    → (rows' : List Row) × (write_rows rows i j e ≡ some rows') × Written n m i j e rows rows'
unfolding write_rows read_rows
write_rows-Written n m [] i j e g hi hj = absurd (omega arith)
write_rows-Written n m (none ∷ rs) i j e g hi hj = absurd g
write_rows-Written n m (some xs ∷ rs) zero j e (k, en, em, g) hi hj = (
  some (set xs j e) ∷ rs,
  ground arith,
  record { grid = (k, en, length-set xs j e ∙ em, g); reads = reads_here xs rs j e (omega arith) },
)
write_rows-Written n m (some xs ∷ rs) (suc i) j e (k, en, em, g) hi hj =
    let (rs', ok, w) = write_rows-Written k m rs i j e g (omega arith) hj in
    (
      some xs ∷ rs',
      rw ok,
      record { grid = (k, en, em, w.grid); reads = reads_below (some xs) rs rs' i j e w.reads },
    )

-- Beyond the last row there is nothing to write to.
pub write_rows-none :
    (n m : ℕ) (rows : List Row) (i j e : ℕ) → IsGrid n m rows → i ≡ n → write_rows rows i j e ≡ none
unfolding write_rows
write_rows-none n m [] i j e g h = refl
write_rows-none n m (none ∷ rs) i j e g h = absurd g
write_rows-none n m (some xs ∷ rs) zero j e (k, en, em, g) h = absurd (omega arith)
write_rows-none n m (some xs ∷ rs) (suc i) j e (k, en, em, g) h =
    rw (write_rows-none k m rs i j e g (omega arith))
