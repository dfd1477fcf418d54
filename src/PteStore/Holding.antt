-- ===== src/PteStore/Holding.antt =====
-- A store that holds a sequence: `addInArray` appends one element, until the last row is full.
use mathlib.Core.List.{append-nil}
use native.Mathlib.Decide.{dec_lt}
use infiniband.Common.{
  ℕ, zero, suc, ◌+◌, ◌*◌, ◌≤◌, ◌<◌, ◌≡◌, refl, inl, inr, true, none, some, List, [], ◌∷◌, ◌++◌,
  ◌==◌, arith, ltb, length, get_elem?, length-append, if◌then◌else◌, Bool-cases, ltb→lt, lt→ltb, ap,
  false,
}
use infiniband.PteStore.{Row, Store, write_at, read_rows, write_rows, add_in_array}
use infiniband.PteStore.Grid.{IsGrid, write_rows-Written, write_rows-none}

get_elem?-append :
    (xs : List ℕ) (e k : ℕ)
    → get_elem? (xs ++ e ∷ []) k ≡ (if k == length xs then some e else get_elem? xs k)
get_elem?-append [] e zero = refl
get_elem?-append [] e (suc k) = ground arith
get_elem?-append (x ∷ xs) e zero = ground arith
get_elem?-append (x ∷ xs) e (suc k) = ground (arith, get_elem?-append xs e k)

rows-le : (m a b : ℕ) → a ≤ b → a * m ≤ b * m
rows-le m a b h = grind arith

pub row-lt : (m a b : ℕ) → a < b → a * m + m ≤ b * m
row-lt m a b h = omega (arith, rows-le m (a + 1) b (omega arith))

positive : (n m : ℕ) {k : ℕ} → k < n * m → 0 < m
positive n zero h = absurd (omega arith)
positive n (suc m) h = omega arith

-- Two cells of a grid with `m` columns have different numbers.
cell_number : (m i j a b : ℕ) → j < m → b < m → i * m + j ≡ a * m + b → (i ≡ a) × (j ≡ b)
cell_number m i j a b hj hb h = elim (dec_lt i a) [
  | yes lt ↦ absurd (omega (arith, row-lt m i a lt))
  | no ge ↦ elim (dec_lt a i) [
    | yes lt ↦ absurd (omega (arith, row-lt m a i lt))
    | no le ↦ let e : i ≡ a = omega arith in (e, omega (arith, ap (λ (t : ℕ). t * m) e))
  ]
]

-- `st` holds the sequence `xs`, row after row, and its counters stand behind the last element.
pub record Holds (n m : ℕ) (st : Store) (xs : List ℕ) : Type 0 where
  pub rows : List Row
  pub there : st.my_ptes ≡ some rows
  pub grid : IsGrid n m rows
  pub column : st.next_index ≤ m
  pub started : st.next_index ≡ 0 → st.current_array ≡ 0
  pub count : length xs ≡ st.current_array * m + st.next_index
  pub reads :
      (i j : ℕ) → j < m → i * m + j < length xs → read_rows rows i j ≡ get_elem? xs (i * m + j)

write_at-eq :
    (st : Store) (rows rows' : List Row) (i j e : ℕ)
    → st.my_ptes ≡ some rows
    → write_rows rows i j e ≡ some rows'
    → write_at st i j e
      ≡ some (record { my_ptes = some rows'; current_array = i; next_index = j + 1 })
unfolding write_at
write_at-eq st rows rows' i j e h k = ground arith

write_at-none :
    (st : Store) (rows : List Row) (i j e : ℕ)
    → st.my_ptes ≡ some rows
    → write_rows rows i j e ≡ none
    → write_at st i j e ≡ none
unfolding write_at
write_at-none st rows i j e h k = ground arith

module _ (n m : ℕ) {st : Store} {xs : List ℕ} (h : Holds n m st xs) where
  -- A write behind the last element.
  write_at-Holds :
      (i j e : ℕ)
      → i < n
      → j < m
      → length xs ≡ i * m + j
      → (st' : Store) × (write_at st i j e ≡ some st') × Holds n m st' (xs ++ e ∷ [])
  write_at-Holds i j e hi hj pos =
      let (rows', ok, w) = write_rows-Written n m h.rows i j e h.grid hi hj in
      (
        record { my_ptes = some rows'; current_array = i; next_index = j + 1 },
        write_at-eq st h.rows rows' i j e h.there ok,
        record {
          rows = rows';
          there = refl;
          grid = w.grid;
          column = omega arith;
          started = λ z. absurd (omega arith);
          count = omega (arith, length-append xs (e ∷ []));
          reads = λ a b hb lt. ground (
            arith,
            w.reads a b,
            get_elem?-append xs e (a * m + b),
            h.reads a b,
            length-append xs (e ∷ []),
            cell_number m a b i j,
            pos,
          );
        },
      )

  current-lt : length xs < n * m → st.current_array < n
  current-lt room = elim (dec_lt st.current_array n) [
    | yes lt ↦ lt
    | no ge ↦ absurd (omega (arith, h.count, rows-le m n st.current_array (omega arith)))
  ]

  module _ (row_full : ltb st.next_index m ≡ false) where
    next-eq : st.next_index ≡ m
    next-eq = ground (arith, h.column)

    position : length xs ≡ (st.current_array + 1) * m + 0
    position = omega (arith, h.count, next-eq)

    below : length xs < n * m → st.current_array + 1 < n
    below room = elim (dec_lt (st.current_array + 1) n) [
      | yes lt ↦ lt
      | no ge ↦ absurd (omega (arith, position, rows-le m n (st.current_array + 1) (omega arith)))
    ]

  -- `addInArray` appends while there is room.
  pub add_in_array-append :
      (e : ℕ)
      → length xs < n * m
      → (st' : Store) × (add_in_array n m e st ≡ some st') × Holds n m st' (xs ++ e ∷ [])
  unfolding add_in_array
  add_in_array-append e room = elim (Bool-cases (ltb st.next_index m)) [
    | inl in_row ↦
        rw (inside, in_row)
          (write_at-Holds st.current_array st.next_index e (ltb→lt _ _ inside) (ltb→lt _ _ in_row)
            h.count)
    | inr row_full ↦
        rw (inside, row_full)
          (write_at-Holds (st.current_array + 1) 0 e (below row_full room) (positive n m room)
            (position row_full))
  ]
    where
      inside : ltb st.current_array n ≡ true
      inside = lt→ltb _ _ (current-lt room)

  -- The counters of a full store: at the end of the last row.
  full-counters :
      0 < n → 0 < m → length xs ≡ n * m → (st.current_array + 1 ≡ n) × (st.next_index ≡ m)
  full-counters hn hm full = elim (dec_lt st.current_array n) [
    | no ge ↦ absurd (omega (arith, h.count, h.started, rows-le m n st.current_array (omega arith)))
    | yes lt ↦ elim (dec_lt (st.current_array + 1) n) [
      | yes more ↦ absurd (omega (arith, h.count, h.column, row-lt m (st.current_array + 1) n more))
      | no last ↦
          let e : st.current_array + 1 ≡ n = omega arith in
          (e, omega (arith, h.count, ap (λ (t : ℕ). t * m) e))
    ]
  ]

  -- A store that is full takes the next element beyond its last row.
  pub add_in_array-overflow :
      (e : ℕ) → 0 < n → 0 < m → length xs ≡ n * m → add_in_array n m e st ≡ none
  unfolding add_in_array
  add_in_array-overflow e hn hm full =
      let (last, over) = full-counters hn hm full in
      ground (
        arith,
        write_at-none st h.rows (st.current_array + 1) 0 e h.there
            (write_rows-none n m h.rows (st.current_array + 1) 0 e h.grid last),
      )

  pub Holds-append-nil : Holds n m st (xs ++ [])
  Holds-append-nil = rw append-nil h
