-- ===== src/Graph/Edges.antt =====
-- The cells of a matrix after a write, and after the loops that mirror the lower triangle.
use native.Mathlib.Decide.{ℕ_discrete}
use quick_cmake.Prelude.{
  ℕ, zero, suc, ◌+◌, ◌<◌, ◌≡◌, refl, sym, ap, ◌∙◌, true, false, ◌&&◌, [], length, get_or, set,
  length-set, get_or-set, leb, ltb, ◌==◌, ℤ, if◌then◌else◌, arith,
}
use quick_cmake.Graph.{dummy_value, Matrix, cell, write, mirror_row, mirror}

pub record IsSquare (n : ℕ) (m : Matrix) : Type 0 where
  pub rows : length m ≡ n
  pub row : (i : ℕ) → i < n → length (get_or m i []) ≡ n

abbrev pub IsSymmetric : Matrix → Type 0
IsSymmetric m = (i j : ℕ) → cell m i j ≡ cell m j i

module _ (n : ℕ) (m : Matrix) (sq : IsSquare n m) (i j : ℕ) (v : ℤ) (hi : i < n) (hj : j < n) where
  row-write :
      (a : ℕ)
      → get_or (write m i j v) a [] ≡ (if i == a then set (get_or m i []) j v else get_or m a [])
  row-write a = ground (arith, get_or-set m i a (set (get_or m i []) j v) [], sq.rows)

  pub cell-write :
      (a b : ℕ) → cell (write m i j v) a b ≡ (if (i == a) && (j == b) then v else cell m a b)
  cell-write a b = elim (ℕ_discrete i a) [
    | yes same ↦
        let test : (i == a) ≡ true = ground arith in
        let at : get_or (write m i j v) a [] ≡ set (get_or m i []) j v =
          ground (arith, row-write a) in
        let rest : get_or m a [] ≡ get_or m i [] = ap (λ z. get_or m z []) (sym same) in
        let inside : j < length (get_or m i []) = ground (arith, sq.row i hi) in
        let here : get_or (set (get_or m i []) j v) b dummy_value
            ≡ (if j == b then v else get_or (get_or m i []) b dummy_value) =
          get_or-set (get_or m i []) j b v dummy_value inside in
        rw (at, test, rest) here
    | no other ↦
        let test : (i == a) ≡ false = ground arith in
        let at : get_or (write m i j v) a [] ≡ get_or m a [] = ground (arith, row-write a) in
        rw (at, test) refl
  ]

  pub write-IsSquare : IsSquare n (write m i j v)
  write-IsSquare = record {
    rows = length-set m i _ ∙ sq.rows;
    row =
        λ a h. ground (arith, row-write a, sq.row a h, sq.row i hi, length-set (get_or m i []) j v);
  }

-- One write of `mirror_row`, in the cell values it is about.
pick :
    (i j n a b : ℕ) (x new_bi new_ab old_ji old_bi old_ab : ℤ)
    → x ≡ (if (i == a) && (leb (j + 1) b && ltb b n) then new_bi else new_ab)
    → new_bi ≡ (if (i == b) && (j == i) then old_ji else old_bi)
    → new_ab ≡ (if (i == a) && (j == b) then old_ji else old_ab)
    → j < n
    → i < j
    → (j ≡ b → old_ji ≡ old_bi)
    → x ≡ (if (i == a) && (leb j b && ltb b n) then old_bi else old_ab)
pick i j n a b x new_bi new_ab old_ji old_bi old_ab ex ebi eab hj hij same = elim (ℕ_discrete j b) [
  | yes e ↦ let s = same e in ground arith
  | no other ↦ ground arith
]

-- One row of `mirror`, in the cell values it is about.
pick_row :
    (i n a b : ℕ) (x row_ba row_ab old_ai old_bi old_ba old_ab : ℤ)
    → x ≡ (if leb (i + 1) a && (ltb a b && ltb b n) then row_ba else row_ab)
    → row_ba ≡ (if (i == b) && (leb (i + 1) a && ltb a n) then old_ai else old_ba)
    → row_ab ≡ (if (i == a) && (leb (i + 1) b && ltb b n) then old_bi else old_ab)
    → (i ≡ a → old_bi ≡ old_ba)
    → x ≡ (if leb i a && (ltb a b && ltb b n) then old_ba else old_ab)
pick_row i n a b x row_ba row_ab old_ai old_bi old_ba old_ab ex eba eab same =
    elim (ℕ_discrete i a) [ yes e ↦ let s = same e in ground arith | no other ↦ ground arith ]

module _ (n : ℕ) where
  pub mirror_row_lem :
      (k i j : ℕ) (m : Matrix) (sq : IsSquare n m) (h : j + k ≡ n) (h' : i < j)
      → IsSquare n (mirror_row k i j m)
        × ((a b : ℕ)
            → cell (mirror_row k i j m) a b
              ≡ (if (i == a) && (leb j b && ltb b n) then cell m b i else cell m a b))
  unfolding mirror_row
  mirror_row_lem zero i j m sq h h' = (sq, λ a b. ground arith)
  mirror_row_lem (suc k) i j m sq h h' =
      let hi : i < n = omega arith in
      let hj : j < n = omega arith in
      let w = write-IsSquare n m sq i j (cell m j i) hi hj in
      let (sq', same) =
        mirror_row_lem k i (j + 1) (write m i j (cell m j i)) w (omega arith) (omega arith) in
      (
        sq',
        λ a b.
            pick i j n a b _ _ _ _ _ _ (same a b) (cell-write n m sq i j _ hi hj b i)
              (cell-write n m sq i j _ hi hj a b) hj h' (λ e. ap (λ z. cell m z i) e),
      )

  -- After the rows from `i` on take from below the diagonal.
  pub mirror_lem :
      (rounds i : ℕ) (m : Matrix) (sq : IsSquare n m) (h : i + rounds ≡ n)
      → IsSquare n (mirror rounds i m)
        × ((a b : ℕ)
            → cell (mirror rounds i m) a b
              ≡ (if leb i a && (ltb a b && ltb b n) then cell m b a else cell m a b))
  unfolding mirror
  mirror_lem zero i m sq h = (sq, λ a b. ground arith)
  mirror_lem (suc k) i m sq h =
      let (sq', row) = mirror_row_lem k i (i + 1) m sq (omega arith) (omega arith) in
      let (sq_end, rows) = mirror_lem k (i + 1) (mirror_row k i (i + 1) m) sq' (omega arith) in
      (
        sq_end,
        λ a b.
            pick_row i n a b _ _ _ _ _ _ _ (rows a b) (row b a) (row a b)
              (λ e. ap (λ z. cell m b z) e),
      )
