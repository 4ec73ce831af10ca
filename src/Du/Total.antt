-- ===== src/Du/Total.antt =====
-- The sizes that du and du_pool count.
use quick_cmake.Prelude.{
  ℕ, ◌+◌, ◌≤◌, ◌<◌, ◌≡◌, ◌*◌, ◌⊎◌, inl, inr, refl, ap, ◌∙◌, List, [], ◌∷◌, ◌++◌, arith, ltb,
  Bool-cases,
}
use quick_cmake.Du.{
  File, Entry, missing, regular, directory, Entries, end, entry, size_add, du, du_entries,
  format_size,
}

-- The files below an entry, in the order of the walk.
unfoldable mutual
  pub files : Entry → List File
  files missing = []
  files (regular f) = f ∷ []
  files (directory es) = files_of es

  pub files_of : Entries → List File
  files_of end = []
  files_of (entry e es) = files e ++ files_of es

unfoldable pub total : List File → ℕ
total [] = 0
total (f ∷ r) = f.size + total r

total-append : (a b : List File) → total (a ++ b) ≡ total a + total b
unfolding total
total-append [] b = omega arith
total-append (f ∷ a) b = omega (arith, total-append a b)

size_add_lem : (a b : ℕ) → a + b < 18446744073709551616 → size_add a b ≡ a + b
size_add_lem a b h = omega arith

mutual
  unfolding du du_entries files files_of total

  du-total : (e : Entry) → total (files e) < 18446744073709551616 → du e ≡ total (files e)
  du-total missing h = refl
  du-total (regular f) h = omega (arith, size_add_lem 0 f.size (omega arith))
  du-total (directory es) h = omega (arith, du_entries-total es 0 (omega arith))

  du_entries-total :
      (es : Entries) (sz : ℕ)
      → sz + total (files_of es) < 18446744073709551616
      → du_entries es sz ≡ sz + total (files_of es)
  du_entries-total end sz h = omega arith
  du_entries-total (entry e es) sz h =
      let split = total-append (files e) (files_of es) in
      let first = du-total e (omega (arith, split)) in
      let step : size_add sz (du e) ≡ sz + total (files e) =
        ap (size_add sz) first ∙ size_add_lem sz (total (files e)) (omega (arith, split)) in
      let rest = du_entries-total es (sz + total (files e)) (omega (arith, split)) in
      ap (du_entries es) step ∙ omega (arith, rest, split)

-- The size divided by what format_size divides it by is less than 1024 unless the unit is GB, and
-- at least 1 unless the unit is B.
pub format_size_bounds :
    (sz : ℕ)
    → (((format_size sz).0 ≡ 1) ⊎ ((format_size sz).0 ≤ sz))
      × (((format_size sz).0 ≡ 1073741824) ⊎ (sz < 1024 * (format_size sz).0))
unfolding format_size
format_size_bounds sz = elim (Bool-cases (ltb sz 1024)) [
  | inl e ↦ let fits : sz < 1024 * 1 = ground arith in rw e (inl refl, inr fits)
  | inr e ↦ elim (Bool-cases (ltb sz 1048576)) [
    | inl f ↦
        let high : 1024 ≤ sz = ground arith in
        let fits : sz < 1024 * 1024 = ground arith in rw (e, f) (inr high, inr fits)
    | inr f ↦ elim (Bool-cases (ltb sz 1073741824)) [
      | inl g ↦
          let high : 1048576 ≤ sz = ground arith in
          let fits : sz < 1024 * 1048576 = ground arith in rw (e, f, g) (inr high, inr fits)
      | inr g ↦ let high : 1073741824 ≤ sz = ground arith in rw (e, f, g) (inr high, inl refl)
    ]
  ]
]
