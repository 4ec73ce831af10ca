-- ===== src/Str/Strip.antt =====
-- strip on the texts that have, and that have not, a byte other than a space.
use quick_cmake.Prelude.{
  ℕ, zero, suc, ◌+◌, ◌-◌, ◌≡◌, refl, sym, ap, ◌∙◌, ◌≢◌, none, some, [], ◌∷◌, ◌++◌, length,
  replicate, take, drop, length-append, length-replicate, drop-append, take-append, append_assoc,
  append-nil, arith,
}
use quick_cmake.Outcome.{value, thrown, out_of_range}
use quick_cmake.Str.{Text, first_not_of, last_not_of, substr, strip}

abbrev pub spaces : ℕ → Text
spaces n = replicate n b' '

module _ (c : ℕ) where
  first_not_of-replicate :
      (n i j : ℕ) (r : Text)
      → j ≡ i + n
      → first_not_of c i (replicate n c ++ r) ≡ first_not_of c j r
  unfolding first_not_of
  first_not_of-replicate zero i j r e = ap (λ k. first_not_of c k r) (omega arith)
  first_not_of-replicate (suc n) i j r e = ground (arith, first_not_of-replicate n (i + 1) j r)

  last_not_of-replicate : (n i : ℕ) → last_not_of c i (replicate n c) ≡ none
  unfolding last_not_of
  last_not_of-replicate zero i = refl
  last_not_of-replicate (suc n) i = ground (arith, last_not_of-replicate n (i + 1))

  last_not_of-append :
      (v : Text) (y n i j : ℕ)
      → y ≢ c
      → j ≡ i + length v
      → last_not_of c i (v ++ (y ∷ replicate n c)) ≡ some j
  unfolding last_not_of
  last_not_of-append [] y n i j h e = ground (arith, last_not_of-replicate n (i + 1))
  last_not_of-append (x ∷ v) y n i j h e = ground (arith, last_not_of-append v y n (i + 1) j h)

first_not_of-head : (x i : ℕ) (r : Text) → x ≢ b' ' → first_not_of b' ' i (x ∷ r) ≡ some i
unfolding first_not_of
first_not_of-head x i r h = ground arith

substr_mid : (a t b : Text) (n : ℕ) → n ≡ length t → substr (a ++ (t ++ b)) (length a) n ≡ value t
unfolding substr
substr_mid a t b n e =
    let inner : take n (drop (length a) (a ++ (t ++ b))) ≡ t =
      ap (take n) (drop-append a (t ++ b)) ∙ ap (λ k. take k (t ++ b)) e ∙ take-append t b in
    rw inner (ground (arith, length-append a (t ++ b)))

strip-substr :
    (s : Text) (l r : ℕ)
    → first_not_of b' ' 0 s ≡ some l
    → last_not_of b' ' 0 s ≡ some r
    → strip s ≡ substr s l (r - l + 1)
unfolding strip
strip-substr s l r h k = rw (h, k, strip)

strip-none : (s : Text) → first_not_of b' ' 0 s ≡ none → strip s ≡ thrown out_of_range
unfolding strip
strip-none s h = rw (h, strip)

-- strip takes off all the spaces at both ends of a text and nothing else, where what stands between
-- them begins and ends with other bytes.
pub strip_trims :
    (before after : ℕ) (t u v : Text) (x y : ℕ)
    → t ≡ x ∷ u
    → t ≡ v ++ y ∷ []
    → x ≢ b' '
    → y ≢ b' '
    → strip (spaces before ++ (t ++ spaces after)) ≡ value t
strip_trims before after t u v x y head last hx hy =
    strip-substr s before (before + length v) first final
    ∙ ap (λ n. substr s n (before + length v - before + 1))
        (sym (length-replicate {A = ℕ} before b' '))
    ∙ substr_mid (spaces before) t (spaces after) _
        (omega (arith, ap length last, length-append v (y ∷ [])))
  where
    s : Text
    s = spaces before ++ (t ++ spaces after)

    first : first_not_of b' ' 0 s ≡ some before
    first =
        first_not_of-replicate b' ' before 0 before (t ++ spaces after) (omega arith)
        ∙ rw head (first_not_of-head x before (u ++ spaces after) hx)

    whole : s ≡ (spaces before ++ v) ++ (y ∷ spaces after)
    whole =
        ap (λ m. spaces before ++ (m ++ spaces after)) last
        ∙ ap (λ m. spaces before ++ m) (append_assoc v (y ∷ []) (spaces after))
        ∙ sym (append_assoc (spaces before) v (y ∷ spaces after))

    final : last_not_of b' ' 0 s ≡ some (before + length v)
    final =
        ap (last_not_of b' ' 0) whole
        ∙ last_not_of-append b' ' (spaces before ++ v) y after 0 (before + length v) hy
            (omega (arith, length-append (spaces before) v, length-replicate {A = ℕ} before b' '))

-- A text of spaces only, the empty text too, makes the call of substr throw.
pub strip-spaces : (n : ℕ) → strip (spaces n) ≡ thrown out_of_range
unfolding first_not_of
strip-spaces n = strip-none (spaces n) (
    ap (first_not_of b' ' 0) (sym (append-nil (spaces n)))
    ∙ first_not_of-replicate b' ' n 0 n [] (omega arith))
