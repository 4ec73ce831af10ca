-- ===== src/Str/Fields.antt =====
-- What split returns for one or several delimiter bytes.
use mathlib.Core.List.{flatten}
use quick_cmake.Prelude.{
  ℕ, ◌≡◌, refl, ap, ◌∙◌, ◌≢◌, inl, inr, Bool, true, false, List, [], ◌∷◌, ◌++◌, All, append_assoc,
  ◌==◌, if◌then◌else◌, Bool-cases, ==_refl, arith,
}
use quick_cmake.Outcome.{value}
use quick_cmake.Str.{
  Text, char_matcher, chars_matcher, char_greater, insert_desc, sort_desc, split_char, split_chars,
}
use quick_cmake.Str.Split.{flush, fields, Tests, split-fields}

-- A field is not empty and holds no delimiter.
abbrev pub IsField : (ℕ → Bool) → Text → Type 0
IsField d f = (f ≢ []) × All (λ x. d x ≡ false) f

-- The bytes that are no delimiters.
abbrev pub keep : (ℕ → Bool) → Text → Text
keep d [] = []
keep d (x ∷ s) = if d x then keep d s else x ∷ keep d s

module _ (d : ℕ → Bool) where
  flush-IsField :
      (cur : Text) (r : List Text)
      → All (λ x. d x ≡ false) cur
      → All (IsField d) r
      → All (IsField d) (flush cur r)
  flush-IsField [] r h k = k
  flush-IsField (x ∷ cur) r h k = ((λ e. cc, h), k)

  All-concat :
      (cur : Text) (x : ℕ)
      → All (λ y. d y ≡ false) cur
      → d x ≡ false
      → All (λ y. d y ≡ false) (cur ++ x ∷ [])
  All-concat [] x h e = (e, tt)
  All-concat (y ∷ cur) x h e = (h.0, All-concat cur x h.1 e)

  fields-IsField : (s cur : Text) → All (λ x. d x ≡ false) cur → All (IsField d) (fields d cur s)
  unfolding fields
  fields-IsField [] cur h = flush-IsField cur [] h tt
  fields-IsField (x ∷ s) cur h = elim (Bool-cases (d x)) [
    | inl e ↦ rw e (flush-IsField cur _ h (fields-IsField s [] tt))
    | inr e ↦ rw e (fields-IsField s (cur ++ x ∷ []) (All-concat cur x h e))
  ]

  flatten-flush : (cur : Text) (r : List Text) → flatten (flush cur r) ≡ cur ++ flatten r
  unfolding flatten
  flatten-flush [] r = refl
  flatten-flush (x ∷ cur) r = refl

  flatten-fields : (s cur : Text) → flatten (fields d cur s) ≡ cur ++ keep d s
  unfolding fields flatten
  flatten-fields [] cur = flatten-flush cur []
  flatten-fields (x ∷ s) cur = elim (Bool-cases (d x)) [
    | inl e ↦ rw e (flatten-flush cur _ ∙ ap (λ t. cur ++ t) (flatten-fields s []))
    | inr e ↦ rw e (flatten-fields s (cur ++ x ∷ []) ∙ append_assoc cur (x ∷ []) (keep d s))
  ]

-- `r` are the runs of bytes of `s` between the bytes that pass the test `d`.
abbrev pub Splits : (ℕ → Bool) → Text → List Text → Type 0
Splits d s r = (r ≡ fields d [] s) × All (IsField d) r × (flatten r ≡ keep d s)

-- Splitting at one byte returns, for every text, the runs of bytes between the delimiters that are
-- not empty: none holds a delimiter, and joined they give the text without its delimiters.
pub split_char_lem :
    (s : Text) (c : ℕ) → (r : List Text) × (split_char s c ≡ value r) × Splits (λ x. x == c) s r
unfolding split_char char_matcher
split_char_lem s c =
    let d = λ (x : ℕ). x == c in
    (
      fields d [] s,
      split-fields d (char_matcher c) (λ x t. refl) s,
      (refl, fields-IsField d s [] tt, flatten-fields d s []),
    )

-- The delimiter alone has no fields.
pub split_char-delim : (c : ℕ) → split_char (c ∷ []) c ≡ value []
unfolding split_char fields char_matcher
split_char-delim c =
    split-fields (λ x. x == c) (char_matcher c) (λ x t. refl) (c ∷ []) ∙ rw (==_refl c)

-- Whether a byte is one of the delimiters, in the order that they are given.
abbrev pub one_of : List ℕ → ℕ → Bool
one_of [] x = false
one_of (c ∷ cs) x = if x == c then true else one_of cs x

one_of-insert :
    (gt : ℕ → ℕ → Bool) (c : ℕ) (cs : List ℕ) (x : ℕ)
    → one_of (insert_desc gt c cs) x ≡ one_of (c ∷ cs) x
unfolding insert_desc
one_of-insert gt c [] x = refl
one_of-insert gt c (b ∷ cs) x = ground (arith, one_of-insert gt c cs x)

one_of-sort : (gt : ℕ → ℕ → Bool) (cs : List ℕ) (x : ℕ) → one_of (sort_desc gt cs) x ≡ one_of cs x
unfolding sort_desc
one_of-sort gt [] x = refl
one_of-sort gt (c ∷ cs) x =
    one_of-insert gt c (sort_desc gt cs) x
    ∙ ap (λ b. if x == c then true else b) (one_of-sort gt cs x)

chars_matcher-Tests : (cs : List ℕ) → Tests (one_of cs) (chars_matcher cs)
unfolding chars_matcher
chars_matcher-Tests [] x s = refl
chars_matcher-Tests (c ∷ cs) x s = ground (arith, chars_matcher-Tests cs x s)

-- Splitting at a set of bytes returns, for every text and in whatever order the delimiters are
-- given, the runs of bytes between the delimiters that are not empty: none holds a delimiter, and
-- joined they give the text without its delimiters.
pub split_chars_lem :
    (s : Text) (cs : List ℕ)
    → (r : List Text) × (split_chars s cs ≡ value r) × Splits (one_of cs) s r
unfolding split_chars
split_chars_lem s cs =
    let d = one_of cs in
    let m = chars_matcher (sort_desc char_greater cs) in
    let tests : Tests d m = λ x t.
      chars_matcher-Tests (sort_desc char_greater cs) x t
      ∙ ap (λ b. if b then (true, 1) else (false, 0)) (one_of-sort char_greater cs x) in
    (
      fields d [] s,
      split-fields d m tests s,
      (refl, fields-IsField d s [] tt, flatten-fields d s []),
    )
