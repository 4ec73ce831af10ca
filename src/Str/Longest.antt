-- ===== src/Str/Longest.antt =====
-- split at several delimiter texts takes the longest one that fits.
use quick_cmake.Prelude.{
  ℕ, ◌≤◌, ◌≡◌, refl, sym, subst, ◌∙◌, ◌⊎◌, inl, inr, Bool, true, false, List, [], ◌∷◌, ◌++◌, length,
  All, Bool-cases, arith,
}
use mathlib.Core.List.{Memᴰ}
use quick_cmake.Str.{
  Text, Matcher, split, split_texts, sorted_matcher, start_with, texts_matcher, text_greater,
  insert_desc, sort_desc,
}
use quick_cmake.Str.Affix.{start_with_iff}

text_greater-asym : (a b : Text) → text_greater a b ≡ true → text_greater b a ≡ false
unfolding text_greater
text_greater-asym [] b h = cc
text_greater-asym (x ∷ a) [] h = refl
text_greater-asym (x ∷ a) (y ∷ b) h = ground (arith, text_greater-asym a b)

-- `a` is not greater than `b`, and `b` not than `c`.
text_greater_trans :
    (a b c : Text) → text_greater a b ≡ false → text_greater b c ≡ false → text_greater a c ≡ false
unfolding text_greater
text_greater_trans [] b c h k = refl
text_greater_trans (x ∷ a) [] c h k = cc
text_greater_trans (x ∷ a) (y ∷ b) [] h k = cc
text_greater_trans (x ∷ a) (y ∷ b) (z ∷ c) h k = ground (arith, text_greater_trans a b c)

-- Of two prefixes of one text, the one that is not greater is not longer.
length-le_of_not_greater :
    (a b r t : Text) → a ++ r ≡ b ++ t → text_greater b a ≡ false → length b ≤ length a
unfolding text_greater
length-le_of_not_greater a [] r t e h = omega arith
length-le_of_not_greater [] (y ∷ b) r t e h = cc
length-le_of_not_greater (x ∷ a) (y ∷ b) r t e h =
    let heads : x ≡ y = cc in
    let tails : a ++ r ≡ b ++ t = cc in
    let below : text_greater b a ≡ false = ground arith in
    omega (arith, length-le_of_not_greater a b r t tails below)

abbrev IsDescending : List Text → Type 0
IsDescending [] = Unit
IsDescending (d ∷ ds) = All (λ e. text_greater e d ≡ false) ds × IsDescending ds

module _ (P : Text → Type 0) (d : Text) where
  All-insert : (ds : List Text) → P d → All P ds → All P (insert_desc text_greater d ds)
  unfolding insert_desc
  All-insert [] h k = (h, tt)
  All-insert (b ∷ ds) h k = elim (Bool-cases (text_greater b d)) [
    | inl e ↦ rw e (k.0, All-insert ds h k.1)
    | inr e ↦ rw e (h, k)
  ]

  All-insert_inv : (ds : List Text) → All P (insert_desc text_greater d ds) → P d × All P ds
  unfolding insert_desc
  All-insert_inv [] h = h
  All-insert_inv (b ∷ ds) h = elim (Bool-cases (text_greater b d)) [
    | inl e ↦
        let h' : P b × All P (insert_desc text_greater d ds) = rw e at h in
        let (p, k) = All-insert_inv ds h'.1 in (p, (h'.0, k))
    | inr e ↦ rw e at h
  ]

All-sort_inv : (P : Text → Type 0) (ds : List Text) → All P (sort_desc text_greater ds) → All P ds
unfolding sort_desc
All-sort_inv P [] h = tt
All-sort_inv P (d ∷ ds) h =
    let (p, k) = All-insert_inv P d (sort_desc text_greater ds) h in (p, All-sort_inv P ds k)

All-map : (P Q : Text → Type 0) (ds : List Text) → ((d : Text) → P d → Q d) → All P ds → All Q ds
All-map P Q [] f h = tt
All-map P Q (d ∷ ds) f h = (f d h.0, All-map P Q ds f h.1)

insert-IsDescending :
    (d : Text) (ds : List Text) → IsDescending ds → IsDescending (insert_desc text_greater d ds)
unfolding insert_desc
insert-IsDescending d [] h = (tt, tt)
insert-IsDescending d (b ∷ ds) h = elim (Bool-cases (text_greater b d)) [
  | inl e ↦ rw e (
    All-insert (λ t. text_greater t b ≡ false) d ds (text_greater-asym b d e) h.0,
    insert-IsDescending d ds h.1,
  )
  | inr e ↦ rw e ((e, All-map _ _ ds (λ t k. text_greater_trans t b d k e) h.0), h)
]

sort-IsDescending : (ds : List Text) → IsDescending (sort_desc text_greater ds)
unfolding sort_desc
sort-IsDescending [] = tt
sort-IsDescending (d ∷ ds) =
    insert-IsDescending d (sort_desc text_greater ds) (sort-IsDescending ds)

-- The answer of a matcher at `s`: the length of a delimiter that starts `s`, of which none that
-- does is longer, or that none starts it.
pub data IsLongest (s : Text) (delims : List Text) : Bool × ℕ → Type 0 where
  taken :
      {d : Text}
      → Memᴰ d delims
      → start_with s d ≡ true
      → All (λ e. (start_with s e ≡ false) ⊎ (length e ≤ length d)) delims
      → IsLongest s delims (true, length d)
  no_delimiter : {n : ℕ} → All (λ e. start_with s e ≡ false) delims → IsLongest s delims (false, n)

length-le_of_start :
    (s a b : Text)
    → start_with s a ≡ true
    → start_with s b ≡ true
    → text_greater b a ≡ false
    → length b ≤ length a
length-le_of_start s a b h k g =
    let (r, e) = (start_with_iff s a).0 h in
    let (t, e') = (start_with_iff s b).0 k in length-le_of_not_greater a b r t (sym e ∙ e') g

-- A delimiter that is not greater starts the text with no more bytes, if it does.
not_longer :
    (s d b : Text)
    → start_with s d ≡ true
    → text_greater b d ≡ false
    → (start_with s b ≡ false) ⊎ (length b ≤ length d)
not_longer s d b e g = elim (Bool-cases (start_with s b)) [
  | inl k ↦ inr (length-le_of_start s d b e k g)
  | inr k ↦ inl k
]

longer-IsLongest :
    (s d : Text) (ds : List Text) (m : Bool × ℕ)
    → start_with s d ≡ false
    → IsLongest s ds m
    → IsLongest s (d ∷ ds) m
longer-IsLongest s d ds m e (taken mem k all) = taken (Memᴰ.tail mem) k (inl e, all)
longer-IsLongest s d ds m e (no_delimiter all) = no_delimiter (e, all)

descending-IsLongest :
    (s : Text) (ds : List Text) → IsDescending ds → IsLongest s ds (texts_matcher ds s)
unfolding texts_matcher
descending-IsLongest s [] h = no_delimiter tt
descending-IsLongest s (d ∷ ds) h = elim (Bool-cases (start_with s d)) [
  | inl e ↦ subst (IsLongest s (d ∷ ds)) (rw e) (
      taken (Memᴰ.head refl) e
        (inr (omega arith), All-map _ _ ds (λ b g. not_longer s d b e g) h.0))
  | inr e ↦
      subst (IsLongest s (d ∷ ds)) (rw e)
        (longer-IsLongest s d ds _ e (descending-IsLongest s ds h.1))
]

mem-swap :
    (x d b : Text) (ds l : List Text)
    → (Memᴰ x l → Memᴰ x (d ∷ ds))
    → Memᴰ x (b ∷ l)
    → Memᴰ x (d ∷ b ∷ ds)
mem-swap x d b ds l f (Memᴰ.head e) = Memᴰ.tail (Memᴰ.head e)
mem-swap x d b ds l f (Memᴰ.tail k) = elim (f k) [
  | Memᴰ.head e ↦ Memᴰ.head e
  | Memᴰ.tail m ↦ Memᴰ.tail (Memᴰ.tail m)
]

mem-insert :
    (x d : Text) (ds : List Text) → Memᴰ x (insert_desc text_greater d ds) → Memᴰ x (d ∷ ds)
unfolding insert_desc
mem-insert x d [] m = m
mem-insert x d (b ∷ ds) m = elim (Bool-cases (text_greater b d)) [
  | inl e ↦ mem-swap x d b ds (insert_desc text_greater d ds) (mem-insert x d ds) (rw e at m)
  | inr e ↦ rw e at m
]

mem-sort : (x : Text) (ds : List Text) → Memᴰ x (sort_desc text_greater ds) → Memᴰ x ds
unfolding sort_desc
mem-sort x [] m = m
mem-sort x (d ∷ ds) m = elim (mem-insert x d (sort_desc text_greater ds) m) [
  | Memᴰ.head e ↦ Memᴰ.head e
  | Memᴰ.tail k ↦ Memᴰ.tail (mem-sort x ds k)
]

sorted-IsLongest :
    (s : Text) (ds : List Text) (m : Bool × ℕ)
    → IsLongest s (sort_desc text_greater ds) m
    → IsLongest s ds m
sorted-IsLongest s ds m (taken {d = d} mem k all) =
    taken (mem-sort d ds mem) k (All-sort_inv _ ds all)
sorted-IsLongest s ds m (no_delimiter all) = no_delimiter (All-sort_inv _ ds all)

-- split at a list of delimiter texts is _split with a matcher that takes at each place a delimiter
-- of the list that starts the text there, and a longest such one, in whatever order the caller
-- lists them, and finds none only where none starts it.
pub split_texts-longest :
    (str : Text) (delims : List Text)
    → (m : Matcher) × (split_texts str delims ≡ split m str)
      × ((s : Text) → IsLongest s delims (m s))
unfolding split_texts sorted_matcher
split_texts-longest str delims = (
  sorted_matcher delims,
  refl,
  λ s.
      sorted-IsLongest s delims _
        (descending-IsLongest s (sort_desc text_greater delims) (sort-IsDescending delims)),
)
