-- ===== src/Args/Map.antt =====
-- std::map with text keys: an association list in key order, and equality of texts.
use mathlib.Core.Bool.{false≢true}
use quick_cmake.Prelude.{
  sym, ◌∙◌, All, ◌≡◌, refl, ◌↔◌, Bool, true, false, ◌&&◌, Option, none, some, List, [], ◌∷◌, ◌==◌,
  if◌then◌else◌, Bool-cases, inl, inr, arith,
}
use quick_cmake.Str.{Text, text_greater}

unfoldable pub text_eq : Text → Text → Bool
text_eq [] [] = true
text_eq (x ∷ a) (y ∷ b) = (x == y) && text_eq a b
text_eq _ _ = false

pub text_eq_iff : (a b : Text) → (text_eq a b ≡ true) ↔ (a ≡ b)
unfolding text_eq
text_eq_iff [] [] = (λ _. refl, λ _. refl)
text_eq_iff [] (y ∷ b) = (λ h. cc, λ h. cc)
text_eq_iff (x ∷ a) [] = (λ h. cc, λ h. cc)
text_eq_iff (x ∷ a) (y ∷ b) = ground (arith, text_eq_iff a b)

module _ {V : Type 0} where
  unfoldable pub find : Text → List (Text × V) → Option V
  find k [] = none
  find k ((j, v) ∷ m) = if text_eq j k then some v else find k m

  -- Whether `find` is not `end()`.
  unfoldable pub contains : Text → List (Text × V) → Bool
  contains k [] = false
  contains k ((j, v) ∷ m) = if text_eq j k then true else contains k m

  unfoldable pub insert : Text → V → List (Text × V) → List (Text × V)
  insert k v [] = (k, v) ∷ []
  insert k v ((j, w) ∷ m) = if text_greater j k then (k, v) ∷ (j, w) ∷ m else (j, w) ∷ insert k v m

  -- emplace leaves the entry of a key that is there.
  unfoldable pub emplace : Text → V → List (Text × V) → List (Text × V)
  unfolding insert
  emplace k v m = if contains k m then m else insert k v m

  -- A write through an iterator to the entry of `k`.
  unfoldable pub modify : Text → (V → V) → List (Text × V) → List (Text × V)
  modify k f [] = []
  modify k f ((j, v) ∷ m) = if text_eq j k then (j, f v) ∷ m else (j, v) ∷ modify k f m

  pub contains-modify :
      (j k : Text) (f : V → V) (m : List (Text × V)) → contains j (modify k f m) ≡ contains j m
  unfolding contains modify
  contains-modify j k f [] = refl
  contains-modify j k f ((i, v) ∷ m) = ground (arith, contains-modify j k f m)

  pub find-modify :
      (j k : Text) (f : V → V) (m : List (Text × V))
      → find j (modify k f m)
        ≡ (if text_eq k j then elim (find j m) [ none ↦ none | some v ↦ some (f v) ] else find j m)
  unfolding find modify
  find-modify j k f [] = ground arith
  find-modify j k f ((i, v) ∷ m) =
      ground (arith, text_eq_iff i k, text_eq_iff i j, text_eq_iff k j, find-modify j k f m)

  pub contains-find :
      (k : Text) (m : List (Text × V)) → contains k m ≡ true → (v : V) × (find k m ≡ some v)
  unfolding contains find
  contains-find k [] h = cc
  contains-find k ((j, v) ∷ m) h = elim (Bool-cases (text_eq j k)) [
    | inl e ↦ (v, rw e)
    | inr e ↦ rw e (contains-find k m (rw e at h))
  ]

  find-insert :
      (j k : Text) (v : V) (m : List (Text × V))
      → text_eq j k ≡ false
      → find k (insert j v m) ≡ find k m
  unfolding find insert
  find-insert j k v [] h = ground arith
  find-insert j k v ((i, w) ∷ m) h = ground (arith, find-insert j k v m)

  contains-of-find :
      (j k : Text) (v : V) (m : List (Text × V))
      → find k m ≡ some v
      → text_eq j k ≡ true
      → contains j m ≡ true
  unfolding find contains
  contains-of-find j k v [] h e = cc
  contains-of-find j k v ((i, w) ∷ m) h e =
      ground (arith, text_eq_iff j k, text_eq_iff i k, text_eq_iff i j, contains-of-find j k v m)

  All-insert :
      (P : V → Type 0) (k : Text) (v : V) (m : List (Text × V))
      → P v
      → All (λ e. P e.1) m
      → All (λ e. P e.1) (insert k v m)
  unfolding insert
  All-insert P k v [] p h = (p, tt)
  All-insert P k v ((j, w) ∷ m) p h = elim (Bool-cases (text_greater j k)) [
    | inl e ↦ rw e (p, h)
    | inr e ↦ rw e (h.0, All-insert P k v m p h.1)
  ]

  -- An entry that is there stays when another key is registered, and when its own is once more.
  pub find-emplace :
      (j k : Text) (v w : V) (m : List (Text × V))
      → find k m ≡ some w
      → find k (emplace j v m) ≡ some w
  unfolding emplace
  find-emplace j k v w m h = elim (Bool-cases (contains j m)) [
    | inl there ↦ rw there h
    | inr new ↦ elim (Bool-cases (text_eq j k)) [
      | inl same ↦ absurd (false≢true (sym new ∙ contains-of-find j k w m h same))
      | inr other ↦ rw new (find-insert j k v m other ∙ h)
    ]
  ]

  pub All-emplace :
      (P : V → Type 0) (k : Text) (v : V) (m : List (Text × V))
      → P v
      → All (λ e. P e.1) m
      → All (λ e. P e.1) (emplace k v m)
  unfolding emplace
  All-emplace P k v m p h = elim (Bool-cases (contains k m)) [
    | inl there ↦ rw there h
    | inr new ↦ rw new (All-insert P k v m p h)
  ]
