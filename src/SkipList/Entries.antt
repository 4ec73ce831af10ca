-- ===== src/SkipList/Entries.antt =====
-- A map as a sorted list of entries, and the parts of one at a key.
use quick_cmake.Prelude.{
  suc, ◌≡◌, refl, sym, ap, Bool, true, false, Option, none, some, List, [], ◌∷◌, ◌++◌, All, length,
  if◌then◌else◌, Bool-cases, inl, inr,
}
use quick_cmake.SkipList.Levels.{Cell}
use quick_cmake.SkipList.Search.{IsBelow, IsFrom}
use quick_cmake.SkipList.Represents.{IsOrder}

module _ {K V : Type 0} (lt eq : K → K → Bool) where
  -- A map as a list of its entries.
  abbrev pub lookup : K → List (K × V) → Option V
  lookup k [] = none
  lookup k ((j, w) ∷ l) = let later = lookup k l in if eq j k then some w else later

  abbrev pub put : K → V → List (K × V) → List (K × V)
  put k v [] = (k, v) ∷ []
  put k v ((j, w) ∷ l) =
      let rest = put k v l in if lt j k then (j, w) ∷ rest else (k, v) ∷ (j, w) ∷ l

  abbrev pub remove : K → List (K × V) → List (K × V)
  remove k [] = []
  remove k ((j, w) ∷ l) = let rest = remove k l in if eq j k then rest else (j, w) ∷ rest

abbrev pub entries : {K V : Type 0} → List (Cell K V) → List (K × V)
entries [] = []
entries (c ∷ l) = (c.key, c.val) ∷ entries l

module _ {K : Type 0} {lt eq : K → K → Bool} (laws : IsOrder lt eq) where
  differs_below : (j k : K) → lt j k ≡ true → eq j k ≡ false
  differs_below j k h = elim (Bool-cases (eq j k)) [
    | inl e ↦
        let same = (laws.eq_iff j k).0 e in
        let bad : lt k k ≡ true = rw same at h in let good = laws.irreflexive k in absurd cc
    | inr e ↦ e
  ]

  differs_above : (j k : K) → lt k j ≡ true → eq j k ≡ false
  differs_above j k h = elim (Bool-cases (eq j k)) [
    | inl e ↦
        let same = (laws.eq_iff j k).0 e in
        let bad : lt k k ≡ true = rw same at h in let good = laws.irreflexive k in absurd cc
    | inr e ↦ e
  ]

module _ {K V : Type 0} {lt eq : K → K → Bool} (laws : IsOrder lt eq) where
  pub lookup-below :
      (k : K) (a b : List (Cell K V))
      → All (IsBelow lt k) a
      → lookup lt eq k (entries (a ++ b)) ≡ lookup lt eq k (entries b)
  lookup-below k [] b h = refl
  lookup-below k (c ∷ a) b (less, h) = rw (differs_below laws c.key k less) (lookup-below k a b h)

  pub lookup-above :
      (k : K) (b : List (Cell K V))
      → All (λ d. lt k d.key ≡ true) b
      → lookup lt eq k (entries b) ≡ none
  lookup-above k [] h = refl
  lookup-above k (c ∷ b) (less, h) = rw (differs_above laws c.key k less) (lookup-above k b h)

  pub put-between :
      (a b : List (Cell K V)) (c : Cell K V)
      → All (IsBelow lt c.key) a
      → All (IsFrom lt c.key) b
      → entries (a ++ c ∷ b) ≡ put lt eq c.key c.val (entries (a ++ b))
  put-between [] [] c below from = refl
  put-between [] (d ∷ b) c below (from, more) = rw from refl
  put-between (d ∷ a) b c (less, below) from =
      rw less (ap (λ l. (d.key, d.val) ∷ l) (put-between a b c below from))

  pub remove-above :
      (k : K) (b : List (Cell K V))
      → All (λ d. lt k d.key ≡ true) b
      → remove lt eq k (entries b) ≡ entries b
  remove-above k [] h = refl
  remove-above k (c ∷ b) (less, h) =
      rw (differs_above laws c.key k less) (ap (λ l. (c.key, c.val) ∷ l) (remove-above k b h))

  pub remove-between :
      (k : K) (a b : List (Cell K V)) (c : Cell K V)
      → All (IsBelow lt k) a
      → eq c.key k ≡ true
      → All (λ d. lt k d.key ≡ true) b
      → entries (a ++ b) ≡ remove lt eq k (entries (a ++ c ∷ b))
  remove-between k [] b c below same above = rw same (sym (remove-above k b above))
  remove-between k (d ∷ a) b c (less, below) same above =
      rw (differs_below laws d.key k less)
        (ap (λ l. (d.key, d.val) ∷ l) (remove-between k a b c below same above))

  pub length-entries : (l : List (Cell K V)) → length (entries l) ≡ length l
  length-entries [] = refl
  length-entries (c ∷ l) = ap suc (length-entries l)
