-- ===== src/UnionFindMap/Entries.antt =====
-- The map of parents: what lookup finds behind an insertion and behind a write.
use quick_cmake.Prelude.{
  ℕ, ◌+◌, ◌≤◌, ◌≡◌, ◌≢◌, ◌↔◌, refl, Bool, true, none, some, List, [], ◌∷◌, length, arith,
  if◌then◌else◌,
}
use quick_cmake.UnionFindMap.{equal, lookup, insert, write}

-- How many values are their own parents.
unfoldable pub roots : {A : Type 0} (lesser : A → A → Bool) → List (A × A) → ℕ
unfolding equal
roots lesser [] = 0
roots lesser ((k, v) ∷ m) = (if equal lesser k v then 1 else 0) + roots lesser m

module _ {A : Type 0} (lesser : A → A → Bool)
    (equal_iff : (a b : A) → (equal lesser a b ≡ true) ↔ (a ≡ b)) where
  pub lookup-insert :
      (a b x : A) (m : List (A × A))
      → lookup lesser a m ≡ none
      → lookup lesser x (insert lesser a b m)
        ≡ (if equal lesser a x then some b else lookup lesser x m)
  unfolding lookup insert
  lookup-insert a b x [] h = refl
  lookup-insert a b x ((k, v) ∷ m) h =
      ground (arith, lookup-insert a b x m, equal_iff k a, equal_iff k x, equal_iff a x)

  pub lookup-write :
      (a b x v : A) (m : List (A × A))
      → lookup lesser a m ≡ some v
      → lookup lesser x (write lesser a b m)
        ≡ (if equal lesser a x then some b else lookup lesser x m)
  unfolding lookup write
  lookup-write a b x v [] h = cc
  lookup-write a b x v ((k, w) ∷ m) h =
      ground (arith, lookup-write a b x v m, equal_iff k a, equal_iff k x, equal_iff a x)

  pub roots-insert :
      (a : A) (m : List (A × A)) → roots lesser (insert lesser a a m) ≡ roots lesser m + 1
  unfolding roots insert
  roots-insert a [] = ground (arith, equal_iff a a)
  roots-insert a ((k, v) ∷ m) = ground (arith, roots-insert a m, equal_iff a a)

  pub roots-write :
      (a b : A) (m : List (A × A))
      → lookup lesser a m ≡ some a
      → a ≢ b
      → roots lesser (write lesser a b m) + 1 ≡ roots lesser m
  unfolding roots write lookup
  roots-write a b [] h ne = cc
  roots-write a b ((k, v) ∷ m) h ne =
      ground (arith, roots-write a b m, equal_iff k a, equal_iff k b, equal_iff k v)

  pub roots-pos : (a : A) (m : List (A × A)) → lookup lesser a m ≡ some a → 1 ≤ roots lesser m
  unfolding roots lookup
  roots-pos a [] h = cc
  roots-pos a ((k, v) ∷ m) h = ground (arith, roots-pos a m, equal_iff k a, equal_iff k v)

module _ {A : Type 0} (lesser : A → A → Bool) where
  pub roots-le : (m : List (A × A)) → roots lesser m ≤ length m
  unfolding roots
  roots-le [] = omega arith
  roots-le ((k, v) ∷ m) = ground (arith, roots-le m)

  pub length-insert : (a b : A) (m : List (A × A)) → length (insert lesser a b m) ≡ length m + 1
  unfolding insert
  length-insert a b [] = refl
  length-insert a b ((k, v) ∷ m) = ground (arith, length-insert a b m)

  pub length-write : (a b : A) (m : List (A × A)) → length (write lesser a b m) ≡ length m
  unfolding write
  length-write a b [] = refl
  length-write a b ((k, v) ∷ m) = ground (arith, length-write a b m)
