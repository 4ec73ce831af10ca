-- ===== src/TopK/Order.antt =====
-- The order of a priority queue, and what a push does to a list in that order.
use mathlib.Core.List.{Perm}
use mathlib.Core.List.Perm
use quick_cmake.Prelude.{
  suc, ◌≡◌, refl, ap, true, false, List, [], ◌∷◌, length, All, Bool-cases, inl, inr,
}
use quick_cmake.TopK.{Less, reversed, pq_push}

-- A strict weak order, which std::priority_queue requires of its comparison.
pub record IsOrder {A : Type 0} (less : Less A) : Type 0 where
  pub asym : (a b : A) → less a b ≡ true → less b a ≡ false
  pub through : (a b c : A) → less a b ≡ false → less b c ≡ false → less a c ≡ false

module _ {A : Type 0} (less : Less A) (o : IsOrder less) where
  pub reversed-eq : (a b : A) → reversed less a b ≡ less b a
  unfolding reversed
  reversed-eq a b = elim (Bool-cases (less a b)) [
    | inl e ↦ rw (e, o.asym a b e) refl
    | inr e ↦ elim (Bool-cases (less b a)) [ inl f ↦ rw (e, f) refl | inr f ↦ rw (e, f) refl ]
  ]

-- No element is less than a later one.
abbrev pub Falls : {A : Type 0} → Less A → List A → Type 0
Falls less [] = Unit
Falls less (x ∷ r) = All (λ y. less x y ≡ false) r × Falls less r

-- No element is less than an earlier one.
abbrev pub Rises : {A : Type 0} → Less A → List A → Type 0
Rises less [] = Unit
Rises less (x ∷ r) = All (λ y. less y x ≡ false) r × Rises less r

pub All-pq_push :
    {A : Type 0} (P : A → Type 0) (comp : Less A) (x : A) (l : List A)
    → P x
    → All P l
    → All P (pq_push comp x l)
unfolding pq_push
All-pq_push P comp x [] p h = (p, tt)
All-pq_push P comp x (y ∷ l) p h = elim (Bool-cases (comp y x)) [
  | inl e ↦ rw e (p, h)
  | inr e ↦ rw e (h.0, All-pq_push P comp x l p h.1)
]

pub All-then :
    {A : Type 0} (P Q : A → Type 0) (l : List A) → ((x : A) → P x → Q x) → All P l → All Q l
All-then P Q [] f h = tt
All-then P Q (x ∷ l) f h = (f x h.0, All-then P Q l f h.1)

pub Perm-pq_push :
    {A : Type 0} (comp : Less A) (x : A) (l : List A) → Perm (pq_push comp x l) (x ∷ l)
unfolding pq_push
Perm-pq_push comp x [] = Perm.refl (x ∷ [])
Perm-pq_push comp x (y ∷ l) = elim (Bool-cases (comp y x)) [
  | inl e ↦ rw e (Perm.refl (x ∷ y ∷ l))
  | inr e ↦ rw e (Perm.trans (Perm.cons y (Perm-pq_push comp x l)) (Perm.swap x y l))
]

pub length-pq_push :
    {A : Type 0} (comp : Less A) (x : A) (l : List A) → length (pq_push comp x l) ≡ suc (length l)
unfolding pq_push
length-pq_push comp x [] = refl
length-pq_push comp x (y ∷ l) = elim (Bool-cases (comp y x)) [
  | inl e ↦ rw e refl
  | inr e ↦ rw e (ap suc (length-pq_push comp x l))
]
