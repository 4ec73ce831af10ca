-- ===== src/UnionFind/Climb.antt =====
-- Chains of parents and the roots that they reach.
use quick_cmake.Prelude.{
  ℕ, zero, suc, ◌<◌, ◌≡◌, refl, sym, subst, ◌∙◌, some, List, [], ◌∷◌, length, get_elem?, set, arith,
  ◌==◌, if◌then◌else◌,
}

-- From `a` the parents reach the root `r` within `k` steps.
pub data Climb (p : List ℕ) : ℕ → ℕ → ℕ → Type 0 where
  top : {k a r : ℕ} → a ≡ r → get_elem? p a ≡ some a → Climb p k a r
  up : {k a b r : ℕ} → get_elem? p a ≡ some b → Climb p k b r → Climb p (suc k) a r

pub get-lt : (p : List ℕ) (a b : ℕ) → get_elem? p a ≡ some b → a < length p
get-lt [] a b h = cc
get-lt (x ∷ p) zero b h = omega arith
get-lt (x ∷ p) (suc a) b h = omega (arith, get-lt p a b h)

pub get-set :
    (p : List ℕ) (a x v b : ℕ)
    → get_elem? p a ≡ some b
    → get_elem? (set p a v) x ≡ (if a == x then some v else get_elem? p x)
get-set [] a x v b h = cc
get-set (y ∷ p) zero zero v b h = refl
get-set (y ∷ p) zero (suc x) v b h = ground arith
get-set (y ∷ p) (suc a) zero v b h = ground arith
get-set (y ∷ p) (suc a) (suc x) v b h = ground (arith, get-set p a x v b h)

module _ {p : List ℕ} where
  -- An element that is its own parent is its own root.
  pub Climb-root : {k a r : ℕ} → Climb p k a r → get_elem? p a ≡ some a → r ≡ a
  Climb-root (top e g) h = sym e
  Climb-root (up {a = a} {b = b} g c) h = let same : b ≡ a = cc in Climb-root c (rw same h) ∙ same

  pub root_parent : {k a r : ℕ} → Climb p k a r → get_elem? p r ≡ some r
  root_parent (top e g) = rw e at g
  root_parent (up g c) = root_parent c

  pub Climb-unique : {k j a r s : ℕ} → Climb p k a r → Climb p j a s → r ≡ s
  Climb-unique (top e g) d = sym e ∙ sym (Climb-root d g)
  Climb-unique (up g c) (top e h) = Climb-root (up g c) h ∙ e
  Climb-unique (up {b = b} g c) (up {k = j} {b = d} {r = s} h c') =
      let same : d ≡ b = cc in Climb-unique c (subst (λ z. Climb p j z s) same c')

  pub Climb-in : {k a r : ℕ} → Climb p k a r → a < length p
  Climb-in (top e g) = get-lt p _ _ g
  Climb-in (up g c) = get-lt p _ _ g

  pub Climb-more : {k a r : ℕ} → Climb p k a r → Climb p (suc k) a r
  Climb-more (top e g) = top e g
  Climb-more (up g c) = up g (Climb-more c)

  pub parent_of : {k a r : ℕ} → Climb p k a r → (b : ℕ) × (get_elem? p a ≡ some b)
  parent_of (top {a = a} e g) = (a, g)
  parent_of (up {b = b} g c) = (b, g)
