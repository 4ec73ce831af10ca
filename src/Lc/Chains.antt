-- ===== src/Lc/Chains.antt =====
-- The list that starts at a pointer, and what a write leaves of it.
use mathlib.Core.Option.{none-ne-some}
use quick_cmake.Prelude.{
  ℕ, zero, suc, ◌≡◌, ◌≢◌, refl, ap, ◌∙◌, Option, none, some, ℤ, List, [], ◌∷◌, All, get_elem?, set,
}
use quick_cmake.Outcome.{value}
use quick_cmake.Lc.{ListNode, Store, found, deref, set_next}

-- A pointer and the value of its node.
pub record Cell : Type 0 where
  pub place : ℕ
  pub val : ℤ

-- The cells of the list that starts at a pointer.
abbrev pub Chain : Store → Option ℕ → List Cell → Type 0
Chain s p [] = p ≡ none
Chain s p (c ∷ cs) =
    (next : Option ℕ) × (p ≡ some c.place)
    × (get_elem? s c.place ≡ some (record { val = c.val; next = next }))
    × Chain s next cs

abbrev pub Apart : ℕ → List Cell → Type 0
Apart p = All (λ c. p ≢ c.place)

-- No pointer stands twice.
abbrev pub Distinct : List Cell → Type 0
Distinct [] = Unit
Distinct (c ∷ cs) = Apart c.place cs × Distinct cs

pub set_there :
    (s : Store) (p : ℕ) (m n : ListNode) → get_elem? s p ≡ some m → get_elem? (set s p n) p ≡ some n
set_there [] p m n h = absurd (none-ne-some m h)
set_there (x ∷ s) zero m n h = refl
set_there (x ∷ s) (suc p) m n h = set_there s p m n h

pub set_apart :
    (s : Store) (p q : ℕ) (n : ListNode) → p ≢ q → get_elem? (set s p n) q ≡ get_elem? s q
set_apart [] p q n h = refl
set_apart (x ∷ s) zero zero n h = absurd (h refl)
set_apart (x ∷ s) zero (suc q) n h = refl
set_apart (x ∷ s) (suc p) zero n h = refl
set_apart (x ∷ s) (suc p) (suc q) n h = set_apart s p q n (λ e. h (ap suc e))

-- A write to a node outside a list leaves the list.
pub Chain-set :
    (s : Store) (p : ℕ) (n : ListNode) (start : Option ℕ) (cs : List Cell)
    → Apart p cs
    → Chain s start cs
    → Chain (set s p n) start cs
Chain-set s p n start [] h c = c
Chain-set s p n start (x ∷ cs) h (next, here, there, rest) =
    (next, here, set_apart s p x.place n h.0 ∙ there, Chain-set s p n next cs h.1 rest)

pub deref-value : (s : Store) (p : ℕ) (n : ListNode) → get_elem? s p ≡ some n → deref s p ≡ value n
unfolding deref found
deref-value s p n h = rw h refl

pub set_next-value :
    (s : Store) (p : ℕ) (n : ListNode) (q : Option ℕ)
    → get_elem? s p ≡ some n
    → set_next s p q ≡ value (set s p (record n { next = q }))
unfolding set_next
set_next-value s p n q h = rw (deref-value s p n h) refl
