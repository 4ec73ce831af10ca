-- ===== src/UnionFind/Find.antt =====
-- find: the root that it returns, and what path compression keeps.
use native.Mathlib.Decide.{ℕ_discrete}
use quick_cmake.Prelude.{
  ℕ, zero, suc, ◌+◌, ◌<◌, ◌≡◌, refl, sym, ap, subst, ◌∙◌, ◌≢◌, false, some, List, [], ◌∷◌, length,
  get_elem?, set, length-set, arith, ◌==◌, if◌then◌else◌, ==_refl,
}
use mathlib.Core.Option.{some-injective}
use quick_cmake.Outcome.{value}
use quick_cmake.UnionFind.{load, find_loop}
use quick_cmake.UnionFind.Climb.{
  Climb, top, up, get-set, Climb-root, root_parent, Climb-unique, parent_of,
}

-- How many elements are their own parents, from index `i` on.
unfoldable pub roots : ℕ → List ℕ → ℕ
roots i [] = 0
roots i (x ∷ p) = (if x == i then 1 else 0) + roots (i + 1) p

pub roots-set :
    (i : ℕ) (p : List ℕ) (a b v : ℕ)
    → get_elem? p a ≡ some b
    → roots i (set p a v) + (if b == i + a then 1 else 0)
      ≡ roots i p + (if v == i + a then 1 else 0)
unfolding roots
roots-set i [] a b v h = cc
roots-set i (x ∷ p) zero b v h = ground arith
roots-set i (x ∷ p) (suc a) b v h = ground (arith, roots-set (i + 1) p a b v)

-- The elements, their roots and the number of roots are those of `p`.
pub record Same (p q : List ℕ) : Type 0 where
  pub size : length q ≡ length p
  pub climbs : (k x r : ℕ) → Climb p k x r → Climb q k x r
  pub count : roots 0 q ≡ roots 0 p

pub Same-refl : (p : List ℕ) → Same p p
Same-refl p = record { size = refl; climbs = λ k x r c. c; count = refl }

pub Same-trans : {p q r : List ℕ} → Same p q → Same q r → Same p r
Same-trans s t = record {
  size = t.size ∙ s.size;
  climbs = λ k x r c. t.climbs k x r (s.climbs k x r c);
  count = t.count ∙ s.count;
}

-- Writing the root of an element, which is not a root, as its parent changes no root.
module _ (p : List ℕ) (a b r j : ℕ) (at : get_elem? p a ≡ some b) (c : Climb p j a r) where
  get_root : get_elem? (set p a r) r ≡ some r
  get_root = ground (arith, get-set p a r r b at, root_parent c)

  set-climbs : {k x s : ℕ} → Climb p k x s → Climb (set p a r) k x s
  set-climbs (top {a = x} e g) = top e (elim (ℕ_discrete a x) [
    | yes same ↦
        let self : get_elem? p a ≡ some a = ground arith in
        ground (arith, get-set p a x r b at, Climb-root c self)
    | no other ↦ ground (arith, get-set p a x r b at)
  ])
  set-climbs (up {k = k} {a = x} {r = s} g d) = elim (ℕ_discrete a x) [
    | yes same ↦
        let s_is : r ≡ s = Climb-unique (subst (λ z. Climb p j z r) same c) (up g d) in
        up (ground (arith, get-set p a x r b at)) (top s_is get_root)
    | no other ↦ up (ground (arith, get-set p a x r b at)) (set-climbs d)
  ]

  pub set-Same : b ≢ a → Same p (set p a r)
  set-Same ne = record {
    size = length-set p a r;
    climbs = λ k x s d. set-climbs d;
    count = ground (arith, roots-set 0 p a b r at, other_root);
  }
    where
      other_root : r ≢ a
      other_root e =
          let self : get_elem? p a ≡ some a = rw e at (root_parent c) in ne (ground arith)

pub load-eq : (p : List ℕ) (a b : ℕ) → get_elem? p a ≡ some b → load p a ≡ value b
unfolding load
load-eq p a b h = rw (h, load)

module _ (fuel a : ℕ) (p : List ℕ) where
  find_loop_self : get_elem? p a ≡ some a → find_loop (suc fuel) p a ≡ value (a, p)
  unfolding find_loop
  find_loop_self g = rw (load-eq p a a g, find_loop) (rw (==_refl a))

  find_loop-up :
      (b r : ℕ) (q : List ℕ)
      → get_elem? p a ≡ some b
      → b ≢ a
      → find_loop fuel p b ≡ value (r, q)
      → find_loop (suc fuel) p a ≡ value (r, set q a r)
  unfolding find_loop
  find_loop-up b r q g ne h =
      let test : (b == a) ≡ false = ground arith in rw (load-eq p a b g, find_loop) (rw test (rw h))

-- find returns the root, and keeps all roots, where the fuel is more than the length of the chain.
pub find_loop_lem :
    (fuel k a r : ℕ) (p : List ℕ)
    → Climb p k a r
    → k < fuel
    → (q : List ℕ) × (find_loop fuel p a ≡ value (r, q)) × Same p q
find_loop_lem zero k a r p c h = absurd (omega arith)
find_loop_lem (suc fuel) k a r p (top e g) h =
    (p, find_loop_self fuel a p g ∙ ap (λ z. value (z, p)) e, Same-refl p)
find_loop_lem (suc fuel) (suc k) a r p (up {b = b} g c) h = elim (ℕ_discrete b a) [
  | yes same ↦
      let self : get_elem? p a ≡ some a = rw same at g in
      (
        p,
        find_loop_self fuel a p self ∙ ap (λ z. value (z, p)) (sym (Climb-root (up g c) self)),
        Same-refl p,
      )
  | no other ↦
      let (q, done, s) = find_loop_lem fuel k b r p c (omega arith) in
      let c' : Climb q (suc k) a r = s.climbs (suc k) a r (up g c) in
      let (b', at) = parent_of c' in
      let moved : b' ≢ a = λ e.
        let self : get_elem? q a ≡ some a = rw e at at in
        let root : r ≡ a = Climb-root c' self in
        other (some-injective b a (sym g ∙ rw root at (root_parent (up g c)))) in
      (
        set q a r,
        find_loop-up fuel a p b r q g other done,
        Same-trans s (set-Same q a b' r (suc k) at c' moved),
      )
]
