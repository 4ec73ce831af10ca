-- ===== src/UnionFindMap/Joined.antt =====
-- The elements and sets that calls have made, and what add makes of them.
use mathlib.Core.List.{Memᴰ}
use quick_cmake.Prelude.{
  ℕ, suc, ◌+◌, ◌≤◌, ◌≡◌, ◌↔◌, refl, sym, subst, ◌∙◌, Bool, true, none, some, List, ◌∷◌, length,
  arith, if◌then◌else◌, Bool-cases, Option-cases, inl, inr,
}
use quick_cmake.Outcome.{value}
use quick_cmake.UnionFind.Linked.{Linked, same}
use quick_cmake.UnionFindMap.{Sets, equal, lookup, insert, add, find}
use quick_cmake.UnionFindMap.Entries.{roots, roots-le, lookup-insert, roots-insert, length-insert}
use quick_cmake.UnionFindMap.Climbs.{
  Climb, top, Climb-unique, parent_of, find_loop_lem, insert-Climb,
}

-- The root of an element, over a chain that leaves room for the roots.
abbrev pub Root : {A : Type 0} (lesser : A → A → Bool) → Sets A → A → A → Type 0
Root lesser s a r = (k : ℕ) × Climb lesser s.parent k a r × (k + s.cnt ≤ length s.parent)

-- The set has the elements `xs`, in the sets that the pairs `es` make.
pub record Joins {A : Type 0} (lesser : A → A → Bool) (xs : List A) (es : List (A × A)) (s : Sets A)
    : Type 0 where
  pub known : (x v : A) → lookup lesser x s.parent ≡ some v → Memᴰ x xs
  pub there : (x : A) → Memᴰ x xs → (r : A) × Root lesser s x r
  pub count : roots lesser s.parent ≡ s.cnt
  pub sound : (x r : A) → Root lesser s x r → Linked es x r
  pub full : (x y : A) → Memᴰ (x, y) es → (r : A) × Root lesser s x r × Root lesser s y r

module _ {A : Type 0} (lesser : A → A → Bool)
    (equal_iff : (a b : A) → (equal lesser a b ≡ true) ↔ (a ≡ b)) where
  pub unique : (s : Sets A) {x r q : A} → Root lesser s x r → Root lesser s x q → r ≡ q
  unique s (k, c, _) (j, d, _) = Climb-unique lesser equal_iff c d

  module _ (xs : List A) (es : List (A × A)) (s : Sets A) (j : Joins lesser xs es s) where
    pub find_lem : {a r : A} → Root lesser s a r → find lesser s a ≡ value r
    unfolding find
    find_lem (k, c, room) =
        find_loop_lem lesser equal_iff (suc (length s.parent)) s.parent c (omega arith)

    -- A new element is its own root, and the others keep theirs.
    module _ (a : A) (new : lookup lesser a s.parent ≡ none) where
      abbrev grown : Sets A
      grown = record { cnt = s.cnt + 1; parent = insert lesser a a s.parent }

      at :
          (x : A)
          → lookup lesser x grown.parent
            ≡ (if equal lesser a x then some a else lookup lesser x s.parent)
      at x = lookup-insert lesser equal_iff a a x s.parent new

      more : length grown.parent ≡ length s.parent + 1
      more = length-insert lesser a a s.parent

      kept : {x r : A} → Root lesser s x r → Root lesser grown x r
      kept (k, c, room) = (k, insert-Climb lesser equal_iff a new c, omega (arith, more))

      own : Root lesser grown a a
      own = (
        0,
        top refl (ground (arith, at a, equal_iff a a)),
        omega (arith, more, j.count, roots-le lesser s.parent),
      )

      -- A root behind the call was one before, or is the new element's.
      was : {x r : A} → Root lesser grown x r → Linked es x r
      was {x = x} {r = r} d = elim (Option-cases (lookup lesser x s.parent)) [
        | inr (v, h) ↦
            let (q, e) = j.there x (j.known x v h) in
            subst (Linked es x) (unique grown (kept e) d) (j.sound x q e)
        | inl h ↦
            let (_, g) = parent_of lesser equal_iff (d.1) in
            let is : a ≡ x = ground (arith, at x, equal_iff a x) in
            same (sym is ∙ unique grown (subst (λ z. Root lesser grown z a) is own) d)
      ]

      grown-Joins : Joins lesser (a ∷ xs) es grown
      grown-Joins = record {
        known = λ x v h. elim (Bool-cases (equal lesser a x)) [
          | inl e ↦ Memᴰ.head (sym ((equal_iff a x).0 e))
          | inr e ↦ Memᴰ.tail (j.known x v (ground (arith, at x)))
        ];
        there = λ x m. there' x m;
        count = omega (arith, roots-insert lesser equal_iff a s.parent, j.count);
        sound = λ x r d. was d;
        full = λ x y m. let (r, c, d) = j.full x y m in (r, kept c, kept d);
      }
        where
          there' : (x : A) → Memᴰ x (a ∷ xs) → (r : A) × Root lesser grown x r
          there' x (Memᴰ.head e) = (a, subst (λ z. Root lesser grown z a) (sym e) own)
          there' x (Memᴰ.tail m) = let (r, c) = j.there x m in (r, kept c)

    pub add-Joins : (a : A) → Joins lesser (a ∷ xs) es (add lesser a s)
    unfolding add
    add-Joins a = elim (Option-cases (lookup lesser a s.parent)) [
      | inl new ↦ rw (add, new) (grown-Joins a new)
      | inr (v, old) ↦
          rw (add, old)
            (record {
              known = λ x v h. Memᴰ.tail (j.known x v h);
              there = there' v old;
              count = j.count;
              sound = j.sound;
              full = j.full;
            })
    ]
      where
        there' :
            (v : A)
            → lookup lesser a s.parent ≡ some v
            → (x : A) → Memᴰ x (a ∷ xs)
            → (r : A) × Root lesser s x r
        there' v old x (Memᴰ.head e) = j.there x (subst (λ z. Memᴰ z xs) (sym e) (j.known a v old))
        there' v old x (Memᴰ.tail m) = j.there x m
