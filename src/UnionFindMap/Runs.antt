-- ===== src/UnionFindMap/Runs.antt =====
-- Calls of add on an empty set, the latest first, and what find then answers.
use mathlib.Core.List.{Memᴰ}
use mathlib.Core.List.Memᴰ
use mathlib.Core.Bool.{So-prop}
use mathlib.Core.Logic.{∥∥₁_elim}
use quick_cmake.Prelude.{
  ◌≡◌, ◌↔◌, refl, sym, subst, Bool, true, none, List, [], ◌∷◌, Option-cases, inl, inr,
}
use quick_cmake.Outcome.{Outcome, value, thrown, out_of_range, ◌>>=◌}
use quick_cmake.UnionFind.Linked.{Linked, pair, same, back, through}
use quick_cmake.UnionFindMap.{
  Sets, empty_sets, equal, lookup, add, find_loop, find, connect, add_both,
}
use quick_cmake.UnionFindMap.Entries.{roots}
use quick_cmake.UnionFindMap.Climbs.{parent_of}
use quick_cmake.UnionFindMap.Joined.{Root, Joins, unique, find_lem, add-Joins}
use quick_cmake.UnionFindMap.Linking.{connect-Joins}

-- A call of add with one value or with two.
pub data Addition (A : Type 0) : Type 0 where
  single : A → Addition A
  joined : A → A → Addition A

-- The values that the calls name.
unfoldable pub elements : {A : Type 0} → List (Addition A) → List A
elements [] = []
elements (single a ∷ cs) = a ∷ elements cs
elements (joined a b ∷ cs) = b ∷ a ∷ elements cs

-- The pairs of the calls with two values.
unfoldable pub pairs : {A : Type 0} → List (Addition A) → List (A × A)
pairs [] = []
pairs (single a ∷ cs) = pairs cs
pairs (joined a b ∷ cs) = (a, b) ∷ pairs cs

-- The calls on an empty set, from the last of the list on.
unfoldable pub run : {A : Type 0} (lesser : A → A → Bool) → List (Addition A) → Outcome (Sets A)
unfolding empty_sets add_both
run lesser [] = value empty_sets
run lesser (single a ∷ cs) = run lesser cs >>= λ s. value (add lesser a s)
run lesser (joined a b ∷ cs) = run lesser cs >>= add_both lesser a b

module _ {A : Type 0} (lesser : A → A → Bool)
    (equal_iff : (a b : A) → (equal lesser a b ≡ true) ↔ (a ≡ b)) where
  empty-Joins : Joins lesser [] [] empty_sets
  unfolding empty_sets lookup roots
  empty-Joins = record {
    known = λ x v h. cc;
    there = λ x m. absurd (Memᴰ.not-nil m);
    count = refl;
    sound = λ x r c. let (v, h) = parent_of lesser equal_iff (c.1) in cc;
    full = λ x y m. absurd (Memᴰ.not-nil m);
  }

  run-Joins :
      (cs : List (Addition A))
      → (t : Sets A) × (run lesser cs ≡ value t) × Joins lesser (elements cs) (pairs cs) t
  unfolding run elements pairs add_both
  run-Joins [] = (empty_sets, refl, empty-Joins)
  run-Joins (single a ∷ cs) =
      let (t, ends, j) = run-Joins cs in
      (add lesser a t, rw ends refl, add-Joins lesser equal_iff (elements cs) (pairs cs) t j a)
  run-Joins (joined a b ∷ cs) =
      let (t, ends, j) = run-Joins cs in
      let j1 = add-Joins lesser equal_iff (elements cs) (pairs cs) t j a in
      let j2 = add-Joins lesser equal_iff (a ∷ elements cs) (pairs cs) (add lesser a t) j1 b in
      let (u, done, j3) =
        connect-Joins lesser equal_iff (b ∷ a ∷ elements cs) (pairs cs)
          (add lesser b (add lesser a t)) j2 a b (Memᴰ.tail (Memᴰ.head refl)) (Memᴰ.head refl) in
      (u, rw ends done, j3)

  -- Linked elements have the same root.
  Linked-roots :
      (cs : List (Addition A)) (s : Sets A) (j : Joins lesser (elements cs) (pairs cs) s) {x y : A}
      → Linked (pairs cs) x y
      → (r : A) → Root lesser s x r ↔ Root lesser s y r
  Linked-roots cs s j (pair {x = x} {y = y} m) r =
      let (q, cx, cy) = j.full x y m in
      (
        λ c. subst (Root lesser s y) (unique lesser equal_iff s cx c) cy,
        λ c. subst (Root lesser s x) (unique lesser equal_iff s cy c) cx,
      )
  Linked-roots cs s j (same e) r =
      (subst (λ z. Root lesser s z r) e, subst (λ z. Root lesser s z r) (sym e))
  Linked-roots cs s j (back l) r = let (to, from) = Linked-roots cs s j l r in (from, to)
  Linked-roots cs s j (through l k) r =
      let (to, from) = Linked-roots cs s j l r in
      let (to', from') = Linked-roots cs s j k r in (λ c. to' (to c), λ c. from (from' c))

  -- Any calls of add return; cnt is then the number of elements that are their own parents, and
  -- find returns for two elements that were added values that are equal exactly if the pairs that
  -- were added together link the two.
  pub run_partitions :
      (cs : List (Addition A)) (x y : A)
      → Memᴰ x (elements cs)
      → Memᴰ y (elements cs)
      → (t : Sets A) × (run lesser cs ≡ value t)
        × (t.cnt ≡ roots lesser t.parent)
        × (rx : A) × (ry : A) × (find lesser t x ≡ value rx)
        × (find lesser t y ≡ value ry)
        × ((equal lesser rx ry ≡ true) ↔ ∥ Linked (pairs cs) x y ∥₁)
  run_partitions cs x y mx my =
      let (t, ends, j) = run-Joins cs in
      let (rx, cx) = j.there x mx in
      let (ry, cy) = j.there y my in
      (
        t,
        ends,
        sym j.count,
        rx,
        ry,
        find_lem lesser equal_iff (elements cs) (pairs cs) t j cx,
        find_lem lesser equal_iff (elements cs) (pairs cs) t j cy,
        (
          λ e.
              let one = (equal_iff rx ry).0 e in
              ∣ through (j.sound x rx cx) (rw one (back (j.sound y ry cy))) ∣₁,
          λ l. ∥∥₁_elim l (So-prop _) λ k.
              (equal_iff rx ry).1 (unique lesser equal_iff t ((Linked-roots cs t j k rx).0 cx) cy),
        ),
      )

  -- Behind any calls of add, find, and connect with it, throws std::out_of_range for a value that
  -- was not added.
  pub find_unexist :
      (cs : List (Addition A)) (x y : A)
      → ¬ Memᴰ x (elements cs)
      → (t : Sets A) × (run lesser cs ≡ value t)
        × (find lesser t x ≡ thrown out_of_range)
        × (connect lesser x y t ≡ thrown out_of_range)
        × (connect lesser y x t ≡ thrown out_of_range)
  unfolding find connect find_loop
  find_unexist cs x y new =
      let (t, ends, j) = run-Joins cs in
      let missing : lookup lesser x t.parent ≡ none =
        elim (Option-cases (lookup lesser x t.parent)) [
          | inl h ↦ h
          | inr (v, h) ↦ absurd (new (j.known x v h))
        ] in
      (t, ends, rw (find_loop, missing) refl, rw (find_loop, missing) refl, second t j missing)
    where
      second :
          (t : Sets A)
          → Joins lesser (elements cs) (pairs cs) t
          → lookup lesser x t.parent ≡ none
          → connect lesser y x t ≡ thrown out_of_range
      second t j missing = elim (Option-cases (lookup lesser y t.parent)) [
        | inl h ↦ rw (find_loop, h) refl
        | inr (v, h) ↦
            let (r, c) = j.there y (j.known y v h) in
            rw (find_lem lesser equal_iff (elements cs) (pairs cs) t j c)
              (rw (find_loop, missing) refl)
      ]
