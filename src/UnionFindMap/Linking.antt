-- ===== src/UnionFindMap/Linking.antt =====
-- connect: the sets of one more pair.
use mathlib.Core.List.{Memᴰ}
use mathlib.Core.Path.{subst₂}
use quick_cmake.Prelude.{
  suc, ◌-◌, ◌≤◌, ◌≡◌, ◌≢◌, ◌↔◌, refl, sym, ap, subst, Bool, true, some, List, ◌∷◌, arith,
  if◌then◌else◌, Bool-cases, inl, inr,
}
use quick_cmake.Outcome.{value}
use quick_cmake.UnionFind.Linked.{Linked, pair, same, back, through, weaken}
use quick_cmake.UnionFindMap.{Sets, equal, lookup, write, connect}
use quick_cmake.UnionFindMap.Entries.{lookup-write, roots-write, roots-pos, length-write}
use quick_cmake.UnionFindMap.Climbs.{root_parent, parent_of, write-Climb}
use quick_cmake.UnionFindMap.Joined.{Root, Joins, unique, find_lem}

module _ {A : Type 0} (lesser : A → A → Bool)
    (equal_iff : (a b : A) → (equal lesser a b ≡ true) ↔ (a ≡ b)) where
  module _ (xs : List A) (es : List (A × A)) (s : Sets A) (j : Joins lesser xs es s) where
    -- One more pair, with `ra` the root of `a` and `rb` that of `b`.
    module _ (a b ra rb : A) (ca : Root lesser s a ra) (cb : Root lesser s b rb) where
      same-Joins : ra ≡ rb → Joins lesser xs ((a, b) ∷ es) s
      same-Joins e = record {
        known = j.known;
        there = j.there;
        count = j.count;
        sound = λ x r c. weaken (j.sound x r c);
        full = full';
      }
        where
          full' :
              (x y : A)
              → Memᴰ (x, y) ((a, b) ∷ es)
              → (r : A) × Root lesser s x r × Root lesser s y r
          full' x y (Memᴰ.head q) = (
            rb,
            subst₂ (Root lesser s) (ap (λ p. p.0) (sym q)) e ca,
            subst (λ z. Root lesser s z rb) (ap (λ p. p.1) (sym q)) cb,
          )
          full' x y (Memᴰ.tail m) = j.full x y m

      module _ (ne : ra ≢ rb) where
        abbrev linked : Sets A
        linked = record { cnt = s.cnt - 1; parent = write lesser ra rb s.parent }

        abbrev to : A → A
        to r = if equal lesser ra r then rb else r

        ha : lookup lesser ra s.parent ≡ some ra
        ha = root_parent lesser equal_iff (ca.1)

        hb : lookup lesser rb s.parent ≡ some rb
        hb = root_parent lesser equal_iff (cb.1)

        some_root : 1 ≤ s.cnt
        some_root = omega (arith, roots-pos lesser equal_iff ra s.parent ha, j.count)

        old : {x r : A} → Root lesser s x r → Root lesser linked x (to r)
        old (k, c, room) = (
          suc k,
          write-Climb lesser equal_iff s.parent ra rb ha hb ne c,
          omega (arith, some_root, length-write lesser ra rb s.parent),
        )

        was_known : (x v : A) → lookup lesser x linked.parent ≡ some v → Memᴰ x xs
        was_known x v h = elim (Bool-cases (equal lesser ra x)) [
          | inl e ↦ subst (λ z. Memᴰ z xs) ((equal_iff ra x).0 e) (j.known ra ra ha)
          | inr e ↦
              j.known x v (ground (arith, lookup-write lesser equal_iff ra rb x ra s.parent ha))
        ]

        new_link : Linked ((a, b) ∷ es) ra rb
        new_link =
            through (back (weaken (j.sound a ra ca)))
              (through (pair (Memᴰ.head refl)) (weaken (j.sound b rb cb)))

        old_to : (q : A) → Linked ((a, b) ∷ es) q (to q)
        old_to q = elim (Bool-cases (equal lesser ra q)) [
          | inl e ↦ rw e (subst (λ z. Linked ((a, b) ∷ es) z rb) ((equal_iff ra q).0 e) new_link)
          | inr e ↦ rw e (same refl)
        ]

        link-Joins : Joins lesser xs ((a, b) ∷ es) linked
        link-Joins = record {
          known = was_known;
          there = λ x m. let (r, c) = j.there x m in (to r, old c);
          count = omega (arith, roots-write lesser equal_iff ra rb s.parent ha ne, j.count);
          sound = sound';
          full = full';
        }
          where
            sound' : (x r : A) → Root lesser linked x r → Linked ((a, b) ∷ es) x r
            sound' x r d =
                let (v, h) = parent_of lesser equal_iff (d.1) in
                let (q, e) = j.there x (was_known x v h) in
                through (weaken (j.sound x q e)) (
                  subst (Linked ((a, b) ∷ es) q) (unique lesser equal_iff linked (old e) d)
                    (old_to q))

            full' :
                (x y : A)
                → Memᴰ (x, y) ((a, b) ∷ es)
                → (r : A) × Root lesser linked x r × Root lesser linked y r
            full' x y (Memᴰ.head e) =
                let meets : to ra ≡ to rb = ground (arith, equal_iff ra ra, equal_iff ra rb) in
                (
                  to rb,
                  subst₂ (Root lesser linked) (ap (λ p. p.0) (sym e)) meets (old ca),
                  subst (λ z. Root lesser linked z (to rb)) (ap (λ p. p.1) (sym e)) (old cb),
                )
            full' x y (Memᴰ.tail m) = let (r, cx, cy) = j.full x y m in (to r, old cx, old cy)

    pub connect-Joins :
        (a b : A)
        → Memᴰ a xs
        → Memᴰ b xs
        → (t : Sets A) × (connect lesser a b s ≡ value t) × Joins lesser xs ((a, b) ∷ es) t
    unfolding connect
    connect-Joins a b ma mb =
        let (ra, ca) = j.there a ma in
        let (rb, cb) = j.there b mb in
        elim (Bool-cases (equal lesser ra rb)) [
          | inl e ↦ (
            s,
            rw (find_lem lesser equal_iff xs es s j ca, find_lem lesser equal_iff xs es s j cb)
                (rw e),
            same-Joins a b ra rb ca cb ((equal_iff ra rb).0 e),
          )
          | inr e ↦ (
            linked a b ra rb ca cb (λ q. ground (arith, equal_iff ra rb)),
            rw (find_lem lesser equal_iff xs es s j ca, find_lem lesser equal_iff xs es s j cb)
                (rw e),
            link-Joins a b ra rb ca cb (λ q. ground (arith, equal_iff ra rb)),
          )
        ]
