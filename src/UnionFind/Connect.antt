-- ===== src/UnionFind/Connect.antt =====
-- The invariant of UnionFindSet<int>, and find, connect and is_connected under it.
use native.Mathlib.Decide.{ℕ_discrete}
use quick_cmake.Prelude.{
  ℕ, zero, suc, ◌+◌, ◌-◌, ◌≤◌, ◌<◌, ◌≡◌, refl, sym, subst, ◌∙◌, ◌≢◌, some, List, [], ◌∷◌, length,
  get_elem?, set, length-set, arith, ◌==◌, if◌then◌else◌, Bool-cases, inl, inr, ==→eq,
}
use quick_cmake.Outcome.{value}
use quick_cmake.UnionFind.{UnionFind, find, connect, is_connected}
use quick_cmake.UnionFind.Climb.{Climb, top, up, get-set, Climb-root, root_parent, Climb-unique}
use quick_cmake.UnionFind.Find.{roots, roots-set, Same, Same-trans, find_loop_lem}

-- Every element has a root, no chain is longer than the number of successful connects, and `cnt` is
-- the number of roots.
pub record IsForest (s : UnionFind) : Type 0 where
  pub rooted :
      (a : ℕ) → a < length s.parent → (r : ℕ) × Climb s.parent (length s.parent - s.cnt) a r
  pub count : roots 0 s.parent ≡ s.cnt

-- The root of an element.
abbrev pub Root : UnionFind → ℕ → ℕ → Type 0
Root s a r = (k : ℕ) × Climb s.parent k a r

roots-le : (i : ℕ) (p : List ℕ) → roots i p ≤ length p
unfolding roots
roots-le i [] = omega arith
roots-le i (x ∷ p) = ground (arith, roots-le (i + 1) p)

roots-pos : (i : ℕ) (p : List ℕ) (r v : ℕ) → get_elem? p r ≡ some v → v ≡ i + r → 1 ≤ roots i p
unfolding roots
roots-pos i [] r v h e = cc
roots-pos i (x ∷ p) zero v h e = ground arith
roots-pos i (x ∷ p) (suc r) v h e = ground (arith, roots-pos (i + 1) p r v)

module _ (s : UnionFind) where
  find_lem :
      {k a r : ℕ}
      → Climb s.parent k a r
      → k < length s.parent
      → (t : UnionFind) × (find s a ≡ value (r, t)) × Same s.parent t.parent × (t.cnt ≡ s.cnt)
  unfolding find
  find_lem {k = k} {a = a} {r = r} c h =
      let (q, done, same) = find_loop_lem (length s.parent) k a r s.parent c h in
      (record s { parent = q }, rw done, same, refl)

  -- The chains are shorter than the number of elements.
  short : (a : ℕ) → IsForest s → a < length s.parent → length s.parent - s.cnt < length s.parent
  short a f h =
      let (r, c) = f.rooted a h in
      omega (arith, roots-pos 0 s.parent r r (root_parent c) (omega arith), f.count)

  pub Same-IsForest :
      {t : UnionFind} → IsForest s → Same s.parent t.parent → t.cnt ≡ s.cnt → IsForest t
  Same-IsForest {t = t} f e n = record {
    rooted = λ a h.
        let (r, c) = f.rooted a (omega (arith, e.size)) in
        let steps : length s.parent - s.cnt ≡ length t.parent - t.cnt = omega (arith, e.size) in
        (r, subst (λ k. Climb t.parent k a r) steps (e.climbs _ a r c));
    count = e.count ∙ f.count ∙ sym n;
  }

  -- find returns the root of an element that is there, and keeps the roots of all.
  pub find_correct :
      (a : ℕ)
      → IsForest s
      → a < length s.parent
      → (r : ℕ) × (t : UnionFind) × (find s a ≡ value (r, t))
        × Root s a r
        × IsForest t
        × Same s.parent t.parent
        × (t.cnt ≡ s.cnt)
  find_correct a f h =
      let (r, c) = f.rooted a h in
      let (t, done, same, n) = find_lem c (short a f h) in
      (r, t, done, (_, c), Same-IsForest f same n, same, n)

-- Making the root `ra` the parent of the root `rb`.
module _ (p : List ℕ) (ra rb : ℕ) (ha : get_elem? p ra ≡ some ra) (hb : get_elem? p rb ≡ some rb)
    (ne : ra ≢ rb) where
  -- The root of an element whose root was `r`.
  abbrev joined : ℕ → ℕ
  joined r = if r == rb then ra else r

  get_joined : get_elem? (set p rb ra) ra ≡ some ra
  get_joined = ground (arith, get-set p rb ra ra rb hb)

  moved : {k x : ℕ} → x ≡ rb → Climb (set p rb ra) (suc k) x ra
  moved {x = x} e = up (ground (arith, get-set p rb x ra rb hb)) (top refl get_joined)

  set-joined : {k x s : ℕ} → Climb p k x s → Climb (set p rb ra) (suc k) x (joined s)
  set-joined (top {k = k} {a = x} {r = s} e g) = elim (ℕ_discrete x rb) [
    | yes same ↦
        let to : joined s ≡ ra = ground arith in
        subst (Climb (set p rb ra) (suc k) x) (sym to) (moved same)
    | no other ↦
        let to : x ≡ joined s = ground arith in top to (ground (arith, get-set p rb x ra rb hb))
  ]
  set-joined (up {k = k} {a = x} {r = s} g c) = elim (ℕ_discrete x rb) [
    | yes same ↦
        let s_is : s ≡ rb = Climb-root (up g c) (rw same hb) ∙ same in
        let to : joined s ≡ ra = ground arith in
        subst (Climb (set p rb ra) (suc (suc k)) x) (sym to) (moved same)
    | no other ↦ up (ground (arith, get-set p rb x ra rb hb)) (set-joined c)
  ]

  roots-joined : roots 0 (set p rb ra) + 1 ≡ roots 0 p
  roots-joined = ground (arith, roots-set 0 p rb rb ra hb)

-- What connect leaves: the elements of the set of `b` have got the root of `a`, and the count has
-- fallen by one exactly if the two sets were different.
pub record Connected (s t : UnionFind) (ra rb : ℕ) : Type 0 where
  pub forest : IsForest t
  pub size : length t.parent ≡ length s.parent
  pub root : (x r : ℕ) → Root s x r → Root t x (if r == rb then ra else r)
  pub count : t.cnt + (if ra == rb then 0 else 1) ≡ s.cnt

module _ (s : UnionFind) (ra rb : ℕ) (f : IsForest s) (ha : get_elem? s.parent ra ≡ some ra)
    (hb : get_elem? s.parent rb ≡ some rb) where
  link-Connected :
      ra ≢ rb → Connected s (record s { parent = set s.parent rb ra; cnt = s.cnt - 1 }) ra rb
  link-Connected ne =
      let fell = roots-joined s.parent ra rb ha hb ne in
      let size = length-set s.parent rb ra in
      let some_root = roots-pos 0 s.parent ra ra ha (omega arith) in
      let few = roots-le 0 s.parent in
      record {
        forest = record {
          rooted = λ x h.
              let (r, c) = f.rooted x (omega (arith, size)) in
              let deeper : suc (length s.parent - s.cnt)
                  ≡ length (set s.parent rb ra) - (s.cnt - 1) =
                omega (arith, size, f.count) in
              (
                if r == rb then ra else r,
                subst (λ k. Climb (set s.parent rb ra) k x (if r == rb then ra else r)) deeper
                    (set-joined s.parent ra rb ha hb ne c),
              );
          count = omega (arith, fell, f.count);
        };
        size = size;
        root = λ x r c. (_, set-joined s.parent ra rb ha hb ne c.1);
        count = ground (arith, f.count);
      }

  same-Connected : ra ≡ rb → Connected s s ra rb
  same-Connected e = record {
    forest = f;
    size = refl;
    root =
        λ x r c. let to : r ≡ (if r == rb then ra else r) = ground arith in subst (Root s x) to c;
    count = ground arith;
  }

-- The two calls of find in connect and is_connected.
record TwoFinds (s : UnionFind) (a b : ℕ) : Type 0 where
  ra : ℕ
  rb : ℕ
  s1 : UnionFind
  s2 : UnionFind
  first : find s a ≡ value (ra, s1)
  second : find s1 b ≡ value (rb, s2)
  root_a : Root s a ra
  root_b : Root s b rb
  forest : IsForest s2
  same : Same s.parent s2.parent
  kept : s2.cnt ≡ s.cnt

from_second :
    {s t : UnionFind} {a b ra rb : ℕ} (r : TwoFinds s a b)
    → Connected r.s2 t ra rb
    → Connected s t ra rb
from_second r c = record {
  forest = c.forest;
  size = c.size ∙ r.same.size;
  root = λ x y d. c.root x y (d.0, r.same.climbs d.0 x y d.1);
  count = c.count ∙ r.kept;
}

module _ (s : UnionFind) (a b : ℕ) (f : IsForest s) (ha : a < length s.parent)
    (hb : b < length s.parent) where
  two_finds : TwoFinds s a b
  two_finds =
      let (ra, s1, first, root_a, f1, same1, kept1) = find_correct s a f ha in
      let (rb, s2, second, (k, c), f2, same2, kept2) =
        find_correct s1 b f1 (omega (arith, same1.size)) in
      let (r, d) = f.rooted b hb in
      let here : r ≡ rb = Climb-unique (same1.climbs _ b r d) c in
      record {
        ra = ra;
        rb = rb;
        s1 = s1;
        s2 = s2;
        first = first;
        second = second;
        root_a = root_a;
        root_b = subst (Root s b) here (_, d);
        forest = f2;
        same = Same-trans same1 same2;
        kept = kept2 ∙ kept1;
      }

  -- connect on elements that are there returns; every element keeps its root, but that the elements
  -- of the set of `b` get the root of `a`, and the count falls by one exactly if the roots differ.
  pub connect_correct :
      (ra : ℕ) × (rb : ℕ) × (t : UnionFind) × (connect a b s ≡ value t)
      × Root s a ra
      × Root s b rb
      × Connected s t ra rb
  unfolding connect
  connect_correct =
      let r = two_finds in
      let root_of = λ (x y : ℕ) (c : Root s x y). r.same.climbs c.0 x y c.1 in
      let ha' = root_parent (root_of a r.ra r.root_a) in
      let hb' = root_parent (root_of b r.rb r.root_b) in
      elim (Bool-cases (r.ra == r.rb)) [
        | inl e ↦ (
          r.ra,
          r.rb,
          r.s2,
          rw (r.first, r.second) (rw e),
          r.root_a,
          r.root_b,
          from_second r (same-Connected r.s2 r.ra r.rb r.forest ha' hb' (==→eq _ _ e)),
        )
        | inr e ↦ (
          r.ra,
          r.rb,
          record r.s2 { parent = set r.s2.parent r.rb r.ra; cnt = r.s2.cnt - 1 },
          rw (r.first, r.second) (rw e),
          r.root_a,
          r.root_b,
          from_second r (link-Connected r.s2 r.ra r.rb r.forest ha' hb' (ground arith)),
        )
      ]

  -- is_connected on elements that are there answers whether their roots are the same, and keeps
  -- the roots and the count.
  pub is_connected_correct :
      (ra : ℕ) × (rb : ℕ) × (t : UnionFind) × (is_connected a b s ≡ value (ra == rb, t))
      × Root s a ra
      × Root s b rb
      × IsForest t
      × Same s.parent t.parent
      × (t.cnt ≡ s.cnt)
  unfolding is_connected
  is_connected_correct =
      let r = two_finds in
      (r.ra, r.rb, r.s2, rw (r.first, r.second), r.root_a, r.root_b, r.forest, r.same, r.kept)
