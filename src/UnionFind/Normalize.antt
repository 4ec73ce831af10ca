-- ===== src/UnionFind/Normalize.antt =====
-- normalize makes the root of each element its parent.
use mathlib.Core.Option.{some-injective}
use native.Mathlib.Decide.{ℕ_discrete}
use quick_cmake.Prelude.{
  ℕ, zero, suc, ◌+◌, ◌<◌, ◌≡◌, refl, sym, ap, subst, ◌∙◌, ◌≢◌, some, List, length, get_elem?, set,
  arith, ◌==◌, Bool-cases, inl, inr,
}
use quick_cmake.Outcome.{Outcome, value, ◌>>=◌}
use quick_cmake.UnionFind.{UnionFind, find, normalize_loop, normalize}
use quick_cmake.UnionFind.Climb.{
  Climb, top, up, get-lt, get-set, Climb-root, root_parent, Climb-unique, Climb-in, parent_of,
}
use quick_cmake.UnionFind.Find.{Same, Same-refl, Same-trans, set-Same, load-eq}
use quick_cmake.UnionFind.Connect.{IsForest, Root, find_correct, Same-IsForest}

-- What a round or a run of the loop keeps.
record Kept (s t : UnionFind) : Type 0 where
  pub forest : IsForest t
  pub same : Same s.parent t.parent
  pub count : t.cnt ≡ s.cnt

-- The element's parent is its root, if it is not a root itself.
Flat : UnionFind → ℕ → Type 0
Flat s a = (r : ℕ) × Climb s.parent 1 a r

-- The body of the loop where the parent of `i` is not `i`.
compress : ℕ → ℕ → UnionFind → Outcome UnionFind
compress i b s = find s b >>= λ r. value (record r.1 { parent = set r.1.parent i r.0 })

parent_inside : {p : List ℕ} {k i r b : ℕ} → Climb p k i r → get_elem? p i ≡ some b → b < length p
parent_inside {p = p} {i = i} {b = b} (top e g) h =
    subst (λ z. z < length p) (some-injective i b (sym g ∙ h)) (get-lt p i i g)
parent_inside {p = p} {b = b} (up {b = b'} g c) h =
    subst (λ z. z < length p) (some-injective b' b (sym g ∙ h)) (Climb-in c)

compress_correct :
    (s : UnionFind) (i b : ℕ)
    → IsForest s
    → get_elem? s.parent i ≡ some b
    → b ≢ i
    → (t : UnionFind) × (compress i b s ≡ value t) × Kept s t × Flat t i
unfolding compress Flat
compress_correct s i b f at ne =
    let (_, ci) = f.rooted i (get-lt s.parent i b at) in
    let (r, t, done, (k, cb), ft, same, n) = find_correct s b f (parent_inside ci at) in
    let ct = same.climbs (suc k) i r (up at cb) in
    let (b', at') = parent_of ct in
    let other : r ≢ i = λ e.
      let self : get_elem? s.parent i ≡ some i = rw e at (root_parent cb) in
      ne (some-injective b i (sym at ∙ self)) in
    let other' : b' ≢ i = λ e. other (Climb-root ct (at' ∙ ap some e)) in
    let same' = set-Same t.parent i b' r (suc k) at' ct other' in
    let mine : get_elem? (set t.parent i r) i ≡ some r =
      ground (arith, get-set t.parent i i r b' at') in
    let root : get_elem? (set t.parent i r) r ≡ some r =
      ground (arith, get-set t.parent i r r b' at', root_parent ct) in
    (
      record t { parent = set t.parent i r },
      rw done refl,
      record { forest = Same-IsForest t ft same' refl; same = Same-trans same same'; count = n },
      (r, up mine (top refl root)),
    )

Kept-trans : {s t u : UnionFind} → Kept s t → Kept t u → Kept s u
Kept-trans k l = record {
  forest = l.forest;
  same = Same-trans k.same l.same;
  count = l.count ∙ k.count;
}

normalize_loop-Flat :
    (n i : ℕ) (s : UnionFind)
    → IsForest s
    → i + n ≡ length s.parent
    → ((a : ℕ) → a < i → Flat s a)
    → (t : UnionFind) × (normalize_loop n i s ≡ value t)
      × Kept s t
      × ((a : ℕ) → a < length s.parent → Flat t a)
unfolding normalize_loop Flat compress
normalize_loop-Flat zero i s f h flat = (
  s,
  refl,
  record { forest = f; same = Same-refl s.parent; count = refl },
  λ a l. flat a (omega arith),
)
normalize_loop-Flat (suc n) i s f h flat =
    let (_, c) = f.rooted i (omega arith) in
    let (b, at) = parent_of c in
    let loaded = load-eq s.parent i b at in
    elim (Bool-cases (b == i)) [
      | inl e ↦
          let self : get_elem? s.parent i ≡ some i = ground arith in
          let flat' : (a : ℕ) → a < i + 1 → Flat s a = λ a l. elim (ℕ_discrete a i) [
            | yes same ↦ (a, top refl (rw same self))
            | no other ↦ flat a (omega arith)
          ] in
          let (t, ends, kept, all) = normalize_loop-Flat n (i + 1) s f (omega arith) flat' in
          (t, rw (loaded, e) ends, kept, all)
      | inr e ↦
          let (t, done, kept, mine) = compress_correct s i b f at (λ q. ground arith) in
          let flat' : (a : ℕ) → a < i + 1 → Flat t a = λ a l. elim (ℕ_discrete a i) [
            | yes same ↦ subst (Flat t) (sym same) mine
            | no other ↦ let (r, d) = flat a (omega arith) in (r, kept.same.climbs 1 a r d)
          ] in
          let (u, ends, kept', all) =
            normalize_loop-Flat n (i + 1) t kept.forest (omega (arith, kept.same.size)) flat' in
          (
            u,
            rw (loaded, e, done) ends,
            Kept-trans {u = u} kept kept',
            λ a l. all a (omega (arith, kept.same.size)),
          )
    ]

flat_parent : {p : List ℕ} {a r : ℕ} → Climb p 1 a r → get_elem? p a ≡ some r
flat_parent (top e g) = g ∙ ap some e
flat_parent (up g (top e h)) = g ∙ ap some e

-- In a well-formed set, normalize returns, makes the root of an element its parent, and keeps the
-- roots, cnt and well-formedness.
pub normalize_correct :
    (s : UnionFind) (a r : ℕ)
    → IsForest s
    → Root s a r
    → (t : UnionFind) × (normalize s ≡ value t)
      × (get_elem? t.parent a ≡ some r)
      × IsForest t
      × Same s.parent t.parent
      × (t.cnt ≡ s.cnt)
unfolding normalize Flat
normalize_correct s a r f (k, c) =
    let (t, ends, kept, all) =
      normalize_loop-Flat (length s.parent) 0 s f (omega arith) (λ b l. absurd (omega arith)) in
    let (q, d) = all a (Climb-in c) in
    let same : q ≡ r = Climb-unique d (kept.same.climbs k a r c) in
    (t, ends, flat_parent d ∙ ap some same, kept.forest, kept.same, kept.count)
