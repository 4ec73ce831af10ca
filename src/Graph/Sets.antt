-- ===== src/Graph/Sets.antt =====
-- The graph constructor of UnionFindSet<int> is a run of connects on the graph's edges, so the set
-- it builds decides which nodes a path joins.
use mathlib.Core.List.{Memᴰ}
use mathlib.Core.List.Memᴰ
use mathlib.Core.Logic.{∥∥₁_map}
use native.Mathlib.Decide.{ℕ_discrete}
use quick_cmake.Prelude.{
  ℕ, zero, suc, ◌+◌, ◌≤◌, ◌<◌, ◌≡◌, refl, sym, ap, fun_ext, ◌∙◌, ◌↔◌, inl, inr, Bool, true, false,
  List, [], ◌∷◌, ◌++◌, All, arith, ltb, is_zero, ℤ, if◌then◌else◌, Bool-cases,
}
use quick_cmake.Outcome.{value, ◌>>=◌, bind_assoc}
use quick_cmake.UnionFind.{UnionFind, connect, is_connected, make}
use quick_cmake.UnionFind.Find.{roots}
use quick_cmake.UnionFind.Linked.{Linked}
use quick_cmake.UnionFind.Links.{Inside, run, run_decides}
use quick_cmake.Graph.{Matrix, Graph, cell, join_row, join_rows, sets_of}
use quick_cmake.Graph.Shape.{IsGraph}

run-append : (xs ys : List (ℕ × ℕ)) (s : UnionFind) → run (xs ++ ys) s ≡ (run xs s >>= run ys)
unfolding run
run-append [] ys s = refl
run-append ((a, b) ∷ xs) ys s = bind_assoc (connect a b s) _ _ _ (run-append xs ys)

-- The pairs that `join_row` connects.
abbrev row_pairs : Matrix → ℕ → ℕ → ℕ → List (ℕ × ℕ)
row_pairs m zero i j = []
row_pairs m (suc n) i j =
    let rest = row_pairs m n i (j + 1) in if is_zero (cell m i j) then rest else ((i, j) ∷ rest)

abbrev width : Graph ℤ → ℕ → ℕ
width g i = if g.is_directed then g.node_num else i

abbrev pairs_from : Graph ℤ → ℕ → ℕ → List (ℕ × ℕ)
pairs_from g zero i = []
pairs_from g (suc k) i = row_pairs g.edges (width g i) i 0 ++ pairs_from g k (i + 1)

join_row-run :
    (m : Matrix) (k i j : ℕ) (s : UnionFind) → join_row m k i j s ≡ run (row_pairs m k i j) s
unfolding join_row run
join_row-run m zero i j s = refl
join_row-run m (suc k) i j s = elim (Bool-cases (is_zero (cell m i j))) [
  | inl e ↦ rw e (join_row-run m k i (j + 1) s)
  | inr e ↦ rw e (ap (λ f. connect i j s >>= f) (fun_ext (join_row-run m k i (j + 1))))
]

join_rows-run :
    (g : Graph ℤ) (k i : ℕ) (s : UnionFind) → join_rows g k i s ≡ run (pairs_from g k i) s
unfolding join_rows run
join_rows-run g zero i s = refl
join_rows-run g (suc k) i s =
    ap (λ o. o >>= (λ t. join_rows g k (i + 1) t)) (join_row-run g.edges (width g i) i 0 s)
    ∙ ap (λ f. run (row_pairs g.edges (width g i) i 0) s >>= f)
        (fun_ext (join_rows-run g k (i + 1)))
    ∙ sym (run-append (row_pairs g.edges (width g i) i 0) (pairs_from g k (i + 1)) s)

pub Weighted : Matrix → ℕ → ℕ → Type 0
Weighted m a b = is_zero (cell m a b) ≡ false

row_pairs_sound :
    (m : Matrix) (k i j : ℕ) (p : ℕ × ℕ)
    → Memᴰ p (row_pairs m k i j)
    → (p.0 ≡ i) × (p.1 < j + k) × Weighted m p.0 p.1
unfolding Weighted
row_pairs_sound m zero i j p h = absurd (Memᴰ.not-nil h)
row_pairs_sound m (suc k) i j p h = elim (Bool-cases (is_zero (cell m i j))) [
  | inl e ↦ let (a, b, w) = row_pairs_sound m k i (j + 1) p (rw e at h) in (a, omega arith, w)
  | inr e ↦ elim (Memᴰ.cases_cons (rw e at h)) [
    | inl q ↦
        let a : p.0 ≡ i = ap (λ z. z.0) q in
        let b : p.1 ≡ j = ap (λ z. z.1) q in (a, omega arith, rw (a, b) e)
    | inr r ↦ let (a, b, w) = row_pairs_sound m k i (j + 1) p r in (a, omega arith, w)
  ]
]

row_pairs_full :
    (m : Matrix) (k i j b : ℕ)
    → j ≤ b
    → b < j + k
    → Weighted m i b
    → Memᴰ (i, b) (row_pairs m k i j)
unfolding Weighted
row_pairs_full m zero i j b h h' w = absurd (omega arith)
row_pairs_full m (suc k) i j b h h' w = elim (ℕ_discrete j b) [
  | yes same ↦
      let here : is_zero (cell m i j) ≡ false = rw same w in
      rw here (Memᴰ.head (ap (λ z. (i, z)) (sym same)))
  | no other ↦
      let later = row_pairs_full m k i (j + 1) b (omega arith) (omega arith) w in
      elim (Bool-cases (is_zero (cell m i j))) [
        | inl e ↦ rw e later
        | inr e ↦ rw e (Memᴰ.tail later)
      ]
]

-- The pairs of the rows from `i` on.
pairs_sound :
    (g : Graph ℤ) (k i : ℕ) (p : ℕ × ℕ)
    → Memᴰ p (pairs_from g k i)
    → (p.0 < i + k) × (p.1 < width g p.0) × Weighted g.edges p.0 p.1
pairs_sound g zero i p h = absurd (Memᴰ.not-nil h)
pairs_sound g (suc k) i p h = elim (Memᴰ.append_cases (row_pairs g.edges (width g i) i 0) h) [
  | inl r ↦
      let (a, b, w) = row_pairs_sound g.edges (width g i) i 0 p r in
      let within : p.1 < width g i = omega (arith, b) in (omega arith, rw a within, w)
  | inr r ↦ let (a, b, w) = pairs_sound g k (i + 1) p r in (omega arith, b, w)
]

pairs_full :
    (g : Graph ℤ) (k i a b : ℕ)
    → i ≤ a
    → a < i + k
    → b < width g a
    → Weighted g.edges a b
    → Memᴰ (a, b) (pairs_from g k i)
pairs_full g zero i a b h h' hb w = absurd (omega arith)
pairs_full g (suc k) i a b h h' hb w = elim (ℕ_discrete i a) [
  | yes same ↦
      let within : b < 0 + width g a = omega (arith, hb) in
      let row = row_pairs_full g.edges (width g a) a 0 b (omega arith) within w in
      rw same (Memᴰ.append_left (pairs_from g k (a + 1)) row)
  | no other ↦
      Memᴰ.append_right (row_pairs g.edges (width g i) i 0)
        (pairs_full g k (i + 1) a b (omega arith) (omega arith) hb w)
]

-- The least equivalence that holds of the ends of every edge.
pub data Joined (g : Graph ℤ) : ℕ → ℕ → Type 0 where
  edge : {a b : ℕ} → a < g.node_num → b < g.node_num → Weighted g.edges a b → Joined g a b
  itself : {a b : ℕ} → a ≡ b → Joined g a b
  back : {a b : ℕ} → Joined g b a → Joined g a b
  through : {a b c : ℕ} → Joined g a b → Joined g b c → Joined g a c

All-mem : {P : ℕ × ℕ → Type 0} (es : List (ℕ × ℕ)) → ((p : ℕ × ℕ) → Memᴰ p es → P p) → All P es
All-mem [] h = tt
All-mem (e ∷ es) h = (h e (Memᴰ.head refl), All-mem es (λ p m. h p (Memᴰ.tail m)))

width-le : (g : Graph ℤ) (a b : ℕ) → a < g.node_num → b < width g a → b < g.node_num
width-le g a b h h' = elim (Bool-cases g.is_directed) [
  | inl e ↦ ground arith
  | inr e ↦ ground arith
]

module _ (g : Graph ℤ) where
  abbrev all_pairs : List (ℕ × ℕ)
  all_pairs = pairs_from g g.node_num 0

  Linked-Joined : {a b : ℕ} → Linked all_pairs a b → Joined g a b
  Linked-Joined (Linked.pair {x = x} {y = y} m) =
      let (a, b, w) = pairs_sound g g.node_num 0 (x, y) m in
      edge (omega arith) (width-le g x y (omega arith) b) w
  Linked-Joined (Linked.same e) = itself e
  Linked-Joined (Linked.back l) = back (Linked-Joined l)
  Linked-Joined (Linked.through l k) = through (Linked-Joined l) (Linked-Joined k)

  Joined-Linked : IsGraph g → {a b : ℕ} → Joined g a b → Linked all_pairs a b
  unfolding Weighted
  Joined-Linked ok (edge {a = a} {b = b} ha hb w) = elim (Bool-cases g.is_directed) [
    | inl d ↦
        let within : b < width g a = rw d hb in
        Linked.pair (pairs_full g g.node_num 0 a b (omega arith) (omega arith) within w)
    | inr d ↦ elim (Bool-cases (ltb b a)) [
      | inl e ↦
          let within : b < width g a = ground arith in
          Linked.pair (pairs_full g g.node_num 0 a b (omega arith) (omega arith) within w)
      | inr e ↦ elim (ℕ_discrete a b) [
        | yes same ↦ Linked.same same
        | no other ↦
            let within : a < width g b = ground arith in
            let w' : Weighted g.edges b a = rw (ok.symmetric d b a) w in
            Linked.back
              (Linked.pair (pairs_full g g.node_num 0 b a (omega arith) (omega arith) within w'))
      ]
    ]
  ]
  Joined-Linked ok (itself e) = Linked.same e
  Joined-Linked ok (back l) = Linked.back (Joined-Linked ok l)
  Joined-Linked ok (through l k) = Linked.through (Joined-Linked ok l) (Joined-Linked ok k)

-- The constructor of a well-formed graph's set returns, `cnt` is its number of roots, and
-- is_connected answers true exactly for the nodes that the graph's edges join.
pub sets_of_decides :
    (g : Graph ℤ) (x y : ℕ)
    → IsGraph g
    → x < g.node_num
    → y < g.node_num
    → (t : UnionFind) × (sets_of g ≡ value t)
      × (t.cnt ≡ roots 0 t.parent)
      × (b : Bool) × (u : UnionFind) × (is_connected x y t ≡ value (b, u))
      × ((b ≡ true) ↔ ∥ Joined g x y ∥₁)
unfolding sets_of
sets_of_decides g x y ok hx hy =
    let n = g.node_num in
    let inside : Inside n (all_pairs g) = All-mem (all_pairs g) (λ p m.
      let (a, b, w) = pairs_sound g n 0 p m in (omega arith, width-le g p.0 p.1 (omega arith) b)) in
    let (t, ends, count, b, u, answer, iff) = run_decides n (all_pairs g) x y inside hx hy in
    (
      t,
      join_rows-run g n 0 (make n) ∙ ends,
      count,
      b,
      u,
      answer,
      (
        λ e. ∥∥₁_map (iff.0 e) λ l. Linked-Joined g l,
        λ j. iff.1 (∥∥₁_map j λ l. Joined-Linked g ok l),
      ),
    )
