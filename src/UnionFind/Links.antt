-- ===== src/UnionFind/Links.antt =====
-- A run of connects from singletons decides the equivalence that the pairs generate.
use mathlib.Core.List.{Memᴰ}
use mathlib.Core.List.Memᴰ
use mathlib.Core.Bool.{So-prop}
use mathlib.Core.Logic.{∥∥₁_elim}
use mathlib.Core.Path.{subst₂}
use quick_cmake.Prelude.{
  ℕ, zero, suc, ◌+◌, ◌<◌, ◌≡◌, refl, sym, ap, subst, ◌∙◌, ◌↔◌, ◌⊎◌, Bool, true, some, List, [], ◌∷◌,
  length, get_elem?, All, arith, ◌==◌, if◌then◌else◌, Bool-cases, inl, inr, ==→eq,
}
use quick_cmake.Outcome.{Outcome, value, ◌>>=◌}
use quick_cmake.UnionFind.{UnionFind, connect, is_connected, range_from, make}
use quick_cmake.UnionFind.Climb.{top, Climb-in, Climb-unique}
use quick_cmake.UnionFind.Find.{roots}
use quick_cmake.UnionFind.Linked.{Linked, pair, same, back, through, weaken, Linked-mono}
use quick_cmake.UnionFind.Connect.{IsForest, Root, Connected, connect_correct, is_connected_correct}

get-range_from : (n i j : ℕ) → j < n → get_elem? (range_from n i) j ≡ some (i + j)
get-range_from zero i j h = absurd (omega arith)
get-range_from (suc n) i zero h = ap some (omega arith)
get-range_from (suc n) i (suc j) h =
    get-range_from n (i + 1) j (omega arith) ∙ ap some (omega arith)

length-range_from : (n i : ℕ) → length (range_from n i) ≡ n
length-range_from zero i = refl
length-range_from (suc n) i = ap suc (length-range_from n (i + 1))

roots-range_from : (n i : ℕ) → roots i (range_from n i) ≡ n
unfolding roots
roots-range_from zero i = refl
roots-range_from (suc n) i = ground (arith, roots-range_from n (i + 1))

-- The constructor leaves every element its own root.
pub make-IsForest : (n : ℕ) → IsForest (make n)
unfolding make
make-IsForest n = record {
  rooted = λ a h.
      let at = get-range_from n 0 a (omega (arith, length-range_from n 0)) in
      (a, top refl (at ∙ ap some (omega arith)));
  count = roots-range_from n 0;
}

-- The calls `connect(a, b)` for the pairs, in order.
unfoldable pub run : List (ℕ × ℕ) → UnionFind → Outcome UnionFind
run [] s = value s
run ((a, b) ∷ es) s = connect a b s >>= run es

-- The sets are those that the pairs `ds` make.
record Joins (n : ℕ) (ds : List (ℕ × ℕ)) (s : UnionFind) : Type 0 where
  forest : IsForest s
  size : length s.parent ≡ n
  sound : (x r : ℕ) → Root s x r → Linked ds x r
  full : (x y : ℕ) → Memᴰ (x, y) ds → (r : ℕ) × Root s x r × Root s y r

unique : (s : UnionFind) {x r q : ℕ} → Root s x r → Root s x q → r ≡ q
unique s (k, c) (j, d) = Climb-unique c d

make-Joins : (n : ℕ) → Joins n [] (make n)
unfolding make
make-Joins n = record {
  forest = make-IsForest n;
  size = length-range_from n 0;
  sound = λ x r c.
      let inside : x < n = omega (arith, Climb-in c.1, length-range_from n 0) in
      let at = get-range_from n 0 x inside ∙ ap some {y = x} (omega arith) in
      same (unique (make n) (0, top refl at) c);
  full = λ x y m. absurd (Memᴰ.not-nil m);
}

module _ (n : ℕ) (ds : List (ℕ × ℕ)) (s : UnionFind) (j : Joins n ds s) (a b : ℕ) where
  -- One more connect makes the sets of one more pair.
  connect-Joins :
      {t : UnionFind} {ra rb : ℕ}
      → Root s a ra
      → Root s b rb
      → Connected s t ra rb
      → Joins n ((a, b) ∷ ds) t
  connect-Joins {t = t} {ra = ra} {rb = rb} ca cb c = record {
    forest = c.forest;
    size = c.size ∙ j.size;
    sound = sound';
    full = full';
  }
    where
      to : ℕ → ℕ
      to r = if r == rb then ra else r

      new : Linked ((a, b) ∷ ds) rb ra
      new =
          through (back (weaken (j.sound b rb cb)))
            (through (back (pair (Memᴰ.head refl))) (weaken (j.sound a ra ca)))

      old_to : (q : ℕ) → Linked ((a, b) ∷ ds) q (to q)
      old_to q = elim (Bool-cases (q == rb)) [
        | inl e ↦ rw e (rw (==→eq q rb e) new)
        | inr e ↦ rw e (same refl)
      ]

      sound' : (x r : ℕ) → Root t x r → Linked ((a, b) ∷ ds) x r
      sound' x r d =
          let inside : x < length s.parent = omega (arith, Climb-in d.1, c.size) in
          let (q, e) = j.forest.rooted x inside in
          let is : to q ≡ r = unique t (c.root x q (_, e)) d in
          through (weaken (j.sound x q (_, e))) (subst (Linked ((a, b) ∷ ds) q) is (old_to q))

      full' : (x y : ℕ) → Memᴰ (x, y) ((a, b) ∷ ds) → (r : ℕ) × Root t x r × Root t y r
      full' x y (Memᴰ.head e) =
          let meets : to ra ≡ to rb = ground arith in
          (
            to ra,
            subst (λ z. Root t z (to ra)) (ap (λ p. p.0) (sym e)) (c.root a ra ca),
            subst₂ (λ z r. Root t z r) (ap (λ p. p.1) (sym e)) (sym meets) (c.root b rb cb),
          )
      full' x y (Memᴰ.tail m) =
          let (r, cx, cy) = j.full x y m in (to r, c.root x r cx, c.root y r cy)

-- Every pair is of elements below `n`.
abbrev pub Inside : ℕ → List (ℕ × ℕ) → Type 0
Inside n = All (λ e. (e.0 < n) × (e.1 < n))

-- The pairs of `es` in reverse order in front of `ds`.
abbrev pub done_after : List (ℕ × ℕ) → List (ℕ × ℕ) → List (ℕ × ℕ)
done_after [] ds = ds
done_after (e ∷ es) ds = done_after es (e ∷ ds)

run-Joins :
    (n : ℕ) (es ds : List (ℕ × ℕ)) (s : UnionFind)
    → Inside n es
    → Joins n ds s
    → (t : UnionFind) × (run es s ≡ value t) × Joins n (done_after es ds) t
unfolding run
run-Joins n [] ds s h j = (s, refl, j)
run-Joins n ((a, b) ∷ es) ds s h j =
    let (ra, rb, t, ends, ca, cb, c) =
      connect_correct s a b j.forest (omega (arith, j.size)) (omega (arith, j.size)) in
    let (u, rest, j') = run-Joins n es ((a, b) ∷ ds) t h.1 (connect-Joins n ds s j a b ca cb c) in
    (u, rw ends rest, j')

mem-done_after :
    (e : ℕ × ℕ) (es ds : List (ℕ × ℕ)) → Memᴰ e (done_after es ds) → Memᴰ e es ⊎ Memᴰ e ds
mem-done_after e [] ds m = inr m
mem-done_after e (x ∷ es) ds m = elim (mem-done_after e es (x ∷ ds) m) [
  | inl k ↦ inl (Memᴰ.tail k)
  | inr (Memᴰ.head k) ↦ inl (Memᴰ.head k)
  | inr (Memᴰ.tail k) ↦ inr k
]

done_after-mem :
    (e : ℕ × ℕ) (es ds : List (ℕ × ℕ)) → Memᴰ e es ⊎ Memᴰ e ds → Memᴰ e (done_after es ds)
done_after-mem e [] ds (inl m) = absurd (Memᴰ.not-nil m)
done_after-mem e [] ds (inr m) = m
done_after-mem e (x ∷ es) ds (inl (Memᴰ.head k)) = done_after-mem e es (x ∷ ds) (inr (Memᴰ.head k))
done_after-mem e (x ∷ es) ds (inl (Memᴰ.tail k)) = done_after-mem e es (x ∷ ds) (inl k)
done_after-mem e (x ∷ es) ds (inr m) = done_after-mem e es (x ∷ ds) (inr (Memᴰ.tail m))

-- Linked elements have the same roots.
Linked-roots :
    {n : ℕ} {ds : List (ℕ × ℕ)} {s : UnionFind} (j : Joins n ds s) {x y : ℕ}
    → Linked ds x y
    → (r : ℕ) → (Root s x r → Root s y r) × (Root s y r → Root s x r)
Linked-roots {s = s} j (pair {x = x} {y = y} m) r =
    let (q, cx, cy) = j.full x y m in
    (λ c. subst (Root s y) (unique s cx c) cy, λ c. subst (Root s x) (unique s cy c) cx)
Linked-roots {s = s} j (same e) r = (subst (λ z. Root s z r) e, subst (λ z. Root s z r) (sym e))
Linked-roots j (back l) r = let (to, from) = Linked-roots j l r in (from, to)
Linked-roots j (through l k) r =
    let (to, from) = Linked-roots j l r in
    let (to', from') = Linked-roots j k r in (λ c. to' (to c), λ c. from (from' c))

-- From n singletons, any calls of connect on elements below n return, and then is_connected answers
-- true exactly for the pairs of the equivalence that the connected pairs generate, with `cnt` the
-- number of elements that are their own roots.
pub run_decides :
    (n : ℕ) (es : List (ℕ × ℕ)) (x y : ℕ)
    → Inside n es
    → x < n
    → y < n
    → (t : UnionFind) × (run es (make n) ≡ value t)
      × (t.cnt ≡ roots 0 t.parent)
      × (b : Bool) × (u : UnionFind) × (is_connected x y t ≡ value (b, u))
      × ((b ≡ true) ↔ ∥ Linked es x y ∥₁)
run_decides n es x y h hx hy =
    let (t, ends, j) = run-Joins n es [] (make n) h (make-Joins n) in
    let (ra, rb, u, answer, ca, cb, f, _, _) =
      is_connected_correct t x y j.forest (omega (arith, j.size)) (omega (arith, j.size)) in
    let ds = done_after es [] in
    let forth : Linked ds x y → (ra == rb) ≡ true =
      λ l. let e : ra ≡ rb = unique t ((Linked-roots j l ra).0 ca) cb in ground arith in
    (
      t,
      ends,
      sym j.forest.count,
      ra == rb,
      u,
      answer,
      (
        λ e.
            let one : rb ≡ ra = sym (==→eq ra rb e) in
            let l = through (j.sound x ra ca) (rw one at (back (j.sound y rb cb))) in
            ∣ Linked-mono ds es
              (λ p m. elim (mem-done_after p es [] m) [
                | inl k ↦ k
                | inr k ↦ absurd (Memᴰ.not-nil k)
              ])
              l ∣₁,
        λ l.
            ∥∥₁_elim l (So-prop _)
              λ k. forth (Linked-mono es ds (λ p m. done_after-mem p es [] (inl m)) k),
      ),
    )
