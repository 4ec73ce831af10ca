-- ===== src/SkipList/Rounds.antt =====
-- The loops of insert and erase that change the pointers of the levels, one level in each round.
use quick_cmake.Prelude.{
  ℕ, zero, suc, ◌+◌, ◌≡◌, ◌≢◌, ◌≤◌, ◌<◌, refl, sym, ◌∙◌, true, Option, none, some, List, [], ◌∷◌,
  ◌++◌, All, All-parts, ltb, ◌==◌, arith, Bool-cases, inl, inr, ==→eq, ltb→lt, subst,
}
use quick_cmake.Outcome.{value}
use quick_cmake.SkipList.{Nodes, max_level, next_at, set_next, link, unlink}
use quick_cmake.SkipList.Levels.{Cell, Stored, set_next-Written}
use quick_cmake.SkipList.Threads.{Thread, first, last_place, next_first, Thread-rest}
use quick_cmake.SkipList.Splice.{
  Apart, Distinct, SameNext, Thread-move, last_place-Apart, Thread-insert, Thread-remove,
  Thread-above, Thread-without,
}

module _ {K V : Type 0} where
  -- m' is m with x and y in the pointers of two nodes on a level.
  record Rewired (m : Nodes K V) (i p : ℕ) (x : Option ℕ) (q : ℕ) (y : Option ℕ) (m' : Nodes K V)
      : Type 0 where
    pub at_p : next_at m' p i ≡ value x
    pub at_q : next_at m' q i ≡ value y
    pub other : (r : ℕ) → p ≢ r → q ≢ r → next_at m' r i ≡ next_at m r i
    pub levels : (j r : ℕ) → i ≢ j → next_at m' r j ≡ next_at m r j
    pub kept : (c : Cell K V) → Stored m c → Stored m' c

  set_both :
      (m : Nodes K V) (i p : ℕ) (x : Option ℕ) (q : ℕ) (y old_x old_y : Option ℕ)
      → p ≢ q
      → next_at m p i ≡ value old_x
      → next_at m q i ≡ value old_y
      → (m1 : Nodes K V) × (m2 : Nodes K V) × (set_next m p i x ≡ value m1)
        × (set_next m1 q i y ≡ value m2)
        × Rewired m i p x q y m2
  set_both m i p x q y old_x old_y differ hp hq =
      let (m1, run, w) = set_next-Written m p i old_x x hp in
      let (m2, again, v) = set_next-Written m1 q i old_y y (w.apart q i (inl differ) ∙ hq) in
      (
        m1,
        m2,
        run,
        again,
        record {
          at_p = v.apart p i (inl (λ e. differ (sym e))) ∙ w.here;
          at_q = v.here;
          other = λ r hp hq. v.apart r i (inl hq) ∙ w.apart r i (inl hp);
          levels = λ j r h. v.apart r j (inr h) ∙ w.apart r j (inr h);
          kept = λ c s. v.kept c (w.kept c s);
        },
      )

  Stored-next :
      (m : Nodes K V) (c : Cell K V) (i : ℕ)
      → Stored m c
      → i < c.level
      → (x : Option ℕ) × (next_at m c.place i ≡ value x)
  unfolding next_at
  Stored-next m c i (next, e) h =
      let low : ltb i c.level ≡ true = ground arith in (next i, rw (e, low) refl)

  pub All-map :
      (P Q : Cell K V → Type 0) (l : List (Cell K V))
      → ((c : Cell K V) → P c → Q c)
      → All P l
      → All Q l
  All-map P Q [] h s = tt
  All-map P Q (c ∷ l) h (p, s) = (h c p, All-map P Q l h s)

  same_all :
      (m m' : Nodes K V) (j : ℕ) (l : List (Cell K V))
      → ((r : ℕ) → next_at m' r j ≡ next_at m r j)
      → SameNext m m' j l
  same_all m m' j [] h = tt
  same_all m m' j (c ∷ l) h = (h c.place, same_all m m' j l h)

  pub Distinct-middle :
      (a b : List (Cell K V)) (c : Cell K V) → Distinct (a ++ c ∷ b) → Apart c.place a
  Distinct-middle [] b c h = tt
  Distinct-middle (d ∷ a) b c h =
      let (front, back) = All-parts (λ e. d.place ≢ e.place) a (c ∷ b) h.0 in
      ((λ e. back.0 (sym e)), Distinct-middle a b c h.1)

  module _ (head : ℕ) (a b : List (Cell K V)) (c : Cell K V) (update : ℕ → Option ℕ)
      (reach : c.level ≤ max_level)
      (found : (j : ℕ) → j < max_level → update j ≡ some (last_place j head a))
      (apart : Apart head (a ++ c ∷ b)) (distinct : Distinct (a ++ c ∷ b)) where
    before_apart : (i : ℕ) → c.place ≢ last_place i head a
    before_apart i =
        let (front, back) = All-parts (λ d. head ≢ d.place) a (c ∷ b) apart in
        last_place-Apart c.place i head a (λ e. back.0 (sym e)) (Distinct-middle a b c distinct)

    pub link_lem :
        (n i : ℕ) (m : Nodes K V)
        → i + n ≡ c.level
        → ((j : ℕ) → j < i → Thread m j head (a ++ c ∷ b))
        → ((j : ℕ) → i ≤ j → j < max_level → Thread m j head (a ++ b))
        → All (Stored m) (a ++ c ∷ b)
        → (m' : Nodes K V) × (link n i update c.place m ≡ value m')
          × ((j : ℕ) → j < max_level → Thread m' j head (a ++ c ∷ b))
          × All (Stored m') (a ++ c ∷ b)
    unfolding link
    link_lem zero i m ends done todo stored = (
      m,
      refl,
      λ j h. elim (Bool-cases (ltb j i)) [
        | inl under ↦ done j (ltb→lt j i under)
        | inr over ↦
            let high : i ≤ j = ground arith in
            Thread-above m j head a b c (omega arith) (todo j high h)
      ],
      stored,
    )
    link_lem (suc n) i m ends done todo stored =
        let q = last_place i head a in
        let low : i < c.level = omega arith in
        let inside : i < max_level = omega (arith, reach) in
        let t = todo i (omega arith) inside in
        let behind : next_at m q i ≡ value (first i b) = next_first (Thread-rest head a b t) in
        let (front, back) = All-parts (Stored m) a (c ∷ b) stored in
        let (x, own) = Stored-next m c i back.0 low in
        let (m1, m2, run, again, w) =
          set_both m i c.place (first i b) q (some c.place) x (first i b) (before_apart i) own
            behind in
        let moved = λ (j : ℕ) (l : List (Cell K V)) (differ : i ≢ j).
          Thread-move {m = m} {m' = m2} {i = j} {l = l} (w.levels j head differ)
            (same_all m m2 j l λ r. w.levels j r differ) in
        let here : Thread m2 i head (a ++ c ∷ b) =
          Thread-insert m m2 i q c b (λ r hq hc. w.other r hc hq) head a refl low
            (w.at_p ∙ sym behind) w.at_q apart distinct t in
        let (m', rest, threads, all) =
          link_lem n (i + 1) m2 (omega arith)
            (λ j h. elim (Bool-cases (i == j)) [
              | inl e ↦ subst (λ k. Thread m2 k head (a ++ c ∷ b)) (==→eq i j e) here
              | inr e ↦
                  let under : j < i = ground arith in
                  moved j _ (λ same. absurd (omega arith)) (done j under)
            ])
            (λ j h k. moved j _ (λ same. absurd (omega arith)) (todo j (omega arith) k))
            (All-map (Stored m) (Stored m2) _ w.kept stored) in
        (m', rw (found i inside, behind, run, again) rest, threads, all)

    pub unlink_lem :
        (n i : ℕ) (m : Nodes K V)
        → i + n ≡ c.level
        → ((j : ℕ) → j < i → Thread m j head (a ++ b))
        → ((j : ℕ) → i ≤ j → j < max_level → Thread m j head (a ++ c ∷ b))
        → All (Stored m) (a ++ c ∷ b)
        → (m' : Nodes K V) × (unlink n i update c.place m ≡ value m')
          × ((j : ℕ) → j < max_level → Thread m' j head (a ++ b))
          × All (Stored m') (a ++ c ∷ b)
    unfolding unlink
    unlink_lem zero i m ends done todo stored = (
      m,
      refl,
      λ j h. elim (Bool-cases (ltb j i)) [
        | inl under ↦ done j (ltb→lt j i under)
        | inr over ↦
            let high : i ≤ j = ground arith in
            Thread-without m j head a b c (omega arith) (todo j high h)
      ],
      stored,
    )
    unlink_lem (suc n) i m ends done todo stored =
        let q = last_place i head a in
        let low : i < c.level = omega arith in
        let inside : i < max_level = omega (arith, reach) in
        let t = todo i (omega arith) inside in
        let behind : next_at m q i ≡ value (first i (c ∷ b)) =
          next_first (Thread-rest head a (c ∷ b) t) in
        let (front, back) = All-parts (Stored m) a (c ∷ b) stored in
        let (x, own) = Stored-next m c i back.0 low in
        let (m1, m2, run, again, w) =
          set_both m i q x c.place none (first i (c ∷ b)) x (λ e. before_apart i (sym e)) behind
            own in
        let moved = λ (j : ℕ) (l : List (Cell K V)) (differ : i ≢ j).
          Thread-move {m = m} {m' = m2} {i = j} {l = l} (w.levels j head differ)
            (same_all m m2 j l λ r. w.levels j r differ) in
        let here : Thread m2 i head (a ++ b) =
          Thread-remove m m2 i q c b w.other head a refl low (w.at_p ∙ sym own) apart distinct t in
        let (m', rest, threads, all) =
          unlink_lem n (i + 1) m2 (omega arith)
            (λ j h. elim (Bool-cases (i == j)) [
              | inl e ↦ subst (λ k. Thread m2 k head (a ++ b)) (==→eq i j e) here
              | inr e ↦
                  let under : j < i = ground arith in
                  moved j _ (λ same. absurd (omega arith)) (done j under)
            ])
            (λ j h k. moved j _ (λ same. absurd (omega arith)) (todo j (omega arith) k))
            (All-map (Stored m) (Stored m2) _ w.kept stored) in
        (m', rw (found i inside, own, run, again) rest, threads, all)
