-- ===== src/SkipList/Search.antt =====
-- The loops that go down the levels.
use mathlib.Core.Option.{some-injective, none-ne-some}
use quick_cmake.Prelude.{
  ℕ, zero, suc, ◌≡◌, ◌≤◌, ◌<◌, refl, sym, ap, ◌∙◌, Bool, true, false, Option, some, List, [], ◌∷◌,
  ◌++◌, All, All-append, length, ltb, ◌==◌, arith, Bool-cases, Option-cases, inl, inr, ==→eq,
}
use quick_cmake.Outcome.{value}
use quick_cmake.SkipList.{SkipListNode, Nodes, write, walk, find_loop, search_loop}
use quick_cmake.SkipList.Levels.{Cell, Stored}
use quick_cmake.SkipList.Threads.{
  Thread, passes, visits, first, last_place, next_first, Onward, Onward-from,
}

module _ {K V : Type 0} (lt : K → K → Bool) (k : K) where
  abbrev pub IsBelow : Cell K V → Type 0
  IsBelow c = lt c.key k ≡ true

  abbrev pub IsFrom : Cell K V → Type 0
  IsFrom c = lt c.key k ≡ false

module _ {K V : Type 0} (lt eq : K → K → Bool) (m : Nodes K V) (k : K) where
  first-IsFrom :
      (i q : ℕ) (b : List (Cell K V))
      → All (Stored m) b
      → All (IsFrom lt k) b
      → first i b ≡ some q
      → (n : SkipListNode K V) × (m q ≡ some n) × (lt n.key k ≡ false)
  unfolding first
  first-IsFrom i q [] s h e = absurd (none-ne-some q e)
  first-IsFrom i q (c ∷ b) s h e = elim (Bool-cases (ltb i c.level)) [
    | inl low ↦
        let here : c.place ≡ q = some-injective _ _ (rw low at e) in
        (_, ap m (sym here) ∙ s.0.1, h.0)
    | inr high ↦ first-IsFrom i q b s.1 h.1 (rw high at e)
  ]

  -- On a level the search stops at the last of the cells with smaller keys.
  pub walk_lem :
      (fuel i p : ℕ) (a b : List (Cell K V))
      → Thread m i p (a ++ b)
      → All (Stored m) (a ++ b)
      → All (IsBelow lt k) a
      → All (IsFrom lt k) b
      → length a < fuel
      → walk lt eq fuel m i k p ≡ value (last_place i p a)
  unfolding walk last_place
  walk_lem zero i p a b t s low high enough = absurd (omega arith)
  walk_lem (suc fuel) i p [] b t s low high enough = elim (Option-cases (first i b)) [
    | inl e ↦ rw (next_first t, e) refl
    | inr (q, e) ↦
        let (n, at, from) = first-IsFrom i q b s high e in rw (next_first t, e, at, from) refl
  ]
  walk_lem (suc fuel) i p (d ∷ a) b (passes h t) s low high enough =
      let above : ltb i d.level ≡ false = ground arith in
      rw above (walk_lem (suc fuel) i p a b t s.1 low.1 high (omega arith))
  walk_lem (suc fuel) i p (d ∷ a) b (visits h e t) s low high enough =
      let below : ltb i d.level ≡ true = ground arith in
      rw (below, e, s.0.1, low.0) (walk_lem fuel i d.place a b t s.1 low.1 high (omega arith))

  -- What the search leaves in update, and where it ends.
  pub record Searched (levels p : ℕ) (a : List (Cell K V)) (old : ℕ → Option ℕ) (curr : ℕ)
      (update : ℕ → Option ℕ) : Type 0 where
    pub end : levels ≡ 0 → curr ≡ p
    pub at_zero : 0 < levels → curr ≡ last_place 0 p a
    pub inside : (i : ℕ) → i < levels → update i ≡ some (last_place i p a)
    pub beyond : (i : ℕ) → levels ≤ i → update i ≡ old i

  ends_at :
      (i p curr : ℕ) (a left : List (Cell K V))
      → Onward i a p (last_place i p a) left
      → (i ≡ 0 → curr ≡ last_place i p a)
      → (0 < i → curr ≡ last_place 0 (last_place i p a) left)
      → curr ≡ last_place 0 p a
  ends_at zero p curr a left on here further = here refl
  ends_at (suc i) p curr a left on here further =
      further (omega arith) ∙ sym (on.same 0 (omega arith))

  pub search_loop_lem :
      (levels fuel p : ℕ) (a b : List (Cell K V)) (old : ℕ → Option ℕ)
      → ((i : ℕ) → i < levels → Thread m i p (a ++ b))
      → All (Stored m) a
      → All (Stored m) b
      → All (IsBelow lt k) a
      → All (IsFrom lt k) b
      → length a < fuel
      → (curr : ℕ) × (update : ℕ → Option ℕ) × (search_loop lt eq fuel m k levels p old
          ≡ value (curr, update))
        × (find_loop lt eq fuel m k levels p ≡ value curr)
        × Searched levels p a old curr update
  unfolding search_loop find_loop
  search_loop_lem zero fuel p a b old t sa sb low high enough = (
    p,
    old,
    refl,
    refl,
    record {
      end = λ h. refl;
      at_zero = λ h. absurd (omega arith);
      inside = λ i h. absurd (omega arith);
      beyond = λ i h. refl;
    },
  )
  search_loop_lem (suc i) fuel p a b old t sa sb low high enough =
      let q = last_place i p a in
      let stop : walk lt eq fuel m i k p ≡ value q =
        walk_lem fuel i p a b (t i (omega arith)) (All-append (Stored m) a b sa sb) low high
          enough in
      let (left, on) = Onward-from i p a in
      let (curr, update, run, same_run, found) =
        search_loop_lem i fuel q left b (write old i (some q))
          (λ j h. on.thread m j b (omega arith) (t j (omega arith))) (on.all (Stored m) sa) sb
          (on.all (IsBelow lt k) low) high (omega (arith, on.shorter)) in
      (
        curr,
        update,
        rw stop run,
        rw stop same_run,
        record {
          end = λ h. absurd (omega arith);
          at_zero = λ h. ends_at i p curr a left on found.end found.at_zero;
          inside = λ j h. elim (Bool-cases (i == j)) [
            | inl e ↦
                let same : i ≡ j = ==→eq i j e in
                rw (← same) (found.beyond i (omega arith) ∙ ground arith)
            | inr e ↦
                let under : j < i = ground arith in
                found.inside j under ∙ ap some (sym (on.same j (omega arith)))
          ];
          beyond = λ j h. found.beyond j (omega arith) ∙ ground arith;
        },
      )
