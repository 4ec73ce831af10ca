-- ===== src/WhenAll/Accounted.antt =====
-- What the counter of when_all counts, and how often the caller is resumed.
use quick_cmake.Prelude.{
  ℕ, zero, suc, ◌+◌, ◌≤◌, ◌<◌, ◌≡◌, ◌≢◌, refl, sym, ◌∙◌, List, [], ◌∷◌, length, get_or, set,
  replicate, length-set, length-replicate, get_or-set, get_or-replicate, ◌==◌, Bool-cases, inl, inr,
  arith,
}
use quick_cmake.WhenAll.{
  End, returned, threw, Stage, not_started, awaiting, stored, last, finished, launching, passed,
  State, start, stage_of, launch, await_ready, await_suspend, store, count_down, wake, resume, Step,
  launches, tests, suspends, stores, counts, wakes, resumes, Reachable, begins, steps,
}

-- The sum of the stages' weights.
unfoldable pub total : (Stage → ℕ) → List Stage → ℕ
total w [] = 0
total w (x ∷ xs) = w x + total w xs

total-set :
    (w : Stage → ℕ) (xs : List Stage) (i : ℕ) (v d : Stage)
    → i < length xs
    → total w (set xs i v) + w (get_or xs i d) ≡ total w xs + w v
unfolding total
total-set w [] i v d h = absurd (omega arith)
total-set w (x ∷ xs) zero v d h = omega arith
total-set w (x ∷ xs) (suc i) v d h = omega (arith, total-set w xs i v d)

-- A wrapper that has not called fetch_sub.
abbrev pub counted_in : Stage → ℕ
counted_in not_started = 1
counted_in awaiting = 1
counted_in stored = 1
counted_in last = 0
counted_in finished = 0

-- A wrapper that is about to resume the caller.
abbrev pub is_last : Stage → ℕ
is_last not_started = 0
is_last awaiting = 0
is_last stored = 0
is_last last = 1
is_last finished = 0

pub total_zero :
    (xs : List Stage) (i : ℕ) (d : Stage)
    → total counted_in xs ≡ 0
    → i < length xs
    → counted_in (get_or xs i d) ≡ 0
unfolding total
total_zero [] i d z h = absurd (omega arith)
total_zero (x ∷ xs) zero d z h = omega arith
total_zero (x ∷ xs) (suc i) d z h = total_zero xs i d (omega arith) (omega arith)

total-not_started :
    (n : ℕ)
    → (total counted_in (replicate n not_started) ≡ n)
      × (total is_last (replicate n not_started) ≡ 0)
unfolding total
total-not_started zero = (refl, refl)
total-not_started (suc n) = let (a, b) = total-not_started n in (omega arith, omega arith)

module _ {A : Type 0} (tasks : List (End A)) where
  pub record Accounted (s : State A) : Type 0 where
    pub size : length s.stages ≡ length tasks
    pub count : s.remaining ≡ total counted_in s.stages
    pub once : total is_last s.stages + s.spawned ≤ 1
    pub at_zero : 0 < total is_last s.stages + s.spawned → s.remaining ≡ 0
    pub after : s.caller ≡ passed → s.remaining ≡ 0
    pub fresh :
        (k j : ℕ) → s.caller ≡ launching k → k ≤ j → j < length tasks → stage_of s j ≡ not_started

  start-Accounted : (blank : A) → Accounted (start blank tasks)
  unfolding start stage_of
  start-Accounted blank =
      let (a, b) = total-not_started (length tasks) in
      record {
        size = length-replicate (length tasks) not_started;
        count = sym a;
        once = omega (arith, b);
        at_zero = λ h. absurd (omega (arith, b));
        after = λ e. cc;
        fresh = λ k j e l u. ground (arith, get_or-replicate (length tasks) j not_started finished);
      }

  launch-Accounted :
      (k : ℕ) (s : State A)
      → Accounted s
      → s.caller ≡ launching k
      → k < length tasks
      → Accounted (launch k s)
  unfolding launch stage_of
  launch-Accounted k s a e h =
      let here : get_or s.stages k finished ≡ not_started = a.fresh k k e (omega arith) h in
      let inside : k < length s.stages = omega (arith, a.size) in
      let counted = rw here at (total-set counted_in s.stages k awaiting finished inside) in
      let lasts = rw here at (total-set is_last s.stages k awaiting finished inside) in
      record {
        size = length-set s.stages k awaiting ∙ a.size;
        count = omega (arith, counted, a.count);
        once = omega (arith, lasts, a.once);
        at_zero = λ p. a.at_zero (omega (arith, lasts));
        after = λ p. cc;
        fresh = λ k' j p l u.
            ground (arith, get_or-set s.stages k j awaiting finished inside, a.fresh k j);
      }

  -- A wrapper's step from one stage to another, which leaves the caller where it is.
  moved :
      (i : ℕ) (s t : State A) (from to : Stage)
      → Accounted s
      → i < length tasks
      → stage_of s i ≡ from
      → from ≢ not_started
      → t.stages ≡ set s.stages i to
      → t.caller ≡ s.caller
      → t.remaining ≤ s.remaining
      → t.remaining + counted_in from ≡ s.remaining + counted_in to
      → total is_last s.stages + is_last to + t.spawned ≤ 1 + is_last from
      → (0 < total is_last s.stages + is_last to + t.spawned → t.remaining ≡ 0)
      → Accounted t
  unfolding stage_of
  moved i s t from to a h here other stages caller less counted lasts at_zero =
      let inside : i < length s.stages = omega (arith, a.size) in
      let counts' = rw here at (total-set counted_in s.stages i to finished inside) in
      let lasts' = rw here at (total-set is_last s.stages i to finished inside) in
      record {
        size = rw stages (length-set s.stages i to ∙ a.size);
        count = rw stages (omega (arith, counts', a.count));
        once = rw stages (omega (arith, lasts'));
        at_zero = λ p. at_zero (omega (arith, lasts', rw stages at p));
        after = λ p. omega (arith, a.after (sym caller ∙ p));
        fresh = λ k j p l u.
            let before : get_or s.stages j finished ≡ not_started =
              a.fresh k j (sym caller ∙ p) l u in
            rw stages (ground (arith, get_or-set s.stages i j to finished inside));
      }

  -- A step of the caller, which leaves the wrappers where they are.
  rested :
      (s t : State A)
      → Accounted s
      → t.stages ≡ s.stages
      → t.remaining ≡ s.remaining
      → t.spawned ≡ s.spawned
      → ((k : ℕ) → t.caller ≢ launching k)
      → (t.caller ≡ passed → s.remaining ≡ 0)
      → Accounted t
  unfolding stage_of
  rested s t a stages remaining spawned later after = record {
    size = rw stages a.size;
    count = rw (stages, remaining) a.count;
    once = rw (stages, spawned) a.once;
    at_zero = λ p. remaining ∙ a.at_zero (rw (stages, spawned) at p);
    after = λ p. remaining ∙ after p;
    fresh = λ k j p l u. absurd (later k p);
  }

  store-Accounted :
      (i : ℕ) (e : End A) (s : State A)
      → Accounted s
      → i < length tasks
      → stage_of s i ≡ awaiting
      → Accounted (store i e s)
  unfolding store
  store-Accounted i (returned v) s a h here =
      moved i s _ awaiting stored a h here (cc) refl refl (omega arith) refl (omega (arith, a.once))
        (λ p. a.at_zero (omega arith))
  store-Accounted i (threw x) s a h here =
      moved i s _ awaiting stored a h here (cc) refl refl (omega arith) refl (omega (arith, a.once))
        (λ p. a.at_zero (omega arith))

  count_down-Accounted :
      (i : ℕ) (s : State A)
      → Accounted s
      → i < length tasks
      → stage_of s i ≡ stored
      → Accounted (count_down i s)
  unfolding count_down stage_of
  count_down-Accounted i s a h here =
      let inside : i < length s.stages = omega (arith, a.size) in
      let less = rw here at (total-set counted_in s.stages i finished finished inside) in
      let some_left : 0 < s.remaining = omega (arith, less, a.count) in
      elim (Bool-cases (s.remaining == 1)) [
        | inl e ↦
            let one : s.remaining ≡ 1 = ground arith in
            let none_yet : total is_last s.stages + s.spawned ≡ 0 = grind (arith, a.at_zero) in
            rw e (
              moved i s _ stored last a h here (cc) refl refl (omega arith) (omega arith)
                (omega (arith, none_yet)) (λ p. omega arith))
        | inr e ↦ rw e (
            moved i s _ stored finished a h here (cc) refl refl (omega arith) (omega arith)
              (omega (arith, a.once))
              (λ p. let none_left : s.remaining ≡ 0 = a.at_zero (omega arith) in omega arith))
      ]

  wake-Accounted :
      (i : ℕ) (s : State A)
      → Accounted s
      → i < length tasks
      → stage_of s i ≡ last
      → Accounted (wake i s)
  unfolding wake stage_of
  wake-Accounted i s a h here =
      let inside : i < length s.stages = omega (arith, a.size) in
      let lasts = rw here at (total-set is_last s.stages i finished finished inside) in
      let none_left : s.remaining ≡ 0 = a.at_zero (omega (arith, lasts)) in
      elim (Bool-cases s.continuation) [
        | inl e ↦ rw e (
            moved i s _ last finished a h here (cc) refl refl (omega arith) refl
              (omega (arith, a.once)) (λ p. none_left))
        | inr e ↦ rw e (
            moved i s _ last finished a h here (cc) refl refl (omega arith) refl
              (omega (arith, a.once)) (λ p. none_left))
      ]

  Step-Accounted :
      (blank : End A) (s t : State A) → Accounted s → Step tasks blank s t → Accounted t
  unfolding await_ready await_suspend store count_down wake resume
  Step-Accounted blank s t a (launches k e h) = launch-Accounted k s a e h
  Step-Accounted blank s t a (tests e) = elim (Bool-cases (s.remaining == 0)) [
    | inl z ↦ rw z (rested s _ a refl refl refl (λ k p. cc) (λ p. ground arith))
    | inr z ↦ rw z (rested s _ a refl refl refl (λ k p. cc) (λ p. cc))
  ]
  Step-Accounted blank s t a (suspends e) = rested s _ a refl refl refl (λ k p. cc) (λ p. cc)
  Step-Accounted blank s t a (stores i h here) = store-Accounted i (get_or tasks i blank) s a h here
  Step-Accounted blank s t a (counts i h here) = count_down-Accounted i s a h here
  Step-Accounted blank s t a (wakes i h here) = wake-Accounted i s a h here
  Step-Accounted blank s t a (resumes e p) =
      rested s _ a refl refl refl (λ k q. cc) (λ q. a.at_zero (omega arith))

  pub reachable-Accounted : (blank : A) (s : State A) → Reachable tasks blank s → Accounted s
  reachable-Accounted blank s begins = start-Accounted blank
  reachable-Accounted blank s (steps before step) =
      Step-Accounted (returned blank) _ s (reachable-Accounted blank _ before) step
