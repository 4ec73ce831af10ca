-- ===== src/WhenAll/Results.antt =====
-- What when_all returns.
use mathlib.Core.Bool.{false≢true}
use mathlib.Core.Option.{none-ne-some, some-injective}
use mathlib.Core.List.{Mem}
use quick_cmake.Prelude.{
  ℕ, suc, ◌≢◌, ◌⊎◌, ◌≤◌, ◌<◌, ◌≡◌, refl, ap, sym, ◌∙◌, Bool, true, false, Option, none, some, List,
  [], ◌∷◌, length, get_or, set, map, replicate, length-set, length-replicate, get_or-set,
  get_or-replicate, get_or-mem, subst, ==→eq, ◌==◌, if◌then◌else◌, Bool-cases, inl, inr, arith,
}
use quick_cmake.WhenAll.{
  End, returned, threw, Stage, not_started, awaiting, stored, last, finished, Caller, launching,
  suspending, suspended, passed, State, start, stage_of, launch, await_ready, await_suspend, store,
  count_down, wake, resume, Step, launches, tests, suspends, stores, counts, wakes, resumes,
  Reachable, begins, steps, Outcome, rethrown, values, await_resume,
}
use quick_cmake.WhenAll.Accounted.{total_zero, counted_in, reachable-Accounted}

passed_or_not : (c : Caller) → (c ≡ passed) ⊎ (c ≢ passed)
passed_or_not (launching k) = inr (λ e. cc)
passed_or_not suspending = inr (λ e. cc)
passed_or_not suspended = inr (λ e. cc)
passed_or_not passed = inl refl

abbrev is_done : Stage → Bool
is_done not_started = false
is_done awaiting = false
is_done stored = true
is_done last = true
is_done finished = true

done-counted : (st : Stage) → counted_in st ≡ 0 → is_done st ≡ true
done-counted not_started h = absurd (omega arith)
done-counted awaiting h = absurd (omega arith)
done-counted stored h = refl
done-counted last h = refl
done-counted finished h = refl

map-returned :
    {A : Type 0} (tasks : List (End A)) (xs : List A) (blank : A)
    → length xs ≡ length tasks
    → ((i : ℕ) → i < length tasks → get_or tasks i (returned blank) ≡ returned (get_or xs i blank))
    → tasks ≡ map returned xs
map-returned [] [] blank s h = refl
map-returned [] (x ∷ xs) blank s h = absurd (omega arith)
map-returned (t ∷ tasks) [] blank s h = absurd (omega arith)
map-returned (t ∷ tasks) (x ∷ xs) blank s h =
    rw
      (
        h 0 (omega arith),
        map-returned tasks xs blank (omega arith) (λ i p. h (suc i) (omega arith)),
      )
      refl

module _ {A : Type 0} (tasks : List (End A)) (blank : A) where
  -- What the try block of a wrapper leaves.
  abbrev SavedAs : ℕ → End A → State A → Type 0
  SavedAs i (returned v) s = get_or s.results i blank ≡ v
  SavedAs i (threw e) s = (x : ℕ) × (s.exception ≡ some x)

  record Saved (s : State A) : Type 0 where
    size : length s.results ≡ length tasks
    stages_size : length s.stages ≡ length tasks
    saved :
        (i : ℕ)
        → i < length tasks
        → is_done (stage_of s i) ≡ true
        → SavedAs i (get_or tasks i (returned blank)) s
    thrown : (e : ℕ) → s.exception ≡ some e → Mem (threw e) tasks

  start-Saved : Saved (start blank tasks)
  unfolding start stage_of
  start-Saved = record {
    size = length-replicate (length tasks) blank;
    stages_size = length-replicate (length tasks) not_started;
    saved = λ i h d.
        let fresh : get_or (replicate (length tasks) not_started) i finished ≡ not_started =
          ground (arith, get_or-replicate (length tasks) i not_started finished) in
        absurd (false≢true (rw fresh at d));
    thrown = λ e h. cc;
  }

  saved-same :
      (i : ℕ) (e : End A) (s t : State A)
      → t.results ≡ s.results
      → t.exception ≡ s.exception
      → SavedAs i e s
      → SavedAs i e t
  saved-same i (returned v) s t results exception k = rw results k
  saved-same i (threw e) s t results exception (x, k) = (x, exception ∙ k)

  -- A step that changes no result, no exception and no stage but one that is as much done behind
  -- it.
  kept :
      (i : ℕ) (s t : State A) (to : Stage)
      → Saved s
      → i < length tasks
      → t.results ≡ s.results
      → t.exception ≡ s.exception
      → t.stages ≡ set s.stages i to
      → (is_done to ≡ true → is_done (stage_of s i) ≡ true)
      → Saved t
  unfolding stage_of
  kept i s t to v h results exception stages done =
      let inside : i < length s.stages = omega (arith, v.stages_size) in
      record {
        size = rw results v.size;
        stages_size = rw stages (length-set s.stages i to ∙ v.stages_size);
        saved = λ j hj d.
            let d' : is_done (if i == j then to else get_or s.stages j finished) ≡ true =
              rw (stages, get_or-set s.stages i j to finished inside) at d in
            let before : is_done (get_or s.stages j finished) ≡ true = elim (Bool-cases (i == j)) [
              | inl e ↦ rw (==→eq i j e) at (done (rw e at d'))
              | inr e ↦ rw e at d'
            ] in
            saved-same j (get_or tasks j (returned blank)) s t results exception
              (v.saved j hj before);
        thrown = λ e x. v.thrown e (sym exception ∙ x);
      }

  rested :
      (s t : State A)
      → Saved s
      → t.results ≡ s.results
      → t.exception ≡ s.exception
      → t.stages ≡ s.stages
      → Saved t
  unfolding stage_of
  rested s t v results exception stages = record {
    size = rw results v.size;
    stages_size = rw stages v.stages_size;
    saved = λ j hj d.
        saved-same j (get_or tasks j (returned blank)) s t results exception
          (v.saved j hj (rw stages at d));
    thrown = λ e x. v.thrown e (sym exception ∙ x);
  }

  -- The step of wrapper `i` that saves its own end and none of the others'.
  saves :
      (i : ℕ) (s t : State A)
      → Saved s
      → i < length tasks
      → t.stages ≡ set s.stages i stored
      → length t.results ≡ length s.results
      → SavedAs i (get_or tasks i (returned blank)) t
      → ((j : ℕ) (e : End A) → (i == j) ≡ false → SavedAs j e s → SavedAs j e t)
      → ((e : ℕ) → t.exception ≡ some e → Mem (threw e) tasks)
      → Saved t
  unfolding stage_of
  saves i s t v h stages long own others thrown =
      let inside : i < length s.stages = omega (arith, v.stages_size) in
      record {
        size = long ∙ v.size;
        stages_size = rw stages (length-set s.stages i stored ∙ v.stages_size);
        saved = λ j hj d. elim (Bool-cases (i == j)) [
          | inl e ↦ subst (λ m. SavedAs m (get_or tasks m (returned blank)) t) (==→eq i j e) own
          | inr e ↦
              others j (get_or tasks j (returned blank)) e
                (v.saved j hj (rw (stages, get_or-set s.stages i j stored finished inside, e) at d))
        ];
        thrown = thrown;
      }

  store-Saved :
      (i : ℕ) (e : End A) (s : State A)
      → Saved s
      → i < length tasks
      → get_or tasks i (returned blank) ≡ e
      → Saved (store i e s)
  unfolding store
  store-Saved i (returned x) s v h same =
      let inside : i < length s.results = omega (arith, v.size) in
      let after = λ (j : ℕ). get_or-set s.results i j x blank inside in
      saves i s _ v h refl (length-set s.results i x) (rw same (ground (arith, after i)))
        (λ j e. others j e after) v.thrown
    where
      others :
          (j : ℕ) (e : End A)
          → ((j : ℕ)
              → get_or (set s.results i x) j blank
                ≡ (if i == j then x else get_or s.results j blank))
          → (i == j) ≡ false
          → SavedAs j e s
          → SavedAs j e (store i (returned x) s)
      others j (returned y) after d k = after j ∙ rw d k
      others j (threw y) after d k = k
  store-Saved i (threw x) s v h same = saves i s _ v h refl refl (rw same (x, refl)) others (λ e k.
      subst (λ y. Mem (threw y) tasks) (some-injective x e k)
        (rw same at (get_or-mem tasks i (returned blank) h)))
    where
      others :
          (j : ℕ) (e : End A) → (i == j) ≡ false → SavedAs j e s → SavedAs j e (store i (threw x) s)
      others j (returned y) d k = k
      others j (threw y) d k = (x, refl)

  Step-Saved : (s t : State A) → Saved s → Step tasks (returned blank) s t → Saved t
  unfolding launch await_ready await_suspend count_down wake resume stage_of
  Step-Saved s t v (launches k e h) = kept k s _ awaiting v h refl refl refl (λ d. cc)
  Step-Saved s t v (tests e) = rested s _ v refl refl refl
  Step-Saved s t v (suspends e) = rested s _ v refl refl refl
  Step-Saved s t v (stores i h here) = store-Saved i (get_or tasks i (returned blank)) s v h refl
  Step-Saved s t v (counts i h here) = kept i s _ _ v h refl refl refl (λ d. rw here refl)
  Step-Saved s t v (wakes i h here) = kept i s _ _ v h refl refl refl (λ d. rw here refl)
  Step-Saved s t v (resumes e p) = rested s _ v refl refl refl

  reachable-Saved : (s : State A) → Reachable tasks blank s → Saved s
  reachable-Saved s begins = start-Saved
  reachable-Saved s (steps before step) = Step-Saved _ s (reachable-Saved _ before) step

  -- What the caller returns or rethrows.
  pub Answers : Outcome A → Type 0
  Answers (values vs) = tasks ≡ map returned vs
  Answers (rethrown e) = Mem (threw e) tasks

  all-SavedAs :
      (s : State A)
      → Reachable tasks blank s
      → s.caller ≡ passed
      → (i : ℕ) → i < length tasks
      → SavedAs i (get_or tasks i (returned blank)) s
  unfolding stage_of
  all-SavedAs s r p i h =
      let a = reachable-Accounted tasks blank s r in
      let v = reachable-Saved s r in
      let none_left = sym a.count ∙ a.after p in
      v.saved i h (
        done-counted (get_or s.stages i finished)
          (total_zero s.stages i finished none_left (omega (arith, a.size))))

  answers :
      (s : State A) (x : Option ℕ)
      → Reachable tasks blank s
      → s.caller ≡ passed
      → s.exception ≡ x
      → Answers (await_resume s x)
  unfolding await_resume Answers
  answers s (some e) r p x = (reachable-Saved s r).thrown e x
  answers s none r p x =
      map-returned tasks s.results blank (reachable-Saved s r).size
        λ i h. by_end i (get_or tasks i (returned blank)) refl (all-SavedAs s r p i h)
    where
      by_end :
          (i : ℕ) (e : End A)
          → get_or tasks i (returned blank) ≡ e
          → SavedAs i e s
          → e ≡ returned (get_or s.results i blank)
      by_end i (returned v) same k = ap returned (sym k)
      by_end i (threw e) same (y, k) = absurd (none-ne-some y (sym x ∙ k))

  -- In every reachable state at most one thread has been created to resume the caller; and the
  -- caller is not past its co_await, or returns the values of all tasks in their order, all of
  -- which returned, or rethrows the exception that one of them threw.
  pub passed-Answers :
      (s : State A)
      → Reachable tasks blank s
      → (s.spawned ≤ 1) × ((s.caller ≢ passed) ⊎ Answers (await_resume s s.exception))
  passed-Answers s r = (
    omega (arith, (reachable-Accounted tasks blank s r).once),
    elim (passed_or_not s.caller) [ inl p ↦ inr (answers s s.exception r p refl) | inr n ↦ inl n ],
  )
