-- ===== src/SkipList/Threads.antt =====
-- The list of one level: the nodes whose level is above it, in their order.
use quick_cmake.Prelude.{
  ℕ, ◌≡◌, ◌≤◌, ◌<◌, ◌⊎◌, refl, true, false, Option, none, some, List, [], ◌∷◌, ◌++◌, All, length,
  ltb, ltb→lt, if◌then◌else◌, arith, Bool-cases, inl, inr,
}
use quick_cmake.Outcome.{value}
use quick_cmake.SkipList.{Nodes, next_at}
use quick_cmake.SkipList.Levels.{Cell}

module _ {K V : Type 0} where
  -- From p the pointers of level i lead through those of the cells that are above the level.
  pub data Thread (m : Nodes K V) (i : ℕ) : ℕ → List (Cell K V) → Type 0 where
    ends : {p : ℕ} → next_at m p i ≡ value none → Thread m i p []
    passes :
        {p : ℕ} {d : Cell K V} {l : List (Cell K V)}
        → d.level ≤ i
        → Thread m i p l
        → Thread m i p (d ∷ l)
    visits :
        {p : ℕ} {d : Cell K V} {l : List (Cell K V)}
        → i < d.level
        → next_at m p i ≡ value (some d.place)
        → Thread m i d.place l
        → Thread m i p (d ∷ l)

  -- The first cell above the level.
  unfoldable pub first : ℕ → List (Cell K V) → Option ℕ
  first i [] = none
  first i (d ∷ l) = let later = first i l in if ltb i d.level then some d.place else later

  -- The last cell above the level, or p.
  unfoldable pub last_place : ℕ → ℕ → List (Cell K V) → ℕ
  last_place i p [] = p
  last_place i p (d ∷ l) =
      let here = last_place i d.place l in
      let other = last_place i p l in if ltb i d.level then here else other

  pub next_first :
      {m : Nodes K V} {i p : ℕ} {l : List (Cell K V)}
      → Thread m i p l
      → next_at m p i ≡ value (first i l)
  unfolding first
  next_first (ends e) = e
  next_first (passes h t) = ground (arith, next_first t)
  next_first (visits h e t) = ground (arith, e)

  pub Thread-rest :
      {m : Nodes K V} {i : ℕ} (p : ℕ) (a b : List (Cell K V))
      → Thread m i p (a ++ b)
      → Thread m i (last_place i p a) b
  unfolding last_place
  Thread-rest p [] b t = t
  Thread-rest {i = i} p (d ∷ a) b (passes h t) =
      let high : ltb i d.level ≡ false = ground arith in rw high (Thread-rest p a b t)
  Thread-rest {i = i} p (d ∷ a) b (visits h e t) =
      let low : ltb i d.level ≡ true = ground arith in rw low (Thread-rest d.place a b t)

  pub Thread-beyond :
      {m : Nodes K V} {i p : ℕ} {d : Cell K V} {l : List (Cell K V)}
      → i < d.level
      → Thread m i p (d ∷ l)
      → Thread m i d.place l
  Thread-beyond low (passes h t) = absurd (omega arith)
  Thread-beyond low (visits h e t) = t

  Thread-some :
      {m : Nodes K V} {i p : ℕ} {d : Cell K V} {l : List (Cell K V)}
      → Thread m i p (d ∷ l)
      → (r : ℕ) × Thread m i r l
  Thread-some (passes h t) = (_, t)
  Thread-some (visits h e t) = (_, t)

  -- A search on the lower levels goes on from q with the cells that are left.
  pub record Onward (i : ℕ) (a : List (Cell K V)) (p q : ℕ) (left : List (Cell K V)) : Type 1 where
    pub last : last_place i p a ≡ q
    pub thread :
        (m : Nodes K V) (j : ℕ) (b : List (Cell K V))
        → j ≤ i
        → Thread m j p (a ++ b)
        → Thread m j q (left ++ b)
    pub same : (j : ℕ) → j ≤ i → last_place j p a ≡ last_place j q left
    pub shorter : length left ≤ length a
    pub all : (P : Cell K V → Type 0) → All P a → All P left

  -- Behind the last cell above the level, wherever the search came from, or at its start.
  Onward-cases :
      (i : ℕ) (a : List (Cell K V))
      → ((p : ℕ) → last_place i p a ≡ p)
        ⊎ ((q : ℕ) × (left : List (Cell K V)) × ((p : ℕ) → Onward i a p q left))
  unfolding last_place
  Onward-cases i [] = inl λ p. refl
  Onward-cases i (d ∷ a) = elim (Bool-cases (ltb i d.level)) [
    | inl low ↦ elim (Onward-cases i a) [
      | inl none_above ↦ inr (
        d.place,
        a,
        λ p. record {
          last = rw low (none_above d.place);
          thread = λ m j b le t. Thread-beyond (omega (arith, ltb→lt i d.level low)) t;
          same = λ j le. ground arith;
          shorter = omega arith;
          all = λ P h. h.1;
        },
      )
      | inr (q, left, on) ↦ inr (
        q,
        left,
        λ p. record {
          last = rw low ((on d.place).last);
          thread = λ m j b le t.
              (on d.place).thread m j b le (Thread-beyond (omega (arith, ltb→lt i d.level low)) t);
          same = λ j le. ground (arith, (on d.place).same j le);
          shorter = omega (arith, (on d.place).shorter);
          all = λ P h. (on d.place).all P h.1;
        },
      )
    ]
    | inr high ↦ elim (Onward-cases i a) [
      | inl none_above ↦ inl λ p. rw high (none_above p)
      | inr (q, left, on) ↦ inr (
        q,
        left,
        λ p. record {
          last = rw high ((on p).last);
          thread = λ m j b le t. let (r, more) = Thread-some t in (on r).thread m j b le more;
          same = λ j le. ground (arith, (on d.place).same j le, (on p).same j le);
          shorter = omega (arith, (on d.place).shorter);
          all = λ P h. (on d.place).all P h.1;
        },
      )
    ]
  ]

  pub Onward-from :
      (i p : ℕ) (a : List (Cell K V))
      → (left : List (Cell K V)) × Onward i a p (last_place i p a) left
  Onward-from i p a = elim (Onward-cases i a) [
    | inl here ↦ (
      a,
      record {
        last = refl;
        thread = λ m j b le t. rw (here p) t;
        same = λ j le. rw (here p) refl;
        shorter = omega arith;
        all = λ P h. h;
      },
    )
    | inr (q, left, on) ↦ (left, rw ((on p).last) (on p))
  ]
