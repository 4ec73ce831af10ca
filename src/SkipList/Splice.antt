-- ===== src/SkipList/Splice.antt =====
-- A node put into the list of a level, or taken out of it.
use quick_cmake.Prelude.{
  ℕ, ◌≡◌, ◌≢◌, ◌≤◌, ◌<◌, sym, ap, ◌∙◌, true, false, some, List, [], ◌∷◌, ◌++◌, All, All-parts, ltb,
  arith, Bool-cases, inl, inr,
}
use quick_cmake.Outcome.{value}
use quick_cmake.SkipList.{Nodes, next_at}
use quick_cmake.SkipList.Levels.{Cell}
use quick_cmake.SkipList.Threads.{Thread, ends, passes, visits, last_place, Thread-beyond}

module _ {K V : Type 0} where
  abbrev pub Apart : ℕ → List (Cell K V) → Type 0
  Apart p = All (λ c. p ≢ c.place)

  -- No address stands twice.
  abbrev pub Distinct : List (Cell K V) → Type 0
  Distinct [] = Unit
  Distinct (c ∷ l) = Apart c.place l × Distinct l

  abbrev pub SameNext : Nodes K V → Nodes K V → ℕ → List (Cell K V) → Type 0
  SameNext m m' i = All (λ c. next_at m' c.place i ≡ next_at m c.place i)

  -- The same list from another node, in another store.
  pub Thread-move :
      {m m' : Nodes K V} {i p r : ℕ} {l : List (Cell K V)}
      → next_at m' r i ≡ next_at m p i
      → SameNext m m' i l
      → Thread m i p l
      → Thread m' i r l
  Thread-move e same (ends t) = ends (e ∙ t)
  Thread-move e same (passes h t) = passes h (Thread-move e same.1 t)
  Thread-move e same (visits h at t) = visits h (e ∙ at) (Thread-move same.0 same.1 t)

  pub last_place-Apart :
      (r i p : ℕ) (a : List (Cell K V)) → r ≢ p → Apart r a → r ≢ last_place i p a
  unfolding last_place
  last_place-Apart r i p [] h apart = h
  last_place-Apart r i p (d ∷ a) h apart = elim (Bool-cases (ltb i d.level)) [
    | inl low ↦ rw low (last_place-Apart r i d.place a apart.0 apart.1)
    | inr high ↦ rw high (last_place-Apart r i p a h apart.1)
  ]

  module _ (m m' : Nodes K V) (i q : ℕ) (c : Cell K V) (b : List (Cell K V))
      (other : (r : ℕ) → q ≢ r → c.place ≢ r → next_at m' r i ≡ next_at m r i) where
    same_behind : (l : List (Cell K V)) → Apart q l → Apart c.place l → SameNext m m' i l
    same_behind [] hq hc = tt
    same_behind (d ∷ l) hq hc = (other d.place hq.0 hc.0, same_behind l hq.1 hc.1)

    -- A node before the last one of the level keeps its pointer.
    same_before :
        (p r : ℕ) (a : List (Cell K V))
        → last_place i r a ≡ q
        → p ≢ r
        → Apart p (a ++ c ∷ b)
        → next_at m' p i ≡ next_at m p i
    same_before p r a at differ apart =
        let (front, back) = All-parts (λ d. p ≢ d.place) a (c ∷ b) apart in
        let away : p ≢ q = λ e. last_place-Apart p i r a differ front (e ∙ sym at) in
        other p (λ e. away (sym e)) (λ e. back.0 (sym e))

    -- c is linked behind the last cell of its level in a.
    pub Thread-insert :
        (p : ℕ) (a : List (Cell K V))
        → last_place i p a ≡ q
        → i < c.level
        → next_at m' c.place i ≡ next_at m q i
        → next_at m' q i ≡ value (some c.place)
        → Apart p (a ++ c ∷ b)
        → Distinct (a ++ c ∷ b)
        → Thread m i p (a ++ b)
        → Thread m' i p (a ++ c ∷ b)
    unfolding last_place
    Thread-insert p [] at below taken linked apart distinct t =
        visits below (ap (λ r. next_at m' r i) at ∙ linked) (
          Thread-move (taken ∙ ap (λ r. next_at m r i) (sym at))
            (same_behind b (rw (← at) apart.1) distinct.0) t)
    Thread-insert p (d ∷ a) at below taken linked apart distinct (passes h t) =
        let high : ltb i d.level ≡ false = ground arith in
        passes h (Thread-insert p a (rw high at at) below taken linked apart.1 distinct.1 t)
    Thread-insert p (d ∷ a) at below taken linked apart distinct (visits h e t) =
        let low : ltb i d.level ≡ true = ground arith in
        let there = rw low at at in
        visits h (same_before p d.place a there apart.0 apart.1 ∙ e)
          (Thread-insert d.place a there below taken linked distinct.0 distinct.1 t)

    -- c is taken out behind the last cell of its level in a.
    pub Thread-remove :
        (p : ℕ) (a : List (Cell K V))
        → last_place i p a ≡ q
        → i < c.level
        → next_at m' q i ≡ next_at m c.place i
        → Apart p (a ++ c ∷ b)
        → Distinct (a ++ c ∷ b)
        → Thread m i p (a ++ c ∷ b)
        → Thread m' i p (a ++ b)
    unfolding last_place
    Thread-remove p [] at below taken apart distinct t =
        Thread-move (ap (λ r. next_at m' r i) at ∙ taken)
          (same_behind b (rw (← at) apart.1) distinct.0) (Thread-beyond below t)
    Thread-remove p (d ∷ a) at below taken apart distinct (passes h t) =
        let high : ltb i d.level ≡ false = ground arith in
        passes h (Thread-remove p a (rw high at at) below taken apart.1 distinct.1 t)
    Thread-remove p (d ∷ a) at below taken apart distinct (visits h e t) =
        let low : ltb i d.level ≡ true = ground arith in
        let there = rw low at at in
        visits h (same_before p d.place a there apart.0 apart.1 ∙ e)
          (Thread-remove d.place a there below taken distinct.0 distinct.1 t)

  -- A level that the node does not reach has the same list with it and without it.
  pub Thread-above :
      (m : Nodes K V) (i p : ℕ) (a b : List (Cell K V)) (c : Cell K V)
      → c.level ≤ i
      → Thread m i p (a ++ b)
      → Thread m i p (a ++ c ∷ b)
  Thread-above m i p [] b c high t = passes high t
  Thread-above m i p (d ∷ a) b c high (passes h t) = passes h (Thread-above m i p a b c high t)
  Thread-above m i p (d ∷ a) b c high (visits h e t) =
      visits h e (Thread-above m i d.place a b c high t)

  pub Thread-without :
      (m : Nodes K V) (i p : ℕ) (a b : List (Cell K V)) (c : Cell K V)
      → c.level ≤ i
      → Thread m i p (a ++ c ∷ b)
      → Thread m i p (a ++ b)
  Thread-without m i p [] b c high (passes h t) = t
  Thread-without m i p [] b c high (visits h e t) = absurd (omega arith)
  Thread-without m i p (d ∷ a) b c high (passes h t) = passes h (Thread-without m i p a b c high t)
  Thread-without m i p (d ∷ a) b c high (visits h e t) =
      visits h e (Thread-without m i d.place a b c high t)
