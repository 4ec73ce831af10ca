-- ===== src/SkipList/Represents.antt =====
-- What a skip list stands for: its entries in the order of the keys.
use quick_cmake.Prelude.{
  ℕ, suc, ◌≡◌, ◌≤◌, ◌<◌, ◌↔◌, refl, ap, ◌∙◌, Bool, true, false, Option, none, some, List, [], ◌∷◌,
  ◌++◌, All, All-parts, length, length-append, ltb, if◌then◌else◌, arith, Bool-cases, inl, inr,
}
use quick_cmake.Outcome.{value}
use quick_cmake.SkipList.{Nodes, SkipList, max_level, next_at, search_loop, find_loop, match_next}
use quick_cmake.SkipList.Levels.{Cell, Stored}
use quick_cmake.SkipList.Threads.{Thread, first, last_place, next_first, Thread-rest}
use quick_cmake.SkipList.Search.{IsBelow, IsFrom, search_loop_lem}
use quick_cmake.SkipList.Splice.{Apart}

-- The laws of `<` and `==`: a strict total order.
pub record IsOrder {K : Type 0} (lt eq : K → K → Bool) : Type 0 where
  pub eq_iff : (a b : K) → (eq a b ≡ true) ↔ (a ≡ b)
  pub irreflexive : (a : K) → lt a a ≡ false
  pub transitive : (a b c : K) → lt a b ≡ true → lt b c ≡ true → lt a c ≡ true
  pub total : (a b : K) → lt a b ≡ false → lt b a ≡ false → a ≡ b

module _ {K V : Type 0} (lt : K → K → Bool) where
  abbrev pub Sorted : List (Cell K V) → Type 0
  Sorted [] = Unit
  Sorted (c ∷ l) = All (λ d. lt c.key d.key ≡ true) l × Sorted l

  pub record Represents (s : SkipList K V) (l : List (Cell K V)) : Type 0 where
    pub threads : (i : ℕ) → i < max_level → Thread s.nodes i s.head l
    pub stored : All (Stored s.nodes) l
    pub levels : All (λ c. (1 ≤ c.level) × (c.level ≤ max_level)) l
    pub sorted : Sorted l
    pub apart : Apart s.head l
    pub room : All (λ c. c.place < s.unused) l
    pub head_room : s.head < s.unused
    pub count : s.node_num ≡ length l

  -- The cells in two parts, at a key.
  pub record Parted (k : K) (l : List (Cell K V)) : Type 0 where
    pub front : List (Cell K V)
    pub back : List (Cell K V)
    pub same : l ≡ front ++ back
    pub below : All (IsBelow lt k) front
    pub from : All (IsFrom lt k) back

module _ {K V : Type 0} {lt eq : K → K → Bool} (laws : IsOrder lt eq) where
  IsFrom-rest :
      (k : K) (c : Cell K V) (l : List (Cell K V))
      → lt c.key k ≡ false
      → All (λ d. lt c.key d.key ≡ true) l
      → All (IsFrom lt k) l
  IsFrom-rest k c [] h s = tt
  IsFrom-rest k c (d ∷ l) h (less, s) = (
    elim (Bool-cases (lt d.key k)) [
      | inl e ↦ absurd (let bad = laws.transitive c.key d.key k less e in cc)
      | inr e ↦ e
    ],
    IsFrom-rest k c l h s,
  )

  pub part : (k : K) (l : List (Cell K V)) → Sorted lt l → Parted lt k l
  part k [] s = record { front = []; back = []; same = refl; below = tt; from = tt }
  part k (c ∷ l) (less, s) = elim (Bool-cases (lt c.key k)) [
    | inl e ↦
        let p = part k l s in
        record {
          front = c ∷ p.front;
          back = p.back;
          same = ap (λ r. c ∷ r) p.same;
          below = (e, p.below);
          from = p.from;
        }
    | inr e ↦ record {
      front = [];
      back = c ∷ l;
      same = refl;
      below = tt;
      from = (e, IsFrom-rest k c l e less);
    }
  ]

module _ {K V : Type 0} (lt eq : K → K → Bool) where
  -- The first of the cells from the key on, if it has the key.
  abbrev pub matching : K → List (Cell K V) → Option ℕ
  matching k [] = none
  matching k (c ∷ l) = if eq c.key k then some c.place else none

  match_next-matching :
      (m : Nodes K V) (k : K) (curr : ℕ) (b : List (Cell K V))
      → next_at m curr 0 ≡ value (first 0 b)
      → All (Stored m) b
      → All (λ c. (1 ≤ c.level) × (c.level ≤ max_level)) b
      → match_next lt eq m k curr ≡ value (matching k b)
  unfolding match_next first
  match_next-matching m k curr [] next s levels = rw next refl
  match_next-matching m k curr (c ∷ b) next s levels =
      let low : ltb 0 c.level ≡ true = ground (arith, levels.0.0) in
      let head : next_at m curr 0 ≡ value (some c.place) = rw low at next in rw (head, s.0.1) refl

  -- The searches of find, insert and erase.
  pub searched :
      (s : SkipList K V) (k : K) (a b : List (Cell K V))
      → Represents lt s (a ++ b)
      → All (IsBelow lt k) a
      → All (IsFrom lt k) b
      → (curr : ℕ) × (update : ℕ → Option ℕ) × (search_loop lt eq
            (suc s.node_num)
            s.nodes
            k
            max_level
            s.head
            (λ i. none)
          ≡ value (curr, update))
        × (find_loop lt eq (suc s.node_num) s.nodes k max_level s.head ≡ value curr)
        × ((i : ℕ) → i < max_level → update i ≡ some (last_place i s.head a))
        × (match_next lt eq s.nodes k curr ≡ value (matching k b))
  searched s k a b r below from =
      let (sa, sb) = All-parts (Stored s.nodes) a b r.stored in
      let (la, lb) = All-parts _ a b r.levels in
      let (curr, update, run, same_run, found) =
        search_loop_lem lt eq s.nodes k max_level (suc s.node_num) s.head a b (λ i. none) r.threads
          sa sb below from (omega (arith, r.count, length-append a b)) in
      let at = found.at_zero (omega arith) in
      let behind = next_first (Thread-rest s.head a b (r.threads 0 (omega arith))) in
      (
        curr,
        update,
        run,
        same_run,
        found.inside,
        match_next-matching s.nodes k curr b (ap (λ p. next_at s.nodes p 0) at ∙ behind) sb lb,
      )
