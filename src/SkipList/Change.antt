-- ===== src/SkipList/Change.antt =====
-- insert and erase on a skip list that stands for sorted cells.
use mathlib.Core.Option.{some-injective, none-ne-some}
use quick_cmake.Prelude.{
  ℕ, zero, suc, ◌+◌, ◌-◌, ◌≡◌, ◌≢◌, ◌≤◌, refl, sym, ap, ◌∙◌, Bool, true, false, Option, none, some,
  List, [], ◌∷◌, ◌++◌, All, All-append, All-parts, length-append, leb, ◌&&◌, ◌==◌, arith,
  Bool-cases, inl, inr, ==_refl, ==→eq,
}
use quick_cmake.Outcome.{value}
use quick_cmake.SkipList.{
  SkipListNode, Nodes, SkipList, max_level, write, level_loop, get_random_level, next_at, new_node,
  insert, erase,
}
use quick_cmake.SkipList.Levels.{Cell, Stored}
use quick_cmake.SkipList.Threads.{Thread}
use quick_cmake.SkipList.Search.{IsBelow, IsFrom}
use quick_cmake.SkipList.Splice.{Apart, Distinct, SameNext, Thread-move}
use quick_cmake.SkipList.Rounds.{All-map, Distinct-middle, link_lem, unlink_lem}
use quick_cmake.SkipList.Represents.{IsOrder, Sorted, Represents, matching, searched}

level_loop_bounds :
    (fuel : ℕ) (draws : ℕ → Bool) (level : ℕ)
    → 1 ≤ fuel
    → level + fuel ≡ 22
    → (n : ℕ) × (level_loop fuel draws level ≡ value n) × (level ≤ n) × (n ≤ 21)
unfolding level_loop
level_loop_bounds zero draws level h e = absurd (omega arith)
level_loop_bounds (suc fuel) draws level h e =
    elim (Bool-cases (draws level && leb level max_level)) [
      | inl again ↦
          let low : level ≤ 20 = ground arith in
          let (n, run, least, most) =
            level_loop_bounds fuel draws (level + 1) (omega arith) (omega arith) in
          (n, rw again run, omega arith, most)
      | inr stop ↦ (level, rw stop refl, omega arith, omega arith)
    ]

-- get_random_level returns, whatever is drawn, a level from 1 to 21.
pub get_random_level_bounds :
    (draws : ℕ → Bool) → (n : ℕ) × (get_random_level draws ≡ value n) × (1 ≤ n) × (n ≤ 21)
unfolding get_random_level
get_random_level_bounds draws = level_loop_bounds 21 draws 1 (omega arith) refl

module _ {K V : Type 0} where
  All-middle :
      (P : Cell K V → Type 0) (a b : List (Cell K V)) (c : Cell K V)
      → P c
      → All P (a ++ b)
      → All P (a ++ c ∷ b)
  All-middle P a b c h s =
      let (front, back) = All-parts P a b s in All-append P a (c ∷ b) front (h, back)

  All-without :
      (P : Cell K V → Type 0) (a b : List (Cell K V)) (c : Cell K V)
      → All P (a ++ c ∷ b)
      → All P (a ++ b)
  All-without P a b c s =
      let (front, back) = All-parts P a (c ∷ b) s in All-append P a b front back.1

  next_apart :
      (m : Nodes K V) (p r i : ℕ) (n : Option (SkipListNode K V))
      → p ≢ r
      → next_at (write m p n) r i ≡ next_at m r i
  unfolding next_at
  next_apart m p r i n h = ground (arith, ==→eq p r)

  Stored-write :
      (m : Nodes K V) (p : ℕ) (n : Option (SkipListNode K V)) (l : List (Cell K V))
      → Apart p l
      → All (Stored m) l
      → All (Stored (write m p n)) l
  Stored-write m p n [] h s = tt
  Stored-write m p n (c ∷ l) (differ, h) ((next, e), s) =
      let apart : (p == c.place) ≡ false = ground (arith, differ) in
      ((next, rw apart e), Stored-write m p n l h s)

  SameNext-write :
      (m : Nodes K V) (p i : ℕ) (n : Option (SkipListNode K V)) (l : List (Cell K V))
      → Apart p l
      → SameNext m (write m p n) i l
  SameNext-write m p i n [] h = tt
  SameNext-write m p i n (c ∷ l) (differ, h) =
      (next_apart m p c.place i n differ, SameNext-write m p i n l h)

  Thread-write :
      (m : Nodes K V) (p i head : ℕ) (n : Option (SkipListNode K V)) (l : List (Cell K V))
      → p ≢ head
      → Apart p l
      → Thread m i head l
      → Thread (write m p n) i head l
  Thread-write m p i head n l differ apart =
      Thread-move (next_apart m p head i n differ) (SameNext-write m p i n l apart)

  Distinct-back : (a b : List (Cell K V)) (c : Cell K V) → Distinct (a ++ c ∷ b) → Apart c.place b
  Distinct-back [] b c h = h.0
  Distinct-back (d ∷ a) b c h = Distinct-back a b c h.1

module _ {K V : Type 0} {lt eq : K → K → Bool} (laws : IsOrder lt eq) where
  places_differ :
      (m : Nodes K V) (c : Cell K V) (l : List (Cell K V))
      → Stored m c
      → All (Stored m) l
      → All (λ d. lt c.key d.key ≡ true) l
      → Apart c.place l
  places_differ m c [] s t h = tt
  places_differ m c (d ∷ l) (next, e) ((more, f), t) (less, h) = (
    λ same.
        let content = some-injective _ _ (sym e ∙ ap m same ∙ f) in
        let key : c.key ≡ d.key = ap (λ (n : SkipListNode K V). n.key) content in
        let bad : lt d.key d.key ≡ true = rw key at less in let good = laws.irreflexive d.key in cc,
    places_differ m c l (next, e) t h,
  )

  Distinct-Sorted :
      (m : Nodes K V) (l : List (Cell K V)) → All (Stored m) l → Sorted lt l → Distinct l
  Distinct-Sorted m [] s h = tt
  Distinct-Sorted m (c ∷ l) (s, t) (less, h) =
      (places_differ m c l s t less, Distinct-Sorted m l t h)

  Sorted-middle :
      (a b : List (Cell K V)) (c : Cell K V)
      → All (IsBelow lt c.key) a
      → All (λ d. lt c.key d.key ≡ true) b
      → Sorted lt (a ++ b)
      → Sorted lt (a ++ c ∷ b)
  Sorted-middle [] b c below above s = (above, s)
  Sorted-middle (d ∷ a) b c (less, below) above (h, s) =
      (All-middle _ a b c less h, Sorted-middle a b c below above s)

  Sorted-without :
      (a b : List (Cell K V)) (c : Cell K V) → Sorted lt (a ++ c ∷ b) → Sorted lt (a ++ b)
  Sorted-without [] b c s = s.1
  Sorted-without (d ∷ a) b c (h, s) = (All-without _ a b c h, Sorted-without a b c s)

  -- Cells from a key on that do not have it are above it.
  pub above_key :
      (k : K) (a b : List (Cell K V))
      → All (IsFrom lt k) b
      → matching lt eq k b ≡ none
      → Sorted lt (a ++ b)
      → All (λ d. lt k d.key ≡ true) b
  above_key k a [] from none_there s = tt
  above_key k (d ∷ a) (c ∷ b) from none_there s = above_key k a (c ∷ b) from none_there s.1
  above_key k [] (c ∷ b) (from, more) none_there (h, s) =
      let less : lt k c.key ≡ true = elim (Bool-cases (lt k c.key)) [
        | inl e ↦ e
        | inr e ↦
            let same : eq c.key k ≡ true = (laws.eq_iff c.key k).1 (laws.total c.key k from e) in
            absurd (none-ne-some c.place (sym (rw same at none_there)))
      ] in
      (less, All-map _ _ b (λ d e. laws.transitive k c.key d.key less e) h)

  -- insert with a key that no cell has.
  pub insert_new :
      (draws : ℕ → Bool) (s : SkipList K V) (k : K) (v : V) (a b : List (Cell K V)) (level : ℕ)
      → Represents lt s (a ++ b)
      → All (IsBelow lt k) a
      → All (IsFrom lt k) b
      → matching lt eq k b ≡ none
      → get_random_level draws ≡ value level
      → 1 ≤ level
      → level ≤ max_level
      → (t : SkipList K V) × (insert lt eq draws s k v ≡ value (true, t))
        × Represents lt t (a ++ (record { place = s.unused; key = k; val = v; level = level }) ∷ b)
  unfolding insert
  insert_new draws s k v a b level r below from none_there drawn least most =
      let c : Cell K V = record { place = s.unused; key = k; val = v; level = level } in
      let m1 = write s.nodes s.unused (some (new_node level k v)) in
      let (curr, update, run, same_run, found, match) = searched lt eq s k a b r below from in
      let free : Apart s.unused (a ++ b) =
        All-map _ _ (a ++ b) (λ d h e. absurd (omega arith)) r.room in
      let differ : s.unused ≢ s.head = λ e. absurd (omega (arith, r.head_room)) in
      let stored : All (Stored m1) (a ++ c ∷ b) =
        All-middle (Stored m1) a b c ((λ i. none), rw (==_refl s.unused) refl)
          (Stored-write s.nodes s.unused (some (new_node level k v)) (a ++ b) free r.stored) in
      let sorted = Sorted-middle a b c below (above_key k a b from none_there r.sorted) r.sorted in
      let apart = All-middle (λ d. s.head ≢ d.place) a b c (λ e. differ (sym e)) r.apart in
      let (m2, linked, threads, kept) =
        link_lem s.head a b c update most found apart (Distinct-Sorted m1 _ stored sorted) level 0
          m1 (omega arith) (λ j h. absurd (omega arith))
          (λ j h most.
            Thread-write s.nodes s.unused j s.head _ (a ++ b) differ free (r.threads j most))
          stored in
      (
        record s { node_num = s.node_num + 1; nodes = m2; unused = s.unused + 1 },
        rw (run, match, none_there, drawn, linked) refl,
        record {
          threads = threads;
          stored = kept;
          levels = All-middle _ a b c (least, most) r.levels;
          sorted = sorted;
          apart = apart;
          room =
              All-middle _ a b c (omega arith) (All-map _ _ (a ++ b) (λ d h. omega arith) r.room);
          head_room = omega (arith, r.head_room);
          count = omega (arith, r.count, length-append a (c ∷ b), length-append a b);
        },
      )

  -- insert with a key that the first cell from it on has.
  pub insert_old :
      (draws : ℕ → Bool) (s : SkipList K V) (k : K) (v : V) (a b : List (Cell K V)) (p : ℕ)
      → Represents lt s (a ++ b)
      → All (IsBelow lt k) a
      → All (IsFrom lt k) b
      → matching lt eq k b ≡ some p
      → insert lt eq draws s k v ≡ value (false, s)
  unfolding insert
  insert_old draws s k v a b p r below from there =
      let (curr, update, run, same_run, found, match) = searched lt eq s k a b r below from in
      rw (run, match, there) refl

  pub erase_absent :
      (s : SkipList K V) (k : K) (a b : List (Cell K V))
      → Represents lt s (a ++ b)
      → All (IsBelow lt k) a
      → All (IsFrom lt k) b
      → matching lt eq k b ≡ none
      → erase lt eq s k ≡ value (false, s)
  unfolding erase
  erase_absent s k a b r below from none_there =
      let (curr, update, run, same_run, found, match) = searched lt eq s k a b r below from in
      elim (Bool-cases (leb s.node_num 0)) [
        | inl e ↦ rw e refl
        | inr e ↦ rw (e, run, match, none_there) refl
      ]

  pub erase_present :
      (s : SkipList K V) (k : K) (a b : List (Cell K V)) (c : Cell K V)
      → Represents lt s (a ++ c ∷ b)
      → All (IsBelow lt k) a
      → All (IsFrom lt k) (c ∷ b)
      → eq c.key k ≡ true
      → (t : SkipList K V) × (erase lt eq s k ≡ value (true, t)) × Represents lt t (a ++ b)
  unfolding erase
  erase_present s k a b c r below from same =
      let (curr, update, run, same_run, found, match) = searched lt eq s k a (c ∷ b) r below from in
      let some_nodes : leb s.node_num 0 ≡ false =
        ground (arith, r.count, length-append a (c ∷ b)) in
      let (front, back) = All-parts (Stored s.nodes) a (c ∷ b) r.stored in
      let (levels, more) = All-parts _ a (c ∷ b) r.levels in
      let distinct = Distinct-Sorted s.nodes _ r.stored r.sorted in
      let (m, run2, threads, kept) =
        unlink_lem s.head a b c update more.0.1 found r.apart distinct c.level 0 s.nodes
          (omega arith) (λ j h. absurd (omega arith)) (λ j h most. r.threads j most) r.stored in
      let free : Apart c.place (a ++ b) =
        All-append _ a b (Distinct-middle a b c distinct) (Distinct-back a b c distinct) in
      let (before, behind) = All-parts (λ d. s.head ≢ d.place) a (c ∷ b) r.apart in
      let differ : c.place ≢ s.head = λ e. behind.0 (sym e) in
      (
        record s { node_num = s.node_num - 1; nodes = write m c.place none },
        rw (some_nodes, run, match, same, back.0.1, run2) refl,
        record {
          threads = λ i h. Thread-write m c.place i s.head none (a ++ b) differ free (threads i h);
          stored = Stored-write m c.place none (a ++ b) free (All-without _ a b c kept);
          levels = All-without _ a b c r.levels;
          sorted = Sorted-without a b c r.sorted;
          apart = All-without _ a b c r.apart;
          room = All-without _ a b c r.room;
          head_room = r.head_room;
          count = omega (arith, r.count, length-append a (c ∷ b), length-append a b);
        },
      )
