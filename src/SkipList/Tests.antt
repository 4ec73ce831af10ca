-- ===== src/SkipList/Tests.antt =====
-- Runs of the skip list, and its theorems at a concrete one.
use quick_cmake.Prelude.{ℕ, ◌≤◌, ◌≡◌, refl, Bool, true, List, [], ◌∷◌, ltb, ◌==◌, ==→eq, arith}
use quick_cmake.Outcome.{value, undefined}
use quick_cmake.SkipList.{
  get_random_level, level_loop, make, search_loop, walk, match_next, next_at, set_next, link,
  insert,
}
use quick_cmake.SkipList.Represents.{IsOrder}
use quick_cmake.SkipList.Change.{get_random_level_bounds}
use quick_cmake.SkipList.Refines.{Operation, add, drop, read, count, run, map_run, run_refines}

natural : IsOrder ltb ◌==◌
natural = record {
  eq_iff = λ a b. (==→eq a b, λ e. ground arith);
  irreflexive = λ a. ground arith;
  transitive = λ a b c h k. ground arith;
  total = λ a b h k. ground arith;
}

-- A draw that gives level 2, and one that gives level 21.
abbrev second : ℕ → Bool
second i = i == 1

abbrev always : ℕ → Bool
always i = true

second-level : get_random_level second ≡ value 2
unfolding get_random_level level_loop
second-level = refl

always-level : get_random_level always ≡ value 21
unfolding get_random_level level_loop
always-level = refl

-- With level 21 insert writes beyond update and the head's pointers.
insert_beyond : insert {V = ℕ} ltb ◌==◌ always (make 0 0) 5 7 ≡ undefined
unfolding insert make get_random_level level_loop search_loop walk match_next next_at set_next link
insert_beyond = refl

abbrev calls : List (Operation ℕ ℕ)
calls = add second 5 50 ∷ add second 3 30 ∷ add second 5 51 ∷ drop 3 ∷ read 5 ∷ read 3 ∷ count ∷ []

run_refines_example : run ltb ◌==◌ (make 0 0) calls ≡ value (map_run ltb ◌==◌ [] calls)
run_refines_example = run_refines natural 0 0 calls (
  (2, second-level, omega arith),
  ((2, second-level, omega arith), ((2, second-level, omega arith), (tt, (tt, (tt, (tt, tt)))))),
)

get_random_level_bounds_example : (n : ℕ) × (get_random_level second ≡ value n) × (1 ≤ n) × (n ≤ 21)
get_random_level_bounds_example = get_random_level_bounds second
