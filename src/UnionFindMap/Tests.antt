-- ===== src/UnionFindMap/Tests.antt =====
-- Tests of the map-based union-find set, with the numbers as values.
use mathlib.Core.List.{Memᴰ}
use mathlib.Core.List.Memᴰ
use quick_cmake.Prelude.{ℕ, ◌≡◌, ◌↔◌, refl, true, false, List, [], ◌∷◌, ltb, pos, arith}
use quick_cmake.Outcome.{value, thrown, out_of_range}
use quick_cmake.Graph.{Graph}
use quick_cmake.UnionFindMap.{Sets, equal, find, connect, sets_of_graph}
use quick_cmake.UnionFind.Linked.{Linked}
use quick_cmake.UnionFindMap.Entries.{roots}
use quick_cmake.UnionFindMap.Runs.{
  Addition, single, joined, elements, pairs, run, run_partitions, find_unexist,
}

equal_iff : (a b : ℕ) → (equal ltb a b ≡ true) ↔ (a ≡ b)
unfolding equal
equal_iff a b = ground arith

abbrev calls : List (Addition ℕ)
calls = joined 7 3 ∷ single 9 ∷ joined 5 3 ∷ []

-- The map holds 3, 5, 7 and 9, of which 3 and 9 are roots.
after_calls :
    run ltb calls ≡ value (record { cnt = 2; parent = (3, 3) ∷ (5, 3) ∷ (7, 3) ∷ (9, 9) ∷ [] })
unfolding run
after_calls = refl

-- A value that stands twice among the nodes is counted twice.
twice : Graph ℕ
twice = record {
  nodes = 4 ∷ 4 ∷ [];
  edges = (pos 0 ∷ pos 0 ∷ []) ∷ (pos 0 ∷ pos 0 ∷ []) ∷ [];
  is_directed = false;
  node_num = 2;
}

twice_counted : sets_of_graph ltb twice ≡ value (record { cnt = 2; parent = (4, 4) ∷ [] })
unfolding sets_of_graph twice
twice_counted = refl

run_partitions_example :
    (t : Sets ℕ) × (run ltb calls ≡ value t)
    × (t.cnt ≡ roots ltb t.parent)
    × (rx : ℕ) × (ry : ℕ) × (find ltb t 5 ≡ value rx)
    × (find ltb t 7 ≡ value ry)
    × ((equal ltb rx ry ≡ true) ↔ ∥ Linked (pairs calls) 5 7 ∥₁)
unfolding elements
run_partitions_example =
    run_partitions ltb equal_iff calls 5 7
      (Memᴰ.tail (Memᴰ.tail (Memᴰ.tail (Memᴰ.tail (Memᴰ.head refl))))) (Memᴰ.tail (Memᴰ.head refl))

not_8 : ¬ Memᴰ 8 (elements calls)
unfolding elements
not_8 (Memᴰ.head e) = absurd (omega arith)
not_8 (Memᴰ.tail (Memᴰ.head e)) = absurd (omega arith)
not_8 (Memᴰ.tail (Memᴰ.tail (Memᴰ.head e))) = absurd (omega arith)
not_8 (Memᴰ.tail (Memᴰ.tail (Memᴰ.tail (Memᴰ.head e)))) = absurd (omega arith)
not_8 (Memᴰ.tail (Memᴰ.tail (Memᴰ.tail (Memᴰ.tail (Memᴰ.head e))))) = absurd (omega arith)
not_8 (Memᴰ.tail (Memᴰ.tail (Memᴰ.tail (Memᴰ.tail (Memᴰ.tail m))))) = absurd (Memᴰ.not-nil m)

find_unexist_example :
    (t : Sets ℕ) × (run ltb calls ≡ value t)
    × (find ltb t 8 ≡ thrown out_of_range)
    × (connect ltb 8 3 t ≡ thrown out_of_range)
    × (connect ltb 3 8 t ≡ thrown out_of_range)
find_unexist_example = find_unexist ltb equal_iff calls 8 3 not_8
