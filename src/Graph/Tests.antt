-- ===== src/Graph/Tests.antt =====
-- Runs of Graph and of the set built from it, and the theorems at concrete graphs.
use quick_cmake.Prelude.{
  ℕ, zero, suc, get_or, ◌<◌, ◌≡◌, refl, ◌↔◌, Bool, true, false, [], ◌∷◌, length, ℤ, pos, negsuc,
  arith, replicate,
}
use quick_cmake.Outcome.{value, thrown, undefined, out_of_range}
use quick_cmake.UnionFind.{UnionFind, is_connected}
use quick_cmake.UnionFind.Find.{roots}
use quick_cmake.Graph.{Graph, Matrix, of_nodes, of_matrix, add_edge, sets_of, dummy_value}
use quick_cmake.Graph.Edges.{IsSquare}
use quick_cmake.Graph.Shape.{IsGraph, of_matrix_correct, of_nodes-IsGraph}
use quick_cmake.Graph.Sets.{Joined, sets_of_decides}

abbrev three : Graph ℤ
three = record {
  nodes = pos 5 ∷ pos 6 ∷ pos 7 ∷ [];
  edges = replicate 3 (replicate 3 dummy_value);
  is_directed = false;
  node_num = 3;
}

three-IsGraph : IsGraph three
unfolding of_nodes
three-IsGraph = (of_nodes-IsGraph three.nodes false).0

abbrev weights : Matrix
weights =
    (pos 0 ∷ pos 9 ∷ pos 9 ∷ [])
    ∷ (pos 4 ∷ pos 0 ∷ pos 9 ∷ [])
    ∷ (pos 0 ∷ negsuc 0 ∷ pos 0 ∷ [])
    ∷ []

weights-row : (i : ℕ) → i < 3 → length (get_or weights i []) ≡ 3
weights-row zero h = refl
weights-row (suc zero) h = refl
weights-row (suc (suc zero)) h = refl
weights-row (suc (suc (suc i))) h = absurd (omega arith)

weights-IsSquare : IsSquare 3 weights
weights-IsSquare = record { rows = refl; row = weights-row }

add_edge-backward : add_edge (negsuc 0) (pos 1) (pos 1) three ≡ thrown out_of_range
unfolding add_edge
add_edge-backward = refl

add_edge-negative : add_edge (pos 1) (negsuc 0) (pos 1) three ≡ undefined
unfolding add_edge
add_edge-negative = refl

abbrev weighted : Graph ℤ
weighted = of_matrix three.nodes weights false

weighted-IsGraph : IsGraph weighted
weighted-IsGraph = (of_matrix_correct three.nodes weights false weights-IsSquare).0

sets_of_decides_example :
    (t : UnionFind) × (sets_of weighted ≡ value t)
    × (t.cnt ≡ roots 0 t.parent)
    × (b : Bool) × (u : UnionFind) × (is_connected 0 2 t ≡ value (b, u))
    × ((b ≡ true) ↔ ∥ Joined weighted 0 2 ∥₁)
unfolding of_matrix
sets_of_decides_example = sets_of_decides weighted 0 2 weighted-IsGraph (omega arith) (omega arith)
