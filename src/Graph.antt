-- ===== src/Graph.antt =====
-- include/skutils/containers/graph.h: an adjacency matrix of int weights, and the union-find set
-- that the graph constructor of unionfind_set.h builds from it.
pub mod Edges
pub mod Shape
pub mod Sets
mod Tests
use quick_cmake.Prelude.{
  ℕ, zero, suc, ◌+◌, ◌-◌, Bool, true, false, not, ◌||◌, Option, none, some, List, [], ◌∷◌, ◌++◌,
  map, length, get_or, set, replicate, leb, ℤ, pos, negsuc, at_least, is_zero, if◌then◌else◌,
}
use quick_cmake.Outcome.{Outcome, value, thrown, undefined, out_of_range, ◌>>=◌}
use quick_cmake.UnionFind.{UnionFind, connect, make}

abbrev pub dummy_value : ℤ
dummy_value = pos 0

abbrev pub Matrix : Type 0
Matrix = List (List ℤ)

pub record Graph (A : Type 0) : Type 0 where
  pub nodes : List A
  pub edges : Matrix
  pub is_directed : Bool
  pub node_num : ℕ

-- `edges[i][j]`, inside the matrix.
abbrev pub cell : Matrix → ℕ → ℕ → ℤ
cell m i j = get_or (get_or m i []) j dummy_value

-- `edges[i][j] = v`
abbrev pub write : Matrix → ℕ → ℕ → ℤ → Matrix
write m i j v = set m i (set (get_or m i []) j v)

-- The inner loop of the constructor from a matrix: `edges[i][j] = edges[j][i]`, j rising.
pub mirror_row : ℕ → ℕ → ℕ → Matrix → Matrix
mirror_row zero i j m = m
mirror_row (suc n) i j m = mirror_row n i (j + 1) (write m i j (cell m j i))

-- The outer loop from row `i` on, with `rounds` rows left.
pub mirror : ℕ → ℕ → Matrix → Matrix
unfolding mirror_row
mirror zero i m = m
mirror (suc rounds) i m = mirror rounds (i + 1) (mirror_row rounds i (i + 1) m)

module _ {A : Type 0} where
  pub empty_graph : Bool → Graph A
  empty_graph directed = record { nodes = []; edges = []; is_directed = directed; node_num = 0 }

  pub of_nodes : List A → Bool → Graph A
  of_nodes v directed = record {
    nodes = v;
    edges = replicate (length v) (replicate (length v) dummy_value);
    is_directed = directed;
    node_num = length v;
  }

  pub of_matrix : List A → Matrix → Bool → Graph A
  unfolding mirror
  of_matrix v e directed = record {
    nodes = v;
    edges = if directed then e else mirror (length v) 0 e;
    is_directed = directed;
    node_num = length v;
  }

  -- A new row and, at the end of each other row, a new column.
  pub add_node : A → Graph A → Graph A
  add_node val g =
      let n = g.node_num + 1 in
      record g {
        nodes = g.nodes ++ (val ∷ []);
        node_num = n;
        edges = map (λ r. r ++ (dummy_value ∷ [])) g.edges ++ (replicate n dummy_value ∷ []);
      }

  -- The writes behind the tests: `edges[from][to]`, and the other direction if undirected.
  abbrev pub put_edge : ℕ → ℕ → ℤ → Graph A → Graph A
  put_edge from to val g =
      let there = write g.edges from to val in
      record g { edges = if g.is_directed then there else write there to from val }

  -- A negative `from` is huge as a size_t, so the second test throws; a negative `to` is an index
  -- out of range.
  pub add_edge : ℤ → ℤ → ℤ → Graph A → Outcome (Graph A)
  add_edge from to val g =
      if at_least from g.node_num || at_least to g.node_num
      then thrown out_of_range
      else (elim from [
        | negsuc _ ↦ thrown out_of_range
        | pos f ↦
            if leb (length g.edges) f
            then thrown out_of_range
            else (elim to [ negsuc _ ↦ undefined | pos t ↦ value (put_edge f t val g) ])
      ])

-- The loops of the constructor UnionFindSet(Graph<int>): a row up to `end`.
pub join_row : Matrix → ℕ → ℕ → ℕ → UnionFind → Outcome UnionFind
join_row m zero i j s = value s
join_row m (suc n) i j s =
    (if is_zero (cell m i j) then value s else connect i j s) >>= λ t. join_row m n i (j + 1) t

pub join_rows : Graph ℤ → ℕ → ℕ → UnionFind → Outcome UnionFind
unfolding join_row
join_rows g zero i s = value s
join_rows g (suc rounds) i s =
    join_row g.edges (if g.is_directed then g.node_num else i) i 0 s >>= λ t.
    join_rows g rounds (i + 1) t

pub sets_of : Graph ℤ → Outcome UnionFind
unfolding join_rows
sets_of g = join_rows g g.node_num 0 (make g.node_num)
