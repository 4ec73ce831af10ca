-- ===== src/UnionFindMap.antt =====
-- include/skutils/containers/unionfind_set.h, the template UnionFindSet<T, Less>, and its
-- constructor from a graph. The map of parents is a std::map: a list of entries in key order, which
-- Less is taken to be fit for.
pub mod Entries
pub mod Climbs
pub mod Joined
pub mod Linking
pub mod Runs
mod Tests
use quick_cmake.Prelude.{
  ℕ, zero, suc, ◌+◌, ◌-◌, Bool, not, ◌&&◌, Option, none, some, List, [], ◌∷◌, length, get_elem?,
  is_zero, if◌then◌else◌,
}
use quick_cmake.Outcome.{Outcome, value, thrown, undefined, out_of_fuel, out_of_range, ◌>>=◌}
use quick_cmake.Graph.{Graph, cell}

pub record Sets (A : Type 0) : Type 0 where
  pub cnt : ℕ
  pub parent : List (A × A)

pub empty_sets : {A : Type 0} → Sets A
empty_sets = record { cnt = 0; parent = [] }

module _ {A : Type 0} (lesser : A → A → Bool) where
  pub equal : A → A → Bool
  equal a b = not (lesser a b) && not (lesser b a)

  -- `parent.find(a)`
  pub lookup : A → List (A × A) → Option A
  unfolding equal
  lookup a [] = none
  lookup a ((k, v) ∷ m) = if equal k a then some v else lookup a m

  pub insert : A → A → List (A × A) → List (A × A)
  insert a b [] = (a, b) ∷ []
  insert a b ((k, v) ∷ m) = if lesser a k then (a, b) ∷ (k, v) ∷ m else (k, v) ∷ insert a b m

  -- `parent[a] = b`, for a key that is there.
  pub write : A → A → List (A × A) → List (A × A)
  unfolding equal
  write a b [] = []
  write a b ((k, v) ∷ m) = if equal k a then (k, b) ∷ m else (k, v) ∷ write a b m

  -- `parent.emplace(a, a)` with the counter behind it.
  pub add : A → Sets A → Sets A
  unfolding lookup insert
  add a s = elim (lookup a s.parent) [
    | some _ ↦ s
    | none ↦ record { cnt = s.cnt + 1; parent = insert a a s.parent }
  ]

  -- find, with the depth of the recursion bounded by the fuel.
  pub find_loop : ℕ → List (A × A) → A → Outcome A
  unfolding lookup
  find_loop zero m a = out_of_fuel
  find_loop (suc fuel) m a = elim (lookup a m) [
    | none ↦ thrown out_of_range
    | some p ↦ let deeper = find_loop fuel m p in if equal p a then value a else deeper
  ]

  -- No chain of parents is longer than the number of entries.
  pub find : Sets A → A → Outcome A
  unfolding find_loop
  find s a = find_loop (suc (length s.parent)) s.parent a

  pub connect : A → A → Sets A → Outcome (Sets A)
  unfolding find write
  connect a b s = do
    ra ← find s a
    rb ← find s b
    if equal ra rb
        then value s
        else value (record { cnt = s.cnt - 1; parent = write ra rb s.parent })

  -- The add of two values.
  pub add_both : A → A → Sets A → Outcome (Sets A)
  unfolding add connect
  add_both a b s = connect a b (add b (add a s))

  -- The constructor's first loop, which leaves `cnt` alone.
  emplace_all : List A → List (A × A) → List (A × A)
  unfolding lookup insert
  emplace_all [] m = m
  emplace_all (a ∷ nodes) m =
      emplace_all nodes (elim (lookup a m) [ some _ ↦ m | none ↦ insert a a m ])

  connect_nodes : List A → ℕ → ℕ → Sets A → Outcome (Sets A)
  unfolding connect
  connect_nodes nodes i j s = elim (get_elem? nodes i) [
    | none ↦ undefined
    | some a ↦ elim (get_elem? nodes j) [ none ↦ undefined | some b ↦ connect a b s ]
  ]

  -- A row of the constructor's second loop, with `n` columns left from `j` on.
  connect_row : Graph A → ℕ → ℕ → ℕ → Sets A → Outcome (Sets A)
  unfolding connect_nodes
  connect_row g zero i j s = value s
  connect_row g (suc n) i j s =
      (if is_zero (cell g.edges i j) then value s else connect_nodes g.nodes i j s) >>= λ t.
      connect_row g n i (j + 1) t

  connect_rows : Graph A → ℕ → ℕ → Sets A → Outcome (Sets A)
  unfolding connect_row
  connect_rows g zero i s = value s
  connect_rows g (suc rounds) i s =
      connect_row g (if g.is_directed then g.node_num else i) i 0 s >>= λ t.
      connect_rows g rounds (i + 1) t

  pub sets_of_graph : Graph A → Outcome (Sets A)
  unfolding emplace_all connect_rows
  sets_of_graph g =
      connect_rows g g.node_num 0 (record { cnt = g.node_num; parent = emplace_all g.nodes [] })
