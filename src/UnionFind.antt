-- ===== src/UnionFind.antt =====
-- include/skutils/containers/unionfind_set.h, the specialisation UnionFindSet<int>.
-- Elements and counts are ints that are not negative; an index out of range is undefined.
pub mod Climb
pub mod Find
pub mod Connect
pub mod Linked
pub mod Links
pub mod Normalize
mod Tests
use quick_cmake.Prelude.{
  ℕ, zero, suc, ◌+◌, ◌-◌, Bool, true, false, Option, none, some, List, [], ◌∷◌, length, get_elem?,
  set, ◌==◌, if◌then◌else◌,
}
use quick_cmake.Outcome.{Outcome, value, undefined, out_of_fuel, ◌>>=◌}

pub record UnionFind : Type 0 where
  pub cnt : ℕ
  pub parent : List ℕ

-- `parent[a]`
pub load : List ℕ → ℕ → Outcome ℕ
load parent a = elim (get_elem? parent a) [ none ↦ undefined | some b ↦ value b ]

-- find with path compression, with the depth of the recursion bounded by the fuel.
pub find_loop : ℕ → List ℕ → ℕ → Outcome (ℕ × List ℕ)
find_loop zero parent a = out_of_fuel
find_loop (suc fuel) parent a = load parent a >>= λ b.
    let deeper = find_loop fuel parent b >>= λ r. value (r.0, set r.1 a r.0) in
    if b == a then value (a, parent) else deeper

-- No chain of parents is longer than the number of elements.
pub find : UnionFind → ℕ → Outcome (ℕ × UnionFind)
unfolding find_loop
find s a = find_loop (length s.parent) s.parent a >>= λ r. value (r.0, record s { parent = r.1 })

pub connect : ℕ → ℕ → UnionFind → Outcome UnionFind
unfolding find
connect a b s = do
  (ra, s1) ← find s a
  (rb, s2) ← find s1 b
  if ra == rb
      then value s2
      else value (record s2 { parent = set s2.parent rb ra; cnt = s2.cnt - 1 })

pub is_connected : ℕ → ℕ → UnionFind → Outcome (Bool × UnionFind)
unfolding find
is_connected a b s = do (ra, s1) ← find s a; (rb, s2) ← find s1 b; value (ra == rb, s2)

-- The loop of normalize from `i` on.
pub normalize_loop : ℕ → ℕ → UnionFind → Outcome UnionFind
unfolding find load
normalize_loop zero i s = value s
normalize_loop (suc n) i s = load s.parent i >>= λ b.
    let found = find s b >>= λ r. value (record r.1 { parent = set r.1.parent i r.0 }) in
    (if b == i then value s else found) >>= λ t. normalize_loop n (i + 1) t

pub normalize : UnionFind → Outcome UnionFind
unfolding normalize_loop
normalize s = normalize_loop (length s.parent) 0 s

-- The loop of the constructor: `parent[i] = i`.
abbrev pub range_from : ℕ → ℕ → List ℕ
range_from zero i = []
range_from (suc n) i = i ∷ range_from n (i + 1)

pub make : ℕ → UnionFind
make n = record { cnt = n; parent = range_from n 0 }
