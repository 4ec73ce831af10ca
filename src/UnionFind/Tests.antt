-- ===== src/UnionFind/Tests.antt =====
-- Runs of UnionFindSet<int>, and its theorems at concrete sets.
use quick_cmake.Prelude.{
  zero, suc, ◌<◌, some, get_elem?, ℕ, ◌≡◌, refl, ◌↔◌, Bool, true, List, [], ◌∷◌, arith,
}
use quick_cmake.Outcome.{value, undefined, ◌>>=◌}
use quick_cmake.UnionFind.{
  UnionFind, load, find_loop, find, connect, is_connected, normalize, normalize_loop, make,
}
use quick_cmake.UnionFind.Find.{roots, Same}
use quick_cmake.UnionFind.Connect.{IsForest, Root, Connected, connect_correct}
use quick_cmake.UnionFind.Climb.{Climb, top, up}
use quick_cmake.UnionFind.Normalize.{normalize_correct}
use quick_cmake.UnionFind.Linked.{Linked}
use quick_cmake.UnionFind.Links.{make-IsForest, run, run_decides}

abbrev pairs : List (ℕ × ℕ)
pairs = (0, 1) ∷ (2, 3) ∷ (3, 1) ∷ (0, 2) ∷ []

-- 2 becomes the root of 0, 1 and 3, and find has shortened the chain of 1.
run-pairs : run pairs (make 5) ≡ value (record { cnt = 2; parent = 2 ∷ 0 ∷ 2 ∷ 2 ∷ 4 ∷ [] })
unfolding run connect find find_loop load make
run-pairs = refl

normalize-pairs :
    (run pairs (make 5) >>= normalize) ≡ value (record { cnt = 2; parent = 2 ∷ 2 ∷ 2 ∷ 2 ∷ 4 ∷ [] })
unfolding run connect find find_loop load make normalize normalize_loop
normalize-pairs = refl

find-outside : find (make 2) 2 ≡ undefined
unfolding find find_loop load make
find-outside = refl

run_decides_example :
    (t : UnionFind) × (run pairs (make 5) ≡ value t)
    × (t.cnt ≡ roots 0 t.parent)
    × (b : Bool) × (u : UnionFind) × (is_connected 0 3 t ≡ value (b, u))
    × ((b ≡ true) ↔ ∥ Linked pairs 0 3 ∥₁)
run_decides_example = run_decides 5 pairs 0 3 (omega arith) (omega arith) (omega arith)

connect_correct_example :
    (ra : ℕ) × (rb : ℕ) × (t : UnionFind) × (connect 0 1 (make 2) ≡ value t)
    × Root (make 2) 0 ra
    × Root (make 2) 1 rb
    × Connected (make 2) t ra rb
unfolding make
connect_correct_example = connect_correct (make 2) 0 1 (make-IsForest 2) (omega arith) (omega arith)

-- 2 under 1 under 0.
abbrev chain : UnionFind
chain = record { cnt = 1; parent = 0 ∷ 0 ∷ 1 ∷ [] }

chain-rooted : (a : ℕ) → a < 3 → (r : ℕ) × Climb chain.parent 2 a r
chain-rooted zero h = (0, top refl refl)
chain-rooted (suc zero) h = (0, up refl (top refl refl))
chain-rooted (suc (suc zero)) h = (0, up refl (up refl (top refl refl)))
chain-rooted (suc (suc (suc a))) h = absurd (omega arith)

chain-IsForest : IsForest chain
unfolding roots
chain-IsForest = record { rooted = chain-rooted; count = refl }

normalize_correct_example :
    (t : UnionFind) × (normalize chain ≡ value t)
    × (get_elem? t.parent 2 ≡ some 0)
    × IsForest t
    × Same chain.parent t.parent
    × (t.cnt ≡ chain.cnt)
normalize_correct_example =
    normalize_correct chain 2 0 chain-IsForest (2, up refl (up refl (top refl refl)))
