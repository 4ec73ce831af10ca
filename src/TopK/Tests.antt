-- ===== src/TopK/Tests.antt =====
-- Runs of topk_queue, and its theorems at concrete values.
use quick_cmake.Prelude.{ℕ, ◌≡◌, refl, List, [], ◌∷◌, ltb, arith}
use quick_cmake.Outcome.{value, undefined, ◌>>=◌}
use quick_cmake.TopK.{reversed, pq_push, TopBottomK, push, pop, pop_top, pop_bottom}
use quick_cmake.TopK.Order.{IsOrder}
use quick_cmake.TopK.Largest.{IsTop, push_all}
use quick_cmake.TopK.Both.{push_both_all, push_both_all-pops}

ltb-IsOrder : IsOrder ltb
ltb-IsOrder = record { asym = λ a b h. ground arith; through = λ a b c h k. ground arith }

abbrev values : List ℕ
values = 4 ∷ 9 ∷ 1 ∷ 7 ∷ 9 ∷ []

values-top :
    (push_all ltb values (record { cap = 3; pq = [] }) >>= λ q. value (pop ltb q).0)
    ≡ value (9 ∷ 9 ∷ 7 ∷ [])
unfolding push_all push pop pq_push reversed
values-top = refl

no_room : push ltb 5 (record { cap = 0; pq = [] }) ≡ undefined
unfolding push
no_room = refl

push_both_all-pops_example :
    (q : TopBottomK ℕ) × (push_both_all ltb values (record {
      max_queue = record { cap = 3; pq = [] };
      min_queue = record { cap = 3; pq = [] };
    })
      ≡ value q)
    × IsTop ltb 3 values (pop_top ltb q).0
    × IsTop (reversed ltb) 3 values (pop_bottom ltb q).0
push_both_all-pops_example = push_both_all-pops ltb ltb-IsOrder 3 values (omega arith)
