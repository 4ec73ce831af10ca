-- ===== src/TopK/Both.antt =====
-- topbottomk_queue: the largest and the smallest values of the same pushes.
use quick_cmake.Prelude.{ℕ, ◌<◌, ◌≡◌, refl, sym, ◌∙◌, List, [], ◌∷◌}
use quick_cmake.Outcome.{Outcome, value, thrown, undefined, blocked, out_of_fuel, ◌>>=◌}
use quick_cmake.TopK.{Less, reversed, TopK, TopBottomK, push, push_both, pop_top, pop_bottom}
use quick_cmake.TopK.Order.{IsOrder, reversed-eq}
use quick_cmake.TopK.Largest.{IsTop, push_all, push_all-pop}

reversed-IsOrder : {A : Type 0} (less : Less A) → IsOrder less → IsOrder (reversed less)
reversed-IsOrder less o = record {
  asym = λ a b h. reversed-eq less o b a ∙ o.asym b a (sym (reversed-eq less o a b) ∙ h);
  through = λ a b c h k.
      reversed-eq less o a c
      ∙ o.through c b a (sym (reversed-eq less o b c) ∙ k) (sym (reversed-eq less o a b) ∙ h);
}

returned :
    {A B : Type 0} (o : Outcome A) (f : A → Outcome B) (b : B)
    → (o >>= f) ≡ value b
    → (a : A) × (o ≡ value a) × (f a ≡ value b)
returned (value a) f b h = (a, refl, h)
returned (thrown e) f b h = cc
returned undefined f b h = cc
returned blocked f b h = cc
returned out_of_fuel f b h = cc

unfoldable pub push_both_all :
    {A : Type 0} → Less A → List A → TopBottomK A → Outcome (TopBottomK A)
push_both_all less [] q = value q
push_both_all less (x ∷ xs) q = push_both less x q >>= push_both_all less xs

push_both_all_lem :
    {A : Type 0} (less : Less A) (xs : List A) (m n m' n' : TopK A)
    → push_all less xs m ≡ value m'
    → push_all (reversed less) xs n ≡ value n'
    → push_both_all less xs (record { max_queue = m; min_queue = n })
      ≡ value (record { max_queue = m'; min_queue = n' })
unfolding push_all push_both push_both_all
push_both_all_lem less [] m n m' n' h k = cc
push_both_all_lem less (x ∷ xs) m n m' n' h k =
    let (a, first, rest) = returned (push less x m) (push_all less xs) m' h in
    let (b, first', rest') =
      returned (push (reversed less) x n) (push_all (reversed less) xs) n' k in
    rw (first, first') (push_both_all_lem less xs a b m' n' rest rest')

-- With room for at least one value, pushing any values returns; pop_top then returns the largest of
-- them, from the largest on, and pop_bottom the smallest, from the smallest on, as many as there is
-- room for.
pub push_both_all-pops :
    {A : Type 0} (less : Less A) (o : IsOrder less) (k : ℕ) (xs : List A)
    → 0 < k
    → (q : TopBottomK A) × (push_both_all less xs (record {
      max_queue = record { cap = k; pq = [] };
      min_queue = record { cap = k; pq = [] };
    })
        ≡ value q)
      × IsTop less k xs (pop_top less q).0
      × IsTop (reversed less) k xs (pop_bottom less q).0
unfolding pop_top pop_bottom
push_both_all-pops less o k xs pos =
    let (m, ends, top) = push_all-pop less o k xs pos in
    let (n, ends', bottom) = push_all-pop (reversed less) (reversed-IsOrder less o) k xs pos in
    (
      record { max_queue = m; min_queue = n },
      push_both_all_lem less xs _ _ m n ends ends',
      top,
      bottom,
    )
