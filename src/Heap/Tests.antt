-- ===== src/Heap/Tests.antt =====
-- Runs of the heap of heap.h on numbers, with std::greater, and the examples of its theorems.
use mathlib.Core.List.{Mem, Pairwise}
use quick_cmake.Prelude.{ℕ, ◌≤◌, ◌≡◌, refl, Bool, List, [], ◌∷◌, Perm, ltb}
use quick_cmake.Outcome.{value, thrown, out_of_range, ◌>>=◌, Returns}
use quick_cmake.Heap.{
  found, load, swap, empty, size, top, child, down_loop, adjust_down, up_loop, adjust_up,
  build_heap, empty_heap, heap_of, pop, resize, push, push_all, sort_loop, sort,
}
use quick_cmake.Heap.Sort.{sort_correct}
use quick_cmake.Heap.Up.{pushed_top_greatest}

abbrev greater : ℕ → ℕ → Bool
greater a b = ltb b a

abbrev three_values : List ℕ
three_values = 3 ∷ 1 ∷ 2 ∷ []

sorted_three_values : sort greater 0 three_values ≡ value (1 ∷ 2 ∷ 3 ∷ [])
unfolding sort heap_of build_heap sort_loop empty top pop adjust_down down_loop child swap load
    found
sorted_three_values = refl

-- Pushed one by one, the values come out in neither order.
pushed_three_values :
    (push_all greater 0 (empty_heap 0) (1 ∷ 2 ∷ 3 ∷ []) >>= λ h. sort_loop greater 0 4 h [])
    ≡ value (3 ∷ 1 ∷ 2 ∷ [])
unfolding push_all push resize adjust_up up_loop empty_heap sort_loop empty top pop adjust_down
    down_loop child swap load found
pushed_three_values = refl

top_of_empty : top (empty_heap {A = ℕ} 0) ≡ thrown out_of_range
unfolding top empty_heap
top_of_empty = refl

pop_of_empty : pop greater 0 (empty_heap 0) ≡ value (empty_heap 0)
unfolding pop empty_heap
pop_of_empty = refl

size_of_three : (heap_of greater 0 three_values >>= λ h. value (size h)) ≡ value 3
unfolding heap_of build_heap adjust_down down_loop child swap load found size
size_of_three = refl

sort_correct_example :
    Returns (λ r. Pairwise (λ s t. s ≤ t) r × Perm r three_values) (sort greater 0 three_values)
sort_correct_example = sort_correct (λ n. n) 0 greater (λ a b. refl) three_values

pushed_top_greatest_example :
    Returns
      (λ t. Mem t (1 ∷ 2 ∷ 3 ∷ []) × ((y : ℕ) → Mem y (1 ∷ 2 ∷ 3 ∷ []) → y ≤ t))
      (push_all greater 0 (empty_heap 0) (1 ∷ 2 ∷ 3 ∷ []) >>= top)
pushed_top_greatest_example = pushed_top_greatest (λ n. n) 0 greater (λ a b. refl) 1 (2 ∷ 3 ∷ [])
