-- ===== src/Generator/Tests.antt =====
-- A generator that counts down and one that throws, and the example of the theorem.
use quick_cmake.Prelude.{ℕ, zero, suc, ◌≡◌, refl, [], ◌∷◌, some}
use quick_cmake.Outcome.{value}
use quick_cmake.Generator.{
  Run, yields, returns, throws, done, Frame, finished, raised, make, suspend_behind, resume, tested,
  begin, increment, visit_from, range_for,
}
use quick_cmake.Generator.Visits.{returning, yielding, range_for_visits}

abbrev count_down : ℕ → Run ℕ ℕ
count_down zero = returns
count_down (suc n) = yields n n

abbrev throw_at_zero : ℕ → Run ℕ ℕ
throw_at_zero zero = throws 5
throw_at_zero (suc n) = yields n n

thrown_behind_two :
    range_for throw_at_zero 2 (make throw_at_zero 2 9)
    ≡ value (1 ∷ 0 ∷ [], raised 5, record { place = done; current_value = 0; exception = some 5 })
unfolding range_for begin increment make resume suspend_behind tested visit_from
thrown_behind_two = refl

range_for_visits_example :
    (g : Frame ℕ ℕ) × (range_for count_down 2 (make count_down 2 9)
      ≡ value (1 ∷ 0 ∷ [], finished, g))
    × (g.place ≡ done)
range_for_visits_example =
    range_for_visits count_down 2 (1 ∷ 0 ∷ []) finished 9
      (yielding refl (yielding refl (returning refl)))
