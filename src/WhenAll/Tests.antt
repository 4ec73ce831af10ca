-- ===== src/WhenAll/Tests.antt =====
-- Runs of when_all on two tasks, and the examples of its theorems.
use quick_cmake.Prelude.{◌≢◌, ◌⊎◌, ℕ, ◌≤◌, ◌≡◌, refl, List, [], ◌∷◌, arith}
use quick_cmake.WhenAll.{
  passed, End, returned, suspended, State, start, stage_of, launch, await_ready, await_suspend,
  store, count_down, wake, launches, tests, suspends, stores, counts, wakes, Reachable, begins,
  steps, await_resume,
}
use quick_cmake.WhenAll.Results.{Answers, passed-Answers}

abbrev two_tasks : List (End ℕ)
two_tasks = returned 7 ∷ returned 8 ∷ []

-- Both tasks end before the caller tests the counter.
abbrev quick_end : State ℕ
quick_end = await_ready (
    count_down 1 (
      store 1 (returned 8)
        (launch 1 (count_down 0 (store 0 (returned 7) (launch 0 (start 0 two_tasks)))))))

quick_end-Reachable : Reachable two_tasks 0 quick_end
unfolding start stage_of launch await_ready store count_down
quick_end-Reachable =
    steps
      (steps
        (steps
          (steps
            (steps
              (steps (steps begins (launches 0 refl (omega arith))) (stores 0 (omega arith) refl))
              (counts 0 (omega arith) refl))
            (launches 1 refl (omega arith)))
          (stores 1 (omega arith) refl))
        (counts 1 (omega arith) refl))
      (tests refl)

-- The last task ends between the test of the caller and its await_suspend: its wrapper finds no
-- continuation, and no step is left.
abbrev lost_wake_up : State ℕ
lost_wake_up = await_suspend (
    wake 1 (
      count_down 1 (
        store 1 (returned 8) (
          await_ready
            (count_down 0 (store 0 (returned 7) (launch 1 (launch 0 (start 0 two_tasks)))))))))

lost_wake_up-Reachable : Reachable two_tasks 0 lost_wake_up
unfolding start stage_of launch await_ready await_suspend store count_down wake
lost_wake_up-Reachable =
    steps
      (steps
        (steps
          (steps
            (steps
              (steps
                (steps
                  (steps (steps begins (launches 0 refl (omega arith)))
                    (launches 1 refl (omega arith)))
                  (stores 0 (omega arith) refl))
                (counts 0 (omega arith) refl))
              (tests refl))
            (stores 1 (omega arith) refl))
          (counts 1 (omega arith) refl))
        (wakes 1 (omega arith) refl))
      (suspends refl)

lost_wake_up-suspended : lost_wake_up.caller ≡ suspended
unfolding start launch await_ready await_suspend store count_down wake
lost_wake_up-suspended = refl

lost_wake_up-spawned : lost_wake_up.spawned ≡ 0
unfolding start launch await_ready await_suspend store count_down wake
lost_wake_up-spawned = refl

passed-Answers_example :
    (quick_end.spawned ≤ 1)
    × ((quick_end.caller ≢ passed)
        ⊎ Answers two_tasks 0 (await_resume quick_end quick_end.exception))
unfolding start launch await_ready store count_down
passed-Answers_example = passed-Answers two_tasks 0 quick_end quick_end-Reachable
