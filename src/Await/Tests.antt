-- ===== src/Await/Tests.antt =====
-- Runs of coroutines, and the theorems at a concrete one.
use quick_cmake.Prelude.{ℕ, ◌+◌, ◌≤◌, ◌≡◌, refl, List, [], ◌∷◌, ◌++◌}
use quick_cmake.Outcome.{value}
use quick_cmake.Await.{
  Ended, returned, threw, Body, co_return, throws, changes, co_await, Machine, gives, blocks,
  resume, sync_await, meaning, waiter, beside, steps, step, step_frame, finish, await_resume,
  await_suspend, move_to,
}
use quick_cmake.Await.Sync.{Left, answer, resume_lem, sync_await_lem}

-- A task that writes a line and returns, one that throws, and one that awaits both and catches.
abbrev leaf : Body (List ℕ) ℕ
leaf = changes (λ l. l ++ 1 ∷ []) (co_return 20)

abbrev failing : Body (List ℕ) ℕ
failing = changes (λ l. l ++ 2 ∷ []) (throws 5)

abbrev twice : Ended ℕ → Body (List ℕ) ℕ
twice (returned v) = co_await failing λ r. co_return (v + v)
twice (threw e) = throws e

abbrev chain : Body (List ℕ) ℕ
chain = co_await leaf twice

sync_await-chain : sync_await 40 chain [] ≡ value (gives 40 (1 ∷ 2 ∷ []))
unfolding sync_await resume steps step step_frame finish await_resume await_suspend move_to waiter
    beside
sync_await-chain = refl

sync_await-failing : sync_await 40 failing [] ≡ value (blocks (2 ∷ []))
unfolding sync_await resume steps step step_frame finish await_resume await_suspend move_to waiter
    beside
sync_await-failing = refl

resume_lem_example :
    (n : ℕ) × (m : Machine (List ℕ) ℕ) × ((fuel : ℕ) → n ≤ fuel → resume fuel chain [] ≡ value m)
    × Left (meaning chain []) m
resume_lem_example = resume_lem chain []

sync_await_lem_example :
    (n : ℕ) × ((fuel : ℕ) → n ≤ fuel → sync_await fuel chain [] ≡ value (answer (meaning chain [])))
sync_await_lem_example = sync_await_lem chain []
