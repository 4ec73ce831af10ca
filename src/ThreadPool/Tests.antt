-- ===== src/ThreadPool/Tests.antt =====
-- Runs of the pool, and its theorems at concrete pools.
use mathlib.Core.Option.{some-injective}
use quick_cmake.Prelude.{ℕ, ◌≡◌, refl, subst, true, false, none, some, List, [], ◌∷◌}
use quick_cmake.ThreadPool.{
  at_lock, waiting, at_unlock, Pool, Action, work, push, notify_one, store_false, notify_all, start,
  act, acts, do_work, pop, notified, Reachable, begin, step,
}
use quick_cmake.ThreadPool.Actions.{then_do-inv}
use quick_cmake.ThreadPool.Accounted.{Accounted, Reachable-Accounted}
use quick_cmake.ThreadPool.Progress.{can_work, some_worker_moves}

-- Actions from a reachable pool reach their result.
reach : (n : ℕ) (l : List Action) (p q : Pool) → Reachable n p → acts l p ≡ some q → Reachable n q
unfolding acts
reach n [] p q r e = subst (Reachable n) (some-injective p q e) r
reach n (a ∷ l) p q r e =
    let (m, first, rest) = then_do-inv (act a p) (acts l) q e in reach n l m q (step a r first) rest

-- A worker looks at the queue, a task comes and its notification meets nobody, and the worker goes
-- to wait.
abbrev late : List Action
late = work 0 ∷ work 0 ∷ work 0 ∷ push 7 ∷ notify_one none ∷ work 0 ∷ []

abbrev asleep : Pool
asleep = record (start 1) { queue = 7 ∷ []; workers = waiting ∷ []; pushed = 7 ∷ [] }

late-asleep : acts late (start 1) ≡ some asleep
unfolding acts act start do_work
late-asleep = refl

-- The task stays in the queue while the only worker waits and no notification is to come.
asleep-stuck : can_work 0 asleep ≡ false
unfolding can_work act start do_work
asleep-stuck = refl

-- The same at the shutdown: the destructor then waits in join for a worker that waits for ever.
abbrev closed : Pool
closed = record (start 1) { workers = waiting ∷ []; running = false; closing = notified }

close-closed :
    acts (work 0 ∷ work 0 ∷ work 0 ∷ store_false ∷ notify_all ∷ work 0 ∷ []) (start 1) ≡ some closed
unfolding acts act start do_work
close-closed = refl

-- One worker takes a task while another has just tested.
abbrev busy : Pool
busy = record (start 2) {
  holder = some 0;
  workers = at_unlock (some 3) ∷ at_lock ∷ [];
  unnotified = 1;
  pushed = 3 ∷ [];
  popped = 3 ∷ [];
}

busy-run : acts (push 3 ∷ work 0 ∷ work 0 ∷ work 0 ∷ work 1 ∷ work 0 ∷ []) (start 2) ≡ some busy
unfolding acts act start do_work pop
busy-run = refl

busy-Reachable : Reachable 2 busy
busy-Reachable = reach 2 _ (start 2) busy (begin refl) busy-run

Reachable-Accounted_example : Accounted busy
Reachable-Accounted_example = Reachable-Accounted 2 busy busy-Reachable

some_worker_moves_example : (j : ℕ) × (can_work j busy ≡ true)
some_worker_moves_example = some_worker_moves 2 busy 1 at_lock busy-Reachable refl refl
