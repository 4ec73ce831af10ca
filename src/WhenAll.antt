-- ===== src/WhenAll.antt =====
-- include/skutils/coroutine/task.h: when_all, with its wrappers, its shared state and its awaiter,
-- as a step relation. The wrappers run on any threads, so that their atomic steps interleave with
-- each other and with those of the caller, the coroutine of when_all.
pub mod Accounted
pub mod Results
mod Tests
use quick_cmake.Prelude.{
  ℕ, zero, suc, ◌+◌, ◌-◌, ◌<◌, ◌≡◌, Bool, true, false, Option, none, some, List, [], ◌∷◌, length,
  get_or, set, replicate, if◌then◌else◌, ◌==◌,
}

-- How `co_await task` ends for one task: with a value, or with an exception.
pub data End (A : Type 0) : Type 0 where
  returned : A → End A
  threw : ℕ → End A

-- Where a wrapper stands: before its first resume, at its co_await, behind the try block, behind a
-- fetch_sub that returned 1, and at its end.
pub data Stage : Type 0 where
  not_started awaiting stored last finished : Stage

-- Where the caller stands: before the resume of wrapper `k`, before await_suspend, suspended, and
-- behind the co_await.
pub data Caller : Type 0 where
  launching : ℕ → Caller
  suspending suspended passed : Caller

-- WhenAllState, the results, and where the coroutines stand; `spawned` counts the threads that were
-- created to resume the caller.
pub record State (A : Type 0) : Type 0 where
  pub results : List A
  pub exception : Option ℕ
  pub remaining : ℕ
  pub continuation : Bool
  pub stages : List Stage
  pub caller : Caller
  pub spawned : ℕ

-- when_all up to its first loop's end.
unfoldable pub start : {A : Type 0} → A → List (End A) → State A
start blank tasks = record {
  results = replicate (length tasks) blank;
  exception = none;
  remaining = length tasks;
  continuation = false;
  stages = replicate (length tasks) not_started;
  caller = launching 0;
  spawned = 0;
}

module _ {A : Type 0} where
  unfoldable pub stage_of : State A → ℕ → Stage
  stage_of s i = get_or s.stages i finished

  -- w.handle().resume() of wrapper `k`, which starts it.
  unfoldable pub launch : ℕ → State A → State A
  launch k s = record s { stages = set s.stages k awaiting; caller = launching (k + 1) }

  -- WhenAllAwaiter::await_ready
  unfoldable pub await_ready : State A → State A
  await_ready s = record s { caller = if s.remaining == 0 then passed else suspending }

  -- WhenAllAwaiter::await_suspend
  unfoldable pub await_suspend : State A → State A
  await_suspend s = record s { caller = suspended; continuation = true }

  -- The try block of wrapper `i`; its write of the exception, which is not synchronised, is taken
  -- as atomic.
  unfoldable pub store : ℕ → End A → State A → State A
  store i (returned a) s = record s { results = set s.results i a; stages = set s.stages i stored }
  store i (threw e) s = record s { exception = some e; stages = set s.stages i stored }

  -- fetch_sub and the test of what it returned.
  unfoldable pub count_down : ℕ → State A → State A
  count_down i s = record s {
    remaining = s.remaining - 1;
    stages = set s.stages i (if s.remaining == 1 then last else finished);
  }

  -- The last wrapper: a new thread resumes the continuation, if there is one.
  unfoldable pub wake : ℕ → State A → State A
  wake i s = record s {
    spawned = if s.continuation then s.spawned + 1 else s.spawned;
    stages = set s.stages i finished;
  }

  -- cont.resume() on the new thread.
  unfoldable pub resume : State A → State A
  resume s = record s { caller = passed }

-- The atomic steps; `tasks` says how each task ends.
pub data Step {A : Type 0} (tasks : List (End A)) (blank : End A) (s : State A)
    : State A → Type 0 where
  launches : (k : ℕ) → s.caller ≡ launching k → k < length tasks → Step tasks blank s (launch k s)
  tests : s.caller ≡ launching (length tasks) → Step tasks blank s (await_ready s)
  suspends : s.caller ≡ suspending → Step tasks blank s (await_suspend s)
  stores :
      (i : ℕ)
      → i < length tasks
      → stage_of s i ≡ awaiting
      → Step tasks blank s (store i (get_or tasks i blank) s)
  counts : (i : ℕ) → i < length tasks → stage_of s i ≡ stored → Step tasks blank s (count_down i s)
  wakes : (i : ℕ) → i < length tasks → stage_of s i ≡ last → Step tasks blank s (wake i s)
  resumes : s.caller ≡ suspended → 0 < s.spawned → Step tasks blank s (resume s)

pub data Reachable {A : Type 0} (tasks : List (End A)) (blank : A) : State A → Type 0 where
  begins : Reachable tasks blank (start blank tasks)
  steps :
      {s t : State A}
      → Reachable tasks blank s
      → Step tasks (returned blank) s t
      → Reachable tasks blank t

-- WhenAllAwaiter::await_resume and the co_return: the exception, or the results.
pub data Outcome (A : Type 0) : Type 0 where
  rethrown : ℕ → Outcome A
  values : List A → Outcome A

unfoldable pub await_resume : {A : Type 0} → State A → Option ℕ → Outcome A
await_resume s none = values s.results
await_resume s (some e) = rethrown e
