-- ===== src/Await.antt =====
-- co_await of Task in include/skutils/coroutine/task.h, and include/skutils/coroutine/sync_await.h:
-- the coroutines of one thread, with their frames, promises and continuations.
pub mod Steps
pub mod Sync
mod Tests
use quick_cmake.Prelude.{ℕ, zero, suc, ◌+◌, Option, none, some, ◌==◌, if◌then◌else◌}
use quick_cmake.Outcome.{Outcome, value, undefined, out_of_fuel, ◌>>=◌}

-- What a promise holds at the end: value_, or exception_ by a number that stands for it.
pub data Ended (V : Type 0) : Type 0 where
  returned : V → Ended V
  threw : ℕ → Ended V

-- The body of a coroutine, from a point on: it changes or reads what all bodies share, awaits the
-- task of another body, of which it gets the value or the exception, and ends.
pub data Body (S V : Type 0) : Type 0 where
  co_return : V → Body S V
  throws : ℕ → Body S V
  changes : (S → S) → Body S V → Body S V
  reads : (S → Body S V) → Body S V
  co_await : Body S V → (Ended V → Body S V) → Body S V

-- Where a coroutine is suspended or runs: in its body, in a co_await of the task with the handle,
-- or at its final suspension.
pub data Point (S V : Type 0) : Type 0 where
  within : Body S V → Point S V
  awaits : ℕ → (Ended V → Body S V) → Point S V
  at_end : Point S V

-- A frame, with what its promise holds: value_ or exception_, and continuation_.
pub record Frame (S V : Type 0) : Type 0 where
  pub point : Point S V
  pub ended : Option (Ended V)
  pub continuation : Option ℕ

-- The frames at their handles, `none` where there is none or it has been destroyed; the handle of
-- the next one; the coroutine that runs, if control has not returned to the resumer; and what the
-- bodies share.
pub record Machine (S V : Type 0) : Type 0 where
  pub frames : ℕ → Option (Frame S V)
  pub made : ℕ
  pub running : Option ℕ
  pub shared : S

module _ {S V : Type 0} where
  abbrev pub write : (ℕ → Option (Frame S V)) → ℕ → Option (Frame S V) → ℕ → Option (Frame S V)
  write f h c j = if h == j then c else f j

  -- The frame of a new Task, at its initial suspension.
  abbrev pub new_frame : Body S V → Option ℕ → Frame S V
  new_frame b c = record { point = within b; ended = none; continuation = c }

  -- return_value or unhandled_exception, and FinalAwaiter::await_suspend.
  unfoldable pub finish : ℕ → Frame S V → Ended V → Machine S V → Machine S V
  finish h f r m = record m {
    frames = write m.frames h (some (record f { point = at_end; ended = some r }));
    running = f.continuation;
  }

  -- Task::await_resume, and the destruction of the task: its frame's result.
  abbrev pub result : Option (Frame S V) → Outcome (Ended V)
  result none = undefined
  result (some f) = elim f.ended [ none ↦ undefined | some r ↦ value r ]

  unfoldable pub await_resume : ℕ → Machine S V → Outcome (Ended V × Machine S V)
  await_resume child m =
      result (m.frames child) >>= λ r. value (r, record m { frames = write m.frames child none })

  -- co_await of a new Task: Task::await_suspend stores the caller and resumes the task.
  unfoldable pub await_suspend :
      ℕ → Frame S V → Body S V → (Ended V → Body S V) → Machine S V → Machine S V
  await_suspend h f t k m = record m {
    frames =
        write (write m.frames h (some (record f { point = awaits m.made k }))) m.made
          (some (new_frame t (some h)));
    made = m.made + 1;
    running = some m.made;
  }

  unfoldable pub move_to : ℕ → Frame S V → Body S V → Machine S V → Machine S V
  move_to h f b m = record m { frames = write m.frames h (some (record f { point = within b })) }

  unfoldable pub step_frame : ℕ → Frame S V → Point S V → Machine S V → Outcome (Machine S V)
  step_frame h f (within (co_return v)) m = value (finish h f (returned v) m)
  step_frame h f (within (throws e)) m = value (finish h f (threw e) m)
  step_frame h f (within (changes g b)) m = value (move_to h f b (record m { shared = g m.shared }))
  step_frame h f (within (reads k)) m = value (move_to h f (k m.shared) m)
  step_frame h f (within (co_await t k)) m = value (await_suspend h f t k m)
  step_frame h f (awaits child k) m = do (r, n) ← await_resume child m; value (move_to h f (k r) n)
  step_frame h f at_end m = undefined

  abbrev pub step_at : ℕ → Option (Frame S V) → Machine S V → Outcome (Machine S V)
  step_at h none m = undefined
  step_at h (some f) m = step_frame h f f.point m

  abbrev pub step_from : Option ℕ → Machine S V → Outcome (Machine S V)
  step_from none m = value m
  step_from (some h) m = step_at h (m.frames h) m

  -- The next step of the coroutine that runs; nothing happens if none does.
  unfoldable pub step : Machine S V → Outcome (Machine S V)
  step m = step_from m.running m

  unfoldable pub steps : ℕ → Machine S V → Outcome (Machine S V)
  steps zero m = value m
  steps (suc n) m = step m >>= λ next. steps n next

  abbrev pub when_idle : Option ℕ → Machine S V → Outcome (Machine S V)
  when_idle none m = value m
  when_idle (some h) m = out_of_fuel

  -- handle.resume() of a new coroutine, which returns when none runs.
  unfoldable pub resume : ℕ → Body S V → S → Outcome (Machine S V)
  resume fuel b s =
      let start : Machine S V = record {
        frames = write (λ h. none) 0 (some (new_frame b none));
        made = 1;
        running = some 0;
        shared = s;
      } in
      steps fuel start >>= λ m. when_idle m.running m

  -- What the bodies mean: a co_await is a call.
  abbrev pub meaning : Body S V → S → Ended V × S
  meaning (co_return v) s = (returned v, s)
  meaning (throws e) s = (threw e, s)
  meaning (changes g b) s = meaning b (g s)
  meaning (reads k) s = meaning (k s) s
  meaning (co_await t k) s = let (r, after) = meaning t s in meaning (k r) after

module _ {S V : Type 0} where
  -- The body of a task beside sync_await's `result`, with which SyncEvent's `ready` is set.
  unfoldable pub beside : Body S V → Body (S × Option V) V
  beside (co_return v) = co_return v
  beside (throws e) = throws e
  beside (changes g b) = changes (λ (s, o). (g s, o)) (beside b)
  beside (reads k) = reads (λ (s, o). beside (k s))
  beside (co_await t k) = co_await (beside t) (λ r. beside (k r))

  -- `result = co_await t; event.set();`, and the end, at which no value is read.
  abbrev pub after_await : Ended V → Body (S × Option V) V
  after_await (returned v) = changes (λ (s, o). (s, some v)) (co_return v)
  after_await (threw e) = throws e

  unfoldable pub waiter : Body S V → Body (S × Option V) V
  waiter t = co_await (beside t) after_await

-- sync_await returns the value, or waits for a SyncEvent that nothing sets.
pub data Awaited (S V : Type 0) : Type 0 where
  gives : V → S → Awaited S V
  blocks : S → Awaited S V

module _ {S V : Type 0} where
  abbrev pub event_wait : S × Option V → Awaited S V
  event_wait (s, none) = blocks s
  event_wait (s, some v) = gives v s

  unfoldable pub sync_await : ℕ → Body S V → S → Outcome (Awaited S V)
  sync_await fuel t s = resume fuel (waiter t) (s, none) >>= λ m. value (event_wait m.shared)
