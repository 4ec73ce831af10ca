-- ===== src/Await/Sync.antt =====
-- resume of a coroutine and sync_await of a task, from their start to their end.
use quick_cmake.Prelude.{ℕ, ◌≡◌, ◌≤◌, ◌<◌, refl, ap, ◌∙◌, Option, none, some, arith}
use quick_cmake.Outcome.{value, ◌>>=◌}
use quick_cmake.Await.{
  Ended, returned, threw, Body, co_return, throws, changes, reads, co_await, at_end, Machine, write,
  new_frame, when_idle, resume, meaning, beside, after_await, waiter, Awaited, gives, blocks,
  event_wait, sync_await,
}
use quick_cmake.Await.Steps.{Leads-steps, body_runs}

module _ {S V : Type 0} where
  -- The frame at handle 0 is at its end and holds r, and all the others are destroyed.
  pub record Left (r : Ended V × S) (m : Machine S V) : Type 0 where
    pub shared : m.shared ≡ r.1
    pub holds : m.frames 0 ≡ some (record { point = at_end; ended = some r.0; continuation = none })
    pub destroyed : (g : ℕ) → 0 < g → g < m.made → m.frames g ≡ none

  -- With enough steps resume of a new coroutine returns, whatever tasks its body awaits in turn:
  -- its promise holds the value or the exception that the body means, with co_await as a call, what
  -- the bodies share is what the calls leave, and every task that was awaited is destroyed.
  pub resume_lem :
      (b : Body S V) (s : S)
      → (n : ℕ) × (m : Machine S V) × ((fuel : ℕ) → n ≤ fuel → resume fuel b s ≡ value m)
        × Left (meaning b s) m
  unfolding resume
  resume_lem b s =
      let start : Machine S V = record {
        frames = write (λ h. none) 0 (some (new_frame b none));
        made = 1;
        running = some 0;
        shared = s;
      } in
      let (m, l, d) = body_runs b start 0 none refl (omega arith) refl in
      let (n, run) = Leads-steps l d.running in
      (
        n,
        m,
        (λ fuel le.
            ap (λ o. o >>= λ p. when_idle p.running p) (run fuel le)
            ∙ ap (λ r. when_idle r m) d.running),
        record {
          shared = d.shared;
          holds = d.holds;
          destroyed = λ g low high. d.destroyed g (omega arith) high;
        },
      )

module _ {S V : Type 0} where
  meaning-beside :
      (t : Body S V) (s : S) (o : Option V)
      → let (r, after) = meaning t s in meaning (beside t) (s, o) ≡ (r, (after, o))
  unfolding beside
  meaning-beside (co_return v) s o = refl
  meaning-beside (throws e) s o = refl
  meaning-beside (changes g b) s o = meaning-beside b (g s) o
  meaning-beside (reads k) s o = meaning-beside (k s) s o
  meaning-beside (co_await t k) s o =
      let (r, after) = meaning t s in
      ap (λ (p : Ended V × (S × Option V)). meaning (beside (k p.0)) p.1) (meaning-beside t s o)
      ∙ meaning-beside (k r) after o

  -- The value that the task returns; without one, sync_await waits forever.
  abbrev pub answer : Ended V × S → Awaited S V
  answer (returned v, s) = gives v s
  answer (threw e, s) = blocks s

  answered :
      (r : Ended V) (s : S) (o : Option V)
      → o ≡ none
      → event_wait (meaning (after_await r) (s, o)).1 ≡ answer (r, s)
  answered (returned v) s o h = refl
  answered (threw e) s o h = rw h refl

  -- With enough steps sync_await of a task that returns a value returns that value, and of one that
  -- throws blocks forever; what the bodies share is then what the task leaves.
  pub sync_await_lem :
      (t : Body S V) (s : S)
      → (n : ℕ) × ((fuel : ℕ) → n ≤ fuel → sync_await fuel t s ≡ value (answer (meaning t s)))
  unfolding sync_await waiter
  sync_await_lem t s =
      let (n, m, run, left) = resume_lem (waiter t) (s, none) in
      let (r, after) = meaning t s in
      let ends : event_wait m.shared ≡ answer (r, after) =
        ap event_wait left.shared
        ∙ ap (λ (p : Ended V × (S × Option V)). event_wait (meaning (after_await p.0) p.1).1)
            (meaning-beside t s none)
        ∙ answered r after none refl in
      (n, λ fuel le. rw (run fuel le) (ap value ends))
