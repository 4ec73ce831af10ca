-- ===== src/EventBus/Tests.antt =====
-- Runs of EventBus, and its theorems at the states that they reach.
use quick_cmake.Prelude.{
  ℕ, ◌+◌, ◌≡◌, ◌≤◌, ◌⊎◌, refl, true, Option, none, some, List, [], ◌∷◌, ◌++◌, replicate, subst,
  Perm, All, Option-cases, inl, inr,
}
use quick_cmake.ThreadPool.Accounted.{count}
use quick_cmake.EventBus.{
  left, in_wait, at_test, told, Bus, start, push, pop, publish_delayed, work, look, time, close,
  Action, delay, worker, timer_goes, tick, stop_goes, act, Reachable, begin, step,
}
use quick_cmake.TopK.{pq_push}
use quick_cmake.EventBus.Workers.{published_once}
use quick_cmake.EventBus.Timers.{in_hand, events, passed_when_due}
use quick_cmake.EventBus.Handlers.{publish, subscribe_all, given, publish_subscribed}

-- Actions in their order.
acts : List Action → Option Bus → Option Bus
acts [] o = o
acts (a ∷ l) none = none
acts (a ∷ l) (some b) = acts l (act a b)

acts-none : (l : List Action) (c : Bus) → ¬ (acts l none ≡ some c)
unfolding acts
acts-none [] c = λ h. cc
acts-none (a ∷ l) c = λ h. cc

acts-Reachable :
    (l : List Action) (b c : Bus) → Reachable b → acts l (some b) ≡ some c → Reachable c
unfolding acts
acts-Reachable [] b c r h = let same : b ≡ c = cc in subst Reachable same r
acts-Reachable (a ∷ l) b c r h = elim (Option-cases (act a b)) [
  | inl e ↦ absurd (acts-none l c (rw e at h))
  | inr (next, e) ↦ acts-Reachable l next c (step a r e) (rw e at h)
]

-- An event is delayed, passed on, taken and published, and Stop joins the workers.
abbrev published_bus : Bus
published_bus = record {
  queue = [];
  stopped = true;
  stop = true;
  workers = replicate 4 left;
  timers = [];
  timer = at_test;
  now = 1;
  closing = told;
  accepted = 5 ∷ [];
  taken = 5 ∷ [];
  published = 5 ∷ [];
  scheduled = (1, 5) ∷ [];
  passed = (1, 5) ∷ [];
  offered = 5 ∷ [];
  asked = [];
}

abbrev leave : List Action
leave = worker 0 ∷ worker 1 ∷ worker 2 ∷ worker 3 ∷ []

published_bus-Reachable : Reachable published_bus
unfolding acts act start push pop publish_delayed work look time close pq_push
published_bus-Reachable =
    acts-Reachable
      (delay 5 1
        ∷ tick
        ∷ timer_goes
        ∷ timer_goes
        ∷ timer_goes
        ∷ worker 0
        ∷ worker 0
        ∷ stop_goes
        ∷ stop_goes
        ∷ (leave ++ stop_goes ∷ []))
      start published_bus begin refl

published_once_example :
    (published_bus.taken ≡ published_bus.accepted)
    × ((e : ℕ) → count e published_bus.published ≡ count e published_bus.accepted)
published_once_example = published_once published_bus published_bus-Reachable refl

passed_when_due_example :
    Perm (published_bus.timers ++ (in_hand at_test ++ published_bus.passed)) published_bus.scheduled
    × All (λ d. d.0 ≤ published_bus.now) (in_hand at_test ++ published_bus.passed)
    × ((e : ℕ)
        → count e published_bus.offered
          ≡ count e published_bus.asked + count e (events published_bus.passed))
    × ((published_bus.stopped ≡ true) ⊎ (published_bus.accepted ≡ published_bus.offered))
passed_when_due_example = passed_when_due published_bus published_bus-Reachable

-- The notification of Stop comes between the test of stop_ and the wait of the timer thread.
abbrev stuck_bus : Bus
stuck_bus = record published_bus {
  timer = in_wait;
  now = 0;
  accepted = [];
  taken = [];
  published = [];
  scheduled = [];
  passed = [];
  offered = [];
}

stuck_bus-Reachable : Reachable stuck_bus
unfolding acts act start pop work look time close
stuck_bus-Reachable =
    acts-Reachable (timer_goes ∷ stop_goes ∷ stop_goes ∷ (leave ++ stop_goes ∷ timer_goes ∷ []))
      start stuck_bus begin refl

stuck_bus_waits : (act stop_goes stuck_bus ≡ none) × (act timer_goes stuck_bus ≡ none)
unfolding act time close
stuck_bus_waits = (refl, refl)

abbrev subscriptions : List (ℕ × ℕ)
subscriptions = (1, 10) ∷ (2, 20) ∷ (1, 11) ∷ []

publish_subscribed_example : publish 1 (subscribe_all subscriptions []) ≡ given 1 subscriptions
publish_subscribed_example = publish_subscribed 1 subscriptions
