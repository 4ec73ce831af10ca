-- ===== src/EventBus.antt =====
-- EventBus of include/skutils/event_manager.h: its queue of events to publish with the four
-- workers, its timers with their thread, and Stop, as atomic actions that interleave. A callback
-- may publish in its turn, which is one of these actions.
pub mod Shares
pub mod Workers
pub mod Timers
pub mod Handlers
mod Tests
use quick_cmake.Prelude.{
  ℕ, zero, suc, ◌+◌, ◌≡◌, Bool, true, false, Option, none, some, List, [], ◌∷◌, ◌++◌, get_elem?,
  set, replicate, ltb, leb, if◌then◌else◌,
}
use quick_cmake.TopK.{pq_push, pq_pop}

-- Where a worker stands: at or in the wait of Pop, in Publish of an event, or behind its loop.
pub data Worker : Type 0 where
  popping left : Worker
  publishing : ℕ → Worker

-- An event and the time at which it is due.
abbrev pub Delayed : Type 0
Delayed = ℕ × ℕ

-- Where the timer thread stands: before the test of stop_, before it takes timerMutex_, in wait, in
-- wait_until a time, with a task that it has taken out, or behind its loop.
pub data Timer : Type 0 where
  at_test at_look in_wait ended : Timer
  until : ℕ → Timer
  posting : Delayed → Timer

-- Where Stop stands: not called, or behind stop_, behind workerQueue_.Stop(), behind the joins of
-- the workers and notify_all, or at its end.
pub data Closing : Type 0 where
  opened stop_set queue_stopped told closed : Closing

-- The bus; an event is a number that stands for it. `accepted`, `taken` and `published` record the
-- events that Push took, that Pop returned and that a worker has published; `scheduled` and
-- `passed` the tasks that PublishDelayed made and whose events the timer thread has given to
-- PublishAsync; `offered` the events of all calls of PublishAsync, and `asked` of those by other
-- threads.
pub record Bus : Type 0 where
  pub queue : List ℕ
  pub stopped : Bool
  pub stop : Bool
  pub workers : List Worker
  pub timers : List Delayed
  pub timer : Timer
  pub now : ℕ
  pub closing : Closing
  pub accepted : List ℕ
  pub taken : List ℕ
  pub published : List ℕ
  pub scheduled : List Delayed
  pub passed : List Delayed
  pub offered : List ℕ
  pub asked : List ℕ

-- The constructor: its threads have started.
unfoldable pub start : Bus
start = record {
  queue = [];
  stopped = false;
  stop = false;
  workers = replicate 4 popping;
  timers = [];
  timer = at_test;
  now = 0;
  closing = opened;
  accepted = [];
  taken = [];
  published = [];
  scheduled = [];
  passed = [];
  offered = [];
  asked = [];
}

-- TaskQueue::Push, for PublishAsync.
unfoldable pub push : ℕ → Bus → Bus
push e b =
    let c = record b { offered = b.offered ++ e ∷ [] } in
    if b.stopped then c else record c { queue = b.queue ++ e ∷ []; accepted = b.accepted ++ e ∷ [] }

-- TimerTask::operator<
abbrev pub later : Delayed → Delayed → Bool
later (t, e) (u, f) = ltb u t

-- What a notification or a wake-up without one does to the timer thread.
abbrev pub wake : Timer → Timer
wake in_wait = at_test
wake (until t) = at_test
wake p = p

unfoldable pub publish_delayed : ℕ → ℕ → Bus → Bus
publish_delayed e delay_ms b = record b {
  timers = pq_push later (b.now + delay_ms, e) b.timers;
  scheduled = b.scheduled ++ (b.now + delay_ms, e) ∷ [];
  timer = wake b.timer;
}

-- TaskQueue::Pop, `none` while it waits: the worker leaves its loop, or has an event.
unfoldable pub pop : ℕ → List ℕ → Bool → Bus → Option Bus
pop i [] true b = some (record b { workers = set b.workers i left })
pop i [] false b = none
pop i (e ∷ q) stopped b =
    some
      (record b { queue = q; taken = b.taken ++ e ∷ []; workers = set b.workers i (publishing e) })

-- The next action of worker i: Pop, or Publish and the loop.
unfoldable pub work : ℕ → Worker → Bus → Option Bus
work i popping b = pop i b.queue b.stopped b
work i (publishing e) b =
    some (record b { published = b.published ++ e ∷ []; workers = set b.workers i popping })
work i left b = none

-- The look at timerQueue_, with timerMutex_ held.
unfoldable pub look : List Delayed → Bus → Bus
look [] b = record b { timer = in_wait }
look ((t, e) ∷ r) b =
    if leb t b.now
    then record b { timers = pq_pop b.timers; timer = posting (t, e) }
    else record b { timer = until t }

-- The next action of the timer thread.
unfoldable pub time : Timer → Bus → Option Bus
time at_test b = some (record b { timer = if b.stop then ended else at_look })
time at_look b = some (look b.timers b)
time in_wait b = none
time (until t) b = if leb t b.now then some (record b { timer = at_test }) else none
time (posting (t, e)) b =
    some (record (push e b) { timer = at_test; passed = b.passed ++ (t, e) ∷ [] })
time ended b = none

abbrev pub all_left : List Worker → Bool
all_left [] = true
all_left (left ∷ ws) = all_left ws
all_left (_ ∷ ws) = false

abbrev pub has_ended : Timer → Bool
has_ended ended = true
has_ended _ = false

-- The next action of Stop, `none` while it joins a thread.
unfoldable pub close : Closing → Bus → Option Bus
close opened b = some (record b { stop = true; closing = stop_set })
close stop_set b = some (record b { stopped = true; closing = queue_stopped })
close queue_stopped b =
    if all_left b.workers then some (record b { timer = wake b.timer; closing = told }) else none
close told b = if has_ended b.timer then some (record b { closing = closed }) else none
close closed b = none

pub data Action : Type 0 where
  publish_async : ℕ → Action
  delay : ℕ → ℕ → Action
  worker : ℕ → Action
  timer_goes timer_wakes tick stop_goes : Action

abbrev pub work_at : ℕ → Option Worker → Bus → Option Bus
work_at i none b = none
work_at i (some w) b = work i w b

-- The bus after an action, `none` if the action is not possible.
unfoldable pub act : Action → Bus → Option Bus
act (publish_async e) b = some (push e (record b { asked = b.asked ++ e ∷ [] }))
act (delay e ms) b = some (publish_delayed e ms b)
act (worker i) b = work_at i (get_elem? b.workers i) b
act timer_goes b = time b.timer b
act timer_wakes b = some (record b { timer = wake b.timer })
act tick b = some (record b { now = b.now + 1 })
act stop_goes b = close b.closing b

pub data Reachable : Bus → Type 0 where
  begin : Reachable start
  step : {b c : Bus} (a : Action) → Reachable b → act a b ≡ some c → Reachable c
