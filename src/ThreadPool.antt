-- ===== src/ThreadPool.antt =====
-- include/skutils/threadpool.h: the workers' loop, submit and the shutdown, as atomic actions that
-- interleave. std::mutex and std::condition_variable do what the standard says, with the wake-ups
-- that no notification causes.
pub mod Actions
pub mod Locked
pub mod Accounted
pub mod Progress
mod Tests
use quick_cmake.Prelude.{
  ℕ, zero, suc, ◌+◌, ◌-◌, ◌≡◌, Bool, true, false, ◌&&◌, Option, none, some, List, [], ◌∷◌, ◌++◌,
  map, length, get_elem?, set, replicate, if◌then◌else◌, ◌==◌,
}

-- A task, by a number that stands for it.
abbrev pub Task : Type 0
Task = ℕ

-- Where a worker stands in doWork.
pub data Place : Type 0 where
  at_test at_lock at_look at_wait waiting woken at_pop finished : Place
  at_unlock : Option Task → Place
  at_invoke : Task → Place

-- Where the destructor stands.
pub data Closing : Type 0 where
  opened stored notified : Closing

-- The pool. `unnotified` counts the calls of submit between their push and their notify_one;
-- `pushed`, `popped` and `invoked` record the tasks that push took, pop returned and doWork ran.
pub record Pool : Type 0 where
  pub running : Bool
  pub holder : Option ℕ
  pub queue : List Task
  pub workers : List Place
  pub unnotified : ℕ
  pub closing : Closing
  pub joined : ℕ
  pub pushed : List Task
  pub popped : List Task
  pub invoked : List Task

-- The constructor: its threads have started.
unfoldable pub start : ℕ → Pool
start core_pool_size = record {
  running = true;
  holder = none;
  queue = [];
  workers = replicate core_pool_size at_test;
  unnotified = 0;
  closing = opened;
  joined = 0;
  pushed = [];
  popped = [];
  invoked = [];
}

-- WorkQueue::pop
unfoldable pub pop : List Task → Option Task × List Task
pop [] = (none, [])
pop (t ∷ q) = (some t, q)

abbrev pub record_pop : Option Task → List Task → List Task
record_pop none done = done
record_pop (some t) done = done ++ (t ∷ [])

-- The next action of worker `i`, which stands at the place. `none` where it has to wait.
unfoldable pub do_work : ℕ → Place → Pool → Option Pool
do_work i at_test p =
    some (record p { workers = set p.workers i (if p.running then at_lock else finished) })
do_work i at_lock p = elim p.holder [
  | none ↦ some (record p { holder = some i; workers = set p.workers i at_look })
  | some _ ↦ none
]
do_work i at_look p = elim p.queue [
  | [] ↦ some (record p { workers = set p.workers i at_wait })
  | _ ∷ _ ↦ some (record p { workers = set p.workers i at_pop })
]
do_work i at_wait p = some (record p { holder = none; workers = set p.workers i waiting })
do_work i waiting p = none
do_work i woken p = elim p.holder [
  | none ↦ some (record p { holder = some i; workers = set p.workers i at_pop })
  | some _ ↦ none
]
do_work i at_pop p =
    let (task, q) = pop p.queue in
    some (record p {
      queue = q;
      popped = record_pop task p.popped;
      workers = set p.workers i (at_unlock task);
    })
do_work i (at_unlock none) p = some (record p { holder = none; workers = set p.workers i at_test })
do_work i (at_unlock (some t)) p =
    some (record p { holder = none; workers = set p.workers i (at_invoke t) })
do_work i (at_invoke t) p =
    some (record p { invoked = p.invoked ++ (t ∷ []); workers = set p.workers i at_test })
do_work i finished p = none

-- The worker reacquires the mutex when it runs next.
abbrev pub wake : Place → Place
wake waiting = woken
wake w = w

abbrev pub is_waiting : Place → Bool
is_waiting waiting = true
is_waiting _ = false

abbrev pub is_finished : Place → Bool
is_finished finished = true
is_finished _ = false

abbrev pub none_waiting : List Place → Bool
none_waiting [] = true
none_waiting (w ∷ ws) = elim (is_waiting w) [ true ↦ false | false ↦ none_waiting ws ]

-- An atomic action: of a worker; a wake-up that no notification causes; the two calls of submit;
-- and the three of shutdown, the last for each worker in turn.
pub data Action : Type 0 where
  work : ℕ → Action
  wake_up : ℕ → Action
  push : Task → Action
  notify_one : Option ℕ → Action
  store_false : Action
  notify_all : Action
  join : Action

abbrev pub wake_at : ℕ → Pool → Option Pool
wake_at i p = elim (get_elem? p.workers i) [
  | none ↦ none
  | some w ↦ if is_waiting w then some (record p { workers = set p.workers i woken }) else none
]

abbrev pub told : Pool → Option Pool
told p = elim p.unnotified [ zero ↦ none | suc n ↦ some (record p { unnotified = n }) ]

abbrev pub then_do : Option Pool → (Pool → Option Pool) → Option Pool
then_do none f = none
then_do (some p) f = f p

-- The pool after an action, `none` if the action is not possible. notify_one wakes a waiting worker
-- if there is one.
unfoldable pub act : Action → Pool → Option Pool
act (work i) p = elim (get_elem? p.workers i) [ none ↦ none | some w ↦ do_work i w p ]
act (wake_up i) p = wake_at i p
act (push t) p = elim p.closing [
  | opened ↦ some (record p {
    queue = p.queue ++ (t ∷ []);
    pushed = p.pushed ++ (t ∷ []);
    unnotified = p.unnotified + 1;
  })
  | _ ↦ none
]
act (notify_one none) p = if none_waiting p.workers then told p else none
act (notify_one (some i)) p = then_do (told p) (wake_at i)
act store_false p = elim p.closing [
  | opened ↦ some (record p { running = false; closing = stored })
  | _ ↦ none
]
act notify_all p = elim p.closing [
  | stored ↦ some (record p { closing = notified; workers = map wake p.workers })
  | _ ↦ none
]
act join p = elim p.closing [
  | notified ↦ elim (get_elem? p.workers p.joined) [
    | none ↦ none
    | some w ↦ if is_finished w then some (record p { joined = p.joined + 1 }) else none
  ]
  | _ ↦ none
]

-- The pools that the actions reach from a new pool of `n` workers.
pub data Reachable (n : ℕ) : Pool → Type 0 where
  begin : {p : Pool} → p ≡ start n → Reachable n p
  step : {p q : Pool} (a : Action) → Reachable n p → act a p ≡ some q → Reachable n q

-- The actions in order.
unfoldable pub acts : List Action → Pool → Option Pool
acts [] p = some p
acts (a ∷ r) p = then_do (act a p) (acts r)
