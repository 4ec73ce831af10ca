-- ===== src/EventLoop.antt =====
-- EventLoop of include/skutils/coroutine/event_loop.h, with one thread in run; post and stop come
-- from any thread, or from the tasks themselves, in any order.
pub mod Fifo
mod Tests
use quick_cmake.Prelude.{
  Bool, true, false, not, ◌||◌, Option, none, some, List, [], ◌∷◌, ◌++◌, ◌≡◌, if◌then◌else◌,
}

-- Where the thread of run stands: outside of run, before the test of running_, before or in the
-- wait, before the test of local, and behind the call of the front task.
pub data Place : Type 0 where
  outside testing waiting draining popping : Place

-- The queue's tasks (`none` is an empty function) and running_; where run stands, its local queue,
-- and the tasks that were called, in their order.
pub record Loop (A : Type 0) : Type 0 where
  pub queue : List (Option A)
  pub running : Bool
  pub place : Place
  pub local : List (Option A)
  pub called : List A

abbrev pub is_empty : {A : Type 0} → List A → Bool
is_empty [] = true
is_empty (x ∷ l) = false

abbrev pub rest : {A : Type 0} → List A → List A
rest [] = []
rest (x ∷ l) = l

-- `if (task) task();`
abbrev pub call : {A : Type 0} → Option A → List A → List A
call none called = called
call (some t) called = called ++ t ∷ []

module _ {A : Type 0} where
  abbrev pub fresh : Loop A
  fresh = record { queue = []; running = false; place = outside; local = []; called = [] }

  unfoldable pub post : Option A → Loop A → Loop A
  post t s = record s { queue = s.queue ++ t ∷ [] }

  unfoldable pub stop : Loop A → Loop A
  stop s = record s { running = false }

  -- The predicate of the wait.
  unfoldable pub may_leave : Loop A → Bool
  may_leave s = not (is_empty s.queue) || not s.running

  unfoldable pub front : List (Option A) → Loop A → Loop A
  front [] s = record s { place = testing }
  front (t ∷ ts) s = record s { place = popping; called = call t s.called }

  unfoldable pub advance_from : Place → Loop A → Option (Loop A)
  advance_from outside s = some (record s { place = testing; running = true })
  advance_from testing s = some (record s { place = if s.running then waiting else outside })
  advance_from waiting s =
      if may_leave s
      then some (record s { place = draining; local = s.queue; queue = [] })
      else none
  advance_from draining s = some (front s.local s)
  advance_from popping s = some (record s { place = draining; local = rest s.local })

  -- The next action of the thread in run, `none` while it waits; outside, run is called.
  unfoldable pub advance : Loop A → Option (Loop A)
  advance s = advance_from s.place s

-- The loops that posts, stops and the thread in run reach, with all posted tasks in their order.
pub data Reachable {A : Type 0} : List (Option A) → Loop A → Type 0 where
  start : Reachable [] fresh
  posts :
      {ts : List (Option A)} {s : Loop A} (t : Option A)
      → Reachable ts s
      → Reachable (ts ++ t ∷ []) (post t s)
  stops : {ts : List (Option A)} {s : Loop A} → Reachable ts s → Reachable ts (stop s)
  advances :
      {ts : List (Option A)} {s next : Loop A}
      → advance s ≡ some next
      → Reachable ts s
      → Reachable ts next
