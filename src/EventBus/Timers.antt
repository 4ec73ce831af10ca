-- ===== src/EventBus/Timers.antt =====
-- What becomes of the events that PublishDelayed takes.
use mathlib.Core.List.Perm
use mathlib.Core.List.{perm_append_singleton}
use mathlib.Core.Option.{some-injective, none-ne-some}
use quick_cmake.Prelude.{
  ℕ, ◌+◌, ◌≡◌, ◌≤◌, refl, sym, ap, subst, Bool, true, false, Option, none, some, List, [], ◌∷◌,
  ◌++◌, Perm, perm_middle, ◌⊎◌, inl, inr, All, All-append, get_elem?, leb, if-both, if-some, arith,
}
use quick_cmake.ThreadPool.Accounted.{count, count-append}
use quick_cmake.TopK.{pq_pop}
use quick_cmake.TopK.Order.{Perm-pq_push}
use quick_cmake.EventBus.{
  Worker, popping, publishing, left, Timer, at_test, at_look, in_wait, until, posting, ended,
  Closing, opened, stop_set, queue_stopped, told, closed, Delayed, Bus, start, push, pop, later,
  publish_delayed, wake, work, look, time, all_left, has_ended, close, Action, publish_async, delay,
  worker, timer_goes, timer_wakes, tick, stop_goes, work_at, act, Reachable, begin, step,
}

-- The task that the timer thread has taken out and not passed on yet.
abbrev pub in_hand : Timer → List Delayed
in_hand (posting d) = d ∷ []
in_hand _ = []

in_hand-wake : (p : Timer) → in_hand p ≡ in_hand (wake p)
in_hand-wake at_test = refl
in_hand-wake at_look = refl
in_hand-wake in_wait = refl
in_hand-wake ended = refl
in_hand-wake (until t) = refl
in_hand-wake (posting d) = refl

-- The events of the tasks, in order.
abbrev pub events : List Delayed → List ℕ
events [] = []
events ((t, e) ∷ l) = e ∷ events l

record Kept (timers hand passed scheduled : List Delayed) (now : ℕ)
    (offered asked accepted : List ℕ) (stopped : Bool) : Type 0 where
  pub all : Perm (timers ++ (hand ++ passed)) scheduled
  pub due : All (λ d. d.0 ≤ now) (hand ++ passed)
  pub posted : (e : ℕ) → count e offered ≡ count e asked + count e (events passed)
  pub queued : (stopped ≡ true) ⊎ (accepted ≡ offered)

-- What is kept of a bus whose timer thread stands at `p`.
abbrev KeptAt : Timer → Bus → Type 0
KeptAt p b =
    Kept b.timers (in_hand p) b.passed b.scheduled b.now b.offered b.asked b.accepted b.stopped

abbrev KeptBy : Bus → Type 0
KeptBy b = KeptAt b.timer b

All-later : (n m : ℕ) (l : List Delayed) → n ≤ m → All (λ d. d.0 ≤ n) l → All (λ d. d.0 ≤ m) l
All-later n m [] le h = tt
All-later n m (d ∷ l) le (p, h) = (omega arith, All-later n m l le h)

count-events :
    (x t e : ℕ) (l : List Delayed)
    → count x (events (l ++ (t, e) ∷ [])) ≡ count x (events l) + count x (e ∷ [])
unfolding count
count-events x t e [] = omega arith
count-events x t e ((u, f) ∷ l) = omega (arith, count-events x t e l)

-- A call of PublishAsync takes the event, or finds the queue stopped.
pushed :
    (e : ℕ) (b : Bus)
    → (b.stopped ≡ true) ⊎ (b.accepted ≡ b.offered)
    → (b.stopped ≡ false)
    → b.accepted ++ e ∷ [] ≡ b.offered ++ e ∷ []
pushed e b (inl s) h = cc
pushed e b (inr same) h = ap (λ l. l ++ e ∷ []) same

ask-Kept : (e : ℕ) (b : Bus) → KeptBy b → KeptBy (push e (record b { asked = b.asked ++ e ∷ [] }))
unfolding push
ask-Kept e b ok =
    let counted : (x : ℕ)
        → count x (b.offered ++ e ∷ []) ≡ count x (b.asked ++ e ∷ []) + count x (events b.passed) =
      λ x.
        omega (
          arith,
          ok.posted x,
          count-append x b.offered (e ∷ []),
          count-append x b.asked (e ∷ []),
        ) in
    if-both KeptBy b.stopped _ _
      (λ h. record { all = ok.all; due = ok.due; posted = counted; queued = inl h })
      (λ h. record {
        all = ok.all;
        due = ok.due;
        posted = counted;
        queued = inr (pushed e b ok.queued h);
      })

-- The timer thread gives its event to PublishAsync.
post-Kept :
    (t e : ℕ) (b : Bus)
    → KeptAt (posting (t, e)) b
    → KeptBy (record (push e b) { timer = at_test; passed = b.passed ++ (t, e) ∷ [] })
unfolding push
post-Kept t e b ok =
    let all : Perm (b.timers ++ (b.passed ++ (t, e) ∷ [])) b.scheduled =
      Perm.trans (Perm.append_left b.timers (perm_append_singleton (t, e) b.passed)) ok.all in
    let due : All (λ d. d.0 ≤ b.now) (b.passed ++ (t, e) ∷ []) =
      All-append _ b.passed ((t, e) ∷ []) ok.due.1 (ok.due.0, tt) in
    let counted : (x : ℕ)
        → count x (b.offered ++ e ∷ [])
          ≡ count x b.asked + count x (events (b.passed ++ (t, e) ∷ [])) =
      λ x.
        omega
          (arith, ok.posted x, count-append x b.offered (e ∷ []), count-events x t e b.passed) in
    if-both (λ c. KeptBy (record c { timer = at_test; passed = b.passed ++ (t, e) ∷ [] })) b.stopped
      _ _ (λ h. record { all = all; due = due; posted = counted; queued = inl h })
      (λ h. record {
        all = all;
        due = due;
        posted = counted;
        queued = inr (pushed e b ok.queued h);
      })

-- A notification changes nothing that is kept.
wake-Kept : (b : Bus) → KeptBy b → KeptAt (wake b.timer) b
wake-Kept b ok =
    subst (λ l. Kept b.timers l b.passed b.scheduled b.now b.offered b.asked b.accepted b.stopped)
      (in_hand-wake b.timer) ok

delay-Kept : (e ms : ℕ) (b : Bus) → KeptBy b → KeptBy (publish_delayed e ms b)
unfolding publish_delayed
delay-Kept e ms b ok =
    let d : Delayed = (b.now + ms, e) in
    let woken = wake-Kept b ok in
    record {
      all =
          Perm.trans
            (Perm.append_right (in_hand (wake b.timer) ++ b.passed) (Perm-pq_push later d b.timers))
            (Perm.trans (Perm.cons d woken.all) (Perm.symm (perm_append_singleton d b.scheduled)));
      due = woken.due;
      posted = ok.posted;
      queued = ok.queued;
    }

look-Kept : (l : List Delayed) (b : Bus) → b.timers ≡ l → KeptAt at_look b → KeptBy (look l b)
unfolding look
look-Kept [] b at ok = ok
look-Kept ((t, e) ∷ r) b at ok =
    if-both KeptBy (leb t b.now) _ _
      (λ due. record {
        all =
            let before = subst (λ l. Perm (l ++ b.passed) b.scheduled) at ok.all in
            subst (λ l. Perm (pq_pop l ++ ((t, e) ∷ b.passed)) b.scheduled) (sym at)
              (Perm.trans (perm_middle r b.passed) before);
        due = (ground arith, ok.due);
        posted = ok.posted;
        queued = ok.queued;
      })
      (λ early. ok)

time-Kept : (p : Timer) (b c : Bus) → time p b ≡ some c → KeptAt p b → KeptBy c
unfolding time
time-Kept at_test b c h ok =
    subst KeptBy (some-injective _ _ h)
      (if-both (λ p. KeptBy (record b { timer = p })) b.stop ended at_look (λ e. ok) (λ e. ok))
time-Kept at_look b c h ok = subst KeptBy (some-injective _ _ h) (look-Kept b.timers b refl ok)
time-Kept in_wait b c h ok = absurd (none-ne-some c h)
time-Kept (until t) b c h ok =
    let (passed, same) = if-some (leb t b.now) _ c h in subst KeptBy same ok
time-Kept (posting (t, e)) b c h ok = subst KeptBy (some-injective _ _ h) (post-Kept t e b ok)
time-Kept ended b c h ok = absurd (none-ne-some c h)

pop-Kept : (i : ℕ) (q : List ℕ) (s : Bool) (b c : Bus) → pop i q s b ≡ some c → KeptBy b → KeptBy c
unfolding pop
pop-Kept i [] true b c h ok = subst KeptBy (some-injective _ _ h) ok
pop-Kept i [] false b c h ok = absurd (none-ne-some c h)
pop-Kept i (e ∷ q) s b c h ok = subst KeptBy (some-injective _ _ h) ok

work_at-Kept :
    (i : ℕ) (o : Option Worker) (b c : Bus) → work_at i o b ≡ some c → KeptBy b → KeptBy c
unfolding work
work_at-Kept i none b c h ok = absurd (none-ne-some c h)
work_at-Kept i (some left) b c h ok = absurd (none-ne-some c h)
work_at-Kept i (some popping) b c h ok = pop-Kept i b.queue b.stopped b c h ok
work_at-Kept i (some (publishing e)) b c h ok = subst KeptBy (some-injective _ _ h) ok

close-Kept : (p : Closing) (b c : Bus) → close p b ≡ some c → KeptBy b → KeptBy c
unfolding close
close-Kept opened b c h ok = subst KeptBy (some-injective _ _ h) ok
close-Kept stop_set b c h ok =
    subst KeptBy (some-injective _ _ h)
      (record { all = ok.all; due = ok.due; posted = ok.posted; queued = inl refl })
close-Kept queue_stopped b c h ok =
    let (_, same) = if-some (all_left b.workers) _ c h in subst KeptBy same (wake-Kept b ok)
close-Kept told b c h ok = let (_, same) = if-some (has_ended b.timer) _ c h in subst KeptBy same ok
close-Kept closed b c h ok = absurd (none-ne-some c h)

act-Kept : (a : Action) (b c : Bus) → act a b ≡ some c → KeptBy b → KeptBy c
unfolding act
act-Kept (publish_async e) b c h ok = subst KeptBy (some-injective _ _ h) (ask-Kept e b ok)
act-Kept (delay e ms) b c h ok = subst KeptBy (some-injective _ _ h) (delay-Kept e ms b ok)
act-Kept (worker i) b c h ok = work_at-Kept i (get_elem? b.workers i) b c h ok
act-Kept timer_goes b c h ok = time-Kept b.timer b c h ok
act-Kept timer_wakes b c h ok = subst KeptBy (some-injective _ _ h) (wake-Kept b ok)
act-Kept tick b c h ok = subst KeptBy (some-injective _ _ h) (record {
  all = ok.all;
  due = All-later b.now (b.now + 1) (in_hand b.timer ++ b.passed) (omega arith) ok.due;
  posted = ok.posted;
  queued = ok.queued;
})
act-Kept stop_goes b c h ok = close-Kept b.closing b c h ok

Reachable-Kept : (b : Bus) → Reachable b → KeptBy b
unfolding start count
Reachable-Kept b begin = record {
  all = Perm.refl [];
  due = tt;
  posted = λ e. refl;
  queued = inr refl;
}
Reachable-Kept b (step {b = before} a r e) = act-Kept a before b e (Reachable-Kept before r)

-- In every reachable state the tasks that PublishDelayed made, with their events and times, are
-- those in timerQueue_, the one that the timer thread has taken out, if any, and those whose
-- events it has given to PublishAsync, each as often as it was made, and none of the last two was
-- due later than now; PublishAsync has been called for each event as often as other threads called
-- it and the timer thread passed it on; and until Stop stops the queue, Push has taken the events
-- of all these calls, in their order.
pub passed_when_due :
    (b : Bus)
    → Reachable b
    → Perm (b.timers ++ (in_hand b.timer ++ b.passed)) b.scheduled
      × All (λ d. d.0 ≤ b.now) (in_hand b.timer ++ b.passed)
      × ((e : ℕ) → count e b.offered ≡ count e b.asked + count e (events b.passed))
      × ((b.stopped ≡ true) ⊎ (b.accepted ≡ b.offered))
passed_when_due b r = let ok = Reachable-Kept b r in (ok.all, ok.due, ok.posted, ok.queued)
