-- ===== src/EventBus/Workers.antt =====
-- What becomes of the events that Push takes.
use mathlib.Core.Option.{some-injective, none-ne-some}
use quick_cmake.Prelude.{
  ℕ, zero, suc, ◌≡◌, refl, sym, ap, subst, ◌∙◌, true, Option, none, some, List, [], ◌∷◌, ◌++◌,
  append-nil, length, replicate, get_elem?, leb, if-both, if-some, arith,
}
use quick_cmake.ThreadPool.Accounted.{count}
use quick_cmake.EventBus.{
  Worker, popping, left, Timer, Closing, opened, stop_set, queue_stopped, told, closed, Delayed,
  Bus, start, push, publish_delayed, wake, look, time, at_test, at_look, in_wait, until, posting,
  ended, work_at, Action, all_left, has_ended, close, publish_async, delay, worker, timer_goes,
  timer_wakes, tick, stop_goes, act, Reachable, begin, step,
}
use quick_cmake.EventBus.Shares.{
  joined, Accounted, all_left-at, all_left-carries, push-Accounted, same_work, work-Accounted,
}

close-Accounted :
    (p : Closing) (b c : Bus) → b.closing ≡ p → close p b ≡ some c → Accounted b → Accounted c
unfolding close
close-Accounted opened b c at h ok = subst Accounted (some-injective _ _ h) (record {
  in_order = ok.in_order;
  once = ok.once;
  drained = ok.drained;
  size = ok.size;
  gone = λ g. cc;
})
close-Accounted stop_set b c at h ok = subst Accounted (some-injective _ _ h) (record {
  in_order = ok.in_order;
  once = ok.once;
  drained = λ i g. (refl, (ok.drained i g).1);
  size = ok.size;
  gone = λ g. cc;
})
close-Accounted queue_stopped b c at h ok =
    let (done, same) = if-some (all_left b.workers) _ c h in
    subst Accounted same (record {
      in_order = ok.in_order;
      once = ok.once;
      drained = ok.drained;
      size = ok.size;
      gone = λ g. done;
    })
close-Accounted told b c at h ok =
    let (done, same) = if-some (has_ended b.timer) _ c h in
    subst Accounted same (record {
      in_order = ok.in_order;
      once = ok.once;
      drained = ok.drained;
      size = ok.size;
      gone = λ g. ok.gone (ap joined at);
    })
close-Accounted closed b c at h ok = absurd (none-ne-some c h)

look-Accounted : (l : List Delayed) (b : Bus) → Accounted b → Accounted (look l b)
unfolding look
look-Accounted [] b ok = same_work b b.timers b.passed b.scheduled in_wait b.now b.asked ok
look-Accounted ((t, e) ∷ r) b ok =
    if-both Accounted (leb t b.now) _ _
      (λ due. same_work b _ _ b.scheduled (posting (t, e)) b.now b.asked ok)
      (λ early. same_work b b.timers b.passed b.scheduled (until t) b.now b.asked ok)

time-Accounted : (p : Timer) (b c : Bus) → time p b ≡ some c → Accounted b → Accounted c
unfolding time
time-Accounted at_test b c h ok =
    subst Accounted (some-injective _ _ h)
      (same_work b b.timers b.passed b.scheduled _ b.now b.asked ok)
time-Accounted at_look b c h ok =
    subst Accounted (some-injective _ _ h) (look-Accounted b.timers b ok)
time-Accounted in_wait b c h ok = absurd (none-ne-some c h)
time-Accounted (until t) b c h ok =
    let (due, same) = if-some (leb t b.now) _ c h in
    subst Accounted same (same_work b b.timers b.passed b.scheduled at_test b.now b.asked ok)
time-Accounted (posting (t, e)) b c h ok = subst Accounted (some-injective _ _ h) (
    let d = push e b in
    same_work d d.timers _ d.scheduled at_test d.now d.asked (push-Accounted e b ok))
time-Accounted ended b c h ok = absurd (none-ne-some c h)

work_at-Accounted :
    (i : ℕ) (o : Option Worker) (b c : Bus)
    → get_elem? b.workers i ≡ o
    → work_at i o b ≡ some c
    → Accounted b
    → Accounted c
work_at-Accounted i none b c at h ok = absurd (none-ne-some c h)
work_at-Accounted i (some w) b c at h ok = work-Accounted i w b c at h ok

act-Accounted : (a : Action) (b c : Bus) → act a b ≡ some c → Accounted b → Accounted c
unfolding act publish_delayed
act-Accounted (publish_async e) b c h ok = subst Accounted (some-injective _ _ h) (
    let c = record b { asked = b.asked ++ e ∷ [] } in
    push-Accounted e c
      (same_work b b.timers b.passed b.scheduled b.timer b.now (b.asked ++ e ∷ []) ok))
act-Accounted (delay e ms) b c h ok =
    subst Accounted (some-injective _ _ h)
      (same_work b _ b.passed _ (wake b.timer) b.now b.asked ok)
act-Accounted (worker i) b c h ok = work_at-Accounted i (get_elem? b.workers i) b c refl h ok
act-Accounted timer_goes b c h ok = time-Accounted b.timer b c h ok
act-Accounted timer_wakes b c h ok =
    subst Accounted (some-injective _ _ h)
      (same_work b b.timers b.passed b.scheduled _ b.now b.asked ok)
act-Accounted tick b c h ok =
    subst Accounted (some-injective _ _ h)
      (same_work b b.timers b.passed b.scheduled b.timer _ b.asked ok)
act-Accounted stop_goes b c h ok = close-Accounted b.closing b c refl h ok

none_left : (n i : ℕ) → ¬ (get_elem? (replicate n popping) i ≡ some left)
none_left zero i = λ h. cc
none_left (suc n) zero = λ h. cc
none_left (suc n) (suc i) = none_left n i

Reachable-Accounted : (b : Bus) → Reachable b → Accounted b
unfolding start count
Reachable-Accounted b begin = record {
  in_order = refl;
  once = λ e. refl;
  drained = λ i h. absurd (none_left 4 i h);
  size = refl;
  gone = λ g. cc;
}
Reachable-Accounted b (step {b = before} a r e) =
    act-Accounted a before b e (Reachable-Accounted before r)

first_worker : (ws : List Worker) → length ws ≡ 4 → (w : Worker) × (get_elem? ws 0 ≡ some w)
first_worker [] h = cc
first_worker (w ∷ ws) h = (w, refl)

-- Once Stop has joined the workers, they have taken every event that Push took, in its order, and
-- have published each as often as Push took it.
pub published_once :
    (b : Bus)
    → Reachable b
    → joined b.closing ≡ true
    → (b.taken ≡ b.accepted) × ((e : ℕ) → count e b.published ≡ count e b.accepted)
published_once b r h =
    let ok = Reachable-Accounted b r in
    let all = ok.gone h in
    let (w, at) = first_worker b.workers ok.size in
    let is_left : get_elem? b.workers 0 ≡ some left =
      at ∙ ap some (all_left-at b.workers 0 w all at) in
    let (_, empty) = ok.drained 0 is_left in
    let whole : b.taken ≡ b.accepted =
      sym (append-nil b.taken) ∙ ap (λ q. b.taken ++ q) (sym empty) ∙ ok.in_order in
    (
      whole,
      λ e.
          let none_carried = all_left-carries e b.workers all in
          let same : count e b.taken ≡ count e b.accepted = ap (count e) whole in
          omega (arith, ok.once e, none_carried, same),
    )
