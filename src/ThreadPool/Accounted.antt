-- ===== src/ThreadPool/Accounted.antt =====
-- What becomes of the tasks of a pool.
use quick_cmake.Prelude.{
  ℕ, zero, suc, ◌+◌, ◌≡◌, refl, sym, ap, ap₂, subst, ◌∙◌, Bool, true, false, Option, none, some,
  List, [], ◌∷◌, ◌++◌, append_assoc, map, get_elem?, set, replicate, if◌then◌else◌, ◌==◌, arith,
  Option-cases, List-cases, inl, inr,
}
use quick_cmake.ThreadPool.{
  Task, Place, at_test, at_lock, at_look, at_wait, waiting, woken, at_pop, at_unlock, at_invoke,
  finished, Pool, start, do_work, wake, pop, Reachable, begin, step,
}
use quick_cmake.ThreadPool.Actions.{
  becomes, Effect, worked, woke, pushes, told_nobody, stores, told_all, joins, act-Effect,
}

-- How often a task stands in a list.
unfoldable pub count : Task → List Task → ℕ
count t [] = 0
count t (x ∷ l) = (if t == x then 1 else 0) + count t l

-- Whether the worker has popped the task and not run it yet.
abbrev pub carries : Task → Place → ℕ
carries t (at_unlock (some x)) = if t == x then 1 else 0
carries t (at_invoke x) = if t == x then 1 else 0
carries t _ = 0

-- How many workers carry the task.
unfoldable pub carried : Task → List Place → ℕ
carried t [] = 0
carried t (w ∷ ws) = carries t w + carried t ws

-- The tasks were popped in the order of their push, and each that was popped has been run or is
-- carried, once for each time that it was pushed.
pub record Accounted (p : Pool) : Type 0 where
  pub in_order : p.popped ++ p.queue ≡ p.pushed
  pub once : (t : Task) → count t p.popped ≡ count t p.invoked + carried t p.workers

pub count-append : (t : Task) (a b : List Task) → count t (a ++ b) ≡ count t a + count t b
unfolding count
count-append t [] b = omega arith
count-append t (x ∷ a) b = ground (arith, count-append t a b)

carried-set :
    (t : Task) (ws : List Place) (i : ℕ) (v w : Place)
    → get_elem? ws i ≡ some v
    → carried t (set ws i w) + carries t v ≡ carried t ws + carries t w
unfolding carried
carried-set t [] i v w h = cc
carried-set t (x ∷ ws) zero v w h = let same : carries t x ≡ carries t v = cc in omega arith
carried-set t (x ∷ ws) (suc i) v w h = omega (arith, carried-set t ws i v w h)

-- A worker that moves and carries what it carried before.
moves :
    (p : Pool) (i : ℕ) (v w : Place) (holder : Option ℕ)
    → get_elem? p.workers i ≡ some v
    → ((t : Task) → carries t v ≡ carries t w)
    → Accounted p
    → Accounted (record p { holder = holder; workers = set p.workers i w })
moves p i v w holder at same ok = record {
  in_order = ok.in_order;
  once = λ t. omega (arith, ok.once t, carried-set t p.workers i v w at, same t);
}

count-one : (x t : Task) → count x (t ∷ []) ≡ (if x == t then 1 else 0)
unfolding count
count-one x t = omega arith

-- The pool behind a pop of `t` by worker `i`.
abbrev taken : Pool → ℕ → Task → List Task → Pool
taken p i t r = record p {
  queue = r;
  popped = p.popped ++ (t ∷ []);
  workers = set p.workers i (at_unlock (some t));
}

takes :
    (p : Pool) (i : ℕ) (t : Task) (r : List Task)
    → get_elem? p.workers i ≡ some at_pop
    → p.queue ≡ t ∷ r
    → Accounted p
    → Accounted (taken p i t r)
takes p i t r at more ok = record {
  in_order = append_assoc p.popped (t ∷ []) r ∙ ap (λ l. p.popped ++ l) (sym more) ∙ ok.in_order;
  once = λ x. omega (
    arith,
    ok.once x,
    carried-set x p.workers i at_pop (at_unlock (some t)) at,
    count-append x p.popped (t ∷ []),
    count-one x t,
  );
}

stays : (t : Task) (running : Bool) → 0 ≡ carries t (if running then at_lock else finished)
stays t true = refl
stays t false = refl

do_work-Accounted :
    (i : ℕ) (w : Place) (p q : Pool)
    → get_elem? p.workers i ≡ some w
    → Accounted p
    → do_work i w p ≡ some q
    → Accounted q
unfolding do_work pop
do_work-Accounted i at_test p q at h e =
    becomes Accounted _ q (moves p i at_test _ p.holder at (λ t. stays t p.running) h) e
do_work-Accounted i at_lock p q at h e = elim (Option-cases p.holder) [
  | inl free ↦
      let same : do_work i at_lock p
          ≡ some (record p { holder = (some i); workers = set p.workers i at_look }) =
        rw free refl in
      becomes Accounted _ q (moves p i at_lock at_look (some i) at (λ t. refl) h) (sym same ∙ e)
  | inr (j, busy) ↦ cc
]
do_work-Accounted i at_look p q at h e = elim (List-cases p.queue) [
  | inl empty ↦
      let same : do_work i at_look p
          ≡ some (record p { holder = p.holder; workers = set p.workers i at_wait }) =
        rw empty refl in
      becomes Accounted _ q (moves p i at_look at_wait p.holder at (λ t. refl) h) (sym same ∙ e)
  | inr (t, r, more) ↦
      let same : do_work i at_look p
          ≡ some (record p { holder = p.holder; workers = set p.workers i at_pop }) =
        rw more refl in
      becomes Accounted _ q (moves p i at_look at_pop p.holder at (λ t. refl) h) (sym same ∙ e)
]
do_work-Accounted i at_wait p q at h e =
    becomes Accounted _ q (moves p i at_wait waiting none at (λ t. refl) h) e
do_work-Accounted i waiting p q at h e = cc
do_work-Accounted i woken p q at h e = elim (Option-cases p.holder) [
  | inl free ↦
      let same : do_work i woken p
          ≡ some (record p { holder = (some i); workers = set p.workers i at_pop }) =
        rw free refl in
      becomes Accounted _ q (moves p i woken at_pop (some i) at (λ t. refl) h) (sym same ∙ e)
  | inr (j, busy) ↦ cc
]
do_work-Accounted i at_pop p q at h e = elim (List-cases p.queue) [
  | inl empty ↦
      let same : do_work i at_pop p
          ≡ some (record p { workers = set p.workers i (at_unlock none) }) =
        rw (empty, pop) refl in
      becomes Accounted _ q (moves p i at_pop (at_unlock none) p.holder at (λ t. refl) h)
        (sym same ∙ e)
  | inr (t, r, more) ↦
      let same : do_work i at_pop p ≡ some (taken p i t r) = rw (more, pop) refl in
      becomes Accounted _ q (takes p i t r at more h) (sym same ∙ e)
]
do_work-Accounted i (at_unlock none) p q at h e =
    becomes Accounted _ q (moves p i (at_unlock none) at_test none at (λ t. refl) h) e
do_work-Accounted i (at_unlock (some t)) p q at h e =
    becomes Accounted _ q (moves p i (at_unlock (some t)) (at_invoke t) none at (λ t. refl) h) e
do_work-Accounted i (at_invoke t) p q at h e =
    becomes Accounted _ q
      (record {
        in_order = h.in_order;
        once = λ x. omega (
          arith,
          h.once x,
          carried-set x p.workers i (at_invoke t) at_test at,
          count-append x p.invoked (t ∷ []),
          count-one x t,
        );
      })
      e
do_work-Accounted i finished p q at h e = cc

carried-wake : (t : Task) (ws : List Place) → carried t (map wake ws) ≡ carried t ws
unfolding carried
carried-wake t [] = refl
carried-wake t (w ∷ ws) = ap₂ (λ a b. a + b) (carries-wake t w) (carried-wake t ws)
  where
    carries-wake : (t : Task) (w : Place) → carries t (wake w) ≡ carries t w
    carries-wake t at_test = refl
    carries-wake t at_lock = refl
    carries-wake t at_look = refl
    carries-wake t at_wait = refl
    carries-wake t waiting = refl
    carries-wake t woken = refl
    carries-wake t at_pop = refl
    carries-wake t (at_unlock none) = refl
    carries-wake t (at_unlock (some x)) = refl
    carries-wake t (at_invoke x) = refl
    carries-wake t finished = refl

carried-start : (t : Task) (n : ℕ) → carried t (replicate n at_test) ≡ 0
unfolding carried
carried-start t zero = refl
carried-start t (suc n) = omega (arith, carried-start t n)

Effect-Accounted : {p q : Pool} → Accounted p → Effect p q → Accounted q
Effect-Accounted {p = p} {q = q} h (worked i w at e) = do_work-Accounted i w p q at h e
Effect-Accounted {p = p} {q = q} h (woke i n at e) =
    let m = moves p i waiting woken p.holder at (λ t. refl) h in
    subst Accounted e (record { in_order = m.in_order; once = m.once })
Effect-Accounted {p = p} h (pushes t c e) = subst Accounted e (record {
  in_order = sym (append_assoc p.popped p.queue (t ∷ [])) ∙ ap (λ l. l ++ (t ∷ [])) h.in_order;
  once = h.once;
})
Effect-Accounted h (told_nobody n e) =
    subst Accounted e (record { in_order = h.in_order; once = h.once })
Effect-Accounted h (stores c e) =
    subst Accounted e (record { in_order = h.in_order; once = h.once })
Effect-Accounted {p = p} h (told_all c e) = subst Accounted e (record {
  in_order = h.in_order;
  once = λ t. h.once t ∙ ap (λ n. count t p.invoked + n) (sym (carried-wake t p.workers));
})
Effect-Accounted h (joins e) = subst Accounted e (record { in_order = h.in_order; once = h.once })

-- In every reachable pool the tasks popped and those in the queue are those that were pushed, in
-- that order, and each task has been popped as often as it has been run or is carried by a worker
-- that will run it.
pub Reachable-Accounted : (n : ℕ) (p : Pool) → Reachable n p → Accounted p
unfolding start
Reachable-Accounted n p (begin e) =
    subst Accounted (sym e)
      (record { in_order = refl; once = λ t. omega (arith, carried-start t n) })
Reachable-Accounted n q (step {p = p} a r e) =
    Effect-Accounted (Reachable-Accounted n p r) (act-Effect a p q e)
