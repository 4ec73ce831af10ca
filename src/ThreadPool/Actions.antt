-- ===== src/ThreadPool/Actions.antt =====
-- What an action of the pool that is possible does.
use mathlib.Core.Option.{some-injective, none-ne-some}
use quick_cmake.Prelude.{
  ℕ, zero, suc, ◌+◌, ◌≡◌, refl, ap, subst, ◌∙◌, true, false, Option, none, some, List, [], ◌∷◌,
  ◌++◌, map, get_elem?, set, if◌then◌else◌, ◌==◌, arith, Bool-cases, Option-cases, inl, inr, ◌⊎◌,
}
use quick_cmake.ThreadPool.{
  Place, at_test, at_lock, at_look, at_wait, waiting, woken, at_pop, at_unlock, at_invoke, finished,
  Pool, Action, work, wake_up, push, notify_one, store_false, notify_all, join, do_work, wake, act,
  is_waiting, is_finished, none_waiting, wake_at, told, then_do, Closing, opened, stored, notified,
}

pub get-set :
    (ws : List Place) (i j : ℕ) (w v : Place)
    → get_elem? ws i ≡ some v
    → get_elem? (set ws i w) j ≡ (if j == i then some w else get_elem? ws j)
get-set [] i j w v h = cc
get-set (x ∷ ws) zero zero w v h = ground arith
get-set (x ∷ ws) zero (suc j) w v h = ground arith
get-set (x ∷ ws) (suc i) zero w v h = ground arith
get-set (x ∷ ws) (suc i) (suc j) w v h = ground (arith, get-set ws i j w v h)

pub becomes : (P : Pool → Type 0) (r q : Pool) → P r → some r ≡ some q → P q
becomes P r q ok e = subst P (some-injective r q e) ok

waiting_of : (w : Place) → is_waiting w ≡ true → w ≡ waiting
waiting_of waiting h = refl
waiting_of at_test h = cc
waiting_of at_lock h = cc
waiting_of at_look h = cc
waiting_of at_wait h = cc
waiting_of woken h = cc
waiting_of at_pop h = cc
waiting_of (at_unlock o) h = cc
waiting_of (at_invoke t) h = cc
waiting_of finished h = cc

pub wake_at-inv :
    (i : ℕ) (p q : Pool)
    → wake_at i p ≡ some q
    → (get_elem? p.workers i ≡ some waiting) × (record p { workers = set p.workers i woken } ≡ q)
wake_at-inv i p q e = elim (Option-cases (get_elem? p.workers i)) [
  | inl gone ↦ absurd (none-ne-some q (rw (gone, wake_at) at e))
  | inr (w, at) ↦
      let e' : (if is_waiting w then some (record p { workers = set p.workers i woken }) else none)
          ≡ some q =
        rw (at, wake_at) at e in
      elim (Bool-cases (is_waiting w)) [
        | inl t ↦ (at ∙ ap some (waiting_of w t), some-injective _ q (rw t at e'))
        | inr f ↦ absurd (none-ne-some q (rw f at e'))
      ]
]

pub told-inv :
    (p q : Pool)
    → told p ≡ some q
    → (n : ℕ) × (p.unnotified ≡ suc n) × (record p { unnotified = n } ≡ q)
told-inv p q e = by_number p.unnotified refl e
  where
    by_number :
        (m : ℕ)
        → p.unnotified ≡ m
        → elim m [ zero ↦ none | suc n ↦ some (record p { unnotified = n }) ] ≡ some q
        → (n : ℕ) × (p.unnotified ≡ suc n) × (record p { unnotified = n } ≡ q)
    by_number zero h e = absurd (none-ne-some q e)
    by_number (suc n) h e = (n, h, some-injective _ q e)

pub then_do-inv :
    (o : Option Pool) (f : Pool → Option Pool) (q : Pool)
    → then_do o f ≡ some q
    → (p : Pool) × (o ≡ some p) × (f p ≡ some q)
then_do-inv none f q e = absurd (none-ne-some q e)
then_do-inv (some p) f q e = (p, refl, e)

pub Closing-cases : (c : Closing) → (c ≡ opened) ⊎ ((c ≡ stored) ⊎ (c ≡ notified))
Closing-cases opened = inl refl
Closing-cases stored = inr (inl refl)
Closing-cases notified = inr (inr refl)

-- What an action other than a worker's keeps, and what it may do to the workers.
pub data Effect (p q : Pool) : Type 0 where
  worked :
      (i : ℕ) (w : Place) → get_elem? p.workers i ≡ some w → do_work i w p ≡ some q → Effect p q
  woke :
      (i n : ℕ)
      → get_elem? p.workers i ≡ some waiting
      → record p { workers = set p.workers i woken; unnotified = n } ≡ q
      → Effect p q
  pushes :
      (t : ℕ)
      → p.closing ≡ opened
      → record p {
        queue = p.queue ++ (t ∷ []);
        pushed = p.pushed ++ (t ∷ []);
        unnotified = p.unnotified + 1;
      }
        ≡ q
      → Effect p q
  told_nobody : (n : ℕ) → record p { unnotified = n } ≡ q → Effect p q
  stores : p.closing ≡ opened → record p { running = false; closing = stored } ≡ q → Effect p q
  told_all :
      p.closing ≡ stored
      → record p { closing = notified; workers = map wake p.workers } ≡ q
      → Effect p q
  joins : record p { joined = p.joined + 1 } ≡ q → Effect p q

joined_one :
    (p q : Pool)
    → elim (get_elem? p.workers p.joined) [
      | none ↦ none
      | some w ↦ if is_finished w then some (record p { joined = p.joined + 1 }) else none
    ]
      ≡ some q
    → record p { joined = p.joined + 1 } ≡ q
joined_one p q e = by_place (get_elem? p.workers p.joined) e
  where
    next : Pool
    next = record p { joined = p.joined + 1 }

    by_place :
        (o : Option Place)
        → elim o [ none ↦ none | some w ↦ if is_finished w then some next else none ] ≡ some q
        → next ≡ q
    by_place none e = absurd (none-ne-some q e)
    by_place (some w) e = elim (Bool-cases (is_finished w)) [
      | inl t ↦ some-injective next q (rw t at e)
      | inr f ↦ absurd (none-ne-some q (rw f at e))
    ]

pub act-Effect : (a : Action) (p q : Pool) → act a p ≡ some q → Effect p q
unfolding act
act-Effect (work i) p q e = elim (Option-cases (get_elem? p.workers i)) [
  | inl gone ↦ absurd (none-ne-some q (rw (gone, act) at e))
  | inr (w, at) ↦ worked i w at (rw (at, act) at e)
]
act-Effect (wake_up i) p q e = let (at, same) = wake_at-inv i p q e in woke i p.unnotified at same
act-Effect (push t) p q e = elim (Closing-cases p.closing) [
  | inl c ↦ pushes t c (some-injective _ q (rw (c, act) at e))
  | inr (inl c) ↦ absurd (none-ne-some q (rw (c, act) at e))
  | inr (inr c) ↦ absurd (none-ne-some q (rw (c, act) at e))
]
act-Effect (notify_one none) p q e = elim (Bool-cases (none_waiting p.workers)) [
  | inl c ↦ let (n, _, same) = told-inv p q (rw (c, act) at e) in told_nobody n same
  | inr c ↦ absurd (none-ne-some q (rw (c, act) at e))
]
act-Effect (notify_one (some i)) p q e =
    let (r, tell, wakes) = then_do-inv (told p) (wake_at i) q e in
    let (n, _, same) = told-inv p r tell in
    let (at, same') = wake_at-inv i r q wakes in
    woke i n (ap (λ z. get_elem? z.workers i) same ∙ at)
      (ap (λ (z : Pool). record z { workers = set z.workers i woken }) same ∙ same')
act-Effect store_false p q e = elim (Closing-cases p.closing) [
  | inl c ↦ stores c (some-injective _ q (rw (c, act) at e))
  | inr (inl c) ↦ absurd (none-ne-some q (rw (c, act) at e))
  | inr (inr c) ↦ absurd (none-ne-some q (rw (c, act) at e))
]
act-Effect notify_all p q e = elim (Closing-cases p.closing) [
  | inl c ↦ absurd (none-ne-some q (rw (c, act) at e))
  | inr (inl c) ↦ told_all c (some-injective _ q (rw (c, act) at e))
  | inr (inr c) ↦ absurd (none-ne-some q (rw (c, act) at e))
]
act-Effect join p q e = elim (Closing-cases p.closing) [
  | inl c ↦ absurd (none-ne-some q (rw (c, act) at e))
  | inr (inl c) ↦ absurd (none-ne-some q (rw (c, act) at e))
  | inr (inr c) ↦ joins (joined_one p q (rw (c, act) at e))
]
