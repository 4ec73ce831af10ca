-- ===== src/ThreadPool/Locked.antt =====
-- The mutex of the pool: its holder is the one worker between lock and unlock.
use native.Mathlib.Decide.{ℕ_discrete}
use quick_cmake.Prelude.{
  ℕ, zero, suc, ◌≡◌, refl, sym, ap, subst, ◌∙◌, Bool, true, false, Option, none, some, List, [],
  ◌∷◌, map, get_elem?, set, replicate, ◌==◌, ==→eq, ==_refl, arith, Option-cases, List-cases, inl,
  inr,
}
use quick_cmake.ThreadPool.Actions.{
  get-set, becomes, Effect, worked, woke, pushes, told_nobody, stores, told_all, joins, act-Effect,
}
use quick_cmake.ThreadPool.{
  Place, at_test, at_lock, at_look, at_wait, waiting, woken, at_pop, at_unlock, at_invoke, finished,
  Pool, start, do_work, wake, Reachable, begin, step,
}

-- The places between the lock and the unlock of doWork.
abbrev pub holds : Place → Bool
holds at_look = true
holds at_wait = true
holds at_pop = true
holds (at_unlock o) = true
holds _ = false

abbrev holds? : Option Place → Bool
holds? none = false
holds? (some w) = holds w

abbrev is_holder : Option ℕ → ℕ → Bool
is_holder none i = false
is_holder (some j) i = i == j

-- The workers that hold the mutex are its holder.
pub Locked : Option ℕ → List Place → Type 0
Locked holder ws = (i : ℕ) → holds? (get_elem? ws i) ≡ is_holder holder i

module _ (holder : Option ℕ) (ws : List Place) (i : ℕ) (v w : Place) (at : get_elem? ws i ≡ some v)
    (h : Locked holder ws) where
  here : holds v ≡ is_holder holder i
  unfolding Locked
  here = rw at at (h i)

  move-kept : holds w ≡ holds v → Locked holder (set ws i w)
  unfolding Locked
  move-kept same j = elim (ℕ_discrete j i) [
    | yes e ↦ ground (arith, get-set ws i j w v at, h j, here)
    | no n ↦ ground (arith, get-set ws i j w v at, h j)
  ]

  move-lock : holder ≡ none → holds w ≡ true → Locked (some i) (set ws i w)
  unfolding Locked
  move-lock free held j =
      let others : holds? (get_elem? ws j) ≡ false = rw free at (h j) in
      ground (arith, get-set ws i j w v at)

  move-unlock : holds v ≡ true → holds w ≡ false → Locked none (set ws i w)
  unfolding Locked
  move-unlock held free j = elim (Option-cases holder) [
    | inl e ↦ let bad : true ≡ false = rw (e, held) at here in cc
    | inr (k, e) ↦
        let mine : (i == k) ≡ true = sym (rw (e, held) at here) in
        let theirs : holds? (get_elem? ws j) ≡ (j == k) = rw e at (h j) in
        elim (ℕ_discrete j i) [
          | yes same ↦ ground (arith, get-set ws i j w v at)
          | no other ↦ ground (arith, get-set ws i j w v at)
        ]
  ]

holds-wake : (w : Place) → holds (wake w) ≡ holds w
holds-wake at_test = refl
holds-wake at_lock = refl
holds-wake at_look = refl
holds-wake at_wait = refl
holds-wake waiting = refl
holds-wake woken = refl
holds-wake at_pop = refl
holds-wake (at_unlock o) = refl
holds-wake (at_invoke t) = refl
holds-wake finished = refl

get-wake : (ws : List Place) (i : ℕ) → holds? (get_elem? (map wake ws) i) ≡ holds? (get_elem? ws i)
get-wake [] i = refl
get-wake (w ∷ ws) zero = holds-wake w
get-wake (w ∷ ws) (suc i) = get-wake ws i

abbrev IsLocked : Pool → Type 0
IsLocked p = Locked p.holder p.workers

do_work-Locked :
    (i : ℕ) (w : Place) (p q : Pool)
    → get_elem? p.workers i ≡ some w
    → IsLocked p
    → do_work i w p ≡ some q
    → IsLocked q
unfolding do_work
do_work-Locked i at_test p q at h e =
    becomes IsLocked _ q (move-kept p.holder p.workers i at_test _ at h (ground arith)) e
do_work-Locked i at_lock p q at h e = elim (Option-cases p.holder) [
  | inl free ↦
      becomes IsLocked _ q (move-lock p.holder p.workers i at_lock at_look at h free refl)
        (rw free at e)
  | inr (j, busy) ↦ cc
]
do_work-Locked i at_look p q at h e = elim (List-cases p.queue) [
  | inl empty ↦
      becomes IsLocked _ q (move-kept p.holder p.workers i at_look at_wait at h refl)
        (rw empty at e)
  | inr (t, r, more) ↦
      becomes IsLocked _ q (move-kept p.holder p.workers i at_look at_pop at h refl) (rw more at e)
]
do_work-Locked i at_wait p q at h e =
    becomes IsLocked _ q (move-unlock p.holder p.workers i at_wait waiting at h refl refl) e
do_work-Locked i waiting p q at h e = cc
do_work-Locked i woken p q at h e = elim (Option-cases p.holder) [
  | inl free ↦
      becomes IsLocked _ q (move-lock p.holder p.workers i woken at_pop at h free refl)
        (rw free at e)
  | inr (j, busy) ↦ cc
]
do_work-Locked i at_pop p q at h e =
    becomes IsLocked _ q (move-kept p.holder p.workers i at_pop _ at h refl) e
do_work-Locked i (at_unlock none) p q at h e =
    becomes IsLocked _ q (move-unlock p.holder p.workers i (at_unlock none) at_test at h refl refl)
      e
do_work-Locked i (at_unlock (some t)) p q at h e =
    becomes IsLocked _ q
      (move-unlock p.holder p.workers i (at_unlock (some t)) (at_invoke t) at h refl refl) e
do_work-Locked i (at_invoke t) p q at h e =
    becomes IsLocked _ q (move-kept p.holder p.workers i (at_invoke t) at_test at h refl) e
do_work-Locked i finished p q at h e = cc

map-wake-Locked :
    (holder : Option ℕ) (ws : List Place) → Locked holder ws → Locked holder (map wake ws)
unfolding Locked
map-wake-Locked holder ws h i = get-wake ws i ∙ h i

start-Locked : (n i : ℕ) → holds? (get_elem? (replicate n at_test) i) ≡ false
start-Locked zero i = refl
start-Locked (suc n) zero = refl
start-Locked (suc n) (suc i) = start-Locked n i

Effect-Locked : {p q : Pool} → IsLocked p → Effect p q → IsLocked q
Effect-Locked {p = p} {q = q} h (worked i w at e) = do_work-Locked i w p q at h e
Effect-Locked {p = p} {q = q} h (woke i n at e) =
    subst IsLocked e (move-kept p.holder p.workers i waiting woken at h refl)
Effect-Locked h (pushes t c e) = subst IsLocked e h
Effect-Locked h (told_nobody n e) = subst IsLocked e h
Effect-Locked h (stores c e) = subst IsLocked e h
Effect-Locked {p = p} h (told_all c e) = subst IsLocked e (map-wake-Locked p.holder p.workers h)
Effect-Locked h (joins e) = subst IsLocked e h

pub Reachable-Locked : (n : ℕ) (p : Pool) → Reachable n p → Locked p.holder p.workers
unfolding start Locked
Reachable-Locked n p (begin e) = subst IsLocked (sym e) (start-Locked n)
Reachable-Locked n q (step {p = p} a r e) =
    Effect-Locked (Reachable-Locked n p r) (act-Effect a p q e)

-- In every reachable pool at most one worker is between the lock and the unlock of doWork.
pub one_holder :
    (n : ℕ) (p : Pool) (i j : ℕ) (v w : Place)
    → Reachable n p
    → get_elem? p.workers i ≡ some v
    → get_elem? p.workers j ≡ some w
    → holds v ≡ true
    → holds w ≡ true
    → i ≡ j
unfolding Locked
one_holder n p i j v w r at at' h h' =
    let locked = Reachable-Locked n p r in
    let first : true ≡ is_holder p.holder i = rw (at, h) at (locked i) in
    let second : true ≡ is_holder p.holder j = rw (at', h') at (locked j) in
    elim (Option-cases p.holder) [
      | inl free ↦ let bad : true ≡ false = rw free at first in cc
      | inr (k, e) ↦
          let a : true ≡ (i == k) = rw e at first in
          let b : true ≡ (j == k) = rw e at second in ==→eq i k (sym a) ∙ sym (==→eq j k (sym b))
    ]

pub holder_holds :
    (n : ℕ) (p : Pool) (j : ℕ)
    → Reachable n p
    → p.holder ≡ some j
    → (w : Place) × (get_elem? p.workers j ≡ some w) × (holds w ≡ true)
unfolding Locked
holder_holds n p j r e =
    let held : holds? (get_elem? p.workers j) ≡ true =
      Reachable-Locked n p r j ∙ ap (λ h. is_holder h j) e ∙ ==_refl j in
    elim (Option-cases (get_elem? p.workers j)) [
      | inl gone ↦ let bad : false ≡ true = rw gone at held in cc
      | inr (w, at) ↦ (w, at, rw at at held)
    ]
