-- ===== src/ThreadPool/Progress.antt =====
-- The mutex of the pool never stops all the workers.
use quick_cmake.Prelude.{
  ℕ, ◌≡◌, refl, ◌∙◌, Bool, true, false, ◌||◌, none, some, get_elem?, Option-cases, List-cases, inl,
  inr,
}
use quick_cmake.ThreadPool.{
  Place, at_test, at_lock, at_look, at_wait, waiting, woken, at_pop, at_unlock, at_invoke, finished,
  Pool, do_work, pop, act, work, is_waiting, is_finished, Reachable,
}
use quick_cmake.ThreadPool.Locked.{holds, holder_holds}

-- Whether worker `i` can take its next action now.
unfoldable pub can_work : ℕ → Pool → Bool
can_work i p = elim (act (work i) p) [ none ↦ false | some q ↦ true ]

-- What worker `i` does is what its place says.
can_work-at :
    (i : ℕ) (p : Pool) (w : Place)
    → get_elem? p.workers i ≡ some w
    → can_work i p ≡ elim (do_work i w p) [ none ↦ false | some q ↦ true ]
unfolding can_work act
can_work-at i p w at = rw (at, can_work, act) refl

holding_works :
    (i : ℕ) (p : Pool) (w : Place)
    → get_elem? p.workers i ≡ some w
    → holds w ≡ true
    → can_work i p ≡ true
unfolding do_work pop
holding_works i p at_look at h = can_work-at i p at_look at ∙ elim (List-cases p.queue) [
  | inl e ↦ rw (e, do_work) refl
  | inr (t, r, e) ↦ rw (e, do_work) refl
]
holding_works i p at_wait at h = can_work-at i p at_wait at
holding_works i p at_pop at h = can_work-at i p at_pop at
holding_works i p (at_unlock none) at h = can_work-at i p (at_unlock none) at
holding_works i p (at_unlock (some t)) at h = can_work-at i p (at_unlock (some t)) at
holding_works i p at_test at h = cc
holding_works i p at_lock at h = cc
holding_works i p waiting at h = cc
holding_works i p woken at h = cc
holding_works i p (at_invoke t) at h = cc
holding_works i p finished at h = cc

free_works :
    (i : ℕ) (p : Pool) (w : Place)
    → get_elem? p.workers i ≡ some w
    → p.holder ≡ none
    → is_waiting w || is_finished w ≡ false
    → can_work i p ≡ true
unfolding do_work
free_works i p at_test at free h = can_work-at i p at_test at
free_works i p at_lock at free h = can_work-at i p at_lock at ∙ rw (free, do_work) refl
free_works i p at_look at free h = holding_works i p at_look at refl
free_works i p at_wait at free h = can_work-at i p at_wait at
free_works i p waiting at free h = cc
free_works i p woken at free h = can_work-at i p woken at ∙ rw (free, do_work) refl
free_works i p at_pop at free h = can_work-at i p at_pop at
free_works i p (at_unlock o) at free h = holding_works i p (at_unlock o) at refl
free_works i p (at_invoke t) at free h = can_work-at i p (at_invoke t) at
free_works i p finished at free h = cc

-- In every reachable pool in which some worker neither waits for a notification nor has left
-- doWork, some worker can take its next action: the mutex alone never stops all of them.
pub some_worker_moves :
    (n : ℕ) (p : Pool) (i : ℕ) (w : Place)
    → Reachable n p
    → get_elem? p.workers i ≡ some w
    → is_waiting w || is_finished w ≡ false
    → (j : ℕ) × (can_work j p ≡ true)
some_worker_moves n p i w r at h = elim (Option-cases p.holder) [
  | inl free ↦ (i, free_works i p w at free h)
  | inr (j, e) ↦ let (v, at', held) = holder_holds n p j r e in (j, holding_works j p v at' held)
]
