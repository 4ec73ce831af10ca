-- ===== src/TopK.antt =====
-- include/skutils/containers/topk_queue.h. std::priority_queue is a list with its top in front, in
-- an order that its comparison allows. The spin lock makes push and pop atomic.
pub mod Order
pub mod Kept
pub mod Largest
pub mod Both
mod Tests
use quick_cmake.Prelude.{
  ℕ, ◌≡◌, Bool, true, false, not, ◌&&◌, List, [], ◌∷◌, length, reverse, ltb, if◌then◌else◌,
}
use quick_cmake.Outcome.{Outcome, value, undefined, ◌>>=◌}

abbrev pub Less : Type 0 → Type 0
Less A = A → A → Bool

module _ {A : Type 0} where
  pub reversed : Less A → Less A
  reversed cmp a b = not (cmp a b) && not (not (cmp a b) && not (cmp b a))

  -- std::priority_queue::push: `comp a b` puts `a` behind `b`.
  unfoldable pub pq_push : Less A → A → List A → List A
  pq_push comp x [] = x ∷ []
  pq_push comp x (y ∷ r) = if comp y x then x ∷ y ∷ r else y ∷ pq_push comp x r

-- std::priority_queue::pop
abbrev pub pq_pop : {A : Type 0} → List A → List A
pq_pop [] = []
pq_pop (x ∷ r) = r

pub record TopK (A : Type 0) : Type 0 where
  pub cap : ℕ
  pub pq : List A

module _ {A : Type 0} (cmp : Less A) where
  -- top() of an empty priority queue is undefined.
  pub push : A → TopK A → Outcome (TopK A)
  unfolding reversed
  push val q =
      let with_val = pq_push (reversed cmp) val q.pq in
      if ltb (length q.pq) q.cap then value (record q { pq = with_val }) else (elim q.pq [
        | [] ↦ undefined
        | top ∷ _ ↦
            if reversed cmp val top then value (record q { pq = pq_pop with_val }) else value q
      ])

  -- The loop of pop: each top is added to the end of the result.
  abbrev pub pop_loop : List A → List A
  pop_loop [] = []
  pop_loop (top ∷ rest) = top ∷ pop_loop rest

  pub pop : TopK A → List A × TopK A
  pop q = (reverse (pop_loop q.pq), record q { pq = [] })

-- Both ends: the queue of the largest and that of the smallest.
pub record TopBottomK (A : Type 0) : Type 0 where
  pub max_queue : TopK A
  pub min_queue : TopK A

module _ {A : Type 0} (cmp : Less A) where
  pub push_both : A → TopBottomK A → Outcome (TopBottomK A)
  unfolding push
  push_both val q = do
    high ← push cmp val q.max_queue
    low ← push (reversed cmp) val q.min_queue
    value (record { max_queue = high; min_queue = low })

  pub pop_top : TopBottomK A → List A × TopBottomK A
  unfolding pop
  pop_top q = let (l, r) = pop cmp q.max_queue in (l, record q { max_queue = r })

  pub pop_bottom : TopBottomK A → List A × TopBottomK A
  unfolding pop
  pop_bottom q = let (l, r) = pop (reversed cmp) q.min_queue in (l, record q { min_queue = r })
