-- ===== src/Heap.antt =====
-- include/skutils/containers/heap.h: Heap, over any type, its comparison and its value ValueType{}.
pub mod Order
pub mod Down
pub mod Sort
pub mod Up
mod Tests
use quick_cmake.Prelude.{
  ℕ, zero, suc, ◌+◌, ◌*◌, ◌-◌, ◌/◌, ◌≤◌, ◌<◌, ◌≡◌, Bool, true, false, Option, none, some, List, [],
  refl, ◌∷◌, ◌++◌, ltb, leb, if◌then◌else◌, length, get_elem?, set, take, drop, replicate, exchange,
  get_or, get_elem?-get_or,
}
use quick_cmake.Outcome.{Outcome, value, thrown, undefined, out_of_fuel, out_of_range, ◌>>=◌}

pub record Heap (A : Type 0) : Type 0 where
  pub data_ : List A
  pub elem_nums : ℕ

module _ {A : Type 0} where
  found : Option A → Outcome A
  found (some a) = value a
  found none = undefined

  -- data[i]
  unfoldable pub load : List A → ℕ → Outcome A
  unfolding found
  load d i = found (get_elem? d i)

  -- std::swap(data[i], data[j])
  unfoldable pub swap : List A → ℕ → ℕ → Outcome (List A)
  swap d i j = do x ← load d i; y ← load d j; value (set (set d i y) j x)

  unfoldable pub empty : Heap A → Bool
  empty h = leb h.elem_nums 0

  unfoldable pub size : Heap A → ℕ
  size h = h.elem_nums

  unfoldable pub top : Heap A → Outcome A
  top h = if leb 1 h.elem_nums then load h.data_ 1 else thrown out_of_range

module _ {A : Type 0} (comp : A → A → Bool) where
  -- The child of k that adjustDown compares with: the right one is read only if it is there.
  unfoldable pub child : ℕ → List A → ℕ → Outcome ℕ
  child n d k =
      let j = 2 * k in
      if ltb j n
      then (do l ← load d j; r ← load d (j + 1); value (if comp l r then j + 1 else j))
      else value j

  unfoldable pub down_loop : ℕ → ℕ → List A → ℕ → Outcome (List A)
  down_loop zero n d k = out_of_fuel
  down_loop (suc fuel) n d k =
      let step : Outcome (List A) = do
        j ← child n d k
        parent ← load d k
        below ← load d j
        let sink = swap d k j >>= λ e. down_loop fuel n e j
        if comp parent below then sink else value d
      in if leb (2 * k) n then step else value d

  unfoldable pub adjust_down : ℕ → List A → ℕ → Outcome (List A)
  adjust_down n d k = down_loop (n + 1) n d k

  unfoldable pub up_loop : ℕ → List A → ℕ → Outcome (List A)
  up_loop zero d k = out_of_fuel
  up_loop (suc fuel) d k =
      let step : Outcome (List A) = do
        x ← load d k
        parent ← load d (k / 2)
        let rise = swap d k (k / 2) >>= λ e. up_loop fuel e (k / 2)
        if comp x parent then rise else value d
      in if ltb 1 k then step else value d

  unfoldable pub adjust_up : List A → ℕ → Outcome (List A)
  adjust_up d k = up_loop (k + 1) d k

  -- The loop of buildHeap, from i down to 1.
  unfoldable pub build_heap : ℕ → ℕ → List A → Outcome (List A)
  build_heap n zero d = value d
  build_heap n (suc i) d = adjust_down n d (suc i) >>= build_heap n i

module _ {A : Type 0} (blank : A) where
  unfoldable pub empty_heap : Heap A
  empty_heap = record { data_ = blank ∷ []; elem_nums = 0 }

  -- std::vector::resize
  unfoldable pub resize : List A → ℕ → List A
  resize d n = take n d ++ replicate (n - length d) blank

module _ {A : Type 0} (comp : A → A → Bool) (blank : A) where
  unfoldable pub heap_of : List A → Outcome (Heap A)
  heap_of vals =
      let n = length vals in
      build_heap comp n (n / 2) (blank ∷ vals) >>= λ d. value (record { data_ = d; elem_nums = n })

  unfoldable pub pop : Heap A → Outcome (Heap A)
  pop h =
      let n = h.elem_nums in
      let sunk : Outcome (Heap A) = do
        d ← swap h.data_ 1 n
        e ← adjust_down comp (n - 1) d 1
        value (record { data_ = e; elem_nums = n - 1 })
      in if ltb 0 n then sunk else value h

  unfoldable pub push : Heap A → A → Outcome (Heap A)
  push h val =
      let n = h.elem_nums + 1 in
      adjust_up comp (set (resize blank h.data_ (n + 1)) n val) n >>= λ d.
      value (record { data_ = d; elem_nums = n })

  -- Calls of push, one for each value.
  unfoldable pub push_all : Heap A → List A → Outcome (Heap A)
  push_all h [] = value h
  push_all h (x ∷ xs) = push h x >>= λ g. push_all g xs

  unfoldable pub sort_loop : ℕ → Heap A → List A → Outcome (List A)
  sort_loop zero h ret = out_of_fuel
  sort_loop (suc fuel) h ret =
      let step : Outcome (List A) = do x ← top h; rest ← pop h; sort_loop fuel rest (ret ++ x ∷ [])
      in if empty h then value ret else step

  unfoldable pub sort : List A → Outcome (List A)
  sort vc = heap_of vc >>= λ h. sort_loop (length vc + 1) h []

module _ {A : Type 0} where
  pub load-value :
      (d : List A) (i : ℕ) (blank : A) → i < length d → load d i ≡ value (get_or d i blank)
  unfolding load found
  load-value d i blank h = rw (get_elem?-get_or d i blank h) refl

  pub swap-value :
      (d : List A) (i j : ℕ) (blank : A)
      → i < length d
      → j < length d
      → swap d i j ≡ value (exchange blank d i j)
  unfolding swap exchange
  swap-value d i j blank hi hj = rw (load-value d i blank hi, load-value d j blank hj) refl
