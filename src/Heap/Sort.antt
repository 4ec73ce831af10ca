-- ===== src/Heap/Sort.antt =====
-- The constructor from a vector, pop and sort.
use native.Mathlib.Bridge.{le_prop}
use native.Mathlib.Decide.{ℕ_discrete}
use mathlib.Core.List.{Mem, Pairwise, perm_middle, mem-cons_of_mem}
use mathlib.Core.List.Perm
use quick_cmake.Prelude.{
  ℕ, zero, suc, ◌+◌, ◌-◌, ◌/◌, ◌≤◌, ◌<◌, ◌≡◌, refl, sym, ◌∙◌, Bool, true, false, List, [], ◌∷◌,
  ◌++◌, Perm, ltb, leb, length, take, drop, get_or, exchange, get_or-exchange, length-exchange,
  exchange-perm, take-exchange, take-last, take-length, get_or-take, length-take, holds-mem,
  append-nil, append_assoc, arith,
}
use quick_cmake.Outcome.{Returns, gives, Returns-bind, Returns-map, Returns-if}
use quick_cmake.Heap.{Heap, top, empty, pop, heap_of, sort_loop, sort, load-value, swap-value}
use quick_cmake.Heap.Order.{at, IsOrdered, Sifted, root_least}
use quick_cmake.Heap.Down.{adjust_down_restores, build_heap_orders}

module _ {A : Type 0} where
  -- data[1] to data[n], which toString prints.
  abbrev pub values : ℕ → List A → List A
  values n d = drop 1 (take (suc n) d)

  values-none : (d : List A) → values 0 d ≡ []
  values-none [] = refl
  values-none (x ∷ d) = refl

  pub values-perm :
      (n : ℕ) (d e : List A) (blank : A)
      → 0 < length d
      → length e ≡ length d
      → get_or e 0 blank ≡ get_or d 0 blank
      → Perm (take (suc n) e) (take (suc n) d)
      → Perm (values n e) (values n d)
  values-perm n [] e blank p s f h = absurd (omega arith)
  values-perm n (x ∷ d) [] blank p s f h = absurd (omega arith)
  values-perm n (x ∷ d) (y ∷ e) blank p s f h = Perm.cons_inv (rw f at h)

  values-minus :
      (n : ℕ) (d e : List A) (x blank : A)
      → 0 < length d
      → length e ≡ length d
      → get_or e 0 blank ≡ get_or d 0 blank
      → Perm (x ∷ take (suc n) e) (take (suc (suc n)) d)
      → Perm (x ∷ values n e) (values (suc n) d)
  values-minus n [] e x blank p s f h = absurd (omega arith)
  values-minus n (z ∷ d) [] x blank p s f h = absurd (omega arith)
  values-minus n (z ∷ d) (y ∷ e) x blank p s f h =
      Perm.cons_inv (Perm.trans (Perm.swap x z _) (rw f at h))

module _ {A : Type 0} (key : A → ℕ) (blank : A) where
  pub record IsHeap (h : Heap A) : Type 0 where
    pub room : h.elem_nums < length h.data_
    pub ordered : IsOrdered key blank 1 h.elem_nums h.data_

  abbrev pub held : Heap A → List A
  held h = values h.elem_nums h.data_

  get_or-values :
      (n : ℕ) (d : List A) (i : ℕ) → i < n → get_or (values n d) i blank ≡ get_or d (suc i) blank
  get_or-values n [] i h = refl
  get_or-values n (x ∷ d) i h = ground (arith, get_or-take n d i blank)

  length-values : (n : ℕ) (d : List A) → n < length d → length (values n d) ≡ n
  length-values n [] h = absurd (omega arith)
  length-values n (x ∷ d) h = omega (arith, length-take n d)

  -- data[1] has the least key of the values that a heap holds.
  top_least : (h : Heap A) → IsHeap h → (t : A) → Mem t (held h) → at key blank h.data_ 1 ≤ key t
  top_least h v =
      holds-mem (λ t. at key blank h.data_ 1 ≤ key t) (held h) blank (λ t. le_prop)
        λ i p.
          let inside : i < h.elem_nums = omega (arith, length-values h.elem_nums h.data_ v.room) in
          rw (get_or-values h.elem_nums h.data_ i inside)
            (root_least key blank h.elem_nums h.data_ (suc i) v.ordered (omega arith) (omega arith))

  -- What pop leaves: a heap of all values but data[1].
  pub record Popped (h r : Heap A) : Type 0 where
    pub valid : IsHeap r
    pub fewer : suc r.elem_nums ≡ h.elem_nums
    pub same : Perm (get_or h.data_ 1 blank ∷ held r) (held h)

  -- Without data[n], which the exchange fills with data[1], a heap of n values keeps the others.
  shrunk-perm :
      (n : ℕ) (d e : List A)
      → 1 ≤ n
      → n < length d
      → Sifted key blank 1 (n - 1) (exchange blank d 1 n) e
      → Perm (get_or d 1 blank ∷ values (n - 1) e) (values n d)
  shrunk-perm zero d e pos room s = absurd (omega arith)
  shrunk-perm (suc m) d e pos room s =
      let size = length-exchange blank d 1 (suc m) in
      let after = get_or-exchange blank d 1 (suc m) (omega arith) room in
      let m' : suc m - 1 ≡ m = omega arith in
      let last = take-last (suc m) (exchange blank d 1 (suc m)) blank (omega (arith, size)) in
      let moved : get_or (exchange blank d 1 (suc m)) (suc m) blank ≡ get_or d 1 blank =
        ground (arith, after (suc m)) in
      let whole : Perm (take (suc (suc m)) (exchange blank d 1 (suc m))) (take (suc (suc m)) d) =
        rw (take-exchange blank (suc (suc m)) d 1 (suc m) (omega arith) (omega arith)) (
          exchange-perm blank (take (suc (suc m)) d) 1 (suc m)
            (omega (arith, length-take (suc (suc m)) d))
            (omega (arith, length-take (suc (suc m)) d))) in
      let kept : Perm (take (suc m) e) (take (suc m) (exchange blank d 1 (suc m))) =
        rw m' at s.same in
      let split : Perm (take (suc m) (exchange blank d 1 (suc m)) ++ get_or d 1 blank ∷ [])
          (take (suc (suc m)) d) =
        rw (last, moved) at whole in
      let back =
        rw (append-nil (take (suc m) (exchange blank d 1 (suc m)))) at
          (perm_middle {a = get_or d 1 blank} (take (suc m) (exchange blank d 1 (suc m))) []) in
      rw m' (
        values-minus m d e (get_or d 1 blank) blank (omega arith) (s.size ∙ size)
          (s.front ∙ ground (arith, after 0))
          (Perm.trans (Perm.cons _ kept) (Perm.trans (Perm.symm back) split)))

  module _ (comp : A → A → Bool) (by_key : (a b : A) → comp a b ≡ ltb (key b) (key a)) where
    -- pop on a heap that is not empty removes data[1], which has the least key.
    pop_correct : (h : Heap A) → IsHeap h → 0 < h.elem_nums → Returns (Popped h) (pop comp blank h)
    unfolding pop
    pop_correct h v p =
        let n = h.elem_nums in
        let d = h.data_ in
        let size = length-exchange blank d 1 n in
        let after = get_or-exchange blank d 1 n (omega (arith, v.room)) v.room in
        Returns-if (ltb 0 n)
          (λ _. rw (swap-value d 1 n blank (omega (arith, v.room)) v.room) (
            Returns-bind
              (adjust_down_restores key blank comp by_key 1 (n - 1) (exchange blank d 1 n) 1
                (omega arith) (omega (arith, v.room))
                (record {
                  edges = λ c p q r s. ground (arith, v.ordered c, after c, after (c / 2));
                  bridged = λ c p q r s t. absurd (omega arith);
                }))
              λ e s. gives (record {
                valid = record { room = omega (arith, s.size, v.room); ordered = s.ordered };
                fewer = omega arith;
                same = shrunk-perm n d e p v.room s;
              })))
          (λ e. absurd (ground arith))

    -- The loop of sort appends the values of the heap in the order of their keys.
    abbrev Drained : Heap A → List A → List A → Type 0
    Drained h ret r =
        (rest : List A) × (r ≡ ret ++ rest)
        × Pairwise (λ s t. key s ≤ key t) rest
        × Perm rest (held h)

    sort_loop_sorts :
        (fuel : ℕ) (h : Heap A) (ret : List A)
        → h.elem_nums < fuel
        → IsHeap h
        → Returns (Drained h ret) (sort_loop comp blank fuel h ret)
    unfolding sort_loop empty top
    sort_loop_sorts zero h ret f v = absurd (omega arith)
    sort_loop_sorts (suc fuel) h ret f v = elim (ℕ_discrete h.elem_nums 0) [
      | yes e ↦
          let none_left : leb h.elem_nums 0 ≡ true = ground arith in
          rw none_left
            (gives ([], sym (append-nil ret), Pairwise.nil, rw (e, values-none h.data_) Perm.nil))
      | no e ↦
          let some_left : leb h.elem_nums 0 ≡ false = ground arith in
          let one : leb 1 h.elem_nums ≡ true = ground arith in
          let t = get_or h.data_ 1 blank in
          rw (some_left, one, load-value h.data_ 1 blank (omega (arith, v.room)))
            (Returns-bind (pop_correct h v (omega arith)) λ rest s.
              Returns-map
                (sort_loop_sorts fuel rest (ret ++ t ∷ []) (omega (arith, s.fewer)) s.valid)
                λ r (later, appended, sorted, perm).
                  let same = Perm.trans (Perm.cons t perm) s.same in
                  (
                    t ∷ later,
                    appended ∙ append_assoc ret (t ∷ []) later,
                    Pairwise.cons
                        (λ u m. top_least h v u ((Perm.mem_iff same).0 (mem-cons_of_mem t m)))
                        sorted,
                    same,
                  ))
    ]

    heap_of_correct :
        (vals : List A)
        → Returns
            (λ h. IsHeap h × (h.elem_nums ≡ length vals) × Perm (held h) vals)
            (heap_of comp blank vals)
    unfolding heap_of
    heap_of_correct vals =
        Returns-bind
          (build_heap_orders key blank comp by_key (length vals) (length vals / 2) (blank ∷ vals)
            (omega arith) (λ c p q r. absurd (omega arith)))
          λ d s. gives (
            record { room = omega (arith, s.size); ordered = s.ordered },
            refl,
            rw take-length at (
                values-perm (length vals) (blank ∷ vals) d blank (omega arith) s.size s.front
                  s.same),
          )

    -- If the comparison is that of std::greater on keys, sort returns the values of the vector in
    -- the order of their keys, from the least on.
    pub sort_correct :
        (vc : List A)
        → Returns (λ r. Pairwise (λ s t. key s ≤ key t) r × Perm r vc) (sort comp blank vc)
    unfolding sort
    sort_correct vc = Returns-bind (heap_of_correct vc) λ h (v, n, p).
        Returns-map (sort_loop_sorts (length vc + 1) h [] (omega arith) v)
          λ r (rest, e, sorted, q). rw e (sorted, Perm.trans q p)
