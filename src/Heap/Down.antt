-- ===== src/Heap/Down.antt =====
-- adjustDown and buildHeap restore the heap order.
use mathlib.Core.List.Perm
use quick_cmake.Prelude.{
  ℕ, zero, suc, ◌+◌, ◌-◌, ◌*◌, ◌/◌, ◌≤◌, ◌<◌, ◌≡◌, refl, ◌≢◌, ◌⊎◌, inl, Bool, List, ltb, leb,
  length, get_or, exchange, get_or-exchange, length-exchange, arith, ◌∙◌,
}
use quick_cmake.Outcome.{Returns, gives, Returns-bind, Returns-map, Returns-if}
use quick_cmake.Heap.{child, down_loop, adjust_down, build_heap, load-value, swap-value}
use quick_cmake.Heap.Order.{at, IsOrdered, Sifted, Sifted-exchange}

module _ {A : Type 0} (key : A → ℕ) (blank : A) where
  -- Only the edges below k may be out of order.
  pub record DownInv (lo n : ℕ) (d : List A) (k : ℕ) : Type 0 where
    pub edges :
        (c : ℕ) → 2 ≤ c → c ≤ n → lo ≤ c / 2 → c / 2 ≢ k → at key blank d (c / 2) ≤ at key blank d c
    pub bridged :
        (c : ℕ)
        → 2 ≤ c
        → c ≤ n
        → c / 2 ≡ k
        → 2 ≤ k
        → lo ≤ k / 2
        → at key blank d (k / 2) ≤ at key blank d c

  -- m is the child of k with the lesser key.
  record IsLesserChild (n : ℕ) (d : List A) (k m : ℕ) : Type 0 where
    inside : m ≤ n
    below : (m ≡ 2 * k) ⊎ (m ≡ 2 * k + 1)
    least : (c : ℕ) → 2 ≤ c → c ≤ n → c / 2 ≡ k → at key blank d m ≤ at key blank d c

  exchange-DownInv :
      (lo n : ℕ) (d : List A) (k m : ℕ)
      → n < length d
      → 1 ≤ k
      → DownInv lo n d k
      → IsLesserChild n d k m
      → at key blank d m < at key blank d k
      → DownInv lo n (exchange blank d k m) m
  exchange-DownInv lo n d k m room pos v s lt =
      let after = get_or-exchange blank d k m (omega (arith, s.inside)) (omega (arith, s.inside)) in
      record {
        edges =
            λ c p q r t. ground (arith, after c, after (c / 2), v.edges c, v.bridged m, s.least c);
        bridged = λ c p q r t u. ground (arith, after c, after (m / 2), v.edges c);
      }

  module _ (comp : A → A → Bool) (by_key : (a b : A) → comp a b ≡ ltb (key b) (key a)) where
    child-IsLesserChild :
        (n : ℕ) (d : List A) (k : ℕ)
        → 1 ≤ k
        → 2 * k ≤ n
        → n < length d
        → Returns (IsLesserChild n d k) (child comp n d k)
    unfolding child
    child-IsLesserChild n d k pos h room =
        Returns-if (ltb (2 * k) n)
          (λ e.
            rw
              (
                load-value d (2 * k) blank (omega arith),
                load-value d (2 * k + 1) blank (ground arith),
              )
              (rw (by_key (get_or d (2 * k) blank) (get_or d (2 * k + 1) blank)) (
                gives record {
                  inside = ground arith;
                  below = grind arith;
                  least = λ c p q r. ground arith;
                })))
          (λ e. gives record { inside = h; below = inl refl; least = λ c p q r. ground arith })

    down_loop_restores :
        (fuel lo n : ℕ) (d : List A) (k : ℕ)
        → n - k < fuel
        → 1 ≤ k
        → n < length d
        → DownInv lo n d k
        → Returns (Sifted key blank lo n d) (down_loop comp fuel n d k)
    unfolding down_loop
    down_loop_restores zero lo n d k f pos room v = absurd (omega arith)
    down_loop_restores (suc fuel) lo n d k f pos room v =
        Returns-if (leb (2 * k) n)
          (λ e. Returns-bind (child-IsLesserChild n d k pos (ground arith) room) λ m s.
            let hk : k ≤ n = ground arith in
            let hm : m ≤ n = s.inside in
            rw (load-value d k blank (omega arith), load-value d m blank (omega arith))
              (rw (by_key (get_or d k blank) (get_or d m blank)) (
                Returns-if (ltb (at key blank d m) (at key blank d k))
                  (λ lt. rw (swap-value d k m blank (omega arith) (omega arith)) (
                    Sifted-exchange key blank room pos (omega (arith, s.below)) hk hm (
                      down_loop_restores fuel lo n (exchange blank d k m) m (omega (arith, s.below))
                        (omega (arith, s.below)) (omega (arith, length-exchange blank d k m))
                        (exchange-DownInv lo n d k m room pos v s (ground arith)))))
                  (λ settled. gives (record {
                    ordered = λ c p q r. ground (arith, v.edges c, s.least c);
                    same = Perm.rfl;
                    size = refl;
                    front = refl;
                  })))))
          (λ e. gives (record {
            ordered = λ c p q r. ground (arith, v.edges c);
            same = Perm.rfl;
            size = refl;
            front = refl;
          }))

    -- adjustDown restores the order where only the edges below k may be out of order.
    pub adjust_down_restores :
        (lo n : ℕ) (d : List A) (k : ℕ)
        → 1 ≤ k
        → n < length d
        → DownInv lo n d k
        → Returns (Sifted key blank lo n d) (adjust_down comp n d k)
    unfolding adjust_down
    adjust_down_restores lo n d k pos room v =
        down_loop_restores (n + 1) lo n d k (omega arith) pos room v

    -- Each round of buildHeap extends the ordered part by one parent.
    pub build_heap_orders :
        (n i : ℕ) (d : List A)
        → n < length d
        → IsOrdered key blank (suc i) n d
        → Returns (Sifted key blank 1 n d) (build_heap comp n i d)
    unfolding build_heap
    build_heap_orders n zero d room h =
        gives (record { ordered = h; same = Perm.rfl; size = refl; front = refl })
    build_heap_orders n (suc i) d room h =
        Returns-bind
          (adjust_down_restores (suc i) n d (suc i) (omega arith) room (record {
            edges = λ c p q r t. h c p q (omega arith);
            bridged = λ c p q r t u. absurd (omega arith);
          }))
          λ e s. Returns-map (build_heap_orders n i e (omega (arith, s.size)) s.ordered) λ f t.
            record {
              ordered = t.ordered;
              same = Perm.trans t.same s.same;
              size = t.size ∙ s.size;
              front = t.front ∙ s.front;
            }
