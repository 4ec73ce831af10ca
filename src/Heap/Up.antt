-- ===== src/Heap/Up.antt =====
-- push and its adjustUp, whose comparison is the other way round than adjustDown's.
use native.Mathlib.Bridge.{le_prop}
use mathlib.Core.List.{Mem}
use mathlib.Core.List.Perm
use quick_cmake.Prelude.{
  ℕ, zero, suc, ◌+◌, ◌-◌, ◌/◌, ◌≤◌, ◌<◌, ◌≡◌, refl, ◌≢◌, ◌∙◌, Bool, true, List, [], ◌∷◌, ◌++◌,
  append-nil, append_assoc, ap, get_or-mem, holds-mem, length-perm, Perm, ltb, leb, length, set,
  get_or, exchange, exchange-perm, get_or-exchange, length-exchange, get_or-append, length-append,
  arith, take-all, set-append,
}
use quick_cmake.Outcome.{◌>>=◌, Returns, gives, Returns-bind, Returns-map, Returns-if}
use quick_cmake.Heap.{
  Heap, push_all, up_loop, adjust_up, top, push, empty_heap, resize, load-value, swap-value,
}
use quick_cmake.Heap.Order.{at}

module _ {A : Type 0} (key : A → ℕ) (blank : A) where
  -- Every edge between 1 and n is in the order that adjustUp keeps: the greater key is above.
  pub record IsRaised (n : ℕ) (d : List A) : Type 0 where
    pub room : length d ≡ suc n
    pub order : (c : ℕ) → 2 ≤ c → c ≤ n → at key blank d c ≤ at key blank d (c / 2)

  -- Only the edge above k may be out of that order.
  record UpInv (n : ℕ) (d : List A) (k : ℕ) : Type 0 where
    room : length d ≡ suc n
    pos : 1 ≤ k
    inside : k ≤ n
    edges : (c : ℕ) → 2 ≤ c → c ≤ n → c ≢ k → at key blank d c ≤ at key blank d (c / 2)
    bridged :
        (c : ℕ) → 2 ≤ c → c ≤ n → c / 2 ≡ k → 2 ≤ k → at key blank d c ≤ at key blank d (k / 2)

  exchange-UpInv :
      (n : ℕ) (d : List A) (k : ℕ)
      → UpInv n d k
      → 2 ≤ k
      → at key blank d (k / 2) < at key blank d k
      → UpInv n (exchange blank d k (k / 2)) (k / 2)
  exchange-UpInv n d k v p lt =
      let after =
        get_or-exchange blank d k (k / 2) (omega (arith, v.room, v.inside))
          (omega (arith, v.room, v.inside)) in
      record {
        room = length-exchange blank d k (k / 2) ∙ v.room;
        pos = omega arith;
        inside = omega (arith, v.inside);
        edges = λ c l u r. ground (arith, after c, after (c / 2), v.edges c, v.bridged c);
        bridged =
            λ c l u r t. ground (arith, after c, after (k / 2 / 2), v.edges c, v.edges (k / 2));
      }

  -- The data of a set of values in that order, with what adjustUp leaves of it.
  pub record Raised (n : ℕ) (d e : List A) : Type 0 where
    pub raised : IsRaised n e
    pub same : Perm e d
    pub front : get_or e 0 blank ≡ get_or d 0 blank

  grown-eq :
      (n : ℕ) (d : List A) (x : A)
      → length d ≡ suc n
      → set (resize blank d (n + 1 + 1)) (n + 1) x ≡ d ++ x ∷ []
  unfolding resize
  grown-eq n d x e =
      let one : n + 1 + 1 - length d ≡ 1 = omega arith in
      let last : n + 1 ≡ length d = omega arith in
      rw (take-all (n + 1 + 1) d (omega arith), one, last) (set-append d blank x)

  module _ (comp : A → A → Bool) (by_key : (a b : A) → comp a b ≡ ltb (key b) (key a)) where
    up_loop_raises :
        (fuel n : ℕ) (d : List A) (k : ℕ)
        → k < fuel
        → UpInv n d k
        → Returns (Raised n d) (up_loop comp fuel d k)
    unfolding up_loop
    up_loop_raises zero n d k f v = absurd (omega arith)
    up_loop_raises (suc fuel) n d k f v =
        let hk : k < length d = omega (arith, v.room, v.inside) in
        let hp : k / 2 < length d = omega (arith, v.room, v.inside) in
        Returns-if (ltb 1 k)
          (λ above.
            rw (load-value d k blank hk, load-value d (k / 2) blank hp)
              (rw (by_key (get_or d k blank) (get_or d (k / 2) blank)) (
                Returns-if (ltb (at key blank d (k / 2)) (at key blank d k))
                  (λ lt. rw (swap-value d k (k / 2) blank hk hp) (
                    let run =
                      up_loop_raises fuel n (exchange blank d k (k / 2)) (k / 2) (ground arith)
                        (exchange-UpInv n d k v (ground arith) (ground arith)) in
                    let after = get_or-exchange blank d k (k / 2) hk hp 0 in
                    Returns-map run λ b s. record {
                      raised = s.raised;
                      same = Perm.trans s.same (exchange-perm blank d k (k / 2) hk hp);
                      front = s.front ∙ ground (arith, v.pos, after);
                    }))
                  (λ settled. gives (record {
                    raised = record { room = v.room; order = λ c p q. ground (arith, v.edges c) };
                    same = Perm.rfl;
                    front = refl;
                  })))))
          (λ e. gives (record {
            raised = record { room = v.room; order = λ c p q. v.edges c p q (ground arith) };
            same = Perm.rfl;
            front = refl;
          }))

    -- adjustUp raises the value at k as far as its key is greater than the one above.
    adjust_up_raises :
        (n : ℕ) (d : List A) → UpInv n d n → Returns (Raised n d) (adjust_up comp d n)
    unfolding adjust_up
    adjust_up_raises n d v = up_loop_raises (n + 1) n d n (omega arith) v

    -- What push leaves of a heap in which the greater keys are above.
    pub record Pushed (h : Heap A) (x : A) (r : Heap A) : Type 0 where
      pub count : r.elem_nums ≡ suc h.elem_nums
      pub raised : IsRaised r.elem_nums r.data_
      pub same : Perm r.data_ (h.data_ ++ x ∷ [])
      pub front : get_or r.data_ 0 blank ≡ get_or h.data_ 0 blank

    push_raises :
        (h : Heap A) (x : A)
        → IsRaised h.elem_nums h.data_
        → Returns (Pushed h x) (push comp blank h x)
    unfolding push
    push_raises h x v = rw (grown-eq h.elem_nums h.data_ x v.room) (
        Returns-bind
          (adjust_up_raises (h.elem_nums + 1) (h.data_ ++ x ∷ []) (record {
            room = omega (arith, length-append h.data_ (x ∷ []), v.room);
            pos = omega arith;
            inside = omega arith;
            edges = λ c l u r. ground (
              arith,
              v.room,
              v.order c,
              get_or-append h.data_ (x ∷ []) c blank,
              get_or-append h.data_ (x ∷ []) (c / 2) blank,
            );
            bridged = λ c l u r t. absurd (omega arith);
          }))
          λ d s. gives (record {
            count = omega arith;
            raised = s.raised;
            same = s.same;
            front = s.front ∙ ground (arith, v.room, get_or-append h.data_ (x ∷ []) 0 blank);
          }))

    push_all_raises :
        (h : Heap A) (xs : List A)
        → IsRaised h.elem_nums h.data_
        → Returns
            (λ r.
              IsRaised r.elem_nums r.data_
              × Perm r.data_ (h.data_ ++ xs)
              × (get_or r.data_ 0 blank ≡ get_or h.data_ 0 blank))
            (push_all comp blank h xs)
    unfolding push_all
    push_all_raises h [] v = gives (v, rw (append-nil h.data_) Perm.rfl, refl)
    push_all_raises h (x ∷ xs) v = Returns-bind (push_raises h x v) λ g s.
        Returns-map (push_all_raises g xs s.raised) λ r (raised, same, front). (
          raised,
          rw (append_assoc h.data_ (x ∷ []) xs) at (Perm.trans same (Perm.append_right xs s.same)),
          front ∙ s.front,
        )

    -- Data whose first value is the dummy's, without it.
    split-front :
        (d ys : List A)
        → 0 < length d
        → get_or d 0 blank ≡ blank
        → Perm d (blank ∷ ys)
        → (e : List A) × (d ≡ blank ∷ e) × Perm e ys
    split-front [] ys p f s = absurd (omega arith)
    split-front (y ∷ e) ys p f s = (e, ap (λ z. z ∷ e) f, Perm.cons_inv (rw f at s))

    greatest_below :
        (fuel n : ℕ) (d : List A) (i : ℕ)
        → IsRaised n d
        → i < fuel
        → 1 ≤ i
        → i ≤ n
        → at key blank d i ≤ at key blank d 1
    greatest_below zero n d i v f p q = absurd (omega arith)
    greatest_below (suc fuel) n d i v f p q =
        ground (arith, v.order i, greatest_below fuel n d (i / 2) v)

    -- If the comparison is that of std::greater on keys, any values pushed on an empty heap leave
    -- one with a greatest key on top.
    pub pushed_top_greatest :
        (x : A) (xs : List A)
        → Returns
            (λ t. Mem t (x ∷ xs) × ((y : A) → Mem y (x ∷ xs) → key y ≤ key t))
            (push_all comp blank (empty_heap blank) (x ∷ xs) >>= top)
    unfolding empty_heap top
    pushed_top_greatest x xs =
        Returns-bind
          (push_all_raises (empty_heap blank) (x ∷ xs)
            (record { room = refl; order = λ c p q. absurd (omega arith) }))
          λ r (raised, same, front).
            let long = length-perm same in
            let some_left : leb 1 r.elem_nums ≡ true = ground (arith, raised.room, long) in
            let (e, whole, others) =
              split-front r.data_ (x ∷ xs) (omega (arith, raised.room)) front same in
            rw (some_left, load-value r.data_ 1 blank (omega (arith, raised.room, long)))
              (gives (
                rw whole (
                    (Perm.mem_iff others).0
                      (get_or-mem e 0 blank (omega (arith, length-perm others)))),
                λ y m.
                    holds-mem (λ t. key t ≤ at key blank r.data_ 1) e blank (λ t. le_prop)
                      (λ i p.
                        let after : get_or e i blank ≡ get_or r.data_ (suc i) blank =
                          rw whole refl in
                        let short : length r.data_ ≡ suc (length e) = rw whole refl in
                        rw after (
                          greatest_below (i + 2) r.elem_nums r.data_ (suc i) raised (omega arith)
                            (omega arith) (omega (arith, raised.room))))
                      y ((Perm.mem_iff others).1 m),
              ))
