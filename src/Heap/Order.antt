-- ===== src/Heap/Order.antt =====
-- The heap order of Heap's data, by the keys of the values.
use mathlib.Core.List.Perm
use quick_cmake.Prelude.{
  ℕ, zero, suc, ◌/◌, ◌≤◌, ◌<◌, ◌≡◌, List, Perm, length, take, get_or, exchange, exchange-perm,
  arith, take-exchange, length-take, length-exchange, ◌∙◌, get_or-exchange,
}
use quick_cmake.Outcome.{Outcome, Returns, Returns-map}

module _ {A : Type 0} (key : A → ℕ) (blank : A) where
  -- The key of data[c].
  abbrev pub at : List A → ℕ → ℕ
  at d c = key (get_or d c blank)

  -- Every edge between 1 and n whose parent is at lo or later is in order.
  abbrev pub IsOrdered : ℕ → ℕ → List A → Type 0
  IsOrdered lo n d = (c : ℕ) → 2 ≤ c → c ≤ n → lo ≤ c / 2 → at d (c / 2) ≤ at d c

  -- e holds the first n values of d, in order from lo.
  pub record Sifted (lo n : ℕ) (d e : List A) : Type 0 where
    pub ordered : IsOrdered lo n e
    pub same : Perm (take (suc n) e) (take (suc n) d)
    pub size : length e ≡ length d
    pub front : get_or e 0 blank ≡ get_or d 0 blank

  pub Sifted-exchange :
      {lo n i j : ℕ} {d : List A} {o : Outcome (List A)}
      → n < length d
      → 0 < i
      → 0 < j
      → i ≤ n
      → j ≤ n
      → Returns (Sifted lo n (exchange blank d i j)) o
      → Returns (Sifted lo n d) o
  Sifted-exchange {n = n} {i = i} {j = j} {d = d} room pi pj hi hj run = Returns-map run λ e s.
      record {
        ordered = s.ordered;
        same = Perm.trans s.same (
            rw (take-exchange blank (suc n) d i j (omega arith) (omega arith)) (
              exchange-perm blank (take (suc n) d) i j (omega (arith, length-take (suc n) d))
                (omega (arith, length-take (suc n) d))));
        size = s.size ∙ length-exchange blank d i j;
        front = s.front ∙ ground (arith, get_or-exchange blank d i j (omega arith) (omega arith) 0);
      }

  -- The root of a heap has the least key.
  root_below :
      (k : ℕ) (n : ℕ) (d : List A) (i : ℕ)
      → IsOrdered 1 n d
      → i < k
      → 1 ≤ i
      → i ≤ n
      → at d 1 ≤ at d i
  root_below zero n d i h f p q = absurd (omega arith)
  root_below (suc k) n d i h f p q = ground (arith, h i, root_below k n d (i / 2) h)

  pub root_least : (n : ℕ) (d : List A) (i : ℕ) → IsOrdered 1 n d → 1 ≤ i → i ≤ n → at d 1 ≤ at d i
  root_least n d i h p q = root_below (suc i) n d i h (omega arith) p q
