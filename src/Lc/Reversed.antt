-- ===== src/Lc/Reversed.antt =====
-- vector2List, reverseList and listToString.
use mathlib.Core.List.{reverse, reverse_aux}
use quick_cmake.Prelude.{
  ℕ, zero, suc, ◌≤◌, ◌<◌, ◌≡◌, ◌≢◌, refl, ap, sym, ◌∙◌, Option, none, some, ℤ, List, [], ◌∷◌, ◌++◌,
  map, All, length, length-append, length-set, get_elem?, set, arith,
}
use quick_cmake.Outcome.{Returns, gives, Returns-bind, Returns-map}
use quick_cmake.Lc.{
  ListNode, Store, new_node, append_loop, vector_to_list, reverse_loop, reverse_list,
}
use quick_cmake.Lc.Chains.{
  Cell, Chain, Apart, Distinct, set_there, set_apart, Chain-set, deref-value, set_next-value,
}

-- The cells of a list are none of those that have been reversed.
abbrev Fresh : List Cell → List Cell → Type 0
Fresh cs done = All (λ c. Apart c.place done) cs

Fresh-cons :
    (c : Cell) (cs done : List Cell) → Apart c.place cs → Fresh cs done → Fresh cs (c ∷ done)
Fresh-cons c [] done a f = tt
Fresh-cons c (x ∷ cs) done a f = (((λ e. a.0 (sym e)), f.0), Fresh-cons c cs done a.1 f.1)

-- The node `c` now leads to what has been reversed.
turned :
    (s : Store) (c : Cell) (done : List Cell) (next p : Option ℕ)
    → get_elem? s c.place ≡ some (record { val = c.val; next = next })
    → Apart c.place done
    → Chain s p done
    → Chain (set s c.place (record { val = c.val; next = p })) (some c.place) (c ∷ done)
turned s c done next p there a chain =
    (p, refl, set_there s c.place _ _ there, Chain-set s c.place _ p done a chain)

reverse_loop_correct :
    (fuel : ℕ) (s : Store) (p : ℕ) (c : Cell) (cs done : List Cell)
    → length cs < fuel
    → Chain s (some p) done
    → Chain s (some c.place) (c ∷ cs)
    → Distinct (c ∷ cs)
    → Fresh (c ∷ cs) done
    → Returns
        (λ (h, t). Chain t (some h) (reverse_aux (c ∷ cs) done))
        (reverse_loop fuel p c.place s)
unfolding reverse_loop
reverse_loop_correct zero s p c cs done f k chain d fresh = absurd (omega arith)
reverse_loop_correct (suc fuel) s p c [] done f k (next, _, there, e) d fresh =
    rw (deref-value s c.place _ there, e, set_next-value s c.place _ (some p) there)
      (gives (turned s c done next (some p) there fresh.0 k))
reverse_loop_correct (suc fuel) s p c (x ∷ cs) done f k (next, _, there, (next', e, there', rest)) d
      fresh =
    rw (deref-value s c.place _ there, e, set_next-value s c.place _ (some p) there)
      (reverse_loop_correct fuel _ c.place x cs (c ∷ done) (omega arith)
        (turned s c done next (some p) there fresh.0 k)
        (Chain-set s c.place _ (some x.place) (x ∷ cs) d.0 (next', refl, there', rest)) d.1
        (Fresh-cons c (x ∷ cs) done d.0 fresh.1))

pub reverse_list_correct :
    (fuel : ℕ) (s : Store) (c : Cell) (cs : List Cell)
    → length cs ≤ fuel
    → Chain s (some c.place) (c ∷ cs)
    → Distinct (c ∷ cs)
    → Returns (λ (h, t). Chain t (some h) (reverse (c ∷ cs))) (reverse_list fuel c.place s)
unfolding reverse_list
reverse_list_correct fuel s c [] f (next, h, there, e) d =
    rw (deref-value s c.place _ there, e) (gives (next, h, there, e))
reverse_list_correct fuel s c (x ∷ cs) f (next, _, there, (next', e, there', rest)) d =
    rw (deref-value s c.place _ there, e, set_next-value s c.place _ none there)
      (reverse_loop_correct fuel _ c.place x cs (c ∷ []) (omega arith)
        (turned s c [] next none there tt refl)
        (Chain-set s c.place _ (some x.place) (x ∷ cs) d.0 (next', refl, there', rest)) d.1
        (Fresh-cons c (x ∷ cs) [] d.0 (Fresh-nil (x ∷ cs))))
  where
    Fresh-nil : (xs : List Cell) → Fresh xs []
    Fresh-nil [] = tt
    Fresh-nil (y ∷ ys) = (tt, Fresh-nil ys)

-- The cells that vector2List makes in a store of `n` nodes.
unfoldable pub cells : ℕ → List ℤ → List Cell
cells n [] = []
cells n (v ∷ vs) = record { place = n; val = v } ∷ cells (suc n) vs

Apart-cells : (p n : ℕ) (vs : List ℤ) → p < n → Apart p (cells n vs)
unfolding cells
Apart-cells p n [] h = tt
Apart-cells p n (v ∷ vs) h = (omega arith, Apart-cells p (suc n) vs (omega arith))

pub Distinct-cells : (n : ℕ) (vs : List ℤ) → Distinct (cells n vs)
unfolding cells
Distinct-cells n [] = tt
Distinct-cells n (v ∷ vs) = (Apart-cells n (suc n) vs (omega arith), Distinct-cells (suc n) vs)

pub values-cells : (n : ℕ) (vs : List ℤ) → map (λ c. c.val) (cells n vs) ≡ vs
unfolding cells
values-cells n [] = refl
values-cells n (v ∷ vs) = ap (λ l. v ∷ l) (values-cells (suc n) vs)

pub length-cells : (n : ℕ) (vs : List ℤ) → length (cells n vs) ≡ length vs
unfolding cells
length-cells n [] = refl
length-cells n (v ∷ vs) = ap suc (length-cells (suc n) vs)

at_end : (s : Store) (n : ListNode) → get_elem? (s ++ n ∷ []) (length s) ≡ some n
at_end [] n = refl
at_end (x ∷ s) n = at_end s n

before_end :
    (s : Store) (n : ListNode) (q : ℕ) → q < length s → get_elem? (s ++ n ∷ []) q ≡ get_elem? s q
before_end [] n q h = absurd (omega arith)
before_end (x ∷ s) n zero h = refl
before_end (x ∷ s) n (suc q) h = before_end s n q (omega arith)

-- The loop makes the rest of the list behind `tail`, and changes no other node.
record Appended (tail : ℕ) (v : ℤ) (vs : List ℤ) (s t : Store) : Type 0 where
  chain : Chain t (some tail) (record { place = tail; val = v } ∷ cells (length s) vs)
  others : (q : ℕ) → q < length s → q ≢ tail → get_elem? t q ≡ get_elem? s q

append_loop_correct :
    (vs : List ℤ) (tail : ℕ) (v : ℤ) (s : Store)
    → tail < length s
    → get_elem? s tail ≡ some (new_node v)
    → Returns (Appended tail v vs s) (append_loop vs tail s)
unfolding append_loop cells
append_loop_correct [] tail v s h e =
    gives (record { chain = (none, refl, e, refl); others = λ q l a. refl })
append_loop_correct (w ∷ vs) tail v s h e =
    let p = length s in
    let grown = s ++ new_node w ∷ [] in
    let linked = set grown tail (record { val = v; next = some p }) in
    let there : get_elem? grown tail ≡ some (new_node v) = before_end s (new_node w) tail h ∙ e in
    let size : length linked ≡ suc p =
      length-set grown tail _ ∙ omega (arith, length-append s (new_node w ∷ [])) in
    let fresh : get_elem? linked p ≡ some (new_node w) =
      set_apart grown tail p _ (omega arith) ∙ at_end s (new_node w) in
    rw (set_next-value grown tail _ (some p) there) (
      Returns-map (append_loop_correct vs p w linked (omega arith) fresh) λ t a. record {
        chain = (
          some p,
          refl,
          a.others tail (omega arith) (omega arith) ∙ set_there grown tail _ _ there,
          rw size at a.chain,
        );
        others = λ q l apart.
            a.others q (omega arith) (omega arith)
            ∙ set_apart grown tail q _ (λ x. apart (sym x))
            ∙ before_end s (new_node w) q l;
      })

pub vector_to_list_correct :
    (v : ℤ) (vs : List ℤ) (s : Store)
    → Returns
        (λ (h, t). (h ≡ length s) × Chain t (some (length s)) (cells (length s) (v ∷ vs)))
        (vector_to_list (v ∷ vs) s)
unfolding vector_to_list cells
vector_to_list_correct v vs s =
    let size : length (s ++ new_node v ∷ []) ≡ suc (length s) =
      omega (arith, length-append s (new_node v ∷ [])) in
    Returns-bind
      (append_loop_correct vs (length s) v (s ++ new_node v ∷ []) (omega arith)
        (at_end s (new_node v)))
      λ t a. gives (refl, rw size at a.chain)
