-- ===== src/TopK/Largest.antt =====
-- What topk_queue returns behind any pushes.
use mathlib.Core.List.{Perm, perm_middle, reverse_aux}
use mathlib.Core.List.Perm
use Prim.Native.Nat.{min}
use quick_cmake.Prelude.{
  ℕ, ◌+◌, ◌≤◌, ◌<◌, ◌≡◌, refl, ap, ◌∙◌, subst, false, List, [], ◌∷◌, ◌++◌, length, reverse,
  append-nil, ltb, All, arith, Bool-cases, inl, inr,
}
use quick_cmake.Outcome.{Outcome, value, ◌>>=◌}
use quick_cmake.TopK.{Less, TopK, push, pop_loop, pop}
use quick_cmake.TopK.Order.{Falls, Rises, All-then, IsOrder}
use quick_cmake.TopK.Kept.{Keeps, queue, push-Keeps}

-- The calls of push for the values, in order.
unfoldable pub push_all : {A : Type 0} → Less A → List A → TopK A → Outcome (TopK A)
push_all less [] q = value q
push_all less (x ∷ xs) q = push less x q >>= push_all less xs

-- As many of the values as there is room for, in falling order, and none less than one left out.
pub record IsTop {A : Type 0} (less : Less A) (k : ℕ) (xs result : List A) : Type 0 where
  pub dropped : List A
  pub all : Perm (result ++ dropped) xs
  pub size : length result ≡ min k (length xs)
  pub falls : Falls less result
  pub largest : All (λ d. All (λ x. less x d ≡ false) result) dropped

above :
    {A : Type 0} (less : Less A) (x : A) (l acc : List A)
    → All (λ y. less y x ≡ false) l
    → All (λ z. All (λ y. less z y ≡ false) acc) l
    → All (λ z. All (λ y. less z y ≡ false) (x ∷ acc)) l
above less x [] acc a b = tt
above less x (y ∷ l) acc a b = ((a.0, b.0), above less x l acc a.1 b.1)

Falls-reverse :
    {A : Type 0} (less : Less A) (l acc : List A)
    → Rises less l
    → Falls less acc
    → All (λ x. All (λ y. less x y ≡ false) acc) l
    → Falls less (reverse_aux l acc)
Falls-reverse less [] acc r f h = f
Falls-reverse less (x ∷ l) acc r f h =
    Falls-reverse less l (x ∷ acc) r.1 (h.0, f) (above less x l acc r.0 h.1)

All-reverse_aux :
    {A : Type 0} (P : A → Type 0) (l acc : List A) → All P l → All P acc → All P (reverse_aux l acc)
All-reverse_aux P [] acc h k = k
All-reverse_aux P (x ∷ l) acc h k = All-reverse_aux P l (x ∷ acc) h.1 (h.0, k)

length-reverse_aux :
    {A : Type 0} (l acc : List A) → length (reverse_aux l acc) ≡ length l + length acc
length-reverse_aux [] acc = omega arith
length-reverse_aux (x ∷ l) acc = omega (arith, length-reverse_aux l (x ∷ acc))

Perm-reverse_aux : {A : Type 0} (l acc : List A) → Perm (reverse_aux l acc) (l ++ acc)
Perm-reverse_aux [] acc = Perm.refl acc
Perm-reverse_aux (x ∷ l) acc = Perm.trans (Perm-reverse_aux l (x ∷ acc)) (perm_middle l acc)

Perm-reverse : {A : Type 0} (l : List A) → Perm (reverse l) l
Perm-reverse l = subst (Perm (reverse l)) (append-nil l) (Perm-reverse_aux l [])

nothing_after : {A : Type 0} (l : List A) (P : A → A → Type 0) → All (λ x. All (P x) []) l
nothing_after [] P = tt
nothing_after (x ∷ l) P = (tt, nothing_after l P)

pop_loop_lem : {A : Type 0} (less : Less A) (l : List A) → pop_loop less l ≡ l
pop_loop_lem less [] = refl
pop_loop_lem less (x ∷ l) = ap (λ r. x ∷ r) (pop_loop_lem less l)

module _ {A : Type 0} (less : Less A) (o : IsOrder less) where
  push_all-Keeps :
      (k : ℕ) (xs l seen dropped : List A)
      → 0 < k
      → Keeps less o (queue less o k l) seen dropped
      → (m : List A) × (push_all less xs (queue less o k l) ≡ value (queue less o k m))
        × (dropped' : List A) × (seen' : List A) × Keeps less o (queue less o k m) seen' dropped'
        × Perm seen' (xs ++ seen)
        × (length seen' ≡ length xs + length seen)
  unfolding push_all
  push_all-Keeps k [] l seen dropped pos ok =
      (l, refl, dropped, seen, ok, Perm.refl seen, omega arith)
  push_all-Keeps k (x ∷ xs) l seen dropped pos ok =
      let (m, first, ds, ok') = push-Keeps less o k l seen dropped x pos ok in
      let (m', rest, ds', seen', ok'', same, size) = push_all-Keeps k xs m (x ∷ seen) ds pos ok' in
      (
        m',
        rw (first) rest,
        ds',
        seen',
        ok'',
        Perm.trans same (perm_middle xs seen),
        omega (arith, size),
      )

  -- With room for at least one value, pushing any values returns, and pop then returns as many of
  -- them as there is room for, or all of them: none of them less than a later one, and none less
  -- than a value that is left out.
  pub push_all-pop :
      (k : ℕ) (xs : List A)
      → 0 < k
      → (q : TopK A) × (push_all less xs (record { cap = k; pq = [] }) ≡ value q)
        × IsTop less k xs (pop less q).0
  unfolding pop
  push_all-pop k xs pos =
      let start : Keeps less o (queue less o k []) [] [] = record {
        rises = tt;
        all = Perm.refl [];
        size = omega arith;
        within = omega arith;
        early = λ _. refl;
        largest = tt;
      } in
      let (m, ends, ds, seen, ok, same, size) = push_all-Keeps k xs [] [] [] pos start in
      let counted : length m ≡ min k (length xs) = elim (Bool-cases (ltb (length m) k)) [
        | inl e ↦
            let few : length m < k = ground arith in
            let none_dropped : length ds ≡ 0 = ap length (ok.early few) in
            omega (arith, ok.size, size)
        | inr e ↦ let many : k ≤ length m = ground arith in omega (arith, ok.size, size, ok.within)
      ] in
      let popped = pop_loop_lem less m in
      (
        queue less o k m,
        ends,
        record {
          dropped = ds;
          all = rw popped (
              Perm.trans (Perm.append_right ds (Perm-reverse m))
                (Perm.trans ok.all (subst (Perm seen) (append-nil xs) same)));
          size = rw popped (length-reverse_aux m [] ∙ omega (arith, counted));
          falls =
              rw popped
                (Falls-reverse less m [] ok.rises tt (nothing_after m (λ x y. less x y ≡ false)));
          largest = rw popped (
              All-then _ (λ d. All (λ x. less x d ≡ false) (reverse m)) ds
                (λ d h. All-reverse_aux _ m [] h tt) ok.largest);
        },
      )
