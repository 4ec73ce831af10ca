-- ===== src/Prelude/Arrays.antt =====
-- Reads and writes of a list at an index, and the exchange of two entries.
use Prim.Native.Nat.{ℕ, zero, suc, ◌+◌, ◌-◌, ◌≤◌, ◌<◌}
use mathlib.Core.Path.{◌≡◌, refl, ap, ◌∙◌}
use mathlib.Core.Option.{some}
use mathlib.Core.List.{
  List, [], ◌∷◌, ◌++◌, Mem, Perm, Permᴰ, not-mem-nil, mem-cons_self, mem-cons_of_mem,
  forall_mem-cons,
}
use mathlib.Core.Logic.{◌≢◌, ∥∥₁_elim}
use native.Mathlib.Nat.{ℕ_set}
use mathlib.Core.List.Perm
use native.Mathlib.Omega.{arith}
use quick_cmake.Prelude.Tests.{ltb, ◌==◌, if◌then◌else◌}
use quick_cmake.Prelude.Lists.{length, get_elem?, get_or, set, take, replicate, length-set}

module _ {ℓ} {A : Type ℓ} where
  pub get_or-set :
      (xs : List A) (i j : ℕ) (v d : A)
      → i < length xs
      → get_or (set xs i v) j d ≡ (if i == j then v else get_or xs j d)
  get_or-set [] i j v d h = absurd (omega arith)
  get_or-set (x ∷ xs) zero zero v d h = refl
  get_or-set (x ∷ xs) zero (suc j) v d h = ground arith
  get_or-set (x ∷ xs) (suc i) zero v d h = ground arith
  get_or-set (x ∷ xs) (suc i) (suc j) v d h = ground (arith, get_or-set xs i j v d)

  pub get_or-append :
      (xs ys : List A) (j : ℕ) (d : A)
      → get_or (xs ++ ys) j d
        ≡ (if ltb j (length xs) then get_or xs j d else get_or ys (j - length xs) d)
  get_or-append [] ys j d = ground arith
  get_or-append (x ∷ xs) ys zero d = ground arith
  get_or-append (x ∷ xs) ys (suc j) d = ground (arith, get_or-append xs ys j d)

  pub get_or-replicate :
      (n j : ℕ) (v d : A) → get_or (replicate n v) j d ≡ (if ltb j n then v else d)
  get_or-replicate zero j v d = ground arith
  get_or-replicate (suc n) zero v d = ground arith
  get_or-replicate (suc n) (suc j) v d = ground (arith, get_or-replicate n j v d)

  pub get_or-end : (xs : List A) (j : ℕ) (d : A) → length xs ≤ j → get_or xs j d ≡ d
  get_or-end [] j d h = refl
  get_or-end (x ∷ xs) zero d h = absurd (omega arith)
  get_or-end (x ∷ xs) (suc j) d h = get_or-end xs j d (omega arith)

  pub get_elem?-get_or :
      (xs : List A) (i : ℕ) (d : A) → i < length xs → get_elem? xs i ≡ some (get_or xs i d)
  get_elem?-get_or [] i d h = absurd (omega arith)
  get_elem?-get_or (x ∷ xs) zero d h = refl
  get_elem?-get_or (x ∷ xs) (suc i) d h = get_elem?-get_or xs i d (omega arith)

  pub get_or-take :
      (n : ℕ) (xs : List A) (i : ℕ) (d : A)
      → get_or (take n xs) i d ≡ (if ltb i n then get_or xs i d else d)
  get_or-take zero xs i d = ground arith
  get_or-take (suc n) [] i d = ground arith
  get_or-take (suc n) (x ∷ xs) zero d = ground arith
  get_or-take (suc n) (x ∷ xs) (suc i) d = ground (arith, get_or-take n xs i d)

  pub take-set : (n : ℕ) (xs : List A) (i : ℕ) (v : A) → take n (set xs i v) ≡ set (take n xs) i v
  take-set zero xs i v = refl
  take-set (suc n) [] i v = refl
  take-set (suc n) (x ∷ xs) zero v = refl
  take-set (suc n) (x ∷ xs) (suc i) v = ap (λ l. x ∷ l) (take-set n xs i v)

  -- The first n + 1 entries, with the last of them written apart.
  pub take-last :
      (n : ℕ) (xs : List A) (d : A)
      → n < length xs
      → take (suc n) xs ≡ take n xs ++ (get_or xs n d ∷ [])
  take-last n [] d h = absurd (omega arith)
  take-last zero (x ∷ xs) d h = refl
  take-last (suc n) (x ∷ xs) d h = ap (λ l. x ∷ l) (take-last n xs d (omega arith))

  -- A write exchanges an entry for the value.
  set-perm :
      (xs : List A) (i : ℕ) (v d : A) → i < length xs → Perm (get_or xs i d ∷ set xs i v) (v ∷ xs)
  set-perm [] i v d h = absurd (omega arith)
  set-perm (x ∷ xs) zero v d h = Perm.swap v x xs
  set-perm (x ∷ xs) (suc i) v d h =
      Perm.trans (Perm.swap x _ _)
        (Perm.trans (Perm.cons x (set-perm xs i v d (omega arith))) (Perm.swap v x xs))

  -- std::swap of two entries.
  unfoldable pub exchange : A → List A → ℕ → ℕ → List A
  exchange d xs i j = set (set xs i (get_or xs j d)) j (get_or xs i d)

  pub length-exchange : (d : A) (xs : List A) (i j : ℕ) → length (exchange d xs i j) ≡ length xs
  unfolding exchange
  length-exchange d xs i j = simp length-set

  module _ (d : A) (xs : List A) (i j : ℕ) (hi : i < length xs) (hj : j < length xs) where
    pub get_or-exchange :
        (c : ℕ)
        → get_or (exchange d xs i j) c d
          ≡ (if j == c then get_or xs i d else if i == c then get_or xs j d else get_or xs c d)
    unfolding exchange
    get_or-exchange c = rw (
      get_or-set (set xs i (get_or xs j d)) j c (get_or xs i d) d (rw length-set hj),
      get_or-set xs i c (get_or xs j d) d hi,
    )

    pub exchange-perm : Perm (exchange d xs i j) xs
    unfolding exchange
    exchange-perm =
        let ys = set xs i (get_or xs j d) in
        let kept : get_or ys j d ≡ get_or xs j d =
          ground (arith, get_or-set xs i j (get_or xs j d) d) in
        let back = rw kept at (set-perm ys j (get_or xs i d) d (rw length-set hj)) in
        Perm.cons_inv (Perm.trans back (set-perm xs i (get_or xs j d) d hi))

  pub take-exchange :
      (d : A) (n : ℕ) (xs : List A) (i j : ℕ)
      → i < n
      → j < n
      → take n (exchange d xs i j) ≡ exchange d (take n xs) i j
  unfolding exchange
  take-exchange d n xs i j hi hj =
      let at_i : get_or (take n xs) i d ≡ get_or xs i d = ground (arith, get_or-take n xs i d) in
      let at_j : get_or (take n xs) j d ≡ get_or xs j d = ground (arith, get_or-take n xs j d) in
      rw (take-set, take-set, at_i, at_j)

  pub take-all : (n : ℕ) (xs : List A) → length xs ≤ n → take n xs ≡ xs
  take-all zero [] h = refl
  take-all (suc n) [] h = refl
  take-all zero (x ∷ xs) h = absurd (omega arith)
  take-all (suc n) (x ∷ xs) h = ap (λ l. x ∷ l) (take-all n xs (omega arith))

  pub set-append : (xs : List A) (y v : A) → set (xs ++ y ∷ []) (length xs) v ≡ xs ++ v ∷ []
  set-append [] y v = refl
  set-append (x ∷ xs) y v = ap (λ l. x ∷ l) (set-append xs y v)

  -- What holds of every entry holds of every member.
  pub holds-mem :
      (P : A → Type 0) (xs : List A) (d : A)
      → ((a : A) → IsProp (P a))
      → ((i : ℕ) → i < length xs → P (get_or xs i d))
      → (a : A) → Mem a xs
      → P a
  holds-mem P [] d prop h = λ a m. absurd (not-mem-nil m)
  holds-mem P (x ∷ xs) d prop h =
      (forall_mem-cons prop).1
        (h 0 (omega arith), holds-mem P xs d prop λ i p. h (suc i) (omega arith))

  Permᴰ-length : {xs ys : List A} → Permᴰ xs ys → length xs ≡ length ys
  Permᴰ-length Permᴰ.nil = refl
  Permᴰ-length (Permᴰ.cons x p) = ap suc (Permᴰ-length p)
  Permᴰ-length (Permᴰ.swap x y) = refl
  Permᴰ-length (Permᴰ.trans p q) = Permᴰ-length p ∙ Permᴰ-length q

  pub length-perm : {xs ys : List A} → Perm xs ys → length xs ≡ length ys
  length-perm p = ∥∥₁_elim p (ℕ_set _ _) Permᴰ-length

  pub get_or-mem : (xs : List A) (i : ℕ) (d : A) → i < length xs → Mem (get_or xs i d) xs
  get_or-mem [] i d h = absurd (omega arith)
  get_or-mem (x ∷ xs) zero d h = mem-cons_self
  get_or-mem (x ∷ xs) (suc i) d h = mem-cons_of_mem x (get_or-mem xs i d (omega arith))

  -- The sum of a number for each entry.
  abbrev pub total : (A → ℕ) → List A → ℕ
  total f [] = 0
  total f (x ∷ xs) = f x + total f xs

  pub total-set :
      (f : A → ℕ) (xs : List A) (i : ℕ) (v w : A)
      → get_elem? xs i ≡ some v
      → total f (set xs i w) + f v ≡ total f xs + f w
  total-set f [] i v w h = cc
  total-set f (x ∷ xs) zero v w h = let same : f x ≡ f v = cc in omega arith
  total-set f (x ∷ xs) (suc i) v w h = omega (arith, total-set f xs i v w h)

  pub get_elem?-set_ne :
      (xs : List A) (i j : ℕ) (w : A) → i ≢ j → get_elem? (set xs i w) j ≡ get_elem? xs j
  get_elem?-set_ne [] i j w n = refl
  get_elem?-set_ne (x ∷ xs) zero zero w n = absurd (n refl)
  get_elem?-set_ne (x ∷ xs) zero (suc j) w n = refl
  get_elem?-set_ne (x ∷ xs) (suc i) zero w n = refl
  get_elem?-set_ne (x ∷ xs) (suc i) (suc j) w n = get_elem?-set_ne xs i j w (λ e. n (ap suc e))
