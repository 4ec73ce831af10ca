-- ===== src/TopK/Kept.antt =====
-- What topk_queue keeps of the values that are pushed.
use mathlib.Core.List.{Perm, perm_middle}
use mathlib.Core.List.Perm
use quick_cmake.Prelude.{
  ℕ, ◌+◌, ◌≤◌, ◌<◌, ◌≡◌, refl, true, false, List, [], ◌∷◌, ◌++◌, length, ltb, All, arith,
  Bool-cases, inl, inr,
}
use quick_cmake.Outcome.{value}
use quick_cmake.TopK.{Less, reversed, pq_push, TopK, push}
use quick_cmake.TopK.Order.{
  Rises, All-pq_push, All-then, Perm-pq_push, length-pq_push, IsOrder, reversed-eq,
}

module _ {A : Type 0} (less : Less A) (o : IsOrder less) where
  pq_push-Rises : (x : A) (l : List A) → Rises less l → Rises less (pq_push (reversed less) x l)
  unfolding pq_push
  pq_push-Rises x [] h = (tt, tt)
  pq_push-Rises x (y ∷ l) h =
      let order = reversed-eq less o y x in
      elim (Bool-cases (less x y)) [
        | inl e ↦
            let above : All (λ z. less z x ≡ false) l =
              All-then (λ z. less z y ≡ false) _ l (λ z k. o.through z y x k (o.asym x y e)) h.0 in
            rw (order, e) ((o.asym x y e, above), h)
        | inr e ↦
            rw (order, e)
              (All-pq_push (λ z. less z y ≡ false) (reversed less) x l e h.0, pq_push-Rises x l h.1)
      ]

  -- What a queue holds of the values that it has seen.
  pub record Keeps (q : TopK A) (seen dropped : List A) : Type 0 where
    pub rises : Rises less q.pq
    pub all : Perm (q.pq ++ dropped) seen
    pub size : length q.pq + length dropped ≡ length seen
    pub within : length q.pq ≤ q.cap
    pub early : length q.pq < q.cap → dropped ≡ []
    pub largest : All (λ d. All (λ x. less x d ≡ false) q.pq) dropped

  All-All-push :
      (x : A) (l ds : List A)
      → All (λ d. less x d ≡ false) ds
      → All (λ d. All (λ y. less y d ≡ false) l) ds
      → All (λ d. All (λ y. less y d ≡ false) (pq_push (reversed less) x l)) ds
  All-All-push x l [] h k = tt
  All-All-push x l (d ∷ ds) h k =
      (All-pq_push (λ y. less y d ≡ false) (reversed less) x l h.0 k.0, All-All-push x l ds h.1 k.1)

  abbrev pub queue : ℕ → List A → TopK A
  queue k l = record { cap = k; pq = l }

  -- A push on a full queue whose top is less takes the top's place.
  replaces :
      (k : ℕ) (top x : A) (rest seen dropped : List A)
      → less top x ≡ true
      → k ≤ length (top ∷ rest)
      → Keeps (queue k (top ∷ rest)) seen dropped
      → Keeps (queue k (pq_push (reversed less) x rest)) (x ∷ seen) (top ∷ dropped)
  replaces k top x rest seen dropped e full ok =
      let long = length-pq_push (reversed less) x rest in
      let under = o.asym top x e in
      record {
        rises = pq_push-Rises x rest ok.rises.1;
        all =
            Perm.trans (Perm.append_right (top ∷ dropped) (Perm-pq_push (reversed less) x rest))
              (Perm.cons x (Perm.trans (perm_middle rest dropped) ok.all));
        size = omega (arith, ok.size, long);
        within = omega (arith, ok.within, long);
        early = λ h. absurd (omega (arith, long));
        largest = (
          All-pq_push (λ y. less y top ≡ false) (reversed less) x rest under ok.rises.0,
          All-All-push x rest dropped
              (All-then _ (λ d. less x d ≡ false) dropped (λ d c. o.through x top d under c.0)
                ok.largest)
              (All-then _ (λ d. All (λ y. less y d ≡ false) rest) dropped (λ d c. c.1) ok.largest),
        );
      }

  -- A push on a full queue whose top is not less is dropped.
  drops :
      (k : ℕ) (top x : A) (rest seen dropped : List A)
      → less top x ≡ false
      → k ≤ length (top ∷ rest)
      → Keeps (queue k (top ∷ rest)) seen dropped
      → Keeps (queue k (top ∷ rest)) (x ∷ seen) (x ∷ dropped)
  drops k top x rest seen dropped e full ok = record {
    rises = ok.rises;
    all = Perm.trans (perm_middle (top ∷ rest) dropped) (Perm.cons x ok.all);
    size = omega (arith, ok.size);
    within = ok.within;
    early = λ h. absurd (omega arith);
    largest = (
      (e, All-then _ (λ y. less y x ≡ false) rest (λ y c. o.through y top x c e) ok.rises.0),
      ok.largest,
    );
  }

  -- A push on a queue that is not full.
  adds :
      (k : ℕ) (x : A) (l seen dropped : List A)
      → length l < k
      → Keeps (queue k l) seen dropped
      → Keeps (queue k (pq_push (reversed less) x l)) (x ∷ seen) dropped
  adds k x l seen dropped room ok =
      let long = length-pq_push (reversed less) x l in
      let nothing = ok.early room in
      record {
        rises = pq_push-Rises x l ok.rises;
        all =
            Perm.trans (Perm.append_right dropped (Perm-pq_push (reversed less) x l))
              (Perm.cons x ok.all);
        size = omega (arith, ok.size, long);
        within = omega (arith, long);
        early = λ _. nothing;
        largest = rw nothing tt;
      }

  pub push-Keeps :
      (k : ℕ) (l seen dropped : List A) (x : A)
      → 0 < k
      → Keeps (queue k l) seen dropped
      → (m : List A) × (push less x (queue k l) ≡ value (queue k m))
        × (dropped' : List A) × Keeps (queue k m) (x ∷ seen) dropped'
  unfolding push pq_push
  push-Keeps k [] seen dropped x pos ok =
      let room : ltb 0 k ≡ true = ground arith in
      (
        pq_push (reversed less) x [],
        rw room refl,
        dropped,
        adds k x [] seen dropped (omega arith) ok,
      )
  push-Keeps k (top ∷ rest) seen dropped x pos ok =
      let order = reversed-eq less o x top in
      elim (Bool-cases (ltb (length (top ∷ rest)) k)) [
        | inl e ↦
            let room : length (top ∷ rest) < k = ground arith in
            (
              pq_push (reversed less) x (top ∷ rest),
              rw e refl,
              dropped,
              adds k x (top ∷ rest) seen dropped room ok,
            )
        | inr e ↦
            let full : k ≤ length (top ∷ rest) = ground arith in
            elim (Bool-cases (less top x)) [
              | inl more ↦ (
                pq_push (reversed less) x rest,
                rw (e, order, more) refl,
                top ∷ dropped,
                replaces k top x rest seen dropped more full ok,
              )
              | inr less_or_same ↦ (
                top ∷ rest,
                rw (e, order, less_or_same) refl,
                x ∷ dropped,
                drops k top x rest seen dropped less_or_same full ok,
              )
            ]
      ]
