-- ===== src/Str/Affix.antt =====
-- startWith, endWith and strip against what they mean on the whole text.
use native.Mathlib.Decide.{ℕ_discrete}
use quick_cmake.Prelude.{
  ℕ, zero, suc, ◌+◌, ◌-◌, ◌≤◌, ◌<◌, ◌≡◌, refl, sym, ap, ◌∙◌, ◌↔◌, true, [], ◌∷◌, ◌++◌, length,
  get_or, take, drop, length-append, length-drop, take-append-drop, append-nil, arith,
}
use quick_cmake.Str.{Text, affix_loop, start_with, end_with}

-- The bytes of `affix` from `i` on are those of `str`, shifted by `offset`.
abbrev Agrees : ℕ → ℕ → ℕ → Text → Text → Type 0
Agrees n i offset str affix =
    (j : ℕ) → i ≤ j → j < i + n → get_or affix j 0 ≡ get_or str (j + offset) 0

affix_loop-suc :
    (n i offset : ℕ) (str affix : Text)
    → affix_loop (suc n) i offset str affix ≡ true
    → (get_or affix i 0 ≡ get_or str (i + offset) 0)
      × (affix_loop n (i + 1) offset str affix ≡ true)
unfolding affix_loop
affix_loop-suc n i offset str affix h = ground arith

affix_loop-Agrees :
    (n i offset : ℕ) (str affix : Text)
    → affix_loop n i offset str affix ≡ true
    → Agrees n i offset str affix
affix_loop-Agrees zero i offset str affix h j p q = absurd (omega arith)
affix_loop-Agrees (suc n) i offset str affix h j p q =
    let (head, rest) = affix_loop-suc n i offset str affix h in
    elim (ℕ_discrete i j) [
      | yes e ↦ rw e at head
      | no ne ↦ affix_loop-Agrees n (i + 1) offset str affix rest j (omega arith) (omega arith)
    ]

Agrees-affix_loop :
    (n i offset : ℕ) (str affix : Text)
    → Agrees n i offset str affix
    → affix_loop n i offset str affix ≡ true
unfolding affix_loop
Agrees-affix_loop zero i offset str affix h = refl
Agrees-affix_loop (suc n) i offset str affix h =
    let rest : affix_loop n (i + 1) offset str affix ≡ true =
      Agrees-affix_loop n (i + 1) offset str affix (λ j p q. h j (omega arith) (omega arith)) in
    ground (arith, h i, rest)

prefix_of_agrees :
    (p s : Text)
    → length p ≤ length s
    → ((j : ℕ) → j < length p → get_or p j 0 ≡ get_or s j 0)
    → s ≡ p ++ drop (length p) s
prefix_of_agrees [] s h e = refl
prefix_of_agrees (x ∷ p) [] h e = absurd (omega arith)
prefix_of_agrees (x ∷ p) (y ∷ s) h e =
    let tails = prefix_of_agrees p s (omega arith) (λ j q. e (suc j) (omega arith)) in
    let heads : x ≡ y = e 0 (omega arith) in cc

get_or-append : (p r : Text) (j : ℕ) → j < length p → get_or (p ++ r) j 0 ≡ get_or p j 0
get_or-append [] r j h = absurd (omega arith)
get_or-append (x ∷ p) r zero h = refl
get_or-append (x ∷ p) r (suc j) h = get_or-append p r j (omega arith)

get_or-append_right : (p r : Text) (j k : ℕ) → k ≡ j + length p → get_or (p ++ r) k 0 ≡ get_or r j 0
get_or-append_right [] r j k h = ap (λ n. get_or r n 0) (omega arith)
get_or-append_right (x ∷ p) r j zero h = absurd (omega arith)
get_or-append_right (x ∷ p) r j (suc k) h = get_or-append_right p r j k (omega arith)

start_with-eq :
    (s p : Text)
    → start_with s p ≡ true
    → (length p ≤ length s) × (affix_loop (length p) 0 0 s p ≡ true)
unfolding start_with
start_with-eq s p h = ground arith

end_with-eq :
    (s p : Text)
    → end_with s p ≡ true
    → (length p ≤ length s) × (affix_loop (length p) 0 (length s - length p) s p ≡ true)
unfolding end_with
end_with-eq s p h = ground arith

get_or-drop : (k : ℕ) (s : Text) (j : ℕ) → get_or (drop k s) j 0 ≡ get_or s (j + k) 0
get_or-drop zero s j = ap (λ n. get_or s n 0) (omega arith)
get_or-drop (suc k) [] j = refl
get_or-drop (suc k) (x ∷ s) j =
    get_or-drop k s j ∙ ap (λ n. get_or (x ∷ s) n 0) {x = suc (j + k)} (omega arith)

eq_nil_of_length : (s : Text) → length s ≡ 0 → s ≡ []
eq_nil_of_length [] h = refl
eq_nil_of_length (x ∷ s) h = absurd (omega arith)

-- startWith answers true exactly when the text is the prefix followed by some rest.
pub start_with_iff : (s p : Text) → (start_with s p ≡ true) ↔ ((rest : Text) × (s ≡ p ++ rest))
unfolding start_with
start_with_iff s p = (sound, full)
  where
    sound : start_with s p ≡ true → (rest : Text) × (s ≡ p ++ rest)
    sound h =
        let (fits, loop) = start_with-eq s p h in
        let agrees = affix_loop-Agrees (length p) 0 0 s p loop in
        (
          drop (length p) s,
          prefix_of_agrees p s fits
              (λ j q. agrees j (omega arith) (omega arith) ∙ ap (λ n. get_or s n 0) (omega arith)),
        )

    full : (rest : Text) × (s ≡ p ++ rest) → start_with s p ≡ true
    full (rest, e) =
        let loop : affix_loop (length p) 0 0 (p ++ rest) p ≡ true =
          Agrees-affix_loop (length p) 0 0 (p ++ rest) p (λ j q r.
            sym (get_or-append p rest j (omega arith))
            ∙ ap (λ n. get_or (p ++ rest) n 0) (omega arith)) in
        rw e (ground (arith, loop, length-append p rest))

-- endWith answers true exactly when the text is some front followed by the suffix.
pub end_with_iff : (s p : Text) → (end_with s p ≡ true) ↔ ((front : Text) × (s ≡ front ++ p))
unfolding end_with
end_with_iff s p = (sound, full)
  where
    sound : end_with s p ≡ true → (front : Text) × (s ≡ front ++ p)
    sound h =
        let k = length s - length p in
        let (fits, loop) = end_with-eq s p h in
        let agrees = affix_loop-Agrees (length p) 0 k s p loop in
        let same : drop k s ≡ p ++ drop (length p) (drop k s) =
          prefix_of_agrees p (drop k s) (omega (arith, length-drop k s))
            (λ j q. agrees j (omega arith) (omega arith) ∙ sym (get_or-drop k s j)) in
        let none_left : drop (length p) (drop k s) ≡ [] =
          eq_nil_of_length _ (omega (arith, length-drop (length p) (drop k s), length-drop k s)) in
        (
          take k s,
          sym (take-append-drop k s) ∙ ap (λ t. take k s ++ t) (same ∙ rw none_left (append-nil p)),
        )

    full : (front : Text) × (s ≡ front ++ p) → end_with s p ≡ true
    full (front, e) =
        let k = length (front ++ p) - length p in
        let loop : affix_loop (length p) 0 k (front ++ p) p ≡ true =
          Agrees-affix_loop (length p) 0 k (front ++ p) p (λ j q r.
            sym (get_or-append_right front p j (j + k) (omega (arith, length-append front p)))) in
        rw e (ground (arith, loop, length-append front p))
