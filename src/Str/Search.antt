-- ===== src/Str/Search.antt =====
-- isspace, contains and count of string_utils.h, on std::string_view::find.
use mathlib.Core.Bool.{false≢true}
use mathlib.Core.Option.{some-injective, none-ne-some}
use native.Mathlib.Nat.{add-mul}
use quick_cmake.Prelude.{
  ℕ, zero, suc, ◌+◌, ◌*◌, ◌≤◌, ◌<◌, ◌≡◌, ◌≢◌, ◌-◌, length-append, length-drop, refl, sym, ap, subst,
  ◌∙◌, ◌↔◌, inl, inr, Bool, true, false, ◌||◌, ◌&&◌, Option, none, some, [], ◌∷◌, ◌++◌, length,
  drop, leb, ◌==◌, if◌then◌else◌, arith, Bool-cases, Option-cases,
}
use quick_cmake.Outcome.{Outcome, value, out_of_fuel}
use quick_cmake.Str.{Text, start_with}
use quick_cmake.Str.Affix.{start_with_iff}

pub is_space_char : ℕ → Bool
is_space_char c = c == b' ' || (c == 10 || c == 9)

unfoldable pub is_space : Text → Bool
unfolding is_space_char
is_space [] = true
is_space (c ∷ s) = is_space_char c && is_space s

-- std::string_view::find on a rest of the text that begins at `i`.
unfoldable pub find_at : Text → Text → ℕ → Option ℕ
find_at p [] i = if start_with [] p then some i else none
find_at p (x ∷ s) i =
    let later = find_at p s (i + 1) in if start_with (x ∷ s) p then some i else later

unfoldable pub find : Text → Text → ℕ → Option ℕ
find s p pos = if leb pos (length s) then find_at p (drop pos s) pos else none

abbrev is_found : Option ℕ → Bool
is_found none = false
is_found (some i) = true

unfoldable pub contains : Text → Text → Bool
contains s p = is_found (find s p 0)

unfoldable pub count_loop : ℕ → Text → Text → ℕ → ℕ → Outcome ℕ
count_loop zero s p pos cnt = out_of_fuel
count_loop (suc fuel) s p pos cnt = elim (find s p pos) [
  | none ↦ value cnt
  | some at ↦ count_loop fuel s p (at + length p) (cnt + 1)
]

-- A substring that is not empty is found at most as often as there are bytes.
unfoldable pub count : Text → Text → Outcome ℕ
count s p = count_loop (suc (length s)) s p 0 0

find_at_found :
    (p s : Text) (i j : ℕ)
    → find_at p s i ≡ some j
    → (front : Text) × (rest : Text) × (s ≡ front ++ (p ++ rest)) × (j ≡ i + length front)
unfolding find_at
find_at_found p [] i j h = elim (Bool-cases (start_with [] p)) [
  | inl e ↦
      let (rest, same) = (start_with_iff [] p).0 e in
      let here : i ≡ j = some-injective i j (rw e at h) in ([], rest, same, omega arith)
  | inr e ↦ absurd (none-ne-some j (rw e at h))
]
find_at_found p (x ∷ s) i j h = elim (Bool-cases (start_with (x ∷ s) p)) [
  | inl e ↦
      let (rest, same) = (start_with_iff (x ∷ s) p).0 e in
      let here : i ≡ j = some-injective i j (rw e at h) in ([], rest, same, omega arith)
  | inr e ↦
      let (front, rest, same, at) = find_at_found p s (i + 1) j (rw e at h) in
      (x ∷ front, rest, ap (λ l. x ∷ l) same, omega (arith, at))
]

find_at_first : (p t : Text) (i : ℕ) → start_with t p ≡ true → find_at p t i ≡ some i
unfolding find_at
find_at_first p [] i h = rw h refl
find_at_first p (x ∷ t) i h = rw h refl

find_at_lost : (p front rest : Text) (i : ℕ) → find_at p (front ++ (p ++ rest)) i ≢ none
unfolding find_at
find_at_lost p [] rest i h =
    let found = find_at_first p (p ++ rest) i ((start_with_iff (p ++ rest) p).1 (rest, refl)) in
    none-ne-some i (sym h ∙ found)
find_at_lost p (x ∷ front) rest i h =
    elim (Bool-cases (start_with (x ∷ (front ++ (p ++ rest))) p)) [
      | inl e ↦ none-ne-some i (sym (rw e at h))
      | inr e ↦ find_at_lost p front rest (i + 1) (rw e at h)
    ]

contains-eq : (s p : Text) → contains s p ≡ is_found (find_at p s 0)
unfolding contains find
contains-eq s p = let start : leb 0 (length s) ≡ true = ground arith in rw start refl

-- contains answers true exactly when the text is some front, the substring and some rest.
pub contains_iff :
    (s p : Text)
    → (contains s p ≡ true) ↔ ((front : Text) × (rest : Text) × (s ≡ front ++ (p ++ rest)))
contains_iff s p = (sound, full)
  where
    sound : contains s p ≡ true → (front : Text) × (rest : Text) × (s ≡ front ++ (p ++ rest))
    sound h = elim (Option-cases (find_at p s 0)) [
      | inl e ↦
          let bad : false ≡ true = rw e at (sym (contains-eq s p) ∙ h) in absurd (false≢true bad)
      | inr (j, e) ↦ let (front, rest, same, _) = find_at_found p s 0 j e in (front, rest, same)
    ]

    full : (front : Text) × (rest : Text) × (s ≡ front ++ (p ++ rest)) → contains s p ≡ true
    full h = elim (Option-cases (find_at p s 0)) [
      | inl e ↦ absurd (find_at_lost p h.0 h.1 0 (subst (λ t. find_at p t 0 ≡ none) h.2 e))
      | inr (j, e) ↦ contains-eq s p ∙ ap is_found e
    ]

find_inside :
    (s p : Text) (pos j : ℕ) → find s p pos ≡ some j → (pos ≤ j) × (j + length p ≤ length s)
unfolding find
find_inside s p pos j h = elim (Bool-cases (leb pos (length s))) [
  | inl e ↦
      let (front, rest, same, at) = find_at_found p (drop pos s) pos j (rw e at h) in
      let size : length s - pos ≡ length front + (length p + length rest) =
        sym (length-drop pos s)
        ∙ ap length same
        ∙ length-append front (p ++ rest)
        ∙ ap (λ n. length front + n) (length-append p rest) in
      let inside : pos ≤ length s = ground arith in (omega arith, omega arith)
  | inr e ↦ absurd (none-ne-some j (rw e at h))
]

count_loop_total :
    (fuel : ℕ) (s p : Text) (pos cnt : ℕ)
    → 0 < length p
    → length s < pos + fuel
    → cnt * length p ≤ pos
    → pos ≤ length s
    → (n : ℕ) × (count_loop fuel s p pos cnt ≡ value n) × (n * length p ≤ length s)
unfolding count_loop
count_loop_total zero s p pos cnt hp h k q = absurd (omega arith)
count_loop_total (suc fuel) s p pos cnt hp h k q = elim (Option-cases (find s p pos)) [
  | inl e ↦ (cnt, rw (e, count_loop) refl, omega arith)
  | inr (j, e) ↦
      let (before, inside) = find_inside s p pos j e in
      let copies = add-mul cnt 1 (length p) in
      let (n, ends, few) =
        count_loop_total fuel s p (j + length p) (cnt + 1) hp (omega arith) (omega (arith, copies))
          (omega arith) in
      (n, rw (e, count_loop) ends, few)
]

-- count of a substring that is not empty returns, and so many copies of it fit in the text.
pub count_total :
    (s p : Text) → 0 < length p → (n : ℕ) × (count s p ≡ value n) × (n * length p ≤ length s)
unfolding count
count_total s p hp =
    count_loop_total (suc (length s)) s p 0 0 hp (omega arith) (omega arith) (omega arith)
