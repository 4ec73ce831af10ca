-- ===== src/Printer/Format.antt =====
-- What format makes of a template.
use quick_cmake.Prelude.{
  ℕ, ◌+◌, ◌≡◌, refl, ap, sym, ◌∙◌, ◌≢◌, true, false, none, some, List, [], ◌∷◌, ◌++◌, codes, All,
  length, get_or, drop, leb, append_assoc, take-append, drop-append, length-append, Bool-cases, inl,
  inr, arith,
}
use quick_cmake.Str.{Text, start_with}
use quick_cmake.Str.Affix.{start_with_iff}
use quick_cmake.Str.Search.{find_at, find}
use quick_cmake.Printer.{Values, to_strings, replace_at, replace_next, replace_all, format}

-- A template: pieces with "{}" between them.
unfoldable pub template : Text → List Text → Text
template p [] = p
template p (q ∷ qs) = p ++ (codes "{}" ++ template q qs)

-- The pieces with the values between them; values that are missing leave "{}".
unfoldable pub filled : Text → List Text → List Text → Text
filled p [] vals = p
filled p (q ∷ qs) [] = template p (q ∷ qs)
filled p (q ∷ qs) (v ∷ vals) = p ++ (v ++ filled q qs vals)

abbrev pub NoBrace : Text → Type 0
NoBrace = All (λ x. x ≢ b'{')

NoBrace-append : (s t : Text) → NoBrace s → NoBrace t → NoBrace (s ++ t)
NoBrace-append [] t h k = k
NoBrace-append (x ∷ s) t h k = (h.0, NoBrace-append s t h.1 k)

starts_brace : (x : ℕ) (s : Text) → x ≢ b'{' → start_with (x ∷ s) (codes "{}") ≡ false
starts_brace x s h = elim (Bool-cases (start_with (x ∷ s) (codes "{}"))) [
  | inr e ↦ e
  | inl e ↦
      let (rest, same) = (start_with_iff (x ∷ s) (codes "{}")).0 e in
      absurd (h (ap (λ l. get_or l 0 0) same))
]

find_at-none : (s : Text) (i : ℕ) → NoBrace s → find_at (codes "{}") s i ≡ none
unfolding find_at
find_at-none [] i h = elim (Bool-cases (start_with [] (codes "{}"))) [
  | inr e ↦ rw e refl
  | inl e ↦
      let (rest, same) = (start_with_iff [] (codes "{}")).0 e in
      absurd (omega (arith, ap length same))
]
find_at-none (x ∷ s) i h = rw (starts_brace x s h.0) (find_at-none s (i + 1) h.1)

find_at-front :
    (front rest : Text) (i : ℕ)
    → NoBrace front
    → find_at (codes "{}") (front ++ (codes "{}" ++ rest)) i ≡ some (i + length front)
unfolding find_at
find_at-front [] rest i h =
    rw ((start_with_iff (codes "{}" ++ rest) (codes "{}")).1 (rest, refl)) (ap some (omega arith))
find_at-front (x ∷ front) rest i h =
    rw (starts_brace x (front ++ (codes "{}" ++ rest)) h.0)
      (find_at-front front rest (i + 1) h.1 ∙ ap some (omega arith))

replace_next-none : (s v : Text) → NoBrace s → replace_next s v ≡ s
unfolding replace_next find replace_at
replace_next-none s v h =
    let start : leb 0 (length s) ≡ true = ground arith in rw (start, find_at-none s 0 h) refl

replace_next-front :
    (front v rest : Text)
    → NoBrace front
    → replace_next (front ++ (codes "{}" ++ rest)) v ≡ front ++ (v ++ rest)
unfolding replace_next find replace_at
replace_next-front front v rest h =
    let whole = front ++ (codes "{}" ++ rest) in
    let start : leb 0 (length whole) ≡ true = ground arith in
    let behind : drop (length front + 2) whole ≡ rest =
      rw (append_assoc front (codes "{}") rest, length-append front (codes "{}")) at
        (drop-append (front ++ codes "{}") rest) in
    let index : 0 + length front ≡ length front = omega arith in
    rw (start, find_at-front front rest 0 h, index)
      (rw (take-append front (codes "{}" ++ rest), behind) refl)

replace_all-template :
    (vals : List Text) (front p : Text) (qs : List Text)
    → NoBrace front
    → All NoBrace (p ∷ qs)
    → All NoBrace vals
    → replace_all (front ++ template p qs) vals ≡ front ++ filled p qs vals
unfolding replace_all template filled
replace_all-template [] front p [] hf hp hv = refl
replace_all-template [] front p (q ∷ qs) hf hp hv = refl
replace_all-template (v ∷ vals) front p [] hf hp hv =
    rw (replace_next-none (front ++ p) v (NoBrace-append front p hf hp.0))
      (replace_all-template vals front p [] hf hp hv.1)
replace_all-template (v ∷ vals) front p (q ∷ qs) hf hp hv =
    let rest = template q qs in
    let ahead = NoBrace-append front p hf hp.0 in
    let replaced =
      ap (λ s. replace_next s v) (sym (append_assoc front p (codes "{}" ++ rest)))
      ∙ replace_next-front (front ++ p) v rest ahead
      ∙ sym (append_assoc (front ++ p) v rest) in
    ap (λ s. replace_all s vals) replaced
    ∙ replace_all-template vals ((front ++ p) ++ v) q qs (NoBrace-append (front ++ p) v ahead hv.0)
        hp.1 hv.1
    ∙ append_assoc (front ++ p) v (filled q qs vals)
    ∙ append_assoc front p (v ++ filled q qs vals)

-- If neither a piece of the template nor the text of an argument holds "{", format puts the texts
-- of the arguments, in their order, in the places of the "{}"; surplus arguments are left out, and
-- places without an argument stay "{}".
pub format-filled :
    (p : Text) (qs : List Text) (args : Values)
    → All NoBrace (p ∷ qs)
    → All NoBrace (to_strings args)
    → format (template p qs) args ≡ filled p qs (to_strings args)
unfolding format
format-filled p qs args hp ha = replace_all-template (to_strings args) [] p qs tt hp ha
