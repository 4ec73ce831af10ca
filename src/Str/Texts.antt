-- ===== src/Str/Texts.antt =====
-- split at delimiter texts: it ends unless a delimiter is empty, and takes the longest that fits.
use quick_cmake.Prelude.{
  ℕ, zero, suc, ◌+◌, ◌<◌, ◌≡◌, refl, ◌∙◌, ◌≢◌, inl, inr, true, false, List, [], ◌∷◌, length, drop,
  Bool-cases, arith,
}
use quick_cmake.Outcome.{value, out_of_fuel}
use quick_cmake.Str.{Text, Matcher, split_loop, split, text_matcher, split_text}
use quick_cmake.Str.Affix.{start_with_iff}
use quick_cmake.Str.Split.{
  with_field, split_loop-zero, split_loop-done, split_loop-delim, split_loop-plain,
}
use native.Mathlib.Decide.{dec_lt}

-- A matcher that finds no delimiter of length zero.
abbrev Advances : Matcher → Type 0
Advances m = (s : Text) → (m s).0 ≡ true → 0 < (m s).1

split_loop_total :
    (m : Matcher)
    → Advances m
    → (fuel : ℕ) (str : Text) (idx starter : ℕ) (ret : List Text) → length str < fuel + idx
    → 0 < fuel
    → (r : List Text) × (split_loop fuel m str idx starter ret ≡ value r)
split_loop_total m adv zero str idx starter ret h pos = absurd (omega arith)
split_loop_total m adv (suc fuel) str idx starter ret h pos = elim (dec_lt idx (length str)) [
  | no past ↦ (_, split_loop-done fuel m str idx starter ret (omega arith))
  | yes inside ↦ elim (Bool-cases (m (drop idx str)).0) [
    | inl e ↦
        let k = (m (drop idx str)).1 in
        let asked : m (drop idx str) ≡ (true, k) = ground arith in
        let grows : 0 < k = adv (drop idx str) e in
        let (r, done) =
          split_loop_total m adv fuel str (idx + k) (idx + k)
            (with_field fuel m str idx starter ret) (omega arith) (omega arith) in
        (r, split_loop-delim fuel m str idx starter ret k inside asked ∙ done)
    | inr e ↦
        let asked : m (drop idx str) ≡ (false, (m (drop idx str)).1) = ground arith in
        let (r, done) =
          split_loop_total m adv fuel str (idx + 1) starter ret (omega arith) (omega arith) in
        (r, split_loop-plain fuel m str idx starter ret _ inside asked ∙ done)
  ]
]

text_matcher-Advances : (delim : Text) → delim ≢ [] → Advances (text_matcher delim)
unfolding text_matcher
text_matcher-Advances [] h s e = absurd (h refl)
text_matcher-Advances (c ∷ delim) h s e = ground arith

-- Splitting at a delimiter that is not empty returns for every text.
pub split_text_total :
    (s delim : Text) → delim ≢ [] → (r : List Text) × (split_text s delim ≡ value r)
unfolding split_text split
split_text_total s delim h =
    split_loop_total (text_matcher delim) (text_matcher-Advances delim h) (suc (length s)) s 0 0 []
      (omega arith) (omega arith)

text_matcher_empty : (s : Text) → text_matcher [] s ≡ (true, 0)
unfolding text_matcher
text_matcher_empty s = rw ((start_with_iff s []).1 (s, refl))

-- With an empty delimiter the loop stays at its first index: no number of rounds is enough for a
-- text that is not empty.
pub split_text-empty :
    (fuel x : ℕ) (s : Text) → split_loop fuel (text_matcher []) (x ∷ s) 0 0 [] ≡ out_of_fuel
split_text-empty zero x s = split_loop-zero (text_matcher []) (x ∷ s) 0 0 []
split_text-empty (suc fuel) x s =
    split_loop-delim fuel (text_matcher []) (x ∷ s) 0 0 [] 0 (omega arith)
      (text_matcher_empty (x ∷ s))
    ∙ split_text-empty fuel x s
