-- ===== src/Str/Split.antt =====
-- _split: the loop on indices against a recursion on the text.
use quick_cmake.Prelude.{
  ℕ, zero, suc, ◌+◌, ◌-◌, ◌≤◌, ◌<◌, ◌≡◌, refl, sym, ap, ◌∙◌, Bool, true, false, List, [], ◌∷◌, ◌++◌,
  length, take, drop, length-append, drop-append, take-append, append-nil, append_assoc, ltb,
  lt→ltb, Bool-cases, if◌then◌else◌, inl, inr, arith,
}
use quick_cmake.Outcome.{value, out_of_fuel}
use quick_cmake.Str.{Text, Matcher, last_field, split_loop, split}

-- A field goes to the result unless it is empty.
abbrev pub flush : Text → List Text → List Text
flush [] r = r
flush (x ∷ cur) r = (x ∷ cur) ∷ r

-- The fields between the bytes that pass the test `d`, with `cur` read of the current one.
unfoldable pub fields : (ℕ → Bool) → Text → Text → List Text
fields d cur [] = flush cur []
fields d cur (x ∷ s) =
    let field = flush cur (fields d [] s) in
    let more = fields d (cur ++ x ∷ []) s in if d x then field else more

-- A matcher that looks at one byte.
abbrev pub Tests : (ℕ → Bool) → Matcher → Type 0
Tests d m = (x : ℕ) (s : Text) → m (x ∷ s) ≡ (if d x then (true, 1) else (false, 0))

flush-append : (cur : Text) (r : List Text) → flush cur r ≡ flush cur [] ++ r
flush-append [] r = refl
flush-append (x ∷ cur) r = refl

field_at :
    (pre cur rest : Text)
    → take (length pre + length cur - length pre) (drop (length pre) (pre ++ (cur ++ rest))) ≡ cur
field_at pre cur rest =
    ap (take (length pre + length cur - length pre)) (drop-append pre (cur ++ rest))
    ∙ ap (λ n. take n (cur ++ rest)) {y = length cur} (omega arith)
    ∙ take-append cur rest

rest_at : (pre cur rest : Text) → drop (length pre + length cur) (pre ++ (cur ++ rest)) ≡ rest
rest_at pre cur rest =
    ap (λ n. drop n (pre ++ (cur ++ rest))) (sym (length-append pre cur))
    ∙ ap (drop (length (pre ++ cur))) (sym (append_assoc pre cur rest))
    ∙ drop-append (pre ++ cur) rest

push_field :
    (pre cur rest : Text) (ret : List Text)
    → (if ltb (length pre) (length pre + length cur)
        then ret
          ++ (take (length pre + length cur - length pre) (drop (length pre) (pre ++ (cur ++ rest)))
              ∷ [])
        else ret)
      ≡ ret ++ flush cur []
push_field pre [] rest ret = ground (arith, append-nil ret)
push_field pre (x ∷ cur) rest ret = rw (field_at pre (x ∷ cur) rest) (ground arith)

last_at :
    (pre cur : Text) (ret : List Text)
    → last_field (pre ++ (cur ++ [])) (length pre) ret ≡ ret ++ flush cur []
last_at pre [] ret = ground (arith, append-nil ret, append-nil pre)
last_at pre (x ∷ cur) ret =
    let whole : drop (length pre) (pre ++ (x ∷ (cur ++ []))) ≡ x ∷ cur =
      drop-append pre _ ∙ append-nil (x ∷ cur) in
    rw whole (ground (arith, length-append pre (x ∷ (cur ++ []))))

pub split_loop-zero :
    (m : Matcher) (str : Text) (idx starter : ℕ) (ret : List Text)
    → split_loop 0 m str idx starter ret ≡ out_of_fuel
unfolding split_loop
split_loop-zero m str idx starter ret = refl

module _ (fuel : ℕ) (m : Matcher) (str : Text) (idx starter : ℕ) (ret : List Text) where
  -- The result after the field that ends at `idx`.
  abbrev pub with_field : List Text
  with_field =
      if ltb starter idx then ret ++ (take (idx - starter) (drop starter str) ∷ []) else ret

  pub split_loop-done :
      length str ≤ idx
      → split_loop (suc fuel) m str idx starter ret ≡ value (last_field str starter ret)
  unfolding split_loop
  split_loop-done h = ground arith

  pub split_loop-delim :
      (k : ℕ)
      → idx < length str
      → m (drop idx str) ≡ (true, k)
      → split_loop (suc fuel) m str idx starter ret
        ≡ split_loop fuel m str (idx + k) (idx + k) with_field
  unfolding split_loop
  split_loop-delim k h e = rw e (rw (lt→ltb idx (length str) h))

  pub split_loop-plain :
      (k : ℕ)
      → idx < length str
      → m (drop idx str) ≡ (false, k)
      → split_loop (suc fuel) m str idx starter ret ≡ split_loop fuel m str (idx + 1) starter ret
  unfolding split_loop
  split_loop-plain k h e = rw e (rw (lt→ltb idx (length str) h))

fields-delim :
    (d : ℕ → Bool) (cur : Text) (x : ℕ) (s : Text)
    → d x ≡ true
    → fields d cur (x ∷ s) ≡ flush cur [] ++ fields d [] s
unfolding fields
fields-delim d cur x s e = rw e (flush-append cur _)

fields-plain :
    (d : ℕ → Bool) (cur : Text) (x : ℕ) (s : Text)
    → d x ≡ false
    → fields d cur (x ∷ s) ≡ fields d (cur ++ x ∷ []) s
unfolding fields
fields-plain d cur x s e = rw e

-- `str` is `pre`, the current field so far, and the rest that the loop has not read.
record At (str pre cur rest : Text) (idx starter : ℕ) : Type 0 where
  whole : str ≡ pre ++ (cur ++ rest)
  start : starter ≡ length pre
  here : idx ≡ length pre + length cur

module _ {str pre cur : Text} {x : ℕ} {rest : Text} {idx starter : ℕ} where
  At-plain :
      At str pre cur (x ∷ rest) idx starter → At str pre (cur ++ x ∷ []) rest (idx + 1) starter
  At-plain a = record {
    whole = a.whole ∙ ap (λ t. pre ++ t) (sym (append_assoc cur (x ∷ []) rest));
    start = a.start;
    here = omega (arith, a.here, length-append cur (x ∷ []));
  }

  At-delim :
      At str pre cur (x ∷ rest) idx starter
      → At str (pre ++ (cur ++ x ∷ [])) [] rest (idx + 1) (idx + 1)
  At-delim a =
      let size : idx + 1 ≡ length (pre ++ (cur ++ x ∷ [])) =
        omega (arith, a.here, length-append pre (cur ++ x ∷ []), length-append cur (x ∷ [])) in
      record {
        whole =
            a.whole
            ∙ ap (λ t. pre ++ t) (sym (append_assoc cur (x ∷ []) rest))
            ∙ sym (append_assoc pre (cur ++ x ∷ []) rest);
        start = size;
        here = omega (arith, size);
      }

At-rest :
    {str pre cur rest : Text} {idx starter : ℕ}
    → At str pre cur rest idx starter
    → drop idx str ≡ rest
At-rest {pre = pre} {cur = cur} {rest = rest} a = rw (a.whole, a.here) (rest_at pre cur rest)

At-length :
    {str pre cur rest : Text} {idx starter : ℕ}
    → At str pre cur rest idx starter
    → length str ≡ idx + length rest
At-length {pre = pre} {cur = cur} {rest = rest} a =
    ap length a.whole
    ∙ omega (arith, length-append pre (cur ++ rest), length-append cur rest, a.here)

At-field :
    {str pre cur rest : Text} {idx starter : ℕ} (fuel : ℕ) (m : Matcher) (ret : List Text)
    → At str pre cur rest idx starter
    → with_field fuel m str idx starter ret ≡ ret ++ flush cur []
At-field {pre = pre} {cur = cur} {rest = rest} fuel m ret a =
    rw (a.whole, a.here, a.start) (push_field pre cur rest ret)

-- The loop appends the fields of the rest of the text to those it has.
split_loop-fields :
    (d : ℕ → Bool) (m : Matcher)
    → Tests d m
    → (rest str pre cur : Text) (idx starter : ℕ) (ret : List Text) (fuel : ℕ) → length rest < fuel
    → At str pre cur rest idx starter
    → split_loop fuel m str idx starter ret ≡ value (ret ++ fields d cur rest)
unfolding fields
split_loop-fields d m t rest str pre cur idx starter ret zero h a = absurd (omega arith)
split_loop-fields d m t [] str pre cur idx starter ret (suc fuel) h a =
    split_loop-done fuel m str idx starter ret (omega (arith, At-length a))
    ∙ ap value (rw (a.whole, a.start) (last_at pre cur ret))
split_loop-fields d m t (x ∷ rest) str pre cur idx starter ret (suc fuel) h a =
    let inside : idx < length str = omega (arith, At-length a) in
    elim (Bool-cases (d x)) [
      | inl e ↦
          let asked : m (drop idx str) ≡ (true, 1) = rw (At-rest a) (t x rest ∙ rw e) in
          split_loop-delim fuel m str idx starter ret 1 inside asked
          ∙ split_loop-fields d m t rest str (pre ++ (cur ++ x ∷ [])) [] (idx + 1) (idx + 1)
              (with_field fuel m str idx starter ret) fuel (omega arith) (At-delim a)
          ∙ ap value (
              ap (λ r. r ++ fields d [] rest) (At-field fuel m ret a)
              ∙ append_assoc ret (flush cur []) (fields d [] rest)
              ∙ ap (λ r. ret ++ r) (sym (fields-delim d cur x rest e)))
      | inr e ↦
          let asked : m (drop idx str) ≡ (false, 0) = rw (At-rest a) (t x rest ∙ rw e) in
          split_loop-plain fuel m str idx starter ret 0 inside asked
          ∙ split_loop-fields d m t rest str pre (cur ++ x ∷ []) (idx + 1) starter ret fuel
              (omega arith) (At-plain a)
          ∙ ap (λ r. value (ret ++ r)) (sym (fields-plain d cur x rest e))
    ]

pub split-fields :
    (d : ℕ → Bool) (m : Matcher) → Tests d m → (str : Text) → split m str ≡ value (fields d [] str)
unfolding split
split-fields d m t str =
    split_loop-fields d m t str str [] [] 0 0 [] (suc (length str)) (omega arith)
      (record { whole = refl; start = refl; here = refl })
