-- ===== src/Lc/Printed.antt =====
-- The texts of lists.
use mathlib.Core.List.{reverse, reverse_aux}
use quick_cmake.Prelude.{
  ℕ, zero, suc, ◌+◌, ◌-◌, ◌≤◌, ◌<◌, ◌≡◌, refl, ap, ◌∙◌, false, Option, some, ℤ, List, [], ◌∷◌, ◌++◌,
  codes, map, length, length-append, take-append, append_assoc, append-nil, ltb, arith,
}
use quick_cmake.Outcome.{value, ◌>>=◌, Returns-value}
use quick_cmake.Str.{Text}
use quick_cmake.Printer.{each_with}
use quick_cmake.Printer.Listed.{join, each_with-join}
use quick_cmake.Lc.{Store, vector_to_list, reverse_list, text_loop, without_sep, list_to_string}
use quick_cmake.Lc.Chains.{Cell, Chain, deref-value}
use quick_cmake.Lc.Reversed.{
  cells, length-cells, values-cells, vector_to_list_correct, reverse_list_correct, Distinct-cells,
}

map-reverse_aux :
    {A B : Type 0} (f : A → B) (xs r : List A)
    → map f (reverse_aux xs r) ≡ reverse_aux (map f xs) (map f r)
map-reverse_aux f [] r = refl
map-reverse_aux f (x ∷ xs) r = map-reverse_aux f xs (x ∷ r)

map-map :
    {A B C : Type 0} (f : A → B) (g : B → C) (xs : List A)
    → map (λ a. g (f a)) xs ≡ map g (map f xs)
map-map f g [] = refl
map-map f g (x ∷ xs) = ap (λ l. g (f x) ∷ l) (map-map f g xs)

length-reverse_aux : {A : Type 0} (xs r : List A) → length (reverse_aux xs r) ≡ length xs + length r
length-reverse_aux [] r = omega arith
length-reverse_aux (x ∷ xs) r = omega (arith, length-reverse_aux xs (x ∷ r))

without_sep-append : (x sep : Text) → without_sep (x ++ sep) sep ≡ x
unfolding without_sep
without_sep-append x sep =
    let size = length-append x sep in
    let long : ltb (length (x ++ sep)) (length sep) ≡ false = ground (arith, size) in
    let rest : length (x ++ sep) - length sep ≡ length x = omega (arith, size) in
    rw (long, rest) (take-append x sep)

module _ (show : ℤ → Text) (sep : Text) where
  text_loop-value :
      (fuel : ℕ) (p : Option ℕ) (s : Store) (ss : Text) (cs : List Cell)
      → length cs ≤ fuel
      → Chain s p cs
      → text_loop show sep fuel p s ss ≡ value (ss ++ each_with sep (map (λ c. show c.val) cs))
  unfolding text_loop each_with
  text_loop-value fuel p s ss [] f e = rw (e, append-nil ss) refl
  text_loop-value zero p s ss (c ∷ cs) f k = absurd (omega arith)
  text_loop-value (suc fuel) p s ss (c ∷ cs) f (next, e, there, rest) =
      let text = show c.val ++ sep in
      rw (e, deref-value s c.place _ there)
        (text_loop-value fuel next s (ss ++ text) cs (omega arith) rest
          ∙ (let later = each_with sep (map (λ c. show c.val) cs) in
              ap value (
                append_assoc ss text later
                ∙ ap (λ t. ss ++ t) (append_assoc (show c.val) sep later))))

  -- listToString of a list that is not empty.
  list_to_string-value :
      (fuel : ℕ) (p : Option ℕ) (s : Store) (cs : List Cell)
      → length cs ≤ fuel
      → 0 < length cs
      → Chain s p cs
      → list_to_string show sep fuel p s
        ≡ value (codes "[" ++ (join sep (map (λ c. show c.val) cs) ++ codes "]"))
  unfolding list_to_string
  list_to_string-value fuel p s [] f h k = absurd (omega arith)
  list_to_string-value fuel p s (c ∷ cs) f h k =
      let texts = map (λ c. show c.val) cs in
      rw
        (
          text_loop-value fuel p s (codes "[") (c ∷ cs) f k,
          each_with-join sep (show c.val) texts,
          without_sep-append (codes "[" ++ join sep (show c.val ∷ texts)) sep,
        )
        refl

  -- The ints of a vector that is not empty, made into a list, reversed and printed, stand in the
  -- text in the opposite order, in brackets and with the separator between them.
  pub reversed_text :
      (v : ℤ) (vs : List ℤ) (s : Store)
      → (do
        (h, t) ← vector_to_list (v ∷ vs) s
        (k, u) ← reverse_list (length vs) h t
        list_to_string show sep (suc (length vs)) (some k) u)
        ≡ value (codes "[" ++ (join sep (map show (reverse (v ∷ vs))) ++ codes "]"))
  unfolding cells
  reversed_text v vs s =
      let made = cells (length s) (v ∷ vs) in
      let ((h, t), listed, (start, chain)) = Returns-value (vector_to_list_correct v vs s) in
      let ((k, u), turned, back) = Returns-value (
        reverse_list_correct (length vs) t (record { place = length s; val = v })
          (cells (suc (length s)) vs) (omega (arith, length-cells (suc (length s)) vs)) chain
          (Distinct-cells (length s) (v ∷ vs))) in
      let size = length-reverse_aux made [] in
      let long = length-cells (length s) (v ∷ vs) in
      let vals =
        map-map (λ c. c.val) show (reverse made)
        ∙ ap (map show) (
            map-reverse_aux (λ c. c.val) made []
            ∙ ap (λ l. reverse_aux l []) (values-cells (length s) (v ∷ vs))) in
      rw
        (
          listed,
          start,
          turned,
          list_to_string-value (suc (length vs)) (some k) u (reverse made) (omega arith)
              (omega arith) back,
          vals,
        )
        refl
