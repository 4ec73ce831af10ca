-- ===== src/Printer/Listed.antt =====
-- The texts of containers, and splitting them.
use quick_cmake.Prelude.{
  ℕ, suc, ◌+◌, ◌≡◌, refl, ap, sym, ◌∙◌, ◌≢◌, true, false, List, [], ◌∷◌, ◌++◌, codes, All, length,
  drop, append_assoc, append-nil, ◌==◌, arith,
}
use quick_cmake.Outcome.{value}
use quick_cmake.Str.{Text, split_char}
use quick_cmake.Str.Split.{fields, flush}
use quick_cmake.Str.Fields.{IsField, split_char_lem}
use quick_cmake.Printer.{
  sequence, mapping, tuple, stack, queue, Values, pop_back, pop_back_times, each_with,
  for_based_container, stack_text, queue_text, tuple_elements, tuple_text, to_string, to_strings,
}

-- Texts with a separator between them.
pub join : Text → List Text → Text
join sep [] = []
join sep (t ∷ []) = t
join sep (t ∷ u ∷ ts) = t ++ (sep ++ join sep (u ∷ ts))

-- Texts in brackets, of which the left one has a name; no texts are written without it.
pub listed : Text → Text → List Text → Text
listed left sep [] = codes "[]"
listed left sep (t ∷ ts) = left ++ (join sep (t ∷ ts) ++ codes "]")

pop_back-last : (s : Text) (x : ℕ) → pop_back (s ++ x ∷ []) ≡ s
unfolding pop_back
pop_back-last [] x = refl
pop_back-last (y ∷ []) x = refl
pop_back-last (y ∷ z ∷ s) x = ap (λ t. y ∷ t) (pop_back-last (z ∷ s) x)

pub pop_back_times-suffix : (s sep : Text) → pop_back_times (length sep) (s ++ sep) ≡ s
unfolding pop_back_times
pop_back_times-suffix s [] = append-nil s
pop_back_times-suffix s (x ∷ sep) =
    let rest : pop_back_times (length sep) (s ++ x ∷ sep) ≡ s ++ x ∷ [] =
      rw (append_assoc s (x ∷ []) sep) at (pop_back_times-suffix (s ++ x ∷ []) sep) in
    rw rest (pop_back-last s x)

pub each_with-join :
    (sep t : Text) (ts : List Text) → each_with sep (t ∷ ts) ≡ join sep (t ∷ ts) ++ sep
unfolding each_with join
each_with-join sep t [] = rw append-nil refl
each_with-join sep t (u ∷ ts) =
    let rest = join sep (u ∷ ts) in
    ap (λ s. t ++ (sep ++ s)) (each_with-join sep u ts)
    ∙ ap (λ s. t ++ s) (sym (append_assoc sep rest sep))
    ∙ sym (append_assoc t (sep ++ rest) sep)

-- The loops of the container printers leave the separator off behind the last text.
listed-loop :
    (left sep t : Text) (ts : List Text)
    → pop_back_times (length sep) (left ++ each_with sep (t ∷ ts)) ++ codes "]"
      ≡ listed left sep (t ∷ ts)
unfolding listed
listed-loop left sep t ts =
    let rest = join sep (t ∷ ts) in
    rw
      (
        each_with-join sep t ts,
        sym (append_assoc left rest sep),
        pop_back_times-suffix (left ++ rest) sep,
      )
      (append_assoc left rest (codes "]"))

tuple_elements-join :
    (i : ℕ) (t : Text) (ts : List Text)
    → tuple_elements (suc i) (t ∷ ts) ≡ codes "," ++ join (codes ",") (t ∷ ts)
unfolding tuple_elements join
tuple_elements-join i t [] =
    let later : (suc i == 0) ≡ false = ground arith in rw (later, append-nil) refl
tuple_elements-join i t (u ∷ ts) =
    let later : (suc i == 0) ≡ false = ground arith in
    let index : suc i + 1 ≡ suc (suc i) = omega arith in
    rw (later, index) (ap (λ s. 44 ∷ (t ++ s)) (tuple_elements-join (suc i) u ts))

for_based-listed : (ts : List Text) → for_based_container ts ≡ listed (codes "[") (codes ",") ts
unfolding for_based_container listed
for_based-listed [] = refl
for_based-listed (t ∷ ts) = listed-loop (codes "[") (codes ",") t ts

stack_text-listed : (ts : List Text) → stack_text ts ≡ listed (codes "Stack[") (codes "<-") ts
unfolding stack_text listed each_with
stack_text-listed [] = refl
stack_text-listed (t ∷ ts) = listed-loop (codes "Stack[") (codes "<-") t ts

queue_text-listed : (ts : List Text) → queue_text ts ≡ listed (codes "Queue[") (codes "<-") ts
unfolding queue_text listed each_with
queue_text-listed [] = refl
queue_text-listed (t ∷ ts) = listed-loop (codes "Queue[") (codes "<-") t ts

tuple_text-join : (ts : List Text) → tuple_text ts ≡ codes "(" ++ (join (codes ",") ts ++ codes ")")
unfolding tuple_text tuple_elements join
tuple_text-join [] = refl
tuple_text-join (t ∷ []) = rw append-nil refl
tuple_text-join (t ∷ u ∷ ts) = ap (λ s. 40 ∷ ((t ++ s) ++ codes ")")) (tuple_elements-join 0 u ts)

-- toString writes the elements of sequences and maps in "[" and "]" with "," between them, the
-- elements of a stack, from its top, in "Stack[" and "]" with "<-" between them, those of a queue
-- likewise, from its front, in "Queue[", or "[]" where there is no element, and those of a tuple in
-- "(" and ")" with "," between them.
pub to_string-listed :
    (vs : Values)
    → (to_string (sequence vs) ≡ listed (codes "[") (codes ",") (to_strings vs))
      × (to_string (mapping vs) ≡ listed (codes "[") (codes ",") (to_strings vs))
      × (to_string (stack vs) ≡ listed (codes "Stack[") (codes "<-") (to_strings vs))
      × (to_string (queue vs) ≡ listed (codes "Queue[") (codes "<-") (to_strings vs))
      × (to_string (tuple vs) ≡ codes "(" ++ (join (codes ",") (to_strings vs) ++ codes ")"))
unfolding to_string
to_string-listed vs =
    let ts = to_strings vs in
    (
      for_based-listed ts,
      for_based-listed ts,
      stack_text-listed ts,
      queue_text-listed ts,
      tuple_text-join ts,
    )

flush-full : (t : Text) (r : List Text) → t ≢ [] → flush t r ≡ t ∷ r
flush-full [] r h = absurd (h refl)
flush-full (x ∷ t) r h = refl

module _ (c : ℕ) where
  fields-run :
      (p rest cur : Text)
      → All (λ x. (x == c) ≡ false) p
      → fields (λ x. x == c) cur (p ++ rest) ≡ fields (λ x. x == c) (cur ++ p) rest
  unfolding fields
  fields-run [] rest cur h = rw append-nil refl
  fields-run (x ∷ p) rest cur (hx, hp) = rw hx (
      fields-run p rest (cur ++ x ∷ []) hp
      ∙ ap (λ s. fields (λ y. y == c) s rest) (append_assoc cur (x ∷ []) p))

  fields-join :
      (ts : List Text)
      → All (IsField (λ x. x == c)) ts
      → fields (λ x. x == c) [] (join (c ∷ []) ts) ≡ ts
  unfolding join fields
  fields-join [] h = refl
  fields-join (t ∷ []) (h, _) =
      let run = rw append-nil at (fields-run t [] [] h.1) in run ∙ flush-full t [] h.0
  fields-join (t ∷ u ∷ ts) (h, hs) =
      let here : (c == c) ≡ true = ground arith in
      fields-run t (c ∷ join (c ∷ []) (u ∷ ts)) [] h.1
      ∙ rw here (flush-full t _ h.0 ∙ ap (λ r. t ∷ r) (fields-join (u ∷ ts) hs))

listed-inside :
    (ts : List Text) → pop_back (drop 1 (listed (codes "[") (codes ",") ts)) ≡ join (codes ",") ts
unfolding listed join pop_back
listed-inside [] = refl
listed-inside (t ∷ ts) = pop_back-last (join (codes ",") (t ∷ ts)) 93

-- If no element's text is empty or holds a comma, splitting what toString writes for a sequence,
-- without its brackets, at the commas returns the texts of the elements.
pub split-to_string :
    (vs : Values)
    → All (IsField (λ x. x == b',')) (to_strings vs)
    → split_char (pop_back (drop 1 (to_string (sequence vs)))) b',' ≡ value (to_strings vs)
split-to_string vs h =
    let inner = pop_back (drop 1 (to_string (sequence vs))) in
    let (r, done, splits) = split_char_lem inner b',' in
    done ∙ ap value (splits.0 ∙ rw inside (fields-join b',' (to_strings vs) h))
  where
    inside : pop_back (drop 1 (to_string (sequence vs))) ≡ join (codes ",") (to_strings vs)
    inside = rw ((to_string-listed vs).0) (listed-inside (to_strings vs))
