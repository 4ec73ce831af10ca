-- ===== src/Str.antt =====
-- include/skutils/string_utils.h. A text is the list of its bytes, as in a std::string_view.
pub mod Affix
pub mod Split
pub mod Fields
pub mod Texts
pub mod Longest
pub mod Strip
pub mod Search
mod Tests
use quick_cmake.Prelude.{
  ℕ, zero, suc, ◌+◌, ◌-◌, ◌%◌, Bool, true, false, ◌&&◌, ◌||◌, Option, none, some, List, [], ◌∷◌,
  ◌++◌, length, get_or, take, drop, ltb, leb, ◌==◌, if◌then◌else◌,
}
use quick_cmake.Outcome.{Outcome, value, thrown, undefined, out_of_fuel, out_of_range, ◌>>=◌}

abbrev pub Text : Type 0
Text = List ℕ

-- The loop `for (i = 0; i < affix.length(); i++)` of startWith and endWith, with `offset` added to
-- the index into `str`; `rounds` counts the bytes of the affix that are left.
affix_loop : ℕ → ℕ → ℕ → Text → Text → Bool
affix_loop zero i offset str affix = true
affix_loop (suc rounds) i offset str affix =
    let next = affix_loop rounds (i + 1) offset str affix in
    if get_or affix i 0 == get_or str (i + offset) 0 then next else false

unfoldable pub start_with : Text → Text → Bool
unfolding affix_loop
start_with str prefix =
    if ltb (length str) (length prefix) then false else affix_loop (length prefix) 0 0 str prefix

pub end_with : Text → Text → Bool
unfolding affix_loop
end_with str suffix =
    if ltb (length str) (length suffix)
    then false
    else affix_loop (length suffix) 0 (length str - length suffix) str suffix

-- std::string_view::find_first_not_of and find_last_not_of of one byte, `none` for npos.
first_not_of : ℕ → ℕ → Text → Option ℕ
first_not_of c i [] = none
first_not_of c i (x ∷ s) = if x == c then first_not_of c (i + 1) s else some i

last_not_of : ℕ → ℕ → Text → Option ℕ
last_not_of c i [] = none
last_not_of c i (x ∷ s) = elim (last_not_of c (i + 1) s) [
  | some j ↦ some j
  | none ↦ if x == c then none else some i
]

-- str.substr(pos, count): a position past the end throws.
substr : Text → ℕ → ℕ → Outcome Text
substr s pos count =
    if ltb (length s) pos then thrown out_of_range else value (take count (drop pos s))

-- With npos for both positions the call of substr throws.
unfoldable pub strip : Text → Outcome Text
unfolding first_not_of last_not_of substr
strip s = elim (first_not_of b' ' 0 s) [
  | none ↦ thrown out_of_range
  | some l ↦ elim (last_not_of b' ' 0 s) [
    | none ↦ thrown out_of_range
    | some r ↦ substr s l (r - l + 1)
  ]
]

-- What `itermoter` answers at the rest of the text: whether a delimiter starts it, and its length.
abbrev pub Matcher : Type 0
Matcher = Text → Bool × ℕ

-- The tail of _split: the last field, if it is not empty.
abbrev pub last_field : Text → ℕ → List Text → List Text
last_field str starter ret =
    if ltb starter (length str) then ret ++ (drop starter str ∷ []) else ret

-- The loop of _split, with its variables `idx`, `starter` and `ret`.
pub split_loop : ℕ → Matcher → Text → ℕ → ℕ → List Text → Outcome (List Text)
split_loop zero m str idx starter ret = out_of_fuel
split_loop (suc fuel) m str idx starter ret =
    let (is_delim, idx_instance) = m (drop idx str) in
    let ret' =
      if ltb starter idx then ret ++ (take (idx - starter) (drop starter str) ∷ []) else ret in
    let field = split_loop fuel m str (idx + idx_instance) (idx + idx_instance) ret' in
    let more = split_loop fuel m str (idx + 1) starter ret in
    if ltb idx (length str)
    then (if is_delim then field else more)
    else value (last_field str starter ret)

pub split : Matcher → Text → Outcome (List Text)
split m str = split_loop (suc (length str)) m str 0 0 []

-- `substr[0] == delim`; the loop asks only at a rest that is not empty.
pub char_matcher : ℕ → Matcher
char_matcher delim s = if get_or s 0 0 == delim then (true, 1) else (false, 0)

pub text_matcher : Text → Matcher
text_matcher delim s = if start_with s delim then (true, length delim) else (false, 0)

-- The loop over the sorted delimiters.
pub texts_matcher : List Text → Matcher
texts_matcher [] s = (false, 0)
texts_matcher (delim ∷ delims) s =
    if start_with s delim then (true, length delim) else texts_matcher delims s

pub chars_matcher : List ℕ → Matcher
chars_matcher [] s = (false, 0)
chars_matcher (c ∷ cs) s = if get_or s 0 0 == c then (true, 1) else chars_matcher cs s

-- `a > b` of std::string, byte by byte.
unfoldable pub text_greater : Text → Text → Bool
text_greater [] b = false
text_greater (x ∷ a) [] = true
text_greater (x ∷ a) (y ∷ b) = ltb y x || ((x == y) && text_greater a b)

-- std::sort(delims.begin(), delims.end(), std::greater<>()), for the `>` of the element type.
module _ {A : Type 0} (greater : A → A → Bool) where
  pub insert_desc : A → List A → List A
  insert_desc a [] = a ∷ []
  insert_desc a (b ∷ bs) = if greater b a then b ∷ insert_desc a bs else a ∷ b ∷ bs

  pub sort_desc : List A → List A
  sort_desc [] = []
  sort_desc (a ∷ rest) = insert_desc a (sort_desc rest)

-- `a > b` of a signed char.
pub char_greater : ℕ → ℕ → Bool
char_greater a b = ltb ((b + 128) % 256) ((a + 128) % 256)

unfoldable pub split_char : Text → ℕ → Outcome (List Text)
unfolding split split_loop char_matcher
split_char str delim = split (char_matcher delim) str

pub split_text : Text → Text → Outcome (List Text)
unfolding split
split_text str delim = split (text_matcher delim) str

-- The matcher of split at several delimiter texts, which sorts them first.
pub sorted_matcher : List Text → Matcher
sorted_matcher delims = texts_matcher (sort_desc text_greater delims)

pub split_texts : Text → List Text → Outcome (List Text)
unfolding split sorted_matcher
split_texts str delims = split (sorted_matcher delims) str

pub split_chars : Text → List ℕ → Outcome (List Text)
unfolding split
split_chars str delims = split (chars_matcher (sort_desc char_greater delims)) str

-- `*(v.end() - 1)` of an empty vector is undefined.
pub last_of : List Text → Outcome Text
last_of [] = undefined
last_of (x ∷ []) = value x
last_of (x ∷ y ∷ r) = last_of (y ∷ r)

pub basename : Text → Outcome Text
basename filename = split_texts filename ((b'/' ∷ []) ∷ (b'\\' ∷ []) ∷ []) >>= last_of

-- find_last_of of one byte.
pub last_of_byte : ℕ → ℕ → Text → Option ℕ
last_of_byte c i [] = none
last_of_byte c i (x ∷ s) = elim (last_of_byte c (i + 1) s) [
  | some j ↦ some j
  | none ↦ if x == c then some i else none
]

-- substr(0, pos), with the whole text for npos.
abbrev pub up_to : Text → Option ℕ → Text
up_to s none = s
up_to s (some n) = take n s

pub dirname : Text → Text
dirname filename = up_to filename (elim (last_of_byte b'/' 0 filename) [
  | some pos ↦ some pos
  | none ↦ last_of_byte b'\\' 0 filename
])

pub basename_without_ext : Text → Outcome Text
basename_without_ext filename = do
  base ← basename filename
  value (up_to base (last_of_byte b'.' 0 base))
