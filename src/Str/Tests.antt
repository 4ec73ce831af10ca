-- ===== src/Str/Tests.antt =====
-- Runs of the string utilities, and their theorems at concrete texts.
use Prim.Native.Char.{code}
use Prim.Native.String.{String}
use quick_cmake.Prelude.{false, ◌≡◌, refl, true, List, [], ◌∷◌, ◌++◌, ◌==◌, arith}
use quick_cmake.Outcome.{value, undefined}
use quick_cmake.Str
use quick_cmake.Str.{
  Text, start_with, end_with, strip, split_char, split_text, split_texts, split, Matcher,
  split_texts, split_chars, split_loop, text_matcher, texts_matcher, text_greater, sort_desc,
  basename, dirname, basename_without_ext,
}
use quick_cmake.Str.Fields.{Splits, split_char_lem}
use quick_cmake.Str.Texts.{split_text_total}
use quick_cmake.Str.Longest.{IsLongest, split_texts-longest}
use quick_cmake.Str.Search.{is_space, contains, count, contains_iff, count_total}
use quick_cmake.Str.Search
use quick_cmake.Str.Strip.{spaces, strip_trims}

abbrev bytes : String → Text
bytes String.[] = []
bytes (String.◌∷◌ c s) = code c ∷ bytes s

splits :
    (split_char (bytes "-p=a==b") b'=' ≡ value (bytes "-p" ∷ bytes "a" ∷ bytes "b" ∷ []))
    × (split_text (bytes "a::b::") (bytes "::") ≡ value (bytes "a" ∷ bytes "b" ∷ []))
    × (split_texts (bytes "a<=b<c") (bytes "<" ∷ bytes "<=" ∷ [])
        ≡ value (bytes "a" ∷ bytes "b" ∷ bytes "c" ∷ []))
    × (split_chars (bytes "a/b,c") (b',' ∷ b'/' ∷ [])
        ≡ value (bytes "a" ∷ bytes "b" ∷ bytes "c" ∷ []))
unfolding split_char split_text split_texts split_chars split_loop Str.char_matcher text_matcher
    start_with texts_matcher sort_desc Str.insert_desc text_greater Str.chars_matcher
    Str.char_greater
splits = (refl, refl, refl, refl)

names :
    (basename (bytes "/usr/lib/x.tar.gz") ≡ value (bytes "x.tar.gz"))
    × (basename_without_ext (bytes "/usr/lib/x.tar.gz") ≡ value (bytes "x.tar"))
    × (dirname (bytes "/usr/lib/x") ≡ bytes "/usr/lib")
    × (basename (bytes "/") ≡ undefined)
unfolding basename basename_without_ext dirname split_texts split_loop texts_matcher sort_desc
    Str.insert_desc text_greater start_with Str.last_of Str.last_of_byte
names = (refl, refl, refl, refl)

split_char_lem_example :
    (r : List Text) × (split_char (bytes "a=b") b'=' ≡ value r)
    × Splits (λ x. x == b'=') (bytes "a=b") r
split_char_lem_example = split_char_lem (bytes "a=b") b'='

split_text_total_example : (r : List Text) × (split_text (bytes "a/b") (bytes "/") ≡ value r)
split_text_total_example = split_text_total (bytes "a/b") (bytes "/") (λ e. cc)

split_texts-longest_example :
    (m : Matcher) × (split_texts (bytes "<=b") (bytes "<" ∷ bytes "<=" ∷ [])
      ≡ split m (bytes "<=b"))
    × ((s : Text) → IsLongest s (bytes "<" ∷ bytes "<=" ∷ []) (m s))
split_texts-longest_example = split_texts-longest (bytes "<=b") (bytes "<" ∷ bytes "<=" ∷ [])

strip_trims_example : strip (spaces 2 ++ (bytes "a b" ++ spaces 1)) ≡ value (bytes "a b")
strip_trims_example =
    strip_trims 2 1 (bytes "a b") (bytes " b") (bytes "a ") b'a' b'b' refl refl (omega arith)
      (omega arith)

count-runs :
    (count (bytes "a--b---c") (bytes "--") ≡ value 2)
    × (contains (bytes "abc") (bytes "bd") ≡ false)
unfolding count Search.count_loop Search.find Search.find_at start_with contains
count-runs = (refl, refl)

spaces_only : is_space (32 ∷ 9 ∷ 10 ∷ []) ≡ true
unfolding is_space
spaces_only = refl
