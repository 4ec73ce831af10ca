-- ===== src/Printer.antt =====
-- include/skutils/printer.h, as C++20 compiles it: toString of what the branches of its dispatch
-- tell apart, and the formatter.
pub mod Listed
pub mod Format
mod Tests
use quick_cmake.Prelude.{
  ℕ, zero, suc, ◌+◌, Bool, true, false, Option, none, some, List, [], ◌∷◌, ◌++◌, codes, length,
  take, drop, ◌==◌, if◌then◌else◌,
}
use quick_cmake.Str.{Text}
use quick_cmake.Str.Search.{find}

-- A value, by the branch of toString that its type takes. What operator<< or toString of the value
-- itself writes, and the texts of addresses and of the numbers of enumerators, are part of it; a
-- `_of_unknown` holds a value whose type is not Printable.
mutual
  pub data Value : Type 0 where
    serializable : Text → Value
    boolean : Bool → Value
    function : Text → Value
    null_pointer : Value
    pointer : Text → Value → Value
    pointer_of_unknown : Text → Value
    nullopt : Value
    optional : Value → Value
    optional_of_unknown : Value
    variant : Value → Value
    variant_of_unknown : Value
    streamed : Text → Value
    sequence : Values → Value
    mapping : Values → Value
    pair : Value → Value → Value
    tuple : Values → Value
    stack : Values → Value
    queue : Values → Value
    enumerator : Text → Value
    unprintable : Value

  pub data Values : Type 0 where
    no_more : Values
    more : Value → Values → Values

-- std::string::pop_back, n times.
unfoldable pub pop_back : Text → Text
pop_back [] = []
pop_back (x ∷ []) = []
pop_back (x ∷ y ∷ s) = x ∷ pop_back (y ∷ s)

unfoldable pub pop_back_times : ℕ → Text → Text
pop_back_times zero s = s
pop_back_times (suc n) s = pop_back (pop_back_times n s)

-- The loops that write each text with the separator behind it.
unfoldable pub each_with : Text → List Text → Text
each_with sep [] = []
each_with sep (t ∷ ts) = t ++ (sep ++ each_with sep ts)

unfoldable pub for_based_container : List Text → Text
for_based_container [] = codes "[]"
for_based_container (t ∷ ts) =
    pop_back_times 1 (codes "[" ++ each_with (codes ",") (t ∷ ts)) ++ codes "]"

unfoldable pub stack_text : List Text → Text
stack_text [] = codes "[]"
stack_text (t ∷ ts) =
    pop_back_times 2 (codes "Stack[" ++ (t ++ (codes "<-" ++ each_with (codes "<-") ts)))
    ++ codes "]"

unfoldable pub queue_text : List Text → Text
queue_text [] = codes "[]"
queue_text (t ∷ ts) =
    pop_back_times 2 (codes "Queue[" ++ (t ++ (codes "<-" ++ each_with (codes "<-") ts)))
    ++ codes "]"

-- The elements of a tuple from the one at index `i`.
unfoldable pub tuple_elements : ℕ → List Text → Text
tuple_elements i [] = []
tuple_elements i (t ∷ ts) = (if i == 0 then [] else codes ",") ++ (t ++ tuple_elements (i + 1) ts)

unfoldable pub tuple_text : List Text → Text
tuple_text ts = codes "(" ++ (tuple_elements 0 ts ++ codes ")")

unfoldable pub pair_text : Text → Text → Text
pair_text first second = codes "{" ++ (first ++ (codes "," ++ (second ++ codes "}")))

unfoldable mutual
  pub to_string : Value → Text
  to_string (serializable t) = t
  to_string (boolean true) = codes "True"
  to_string (boolean false) = codes "False"
  to_string (function address) = codes "<func@" ++ (address ++ codes ">")
  to_string null_pointer = codes "nullptr"
  to_string (pointer address v) = address ++ (codes " => " ++ to_string v)
  to_string (pointer_of_unknown address) = address ++ (codes " => " ++ codes "<?>")
  to_string nullopt = codes "nullopt"
  to_string (optional v) = codes "optional(" ++ (to_string v ++ codes ")")
  to_string optional_of_unknown = codes "optional(<?>)"
  to_string (variant v) = codes "variant(" ++ (to_string v ++ codes ")")
  to_string variant_of_unknown = codes "variant(<?>)"
  to_string (streamed t) = t
  to_string (sequence vs) = for_based_container (to_strings vs)
  to_string (mapping vs) = for_based_container (to_strings vs)
  to_string (pair v w) = pair_text (to_string v) (to_string w)
  to_string (tuple vs) = tuple_text (to_strings vs)
  to_string (stack vs) = stack_text (to_strings vs)
  to_string (queue vs) = queue_text (to_strings vs)
  to_string (enumerator number) = codes "enum(" ++ (number ++ codes ")")
  to_string unprintable = codes "<?>"

  pub to_strings : Values → List Text
  to_strings no_more = []
  to_strings (more v vs) = to_string v ∷ to_strings vs

-- replace_next of format, with what it writes before and behind the value.
unfoldable pub replace_at : Text → Text → Option ℕ → Text
replace_at fmt val none = fmt
replace_at fmt val (some pos) = take pos fmt ++ (val ++ drop (pos + 2) fmt)

unfoldable pub replace_next : Text → Text → Text
replace_next fmt val = replace_at fmt val (find fmt (codes "{}") 0)

unfoldable pub replace_all : Text → List Text → Text
replace_all fmt [] = fmt
replace_all fmt (val ∷ vals) = replace_all (replace_next fmt val) vals

unfoldable pub format : Text → Values → Text
format fmt args = replace_all fmt (to_strings args)

-- ANSI_CLEAR and ANSI_TEMPLATE_COLOR, and ANSI_KEY_COLOR.
abbrev pub clear_color : Text
clear_color = 27 ∷ codes "[0m"

abbrev pub key_color : Text
key_color = clear_color ++ 27 ∷ codes "[3m"

unfoldable pub colored : List Text → List Text
colored [] = []
colored (val ∷ vals) = (key_color ++ (val ++ clear_color)) ∷ colored vals

unfoldable pub colorful_format : Text → Values → Text
colorful_format fmt args =
    clear_color ++ (replace_all fmt (colored (to_strings args)) ++ clear_color)

-- What print and println write to std::cout.
unfoldable pub print : Text → Values → Text
print fmt no_more = fmt
print fmt (more v vs) = colorful_format fmt (more v vs)

unfoldable pub println : Text → Values → Text
println fmt args = print fmt args ++ 10 ∷ []

-- What dump writes to std::cout.
unfoldable pub dump : Values → Text
dump args = each_with (codes " ") (to_strings args) ++ 10 ∷ []
