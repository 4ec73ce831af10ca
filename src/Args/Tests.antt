-- ===== src/Args/Tests.antt =====
-- Runs of ArgParser, and its theorems at a concrete command line.
use quick_cmake.Prelude.{ℕ, ◌≡◌, refl, false, Option, none, some, List, [], ◌∷◌, ◌-◌}
use quick_cmake.Outcome.{value}
use quick_cmake.Str.{Text, split_char, strip, text_greater}
use quick_cmake.Args.{
  Conversions, ArgType, list_type, int_type, bool_value, ArgInfo, Parser, Argument, empty_parser,
  add_arg, get_value, drop_empty, tokens, parse,
}
use quick_cmake.Args.Values.{HasTypeIfAny, AllTyped, kind_of}
use quick_cmake.Args.Map.{find, emplace, insert, contains, text_eq}
use quick_cmake.Args.Typed.{add_arg-AllTyped, parse_typed}

-- One decimal digit.
abbrev digit : Text → Option ℕ
digit (x ∷ []) = some (x - b'0')
digit _ = none

abbrev conversions : Conversions
conversions = record { Int = ℕ; Double = ℕ; stoi = digit; stod = digit }

abbrev option : Text → ArgType → ArgInfo conversions
option name kind = record {
  name = name;
  kind = kind;
  help = [];
  sname = [];
  content = bool_value false;
  has_value = false;
}

abbrev dash_p : Text
dash_p = b'-' ∷ b'p' ∷ []

abbrev dash_t : Text
dash_t = b'-' ∷ b't' ∷ []

abbrev parser : Parser conversions
parser = add_arg (option dash_t int_type) (add_arg (option dash_p list_type) empty_parser)

abbrev argument : Text → Argument
argument t = record { is_literal = false; text = t }

-- `-p a -t=3`
abbrev line : List Argument
line = argument dash_p ∷ argument (b'a' ∷ []) ∷ argument (b'-' ∷ b't' ∷ b'=' ∷ b'3' ∷ []) ∷ []

abbrev words : List Text
words = dash_p ∷ (b'a' ∷ []) ∷ dash_t ∷ (b'3' ∷ []) ∷ []

tokens-line : tokens line ≡ value words
unfolding tokens drop_empty split_char strip
tokens-line = refl

parser-AllTyped : AllTyped parser.infos
unfolding empty_parser
parser-AllTyped =
    add_arg-AllTyped (option dash_t int_type) (add_arg (option dash_p list_type) empty_parser) refl
      (add_arg-AllTyped (option dash_p list_type) empty_parser refl tt)

parser-int : kind_of dash_t parser.infos ≡ some int_type
unfolding kind_of find add_arg emplace empty_parser insert text_greater contains text_eq
parser-int = refl

parse_typed_example :
    (q : Parser conversions) × (parse [] line parser ≡ value q)
    × HasTypeIfAny int_type (get_value q dash_t)
parse_typed_example =
    parse_typed [] line parser words dash_t int_type parser-AllTyped tokens-line parser-int
