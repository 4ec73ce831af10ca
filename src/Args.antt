-- ===== src/Args.antt =====
-- include/skutils/argparser.h. The maps and the conversions of numbers are the standard library's:
-- std::stoi and std::stod are parameters, `none` for the exception that they throw.
pub mod Map
pub mod Values
pub mod Parse
pub mod Typed
pub mod Tokens
mod Tests
use quick_cmake.Prelude.{
  ℕ, zero, suc, ◌+◌, Bool, true, false, not, ◌&&◌, ◌||◌, Option, none, some, List, [], ◌∷◌, ◌++◌,
  length, get_or, ◌==◌, if◌then◌else◌,
}
use quick_cmake.Outcome.{Outcome, value, thrown, undefined, out_of_fuel, bad_variant_access, ◌>>=◌}
use quick_cmake.Str.{Text, split_char, strip, basename_without_ext}
use quick_cmake.Args.Map.{find, contains, emplace, modify}

pub data ArgType : Type 0 where
  bool_type str_type list_type int_type float_type : ArgType

pub record Conversions : Type 1 where
  pub Int : Type 0
  pub Double : Type 0
  pub stoi : Text → Option Int
  pub stod : Text → Option Double

-- std::variant<bool, int, double, std::string, std::vector<std::string>>
pub data ArgValue (c : Conversions) : Type 0 where
  bool_value : Bool → ArgValue c
  int_value : c.Int → ArgValue c
  double_value : c.Double → ArgValue c
  str_value : Text → ArgValue c
  list_value : List Text → ArgValue c

pub record ArgInfo (c : Conversions) : Type 0 where
  pub name : Text
  pub kind : ArgType
  pub help : Text
  pub sname : Text
  pub content : ArgValue c
  pub has_value : Bool

-- What is written to std::cerr by SK_ERROR, without the wording.
pub data Message : Type 0 where
  bad_name : Text → Message
  missing_value : ArgType → Text → Message
  invalid_value : ArgType → Text → Text → Message

pub record Parser (c : Conversions) : Type 0 where
  pub file_name : Text
  pub front_default_args : List Text
  pub back_default_args : List Text
  pub infos : List (Text × ArgInfo c)
  pub errors : List Message

-- One element of argv: its text, and whether its pointer is that of the literal "=", which is what
-- `argv[i] == "="` compares.
pub record Argument : Type 0 where
  pub is_literal : Bool
  pub text : Text

abbrev pub help_short : Text
help_short = b'-' ∷ b'h' ∷ []

abbrev pub help_long : Text
help_long = b'-' ∷ b'-' ∷ b'h' ∷ b'e' ∷ b'l' ∷ b'p' ∷ []

-- "Show This Message"
abbrev pub help_text : Text
help_text =
    b'S' ∷ b'h' ∷ b'o' ∷ b'w' ∷ b' ' ∷ b'T' ∷ b'h' ∷ b'i' ∷ b's' ∷ b' ' ∷ b'M' ∷ b'e' ∷ b's' ∷ b's'
    ∷ b'a' ∷ b'g' ∷ b'e' ∷ []

pub type_str : ArgType → Text
type_str int_type = b'i' ∷ b'n' ∷ b't' ∷ []
type_str float_type = b'f' ∷ b'l' ∷ b'o' ∷ b'a' ∷ b't' ∷ []
type_str list_type = b's' ∷ b't' ∷ b'r' ∷ b'l' ∷ b'i' ∷ b's' ∷ b't' ∷ []
type_str bool_type = b'b' ∷ b'o' ∷ b'o' ∷ b'l' ∷ []
type_str str_type = b's' ∷ b't' ∷ b'r' ∷ []

-- std::remove_if with `s == ""`.
unfoldable pub drop_empty : List Text → List Text
drop_empty [] = []
drop_empty ([] ∷ r) = drop_empty r
drop_empty ((x ∷ s) ∷ r) = (x ∷ s) ∷ drop_empty r

-- std::transform with strip.
pub strip_all : List Text → Outcome (List Text)
strip_all [] = value []
strip_all (s ∷ r) = do t ← strip s; rest ← strip_all r; value (t ∷ rest)

-- The loop over argv from 1 on: the pieces of each argument at '='.
pub collect : List Argument → Outcome (List Text)
collect [] = value []
collect (a ∷ r) =
    let rest = collect r in
    let pieces = split_char a.text b'=' >>= λ here. rest >>= λ more. value (here ++ more) in
    if a.is_literal then rest else pieces

unfoldable pub tokens : List Argument → Outcome (List Text)
unfolding collect strip_all
tokens argv = do args ← collect argv; strip_all (drop_empty args)

-- `!(info.name.empty() || info.name[0] != '-')`
abbrev pub leads_dash : Text → Bool
leads_dash [] = false
leads_dash (x ∷ s) = x == b'-'

abbrev pub is_some : {A : Type 0} → Option A → Bool
is_some none = false
is_some (some a) = true

abbrev map_option : {A B : Type 0} → (A → B) → Option A → Option B
map_option f none = none
map_option f (some a) = some (f a)

abbrev pub some_if_any : List Text → Option (List Text)
some_if_any [] = none
some_if_any (x ∷ s) = some (x ∷ s)

abbrev pub or_empty : Option (List Text) → List Text
or_empty none = []
or_empty (some l) = l

abbrev pub is_list : ArgType → Bool
is_list list_type = true
is_list _ = false

-- `has_value` behind the loop of LIST.
abbrev pub set_after : Bool → List Text → Bool
set_after before [] = before
set_after before (_ ∷ _) = true

module _ {c : Conversions} where
  unfoldable pub empty_parser : Parser c
  empty_parser = record {
    file_name = [];
    front_default_args = [];
    back_default_args = [];
    infos = [];
    errors = [];
  }

  pub report : Message → Parser c → Parser c
  report m p = record p { errors = p.errors ++ (m ∷ []) }

  unfoldable pub add_arg : ArgInfo c → Parser c → Parser c
  unfolding report
  add_arg info p =
      if leads_dash info.name
      then record p { infos = emplace info.name info p.infos }
      else report (bad_name info.name) p

  pub get_value : Parser c → Text → Option (ArgValue c)
  get_value p arg = elim (find arg p.infos) [
    | none ↦ none
    | some info ↦ if info.has_value then some info.content else none
  ]

  pub get_front_args : Parser c → Option (List Text)
  get_front_args p = some_if_any p.front_default_args

  pub get_back_args : Parser c → Option (List Text)
  get_back_args p = some_if_any p.back_default_args

  -- std::get<std::vector<std::string>>
  pub get_list : ArgValue c → Outcome (List Text)
  get_list (list_value l) = value l
  get_list _ = thrown bad_variant_access

  pub get_value_with_default : Parser c → Text → Outcome (Option (List Text))
  unfolding get_value get_front_args get_back_args get_list
  get_value_with_default p arg = elim (find arg p.infos) [
    | none ↦ value none
    | some info ↦
        if is_list info.kind
        then (do
          pv ← get_list (elim (get_value p arg) [ none ↦ list_value [] | some v ↦ v ])
          value (some_if_any (pv ++ (or_empty (get_front_args p) ++ or_empty (get_back_args p)))))
        else value none
  ]

  pub need_help : Parser c → Bool
  unfolding get_value
  need_help p = is_some (get_value p help_short) || is_some (get_value p help_long)

  -- The body of PARSE_ARGUMENT for the entry `key`, at the arguments behind it. `none` for the
  -- exception of the conversion, after which the argument is looked at again.
  pub parse_argument :
      (Text → Option (ArgValue c)) → ArgType → Text → List Text → Parser c → List Text × Parser c
  unfolding report
  parse_argument conv kind key [] p = ([], report (missing_value kind key) p)
  parse_argument conv kind key (v ∷ rest) p = elim (conv v) [
    | none ↦ (v ∷ rest, report (invalid_value kind key v) p)
    | some x ↦ (
      rest,
      record p { infos = modify key (λ i. record i { content = x; has_value = true }) p.infos },
    )
  ]

  -- The inner loop of LIST: the arguments up to the next that is a key.
  pub take_values : List (Text × ArgInfo c) → List Text → List Text × List Text
  take_values m [] = ([], [])
  take_values m (a ∷ rest) =
      let (vals, left) = take_values m rest in
      if contains a m then ([], a ∷ rest) else (a ∷ vals, left)

  -- The case of LIST.
  pub parse_list : ArgInfo c → Text → List Text → Parser c → Outcome (List Text × Parser c)
  unfolding get_list
  parse_list info key rest p = do
    let start : ArgValue c = if info.has_value then info.content else list_value []
    let (vals, left) = take_values p.infos rest
    old ← get_list start
    let all = old ++ vals
    value (
      left,
      record p {
        infos =
            modify key
              (λ i. record i { content = list_value all; has_value = set_after info.has_value all })
              p.infos;
      },
    )

  -- The switch on the type of the entry `key`.
  pub parse_kind :
      ArgType → ArgInfo c → Text → List Text → Parser c → Outcome (List Text × Parser c)
  unfolding parse_argument parse_list
  parse_kind int_type info key rest p =
      value (parse_argument (λ s. map_option int_value (c.stoi s)) info.kind key rest p)
  parse_kind float_type info key rest p =
      value (parse_argument (λ s. map_option double_value (c.stod s)) info.kind key rest p)
  parse_kind str_type info key rest p =
      value (parse_argument (λ s. some (str_value s)) info.kind key rest p)
  parse_kind bool_type info key rest p = value (
    rest,
    record p {
      infos = modify key (λ i. record i { content = bool_value true; has_value = true }) p.infos;
    },
  )
  parse_kind list_type info key rest p = parse_list info key rest p

  pub parse_entry : ArgInfo c → Text → List Text → Parser c → Outcome (List Text × Parser c)
  unfolding parse_kind
  parse_entry info key rest p = parse_kind info.kind info key rest p

  -- The second `while` of parse, on the arguments that are left.
  pub parse_loop : ℕ → List Text → Parser c → Outcome (Parser c)
  parse_loop zero args p = out_of_fuel
  parse_loop (suc fuel) [] p = value p
  parse_loop (suc fuel) (a ∷ rest) p = elim (find a p.infos) [
    | none ↦ value (record p { back_default_args = p.back_default_args ++ (a ∷ rest) })
    | some info ↦ parse_entry info a rest p >>= λ r. parse_loop fuel r.0 r.1
  ]

  abbrev pub help_info : Text → ArgInfo c
  help_info name = record {
    name = name;
    kind = bool_type;
    help = help_text;
    sname = [];
    content = bool_value false;
    has_value = false;
  }

  pub parse : Text → List Argument → Parser c → Outcome (Parser c)
  unfolding parse_loop take_values
  parse file argv p = do
    let m =
        emplace help_long (help_info help_long) (emplace help_short (help_info help_short) p.infos)
    args ← tokens argv
    let (front, left) = take_values m args
    parse_loop (suc (length args)) left (record p {
      file_name = file;
      front_default_args = p.front_default_args ++ front;
      infos = m;
    })
