-- ===== src/Combine/Options.antt =====
-- The options of combine_files.
use mathlib.Core.Bool.{or-true}
use quick_cmake.Prelude.{
  ◌≡◌, refl, ap, subst, true, Option, none, some, List, [], ◌∷◌, ◌++◌, codes, ◌==◌, if◌then◌else◌,
  Bool-cases, inl, inr, arith,
}
use quick_cmake.Outcome.{Outcome, value, Returns, gives, Returns-bind, Returns-if}
use quick_cmake.Str.{Text, text_greater}
use quick_cmake.Args.{
  Conversions, ArgType, bool_type, str_type, list_type, ArgValue, bool_value, int_value,
  double_value, str_value, list_value, Parser, Argument, tokens, empty_parser, add_arg, get_value,
  need_help, parse,
}
use quick_cmake.Args.Map.{text_eq, find, contains, insert, emplace}
use quick_cmake.Args.Values.{HasTypeIfAny, AllTyped, kind_of}
use quick_cmake.Args.Typed.{add_arg-AllTyped, parse_typed}
use quick_cmake.Combine.{
  Call, option, combine_parser, str_or, list_or_empty, bool_or_false, dotted, has_dot, or_current,
  read_options, combine_main,
}

combine_parser-AllTyped : (c : Conversions) → AllTyped (combine_parser {c = c}).infos
unfolding combine_parser empty_parser option
combine_parser-AllTyped c = add_arg-AllTyped _ _ refl (
    add_arg-AllTyped _ _ refl
      (add_arg-AllTyped _ _ refl (add_arg-AllTyped _ _ refl (add_arg-AllTyped _ _ refl tt))))

combine_kinds :
    (c : Conversions)
    → (kind_of (codes "-p") (combine_parser {c = c}).infos ≡ some list_type)
      × (kind_of (codes "-e") (combine_parser {c = c}).infos ≡ some str_type)
      × (kind_of (codes "-o") (combine_parser {c = c}).infos ≡ some str_type)
      × (kind_of (codes "-v") (combine_parser {c = c}).infos ≡ some bool_type)
      × (kind_of (codes "-uu") (combine_parser {c = c}).infos ≡ some bool_type)
unfolding combine_parser add_arg empty_parser option emplace contains insert find kind_of text_eq
    text_greater
combine_kinds c = (refl, refl, refl, refl, refl)

module _ {c : Conversions} where
  str_or-Returns :
      (d : Text) (o : Option (ArgValue c))
      → HasTypeIfAny str_type o
      → Returns (λ t. Unit {0}) (str_or d o)
  unfolding str_or
  str_or-Returns d none h = gives tt
  str_or-Returns d (some (str_value t)) h = gives tt
  str_or-Returns d (some (bool_value b)) h = absurd h
  str_or-Returns d (some (int_value i)) h = absurd h
  str_or-Returns d (some (double_value i)) h = absurd h
  str_or-Returns d (some (list_value l)) h = absurd h

  list_or_empty-Returns :
      (o : Option (ArgValue c))
      → HasTypeIfAny list_type o
      → Returns (λ l. Unit {0}) (list_or_empty o)
  unfolding list_or_empty
  list_or_empty-Returns none h = gives tt
  list_or_empty-Returns (some (list_value l)) h = gives tt
  list_or_empty-Returns (some (bool_value b)) h = absurd h
  list_or_empty-Returns (some (int_value i)) h = absurd h
  list_or_empty-Returns (some (double_value i)) h = absurd h
  list_or_empty-Returns (some (str_value t)) h = absurd h

  bool_or_false-Returns :
      (o : Option (ArgValue c))
      → HasTypeIfAny bool_type o
      → Returns (λ b. Unit {0}) (bool_or_false o)
  unfolding bool_or_false
  bool_or_false-Returns none h = gives tt
  bool_or_false-Returns (some (bool_value b)) h = gives tt
  bool_or_false-Returns (some (str_value t)) h = absurd h
  bool_or_false-Returns (some (int_value i)) h = absurd h
  bool_or_false-Returns (some (double_value i)) h = absurd h
  bool_or_false-Returns (some (list_value l)) h = absurd h

  -- Two results of one call are the same.
  same_parser :
      (call : Outcome (Parser c)) (q : Parser c) (k : Text) (kind : ArgType)
      → call ≡ value q
      → (r : Parser c) × (call ≡ value r) × HasTypeIfAny kind (get_value r k)
      → HasTypeIfAny kind (get_value q k)
  same_parser call q k kind e (r, e2, h) =
      let same : r ≡ q = cc in subst (λ p. HasTypeIfAny kind (get_value p k)) same h

abbrev pub StartsWithDot : Text → Type 0
StartsWithDot s = (rest : Text) × (s ≡ b'.' ∷ rest)

dotted-StartsWithDot : (s : Text) → StartsWithDot (dotted s)
unfolding dotted
dotted-StartsWithDot [] = ([], refl)
dotted-StartsWithDot (x ∷ s) = elim (Bool-cases (x == b'.')) [
  | inl e ↦ rw e (s, ap (λ y. y ∷ s) (ground arith))
  | inr e ↦ rw e (x ∷ s, refl)
]

has_dot-append : (s t : Text) → StartsWithDot t → has_dot (s ++ t) ≡ true
unfolding has_dot
has_dot-append [] t (rest, e) = rw e refl
has_dot-append (x ∷ s) t h = rw (has_dot-append s t h, or-true)

-- What combine_files is called with: a path, an extension behind its dot, and an output with a dot.
abbrev pub IsReady : Call → Type 0
IsReady call = (¬ (call.paths ≡ [])) × StartsWithDot call.ext × (has_dot call.output ≡ true)

abbrev pub IsReadyIfAny : Option Call → Type 0
IsReadyIfAny none = Unit
IsReadyIfAny (some call) = IsReady call

or_current-filled : (current_path : Text) (ps : List Text) → ¬ (or_current current_path ps ≡ [])
unfolding or_current
or_current-filled current_path [] = λ e. cc
or_current-filled current_path (p ∷ ps) = λ e. cc

output-has_dot :
    (o ext : Text) → StartsWithDot ext → has_dot (if has_dot o then o else o ++ ext) ≡ true
output-has_dot o ext h = elim (Bool-cases (has_dot o)) [
  | inl e ↦ rw (e, e)
  | inr e ↦ rw (e, has_dot-append o ext h)
]

module _ {c : Conversions} where
  read_options-IsReady :
      (current_path now : Text) (q : Parser c)
      → HasTypeIfAny list_type (get_value q (codes "-p"))
      → HasTypeIfAny str_type (get_value q (codes "-e"))
      → HasTypeIfAny str_type (get_value q (codes "-o"))
      → HasTypeIfAny bool_type (get_value q (codes "-v"))
      → HasTypeIfAny bool_type (get_value q (codes "-uu"))
      → Returns IsReady (read_options current_path now q)
  unfolding read_options
  read_options-IsReady current_path now q p e o v uu =
      Returns-bind (list_or_empty-Returns _ p) λ args_p _.
        Returns-bind (str_or-Returns _ _ e) λ ext _. Returns-bind (str_or-Returns _ _ o) λ output _.
          Returns-bind (bool_or_false-Returns _ v) λ show _.
            Returns-bind (bool_or_false-Returns _ uu) λ no_skip _. gives (
              or_current-filled _ _,
              dotted-StartsWithDot ext,
              output-has_dot output _ (dotted-StartsWithDot ext),
            )

-- Where the arguments can be cut into tokens (strip throws where an argument, or a part of one
-- beside a '=', is made of spaces), main shows the help or calls combine_files: no std::get meets
-- a value of another type. It is called with at least one path, an extension that begins with a
-- dot and an output name that holds one.
pub combine_main-IsReady :
    (c : Conversions) (current_path now name : Text) (argv : List Argument) (args : List Text)
    → tokens argv ≡ value args
    → Returns IsReadyIfAny (combine_main c current_path now name argv)
unfolding combine_main
combine_main-IsReady c current_path now name argv args h =
    let typed : (k : Text) (kind : ArgType)
        → kind_of k combine_parser.infos ≡ some kind
        → (q : Parser c) × (parse name argv combine_parser ≡ value q)
          × HasTypeIfAny kind (get_value q k) =
      λ k kind known.
        parse_typed name argv combine_parser args k kind (combine_parser-AllTyped c) h known in
    let (p_known, e_known, o_known, v_known, uu_known) = combine_kinds c in
    let (q, done, p) = typed (codes "-p") list_type p_known in
    let same : (k : Text) (kind : ArgType)
        → kind_of k combine_parser.infos ≡ some kind
        → HasTypeIfAny kind (get_value q k) =
      λ k kind known. same_parser _ q k kind done (typed k kind known) in
    rw done (
      Returns-if (need_help q) (λ _. gives tt)
        λ _.
          Returns-bind
            (read_options-IsReady current_path now q p (same (codes "-e") str_type e_known)
              (same (codes "-o") str_type o_known) (same (codes "-v") bool_type v_known)
              (same (codes "-uu") bool_type uu_known))
            λ call ready. gives ready)
