-- ===== src/Args/Typed.antt =====
-- parse and add_arg on the values that get_value returns.
use quick_cmake.Prelude.{
  suc, ◌≡◌, ap, ◌∙◌, false, some, List, ◌++◌, length, arith, Bool-cases, Option-cases, inl, inr,
}
use quick_cmake.Outcome.{value}
use quick_cmake.Str.{Text}
use quick_cmake.Args.{
  Conversions, ArgType, ArgInfo, Parser, Argument, tokens, add_arg, get_value, parse, take_values,
  help_info, help_short, help_long, leads_dash,
}
use quick_cmake.Args.Map.{emplace, find-emplace, All-emplace}
use quick_cmake.Args.Values.{
  HasTypeIfAny, AllTyped, kind_of, kind_of-find, find-kind_of, get_value-HasType,
}
use quick_cmake.Args.Parse.{take_values-length, parse_loop-Parsed}

module _ {c : Conversions} where
  kind_of-emplace :
      (j k : Text) (i : ArgInfo c) (m : List (Text × ArgInfo c)) (kind : ArgType)
      → kind_of k m ≡ some kind
      → kind_of k (emplace j i m) ≡ some kind
  kind_of-emplace j k i m kind h =
      let (info, at, same) = kind_of-find k m kind h in
      find-kind_of k (emplace j i m) info (find-emplace j k i info m at) ∙ ap some same

  -- An option that is registered with no value keeps the values of the others typed.
  pub add_arg-AllTyped :
      (info : ArgInfo c) (p : Parser c)
      → info.has_value ≡ false
      → AllTyped p.infos
      → AllTyped (add_arg info p).infos
  unfolding add_arg
  add_arg-AllTyped info p unset h = elim (Bool-cases (leads_dash info.name)) [
    | inl e ↦ rw e (All-emplace _ info.name info p.infos (λ s. cc) h)
    | inr e ↦ rw e h
  ]

  -- If all set values of the registered options are of their options' types and the arguments can
  -- be cut into tokens (strip throws where an argument, or a part of one beside a '=', is made of
  -- spaces), parse returns, and what get_value returns behind it for a registered option is
  -- nothing or a value of the option's type.
  pub parse_typed :
      (file : Text) (argv : List Argument) (p : Parser c) (args : List Text) (k : Text)
      (kind : ArgType)
      → AllTyped p.infos
      → tokens argv ≡ value args
      → kind_of k p.infos ≡ some kind
      → (q : Parser c) × (parse file argv p ≡ value q) × HasTypeIfAny kind (get_value q k)
  unfolding parse
  parse_typed file argv p args k kind t h r =
      let m =
        emplace help_long (help_info help_long)
          (emplace help_short (help_info help_short) p.infos) in
      let typed : AllTyped m =
        All-emplace _ help_long (help_info help_long) _ (λ e. cc)
          (All-emplace _ help_short (help_info help_short) p.infos (λ e. cc) t) in
      let (front, left) = take_values m args in
      let start : Parser c = record p {
        file_name = file;
        front_default_args = p.front_default_args ++ front;
        infos = m;
      } in
      let (q, done, u) =
        parse_loop-Parsed (suc (length args)) left start typed
          (omega (arith, take_values-length m args)) in
      let known =
        u.kinds k
        ∙ kind_of-emplace help_long k _ _ kind (kind_of-emplace help_short k _ _ kind r) in
      (
        q,
        rw h done,
        elim (Option-cases (get_value q k)) [
          | inl e ↦ rw e tt
          | inr (v, e) ↦ rw e (get_value-HasType q k kind v u.typed known e)
        ],
      )
