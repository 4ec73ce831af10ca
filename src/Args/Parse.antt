-- ===== src/Args/Parse.antt =====
-- The loop of parse ends, keeps the types of the options and sets only values of these types.
use quick_cmake.Prelude.{
  ℕ, zero, suc, ◌≤◌, ◌<◌, ◌≡◌, refl, sym, ◌∙◌, Bool, true, Option, none, some, List, [], ◌∷◌, ◌++◌,
  length, if◌then◌else◌, Bool-cases, Option-cases, inl, inr, arith,
}
use mathlib.Core.Path.{subst, subst₂}
use quick_cmake.Outcome.{value}
use quick_cmake.Str.{Text}
use quick_cmake.Args.{
  Conversions, ArgType, bool_type, str_type, list_type, int_type, float_type, ArgValue, bool_value,
  int_value, double_value, str_value, list_value, ArgInfo, Parser, get_list, map_option,
  parse_argument, take_values, set_after, parse_list, parse_kind, parse_entry, parse_loop,
}
use quick_cmake.Args.Map.{find, modify}
use quick_cmake.Args.Values.{
  HasType, InfoTyped, AllTyped, find-InfoTyped, modify-AllTyped, kind_of, kind_of-modify,
}

map_option-eq :
    {A B : Type 0} (f : A → B) (o : Option A) (b : B)
    → map_option f o ≡ some b
    → (a : A) × (f a ≡ b)
map_option-eq f none b h = cc
map_option-eq f (some a) b h = (a, cc)

module _ {c : Conversions} where
  -- What one round of the loop leaves: typed values under the same registered types, and no more
  -- arguments than `n`.
  pub record Advanced (p : Parser c) (n : ℕ) (r : List Text × Parser c) : Type 0 where
    pub typed : AllTyped r.1.infos
    pub kinds : (k : Text) → kind_of k r.1.infos ≡ kind_of k p.infos
    pub shorter : length r.0 ≤ n
    pub front : r.1.front_default_args ≡ p.front_default_args
    pub back : r.1.back_default_args ≡ p.back_default_args

  module _ (p : Parser c) (key : Text) (info : ArgInfo c) (typed : AllTyped p.infos)
      (at : find key p.infos ≡ some info) where
    -- A write of a typed value to the entry that was found.
    write-Advanced :
        (v : ArgValue c) (set : Bool) (left : List Text) (n : ℕ)
        → (set ≡ true → HasType info.kind v)
        → length left ≤ n
        → Advanced p n (
          left,
          record p { infos = modify key (λ i. record i { content = v; has_value = set }) p.infos },
        )
    write-Advanced v set left n t h = record {
      typed =
          modify-AllTyped key (λ i. record i { content = v; has_value = set }) p.infos info at t
            typed;
      kinds = λ k.
          kind_of-modify k key (λ i. record i { content = v; has_value = set }) p.infos (λ i. refl);
      shorter = h;
      front = refl;
      back = refl;
    }

    parse_argument-Advanced :
        (conv : Text → Option (ArgValue c)) (rest : List Text)
        → ((s : Text) (v : ArgValue c) → conv s ≡ some v → HasType info.kind v)
        → Advanced p (length rest) (parse_argument conv info.kind key rest p)
    unfolding parse_argument
    parse_argument-Advanced conv [] t = record {
      typed = typed;
      kinds = λ k. refl;
      shorter = omega arith;
      front = refl;
      back = refl;
    }
    parse_argument-Advanced conv (s ∷ rest) t = elim (Option-cases (conv s)) [
      | inl e ↦
          rw (e, parse_argument)
            (record {
              typed = typed;
              kinds = λ k. refl;
              shorter = omega arith;
              front = refl;
              back = refl;
            })
      | inr (v, e) ↦
          rw (e, parse_argument)
            (write-Advanced v true rest (suc (length rest)) (λ _. t s v e) (omega arith))
    ]

  pub take_values-length :
      (m : List (Text × ArgInfo c)) (rest : List Text) → length (take_values m rest).1 ≤ length rest
  unfolding take_values
  take_values-length m [] = omega arith
  take_values-length m (a ∷ rest) = ground (arith, take_values-length m rest)

  HasType-list : (v : ArgValue c) → HasType list_type v → (l : List Text) × (get_list v ≡ value l)
  unfolding get_list
  HasType-list (list_value l) h = (l, refl)
  HasType-list (bool_value b) h = absurd h
  HasType-list (int_value i) h = absurd h
  HasType-list (double_value d) h = absurd h
  HasType-list (str_value s) h = absurd h

  -- The values of a LIST option before the round: those that are set, or none.
  get_list-start :
      (info : ArgInfo c)
      → InfoTyped info
      → info.kind ≡ list_type
      → (l : List Text) × (get_list (if info.has_value then info.content else list_value [])
          ≡ value l)
  unfolding get_list
  get_list-start info t e = elim (Bool-cases info.has_value) [
    | inl set ↦ rw set (HasType-list info.content (rw e at (t set)))
    | inr unset ↦ ([], rw unset)
  ]

  parse_list-Advanced :
      (p : Parser c) (key : Text) (info : ArgInfo c) (rest : List Text)
      → AllTyped p.infos
      → find key p.infos ≡ some info
      → info.kind ≡ list_type
      → (r : List Text × Parser c) × (parse_list info key rest p ≡ value r)
        × Advanced p (length rest) r
  unfolding parse_list
  parse_list-Advanced p key info rest typed at e =
      let (old, e') = get_list-start info (find-InfoTyped key p.infos info typed at) e in
      let typed_list : (l : List Text) (b : Bool)
          → b ≡ true
          → HasType {c = c} info.kind (list_value l) =
        λ l b _. subst (λ k. HasType {c = c} k (list_value l)) (sym e) tt in
      let (vals, left) = take_values p.infos rest in
      (
        (
          left,
          record p {
            infos =
                modify key
                  (λ i. record i {
                    content = list_value (old ++ vals);
                    has_value = set_after info.has_value (old ++ vals);
                  })
                  p.infos;
          },
        ),
        rw e',
        write-Advanced p key info typed at (list_value (old ++ vals))
            (set_after info.has_value (old ++ vals)) left (length rest) (typed_list (old ++ vals) _)
            (take_values-length p.infos rest),
      )

  -- The round for one option of the map.
  parse_kind-Advanced :
      (kind : ArgType) (p : Parser c) (key : Text) (info : ArgInfo c) (rest : List Text)
      → AllTyped p.infos
      → find key p.infos ≡ some info
      → info.kind ≡ kind
      → (r : List Text × Parser c) × (parse_kind kind info key rest p ≡ value r)
        × Advanced p (length rest) r
  unfolding parse_kind
  parse_kind-Advanced int_type p key info rest typed at e = (
    _,
    refl,
    parse_argument-Advanced p key info typed at _ rest λ s v h.
        let (i, same) = map_option-eq int_value (c.stoi s) v h in subst₂ HasType (sym e) same tt,
  )
  parse_kind-Advanced float_type p key info rest typed at e = (
    _,
    refl,
    parse_argument-Advanced p key info typed at _ rest λ s v h.
        let (i, same) = map_option-eq double_value (c.stod s) v h in subst₂ HasType (sym e) same tt,
  )
  parse_kind-Advanced str_type p key info rest typed at e = (
    _,
    refl,
    parse_argument-Advanced p key info typed at (λ s. some (str_value s)) rest
        λ s v h. let same : str_value s ≡ v = cc in subst₂ HasType (sym e) same tt,
  )
  parse_kind-Advanced bool_type p key info rest typed at e = (
    _,
    refl,
    write-Advanced p key info typed at (bool_value true) true rest (length rest)
        (λ _. subst (λ k. HasType {c = c} k (bool_value true)) (sym e) tt) (omega arith),
  )
  parse_kind-Advanced list_type p key info rest typed at e =
      parse_list-Advanced p key info rest typed at e

  -- The result of the loop on the arguments that are left.
  pub record Parsed (p q : Parser c) : Type 0 where
    pub typed : AllTyped q.infos
    pub kinds : (k : Text) → kind_of k q.infos ≡ kind_of k p.infos
    pub front : q.front_default_args ≡ p.front_default_args

  pub parse_loop-Parsed :
      (fuel : ℕ) (args : List Text) (p : Parser c)
      → AllTyped p.infos
      → length args < fuel
      → (q : Parser c) × (parse_loop fuel args p ≡ value q) × Parsed p q
  unfolding parse_loop parse_entry
  parse_loop-Parsed zero args p t h = absurd (omega arith)
  parse_loop-Parsed (suc fuel) [] p t h =
      (p, refl, record { typed = t; kinds = λ k. refl; front = refl })
  parse_loop-Parsed (suc fuel) (a ∷ rest) p t h = elim (Option-cases (find a p.infos)) [
    | inl missing ↦ (
      record p { back_default_args = p.back_default_args ++ (a ∷ rest) },
      rw (missing, parse_loop),
      record { typed = t; kinds = λ k. refl; front = refl },
    )
    | inr (info, at) ↦
        let (r, round, s) = parse_kind-Advanced info.kind p a info rest t at refl in
        let (q, done, u) = parse_loop-Parsed fuel r.0 r.1 s.typed (omega (arith, s.shorter)) in
        (
          q,
          rw (at, parse_loop) (rw round done),
          record { typed = u.typed; kinds = λ k. u.kinds k ∙ s.kinds k; front = u.front ∙ s.front },
        )
  ]
