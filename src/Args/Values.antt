-- ===== src/Args/Values.antt =====
-- The types of the values that an ArgParser holds.
use quick_cmake.Prelude.{
  ◌≡◌, refl, true, Option, none, some, List, [], ◌∷◌, All, Bool-cases, inl, inr, some, arith,
}
use mathlib.Core.Path.{subst₂}
use quick_cmake.Str.{Text}
use quick_cmake.Args.{
  Conversions, ArgType, bool_type, str_type, list_type, int_type, float_type, ArgValue, bool_value,
  int_value, double_value, str_value, list_value, ArgInfo, Parser, get_value,
}
use quick_cmake.Args.Map.{text_eq, find, modify}

-- A value of the alternative that the type of an option stands for.
abbrev pub HasType : {c : Conversions} → ArgType → ArgValue c → Type 0
HasType bool_type (bool_value b) = Unit
HasType int_type (int_value i) = Unit
HasType float_type (double_value d) = Unit
HasType str_type (str_value s) = Unit
HasType list_type (list_value l) = Unit
HasType _ _ = ⊥

module _ {c : Conversions} where
  -- Nothing, or a value of that alternative.
  abbrev pub HasTypeIfAny : ArgType → Option (ArgValue c) → Type 0
  HasTypeIfAny kind none = Unit
  HasTypeIfAny kind (some v) = HasType kind v

  -- A value that is set is of the option's type.
  abbrev pub InfoTyped : ArgInfo c → Type 0
  InfoTyped info = info.has_value ≡ true → HasType info.kind info.content

  abbrev pub AllTyped : List (Text × ArgInfo c) → Type 0
  AllTyped = All (λ e. InfoTyped e.1)

  pub find-InfoTyped :
      (k : Text) (m : List (Text × ArgInfo c)) (info : ArgInfo c)
      → AllTyped m
      → find k m ≡ some info
      → InfoTyped info
  unfolding find
  find-InfoTyped k [] info h e = cc
  find-InfoTyped k ((j, i) ∷ m) info h e = elim (Bool-cases (text_eq j k)) [
    | inl t ↦ let same : i ≡ info = ground arith in rw same at h.0
    | inr f ↦ find-InfoTyped k m info h.1 (rw f at e)
  ]

  pub modify-AllTyped :
      (k : Text) (f : ArgInfo c → ArgInfo c) (m : List (Text × ArgInfo c)) (info : ArgInfo c)
      → find k m ≡ some info
      → InfoTyped (f info)
      → AllTyped m
      → AllTyped (modify k f m)
  unfolding find modify
  modify-AllTyped k f [] info e t h = cc
  modify-AllTyped k f ((j, i) ∷ m) info e t h = elim (Bool-cases (text_eq j k)) [
    | inl b ↦ let same : info ≡ i = ground arith in rw b ((rw same at t), h.1)
    | inr b ↦ rw b (h.0, modify-AllTyped k f m info (rw b at e) t h.1)
  ]

  -- The registered type of an option.
  unfoldable pub kind_of : Text → List (Text × ArgInfo c) → Option ArgType
  unfolding find
  kind_of k m = elim (find k m) [ none ↦ none | some i ↦ some i.kind ]

  pub kind_of-modify :
      (j k : Text) (f : ArgInfo c → ArgInfo c) (m : List (Text × ArgInfo c))
      → ((i : ArgInfo c) → (f i).kind ≡ i.kind)
      → kind_of j (modify k f m) ≡ kind_of j m
  unfolding kind_of modify
  kind_of-modify j k f [] h = refl
  kind_of-modify j k f ((l, i) ∷ m) h = ground (arith, h i, kind_of-modify j k f m h)

  -- What `kind_of` and `get_value` say of the entry.
  pub kind_of-find :
      (k : Text) (m : List (Text × ArgInfo c)) (kind : ArgType)
      → kind_of k m ≡ some kind
      → (i : ArgInfo c) × (find k m ≡ some i) × (i.kind ≡ kind)
  unfolding kind_of
  kind_of-find k m kind h = go (find k m) h
    where
      go :
          (o : Option (ArgInfo c))
          → elim o [ none ↦ none | some i ↦ some i.kind ] ≡ some kind
          → (i : ArgInfo c) × (o ≡ some i) × (i.kind ≡ kind)
      go none e = cc
      go (some i) e = (i, refl, ground arith)

  pub find-kind_of :
      (k : Text) (m : List (Text × ArgInfo c)) (i : ArgInfo c)
      → find k m ≡ some i
      → kind_of k m ≡ some i.kind
  unfolding kind_of
  find-kind_of k m i h = rw (h, kind_of)

  get_value-find :
      (p : Parser c) (k : Text) (i : ArgInfo c) (v : ArgValue c)
      → find k p.infos ≡ some i
      → get_value p k ≡ some v
      → (i.has_value ≡ true) × (i.content ≡ v)
  unfolding get_value
  get_value-find p k i v h g = ground arith

  -- A value that get_value returns is of the type under which the option is registered.
  pub get_value-HasType :
      (p : Parser c) (k : Text) (kind : ArgType) (v : ArgValue c)
      → AllTyped p.infos
      → kind_of k p.infos ≡ some kind
      → get_value p k ≡ some v
      → HasType kind v
  get_value-HasType p k kind v h e g =
      let (i, at, same) = kind_of-find k p.infos kind e in
      let (there, content) = get_value-find p k i v at g in
      subst₂ HasType same content (find-InfoTyped k p.infos i h at there)
