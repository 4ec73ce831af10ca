-- ===== src/Args/Tokens.antt =====
-- How parse cuts argv into arguments.
use quick_cmake.Prelude.{
  ◌≡◌, refl, sym, ◌∙◌, true, false, List, [], ◌∷◌, ◌++◌, All, Bool-cases, inl, inr,
}
use quick_cmake.Outcome.{Outcome, value, thrown, undefined, blocked, out_of_fuel, ◌>>=◌}
use quick_cmake.Str.{Text, split_char}
use quick_cmake.Str.Fields.{split_char-delim}
use quick_cmake.Args.{Argument, collect, tokens}

abbrev pub equals_sign : Text
equals_sign = b'=' ∷ []

-- The pointers that equal that of the literal point to "=".
abbrev pub PointersAgree : List Argument → Type 0
PointersAgree = All (λ a. a.is_literal ≡ true → a.text ≡ equals_sign)

abbrev pub plain : List Argument → List Argument
plain [] = []
plain (a ∷ r) = record a { is_literal = false } ∷ plain r

>>=-value : {A : Type 0} (m : Outcome A) → (m >>= value) ≡ m
>>=-value (value a) = refl
>>=-value (thrown e) = refl
>>=-value undefined = refl
>>=-value blocked = refl
>>=-value out_of_fuel = refl

collect-skip :
    (a : Argument) (r : List Argument) → a.is_literal ≡ true → collect (a ∷ r) ≡ collect r
unfolding collect
collect-skip a r h = rw h

collect-pieces :
    (a : Argument) (r : List Argument)
    → a.is_literal ≡ false
    → collect (a ∷ r)
      ≡ (split_char a.text b'=' >>= λ here. collect r >>= λ more. value (here ++ more))
unfolding collect
collect-pieces a r h = rw h

collect-plain : (argv : List Argument) → PointersAgree argv → collect argv ≡ collect (plain argv)
collect-plain [] h = refl
collect-plain (a ∷ r) h = elim (Bool-cases a.is_literal) [
  | inl e ↦
      collect-skip a r e
      ∙ collect-plain r h.1
      ∙ sym (
          collect-pieces (record a { is_literal = false }) (plain r) refl
          ∙ rw (h.0 e, split_char-delim b'=') (>>=-value (collect (plain r))))
  | inr e ↦
      collect-pieces a r e
      ∙ rw (collect-plain r h.1)
          (sym (collect-pieces (record a { is_literal = false }) (plain r) refl))
]

-- The comparison of pointers in parse has no effect: the arguments are the same whichever elements
-- of argv that are "=" it skips.
pub tokens-plain : (argv : List Argument) → PointersAgree argv → tokens argv ≡ tokens (plain argv)
unfolding tokens
tokens-plain argv h = rw (collect-plain argv h)
