-- ===== src/Outcome.antt =====
-- How a call of the modelled C++ code ends.
use quick_cmake.Prelude.{◌≡◌, refl, Bool, true, false, if◌then◌else◌}

-- The exceptions that the modelled code lets escape.
pub data Exception : Type 0 where
  out_of_range runtime_error bad_variant_access : Exception

-- A returned value, a thrown exception, undefined behaviour, a call of the system that never
-- returns, or the model's fuel running out.
pub data Outcome {ℓ} (A : Type ℓ) : Type ℓ where
  value : A → Outcome A
  thrown : Exception → Outcome A
  undefined : Outcome A
  blocked : Outcome A
  out_of_fuel : Outcome A

infixl 5 ◌>>=◌
abbrev pub ◌>>=◌ {ℓ κ} : {A : Type ℓ} {B : Type κ} → Outcome A → (A → Outcome B) → Outcome B
value a >>= f = f a
thrown e >>= f = thrown e
undefined >>= f = undefined
blocked >>= f = blocked
out_of_fuel >>= f = out_of_fuel

-- A call is bound step by step or at once.
pub bind_assoc {ℓ κ μ} :
    {A : Type ℓ} {B : Type κ} {C : Type μ} (o : Outcome A) (f : A → Outcome B) (g : B → Outcome C)
    (h : A → Outcome C)
    → ((a : A) → h a ≡ (f a >>= g))
    → (o >>= h) ≡ ((o >>= f) >>= g)
bind_assoc (value a) f g h e = e a
bind_assoc (thrown x) f g h e = refl
bind_assoc undefined f g h e = refl
bind_assoc blocked f g h e = refl
bind_assoc out_of_fuel f g h e = refl

pub bind_value {ℓ} : {A : Type ℓ} (o : Outcome A) → (o >>= λ a. value a) ≡ o
bind_value (value a) = refl
bind_value (thrown x) = refl
bind_value undefined = refl
bind_value blocked = refl
bind_value out_of_fuel = refl

-- The call returns, with a value of which the property holds.
pub data Returns {A : Type 0} (Q : A → Type 0) : Outcome A → Type 0 where
  gives : {x : A} → Q x → Returns Q (value x)

module _ {A : Type 0} where
  pub Returns-value :
      {Q : A → Type 0} {call : Outcome A} → Returns Q call → (x : A) × (call ≡ value x) × Q x
  Returns-value (gives q) = (_, refl, q)

  pub Returns-map :
      {Q R : A → Type 0} {call : Outcome A}
      → Returns Q call
      → ((x : A) → Q x → R x)
      → Returns R call
  Returns-map (gives q) next = gives (next _ q)

  pub Returns-if :
      {Q : A → Type 0} {call other : Outcome A} (test : Bool)
      → (test ≡ true → Returns Q call)
      → (test ≡ false → Returns Q other)
      → Returns Q (if test then call else other)
  Returns-if false yes_case no_case = no_case refl
  Returns-if true yes_case no_case = yes_case refl

  pub Returns-bind :
      {B : Type 0} {Q : A → Type 0} {R : B → Type 0} {call : Outcome A} {next : A → Outcome B}
      → Returns Q call
      → ((x : A) → Q x → Returns R (next x))
      → Returns R (call >>= next)
  Returns-bind (gives q) next = next _ q
