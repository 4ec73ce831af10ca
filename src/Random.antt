-- ===== src/Random.antt =====
-- include/skutils/random.h: RandomUtil, with the generator and its integer distribution as a
-- parameter.
pub mod Strings
mod Tests
use quick_cmake.Prelude.{
  ℕ, zero, suc, ◌+◌, ◌-◌, ◌*◌, ◌%◌, Bool, Option, none, some, List, [], ◌∷◌, ◌++◌, codes, length,
  get_elem?,
}
use quick_cmake.Outcome.{Outcome, value, undefined, ◌>>=◌}
use quick_cmake.Str.{Text}
use quick_cmake.Printer.{Values, no_more, more, streamed, format}

abbrev pub upper_alpha : Text
upper_alpha = codes "ABCDEFGHIJKLMNOPQRSTUVWXYZ"

abbrev pub lower_alpha : Text
lower_alpha = codes "abcdefghijklmnopqrstuvwxyz"

abbrev pub number : Text
number = codes "0123456789"

abbrev pub specific : Text
specific = codes "~!@#$%^&*()_+-/="

abbrev pub domains : List Text
domains =
    codes "cn"
    ∷ codes "us"
    ∷ codes "com"
    ∷ codes "org"
    ∷ codes "edu"
    ∷ codes "edu.cn"
    ∷ codes "edu.us"
    ∷ []

-- a % n is undefined for n = 0.
unfoldable pub modulo : ℕ → ℕ → Outcome ℕ
modulo a zero = undefined
modulo a (suc n) = value (a % suc n)

module _ {A : Type 0} where
  unfoldable pub found : Option A → Outcome A
  found none = undefined
  found (some a) = value a

-- `draw` is _intDistro(_gen), on the state of the generator.
module _ {G : Type 0} (draw : G → ℕ × G) where
  -- The bounds are not negative, and `lower` is at most upper + 1.
  unfoldable pub get_random_int : ℕ → ℕ → G → Outcome (ℕ × G)
  get_random_int lower upper g =
      let (n, g1) = draw g in modulo n (upper + 1 - lower) >>= λ r. value (r + lower, g1)

  -- The loop of getRandomIntVector over `size` elements.
  unfoldable pub get_random_int_vector : ℕ → ℕ → ℕ → G → Outcome (List ℕ × G)
  get_random_int_vector zero lower upper g = value ([], g)
  get_random_int_vector (suc size) lower upper g = do
    (n, g1) ← get_random_int lower upper g
    (rest, g2) ← get_random_int_vector size lower upper g1
    value (n ∷ rest, g2)

  -- For an empty charset the bound len - 1 is -1 as an int, and getRandomInt divides by 0.
  unfoldable pub random_char : Text → G → Outcome (ℕ × G)
  random_char [] g = undefined
  random_char (c ∷ charset) g = do
    (n, g1) ← get_random_int 0 (length charset) g
    x ← found (get_elem? (c ∷ charset) n)
    value (x, g1)

  unfoldable pub string_loop : ℕ → Text → Text → G → Outcome (Text × G)
  string_loop zero charset ret g = value (ret, g)
  string_loop (suc n) charset ret g =
      random_char charset g >>= λ (c, g1). string_loop n charset (ret ++ c ∷ []) g1

  unfoldable pub get_random_string : ℕ → Text → G → Outcome (Text × G)
  get_random_string length' charset g = string_loop length' charset [] g

  -- The arguments of format, from the left one on; the order is not fixed by the language.
  unfoldable pub get_random_name : G → Outcome (Text × G)
  get_random_name g = do
    (a, g1) ← get_random_string 1 upper_alpha g
    (n, g2) ← get_random_int 2 5 g1
    (b, g3) ← get_random_string n lower_alpha g2
    (c, g4) ← get_random_string 1 upper_alpha g3
    (m, g5) ← get_random_int 2 4 g4
    (d, g6) ← get_random_string m lower_alpha g5
    value (
      format (codes "{}{} {}{}")
          (more (streamed a) (more (streamed b) (more (streamed c) (more (streamed d) no_more)))),
      g6,
    )

  unfoldable pub get_random_email : G → Outcome (Text × G)
  get_random_email g = do
    (n, g1) ← get_random_int 5 9 g
    (user, g2) ← get_random_string n (upper_alpha ++ (lower_alpha ++ number)) g1
    (m, g3) ← get_random_int 2 4 g2
    (host, g4) ← get_random_string m lower_alpha g3
    (i, g5) ← get_random_int 0 (length domains - 1) g4
    domain ← found (get_elem? domains i)
    value (
      format (codes "{}@{}.{}")
          (more (streamed user) (more (streamed host) (more (streamed domain) no_more))),
      g5,
    )

  unfoldable pub get_random_phone_number : G → Outcome (Text × G)
  get_random_phone_number g = get_random_string 10 number g >>= λ (s, g1).
      value (format (codes "1{}") (more (streamed s) no_more), g1)
