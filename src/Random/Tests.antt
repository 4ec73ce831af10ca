-- ===== src/Random/Tests.antt =====
-- Runs of RandomUtil with a generator that counts, and the example of the theorem.
use quick_cmake.Prelude.{ℕ, ◌+◌, ◌≡◌, refl, [], ◌∷◌, codes}
use quick_cmake.Outcome.{value, undefined, Returns}
use quick_cmake.Random.{
  lower_alpha, modulo, found, get_random_int, get_random_int_vector, random_char, string_loop,
  get_random_string, get_random_email,
}
use quick_cmake.Random.Strings.{IsEmail, get_random_email-IsEmail}

abbrev counting : ℕ → ℕ × ℕ
counting g = (g, g + 1)

three_ints : get_random_int_vector counting 3 5 6 10 ≡ value (5 ∷ 6 ∷ 5 ∷ [], 13)
unfolding get_random_int_vector get_random_int modulo
three_ints = refl

three_letters : get_random_string counting 3 lower_alpha 25 ≡ value (codes "zab", 28)
unfolding get_random_string string_loop random_char get_random_int modulo found
three_letters = refl

-- No charset: getRandomInt divides by zero.
no_letters : get_random_string counting 1 [] 25 ≡ undefined
unfolding get_random_string string_loop random_char
no_letters = refl

get_random_email-IsEmail_example : Returns (λ (t, h). IsEmail t) (get_random_email counting 4)
get_random_email-IsEmail_example = get_random_email-IsEmail counting 4
