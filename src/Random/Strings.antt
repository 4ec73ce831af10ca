-- ===== src/Random/Strings.antt =====
-- What the random strings are made of.
use mathlib.Core.Bool.{false≢true}
use native.Mathlib.Nat.{mod-lt, zero-lt-suc}
use mathlib.Core.List.{Mem, mem-cons_self, mem-cons_of_mem}
use quick_cmake.Prelude.{
  ℕ, zero, suc, ◌+◌, ◌-◌, ◌≤◌, ◌<◌, ◌≡◌, ◌≢◌, refl, Bool, true, false, List, [], ◌∷◌, ◌++◌, codes,
  All, length, length-append, get_elem?-get_or, get_or, get_or-mem, append-nil, ltb, ltb→lt,
  Bool-cases, inl, inr, arith,
}
use quick_cmake.Outcome.{Returns, gives, Returns-bind, Returns-map}
use quick_cmake.Str.{Text}
use quick_cmake.Printer.{no_more, more, streamed, to_strings, format}
use quick_cmake.Printer.Format.{template, filled, NoBrace, format-filled}
use quick_cmake.Random.{
  upper_alpha, lower_alpha, number, domains, modulo, found, get_random_int, random_char,
  string_loop, get_random_string, get_random_email,
}

at_All :
    {A : Type 0} (P : A → Type 0) (s : List A) (i : ℕ) (d : A)
    → All P s
    → i < length s
    → P (get_or s i d)
at_All P [] i d a h = absurd (omega arith)
at_All P (x ∷ s) zero d a h = a.0
at_All P (x ∷ s) (suc i) d a h = at_All P s i d a.1 (omega arith)

module _ {G : Type 0} (draw : G → ℕ × G) where
  get_random_int_within :
      (lower upper : ℕ) (g : G)
      → lower ≤ upper
      → Returns (λ (n, h). (lower ≤ n) × (n ≤ upper)) (get_random_int draw lower upper g)
  unfolding get_random_int modulo
  get_random_int_within lower upper g h =
      let span : upper + 1 - lower ≡ suc (upper - lower) = omega arith in
      let below = mod-lt (draw g).0 (zero-lt-suc (upper - lower)) in
      rw span (gives (omega arith, omega (arith, below)))

  module _ (P : ℕ → Type 0) (first : ℕ) (others : Text) (all : All P (first ∷ others)) where
    random_char_in : (g : G) → Returns (λ (c, h). P c) (random_char draw (first ∷ others) g)
    unfolding random_char found
    random_char_in g =
        Returns-bind (get_random_int_within 0 (length others) g (omega arith)) λ (n, h) (_, upper).
          rw (get_elem?-get_or (first ∷ others) n 0 (omega arith))
            (gives (at_All P (first ∷ others) n 0 all (omega arith)))

    All-concat : (s : Text) (c : ℕ) → All P s → P c → All P (s ++ c ∷ [])
    All-concat [] c a p = (p, tt)
    All-concat (x ∷ s) c a p = (a.0, All-concat s c a.1 p)

    string_loop_in :
        (n : ℕ) (ret : Text) (g : G)
        → All P ret
        → Returns
            (λ (s, h). (length s ≡ length ret + n) × All P s)
            (string_loop draw n (first ∷ others) ret g)
    unfolding string_loop
    string_loop_in zero ret g a = gives (omega arith, a)
    string_loop_in (suc n) ret g a = Returns-bind (random_char_in g) λ (c, g1) p.
        Returns-map (string_loop_in n (ret ++ c ∷ []) g1 (All-concat ret c a p))
          λ (s, h) (long, q). (omega (arith, length-append ret (c ∷ [])), q)

    get_random_string_in :
        (n : ℕ) (g : G)
        → Returns (λ (s, h). (length s ≡ n) × All P s) (get_random_string draw n (first ∷ others) g)
    unfolding get_random_string
    get_random_string_in n g =
        Returns-map (string_loop_in n [] g tt) λ (s, h) (long, q). (omega arith, q)

-- A byte of the charset that is not "{".
abbrev From : Text → ℕ → Type 0
From charset c = Mem c charset × (c ≢ b'{')

all_below : Text → Bool
all_below [] = true
all_below (c ∷ s) = elim (ltb c b'{') [ true ↦ all_below s | false ↦ false ]

All-From :
    (charset s : Text)
    → ((c : ℕ) → Mem c s → Mem c charset)
    → all_below s ≡ true
    → All (From charset) s
unfolding all_below
All-From charset [] sub h = tt
All-From charset (c ∷ s) sub h = elim (Bool-cases (ltb c b'{')) [
  | inl e ↦ (
    (sub c mem-cons_self, omega (arith, ltb→lt c b'{' e)),
    All-From charset s (λ x m. sub x (mem-cons_of_mem c m)) (rw (e, all_below) at h),
  )
  | inr e ↦ absurd (false≢true (rw (e, all_below) at h))
]

All-second : (charset s : Text) → All (From charset) s → NoBrace s × All (λ c. Mem c charset) s
All-second charset [] h = (tt, tt)
All-second charset (c ∷ s) h =
    let (below, members) = All-second charset s h.1 in ((h.0.1, below), (h.0.0, members))

abbrev pub alphanumeric : Text
alphanumeric = upper_alpha ++ (lower_alpha ++ number)

-- What getRandomEmail promises.
pub record IsEmail (t : Text) : Type 0 where
  pub user : Text
  pub host : Text
  pub domain : Text
  pub whole : t ≡ user ++ (codes "@" ++ (host ++ (codes "." ++ domain)))
  pub user_length : (5 ≤ length user) × (length user ≤ 9)
  pub host_length : (2 ≤ length host) × (length host ≤ 4)
  pub user_chars : All (λ c. Mem c alphanumeric) user
  pub host_chars : All (λ c. Mem c lower_alpha) host
  pub known : Mem domain domains

email_text :
    (user host domain : Text)
    → NoBrace user
    → NoBrace host
    → NoBrace domain
    → format
        (codes "{}@{}.{}")
        (more (streamed user) (more (streamed host) (more (streamed domain) no_more)))
      ≡ user ++ (codes "@" ++ (host ++ (codes "." ++ domain)))
unfolding to_strings template filled
email_text user host domain hu hh hd =
    let args = more (streamed user) (more (streamed host) (more (streamed domain) no_more)) in
    rw (append-nil domain) at
      (format-filled [] (codes "@" ∷ codes "." ∷ [] ∷ []) args (omega arith) (hu, (hh, (hd, tt))))

domains-NoBrace : All NoBrace domains
domains-NoBrace = omega arith

-- Whatever the generator draws, getRandomEmail returns five to nine letters and digits, "@", two to
-- four lower-case letters, "." and one of the domains of its list.
pub get_random_email-IsEmail :
    {G : Type 0} (draw : G → ℕ × G) (g : G)
    → Returns (λ (t, h). IsEmail t) (get_random_email draw g)
unfolding get_random_email found all_below
get_random_email-IsEmail draw g =
    Returns-bind (get_random_int_within draw 5 9 g (omega arith)) λ (n, g1) (n_least, n_most).
      Returns-bind
        (get_random_string_in draw (From alphanumeric) _ _
          (All-From alphanumeric alphanumeric (λ c m. m) refl) n g1)
        λ (user, g2) (user_long, user_all).
          Returns-bind (get_random_int_within draw 2 4 g2 (omega arith))
            λ (m, g3) (m_least, m_most).
              Returns-bind
                (get_random_string_in draw (From lower_alpha) _ _
                  (All-From lower_alpha lower_alpha (λ c m. m) refl) m g3)
                λ (host, g4) (host_long, host_all).
                  Returns-bind (get_random_int_within draw 0 6 g4 (omega arith))
                    λ (i, g5) (_, most).
                      let domain = get_or domains i [] in
                      let known = at_All NoBrace domains i [] domains-NoBrace (omega arith) in
                      let (user_plain, user_in) = All-second alphanumeric user user_all in
                      let (host_plain, host_in) = All-second lower_alpha host host_all in
                      rw (get_elem?-get_or domains i [] (omega arith)) (
                        gives (record {
                          user = user;
                          host = host;
                          domain = domain;
                          whole = email_text user host domain user_plain host_plain known;
                          user_length = (omega arith, omega arith);
                          host_length = (omega arith, omega arith);
                          user_chars = user_in;
                          host_chars = host_in;
                          known = get_or-mem domains i [] (omega arith);
                        }))
