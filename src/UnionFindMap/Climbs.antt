-- ===== src/UnionFindMap/Climbs.antt =====
-- Chains of parents in the map, and find along them.
use quick_cmake.Prelude.{
  ℕ, zero, suc, ◌<◌, ◌≡◌, ◌≢◌, ◌↔◌, refl, sym, ap, subst, ◌∙◌, Bool, true, none, some, List, arith,
  if◌then◌else◌, Bool-cases, inl, inr,
}
use mathlib.Core.Option.{some-injective}
use quick_cmake.Outcome.{value}
use quick_cmake.UnionFindMap.{equal, lookup, insert, write, find_loop}
use quick_cmake.UnionFindMap.Entries.{lookup-insert, lookup-write}

module _ {A : Type 0} (lesser : A → A → Bool) where
  -- From `a` the parents reach the root `r` within `k` steps.
  pub data Climb (m : List (A × A)) : ℕ → A → A → Type 0 where
    top : {k : ℕ} {a r : A} → a ≡ r → lookup lesser a m ≡ some a → Climb m k a r
    up : {k : ℕ} {a b r : A} → lookup lesser a m ≡ some b → Climb m k b r → Climb m (suc k) a r

module _ {A : Type 0} (lesser : A → A → Bool)
    (equal_iff : (a b : A) → (equal lesser a b ≡ true) ↔ (a ≡ b)) where
  Climb-root :
      {m : List (A × A)} {k : ℕ} {a r : A}
      → Climb lesser m k a r
      → lookup lesser a m ≡ some a
      → r ≡ a
  Climb-root (top e g) h = sym e
  Climb-root (up {a = a} {b = b} g c) h =
      let same : b ≡ a = some-injective b a (sym g ∙ h) in Climb-root c (rw same h) ∙ same

  pub root_parent :
      {m : List (A × A)} {k : ℕ} {a r : A} → Climb lesser m k a r → lookup lesser r m ≡ some r
  root_parent (top e g) = rw e at g
  root_parent (up g c) = root_parent c

  pub Climb-unique :
      {m : List (A × A)} {k j : ℕ} {a r s : A} → Climb lesser m k a r → Climb lesser m j a s → r ≡ s
  Climb-unique (top e g) d = sym e ∙ sym (Climb-root d g)
  Climb-unique (up g c) (top e h) = Climb-root (up g c) h ∙ e
  Climb-unique {m = m} (up {b = b} g c) (up {k = j} {b = d} {r = s} h c') =
      let same : d ≡ b = some-injective d b (sym h ∙ g) in
      Climb-unique c (subst (λ z. Climb lesser m j z s) same c')

  -- An element that a chain leads from has an entry.
  pub parent_of :
      {m : List (A × A)} {k : ℕ} {a r : A}
      → Climb lesser m k a r
      → (b : A) × (lookup lesser a m ≡ some b)
  parent_of (top {a = a} e g) = (a, g)
  parent_of (up {b = b} g c) = (b, g)

  -- find returns the root, where the fuel is more than the length of the chain.
  pub find_loop_lem :
      (n : ℕ) {k : ℕ} (m : List (A × A)) {a r : A}
      → Climb lesser m k a r
      → k < n
      → find_loop lesser n m a ≡ value r
  unfolding find_loop
  find_loop_lem zero m c h = absurd (omega arith)
  find_loop_lem (suc n) m (top {a = a} {r = r} e g) h = rw (find_loop, g, (equal_iff a a).1 refl, e)
  find_loop_lem (suc n) m (up {a = a} {b = b} {r = r} g c) h =
      elim (Bool-cases (equal lesser b a)) [
        | inl e ↦
            let same = (equal_iff b a).0 e in
            rw (find_loop, g, e) (ap value (sym (Climb-root (up g c) (g ∙ ap some same))))
        | inr e ↦ rw (find_loop, g, e) (find_loop_lem n m c (omega arith))
      ]

  -- A new element changes no chain.
  pub insert-Climb :
      {m : List (A × A)} {k : ℕ} {a r : A} (z : A)
      → lookup lesser z m ≡ none
      → Climb lesser m k a r
      → Climb lesser (insert lesser z z m) k a r
  insert-Climb {m = m} z new (top {a = a} e g) =
      top e (ground (arith, lookup-insert lesser equal_iff z z a m new, equal_iff z a))
  insert-Climb {m = m} z new (up {a = a} g c) =
      up (ground (arith, lookup-insert lesser equal_iff z z a m new, equal_iff z a))
        (insert-Climb z new c)

  -- Making the root `rb` the parent of the root `ra`.
  module _ (m : List (A × A)) (ra rb : A) (ha : lookup lesser ra m ≡ some ra)
      (hb : lookup lesser rb m ≡ some rb) (ne : ra ≢ rb) where
    -- The root of an element whose root was `r`.
    abbrev joined : A → A
    joined r = if equal lesser ra r then rb else r

    looked :
        (x : A)
        → lookup lesser x (write lesser ra rb m)
          ≡ (if equal lesser ra x then some rb else lookup lesser x m)
    looked x = lookup-write lesser equal_iff ra rb x ra m ha

    moved : {k : ℕ} {x : A} → ra ≡ x → Climb lesser (write lesser ra rb m) (suc k) x rb
    moved {x = x} e =
        up (ground (arith, looked x, equal_iff ra x))
          (top refl (ground (arith, looked rb, equal_iff ra rb)))

    pub write-Climb :
        {k : ℕ} {x s : A}
        → Climb lesser m k x s
        → Climb lesser (write lesser ra rb m) (suc k) x (joined s)
    write-Climb (top {k = k} {a = x} {r = s} e g) = elim (Bool-cases (equal lesser ra x)) [
      | inl q ↦
          let to : joined s ≡ rb = ground (arith, equal_iff ra s, equal_iff ra x) in
          subst (Climb lesser (write lesser ra rb m) (suc k) x) (sym to)
            (moved ((equal_iff ra x).0 q))
      | inr q ↦
          let to : x ≡ joined s = ground (arith, equal_iff ra s, equal_iff ra x) in
          top to (ground (arith, looked x))
    ]
    write-Climb (up {k = k} {a = x} {r = s} g c) = elim (Bool-cases (equal lesser ra x)) [
      | inl q ↦
          let is = (equal_iff ra x).0 q in
          let s_is : s ≡ ra = Climb-root (up g c) (rw is at ha) ∙ sym is in
          let to : joined s ≡ rb = ground (arith, equal_iff ra s) in
          subst (Climb lesser (write lesser ra rb m) (suc (suc k)) x) (sym to) (moved is)
      | inr q ↦ up (ground (arith, looked x)) (write-Climb c)
    ]
