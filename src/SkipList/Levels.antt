-- ===== src/SkipList/Levels.antt =====
-- One pointer of a node: reading it behind a write.
use mathlib.Core.Option.{some-injective}
use quick_cmake.Prelude.{
  ℕ, ◌≡◌, ◌≢◌, ◌⊎◌, refl, sym, ap, ◌∙◌, true, Option, some, ltb, ◌==◌, arith, Bool-cases,
  Option-cases, inl, inr, ==_refl, ==→eq,
}
use quick_cmake.Outcome.{value, undefined}
use quick_cmake.SkipList.{SkipListNode, Nodes, write, next_at, set_next}

-- An address, and what the node there keeps beside its pointers.
pub record Cell (K V : Type 0) : Type 0 where
  pub place : ℕ
  pub key : K
  pub val : V
  pub level : ℕ

module _ {K V : Type 0} where
  abbrev pub Stored : Nodes K V → Cell K V → Type 0
  Stored m c =
      (next : ℕ → Option ℕ) × (m c.place
        ≡ some (record { key = c.key; val = c.val; level = c.level; next_nodes = next }))

  -- m' is m with q in p->nextNodes[i].
  pub record Written (m : Nodes K V) (p i : ℕ) (q : Option ℕ) (m' : Nodes K V) : Type 0 where
    pub here : next_at m' p i ≡ value q
    pub apart : (r j : ℕ) → (p ≢ r) ⊎ (i ≢ j) → next_at m' r j ≡ next_at m r j
    pub kept : (c : Cell K V) → Stored m c → Stored m' c
    pub elsewhere : (r : ℕ) → p ≢ r → m' r ≡ m r

  write-Written :
      (m : Nodes K V) (p i : ℕ) (q : Option ℕ) (n : SkipListNode K V)
      → m p ≡ some n
      → ltb i n.level ≡ true
      → Written m p i q (write m p (some (record n { next_nodes = write n.next_nodes i q })))
  unfolding next_at
  write-Written m p i q n at low = record {
    here = rw (==_refl p, low, ==_refl i) refl;
    apart = λ r j h. ground (arith, ==→eq p r);
    kept = λ c (next, e). elim (Bool-cases (p == c.place)) [
      | inl same ↦
          let content : n
              ≡ record { key = c.key; val = c.val; level = c.level; next_nodes = next } =
            some-injective _ _ (sym at ∙ ap m (==→eq p c.place same) ∙ e) in
          (write n.next_nodes i q, rw (same, content) refl)
      | inr other ↦ (next, rw other e)
    ];
    elsewhere = λ r h. ground arith;
  }

  pub set_next-Written :
      (m : Nodes K V) (p i : ℕ) (x q : Option ℕ)
      → next_at m p i ≡ value x
      → (m' : Nodes K V) × (set_next m p i q ≡ value m') × Written m p i q m'
  unfolding next_at set_next
  set_next-Written m p i x q h = elim (Option-cases (m p)) [
    | inl e ↦ cc
    | inr (n, e) ↦ elim (Bool-cases (ltb i n.level)) [
      | inl low ↦ (_, rw (e, low) refl, write-Written m p i q n e low)
      | inr high ↦ absurd (let bad : undefined ≡ value x = rw (e, high) at h in cc)
    ]
  ]
