-- ===== src/SkipList/Refines.antt =====
-- A run of calls on a skip list, and the same calls on a list of entries.
use quick_cmake.Prelude.{
  ℕ, ◌≡◌, ◌≤◌, refl, sym, ap, ◌∙◌, subst, Bool, true, false, Option, none, some, List, [], ◌∷◌,
  ◌++◌, All, All-parts, length, arith, Bool-cases, inl, inr, lt→ltb,
}
use quick_cmake.Outcome.{
  Outcome, value, thrown, undefined, blocked, out_of_fuel, runtime_error, ◌>>=◌,
}
use quick_cmake.SkipList.{
  SkipList, max_level, get_random_level, size, next_at, make, find, at, insert, erase,
}
use quick_cmake.SkipList.Levels.{Cell, Stored}
use quick_cmake.SkipList.Threads.{ends}
use quick_cmake.SkipList.Entries.{
  lookup, put, remove, entries, lookup-below, lookup-above, put-between, remove-between,
  length-entries,
}
use quick_cmake.SkipList.Search.{IsBelow, IsFrom}
use quick_cmake.SkipList.Represents.{IsOrder, Sorted, Represents, part, matching, searched}
use quick_cmake.SkipList.Change.{
  above_key, get_random_level_bounds, insert_new, insert_old, erase_absent, erase_present,
}

-- A call of insert, with what is drawn in it, of erase, of operator[] or of size.
pub data Operation (K V : Type 0) : Type 0 where
  add : (ℕ → Bool) → K → V → Operation K V
  drop : K → Operation K V
  read : K → Operation K V
  count : Operation K V

pub data Reply (V : Type 0) : Type 0 where
  changed : Bool → Reply V
  got : Option V → Reply V
  counted : ℕ → Reply V

-- The value, or nothing where runtime_error is caught.
abbrev pub caught : {V : Type 0} → Outcome V → Outcome (Option V)
caught (value v) = value (some v)
caught (thrown runtime_error) = value none
caught (thrown e) = thrown e
caught undefined = undefined
caught blocked = blocked
caught out_of_fuel = out_of_fuel

module _ {K V : Type 0} (lt eq : K → K → Bool) where
  abbrev pub perform : SkipList K V → Operation K V → Outcome (Reply V × SkipList K V)
  perform s (add draws k v) = insert lt eq draws s k v >>= λ (b, t). value (changed b, t)
  perform s (drop k) = erase lt eq s k >>= λ (b, t). value (changed b, t)
  perform s (read k) = caught (at lt eq s k) >>= λ o. value (got o, s)
  perform s count = value (counted (size s), s)

  unfoldable pub run : SkipList K V → List (Operation K V) → Outcome (List (Reply V))
  run s [] = value []
  run s (op ∷ ops) = perform s op >>= λ (r, t). run t ops >>= λ rs. value (r ∷ rs)

  -- insert keeps the value of a key that is there.
  abbrev pub map_perform : List (K × V) → Operation K V → Reply V × List (K × V)
  map_perform l (add draws k v) = elim (lookup lt eq k l) [
    | none ↦ (changed true, put lt eq k v l)
    | some w ↦ (changed false, l)
  ]
  map_perform l (drop k) = elim (lookup lt eq k l) [
    | none ↦ (changed false, l)
    | some w ↦ (changed true, remove lt eq k l)
  ]
  map_perform l (read k) = (got (lookup lt eq k l), l)
  map_perform l count = (counted (length l), l)

  abbrev pub map_run : List (K × V) → List (Operation K V) → List (Reply V)
  map_run l [] = []
  map_run l (op ∷ ops) = let (r, m) = map_perform l op in r ∷ map_run m ops

-- The draws of an insert give a level that the list has.
abbrev pub Fits : {K V : Type 0} → Operation K V → Type 0
Fits (add draws k v) = (n : ℕ) × (get_random_level draws ≡ value n) × (n ≤ max_level)
Fits _ = Unit

module _ {K V : Type 0} {lt eq : K → K → Bool} (laws : IsOrder lt eq) where
  -- What a call does to a list that stands for cells.
  abbrev Does : SkipList K V → List (Cell K V) → Operation K V → Type 0
  Does s l op =
      let (reply, after) = map_perform lt eq (entries l) op in
      (t : SkipList K V) × (m : List (Cell K V)) × (perform lt eq s op ≡ value (reply, t))
      × Represents lt t m
      × (entries m ≡ after)

  -- A key is in no cell, or in the first one behind those with smaller keys.
  data Where (k : K) (a : List (Cell K V)) : List (Cell K V) → Type 0 where
    absent :
        {b : List (Cell K V)}
        → matching lt eq k b ≡ none
        → All (λ d. lt k d.key ≡ true) b
        → Where k a b
    present :
        {b : List (Cell K V)} {c : Cell K V}
        → eq c.key k ≡ true
        → All (λ d. lt k d.key ≡ true) b
        → Where k a (c ∷ b)

  Sorted-back : (a b : List (Cell K V)) → Sorted lt (a ++ b) → Sorted lt b
  Sorted-back [] b s = s
  Sorted-back (d ∷ a) b s = Sorted-back a b s.1

  locate : (k : K) (a b : List (Cell K V)) → All (IsFrom lt k) b → Sorted lt (a ++ b) → Where k a b
  locate k a [] from s = absent refl tt
  locate k a (c ∷ b) from s = elim (Bool-cases (eq c.key k)) [
    | inl e ↦ present e (rw (← (laws.eq_iff c.key k).0 e) ((Sorted-back a (c ∷ b) s).0))
    | inr e ↦
        let nothing : matching lt eq k (c ∷ b) ≡ none = rw e refl in
        absent nothing (above_key laws k a (c ∷ b) from nothing s)
  ]

  add_lem :
      (s : SkipList K V) (draws : ℕ → Bool) (k : K) (v : V) (a b : List (Cell K V))
      → Represents lt s (a ++ b)
      → All (IsBelow lt k) a
      → All (IsFrom lt k) b
      → Fits (add draws k v)
      → Where k a b
      → Does s (a ++ b) (add draws k v)
  add_lem s draws k v a b r below from (level, drawn, most) (absent nothing above) =
      let (n, again, least, bound) = get_random_level_bounds draws in
      let same : n ≡ level = cc in
      let (t, run, rep) =
        insert_new laws draws s k v a b level r below from nothing drawn (rw same at least) most in
      let missing : lookup lt eq k (entries (a ++ b)) ≡ none =
        lookup-below laws k a b below ∙ lookup-above laws k b above in
      (
        t,
        _,
        rw (run, map_perform, missing) refl,
        rep,
        rw (map_perform, missing) (put-between laws a b _ below from),
      )
  add_lem s draws k v a b r below from fits (present {c = c} same above) =
      let there : lookup lt eq k (entries (a ++ b)) ≡ some c.val =
        lookup-below laws k a b below ∙ rw same refl in
      (
        s,
        a ++ b,
        rw (insert_old laws draws s k v a b c.place r below from (rw same refl), map_perform, there)
            refl,
        r,
        rw (map_perform, there) refl,
      )

  drop_lem :
      (s : SkipList K V) (k : K) (a b : List (Cell K V))
      → Represents lt s (a ++ b)
      → All (IsBelow lt k) a
      → All (IsFrom lt k) b
      → Where k a b
      → Does s (a ++ b) (drop k)
  drop_lem s k a b r below from (absent nothing above) =
      let missing : lookup lt eq k (entries (a ++ b)) ≡ none =
        lookup-below laws k a b below ∙ lookup-above laws k b above in
      (
        s,
        a ++ b,
        rw (erase_absent laws s k a b r below from nothing, map_perform, missing) refl,
        r,
        rw (map_perform, missing) refl,
      )
  drop_lem s k a b r below from (present {b = behind} {c = c} same above) =
      let there : lookup lt eq k (entries (a ++ b)) ≡ some c.val =
        lookup-below laws k a b below ∙ rw same refl in
      let (t, run, rep) = erase_present laws s k a behind c r below from same in
      (
        t,
        a ++ behind,
        rw (run, map_perform, there) refl,
        rep,
        rw (map_perform, there) (remove-between laws k a behind c below same above),
      )

  read_lem :
      (s : SkipList K V) (k : K) (a b : List (Cell K V))
      → Represents lt s (a ++ b)
      → All (IsBelow lt k) a
      → All (IsFrom lt k) b
      → Where k a b
      → caught (at lt eq s k) ≡ value (lookup lt eq k (entries (a ++ b)))
  unfolding at find
  read_lem s k a b r below from (absent nothing above) =
      let (curr, update, run, same_run, found, match) = searched lt eq s k a b r below from in
      let missing : lookup lt eq k (entries (a ++ b)) ≡ none =
        lookup-below laws k a b below ∙ lookup-above laws k b above in
      rw (same_run, match, nothing, missing) refl
  read_lem s k a b r below from (present {c = c} same above) =
      let (curr, update, run, same_run, found, match) = searched lt eq s k a b r below from in
      let there : lookup lt eq k (entries (a ++ b)) ≡ some c.val =
        lookup-below laws k a b below ∙ rw same refl in
      let (front, back) = All-parts (Stored s.nodes) a b r.stored in
      rw (same_run, match, same, back.0.1, there) refl

  perform_lem :
      (s : SkipList K V) (l : List (Cell K V)) (op : Operation K V)
      → Represents lt s l
      → Fits op
      → Does s l op
  perform_lem s l count r fits =
      (s, l, ap (λ (n : ℕ). value (counted n, s)) (r.count ∙ sym (length-entries laws l)), r, refl)
  perform_lem s l (add draws k v) r fits =
      let p = part laws k l r.sorted in
      let rep = subst (Represents lt s) p.same r in
      subst (λ m. Does s m (add draws k v)) (sym p.same)
        (add_lem s draws k v p.front p.back rep p.below p.from fits
          (locate k p.front p.back p.from rep.sorted))
  perform_lem s l (drop k) r fits =
      let p = part laws k l r.sorted in
      let rep = subst (Represents lt s) p.same r in
      subst (λ m. Does s m (drop k)) (sym p.same)
        (drop_lem s k p.front p.back rep p.below p.from (locate k p.front p.back p.from rep.sorted))
  perform_lem s l (read k) r fits =
      let p = part laws k l r.sorted in
      let rep = subst (Represents lt s) p.same r in
      let answer =
        read_lem s k p.front p.back rep p.below p.from
          (locate k p.front p.back p.from rep.sorted) in
      (s, l, rw (answer, p.same) refl, r, refl)

  run_from :
      (s : SkipList K V) (l : List (Cell K V)) (ops : List (Operation K V))
      → Represents lt s l
      → All Fits ops
      → run lt eq s ops ≡ value (map_run lt eq (entries l) ops)
  unfolding run
  run_from s l [] r fits = refl
  run_from s l (op ∷ ops) r (fits, more) =
      let (t, m, did, rep, after) = perform_lem s l op r fits in
      let rest : run lt eq t ops ≡ value (map_run lt eq (map_perform lt eq (entries l) op).1 ops) =
        rw (← after) (run_from t m ops rep more) in
      rw (did, rest) refl

  make-Represents : (k : K) (v : V) → Represents lt (make k v) []
  unfolding make next_at
  make-Represents k v = record {
    threads = λ i h. ends (rw (lt→ltb i max_level h) refl);
    stored = tt;
    levels = tt;
    sorted = tt;
    apart = tt;
    room = tt;
    head_room = omega arith;
    count = refl;
  }

  -- Calls of insert, erase, operator[] and size on a new skip list, of which each insert draws a
  -- level of at most 20, return what a map returns that keeps the entries sorted by their keys:
  -- insert says whether the key was new and keeps the value of a key that is there, erase says
  -- whether there was one, and operator[] throws where there is none. The keys' < and == are a
  -- strict total order.
  pub run_refines :
      (k : K) (v : V) (ops : List (Operation K V))
      → All Fits ops
      → run lt eq (make k v) ops ≡ value (map_run lt eq [] ops)
  run_refines k v ops fits = run_from (make k v) [] ops (make-Represents k v) fits
