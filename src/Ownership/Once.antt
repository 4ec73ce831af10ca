-- ===== src/Ownership/Once.antt =====
-- A frame is destroyed once, by the variable that holds it last.
use mathlib.Core.List.Perm
use mathlib.Core.Option.{some-injective, none-ne-some}
use quick_cmake.Prelude.{
  ℕ, zero, suc, ◌+◌, ◌≡◌, refl, sym, subst, ◌∙◌, false, Option, none, some, List, [], ◌∷◌, ◌++◌,
  Perm, perm_middle, append-nil, append_assoc, get_elem?, set, ◌==◌, Bool-cases, inl, inr, arith,
}
use quick_cmake.Ownership.{
  Slot, live, ended, Frames, nothing, destroy, Operation, construct, move_construct, move_assign,
  destruct, with_live, perform, Reachable, begins, performs,
}

abbrev pub handle_of : Slot → List ℕ
handle_of (live (some h)) = h ∷ []
handle_of (live none) = []
handle_of ended = []

-- The handles that the variables hold.
unfoldable pub held : List Slot → List ℕ
held [] = []
held (v ∷ vs) = handle_of v ++ held vs

-- The frames that have been made.
unfoldable pub upto : ℕ → List ℕ
upto zero = []
upto (suc n) = n ∷ upto n

swap_front : (a b c : List ℕ) → Perm (a ++ (b ++ c)) (b ++ (a ++ c))
swap_front [] b c = Perm.rfl
swap_front (x ∷ a) b c =
    Perm.trans (Perm.cons x (swap_front a b c)) (Perm.symm (perm_middle b (a ++ c)))

held-append : (vs : List Slot) (v : Slot) → held (vs ++ v ∷ []) ≡ held vs ++ handle_of v
unfolding held
held-append [] v = append-nil (handle_of v)
held-append (w ∷ vs) v =
    rw (held-append vs v) (sym (append_assoc (handle_of w) (held vs) (handle_of v)))

held-set :
    (vs : List Slot) (i : ℕ) (v w : Slot)
    → get_elem? vs i ≡ some w
    → Perm (handle_of w ++ held (set vs i v)) (handle_of v ++ held vs)
unfolding held
held-set [] i v w h = absurd (none-ne-some w h)
held-set (x ∷ vs) zero v w h =
    rw (some-injective x w h) (swap_front (handle_of w) (handle_of v) (held vs))
held-set (x ∷ vs) (suc i) v w h =
    Perm.trans (swap_front (handle_of w) (handle_of x) (held (set vs i v))) (
      Perm.trans (Perm.append_left (handle_of x) (held-set vs i v w h))
        (swap_front (handle_of x) (handle_of v) (held vs)))

get_elem?-set :
    (vs : List Slot) (i j : ℕ) (v : Slot)
    → (i == j) ≡ false
    → get_elem? (set vs i v) j ≡ get_elem? vs j
get_elem?-set [] i j v h = refl
get_elem?-set (x ∷ vs) zero zero v h = absurd (ground arith)
get_elem?-set (x ∷ vs) zero (suc j) v h = refl
get_elem?-set (x ∷ vs) (suc i) zero v h = refl
get_elem?-set (x ∷ vs) (suc i) (suc j) v h = get_elem?-set vs i j v (ground arith)

-- The old handle of a variable is destroyed, and the variables hold the others.
destroys :
    (old : Option ℕ) (before behind ds : List ℕ)
    → Perm (handle_of (live old) ++ behind) before
    → Perm (behind ++ destroy old ds) (before ++ ds)
unfolding destroy
destroys none before behind ds p = Perm.append_right ds p
destroys (some h) before behind ds p = Perm.trans (perm_middle behind ds) (Perm.append_right ds p)

cancel :
    (h : Option ℕ) (a b : List ℕ)
    → Perm (handle_of (live h) ++ a) (handle_of (live h) ++ b)
    → Perm a b
cancel none a b p = p
cancel (some x) a b p = Perm.cons_inv p

with_live-inv :
    (vs : List Slot) (i : ℕ) (f : Option ℕ → Option Frames) (t : Frames)
    → with_live vs i f ≡ some t
    → (h : Option ℕ) × (get_elem? vs i ≡ some (live h)) × (f h ≡ some t)
unfolding with_live
with_live-inv vs i f t e = by_slot (get_elem? vs i) refl e
  where
    by_slot :
        (o : Option Slot)
        → get_elem? vs i ≡ o
        → (elim o [ none ↦ none | some ended ↦ none | some (live h) ↦ f h ]) ≡ some t
        → (h : Option ℕ) × (get_elem? vs i ≡ some (live h)) × (f h ≡ some t)
    by_slot none g k = absurd (none-ne-some t k)
    by_slot (some ended) g k = absurd (none-ne-some t k)
    by_slot (some (live h)) g k = (h, g, k)

abbrev Kept : Frames → Type 0
Kept s = Perm (held s.slots ++ s.destroyed) (upto s.made)

construct-Kept :
    (s : Frames)
    → Kept s
    → Kept (record s { slots = s.slots ++ live (some s.made) ∷ []; made = s.made + 1 })
unfolding upto
construct-Kept s k =
    let next : s.made + 1 ≡ suc s.made = omega arith in
    rw
      (
        held-append s.slots (live (some s.made)),
        append_assoc (held s.slots) (s.made ∷ []) s.destroyed,
        next,
      )
      (Perm.trans (perm_middle (held s.slots) s.destroyed) (Perm.cons s.made k))

move_construct-Kept :
    (s : Frames) (j : ℕ) (h : Option ℕ)
    → get_elem? s.slots j ≡ some (live h)
    → Kept s
    → Kept (record s { slots = set s.slots j (live none) ++ live h ∷ [] })
move_construct-Kept s j h there k =
    let rest = held (set s.slots j (live none)) in
    let swapped = swap_front rest (handle_of (live h)) [] in
    rw (held-append (set s.slots j (live none)) (live h)) (
      Perm.trans
        (Perm.append_right s.destroyed (
          Perm.trans (rw (append-nil (handle_of (live h)), append-nil rest) at swapped)
            (held-set s.slots j (live none) (live h) there)))
        k)

move_assign-Kept :
    (s : Frames) (i j : ℕ) (old h : Option ℕ)
    → (i == j) ≡ false
    → get_elem? s.slots i ≡ some (live old)
    → get_elem? s.slots j ≡ some (live h)
    → Kept s
    → Kept (record s {
      slots = set (set s.slots i (live h)) j (live none);
      destroyed = destroy old s.destroyed;
    })
move_assign-Kept s i j old h apart here there k =
    let first = set s.slots i (live h) in
    let second = set first j (live none) in
    let there' : get_elem? first j ≡ some (live h) =
      get_elem?-set s.slots i j (live h) apart ∙ there in
    let both =
      Perm.trans
        (Perm.append_left (handle_of (live old)) (held-set first j (live none) (live h) there'))
        (held-set s.slots i (live h) (live old) here) in
    let behind =
      cancel h (handle_of (live old) ++ held second) (held s.slots)
        (Perm.trans (swap_front (handle_of (live h)) (handle_of (live old)) (held second)) both) in
    Perm.trans (destroys old (held s.slots) (held second) s.destroyed behind) k

perform-Kept : (o : Operation) (s t : Frames) → Kept s → perform o s ≡ some t → Kept t
unfolding perform upto
perform-Kept construct s t k e = subst Kept (some-injective _ t e) (construct-Kept s k)
perform-Kept (move_construct j) s t k e =
    let (h, here, e') = with_live-inv s.slots j _ t e in
    subst Kept (some-injective _ t e') (move_construct-Kept s j h here k)
perform-Kept (move_assign i j) s t k e = elim (Bool-cases (i == j)) [
  | inl same ↦
      let (h, here, e') = with_live-inv s.slots i _ t (rw same at e) in
      subst Kept (some-injective s t e') k
  | inr apart ↦
      let (old, here, e') = with_live-inv s.slots i _ t (rw apart at e) in
      let (h, there, e'') = with_live-inv s.slots j _ t e' in
      subst Kept (some-injective _ t e'') (move_assign-Kept s i j old h apart here there k)
]
perform-Kept (destruct i) s t k e =
    let (h, here, e') = with_live-inv s.slots i _ t e in
    subst Kept (some-injective _ t e') (
      Perm.trans (destroys h (held s.slots) _ s.destroyed (held-set s.slots i ended (live h) here))
        k)

-- In every state that constructions, moves and destructions reach, each coroutine frame that was
-- made is held by exactly one variable, or has been destroyed exactly once, and no variable holds a
-- frame that has been destroyed.
pub held_or_destroyed :
    (s : Frames) → Reachable s → Perm (held s.slots ++ s.destroyed) (upto s.made)
unfolding nothing held upto
held_or_destroyed s begins = Perm.rfl
held_or_destroyed s (performs o before e) = perform-Kept o _ s (held_or_destroyed _ before) e
