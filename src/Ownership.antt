-- ===== src/Ownership.antt =====
-- The handles of include/skutils/coroutine/task.h and generator.h: Task<T>, Task<void> and
-- Generator<T> construct, move and destroy the handle of a coroutine in the same way.
pub mod Once
mod Tests
use quick_cmake.Prelude.{
  ℕ, suc, ◌+◌, ◌≡◌, Bool, true, false, Option, none, some, List, [], ◌∷◌, ◌++◌, get_elem?, set,
  ◌==◌, if◌then◌else◌,
}

-- A variable of the class: its handle_, or its lifetime has ended.
pub data Slot : Type 0 where
  live : Option ℕ → Slot
  ended : Slot

-- The variables in the order of their construction, the number of coroutine frames that have been
-- made, each named by its number, and the frames for which destroy was called.
pub record Frames : Type 0 where
  pub slots : List Slot
  pub made : ℕ
  pub destroyed : List ℕ

unfoldable pub nothing : Frames
nothing = record { slots = []; made = 0; destroyed = [] }

-- if (handle_) { handle_.destroy(); }
unfoldable pub destroy : Option ℕ → List ℕ → List ℕ
destroy none ds = ds
destroy (some h) ds = h ∷ ds

pub data Operation : Type 0 where
  construct : Operation
  move_construct destruct : ℕ → Operation
  move_assign : ℕ → ℕ → Operation

-- A variable is used only in its lifetime.
unfoldable pub with_live : List Slot → ℕ → (Option ℕ → Option Frames) → Option Frames
with_live slots i f = elim (get_elem? slots i) [
  | none ↦ none
  | some ended ↦ none
  | some (live h) ↦ f h
]

-- The constructors, the move assignment and the destructor; `none` for a variable whose lifetime
-- has ended. `move_assign i j` is `i = std::move(j)`.
unfoldable pub perform : Operation → Frames → Option Frames
perform construct s =
    some (record s { slots = s.slots ++ live (some s.made) ∷ []; made = s.made + 1 })
perform (move_construct j) s =
    with_live s.slots j λ h. some (record s { slots = set s.slots j (live none) ++ live h ∷ [] })
perform (move_assign i j) s =
    let other : Option Frames = with_live s.slots i λ old. with_live s.slots j λ h. some (record s {
      slots = set (set s.slots i (live h)) j (live none);
      destroyed = destroy old s.destroyed;
    }) in
    if i == j then with_live s.slots i (λ h. some s) else other
perform (destruct i) s =
    with_live s.slots i
      λ h. some (record s { slots = set s.slots i ended; destroyed = destroy h s.destroyed })

-- The states that the operations reach from none.
pub data Reachable : Frames → Type 0 where
  begins : Reachable nothing
  performs : {s t : Frames} (o : Operation) → Reachable s → perform o s ≡ some t → Reachable t
