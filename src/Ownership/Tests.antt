-- ===== src/Ownership/Tests.antt =====
-- A Task that is moved and moved over, and the example of the theorem.
use quick_cmake.Prelude.{refl, [], ◌∷◌, ◌++◌, Perm}
use quick_cmake.Ownership.{
  ended, Frames, nothing, destroy, construct, move_assign, destruct, with_live, perform, Reachable,
  begins, performs,
}
use quick_cmake.Ownership.Once.{held, upto, held_or_destroyed}

-- Two frames; the second is moved over the first, and both variables end.
abbrev after_move : Frames
after_move = record { slots = ended ∷ ended ∷ []; made = 2; destroyed = 1 ∷ 0 ∷ [] }

after_move-Reachable : Reachable after_move
unfolding perform with_live nothing destroy
after_move-Reachable =
    performs (destruct 0)
      (performs (destruct 1)
        (performs (move_assign 0 1) (performs construct (performs construct begins refl) refl) refl)
        refl)
      refl

held_or_destroyed_example :
    Perm (held after_move.slots ++ after_move.destroyed) (upto after_move.made)
held_or_destroyed_example = held_or_destroyed after_move after_move-Reachable
