-- ===== src/Generator/Visits.antt =====
-- The values that a range-for over a Generator visits.
use quick_cmake.Prelude.{
  ℕ, zero, suc, ◌≤◌, ◌≡◌, refl, none, List, [], ◌∷◌, ◌++◌, append_assoc, append-nil, length, arith,
}
use quick_cmake.Outcome.{Outcome, value, ◌>>=◌}
use quick_cmake.Generator.{
  Run, yields, returns, throws, suspended, done, Frame, Ending, finished, raised, make,
  suspend_behind, resume, tested, begin, increment, visit_from, range_for,
}

module _ {S T : Type 0} (body : S → Run S T) where
  -- From the suspension point the body yields the values and then ends.
  pub data Runs : S → List T → Ending → Type 0 where
    returning : {s : S} → body s ≡ returns → Runs s [] finished
    throwing : {s : S} {e : ℕ} → body s ≡ throws e → Runs s [] (raised e)
    yielding :
        {s r : S} {v : T} {vs : List T} {e : Ending}
        → body s ≡ yields v r
        → Runs r vs e
        → Runs s (v ∷ vs) e

  -- The loop has seen the values, and the coroutine is at its end.
  abbrev Visited : List T → Ending → Outcome (List T × Ending × Frame S T) → Type 0
  Visited vs e o = (g : Frame S T) × (o ≡ value (vs, e, g)) × (g.place ≡ done)

  abbrev step_from : ℕ → List T → Frame S T → Outcome (List T × Ending × Frame S T)
  step_from fuel seen f = increment body f >>= λ (it, g). visit_from body fuel seen it g

  visits_from :
      {s : S} {vs : List T} {e : Ending}
      → Runs s vs e
      → (fuel : ℕ) (seen : List T) (f : Frame S T) → length vs ≤ fuel
      → f.place ≡ suspended s
      → f.exception ≡ none
      → Visited (seen ++ vs) e (step_from fuel seen f)
  unfolding increment resume suspend_behind tested visit_from
  visits_from (returning b) fuel seen f h p x = rw (p, b, x, append-nil seen) (_, refl, refl)
  visits_from (throwing b) fuel seen f h p x = rw (p, b, append-nil seen) (_, refl, refl)
  visits_from (yielding b r) zero seen f h p x = absurd (omega arith)
  visits_from (yielding {r = next} {v = v} {vs = vs} b run) (suc fuel) seen f h p x =
      rw (p, b, x)
        (rw (append_assoc seen (v ∷ []) vs) at (
          visits_from run fuel (seen ++ v ∷ [])
            (record { place = suspended next; current_value = v; exception = none }) (omega arith)
            refl refl))

  -- A range-for over a new Generator, whose body yields the values and then returns or throws,
  -- visits exactly these values in their order, and then ends or rethrows; it never resumes the
  -- coroutine at its end.
  pub range_for_visits :
      (s : S) (vs : List T) (e : Ending) (blank : T)
      → Runs s vs e
      → (g : Frame S T) × (range_for body (length vs) (make body s blank) ≡ value (vs, e, g))
        × (g.place ≡ done)
  unfolding range_for begin increment make
  range_for_visits s vs e blank r =
      visits_from r (length vs) [] (make body s blank) (omega arith) refl refl
