-- ===== src/Generator.antt =====
-- include/skutils/coroutine/generator.h: the promise, the iterator and the range-for over a
-- Generator. The body of the coroutine is a parameter: what it does from one suspension to the
-- next.
pub mod Visits
mod Tests
use quick_cmake.Prelude.{ℕ, zero, suc, Bool, true, false, Option, none, some, List, [], ◌∷◌, ◌++◌}
use quick_cmake.Outcome.{Outcome, value, undefined, out_of_fuel, ◌>>=◌}

-- From a suspension point the body yields a value and suspends, returns, or throws.
pub data Run (S T : Type 0) : Type 0 where
  yields : T → S → Run S T
  returns : Run S T
  throws : ℕ → Run S T

-- Where the coroutine is suspended: at the start or a co_yield, or at final_suspend.
pub data Place (S : Type 0) : Type 0 where
  suspended : S → Place S
  done : Place S

-- The coroutine's frame with its promise_type.
pub record Frame (S T : Type 0) : Type 0 where
  pub place : Place S
  pub current_value : T
  pub exception : Option ℕ

-- What begin and ++ do: they rethrow, return the end iterator, or one at a value.
pub data Iterator : Type 0 where
  rethrows : ℕ → Iterator
  end : Iterator
  at_value : Iterator

-- How a range-for ends.
pub data Ending : Type 0 where
  finished : Ending
  raised : ℕ → Ending

module _ {S T : Type 0} (body : S → Run S T) where
  -- get_return_object and initial_suspend
  unfoldable pub make : S → T → Frame S T
  make s blank = record { place = suspended s; current_value = blank; exception = none }

  -- yield_value, return_void and unhandled_exception, and the suspension behind each.
  unfoldable pub suspend_behind : Run S T → Frame S T → Frame S T
  suspend_behind (yields v s) f = record f { place = suspended s; current_value = v }
  suspend_behind returns f = record f { place = done }
  suspend_behind (throws e) f = record f { place = done; exception = some e }

  -- A resume at final_suspend is undefined.
  unfoldable pub resume : Frame S T → Outcome (Frame S T)
  resume f = elim f.place [ suspended s ↦ value (suspend_behind (body s) f) | done ↦ undefined ]

  unfoldable pub tested : Frame S T → Iterator
  tested f = elim f.exception [
    | some e ↦ rethrows e
    | none ↦ elim f.place [ done ↦ end | suspended s ↦ at_value ]
  ]

  -- begin, for a Generator that has a handle.
  unfoldable pub begin : Frame S T → Outcome (Iterator × Frame S T)
  begin f = resume f >>= λ g. value (tested g, g)

  -- Iterator::operator++
  unfoldable pub increment : Frame S T → Outcome (Iterator × Frame S T)
  increment f = resume f >>= λ g. value (tested g, g)

  -- The loop of a range-for from an iterator on, with the values visited so far.
  unfoldable pub visit_from :
      ℕ → List T → Iterator → Frame S T → Outcome (List T × Ending × Frame S T)
  visit_from fuel seen (rethrows e) f = value (seen, raised e, f)
  visit_from fuel seen end f = value (seen, finished, f)
  visit_from zero seen at_value f = out_of_fuel
  visit_from (suc fuel) seen at_value f =
      increment f >>= λ (it, g). visit_from fuel (seen ++ f.current_value ∷ []) it g

  unfoldable pub range_for : ℕ → Frame S T → Outcome (List T × Ending × Frame S T)
  range_for fuel f = begin f >>= λ (it, g). visit_from fuel [] it g
