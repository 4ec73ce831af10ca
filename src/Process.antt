-- ===== src/Process.antt =====
-- include/skutils/process_executor.h, with the operating system as a parameter: Process/Posix and
-- Process/Windows model the two implementations, and this module what they share.
pub mod Posix
pub mod Windows
pub mod Released
pub mod Deadline
mod Tests
use quick_cmake.Prelude.{ℕ, zero, suc, Bool, true, false, ℤ, pos, negsuc, List, [], ◌∷◌, ◌++◌}
use quick_cmake.Str.{Text}

pub record ExecuteResult : Type 0 where
  pub exit_code : ℤ
  pub output : Text
  pub error : Text
  pub success : Bool

-- The state of the operating system, and what the calling process has done so far: the descriptors
-- or handles that it got and those that it closed, the children that it made and those that it
-- waited for.
pub record Session (W : Type 0) : Type 0 where
  pub world : W
  pub opened : List ℕ
  pub closed : List ℕ
  pub children : List ℕ
  pub reaped : List ℕ

unfoldable pub no_result : ExecuteResult
no_result = record { exit_code = pos 0; output = []; error = []; success = false }

unfoldable pub failed : Text → ExecuteResult
unfolding no_result
failed message = record no_result { error = message }

unfoldable pub with_error : Text → ExecuteResult → ExecuteResult
with_error message r = record r { error = r.error ++ message }

-- What `+=` of the buffer, which ends in a zero byte, appends: the bytes read up to the first zero.
unfoldable pub until_nul : Text → Text
until_nul [] = []
until_nul (zero ∷ bytes) = []
until_nul (suc b ∷ bytes) = suc b ∷ until_nul bytes

unfoldable pub command_line : Text → Text → Text
command_line executable options = executable ++ 32 ∷ options
