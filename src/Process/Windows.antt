-- ===== src/Process/Windows.antt =====
-- ExecuteCommandWindows, and ExecuteCommand on both systems.
pub mod Handles
use quick_cmake.Prelude.{
  ℕ, zero, suc, ◌+◌, ◌-◌, ◌%◌, Bool, true, false, Option, none, some, ℤ, pos, negsuc, List, [], ◌∷◌,
  ◌++◌, codes, ltb, if◌then◌else◌,
}
use quick_cmake.Outcome.{Outcome, value, blocked, out_of_fuel, ◌>>=◌}
use quick_cmake.Str.{Text}
use quick_cmake.Process.{
  ExecuteResult, Session, no_result, failed, with_error, until_nul, command_line,
}
use quick_cmake.Process.Posix.{Os, End, execute_posix}

-- The calls of the operating system that the code makes. read_file and wait are `none` where the
-- call never returns: ReadFile waits while a child neither writes nor closes its end of the pipe.
-- What read_file returns is `none` where ReadFile fails, and wait answers whether
-- WaitForSingleObject gives WAIT_TIMEOUT.
pub record Win (W : Type 0) : Type 0 where
  pub create_pipe : W → Option (ℕ × ℕ) × W
  pub close_handle : ℕ → W → W
  pub set_not_inherited : ℕ → W → W
  pub create_process : Text → Option Text → ℕ → ℕ → W → Option (ℕ × ℕ) × W
  pub read_file : ℕ → ℕ → W → Option (Option Text × W)
  pub wait : ℕ → ℕ → W → Option (Bool × W)
  pub terminate : ℕ → W → W
  pub exit_code : ℕ → W → ℕ
  pub get_last_error : W → ℕ
  pub decimal : ℕ → Text

-- static_cast<int> of a DWORD.
unfoldable pub to_int : ℕ → ℤ
to_int n = if ltb n 2147483648 then pos n else negsuc (4294967295 - n)

-- static_cast<DWORD> of an int.
unfoldable pub to_dword : ℤ → ℕ
to_dword (pos n) = n % 4294967296
to_dword (negsuc n) = 4294967295 - n

-- timeoutMs == -1 ? INFINITE : static_cast<DWORD>(timeoutMs)
unfoldable pub wait_time : ℤ → ℕ
wait_time (pos n) = to_dword (pos n)
wait_time (negsuc zero) = 4294967295
wait_time (negsuc (suc n)) = to_dword (negsuc (suc n))

unfoldable pub dir_argument : Text → Option Text
dir_argument [] = none
dir_argument (c ∷ dir) = some (until_nul (c ∷ dir))

module _ {W : Type 0} (win : Win W) where
  unfoldable pub close_handle : ℕ → Session W → Session W
  close_handle h s = record s { world = win.close_handle h s.world; closed = h ∷ s.closed }

  unfoldable pub set_not_inherited : ℕ → Session W → Session W
  set_not_inherited h s = record s { world = win.set_not_inherited h s.world }

  unfoldable pub error_code : Session W → Text
  error_code s = win.decimal (win.get_last_error s.world)

  -- The loop over one handle, which appends to `text`.
  unfoldable pub read_loop : ℕ → ℕ → Text → Session W → Outcome (Text × Session W)
  read_loop zero h text s = out_of_fuel
  read_loop (suc fuel) h text s = elim (win.read_file h 4095 s.world) [
    | none ↦ blocked
    | some (got, w) ↦
        let s1 = record s { world = w } in
        elim got [
          | none ↦ value (text, s1)
          | some [] ↦ value (text, s1)
          | some (b ∷ bytes) ↦ read_loop fuel h (text ++ until_nul (b ∷ bytes)) s1
        ]
  ]

  unfoldable pub close_all : ℕ × ℕ → ℕ → ℕ → Session W → Session W
  close_all (process, thread) out err s =
      close_handle err (close_handle out (close_handle thread (close_handle process s)))

  -- Behind the wait, which was `late` or not and left the system at `w`.
  unfoldable pub after_wait :
      ℕ → ℕ × ℕ → ℕ → ℕ → ExecuteResult → Session W → Bool → W → ExecuteResult × Session W
  after_wait timeout (process, thread) out err r s late w =
      let message =
        codes "Process execution timed out after " ++ win.decimal timeout ++ codes " ms." in
      if late
      then (
        record (with_error message r) { exit_code = negsuc 0 },
        close_all (process, thread) out err (record s { world = win.terminate process w }),
      )
      else (
        record r { exit_code = to_int (win.exit_code process w) },
        close_all (process, thread) out err (record s { world = w }),
      )

  unfoldable pub await :
      ℕ → ℕ × ℕ → ℕ → ℕ → ExecuteResult → Session W → Outcome (ExecuteResult × Session W)
  await timeout (process, thread) out err r s = elim (win.wait process timeout s.world) [
    | none ↦ blocked
    | some (late, w) ↦ value (after_wait timeout (process, thread) out err r s late w)
  ]

  unfoldable pub after_process :
      ℕ → ℕ → ℕ → ℕ → Option (ℕ × ℕ) → Session W → Outcome (ExecuteResult × Session W)
  after_process fuel timeout out err none s =
      let s1 = close_handle err (close_handle out s) in
      value (failed (codes "Failed to create process. Error code: " ++ error_code s1), s1)
  after_process fuel timeout out err (some (process, thread)) s = do
    (output, s1) ← read_loop fuel out [] s
    (error, s2) ← read_loop fuel err [] s1
    let r = record no_result { output = output; error = error; success = true }
    await timeout (process, thread) out err r s2

  unfoldable pub handles_of : Option (ℕ × ℕ) → List ℕ → List ℕ
  handles_of none hs = hs
  handles_of (some (process, thread)) hs = thread ∷ process ∷ hs

  unfoldable pub after_err_pipe :
      ℕ → Text → Text → ℕ → ℕ × ℕ → Option (ℕ × ℕ) → Session W → Outcome (ExecuteResult × Session W)
  after_err_pipe fuel command dir timeout (out, out_write) none s =
      let s1 = close_handle out_write (close_handle out s) in
      value (failed (codes "Failed to create stderr pipe. Error code: " ++ error_code s1), s1)
  after_err_pipe fuel command dir timeout (out, out_write) (some (err, err_write)) s =
      let s1 = set_not_inherited err (record s { opened = err_write ∷ err ∷ s.opened }) in
      let (made, w) =
        win.create_process (until_nul command) (dir_argument dir) out_write err_write s1.world in
      let s2 = record s1 { world = w; opened = handles_of made s1.opened } in
      after_process fuel timeout out err made (close_handle err_write (close_handle out_write s2))

  unfoldable pub after_out_pipe :
      ℕ → Text → Text → ℕ → Option (ℕ × ℕ) → Session W → Outcome (ExecuteResult × Session W)
  after_out_pipe fuel command dir timeout none s =
      value (failed (codes "Failed to create stdout pipe. Error code: " ++ error_code s), s)
  after_out_pipe fuel command dir timeout (some (out, out_write)) s =
      let s1 = set_not_inherited out (record s { opened = out_write ∷ out ∷ s.opened }) in
      let (second, w) = win.create_pipe s1.world in
      after_err_pipe fuel command dir timeout (out, out_write) second (record s1 { world = w })

  unfoldable pub execute_windows :
      ℕ → Text → Text → Text → ℕ → Session W → Outcome (ExecuteResult × Session W)
  execute_windows fuel executable options dir timeout s =
      let (first, w) = win.create_pipe s.world in
      after_out_pipe fuel (command_line executable options) dir timeout first
        (record s { world = w })

-- ExecuteCommand, as it is compiled on each system.
unfoldable pub execute_command_windows :
    {W : Type 0}
    → Win W
    → ℕ
    → Text
    → Text
    → Text
    → ℤ
    → Session W
    → Outcome (ExecuteResult × Session W)
execute_command_windows win fuel executable options dir timeout s =
    execute_windows win fuel executable options dir (wait_time timeout) s

unfoldable pub execute_command_posix :
    {W : Type 0} → Os W → ℕ → Text → Text → Text → ℤ → Session W → Outcome (End × Session W)
execute_command_posix os fuel executable options dir timeout s =
    execute_posix os fuel executable options dir timeout s
