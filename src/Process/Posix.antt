-- ===== src/Process/Posix.antt =====
-- ExecuteCommandPosix.
use quick_cmake.Prelude.{
  ℕ, zero, suc, ◌+◌, ◌-◌, ◌*◌, Bool, true, false, not, ◌&&◌, ◌||◌, Option, none, some, ℤ, pos,
  negsuc, [], ◌∷◌, ◌++◌, codes, ltb, leb, if◌then◌else◌,
}
use quick_cmake.Outcome.{Outcome, value, out_of_fuel, ◌>>=◌}
use quick_cmake.Str.{Text}
use quick_cmake.Process.{
  ExecuteResult, Session, no_result, failed, with_error, until_nul, command_line,
}

pub data Forked : Type 0 where
  fork_failed : Forked
  in_child : Forked
  in_parent : ℕ → Forked

-- revents of one descriptor: POLLIN, and POLLHUP or POLLERR.
pub record Revents : Type 0 where
  pub pollin : Bool
  pub hung_up : Bool

pub data Polled : Type 0 where
  interrupted : Polled
  poll_failed : Polled
  polled : Revents → Revents → Polled

-- What read does: it gives bytes, none at the end of the file, or fails, with EAGAIN or otherwise.
pub data Received : Type 0 where
  received : Text → Received
  again : Received
  read_failed : Received

pub data Status : Type 0 where
  exited : ℕ → Status
  signalled : ℕ → Status
  other_status : Status

-- The calls of the operating system that the code makes.
pub record Os (W : Type 0) : Type 0 where
  pub pipe : W → Option (ℕ × ℕ) × W
  pub close : ℕ → W → W
  pub fork : W → Forked × W
  pub chdir : Text → W → Bool × W
  pub dup2 : ℕ → ℕ → W → W
  pub execl : Text → W → Bool × W
  pub set_nonblocking : ℕ → W → W
  pub time : W → ℕ
  pub poll : ℕ → ℕ → ℕ → W → Polled × W
  pub read : ℕ → ℕ → W → Received × W
  pub kill : ℕ → W → W
  pub waitpid : ℕ → W → Status × W
  pub strerror : W → Text
  pub decimal : ℕ → Text

-- How the call ends: it returns, or, in the child, the shell runs or the process exits.
pub data End : Type 0 where
  returned : ExecuteResult → End
  shell_runs : Text → End
  exits : ℕ → End

-- The variables of the loop.
pub record Reading (W : Type 0) : Type 0 where
  pub result : ExecuteResult
  pub stdout_closed : Bool
  pub stderr_closed : Bool
  pub session : Session W

-- One round of the loop ends with another one or with a break.
pub data Round (W : Type 0) : Type 0 where
  next : Reading W → Round W
  leave : Reading W → Round W

-- timeoutMs, if it is greater than 0, with endTime.
pub record Deadline : Type 0 where
  pub timeout : ℕ
  pub end_time : ℕ

unfoldable pub exit_code_of : Status → ℤ
exit_code_of (exited n) = pos n
exit_code_of (signalled n) = pos (128 + n)
exit_code_of other_status = pos 1

unfoldable pub is_minus_one : ℤ → Bool
is_minus_one (negsuc zero) = true
is_minus_one (negsuc (suc n)) = false
is_minus_one (pos n) = false

module _ {W : Type 0} (os : Os W) where
  unfoldable pub close_fd : ℕ → Session W → Session W
  close_fd fd s = record s { world = os.close fd s.world; closed = fd ∷ s.closed }

  unfoldable pub deadline : ℤ → W → Option Deadline
  deadline (pos zero) w = none
  deadline (pos (suc n)) w = some (record { timeout = suc n; end_time = os.time w * 1000 + suc n })
  deadline (negsuc n) w = none

  unfoldable pub expired : Option Deadline → W → Bool
  expired none w = false
  expired (some d) w = leb d.end_time (os.time w * 1000)

  -- The third argument of poll.
  unfoldable pub poll_time : Option Deadline → W → ℕ
  poll_time none w = 100
  poll_time (some d) w =
      let remaining = d.end_time - os.time w * 1000 in if ltb 0 remaining then remaining else 100

  unfoldable pub timeout_text : Option Deadline → Text
  timeout_text none = []
  timeout_text (some d) =
      codes "Process execution timed out after " ++ os.decimal d.timeout ++ codes " ms."

  unfoldable pub time_out : Option Deadline → ℕ → Reading W → Reading W
  time_out d pid r =
      let s = r.session in
      record r {
        result = record (with_error (timeout_text d) r.result) { exit_code = negsuc 0 };
        session = record s { world = os.kill pid (os.kill pid s.world) };
      }

  -- What one read appends to a stream's text, and whether the stream is closed behind it.
  unfoldable pub accept : Received → Text → Text × Bool
  accept (received []) t = (t, true)
  accept (received (b ∷ bytes)) t = (t ++ until_nul (b ∷ bytes), false)
  accept again t = (t, false)
  accept read_failed t = (t, true)

  unfoldable pub read_stdout : Revents → ℕ → Reading W → Reading W
  read_stdout ev fd r =
      let s = r.session in
      let (got, w) = os.read fd 4095 s.world in
      let (text, shut) = accept got r.result.output in
      let read_on = record r {
        result = record r.result { output = text };
        stdout_closed = shut;
        session = record s { world = w };
      } in
      if not r.stdout_closed && ev.pollin then read_on else r

  unfoldable pub read_stderr : Revents → ℕ → Reading W → Reading W
  read_stderr ev fd r =
      let s = r.session in
      let (got, w) = os.read fd 4095 s.world in
      let (text, shut) = accept got r.result.error in
      let read_on = record r {
        result = record r.result { error = text };
        stderr_closed = shut;
        session = record s { world = w };
      } in
      if not r.stderr_closed && ev.pollin then read_on else r

  unfoldable pub check_hang_up : Revents → Revents → Reading W → Reading W
  check_hang_up a b r = record r {
    stdout_closed = (a.hung_up && not a.pollin) || r.stdout_closed;
    stderr_closed = (b.hung_up && not b.pollin) || r.stderr_closed;
  }

  unfoldable pub after_poll : ℕ → ℕ → Polled → Reading W → Round W
  after_poll out err interrupted r = next r
  after_poll out err poll_failed r = leave r
  after_poll out err (polled a b) r =
      next (check_hang_up a b (read_stderr b err (read_stdout a out r)))

  unfoldable pub round : Option Deadline → ℕ → ℕ → ℕ → Reading W → Round W
  round d pid out err r =
      let s = r.session in
      let (p, w) = os.poll out err (poll_time d s.world) s.world in
      if expired d s.world
      then leave (time_out d pid r)
      else after_poll out err p (record r { session = record s { world = w } })

  unfoldable pub poll_loop : ℕ → Option Deadline → ℕ → ℕ → ℕ → Reading W → Outcome (Reading W)
  poll_loop zero d pid out err r = out_of_fuel
  poll_loop (suc fuel) d pid out err r =
      if r.stdout_closed && r.stderr_closed then value r else elim (round d pid out err r) [
        | next later ↦ poll_loop fuel d pid out err later
        | leave later ↦ value later
      ]

  -- The end of the parent: both read ends are closed, and the child is waited for.
  unfoldable pub finish : ℕ → ℕ → ℕ → Reading W → End × Session W
  finish pid out err r =
      let s = close_fd err (close_fd out r.session) in
      let (status, w) = os.waitpid pid s.world in
      let waited = record s { world = w; reaped = pid ∷ s.reaped } in
      if is_minus_one r.result.exit_code
      then (returned r.result, s)
      else (returned (record r.result { exit_code = exit_code_of status }), waited)

  unfoldable pub parent_code : ℕ → ℤ → ℕ → ℕ × ℕ → ℕ × ℕ → Session W → Outcome (End × Session W)
  parent_code fuel timeout pid (out, out_write) (err, err_write) s =
      let s1 = close_fd err_write (close_fd out_write s) in
      let w = os.set_nonblocking err (os.set_nonblocking out s1.world) in
      let start : Reading W = record {
        result = record no_result { success = true };
        stdout_closed = false;
        stderr_closed = false;
        session = record s1 { world = w };
      } in
      poll_loop fuel (deadline timeout w) pid out err start >>= λ r. value (finish pid out err r)

  unfoldable pub close_pipes : ℕ × ℕ → ℕ × ℕ → Session W → Session W
  close_pipes (out, out_write) (err, err_write) s =
      close_fd err_write (close_fd err (close_fd out_write (close_fd out s)))

  unfoldable pub run_shell : Text → ℕ × ℕ → ℕ × ℕ → Session W → End × Session W
  run_shell command (out, out_write) (err, err_write) s =
      let w = os.dup2 err_write 2 (os.dup2 out_write 1 s.world) in
      let s1 = close_pipes (out, out_write) (err, err_write) (record s { world = w }) in
      let (replaced, w1) = os.execl (until_nul command) s1.world in
      (if replaced then shell_runs (until_nul command) else exits 1, record s1 { world = w1 })

  unfoldable pub child_code : Text → Text → ℕ × ℕ → ℕ × ℕ → Session W → End × Session W
  child_code command [] p q s = run_shell command p q s
  child_code command (c ∷ dir) p q s =
      let (moved, w) = os.chdir (until_nul (c ∷ dir)) s.world in
      let s1 = record s { world = w } in if moved then run_shell command p q s1 else (exits 1, s1)

  unfoldable pub after_fork :
      ℕ → Text → Text → ℤ → ℕ × ℕ → ℕ × ℕ → Forked → Session W → Outcome (End × Session W)
  after_fork fuel command dir timeout p q fork_failed s =
      let s1 = close_pipes p q s in
      value (returned (failed (codes "Failed to fork process: " ++ os.strerror s1.world)), s1)
  after_fork fuel command dir timeout p q in_child s = value (child_code command dir p q s)
  after_fork fuel command dir timeout p q (in_parent pid) s =
      parent_code fuel timeout pid p q (record s { children = pid ∷ s.children })

  unfoldable pub after_stderr_pipe :
      ℕ → Text → Text → ℤ → ℕ × ℕ → Option (ℕ × ℕ) → Session W → Outcome (End × Session W)
  after_stderr_pipe fuel command dir timeout (out, out_write) none s =
      let s1 = close_fd out_write (close_fd out s) in
      value (returned (failed (codes "Failed to create stderr pipe: " ++ os.strerror s1.world)), s1)
  after_stderr_pipe fuel command dir timeout p (some (err, err_write)) s =
      let (forked, w) = os.fork s.world in
      let s1 = record s { world = w; opened = err_write ∷ err ∷ s.opened } in
      after_fork fuel command dir timeout p (err, err_write) forked s1

  unfoldable pub after_stdout_pipe :
      ℕ → Text → Text → ℤ → Option (ℕ × ℕ) → Session W → Outcome (End × Session W)
  after_stdout_pipe fuel command dir timeout none s =
      value (returned (failed (codes "Failed to create stdout pipe: " ++ os.strerror s.world)), s)
  after_stdout_pipe fuel command dir timeout (some (out, out_write)) s =
      let (second, w) = os.pipe s.world in
      let s1 = record s { world = w; opened = out_write ∷ out ∷ s.opened } in
      after_stderr_pipe fuel command dir timeout (out, out_write) second s1

  unfoldable pub execute_posix : ℕ → Text → Text → Text → ℤ → Session W → Outcome (End × Session W)
  execute_posix fuel executable options dir timeout s =
      let (first, w) = os.pipe s.world in
      after_stdout_pipe fuel (command_line executable options) dir timeout first
        (record s { world = w })
