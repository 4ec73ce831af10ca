-- ===== src/Process/Tests.antt =====
-- Runs of ExecuteCommand on two small systems, and the examples of its theorems.
use quick_cmake.Prelude.{
  ℕ, ◌+◌, ◌-◌, ◌≡◌, refl, true, false, none, some, pos, negsuc, [], ◌∷◌, codes, ltb, if◌then◌else◌,
  arith,
}
use quick_cmake.Outcome.{blocked, value, ◌>>=◌, Returns}
use quick_cmake.Process.{no_result, with_error, until_nul}
use quick_cmake.Process.Posix.{
  in_parent, polled, received, exited, Os, returned, exit_code_of, is_minus_one, close_fd, deadline,
  expired, poll_time, timeout_text, time_out, accept, read_stdout, read_stderr, check_hang_up,
  after_poll, round, poll_loop, finish, parent_code, after_fork, after_stderr_pipe,
  after_stdout_pipe, execute_posix,
}
use quick_cmake.Process.Windows.{
  Win, close_handle, to_int, read_loop, after_wait, await, after_process, after_err_pipe,
  after_out_pipe, execute_windows, execute_command_windows, execute_command_posix,
}
use quick_cmake.Process.Deadline.{Passes}
use quick_cmake.Process.Released.{Tidy, fresh, execute_posix-Tidy}
use quick_cmake.Process.Windows.Handles.{Finite, AllClosed, execute_windows-AllClosed}

-- A system whose state is its clock in seconds; a child writes "hi" to stdout, until the clock
-- stands at `ends`, and then hangs up.
abbrev posix : ℕ → Os ℕ
posix ends = record {
  pipe = λ w. (some (w + 3, w + 4), w + 2);
  close = λ fd w. w;
  fork = λ w. (in_parent 7, w);
  chdir = λ dir w. (true, w);
  dup2 = λ a b w. w;
  execl = λ command w. (true, w);
  set_nonblocking = λ fd w. w;
  time = λ w. w;
  poll = λ a b t w. (
    if ltb w ends
        then polled (record { pollin = true; hung_up = false })
            (record { pollin = false; hung_up = false })
        else polled (record { pollin = false; hung_up = true })
            (record { pollin = false; hung_up = true }),
    w + 1,
  );
  read = λ fd n w. (received (104 ∷ 105 ∷ []), w);
  kill = λ pid w. w;
  waitpid = λ pid w. (exited 0, w);
  strerror = λ w. codes "error";
  decimal = λ n. (48 + n) ∷ [];
}

-- Both reads of "hi" are in the output, and the exit code is the child's.
two_rounds :
    (execute_command_posix (posix 6) 5 (codes "ls") [] [] (negsuc 0) (fresh 0) >>= λ r. value r.0)
    ≡ value
        (returned (record { exit_code = pos 0; output = codes "hihi"; error = []; success = true }))
unfolding execute_command_posix execute_posix after_stdout_pipe after_stderr_pipe after_fork
    parent_code close_fd deadline poll_loop round expired poll_time after_poll read_stdout
    read_stderr accept check_hang_up until_nul finish exit_code_of is_minus_one no_result
two_rounds = refl

-- Behind a timeout the child has not been waited for.
timed_out :
    (execute_command_posix (posix 9) 5 (codes "ls") [] [] (pos 5) (fresh 0) >>= λ r.
    value r.1.reaped)
    ≡ value []
unfolding execute_command_posix execute_posix after_stdout_pipe after_stderr_pipe after_fork
    parent_code close_fd deadline poll_loop round expired poll_time after_poll read_stdout
    read_stderr accept check_hang_up until_nul finish time_out timeout_text with_error exit_code_of
    is_minus_one no_result
timed_out = refl

-- Bytes behind a zero byte are lost.
cut_at_zero : until_nul (104 ∷ 0 ∷ 105 ∷ []) ≡ 104 ∷ []
unfolding until_nul
cut_at_zero = refl

-- A Windows system whose state is the number of bytes that the child still writes.
abbrev windows : Win ℕ
windows = record {
  create_pipe = λ w. (some (3, 4), w);
  close_handle = λ h w. w;
  set_not_inherited = λ h w. w;
  create_process = λ command dir a b w. (some (8, 9), 2);
  read_file = λ h n w. some (if ltb 0 w then (some (104 ∷ []), w - 1) else (none, w));
  wait = λ h t w. some (false, w);
  terminate = λ h w. w;
  exit_code = λ h w. 4294967295;
  get_last_error = λ w. 5;
  decimal = λ n. (48 + n) ∷ [];
}

windows_run :
    (execute_command_windows windows 5 (codes "ls") [] [] (negsuc 0) (fresh 0) >>= λ r. value r.0)
    ≡ value (record { exit_code = negsuc 0; output = codes "hh"; error = []; success = true })
unfolding close_handle execute_command_windows execute_windows after_out_pipe after_err_pipe
    after_process read_loop await after_wait until_nul to_int no_result
windows_run = refl

-- A child that fills the pipe of stderr before it closes stdout: the read of stdout never returns,
-- whatever the timeout.
windows_stuck :
    execute_command_windows
      (record windows { read_file = λ h n w. none })
      5
      (codes "ls")
      []
      []
      (pos 5)
      (fresh 0)
    ≡ blocked
unfolding close_handle execute_command_windows execute_windows after_out_pipe after_err_pipe
    after_process read_loop
windows_stuck = refl

posix-Passes : Passes (posix 6)
posix-Passes = record {
  tick = λ w. w;
  poll_takes = λ out err t w. omega arith;
  read_takes = λ fd n w. omega arith;
  when = λ t. t;
  arrives = λ t w h. omega arith;
}

windows-Finite : Finite windows
windows-Finite = record {
  unread = λ w. w;
  reads = λ h n w. (_, refl);
  read_less = λ h n b bytes w v e. ground arith;
  read_none = λ h n got w v e. ground arith;
  waits = λ h t w. (_, refl);
}

execute_posix-Tidy_example :
    (fuel : ℕ) × Returns Tidy (execute_posix (posix 6) fuel (codes "ls") [] [] (pos 5) (fresh 0))
execute_posix-Tidy_example = execute_posix-Tidy (posix 6) 4 posix-Passes (codes "ls") [] [] 0

execute_windows-AllClosed_example :
    (fuel : ℕ) × Returns AllClosed
      (execute_command_windows windows fuel (codes "ls") [] [] (pos 5) (fresh 0))
execute_windows-AllClosed_example =
    execute_windows-AllClosed windows windows-Finite (codes "ls") [] [] (pos 5) 0
