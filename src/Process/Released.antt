-- ===== src/Process/Released.antt =====
-- What ExecuteCommandPosix leaves behind: its descriptors and its child.
use mathlib.Core.List.Perm
use quick_cmake.Prelude.{
  ℕ, suc, ◌+◌, ◌*◌, ◌≡◌, refl, ap, false, Option, none, some, pos, List, [], ◌∷◌, Perm, perm_middle,
  if◌then◌else◌, Bool-cases, inl, inr, arith,
}
use quick_cmake.Outcome.{Returns, gives, Returns-bind}
use quick_cmake.Str.{Text}
use quick_cmake.Process.{Session, no_result, failed, until_nul, command_line}
use quick_cmake.Process.Posix.{
  Forked, fork_failed, in_child, in_parent, Status, exited, signalled, other_status, Os, End,
  returned, shell_runs, exits, Reading, close_fd, deadline, is_minus_one, exit_code_of, finish,
  parent_code, close_pipes, run_shell, child_code, after_fork, after_stderr_pipe, after_stdout_pipe,
  execute_posix,
}
use quick_cmake.Process.Deadline.{Passes, books, poll_loop-Returns}

module _ {W : Type 0} where
  -- All descriptors that were opened are closed, each as often as it was opened; and a call that
  -- returns has waited for its child exactly if the exit code is not that of a timeout.
  abbrev pub Tidy : End × Session W → Type 0
  Tidy (returned r, s) =
      Perm s.closed s.opened × (s.reaped ≡ (if is_minus_one r.exit_code then [] else s.children))
  Tidy (shell_runs command, s) = Perm s.closed s.opened
  Tidy (exits code, s) = Unit

  -- Nothing has been done.
  abbrev pub fresh : W → Session W
  fresh w = record { world = w; opened = []; closed = []; children = []; reaped = [] }

-- The read ends closed behind the write ends, and the four as they were opened.
pub four-perm :
    (out out_write err err_write : ℕ)
    → Perm (err ∷ out ∷ err_write ∷ out_write ∷ []) (err_write ∷ err ∷ out_write ∷ out ∷ [])
four-perm out out_write err err_write =
    Perm.trans (perm_middle (err ∷ out ∷ []) (out_write ∷ []))
      (Perm.cons err_write (Perm.cons err (Perm.swap out_write out [])))

exit_code_of-not_minus_one : (st : Status) → is_minus_one (exit_code_of st) ≡ false
unfolding is_minus_one exit_code_of
exit_code_of-not_minus_one (exited n) = refl
exit_code_of-not_minus_one (signalled n) = refl
exit_code_of-not_minus_one other_status = refl

module _ {W : Type 0} (os : Os W) (n : ℕ) where
  run_shell-Tidy :
      (command : Text) (out out_write err err_write : ℕ) (w : W)
      → Tidy (
          run_shell os command
            (out, out_write)
            (err, err_write)
            (record {
              world = w;
              opened = err_write ∷ err ∷ out_write ∷ out ∷ [];
              closed = [];
              children = [];
              reaped = [];
            }))
  unfolding run_shell close_pipes close_fd
  run_shell-Tidy command out out_write err err_write w =
      elim (Bool-cases (os.execl (until_nul command) (closes w)).0) [
        | inl e ↦ rw e Perm.rfl
        | inr e ↦ rw e tt
      ]
    where
      closes : W → W
      closes v = os.close err_write (
          os.close err
            (os.close out_write (os.close out (os.dup2 err_write 2 (os.dup2 out_write 1 v)))))

  finish-Tidy :
      (pid out err : ℕ) (r : Reading W) (o c : List ℕ)
      → books r.session ≡ (o, c, pid ∷ [], [])
      → Perm (err ∷ out ∷ c) o
      → Tidy (finish os pid out err r)
  unfolding finish close_fd
  finish-Tidy pid out err r o c b p =
      let opened : r.session.opened ≡ o = ap (λ k. k.0) b in
      let closed : r.session.closed ≡ c = ap (λ k. k.1) b in
      let children : r.session.children ≡ pid ∷ [] = ap (λ k. k.2) b in
      let reaped : r.session.reaped ≡ [] = ap (λ k. k.3) b in
      let st = (os.waitpid pid (os.close err (os.close out r.session.world))).0 in
      elim (Bool-cases (is_minus_one r.result.exit_code)) [
        | inl e ↦ rw (e, e, opened, closed, reaped) (p, refl)
        | inr e ↦ rw (e, exit_code_of-not_minus_one st, opened, closed, children, reaped) (p, refl)
      ]

  module _ (passes : Passes os) where
    -- The first descriptors, and the state behind the two calls of pipe.
    parent_code-Tidy :
        (pid out out_write err err_write : ℕ) (w : W)
        → (fuel : ℕ) × Returns Tidy (
            parent_code os fuel
              (pos (suc n))
              pid
              (out, out_write)
              (err, err_write)
              (record {
                world = w;
                opened = err_write ∷ err ∷ out_write ∷ out ∷ [];
                closed = [];
                children = pid ∷ [];
                reaped = [];
              }))
    unfolding parent_code close_fd deadline
    parent_code-Tidy pid out out_write err err_write w =
        let v =
          os.set_nonblocking err
            (os.set_nonblocking out (os.close err_write (os.close out_write w))) in
        let enough = passes.when (os.time v * 1000 + suc n) + 1 in
        (
          enough,
          Returns-bind (poll_loop-Returns os passes enough _ pid out err _ (omega arith)) λ r b.
              gives (finish-Tidy pid out err r _ _ b (four-perm out out_write err err_write)),
        )

    child_code-Tidy :
        (command dir : Text) (out out_write err err_write : ℕ) (w : W)
        → Tidy (
            child_code os command dir
              (out, out_write)
              (err, err_write)
              (record {
                world = w;
                opened = err_write ∷ err ∷ out_write ∷ out ∷ [];
                closed = [];
                children = [];
                reaped = [];
              }))
    unfolding child_code
    child_code-Tidy command [] out out_write err err_write w =
        run_shell-Tidy command out out_write err err_write w
    child_code-Tidy command (c ∷ dir) out out_write err err_write w =
        elim (Bool-cases (os.chdir (until_nul (c ∷ dir)) w).0) [
          | inl e ↦ rw e (
              run_shell-Tidy command out out_write err err_write
                (os.chdir (until_nul (c ∷ dir)) w).1)
          | inr e ↦ rw e tt
        ]

    after_fork-Tidy :
        (command dir : Text) (out out_write err err_write : ℕ) (forked : Forked) (w : W)
        → (fuel : ℕ) × Returns Tidy (
            after_fork os fuel command dir
              (pos (suc n))
              (out, out_write)
              (err, err_write)
              forked
              (record {
                world = w;
                opened = err_write ∷ err ∷ out_write ∷ out ∷ [];
                closed = [];
                children = [];
                reaped = [];
              }))
    unfolding after_fork close_pipes close_fd failed no_result is_minus_one
    after_fork-Tidy command dir out out_write err err_write fork_failed w =
        (0, gives (Perm.rfl, refl))
    after_fork-Tidy command dir out out_write err err_write in_child w =
        (0, gives (child_code-Tidy command dir out out_write err err_write w))
    after_fork-Tidy command dir out out_write err err_write (in_parent pid) w =
        parent_code-Tidy pid out out_write err err_write w

    after_stderr_pipe-Tidy :
        (command dir : Text) (out out_write : ℕ) (second : Option (ℕ × ℕ)) (w : W)
        → (fuel : ℕ) × Returns Tidy (
            after_stderr_pipe os fuel command dir
              (pos (suc n))
              (out, out_write)
              second
              (record {
                world = w;
                opened = out_write ∷ out ∷ [];
                closed = [];
                children = [];
                reaped = [];
              }))
    unfolding after_stderr_pipe close_fd failed no_result is_minus_one
    after_stderr_pipe-Tidy command dir out out_write none w = (0, gives (Perm.rfl, refl))
    after_stderr_pipe-Tidy command dir out out_write (some (err, err_write)) w =
        after_fork-Tidy command dir out out_write err err_write (os.fork w).0 (os.fork w).1

    after_stdout_pipe-Tidy :
        (command dir : Text) (first : Option (ℕ × ℕ)) (w : W)
        → (fuel : ℕ) × Returns Tidy
            (after_stdout_pipe os fuel command dir (pos (suc n)) first (fresh w))
    unfolding after_stdout_pipe failed no_result is_minus_one
    after_stdout_pipe-Tidy command dir none w = (0, gives (Perm.rfl, refl))
    after_stdout_pipe-Tidy command dir (some (out, out_write)) w =
        after_stderr_pipe-Tidy command dir out out_write (os.pipe w).0 (os.pipe w).1

    -- With a timeout, on a system whose clock goes on, the loop of ExecuteCommandPosix ends, and
    -- on every path that returns or runs the shell each descriptor of the pipes has been closed as
    -- often as it was opened; a call that returns has waited for its child unless it timed out,
    -- and then it has not.
    pub execute_posix-Tidy :
        (executable options dir : Text) (w : W)
        → (fuel : ℕ) × Returns Tidy
            (execute_posix os fuel executable options dir (pos (suc n)) (fresh w))
    unfolding execute_posix
    execute_posix-Tidy executable options dir w =
        after_stdout_pipe-Tidy (command_line executable options) dir (os.pipe w).0 (os.pipe w).1
