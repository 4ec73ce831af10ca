-- ===== src/Process/Windows/Handles.antt =====
-- The handles of ExecuteCommandWindows.
use mathlib.Core.List.{perm_middle}
use mathlib.Core.List.Perm
use quick_cmake.Prelude.{
  ℕ, zero, suc, ◌+◌, ◌≤◌, ◌<◌, ◌≡◌, refl, ap, ◌∙◌, Bool, Option, none, some, ℤ, [], ◌∷◌, ◌++◌, Perm,
  Bool-cases, inl, inr, arith,
}
use quick_cmake.Outcome.{value, Returns, gives, Returns-bind, Returns-map}
use quick_cmake.Str.{Text}
use quick_cmake.Process.{ExecuteResult, Session, until_nul, command_line}
use quick_cmake.Process.Windows.{
  Win, close_handle, set_not_inherited, read_loop, close_all, after_wait, await, after_process,
  handles_of, after_err_pipe, after_out_pipe, execute_windows, execute_command_windows, wait_time,
  dir_argument,
}
use quick_cmake.Process.Deadline.{books}
use quick_cmake.Process.Released.{fresh, four-perm}

-- Every ReadFile and every WaitForSingleObject returns, and the children write some number of
-- bytes: each read that gives bytes leaves fewer to be read, and no other read leaves more.
pub record Finite {W : Type 0} (win : Win W) : Type 0 where
  pub unread : W → ℕ
  pub reads : (h n : ℕ) (w : W) → (got : Option Text × W) × (win.read_file h n w ≡ some got)
  pub read_less :
      (h n b : ℕ) (bytes : Text) (w v : W)
      → win.read_file h n w ≡ some (some (b ∷ bytes), v)
      → unread v < unread w
  pub read_none :
      (h n : ℕ) (got : Option Text) (w v : W)
      → win.read_file h n w ≡ some (got, v)
      → unread v ≤ unread w
  pub waits : (h t : ℕ) (w : W) → (late : Bool × W) × (win.wait h t w ≡ some late)

-- Every handle is closed as often as it was got.
abbrev pub AllClosed : {W : Type 0} → ExecuteResult × Session W → Type 0
AllClosed (r, s) = Perm s.closed s.opened

module _ {W : Type 0} (win : Win W) (finite : Finite win) where
  -- The handles that were got and closed stay the same, and no more is left to be read.
  abbrev Same : Session W → Text × Session W → Type 0
  Same s (text, t) = (books t ≡ books s) × (finite.unread t.world ≤ finite.unread s.world)

  read_loop-Same :
      (fuel h : ℕ) (text : Text) (s : Session W)
      → finite.unread s.world < fuel
      → Returns (Same s) (read_loop win fuel h text s)
  unfolding read_loop
  read_loop-Same zero h text s f = absurd (omega arith)
  read_loop-Same (suc fuel) h text s f =
      let ((got, w), e) = finite.reads h 4095 s.world in
      rw (read_loop, e) (goes got w e (read_loop-Same fuel h))
    where
      goes :
          (got : Option Text) (w : W)
          → win.read_file h 4095 s.world ≡ some (got, w)
          → ((text' : Text) (t : Session W)
              → finite.unread t.world < fuel
              → Returns (Same t) (read_loop win fuel h text' t))
          → Returns (Same s) (elim got [
            | none ↦ value (text, record s { world = w })
            | some [] ↦ value (text, record s { world = w })
            | some (b ∷ bytes) ↦
                read_loop win fuel h (text ++ until_nul (b ∷ bytes)) (record s { world = w })
          ])
      goes none w e ih = gives (refl, finite.read_none h 4095 none s.world w e)
      goes (some []) w e ih = gives (refl, finite.read_none h 4095 (some []) s.world w e)
      goes (some (b ∷ bytes)) w e ih =
          let less = finite.read_less h 4095 b bytes s.world w e in
          Returns-map (ih (text ++ until_nul (b ∷ bytes)) (record s { world = w }) (omega arith))
            λ (_, t) (same, k). (same, omega arith)

  six-perm :
      (out out_write err err_write process thread : ℕ)
      → Perm
          (err ∷ out ∷ thread ∷ process ∷ err_write ∷ out_write ∷ [])
          (thread ∷ process ∷ err_write ∷ err ∷ out_write ∷ out ∷ [])
  six-perm out out_write err err_write process thread =
      let four = four-perm out out_write err err_write in
      let third =
        Perm.trans (perm_middle (err ∷ out ∷ []) (err_write ∷ out_write ∷ []))
          (Perm.cons process four) in
      Perm.trans (perm_middle (err ∷ out ∷ []) (process ∷ err_write ∷ out_write ∷ []))
        (Perm.cons thread third)

  await-AllClosed :
      (timeout out out_write err err_write process thread : ℕ) (r : ExecuteResult) (s : Session W)
      → books s ≡ (
        thread ∷ process ∷ err_write ∷ err ∷ out_write ∷ out ∷ [],
        err_write ∷ out_write ∷ [],
        [],
        [],
      )
      → Returns AllClosed (await win timeout (process, thread) out err r s)
  unfolding await after_wait close_all close_handle
  await-AllClosed timeout out out_write err err_write process thread r s b =
      let opened : s.opened ≡ thread ∷ process ∷ err_write ∷ err ∷ out_write ∷ out ∷ [] =
        ap (λ k. k.0) b in
      let closed : s.closed ≡ err_write ∷ out_write ∷ [] = ap (λ k. k.1) b in
      let ((late, w), e) = finite.waits process timeout s.world in
      rw (await, e)
        (gives (elim (Bool-cases late) [
          | inl l ↦ rw (l, opened, closed) (six-perm out out_write err err_write process thread)
          | inr l ↦ rw (l, opened, closed) (six-perm out out_write err err_write process thread)
        ]))

  after_process-AllClosed :
      (fuel timeout out out_write err err_write : ℕ) (made : Option (ℕ × ℕ)) (w : W)
      → finite.unread w < fuel
      → Returns AllClosed (
          after_process win fuel timeout out err made (record {
            world = w;
            opened = handles_of win made (err_write ∷ err ∷ out_write ∷ out ∷ []);
            closed = err_write ∷ out_write ∷ [];
            children = [];
            reaped = [];
          }))
  unfolding after_process close_handle handles_of close_all
  after_process-AllClosed fuel timeout out out_write err err_write none w f =
      gives (four-perm out out_write err err_write)
  after_process-AllClosed fuel timeout out out_write err err_write (some (process, thread)) w f =
      Returns-bind (read_loop-Same fuel out [] _ f) λ (text, s1) (same1, k1).
        Returns-bind (read_loop-Same fuel err [] s1 (omega arith)) λ (text2, s2) (same2, k2).
          await-AllClosed timeout out out_write err err_write process thread _ s2 (same2 ∙ same1)

  after_err_pipe-AllClosed :
      (command dir : Text) (timeout out out_write : ℕ) (second : Option (ℕ × ℕ)) (w : W)
      → (fuel : ℕ) × Returns AllClosed (
          after_err_pipe win fuel command dir timeout
            (out, out_write)
            second
            (record {
              world = w;
              opened = out_write ∷ out ∷ [];
              closed = [];
              children = [];
              reaped = [];
            }))
  unfolding after_err_pipe close_handle set_not_inherited
  after_err_pipe-AllClosed command dir timeout out out_write none w = (0, gives Perm.rfl)
  after_err_pipe-AllClosed command dir timeout out out_write (some (err, err_write)) w =
      let (made, w1) =
        win.create_process (until_nul command) (dir_argument dir) out_write err_write
          (win.set_not_inherited err w) in
      let w2 = win.close_handle err_write (win.close_handle out_write w1) in
      (
        finite.unread w2 + 1,
        after_process-AllClosed (finite.unread w2 + 1) timeout out out_write err err_write made w2
            (omega arith),
      )

  after_out_pipe-AllClosed :
      (command dir : Text) (timeout : ℕ) (first : Option (ℕ × ℕ)) (w : W)
      → (fuel : ℕ) × Returns AllClosed (after_out_pipe win fuel command dir timeout first (fresh w))
  unfolding after_out_pipe set_not_inherited
  after_out_pipe-AllClosed command dir timeout none w = (0, gives Perm.rfl)
  after_out_pipe-AllClosed command dir timeout (some (out, out_write)) w =
      let (second, w1) = win.create_pipe (win.set_not_inherited out w) in
      after_err_pipe-AllClosed command dir timeout out out_write second w1

  -- On a system where each ReadFile and WaitForSingleObject returns and the child writes finitely
  -- many bytes, ExecuteCommand on Windows returns, with every handle that it got closed as often
  -- as it was got, whatever call fails.
  pub execute_windows-AllClosed :
      (executable options dir : Text) (timeout : ℤ) (w : W)
      → (fuel : ℕ) × Returns AllClosed
          (execute_command_windows win fuel executable options dir timeout (fresh w))
  unfolding execute_windows execute_command_windows
  execute_windows-AllClosed executable options dir timeout w =
      after_out_pipe-AllClosed (command_line executable options) dir (wait_time timeout)
        (win.create_pipe w).0 (win.create_pipe w).1
