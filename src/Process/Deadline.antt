-- ===== src/Process/Deadline.antt =====
-- The loop of ExecuteCommandPosix, on a system whose clock goes on.
use quick_cmake.Prelude.{
  ℕ, zero, suc, ◌-◌, ◌*◌, ◌≤◌, ◌<◌, ◌≡◌, refl, ◌∙◌, false, not, ◌&&◌, Option, some, List,
  Bool-cases, inl, inr, arith,
}
use quick_cmake.Outcome.{value, Returns, gives, Returns-map, Returns-if}
use quick_cmake.Process.{Session}
use quick_cmake.Process.Posix.{
  Revents, Polled, interrupted, poll_failed, polled, Os, Reading, Round, next, leave, Deadline,
  expired, poll_time, read_stdout, read_stderr, check_hang_up, after_poll, round, poll_loop,
  time_out,
}

-- The system counts ticks: a poll takes at least one, a read takes none back, and the clock reaches
-- every time after some number of them.
pub record Passes {W : Type 0} (os : Os W) : Type 0 where
  pub tick : W → ℕ
  pub poll_takes : (out err t : ℕ) (w : W) → tick w < tick (os.poll out err t w).1
  pub read_takes : (fd n : ℕ) (w : W) → tick w ≤ tick (os.read fd n w).1
  pub when : ℕ → ℕ
  pub arrives : (t : ℕ) (w : W) → when t ≤ tick w → t ≤ os.time w * 1000

-- What the process has done so far, without the state of the system.
abbrev pub books : {W : Type 0} → Session W → List ℕ × List ℕ × List ℕ × List ℕ
books s = (s.opened, s.closed, s.children, s.reaped)

module _ {W : Type 0} (os : Os W) (passes : Passes os) where
  -- No descriptor is opened or closed and no child made or waited for, and no tick is taken back.
  abbrev Kept : Reading W → Reading W → Type 0
  Kept r t =
      (books t.session ≡ books r.session)
      × (passes.tick r.session.world ≤ passes.tick t.session.world)

  read_stdout-Kept : (ev : Revents) (fd : ℕ) (r : Reading W) → Kept r (read_stdout os ev fd r)
  unfolding read_stdout
  read_stdout-Kept ev fd r = elim (Bool-cases (not r.stdout_closed && ev.pollin)) [
    | inl e ↦ rw e (refl, passes.read_takes fd 4095 r.session.world)
    | inr e ↦ rw e (refl, omega arith)
  ]

  read_stderr-Kept : (ev : Revents) (fd : ℕ) (r : Reading W) → Kept r (read_stderr os ev fd r)
  unfolding read_stderr
  read_stderr-Kept ev fd r = elim (Bool-cases (not r.stderr_closed && ev.pollin)) [
    | inl e ↦ rw e (refl, passes.read_takes fd 4095 r.session.world)
    | inr e ↦ rw e (refl, omega arith)
  ]

  -- A round keeps the books, and takes a tick if it is not the last.
  abbrev Moves : Option Deadline → Reading W → Round W → Type 0
  Moves d r (next t) =
      (books t.session ≡ books r.session)
      × (passes.tick r.session.world < passes.tick t.session.world)
      × (expired os d r.session.world ≡ false)
  Moves d r (leave t) = books t.session ≡ books r.session

  after_poll-Moves :
      (d : Option Deadline) (out err : ℕ) (p : Polled) (r t : Reading W)
      → books t.session ≡ books r.session
      → passes.tick r.session.world < passes.tick t.session.world
      → expired os d r.session.world ≡ false
      → Moves d r (after_poll os out err p t)
  unfolding after_poll check_hang_up
  after_poll-Moves d out err interrupted r t b k e = (b, k, e)
  after_poll-Moves d out err poll_failed r t b k e = b
  after_poll-Moves d out err (polled x y) r t b k e =
      let first = read_stdout-Kept x out t in
      let second = read_stderr-Kept y err (read_stdout os x out t) in
      (second.0 ∙ first.0 ∙ b, omega (arith, first.1, second.1), e)

  round-Moves :
      (d : Option Deadline) (pid out err : ℕ) (r : Reading W) → Moves d r (round os d pid out err r)
  unfolding round time_out
  round-Moves d pid out err r =
      let w = (os.poll out err (poll_time os d r.session.world) r.session.world).1 in
      elim (Bool-cases (expired os d r.session.world)) [
        | inl e ↦ rw e refl
        | inr e ↦ rw e (
            after_poll-Moves d out err _ r _ refl
              (passes.poll_takes out err (poll_time os d r.session.world) r.session.world) e)
      ]

  pub poll_loop-Returns :
      (fuel : ℕ) (d : Deadline) (pid out err : ℕ) (r : Reading W)
      → passes.when d.end_time - passes.tick r.session.world < fuel
      → Returns (λ t. books t.session ≡ books r.session) (poll_loop os fuel (some d) pid out err r)
  unfolding poll_loop expired
  poll_loop-Returns zero d pid out err r f = absurd (omega arith)
  poll_loop-Returns (suc fuel) d pid out err r f =
      Returns-if (r.stdout_closed && r.stderr_closed) (λ _. gives refl)
        (λ _.
          goes (round os (some d) pid out err r) (round-Moves (some d) pid out err r)
            (poll_loop-Returns fuel d pid out err))
    where
      goes :
          (step : Round W)
          → Moves (some d) r step
          → ((t : Reading W)
              → passes.when d.end_time - passes.tick t.session.world < fuel
              → Returns
                  (λ u. books u.session ≡ books t.session)
                  (poll_loop os fuel (some d) pid out err t))
          → Returns
              (λ u. books u.session ≡ books r.session)
              (elim step [ next t ↦ poll_loop os fuel (some d) pid out err t | leave t ↦ value t ])
      goes (leave t) m ih = gives m
      goes (next t) (b, k, e) ih =
          let early : passes.tick r.session.world < passes.when d.end_time =
            ground (arith, passes.arrives d.end_time r.session.world) in
          Returns-map (ih t (omega arith)) λ u c. c ∙ b
