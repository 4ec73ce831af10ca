-- ===== src/Await/Steps.antt =====
-- A coroutine ends as its body means, and resumes its continuation.
use quick_cmake.Prelude.{
  ℕ, zero, suc, ◌+◌, ◌≡◌, ◌≢◌, ◌≤◌, ◌<◌, refl, ap, subst, ◌∙◌, Option, none, some, ◌==◌, ==_refl,
  ==→eq, Bool-cases, inl, inr, ltb, ltb→lt, arith,
}
use quick_cmake.Outcome.{Outcome, value, ◌>>=◌}
use quick_cmake.Await.{
  Ended, returned, threw, Body, co_return, throws, changes, reads, co_await, awaits, at_end, Frame,
  Machine, write, new_frame, finish, result, await_resume, await_suspend, move_to, step_frame,
  step_at, step_from, step, steps, meaning,
}

module _ {S V : Type 0} where
  -- Steps that lead from a machine to another.
  pub data Leads : Machine S V → Machine S V → Type 0 where
    stays : {m : Machine S V} → Leads m m
    goes : {m n p : Machine S V} → step m ≡ value n → Leads n p → Leads m p

  Leads-trans : {m n p : Machine S V} → Leads m n → Leads n p → Leads m p
  Leads-trans stays l = l
  Leads-trans (goes e k) l = goes e (Leads-trans k l)

  step_idle : (m : Machine S V) → m.running ≡ none → step m ≡ value m
  unfolding step
  step_idle m h = ap (λ r. step_from r m) h

  steps_idle : (n : ℕ) (m : Machine S V) → m.running ≡ none → steps n m ≡ value m
  unfolding steps
  steps_idle zero m h = refl
  steps_idle (suc n) m h = rw (step_idle m h) (steps_idle n m h)

  steps_behind :
      (m n p : Machine S V) (fuel least : ℕ)
      → step m ≡ value n
      → ((k : ℕ) → least ≤ k → steps k n ≡ value p)
      → suc least ≤ fuel
      → steps fuel m ≡ value p
  unfolding steps
  steps_behind m n p zero least e rest le = absurd (omega arith)
  steps_behind m n p (suc k) least e rest le = rw e (rest k (omega arith))

  -- Enough steps lead to a machine that is idle.
  pub Leads-steps :
      {m p : Machine S V}
      → Leads m p
      → p.running ≡ none
      → (n : ℕ) × ((fuel : ℕ) → n ≤ fuel → steps fuel m ≡ value p)
  Leads-steps {p = p} stays h = (0, λ fuel le. steps_idle fuel p h)
  Leads-steps {m = m} {p = p} (goes {n = next} e l) h =
      let (n, rest) = Leads-steps l h in (suc n, λ fuel le. steps_behind m next p fuel n e rest le)

  -- m' is m after the coroutine h has ended with r: it holds r, its caller runs, the tasks that it
  -- has awaited are destroyed, and the other frames are as they were.
  pub record Done (m : Machine S V) (h : ℕ) (c : Option ℕ) (r : Ended V × S) (m' : Machine S V)
      : Type 0 where
    pub running : m'.running ≡ c
    pub shared : m'.shared ≡ r.1
    pub holds : m'.frames h ≡ some (record { point = at_end; ended = some r.0; continuation = c })
    pub others : (g : ℕ) → g < m.made → g ≢ h → m'.frames g ≡ m.frames g
    pub grown : m.made ≤ m'.made
    pub destroyed : (g : ℕ) → m.made ≤ g → g < m'.made → m'.frames g ≡ none

  write_there : (f : ℕ → Option (Frame S V)) (h : ℕ) (c : Option (Frame S V)) → write f h c h ≡ c
  write_there f h c = rw (==_refl h) refl

  write_other :
      (f : ℕ → Option (Frame S V)) (h g : ℕ) (c : Option (Frame S V)) → g ≢ h → write f h c g ≡ f g
  write_other f h g c n = ground (arith, ==→eq h g)

  finished_there :
      (m : Machine S V) (h : ℕ) (c : Option ℕ) (b : Body S V) (r : Ended V)
      → Done m h c (r, m.shared) (finish h (new_frame b c) r m)
  unfolding finish
  finished_there m h c b r = record {
    running = refl;
    shared = refl;
    holds = write_there m.frames h _;
    others = λ g below n. write_other m.frames h g _ n;
    grown = omega arith;
    destroyed = λ g low high. absurd (omega arith);
  }

  -- What comes behind a step inside the body.
  Done-move :
      (m n m' : Machine S V) (h : ℕ) (c : Option ℕ) (b : Body S V) (r : Ended V × S)
      → n.made ≡ m.made
      → n.frames ≡ write m.frames h (some (new_frame b c))
      → Done n h c r m'
      → Done m h c r m'
  Done-move m n m' h c b r made frames d = record {
    running = d.running;
    shared = d.shared;
    holds = d.holds;
    others = λ g below differ.
        d.others g (omega arith) differ
        ∙ ap (λ (f : ℕ → Option (Frame S V)). f g) frames
        ∙ write_other m.frames h g _ differ;
    grown = omega (arith, d.grown);
    destroyed = λ g low high. d.destroyed g (omega arith) high;
  }

  -- The step of a coroutine that runs.
  step_of :
      (m n : Machine S V) (h : ℕ) (f : Frame S V)
      → m.running ≡ some h
      → m.frames h ≡ some f
      → step_frame h f f.point m ≡ value n
      → step m ≡ value n
  unfolding step
  step_of m n h f run at go = ap (λ r. step_from r m) run ∙ ap (λ o. step_at h o m) at ∙ go

  module _ (m : Machine S V) (h : ℕ) (c : Option ℕ) (t : Body S V) (k : Ended V → Body S V)
      (low : h < m.made) where
    abbrev suspended : ℕ → Option (Frame S V)
    suspended =
        write m.frames h (some (record { point = awaits m.made k; ended = none; continuation = c }))

    -- The machine in which the awaited task runs.
    abbrev inside : Machine S V
    inside = record m {
      frames = write suspended m.made (some (new_frame t (some h)));
      made = m.made + 1;
      running = some m.made;
    }

    module _ (r : Ended V) (after : S) (m2 : Machine S V)
        (d : Done inside m.made (some h) (r, after) m2) where
      -- The machine in which the caller goes on.
      abbrev behind : Machine S V
      behind = record m2 {
        frames = write (write m2.frames m.made none) h (some (new_frame (k r) c));
      }

      abbrev cleared : Machine S V
      cleared = record m2 { frames = write m2.frames m.made none }

      abbrev waiting : Frame S V
      waiting = record { point = awaits m.made k; ended = none; continuation = c }

      caller_waits :
          m2.frames h ≡ some (record { point = awaits m.made k; ended = none; continuation = c })
      caller_waits =
          d.others h (omega arith) (λ e. absurd (omega arith))
          ∙ write_other suspended m.made h (some (new_frame t (some h))) (λ e. absurd (omega arith))
          ∙ write_there m.frames h _

      caller_goes : step m2 ≡ value behind
      unfolding step_frame await_resume move_to
      caller_goes = step_of m2 behind h _ d.running caller_waits (
          ap
            (λ o.
              let got : Outcome (Ended V × Machine S V) = result o >>= λ x. value (x, cleared) in
              got >>= λ p. value (move_to h waiting (k p.0) p.1))
            d.holds)

      left : (g : ℕ) → g ≢ h → g ≢ m.made → behind.frames g ≡ m2.frames g
      left g differ apart =
          write_other (write m2.frames m.made none) h g (some (new_frame (k r) c)) differ
          ∙ write_other m2.frames m.made g none apart

      gone : (g : ℕ) → m.made ≤ g → g < m2.made → g ≢ h → behind.frames g ≡ none
      gone g least most differ = elim (Bool-cases (g == m.made)) [
        | inl same ↦
            write_other (write m2.frames m.made none) h g (some (new_frame (k r) c)) differ
            ∙ ap (write m2.frames m.made none) (==→eq g m.made same)
            ∙ write_there m2.frames m.made none
        | inr other ↦
            let apart : g ≢ m.made = λ same. absurd (ground arith) in
            let above : m.made < g = ground arith in
            left g differ apart ∙ d.destroyed g (omega arith) most
      ]

      caller-Done : (m4 : Machine S V) (x : Ended V × S) → Done behind h c x m4 → Done m h c x m4
      caller-Done m4 x e = record {
        running = e.running;
        shared = e.shared;
        holds = e.holds;
        others = λ g below differ.
            let apart : g ≢ m.made = λ same. absurd (omega arith) in
            e.others g (omega (arith, d.grown)) differ
            ∙ left g differ apart
            ∙ d.others g (omega arith) apart
            ∙ write_other suspended m.made g (some (new_frame t (some h))) apart
            ∙ write_other m.frames h g _ differ;
        grown = omega (arith, d.grown, e.grown);
        destroyed = λ g least most. elim (Bool-cases (ltb g m2.made)) [
          | inl old ↦
              let differ : g ≢ h = λ same. absurd (omega arith) in
              e.others g (ltb→lt g m2.made old) differ ∙ gone g least (ltb→lt g m2.made old) differ
          | inr new ↦ let high : m2.made ≤ g = ground arith in e.destroyed g high most
        ];
      }

  pub body_runs :
      (b : Body S V) (m : Machine S V) (h : ℕ) (c : Option ℕ)
      → m.running ≡ some h
      → h < m.made
      → m.frames h ≡ some (new_frame b c)
      → (m' : Machine S V) × Leads m m' × Done m h c (meaning b m.shared) m'
  unfolding step step_frame move_to await_suspend await_resume
  body_runs (co_return v) m h c run low at =
      (_, goes (rw (run, at) refl) stays, finished_there m h c (co_return v) (returned v))
  body_runs (throws e) m h c run low at =
      (_, goes (rw (run, at) refl) stays, finished_there m h c (throws e) (threw e))
  body_runs (changes g b) m h c run low at =
      let n = move_to h (new_frame (changes g b) c) b (record m { shared = g m.shared }) in
      let (m', l, d) = body_runs b n h c run low (write_there m.frames h _) in
      (m', goes (rw (run, at) refl) l, Done-move m n m' h c b _ refl refl d)
  body_runs (reads k) m h c run low at =
      let n = move_to h (new_frame (reads k) c) (k m.shared) m in
      let (m', l, d) = body_runs (k m.shared) n h c run low (write_there m.frames h _) in
      (m', goes (rw (run, at) refl) l, Done-move m n m' h c (k m.shared) _ refl refl d)
  body_runs (co_await t k) m h c run low at =
      let (r, after) = meaning t m.shared in
      let (m2, l1, d1) =
        body_runs t (inside m h c t k low) m.made (some h) refl (omega arith)
          (write_there (suspended m h c t k low) m.made (some (new_frame t (some h)))) in
      let m3 = behind m h c t k low r after m2 d1 in
      let (m4, l2, d2) =
        body_runs (k r) m3 h c d1.running (omega (arith, d1.grown))
          (write_there (write m2.frames m.made none) h (some (new_frame (k r) c))) in
      (
        m4,
        goes (step_of m _ h _ run at refl)
            (Leads-trans l1 (goes (caller_goes m h c t k low r after m2 d1) l2)),
        caller-Done m h c t k low r after m2 d1 m4 _
            (subst (λ s. Done m3 h c (meaning (k r) s) m4) d1.shared d2),
      )
