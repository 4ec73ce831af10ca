-- ===== src/EventBus/Shares.antt =====
-- The account of the events that Push takes, which Push and the workers keep.
use mathlib.Core.Option.{some-injective, none-ne-some}
use quick_cmake.Prelude.{
  ℕ, zero, suc, ◌+◌, ◌≡◌, ◌≢◌, refl, sym, ap, subst, ◌∙◌, Bool, true, false, some, List, [], ◌∷◌,
  ◌++◌, append_assoc, length, length-set, get_elem?, get_elem?-set_ne, set, total, total-set, ◌==◌,
  if◌then◌else◌, if-both, arith, Bool-cases, inl, inr, ==→eq,
}
use quick_cmake.ThreadPool.Accounted.{count, count-append}
use quick_cmake.EventBus.{
  Worker, popping, publishing, left, Timer, Closing, told, closed, Delayed, Bus, push, pop, work,
  all_left,
}

-- Whether the worker has popped the event and not published it yet.
abbrev pub carries : ℕ → Worker → ℕ
carries e (publishing x) = if e == x then 1 else 0
carries e _ = 0

-- Whether Stop has joined the workers.
abbrev pub joined : Closing → Bool
joined told = true
joined closed = true
joined _ = false

pub record Accounted (b : Bus) : Type 0 where
  pub in_order : b.taken ++ b.queue ≡ b.accepted
  pub once : (e : ℕ) → count e b.taken ≡ count e b.published + total (carries e) b.workers
  pub drained : (i : ℕ) → get_elem? b.workers i ≡ some left → (b.stopped ≡ true) × (b.queue ≡ [])
  pub size : length b.workers ≡ 4
  pub gone : joined b.closing ≡ true → all_left b.workers ≡ true

pub all_left-at :
    (ws : List Worker) (i : ℕ) (w : Worker)
    → all_left ws ≡ true
    → get_elem? ws i ≡ some w
    → w ≡ left
all_left-at [] i w h e = cc
all_left-at (left ∷ ws) zero w h e = sym (some-injective _ _ e)
all_left-at (left ∷ ws) (suc i) w h e = all_left-at ws i w h e
all_left-at (popping ∷ ws) i w h e = cc
all_left-at (publishing x ∷ ws) i w h e = cc

pub all_left-carries : (e : ℕ) (ws : List Worker) → all_left ws ≡ true → total (carries e) ws ≡ 0
all_left-carries e [] h = refl
all_left-carries e (left ∷ ws) h = omega (arith, all_left-carries e ws h)
all_left-carries e (popping ∷ ws) h = cc
all_left-carries e (publishing x ∷ ws) h = cc

-- A worker that takes an entry of its own is not the one that has left.
left_elsewhere :
    (ws : List Worker) (i j : ℕ) (v w : Worker)
    → get_elem? ws i ≡ some v
    → w ≢ left
    → get_elem? (set ws i w) j ≡ some left
    → get_elem? ws j ≡ some left
left_elsewhere ws i j v w at n h = elim (Bool-cases (i == j)) [
  | inl same ↦ absurd (
      n (
        some-injective _ _
          (sym (set_here ws i v w at) ∙ ap (get_elem? (set ws i w)) (==→eq i j same) ∙ h)))
  | inr other ↦
      let differ : i ≢ j = λ e. absurd (ground arith) in sym (get_elem?-set_ne ws i j w differ) ∙ h
]
  where
    set_here :
        (ws : List Worker) (i : ℕ) (v w : Worker)
        → get_elem? ws i ≡ some v
        → get_elem? (set ws i w) i ≡ some w
    set_here [] i v w h = cc
    set_here (x ∷ ws) zero v w h = refl
    set_here (x ∷ ws) (suc i) v w h = set_here ws i v w h

pub push-Accounted : (e : ℕ) (b : Bus) → Accounted b → Accounted (push e b)
unfolding push
push-Accounted e b ok =
    if-both Accounted b.stopped _ _
      (λ h. record {
        in_order = ok.in_order;
        once = ok.once;
        drained = ok.drained;
        size = ok.size;
        gone = ok.gone;
      })
      λ running. record {
        in_order = sym (append_assoc b.taken b.queue (e ∷ [])) ∙ ap (λ l. l ++ e ∷ []) ok.in_order;
        once = ok.once;
        drained = λ i h. let (s, q) = ok.drained i h in cc;
        size = ok.size;
        gone = ok.gone;
      }

-- What neither the queue nor the workers see.
pub same_work :
    (b : Bus) (timers passed scheduled : List Delayed) (timer : Timer) (now : ℕ) (asked : List ℕ)
    → Accounted b
    → Accounted (record b {
      timers = timers;
      passed = passed;
      scheduled = scheduled;
      timer = timer;
      now = now;
      asked = asked;
    })
same_work b timers passed scheduled timer now asked ok = record {
  in_order = ok.in_order;
  once = ok.once;
  drained = ok.drained;
  size = ok.size;
  gone = ok.gone;
}

pop-Accounted :
    (i : ℕ) (q : List ℕ) (stopped : Bool) (b c : Bus)
    → get_elem? b.workers i ≡ some popping
    → b.queue ≡ q
    → b.stopped ≡ stopped
    → pop i q stopped b ≡ some c
    → Accounted b
    → Accounted c
unfolding pop count
pop-Accounted i [] false b c at e s h ok = absurd (none-ne-some c h)
pop-Accounted i [] true b c at e s h ok = subst Accounted (some-injective _ _ h) (record {
  in_order = ok.in_order;
  once = λ x. omega (arith, ok.once x, total-set (carries x) b.workers i popping left at);
  drained = λ j g. (s, e);
  size = length-set b.workers i left ∙ ok.size;
  gone = λ g. let same = all_left-at b.workers i popping (ok.gone g) at in cc;
})
pop-Accounted i (x ∷ q) stopped b c at e s h ok = subst Accounted (some-injective _ _ h) (record {
  in_order = append_assoc b.taken (x ∷ []) q ∙ ap (λ l. b.taken ++ l) (sym e) ∙ ok.in_order;
  once = λ y. omega (
    arith,
    ok.once y,
    count-append y b.taken (x ∷ []),
    total-set (carries y) b.workers i popping (publishing x) at,
  );
  drained = λ j g.
      let (_, empty) =
        ok.drained j (left_elsewhere b.workers i j popping (publishing x) at (λ f. cc) g) in
      absurd (let bad : x ∷ q ≡ [] = sym e ∙ empty in cc);
  size = length-set b.workers i (publishing x) ∙ ok.size;
  gone = λ g. let same = all_left-at b.workers i popping (ok.gone g) at in cc;
})

pub work-Accounted :
    (i : ℕ) (w : Worker) (b c : Bus)
    → get_elem? b.workers i ≡ some w
    → work i w b ≡ some c
    → Accounted b
    → Accounted c
unfolding work count
work-Accounted i left b c at h ok = absurd (none-ne-some c h)
work-Accounted i (publishing x) b c at h ok = subst Accounted (some-injective _ _ h) (record {
  in_order = ok.in_order;
  once = λ e. omega (
    arith,
    ok.once e,
    count-append e b.published (x ∷ []),
    total-set (carries e) b.workers i (publishing x) popping at,
  );
  drained =
      λ j g. ok.drained j (left_elsewhere b.workers i j (publishing x) popping at (λ e. cc) g);
  size = length-set b.workers i popping ∙ ok.size;
  gone = λ g. let same = all_left-at b.workers i (publishing x) (ok.gone g) at in cc;
})
work-Accounted i popping b c at h ok = pop-Accounted i b.queue b.stopped b c at refl refl h ok
