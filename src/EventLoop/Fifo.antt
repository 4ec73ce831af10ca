-- ===== src/EventLoop/Fifo.antt =====
-- The tasks are called in the order of the posts, each once.
use mathlib.Core.Option.{some-injective, none-ne-some}
use quick_cmake.Prelude.{
  ◌≡◌, refl, sym, ap, subst, ◌∙◌, Bool, true, false, not, ◌||◌, Option, none, some, List, [], ◌∷◌,
  ◌++◌, append-nil, append_assoc, Bool-cases, inl, inr,
}
use quick_cmake.EventLoop.{
  Place, outside, testing, waiting, draining, popping, Loop, is_empty, rest, call, post, stop,
  may_leave, front, advance_from, advance, Reachable, start, posts, stops, advances,
}

module _ {A : Type 0} where
  -- The tasks that are not empty functions.
  abbrev pub callable : List (Option A) → List A
  callable [] = []
  callable (none ∷ ts) = callable ts
  callable (some t ∷ ts) = t ∷ callable ts

  callable-append : (ts us : List (Option A)) → callable (ts ++ us) ≡ callable ts ++ callable us
  callable-append [] us = refl
  callable-append (none ∷ ts) us = callable-append ts us
  callable-append (some t ∷ ts) us = ap (λ l. t ∷ l) (callable-append ts us)

  -- The tasks of the local queue whose call is to come.
  abbrev pub uncalled : Place → List (Option A) → List (Option A)
  uncalled draining local = local
  uncalled popping local = rest local
  uncalled _ local = []

  -- Where no task is under way the local queue is empty.
  abbrev IsClear : Place → List (Option A) → Type 0
  IsClear draining local = Unit
  IsClear popping local = Unit
  IsClear _ local = local ≡ []

  abbrev IsInOrder : List (Option A) → Loop A → Type 0
  IsInOrder ts s =
      (callable ts ≡ s.called ++ (callable (uncalled s.place s.local) ++ callable s.queue))
      × IsClear s.place s.local

  call_first :
      (t : Option A) (called : List A) (ts : List (Option A)) (more : List A)
      → called ++ (callable (t ∷ ts) ++ more) ≡ call t called ++ (callable ts ++ more)
  call_first none called ts more = refl
  call_first (some t) called ts more = sym (append_assoc called (t ∷ []) (callable ts ++ more))

  post-IsInOrder :
      (ts : List (Option A)) (t : Option A) (s : Loop A)
      → IsInOrder ts s
      → IsInOrder (ts ++ t ∷ []) (post t s)
  unfolding post
  post-IsInOrder ts t s (e, clear) =
      let kept : callable (ts ++ t ∷ [])
          ≡ s.called ++ (callable (uncalled s.place s.local) ++ callable (s.queue ++ t ∷ [])) =
        rw (callable-append ts (t ∷ []), callable-append s.queue (t ∷ []), e)
          (append_assoc s.called _ _
            ∙ ap (λ k. s.called ++ k) (append_assoc _ (callable s.queue) _)) in
      (kept, clear)

  front-IsInOrder :
      (ts l q : List (Option A)) (running : Bool) (called : List A)
      → callable ts ≡ called ++ (callable l ++ callable q)
      → IsInOrder ts (
          front l
            (record { queue = q; running = running; place = draining; local = l; called = called }))
  unfolding front
  front-IsInOrder ts [] q running called e = (e, refl)
  front-IsInOrder ts (t ∷ l) q running called e = (e ∙ call_first t called l (callable q), tt)

  advance_from-IsInOrder :
      (ts : List (Option A)) (q l : List (Option A)) (running : Bool) (called : List A) (p : Place)
      (next : Loop A)
      → IsInOrder ts
          (record { queue = q; running = running; place = p; local = l; called = called })
      → advance_from p
          (record { queue = q; running = running; place = p; local = l; called = called })
        ≡ some next
      → IsInOrder ts next
  unfolding advance_from may_leave
  advance_from-IsInOrder ts q l running called outside next (e, clear) h =
      subst (IsInOrder ts) (some-injective _ _ h) (e, clear)
  advance_from-IsInOrder ts q l true called testing next (e, clear) h =
      subst (IsInOrder ts) (some-injective _ _ h) (e, clear)
  advance_from-IsInOrder ts q l false called testing next (e, clear) h =
      subst (IsInOrder ts) (some-injective _ _ h) (e, clear)
  advance_from-IsInOrder ts (t ∷ q) l running called waiting next (e, clear) h =
      subst (IsInOrder ts) (some-injective _ _ h)
        (e ∙ ap (λ k. called ++ k) (sym (append-nil (callable (t ∷ q)))), tt)
  advance_from-IsInOrder ts [] l false called waiting next (e, clear) h =
      subst (IsInOrder ts) (some-injective _ _ h) (e, tt)
  advance_from-IsInOrder ts [] l true called waiting next (e, clear) h =
      absurd (none-ne-some next h)
  advance_from-IsInOrder ts q l running called draining next (e, clear) h =
      subst (IsInOrder ts) (some-injective _ _ h) (front-IsInOrder ts l q running called e)
  advance_from-IsInOrder ts q l running called popping next (e, clear) h =
      subst (IsInOrder ts) (some-injective _ _ h) (e, tt)

  Reachable-IsInOrder : (ts : List (Option A)) (s : Loop A) → Reachable ts s → IsInOrder ts s
  unfolding advance stop
  Reachable-IsInOrder ts s start = (refl, refl)
  Reachable-IsInOrder ts s (posts {ts = sofar} {s = before} t r) =
      post-IsInOrder sofar t before (Reachable-IsInOrder sofar before r)
  Reachable-IsInOrder ts s (stops {s = before} r) = Reachable-IsInOrder ts before r
  Reachable-IsInOrder ts s (advances {s = before} e r) =
      advance_from-IsInOrder ts before.queue before.local before.running before.called before.place
        s (Reachable-IsInOrder ts before r) e

  -- In every reachable state the tasks that have been called, the ones of the local queue still to
  -- be called, and the ones in the queue are, in this order, the posted tasks that are not empty
  -- functions, in the order of the posts.
  pub called_in_order :
      (ts : List (Option A)) (s : Loop A)
      → Reachable ts s
      → callable ts ≡ s.called ++ (callable (uncalled s.place s.local) ++ callable s.queue)
  called_in_order ts s r = (Reachable-IsInOrder ts s r).0

  cannot_leave :
      (running : Bool) (queue : List (Option A))
      → (not (is_empty queue) || not running) ≡ false
      → (running ≡ true) × (queue ≡ [])
  cannot_leave true [] h = (refl, refl)
  cannot_leave false [] h = cc
  cannot_leave running (t ∷ ts) h = cc

  stuck_from :
      (p : Place) (s : Loop A)
      → advance_from p s ≡ none
      → (p ≡ waiting) × (s.running ≡ true) × (s.queue ≡ [])
  unfolding advance_from may_leave
  stuck_from outside s h = cc
  stuck_from testing s h = cc
  stuck_from draining s h = cc
  stuck_from popping s h = cc
  stuck_from waiting s h = elim (Bool-cases (may_leave s)) [
    | inl e ↦ absurd (none-ne-some _ (sym (rw e at h)))
    | inr e ↦ let (running, empty) = cannot_leave s.running s.queue e in (refl, running, empty)
  ]

  -- The thread in run waits in a reachable state only while it is to run and every posted task that
  -- is not an empty function has been called, once and in the order of the posts.
  pub waits_idle :
      (ts : List (Option A)) (s : Loop A)
      → Reachable ts s
      → advance s ≡ none
      → (s.running ≡ true) × (callable ts ≡ s.called)
  unfolding advance
  waits_idle ts s r h =
      let (at, running, empty) = stuck_from s.place s h in
      (running, rw (called_in_order ts s r, at, empty) (append-nil s.called))
