-- ===== src/EventBus/Handlers.antt =====
-- Subscribe, GetHandlers and Publish of include/skutils/event_manager.h, each under mapMutex_ as
-- one step. The handlers stand at the TypeID of their event's type, a number.
use quick_cmake.Prelude.{
  ℕ, ◌≡◌, refl, sym, ap, ◌∙◌, Option, none, some, List, [], ◌∷◌, ◌++◌, ◌==◌, ==→eq, ==_refl,
  if◌then◌else◌, arith, Bool-cases, Option-cases, inl, inr, append_assoc, append-nil,
}

-- subscribers_, with the callbacks of each HandlerList.
abbrev pub Subscribers : Type 0 → Type 0
Subscribers C = List (ℕ × List C)

module _ {C : Type 0} where
  unfoldable pub get_handlers : ℕ → Subscribers C → Option (List C)
  get_handlers type_idx [] = none
  get_handlers type_idx ((id, callbacks) ∷ l) =
      let rest = get_handlers type_idx l in if id == type_idx then some callbacks else rest

  -- handler->Add(callback), in the HandlerList with the TypeID.
  unfoldable pub add_callback : ℕ → C → Subscribers C → Subscribers C
  add_callback type_idx callback [] = []
  add_callback type_idx callback ((id, callbacks) ∷ l) =
      let rest = add_callback type_idx callback l in
      if id == type_idx then (id, callbacks ++ callback ∷ []) ∷ l else (id, callbacks) ∷ rest

  abbrev pub with_list : ℕ → Option (List C) → Subscribers C → Subscribers C
  with_list type_idx none subs = (type_idx, []) ∷ subs
  with_list type_idx (some callbacks) subs = subs

  unfoldable pub subscribe : ℕ → C → Subscribers C → Subscribers C
  subscribe type_idx callback subs =
      add_callback type_idx callback (with_list type_idx (get_handlers type_idx subs) subs)

  abbrev pub calls : Option (List C) → List C
  calls none = []
  calls (some callbacks) = callbacks

  -- The callbacks that Publish calls, in their order.
  unfoldable pub publish : ℕ → Subscribers C → List C
  publish type_idx subs = calls (get_handlers type_idx subs)

  -- Calls of Subscribe, in their order.
  abbrev pub subscribe_all : List (ℕ × C) → Subscribers C → Subscribers C
  subscribe_all [] subs = subs
  subscribe_all ((id, c) ∷ l) subs = subscribe_all l (subscribe id c subs)

  -- The callbacks that were given for a type.
  abbrev pub given : ℕ → List (ℕ × C) → List C
  given type_idx [] = []
  given type_idx ((id, c) ∷ l) =
      let rest = given type_idx l in if id == type_idx then c ∷ rest else rest

  publish-add :
      (k id : ℕ) (c : C) (subs : Subscribers C) (callbacks : List C)
      → get_handlers id subs ≡ some callbacks
      → publish k (add_callback id c subs)
        ≡ (if id == k then publish k subs ++ c ∷ [] else publish k subs)
  unfolding publish add_callback get_handlers
  publish-add k id c [] callbacks h = cc
  publish-add k id c ((j, cs) ∷ l) callbacks h = ground (arith, publish-add k id c l callbacks)

  get_handlers-new : (id : ℕ) (subs : Subscribers C) → get_handlers id ((id, []) ∷ subs) ≡ some []
  unfolding get_handlers
  get_handlers-new id subs = rw (==_refl id) refl

  -- An empty HandlerList calls nothing.
  publish-new :
      (k id : ℕ) (subs : Subscribers C)
      → get_handlers id subs ≡ none
      → publish k ((id, []) ∷ subs) ≡ publish k subs
  unfolding publish get_handlers
  publish-new k id subs h = elim (Bool-cases (id == k)) [
    | inl e ↦
        let missing : get_handlers k subs ≡ none =
          ap (λ j. get_handlers j subs) (sym (==→eq id k e)) ∙ h in
        rw (e, missing) refl
    | inr e ↦ rw e refl
  ]

  publish-subscribe :
      (k id : ℕ) (c : C) (subs : Subscribers C)
      → publish k (subscribe id c subs)
        ≡ (if id == k then publish k subs ++ c ∷ [] else publish k subs)
  unfolding subscribe
  publish-subscribe k id c subs = elim (Option-cases (get_handlers id subs)) [
    | inl e ↦
        let fresh : get_handlers id ((id, []) ∷ subs) ≡ some [] = get_handlers-new id subs in
        rw (e, publish-add k id c ((id, []) ∷ subs) [] fresh, publish-new k id subs e) refl
    | inr (callbacks, e) ↦ rw e (publish-add k id c subs callbacks e)
  ]

  publish-all :
      (k : ℕ) (l : List (ℕ × C)) (subs : Subscribers C)
      → publish k (subscribe_all l subs) ≡ publish k subs ++ given k l
  publish-all k [] subs = sym (append-nil (publish k subs))
  publish-all k ((id, c) ∷ l) subs = elim (Bool-cases (id == k)) [
    | inl e ↦ rw e (
        publish-all k l (subscribe id c subs)
        ∙ ap (λ r. r ++ given k l) (rw e at (publish-subscribe k id c subs))
        ∙ append_assoc (publish k subs) (c ∷ []) (given k l))
    | inr e ↦ rw e (
        publish-all k l (subscribe id c subs)
        ∙ ap (λ r. r ++ given k l) (rw e at (publish-subscribe k id c subs)))
  ]

  -- Publish calls the callbacks that were subscribed for the TypeID of the event's type, in the
  -- order of the calls of Subscribe, and no others.
  pub publish_subscribed : (k : ℕ) (l : List (ℕ × C)) → publish k (subscribe_all l []) ≡ given k l
  unfolding publish get_handlers
  publish_subscribed k l = publish-all k l []
