-- ===== src/Hub/Dispatch/Keeps.antt =====
-- What all handlers of a table keep, its dispatcher keeps.
use gpf.Prelude.{
  String, ◌≡◌, subst, some, List, [], ◌∷◌, inl, inr, Bool-cases, Option-cases, ◌==◌, eq_iff,
}
use gpf.Prelude.Lists.{All}
use gpf.Hub.State.{Env, Hub}
use gpf.Hub.Dispatch.{Handler, dispatch, handler_of}

-- A handler that the table names has what all its handlers have.
handler_of-All :
    {A : Type 0} (Q : A → Type 0) (type : String) (hs : List (String × A)) (handler : A)
    → All (λ p. Q p.1) hs
    → handler_of type hs ≡ some handler
    → Q handler
unfolding handler_of
handler_of-All Q type [] handler a e = cc
handler_of-All Q type ((topic, first) ∷ hs) handler a e = elim (Bool-cases (topic == type)) [
  | inl t ↦ subst Q (first_is (rw t at e)) a.0
  | inr t ↦ handler_of-All Q type hs handler a.1 (rw t at e)
]
  where
    first_is : some first ≡ some handler → first ≡ handler
    first_is d = cc

-- A handler that the table names has, with its topic, what all its entries have.
handler_of-entry :
    {A : Type 0} (Q : String × A → Type 0) (type : String) (hs : List (String × A)) (handler : A)
    → All Q hs
    → handler_of type hs ≡ some handler
    → Q (type, handler)
unfolding handler_of
handler_of-entry Q type [] handler a e = cc
handler_of-entry Q type ((topic, first) ∷ hs) handler a e = elim (Bool-cases (topic == type)) [
  | inl t ↦
      subst (λ k. Q (k, handler)) ((eq_iff topic type).0 t)
        (subst (λ f. Q (topic, f)) (first_is (rw t at e)) a.0)
  | inr t ↦ handler_of-entry Q type hs handler a.1 (rw t at e)
]
  where
    first_is : some first ≡ some handler → first ≡ handler
    first_is d = cc

module _ {env : Env} (P : Hub env → Type 0) where
  -- A handler that keeps `P`.
  abbrev pub HandlerKeeps : Handler env → Type 0
  HandlerKeeps handler = (incoming : env.Incoming) (h : Hub env) → P h → P (handler incoming h).1

  -- What all handlers of a table keep, its dispatcher keeps.
  pub dispatch-keeps :
      (hs : List (String × Handler env)) (incoming : env.Incoming) (h : Hub env)
      → All (λ p. HandlerKeeps p.1) hs
      → P h
      → P (dispatch hs incoming h).1
  dispatch-keeps hs incoming h a v = elim (Option-cases (env.topic incoming)) [
    | inl e ↦ rw (e, dispatch) v
    | inr (type, e) ↦
        rw (e, dispatch)
          (elim (Option-cases (handler_of type hs)) [
            | inl d ↦ rw d v
            | inr (handler, d) ↦ rw d (handler_of-All HandlerKeeps type hs handler a d incoming h v)
          ])
  ]

module _ {env : Env} (P : Hub env → Type 0) (incoming : env.Incoming) (h : Hub env) where
  -- The handler of a topic takes `P` over the message that has come, if the message has the topic.
  abbrev pub EntryKeeps : String × Handler env → Type 0
  EntryKeeps (topic, handler) = env.topic incoming ≡ some topic → P h → P (handler incoming h).1

  -- What the handler of the message's topic keeps, the dispatcher keeps.
  pub dispatch-entry_keeps :
      (hs : List (String × Handler env)) → All EntryKeeps hs → P h → P (dispatch hs incoming h).1
  dispatch-entry_keeps hs a v = elim (Option-cases (env.topic incoming)) [
    | inl e ↦ rw (e, dispatch) v
    | inr (type, e) ↦
        rw (e, dispatch)
          (elim (Option-cases (handler_of type hs)) [
            | inl d ↦ rw d v
            | inr (handler, d) ↦ rw d (handler_of-entry EntryKeeps type hs handler a d e v)
          ])
  ]

module _ {env : Env} (R : Hub env → Hub env → Type 0) (R-refl : (h : Hub env) → R h h) where
  -- A handler that takes the hub a step.
  abbrev pub HandlerSteps : Handler env → Type 0
  HandlerSteps handler = (incoming : env.Incoming) (h : Hub env) → R h (handler incoming h).1

  -- If each handler of a table takes the hub a step, so does its dispatcher.
  pub dispatch-steps :
      (hs : List (String × Handler env)) (incoming : env.Incoming) (h : Hub env)
      → All (λ p. HandlerSteps p.1) hs
      → R h (dispatch hs incoming h).1
  dispatch-steps hs incoming h a = elim (Option-cases (env.topic incoming)) [
    | inl e ↦ rw (e, dispatch) (R-refl h)
    | inr (type, e) ↦
        rw (e, dispatch)
          (elim (Option-cases (handler_of type hs)) [
            | inl d ↦ rw d (R-refl h)
            | inr (handler, d) ↦ rw d (handler_of-All HandlerSteps type hs handler a d incoming h)
          ])
  ]
