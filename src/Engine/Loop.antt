-- ===== src/Engine/Loop.antt =====
-- The rest of `engine::run`, in gpf/engine/engine.cpp: the engine's loop. The messages that its socket will
-- receive from the hub, in order, and what the polls report are its input.
use gpf.Prelude.{
  ℕ, ℤ, String, Bool, true, false, ◌≡◌, ◌≢◌, refl, ap, ◌∙◌, Option, none, some, List, [], ◌∷◌, ◌==◌,
  ◌&&◌, ◌||◌, foldl, if◌then◌else◌, Bool-cases, inl, inr,
}
use gpf.Prelude.Lists.{take}
use gpf.Timers.{DeadlineTimer}
use gpf.Url.{Bytes}
use gpf.Factory.{EngineInfo}
use gpf.Reactor.Loop.{Polled, Ended, stuck, internal_event}
use gpf.Reactor.Loop.{run as run_reactor}
use gpf.Reactor.Loop.Keeps.{Holds, Holds-map}
use gpf.Reactor.Loop.Single.{single, after, reads, call, world, run-single}
use gpf.Engine.{Engine, run, dispatch_registration}

-- The frames of the messages to come, and the engine, unless the program has ended.
abbrev pub Serving : Type 0
Serving = List (List String) × Option Engine

-- The callback of the engine's socket on a message.
unfoldable pub handle : List String → Option Engine → Option Engine
unfolding dispatch_registration
handle frames none = none
handle frames (some e) = dispatch_registration frames e

-- The engine's loop has no timer.
abbrev no_timer : ⊥ → Serving → List (DeadlineTimer ⊥) × Serving
no_timer a s = elim a [ ]

-- `run`, with `socket` for `m_hub_registration`. As there is no timer, a fuel of 1 is enough.
unfoldable pub run_engine :
    (ℕ → ℕ)
    → (Bytes → Option ℤ)
    → String
    → EngineInfo
    → ℕ
    → List (ℕ × Polled)
    → List (List String)
    → Engine
    → Option (Ended ⊥ Serving)
unfolding run run_reactor single handle
run_engine tolower lexical_cast name ei socket polls messages e =
    elim (run tolower lexical_cast name ei e) [
      | none ↦ none
      | some e' ↦ some (
          run_reactor no_timer (call handle) 1 [] (single socket) polls
            (world handle (messages, some e') false))
    ]

-- An acknowledgement of a registration.
abbrev pub is_ack : List String → Bool
is_ack [] = false
is_ack (topic ∷ []) = false
is_ack (topic ∷ ack ∷ frames) = topic == "registration_request" && ack == "ACK"

-- A message on which the program goes on: one that has a topic, and is an acknowledgement if the topic is
-- that of a registration.
abbrev pub is_understood : List String → Bool
is_understood [] = false
is_understood (topic ∷ frames) =
    if topic == "registration_request" then is_ack (topic ∷ frames) else true

abbrev pub any_ack : List (List String) → Bool
any_ack [] = false
any_ack (m ∷ ms) = is_ack m || any_ack ms

abbrev pub all_understood : List (List String) → Bool
all_understood [] = true
all_understood (m ∷ ms) = is_understood m && all_understood ms

abbrev heard : Bool → Bool → Engine → Option Engine
heard understood ack e =
    if understood then some (record e { registered = ack || e.registered }) else none

dispatch_registration-heard :
    (m : List String) (e : Engine)
    → dispatch_registration m e ≡ heard (is_understood m) (is_ack m) e
unfolding dispatch_registration
dispatch_registration-heard [] e = refl
dispatch_registration-heard (topic ∷ []) e = elim (Bool-cases (topic == "registration_request")) [
  | inl t ↦ rw t refl
  | inr t ↦ rw t refl
]
dispatch_registration-heard (topic ∷ ack ∷ frames) e =
    elim (Bool-cases (topic == "registration_request")) [
      | inl t ↦ rw t (elim (Bool-cases (ack == "ACK")) [ inl a ↦ rw a refl | inr a ↦ rw a refl ])
      | inr t ↦ rw t refl
    ]

or_swap : (a b c : Bool) → (a || (b || c)) ≡ ((b || a) || c)
or_swap true true c = refl
or_swap true false c = refl
or_swap false true c = refl
or_swap false false c = refl

foldl-ended : (ms : List (List String)) → foldl (λ s m. handle m s) none ms ≡ none
unfolding handle
foldl-ended [] = refl
foldl-ended (m ∷ ms) = foldl-ended ms

foldl-handle :
    (ms : List (List String)) (e : Engine)
    → foldl (λ s m. handle m s) (some e) ms ≡ heard (all_understood ms) (any_ack ms) e
unfolding handle
foldl-handle [] e = refl
foldl-handle (m ∷ ms) e = elim (Bool-cases (is_understood m)) [
  | inl u ↦
      rw (dispatch_registration-heard m e, u)
        (foldl-handle ms _
          ∙ ap (λ b. if all_understood ms then some (record e { registered = b }) else none)
              (or_swap (any_ack ms) (is_ack m) e.registered))
  | inr u ↦ rw (dispatch_registration-heard m e, u) (foldl-ended ms)
]

-- In a reactor whose own socket is another one than the engine's, whatever the polls report and whatever
-- comes from the hub: if the engine gets to its loop, the loop is never stuck; and if it goes on or has
-- stopped, it has read one message for each event of its socket. If all that it has read are understood,
-- the engine is registered exactly if it was or one of them is an acknowledgement, and is otherwise as it
-- was; if one is not, the program has ended.
pub run_engine-heard :
    (tolower : ℕ → ℕ) (lexical_cast : Bytes → Option ℤ) (name : String) (ei : EngineInfo)
    (socket : ℕ) (polls : List (ℕ × Polled)) (messages : List (List String)) (e e' : Engine)
    → socket ≢ internal_event
    → run tolower lexical_cast name ei e ≡ some e'
    → let come = take (reads socket polls) messages in
      (end : Ended ⊥ Serving) × (run_engine tolower lexical_cast name ei socket polls messages e
        ≡ some end)
      × (end ≢ stuck)
      × Holds
          (λ (s : Serving). s.1 ≡ (
            if all_understood come
            then some (record e' { registered = any_ack come || e'.registered })
            else none))
          end
unfolding run_engine
run_engine-heard tolower lexical_cast name ei socket polls messages e e' apart begun =
    let (free, ends) = run-single handle no_timer 0 socket polls (messages, some e') apart in
    (
      _,
      rw (run_engine, begun) refl,
      free,
      Holds-map
          (λ (s : Serving) (q : s ≡ after handle (reads socket polls) (messages, some e')).
            ap (λ (t : Serving). t.1) q ∙ foldl-handle (take (reads socket polls) messages) e')
          _ ends,
    )
