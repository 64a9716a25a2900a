-- ===== src/Engine/Replies.antt =====
-- What the hub's replies do to an engine.
use gpf.Prelude.{
  String, true, false, ◌≡◌, refl, subst, some, List, [], ◌∷◌, ◌⊎◌, inl, inr, Bool-cases, ◌==◌,
  eq_iff,
}
use gpf.Prelude.Lists.{Member, All-Member}
use gpf.Hub.State.{
  Payload, replied, nothing, text, number, registration, load, queue_status, purged, results,
}
use gpf.Hub.Account.{protocol}
use gpf.Engine.{Engine, dispatch_registration}
use gpf.Engine.Handshake.{text_frames}

-- What a message from the hub does to an engine: nothing, or the hub's ACK registers it.
ack-cases :
    (frames : List String) (e e' : Engine)
    → dispatch_registration ("registration_request" ∷ frames) e ≡ some e'
    → e' ≡ record e { registered = true }
unfolding dispatch_registration
ack-cases [] e e' d = cc
ack-cases (ack ∷ rest) e e' d = elim (Bool-cases (ack == "ACK")) [
  | inl t ↦ let q = rw t at d in cc
  | inr t ↦ let q = rw t at d in cc
]

dispatch_registration-cases :
    (topic : String) (frames : List String) (e e' : Engine)
    → dispatch_registration (topic ∷ frames) e ≡ some e'
    → (e' ≡ e) ⊎ ((topic ≡ "registration_request") × (e' ≡ record e { registered = true }))
unfolding dispatch_registration
dispatch_registration-cases topic frames e e' d =
    elim (Bool-cases (topic == "registration_request")) [
      | inl t ↦
          let is = (eq_iff topic "registration_request").0 t in
          inr (
            is,
            ack-cases frames e e'
                (subst (λ k. dispatch_registration (k ∷ frames) e ≡ some e') is d),
          )
      | inr t ↦ inl (let q = rw t at d in cc)
    ]

-- The frames of a reply begin with its topic.
pub reply-cases :
    {I : Type 0} (i : I) (topic : String) (p : Payload) (e e' : Engine)
    → dispatch_registration (text_frames (replied i topic p)) e ≡ some e'
    → (e' ≡ e) ⊎ ((topic ≡ "registration_request") × (e' ≡ record e { registered = true }))
reply-cases i topic (text t) e e' d = dispatch_registration-cases topic (t ∷ []) e e' d
reply-cases i topic nothing e e' d = dispatch_registration-cases topic [] e e' d
reply-cases i topic (number z) e e' d = dispatch_registration-cases topic [] e e' d
reply-cases i topic (registration r) e e' d = dispatch_registration-cases topic [] e e' d
reply-cases i topic (load r) e e' d = dispatch_registration-cases topic [] e e' d
reply-cases i topic (queue_status r) e e' d = dispatch_registration-cases topic [] e e' d
reply-cases i topic (purged r) e e' d = dispatch_registration-cases topic [] e e' d
reply-cases i topic (results r bufs) e e' d = dispatch_registration-cases topic [] e e' d

-- No request of a client is answered under the topic of the registrations.
pub not_registration : (request : String) → Member (request, "registration_request") protocol → ⊥
not_registration request m =
    let q : ("registration_request" == "registration_request") ≡ false =
      All-Member (λ (p : String × String). (p.1 == "registration_request") ≡ false) protocol
        (request, "registration_request") (refl, (refl, (refl, (refl, (refl, (refl, tt)))))) m in
    cc
