-- ===== src/Examples/Running.antt =====
-- A heart and an engine in their loops.
use gpf.Prelude.{ℕ, ℤ, String, true, ◌≡◌, ◌≢◌, refl, Option, some, List, [], ◌∷◌, nat_eq, pos}
use gpf.Url.{
  Bytes, validate_url, parse, index, take, drop, strip, split_protocol, finish, parse_address,
}
use gpf.Factory.{EngineInfo}
use gpf.Reactor.Loop.{Polled, timeout, events, Ended, stuck}
use gpf.Reactor.Loop.Keeps.{Holds}
use gpf.Heart.{Heart, heart, start}
use gpf.Heart.Loop.{Beating, operate, operate-answers}
use gpf.Engine.{Engine, run, registration_request, introduction}
use gpf.Engine.Loop.{Serving, run_engine, run_engine-heard}
use gpf.Examples.Handshake.{worker}

-- `Tcp://h:4/`
abbrev url : Bytes
url = 84 ∷ 99 ∷ 112 ∷ 58 ∷ 47 ∷ 47 ∷ 104 ∷ 58 ∷ 52 ∷ 47 ∷ []

abbrev four : Bytes → Option ℤ
four s = some (pos 4)

abbrev same : ℕ → ℕ
same b = b

-- An event of the first socket, nothing, events of both sockets, and what comes too late.
abbrev polls : List (ℕ × Polled)
polls =
    (10, events (λ v. nat_eq v 1))
    ∷ (20, timeout)
    ∷ (30, events (λ v. true))
    ∷ (40, events (λ v. true))
    ∷ []

abbrev pings : List (List String)
pings = ("one" ∷ []) ∷ ("two" ∷ []) ∷ ("three" ∷ []) ∷ []

abbrev ticking : Heart
ticking = record { id = "alpha"; in_addr = url; out_addr = url; count = 0; identity = some "alpha" }

operate-answers_example :
    (e : Ended ⊥ Beating) × (operate same four "uuid" 1 polls pings (heart url url "alpha")
      ≡ some e)
    × (e ≢ stuck)
    × Holds
        (λ (s : Beating).
          (s.0 ≡ ("three" ∷ []) ∷ [])
          × (s.1.0 ≡ record ticking { count = 2 })
          × (s.1.1 ≡ ("alpha" ∷ "one" ∷ []) ∷ ("alpha" ∷ "two" ∷ []) ∷ []))
        e
unfolding start heart validate_url parse index take drop strip split_protocol finish parse_address
operate-answers_example =
    operate-answers same four "uuid" 1 polls pings (heart url url "alpha") ticking (λ e. cc) refl

abbrev addresses : EngineInfo
addresses = record {
  hub_registration = url;
  control = [];
  mux = [];
  task = [];
  iopub = [];
  heartbeat0 = url;
  heartbeat1 = url;
}

-- The engine when it gets to its loop.
abbrev working : Engine
unfolding heart
working = record worker {
  heart = some (heart url url "worker-heart");
  sent = registration_request (introduction worker) ∷ [];
}

abbrev messages : List (List String)
messages = ("news" ∷ "none" ∷ []) ∷ ("registration_request" ∷ "ACK" ∷ []) ∷ [] ∷ []

-- Two messages are read, of which the second is the hub's acknowledgement.
run_engine-heard_example :
    (end : Ended ⊥ Serving) × (run_engine same four "worker" addresses 1 polls messages
        (record worker { queue_name = ""; heart_name = "" })
      ≡ some end)
    × (end ≢ stuck)
    × Holds (λ (s : Serving). s.1 ≡ some (record working { registered = true })) end
unfolding run start heart validate_url parse index take drop strip split_protocol finish
    parse_address
run_engine-heard_example =
    run_engine-heard same four "worker" addresses 1 polls messages
      (record worker { queue_name = ""; heart_name = "" }) working (λ e. cc) refl
