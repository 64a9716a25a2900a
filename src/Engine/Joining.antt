-- ===== src/Engine/Joining.antt =====
-- How an engine joins: its request, its heart's answer to the monitor's ping, and the monitor's beat.
use gpf.Prelude.{ℕ, String, true, false, ◌≡◌, refl, ap, subst, ◌∙◌, some, none, arith, eq_refl}
use gpf.Prelude.Lists.{Member}
use gpf.StringSet.{contains, contains-insert}
use gpf.Monitor.{Monitor, new, alive, handle_pong, beat}
use gpf.Heart.{Heart}
use gpf.Heart.Echo.{echo, echo-eq}
use gpf.Hub.State.{Env, Hub, EngineConnector, Outcome, Sent, replied, text}
use gpf.Hub.Registration.{name_in_use, get_engine, find_queue, find_heart}
use gpf.Hub.Registration.Lifecycle.{
  waiting, waiting_connector, register-silent, waiting_heart, fresh_engines,
}
use gpf.Hub.Dispatch.{dispatch_query}
use gpf.Hub.Names.{Names}
use gpf.Hub.Names.Reachable.{Reach-Names}
use gpf.Hub.System.{create, at_time, Reach, next, query, pong, beats}
use gpf.Hub.Account.Reachable.{Reach-Account}
use gpf.Hub.Confirmation.Beat.{Reach-beat}
use gpf.Engine.{Engine, registration_request, introduction, dispatch_registration}
use gpf.Engine.Handshake.{Carries, dispatch_query-registration, text_frames}

module _ {S : Type 0} (to_iso_string : ℕ → String) (heart : String) (m : Monitor S) where
  abbrev answered : Monitor S
  answered = handle_pong to_iso_string heart (to_iso_string m.lifetime) m

  -- A pong with the monitor's latest ping.
  heard-pong : (contains answered.responses heart ≡ true) × (answered.hearts ≡ m.hearts)
  unfolding handle_pong
  heard-pong =
      rw (eq_refl (to_iso_string m.lifetime))
        (ground (arith, contains-insert heart heart m.responses, eq_refl heart), refl)

module _ {env : Env} {to_iso_string : ℕ → String} (interval t0 t1 t2 t3 next_id : ℕ)
    {m : Monitor (Hub env)} {h : Hub env}
    (r : Reach env to_iso_string (create env (new interval t0 t1 t2 t3) next_id) (m, h))
    (hello : env.Incoming) (e : Engine)
    (came : Carries env hello (registration_request (introduction e)))
    (free : name_in_use (introduction e) h ≡ false) (silent : alive m e.heart_name ≡ false)
    (asked : ℕ) where
  -- The hub when the request has come.
  abbrev pub welcomed : Hub env
  welcomed = (dispatch_query (alive m) hello (at_time env asked h)).1

  abbrev its_connector : EngineConnector env.Incoming
  its_connector = waiting_connector hello (introduction e) (at_time env asked h)

  Names-asked : Names env (at_time env asked h)
  Names-asked = Reach-Names interval t0 t1 t2 t3 next_id r

  still_free : name_in_use (introduction e) (at_time env asked h) ≡ false
  unfolding name_in_use
  still_free = free

  welcomed-waits : welcomed ≡ waiting asked hello (introduction e) (at_time env asked h)
  welcomed-waits =
      ap (λ (o : Outcome × Hub env). o.1)
        (dispatch_query-registration (alive m) hello (at_time env asked h) (introduction e) came)
      ∙ register-silent (alive m) asked hello (introduction e) (at_time env asked h) Names-asked
          still_free silent

  -- In a run of a hub with a new heart monitor, at any point: an engine's request comes, its names are
  -- free, and its heart is not alive yet; the heart, which has the name that the request gives, gets
  -- the monitor's latest ping, and its pong comes in; and then the monitor beats, whatever other hearts
  -- come or fail with this beat. The monitor takes the pong, the hub finds the engine by its queue, with its
  -- services, and has sent an answer to its request that makes the engine registered.
  pub joins :
      (heart : Heart) (now toc : ℕ)
      → heart.id ≡ e.heart_name
      → (m' : Monitor (Hub env)) × (echo to_iso_string heart (to_iso_string m.lifetime) m ≡ some m')
        × (let h' = (beat to_iso_string now toc (m', at_time env now welcomed)).1 in
            ((ec : EngineConnector env.Incoming) × (get_engine e.queue_name h' ≡ some ec)
              × (ec.services ≡ e.services))
            × ((answer : Sent env.Incoming) × Member answer h'.sent
                × ((topic : String) × (p : _) × (answer ≡ replied hello topic p))
                × (dispatch_registration (text_frames answer) e
                    ≡ some (record e { registered = true }))))
  unfolding get_engine find_queue dispatch_registration alive
  joins heart now toc its =
      let ping : String = to_iso_string m.lifetime in
      let m' : Monitor (Hub env) = handle_pong to_iso_string heart.id ping m in
      let heard = heard-pong to_iso_string heart.id m in
      let r₂ : Reach env to_iso_string (create env (new interval t0 t1 t2 t3) next_id)
          (m', welcomed) =
        next (next r (query m h asked hello)) (pong m welcomed heart.id ping) in
      let r₃ = next r₂ (beats m' welcomed now toc) in
      let h' : Hub env = (beat to_iso_string now toc (m', at_time env now welcomed)).1 in
      let waits : find_heart env welcomed.incoming_registrations e.heart_name ≡ some its_connector =
        ap (λ (g : Hub env). find_heart env g.incoming_registrations e.heart_name) welcomed-waits
        ∙ waiting_heart (alive m) asked hello (introduction e) (at_time env asked h) Names-asked
            still_free in
      let unused : env.engine_set.find welcomed.engines its_connector.id ≡ none =
        ap (λ (g : Hub env). env.engine_set.find g.engines its_connector.id) welcomed-waits
        ∙ fresh_engines (at_time env asked h) Names-asked in
      let found : get_engine e.queue_name h' ≡ some its_connector =
        Reach-beat interval t0 t1 t2 t3 next_id r₂ its_connector now toc waits unused
          (subst (λ n. contains m'.responses n ≡ true) its heard.0)
          (ap (λ s. contains s e.heart_name) heard.1 ∙ silent) in
      let there : env.engine_set.find h'.engines its_connector.id ≡ some its_connector =
        (env.engine_set.find_by-sound (λ x. x.queue) h'.engines e.queue_name its_connector
          found).1 in
      let told =
        ((Reach-Account interval t0 t1 t2 t3 next_id r₃).admissions its_connector.id its_connector
          there).2 in
      (
        m',
        echo-eq to_iso_string heart ping m,
        (
          (its_connector, found, refl),
          (
            replied hello "registration_request" (text "ACK"),
            told,
            ("registration_request", text "ACK", refl),
            refl,
          ),
        ),
      )
