-- ===== src/Factory/Launch/Bound.antt =====
-- Which addresses a factory binds.
use gpf.Prelude.{
  ℕ, suc, ◌+◌, ◌^◌, true, ◌≡◌, ◌≢◌, refl, sym, ap, ◌∙◌, Option, some, ◌<◌, List, [], ◌∷◌, map, ℤ,
  pos, negsuc, arith,
}
use gpf.Prelude.Lists.{All, Member, first, later}
use gpf.Url.{Bytes, colon, slash, Parsed, parsed, failed, parse}
use gpf.Url.Split.{Without}
use gpf.Url.Parse.{bare}
use gpf.Url.RoundTrip.{parse-portless}
use gpf.Factory.{
  HubFactory, ClientInfo, EngineInfo, hub_factory, get, port_at, percent, set_ip, set_transport,
  update_monitor_url, client_info, engine_info,
}
use gpf.Factory.Valid.{
  Formats, Reads, address-parsed, iface-port, ready, at_port, client_info-eq, engine_info-eq,
}
use gpf.Factory.Launch.{
  bytes_eq, Socket, query, heart_pub, heart_router, notifier, monitor, inproc, monitor_name,
  inproc_monitor, binds,
}

bytes_eq_refl : (s : Bytes) → bytes_eq s s ≡ true
bytes_eq_refl [] = refl
bytes_eq_refl (b ∷ s) = ground (arith, bytes_eq_refl s)

abbrev port_of : Parsed → ℤ
port_of (failed e) = negsuc 1
port_of (parsed u) = u.port

module _ (tolower : ℕ → ℕ) (lexical_cast : Bytes → Option ℤ) (format_int : ℕ → Bytes)
    (format_port : Bytes → ℕ → Option Bytes) (formats : Formats format_int format_port)
    (digits : (n : ℕ) → Without slash (format_int n)) (reads : Reads lexical_cast format_int)
    (transport ip : Bytes) (plain : Without colon transport) (some_ip : ip ≢ [])
    (no_colon : Without colon ip) (no_slash : Without slash ip)
    (raw_transport : Without percent transport) (raw_ip : Without percent ip)
    (lower : Without slash (map tolower ip))
    (lower_monitor : Without slash (map tolower monitor_name)) where
  abbrev bound_port : ℕ → Bytes
  bound_port = at_port format_int format_port formats transport ip raw_transport raw_ip

  port_of-bound_port :
      (n : ℕ) → n < 2 ^ 31 → port_of (parse tolower lexical_cast (bound_port n)) ≡ pos n
  port_of-bound_port n small = ap port_of (
      address-parsed tolower lexical_cast format_int digits reads transport ip plain some_ip
        no_colon no_slash lower n small)

  ports_apart : (m n : ℕ) → m < 2 ^ 31 → n < 2 ^ 31 → m ≢ n → bound_port m ≢ bound_port n
  ports_apart m n low high other e = other (
      pos-inj (
        sym (port_of-bound_port m low)
        ∙ ap (λ s. port_of (parse tolower lexical_cast s)) e
        ∙ port_of-bound_port n high))
    where
      pos-inj : pos m ≡ pos n → m ≡ n
      pos-inj d = cc

  inproc-apart : (n : ℕ) → n < 2 ^ 31 → bound_port n ≢ inproc_monitor
  inproc-apart n small e = pos≢negsuc (
      sym (port_of-bound_port n small)
      ∙ ap (λ s. port_of (parse tolower lexical_cast s)) e
      ∙ ap port_of (
          parse-portless tolower lexical_cast inproc monitor_name
            (
              omega arith,
              (omega arith, (omega arith, (omega arith, (omega arith, (omega arith, tt))))),
            )
            (λ d. cc)
            (
              omega arith,
              (
                omega arith,
                (omega arith, (omega arith, (omega arith, (omega arith, (omega arith, tt))))),
              ),
            )
            (
              omega arith,
              (
                omega arith,
                (omega arith, (omega arith, (omega arith, (omega arith, (omega arith, tt))))),
              ),
            )
            bare lower_monitor tt tt))
    where
      pos≢negsuc : pos n ≡ negsuc 0 → ⊥
      pos≢negsuc d = cc

  abbrev given : ℕ → HubFactory
  given = ready format_int format_port formats transport ip raw_transport raw_ip

  binds-eq :
      (p : ℕ)
      → p + 12 < 2 ^ 31
      → binds format_port (given p)
        ≡ some (
            (query, bound_port (given p).reg_port)
            ∷ (heart_pub, bound_port p)
            ∷ (heart_router, bound_port (suc p))
            ∷ (notifier, bound_port (given p).notifier_port)
            ∷ (monitor, bound_port (given p).mon_port)
            ∷ (monitor, inproc_monitor)
            ∷ [])
  unfolding binds set_ip set_transport update_monitor_url hub_factory get port_at
  binds-eq p small =
      let url = iface-port format_int format_port formats transport ip raw_transport raw_ip in
      rw
        (
          url (given p).reg_port (omega (arith, small)),
          bytes_eq_refl ip,
          url p (omega (arith, small)),
          url (suc p) (omega (arith, small)),
          url (given p).notifier_port (omega (arith, small)),
        )
        refl

  abbrev addresses : ℕ → List Bytes
  addresses p =
      bound_port (given p).reg_port
      ∷ bound_port p
      ∷ bound_port (suc p)
      ∷ bound_port (given p).notifier_port
      ∷ bound_port (given p).mon_port
      ∷ inproc_monitor
      ∷ []

  not_bound :
      (p n : ℕ) → p + 12 < 2 ^ 31 → suc p < n → n < p + 10 → ¬ Member (bound_port n) (addresses p)
  unfolding set_ip set_transport update_monitor_url hub_factory get port_at
  not_bound p n small low high (first e) =
      ports_apart _ _ (omega (arith, small, high)) (omega (arith, small)) (omega (arith, high)) e
  not_bound p n small low high (later (first e)) =
      ports_apart _ _ (omega (arith, small, high)) (omega (arith, small)) (omega (arith, low)) e
  not_bound p n small low high (later (later (first e))) =
      ports_apart _ _ (omega (arith, small, high)) (omega (arith, small)) (omega (arith, low)) e
  not_bound p n small low high (later (later (later (first e)))) =
      ports_apart _ _ (omega (arith, small, high)) (omega (arith, small)) (omega (arith, high)) e
  not_bound p n small low high (later (later (later (later (first e))))) =
      ports_apart _ _ (omega (arith, small, high)) (omega (arith, small)) (omega (arith, high)) e
  not_bound p n small low high (later (later (later (later (later (first e)))))) =
      inproc-apart n (omega (arith, small, high)) e
  not_bound p n small low high (later (later (later (later (later (later d)))))) = elim d [ ]

  -- A factory that was given a transport without a colon and an address that is not empty and has no
  -- colon and no slash, nor one in lower case, neither of them with a `%`, and a first port of which the
  -- twelve that follow are in the range of an `int`: it makes both infos and binds its sockets, without an
  -- exception. Of the addresses that it hands to engines and clients, those for registration, for
  -- notification and for the heartbeat are bound. No socket is bound to those of the queues: multiplexed
  -- work, tasks, control and output. Conditions: what `boost::format` does with a text without `%` that is
  -- followed by `%i`; a port is printed without a slash; the conversion reads what was printed of an
  -- `int`; and `monitor` has no slash in lower case.
  pub advertised-bound :
      (startport : ℕ)
      → startport + 12 < 2 ^ 31
      → let f = set_ip format_int ip (set_transport format_int transport (hub_factory startport)) in
        (ci : ClientInfo) × (ei : EngineInfo) × (bs : List (Socket × Bytes)) × (client_info
            format_port f
          ≡ some ci)
        × (engine_info format_port f ≡ some ei)
        × (binds format_port f ≡ some bs)
        × All
            (λ a. Member a (map (λ (b : Socket × Bytes). b.1) bs))
            (ci.hub_registration ∷ ei.hub_registration ∷ ci.notification ∷ ei.heartbeat0
              ∷ ei.heartbeat1 ∷ [])
        × All
            (λ a. ¬ Member a (map (λ (b : Socket × Bytes). b.1) bs))
            (ci.mux ∷ ei.mux ∷ ci.task ∷ ei.task ∷ ci.control ∷ ei.control ∷ ci.iopub ∷ ei.iopub
              ∷ [])
  unfolding set_ip set_transport update_monitor_url hub_factory get port_at
  advertised-bound p small =
      let apart = λ (n : ℕ) (low : suc p < n) (high : n < p + 10). not_bound p n small low high in
      (
        _,
        _,
        _,
        client_info-eq format_int format_port formats transport ip raw_transport raw_ip p small,
        engine_info-eq format_int format_port formats transport ip raw_transport raw_ip p small,
        binds-eq p small,
        (
          first refl,
          (
            first refl,
            (
              later (later (later (first refl))),
              (later (first refl), (later (later (first refl)), tt)),
            ),
          ),
        ),
        (
          apart _ (omega arith) (omega arith),
          (
            apart _ (omega arith) (omega arith),
            (
              apart _ (omega arith) (omega arith),
              (
                apart _ (omega arith) (omega arith),
                (
                  apart _ (omega arith) (omega arith),
                  (
                    apart _ (omega arith) (omega arith),
                    (
                      apart _ (omega arith) (omega arith),
                      (apart _ (omega arith) (omega arith), tt),
                    ),
                  ),
                ),
              ),
            ),
          ),
        ),
      )
