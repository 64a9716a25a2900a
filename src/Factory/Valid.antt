-- ===== src/Factory/Valid.antt =====
-- The addresses of a factory pass the checks of the hub's constructor.
use gpf.Prelude.{
  ℕ, ◌+◌, ◌^◌, ◌<◌, true, ◌≡◌, ◌≢◌, refl, sym, ap, ◌∙◌, Option, some, List, [], ◌∷◌, ◌++◌, map, ℤ,
  pos, arith,
}
use mathlib.Core.List.{append-nil, append_assoc}
use gpf.Prelude.Lists.{All}
use gpf.Url.{Bytes, colon, slash, prot_end, parse, parsed, validate_url}
use gpf.Url.Split.{Without}
use gpf.Url.Parse.{bare, url_of}
use gpf.Url.RoundTrip.{parse-with_port}
use gpf.Factory.{
  HubFactory, hub_factory, get, address, iface, percent, percent_i, set_ip, set_transport,
  update_monitor_url, ClientInfo, EngineInfo, client_info, engine_info, port_at,
}

-- The addresses that the constructor of the hub checks.
abbrev pub checked_urls : ClientInfo → EngineInfo → List Bytes
checked_urls ci ei =
    ci.hub_registration ∷ ci.control ∷ ci.mux ∷ ci.task ∷ ci.iopub ∷ ci.notification
    ∷ ei.hub_registration ∷ ei.control ∷ ei.mux ∷ ei.task ∷ ei.iopub ∷ ei.heartbeat0 ∷ ei.heartbeat1
    ∷ []

Without-append : (c : ℕ) (s t : Bytes) → Without c s → Without c t → Without c (s ++ t)
Without-append c [] t v w = w
Without-append c (b ∷ s) t v w = (v.0, Without-append c s t v.1 w)

-- What the code relies on in `boost::format`: in a text without `%`, followed by `%i`, the number is put
-- for the latter, as `format_int` prints it. The numbers are those of an `int`.
abbrev pub Formats : (ℕ → Bytes) → (Bytes → ℕ → Option Bytes) → Type 0
Formats format_int format_port =
    (text : Bytes) (n : ℕ)
    → Without percent text
    → n < 2 ^ 31
    → format_port (text ++ percent_i) n ≡ some (text ++ format_int n)

-- The conversion to `int` reads what was printed of an `int`.
abbrev pub Reads : (Bytes → Option ℤ) → (ℕ → Bytes) → Type 0
Reads lexical_cast format_int = (n : ℕ) → n < 2 ^ 31 → lexical_cast (format_int n) ≡ some (pos n)

module _ (format_int : ℕ → Bytes) (format_port : Bytes → ℕ → Option Bytes)
    (formats : Formats format_int format_port) (transport ip : Bytes)
    (raw_transport : Without percent transport) (raw_ip : Without percent ip) where
  pub iface-port :
      (n : ℕ)
      → n < 2 ^ 31
      → format_port (iface transport ip) n ≡ some (address format_int transport ip n)
  unfolding iface address
  iface-port n small =
      let text : Bytes = (transport ++ prot_end) ++ (ip ++ colon ∷ []) in
      let raw : Without percent text =
        Without-append percent (transport ++ prot_end) (ip ++ colon ∷ [])
          (Without-append percent transport prot_end raw_transport
            (omega arith, (omega arith, (omega arith, tt))))
          (Without-append percent ip (colon ∷ []) raw_ip (omega arith, tt)) in
      formats text n raw small
      ∙ ap some (
          append_assoc (transport ++ prot_end) (ip ++ colon ∷ []) (format_int n)
          ∙ ap (λ s. (transport ++ prot_end) ++ s) (append_assoc ip (colon ∷ []) (format_int n)))

  -- The factory with this transport and address.
  abbrev pub ready : ℕ → HubFactory
  ready startport =
      set_ip format_int ip (set_transport format_int transport (hub_factory startport))

  abbrev pub at_port : ℕ → Bytes
  at_port = address format_int transport ip

  -- The infos that it gives.
  pub client_info-eq :
      (p : ℕ)
      → p + 12 < 2 ^ 31
      → client_info format_port (ready p)
        ≡ some (record {
          hub_registration = at_port (ready p).reg_port;
          control = at_port (port_at 0 (ready p).control_ports);
          mux = at_port (port_at 0 (ready p).mux_ports);
          task = at_port (port_at 0 (ready p).task_ports);
          task_scheme = 100 ∷ 101 ∷ 102 ∷ 97 ∷ 117 ∷ 108 ∷ 116 ∷ [];
          iopub = at_port (port_at 0 (ready p).iopub_ports);
          notification = at_port (ready p).notifier_port;
        })
  unfolding client_info set_ip set_transport update_monitor_url hub_factory get port_at
  client_info-eq p small =
      rw
        (
          iface-port (ready p).reg_port (omega (arith, small)),
          iface-port (port_at 0 (ready p).control_ports) (omega (arith, small)),
          iface-port (port_at 0 (ready p).mux_ports) (omega (arith, small)),
          iface-port (port_at 0 (ready p).iopub_ports) (omega (arith, small)),
          iface-port (ready p).notifier_port (omega (arith, small)),
          iface-port (port_at 0 (ready p).task_ports) (omega (arith, small)),
        )
        refl

  pub engine_info-eq :
      (p : ℕ)
      → p + 12 < 2 ^ 31
      → engine_info format_port (ready p)
        ≡ some (record {
          hub_registration = at_port (ready p).reg_port;
          control = at_port (port_at 1 (ready p).control_ports);
          mux = at_port (port_at 1 (ready p).mux_ports);
          task = at_port (port_at 1 (ready p).task_ports);
          iopub = at_port (port_at 1 (ready p).iopub_ports);
          heartbeat0 = at_port (port_at 0 (ready p).hb_ports);
          heartbeat1 = at_port (port_at 1 (ready p).hb_ports);
        })
  unfolding engine_info set_ip set_transport update_monitor_url hub_factory get port_at
  engine_info-eq p small =
      rw
        (
          iface-port (ready p).reg_port (omega (arith, small)),
          iface-port (port_at 1 (ready p).control_ports) (omega (arith, small)),
          iface-port (port_at 1 (ready p).mux_ports) (omega (arith, small)),
          iface-port (port_at 1 (ready p).iopub_ports) (omega (arith, small)),
          iface-port (port_at 1 (ready p).task_ports) (omega (arith, small)),
          iface-port (port_at 0 (ready p).hb_ports) (omega (arith, small)),
          iface-port (port_at 1 (ready p).hb_ports) (omega (arith, small)),
        )
        refl

module _ (tolower : ℕ → ℕ) (lexical_cast : Bytes → Option ℤ) (format_int : ℕ → Bytes)
    (digits : (n : ℕ) → Without slash (format_int n)) (reads : Reads lexical_cast format_int)
    (transport ip : Bytes) (plain : Without colon transport) (some_ip : ip ≢ [])
    (no_colon : Without colon ip) (no_slash : Without slash ip)
    (lower : Without slash (map tolower ip)) where
  pub address-parsed :
      (n : ℕ)
      → n < 2 ^ 31
      → parse tolower lexical_cast (address format_int transport ip n)
        ≡ parsed (url_of tolower lexical_cast transport ip (pos n) bare)
  unfolding address
  address-parsed n small =
      ap (λ d. parse tolower lexical_cast ((transport ++ prot_end) ++ (ip ++ (colon ∷ d))))
        (sym (append-nil (format_int n)))
      ∙ parse-with_port tolower lexical_cast transport ip plain some_ip no_colon no_slash
          (format_int n) (pos n) bare lower (digits n) (reads n small) tt

  address-valid :
      (n : ℕ)
      → n < 2 ^ 31
      → validate_url tolower lexical_cast (address format_int transport ip n) ≡ true
  unfolding validate_url
  address-valid n small = rw (validate_url, address-parsed n small) refl

  -- A factory that was given a transport without a colon and an address that is not empty and has no
  -- colon and no slash, nor one in lower case, neither of them with a `%`, and a first port of which the
  -- twelve that follow are in the range of an `int`: it makes both infos, without an exception, and all
  -- their addresses pass the checks of the hub's constructor. Conditions: what `boost::format` does with a
  -- text without `%` that is followed by `%i`; a port is printed without a slash; and the conversion reads
  -- what was printed of an `int`.
  pub checked_urls-valid :
      (format_port : Bytes → ℕ → Option Bytes)
      → Formats format_int format_port
      → Without percent transport
      → Without percent ip
      → (start : ℕ) → start + 12 < 2 ^ 31
      → let f = set_ip format_int ip (set_transport format_int transport (hub_factory start)) in
        (ci : ClientInfo) × (ei : EngineInfo) × (client_info format_port f ≡ some ci)
        × (engine_info format_port f ≡ some ei)
        × All (λ u. validate_url tolower lexical_cast u ≡ true) (checked_urls ci ei)
  unfolding set_ip set_transport update_monitor_url hub_factory get port_at
  checked_urls-valid format_port formats raw_transport raw_ip start small = (
    _,
    _,
    client_info-eq format_int format_port formats transport ip raw_transport raw_ip start small,
    engine_info-eq format_int format_port formats transport ip raw_transport raw_ip start small,
    (
      address-valid _ (omega (arith, small)),
      (
        address-valid _ (omega (arith, small)),
        (
          address-valid _ (omega (arith, small)),
          (
            address-valid _ (omega (arith, small)),
            (
              address-valid _ (omega (arith, small)),
              (
                address-valid _ (omega (arith, small)),
                (
                  address-valid _ (omega (arith, small)),
                  (
                    address-valid _ (omega (arith, small)),
                    (
                      address-valid _ (omega (arith, small)),
                      (
                        address-valid _ (omega (arith, small)),
                        (
                          address-valid _ (omega (arith, small)),
                          (
                            address-valid _ (omega (arith, small)),
                            (address-valid _ (omega (arith, small)), tt),
                          ),
                        ),
                      ),
                    ),
                  ),
                ),
              ),
            ),
          ),
        ),
      ),
    ),
  )
