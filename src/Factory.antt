-- ===== src/Factory.antt =====
-- gpf/util/portpool.hpp and gpf/controller/hub_factory.{hpp,cpp}: the ports that the sockets of a hub
-- get, and the addresses that it gives to engines and clients. Ports are natural numbers. `format_int`
-- is what `%i` of `boost::format` prints of a number, and `format_port` is `boost::format` itself for a
-- text that is made when the program runs, with one number: `none` is its exception.
pub mod Ports
pub mod Valid
pub mod Launch
use gpf.Prelude.{
  ℕ, zero, suc, Bool, true, false, Option, none, some, List, [], ◌∷◌, ◌++◌, nat_eq, if◌then◌else◌,
}
use gpf.Url.{Bytes, colon, prot_end}

pub record Portpool : Type 0 where
  pub begin : ℕ
  pub end : ℕ

abbrev pub portpool : ℕ → Portpool
portpool start = record { begin = start; end = start }

-- `portpool::get`: the ports, and the pool afterwards.
unfoldable pub get : ℕ → Portpool → List ℕ × Portpool
get zero p = ([], p)
get (suc n) p = let (v, p') = get n (record p { end = suc p.end }) in (p.end ∷ v, p')

-- `v[i]`; no index of the factory is out of range.
unfoldable pub port_at : ℕ → List ℕ → ℕ
port_at i [] = 0
port_at zero (p ∷ v) = p
port_at (suc i) (p ∷ v) = port_at i v

pub record HubFactory : Type 0 where
  pub pool : Portpool
  pub interval : ℕ
  pub monitor_transport : Bytes
  pub monitor_ip : Bytes
  pub monitor_url : Bytes
  pub engine_transport : Bytes
  pub engine_ip : Bytes
  pub client_transport : Bytes
  pub client_ip : Bytes
  pub hb_ports : List ℕ
  pub mux_ports : List ℕ
  pub task_ports : List ℕ
  pub control_ports : List ℕ
  pub iopub_ports : List ℕ
  pub mon_port : ℕ
  pub notifier_port : ℕ
  pub reg_port : ℕ

-- The constructor.
unfoldable pub hub_factory : ℕ → HubFactory
unfolding get port_at
hub_factory startport =
    let (hb, p₁) = get 2 (portpool startport) in
    let (mux, p₂) = get 2 p₁ in
    let (task, p₃) = get 2 p₂ in
    let (control, p₄) = get 2 p₃ in
    let (iopub, p₅) = get 2 p₄ in
    let (mon, p₆) = get 1 p₅ in
    let (notifier, p₇) = get 1 p₆ in
    let (reg, p₈) = get 1 p₇ in
    record {
      pool = p₈;
      interval = 2000;
      monitor_transport = [];
      monitor_ip = [];
      monitor_url = [];
      engine_transport = [];
      engine_ip = [];
      client_transport = [];
      client_ip = [];
      hb_ports = hb;
      mux_ports = mux;
      task_ports = task;
      control_ports = control;
      iopub_ports = iopub;
      mon_port = port_at 0 mon;
      notifier_port = port_at 0 notifier;
      reg_port = port_at 0 reg;
    }

abbrev pub hm_interval : ℕ → HubFactory → HubFactory
hm_interval millisecs f = record f { interval = millisecs }

pub record ClientInfo : Type 0 where
  pub hub_registration : Bytes
  pub control : Bytes
  pub mux : Bytes
  pub task : Bytes
  pub task_scheme : Bytes
  pub iopub : Bytes
  pub notification : Bytes

pub record EngineInfo : Type 0 where
  pub hub_registration : Bytes
  pub control : Bytes
  pub mux : Bytes
  pub task : Bytes
  pub iopub : Bytes
  pub heartbeat0 : Bytes
  pub heartbeat1 : Bytes

-- What follows an exception is not done.
infixl 5 ◌>>=◌
abbrev pub ◌>>=◌ : {A B : Type 0} → Option A → (A → Option B) → Option B
none >>= f = none
some a >>= f = f a

abbrev pub percent : ℕ
percent = 37

-- `%i`
abbrev pub percent_i : Bytes
percent_i = percent ∷ 105 ∷ []

module _ (format_int : ℕ → Bytes) where
  -- `format("%s://%s:%i")` of `_update_monitor_url`
  unfoldable pub address : Bytes → Bytes → ℕ → Bytes
  address transport ip port = (transport ++ prot_end) ++ (ip ++ (colon ∷ format_int port))

  -- `_update_monitor_url`
  unfoldable pub update_monitor_url : HubFactory → HubFactory
  unfolding address
  update_monitor_url f = record f {
    monitor_url = address f.monitor_transport f.monitor_ip f.mon_port;
  }

  unfoldable pub set_ip : Bytes → HubFactory → HubFactory
  unfolding update_monitor_url
  set_ip ip f = update_monitor_url (record f { monitor_ip = ip; client_ip = ip; engine_ip = ip })

  unfoldable pub set_transport : Bytes → HubFactory → HubFactory
  unfolding update_monitor_url
  set_transport transport f = update_monitor_url (record f {
    monitor_transport = transport;
    client_transport = transport;
    engine_transport = transport;
  })

-- `str(format("%s://%s:") % transport % ip) + "%i"`
unfoldable pub iface : Bytes → Bytes → Bytes
iface transport ip = ((transport ++ prot_end) ++ (ip ++ colon ∷ [])) ++ percent_i

module _ (format_port : Bytes → ℕ → Option Bytes) where
  -- The two info structs that the method `get` builds, or an exception. The scheme is the text
  -- `default`.
  unfoldable pub client_info : HubFactory → Option ClientInfo
  unfolding iface port_at
  client_info f =
      let url : ℕ → Option Bytes = format_port (iface f.client_transport f.client_ip) in
      do
        hub_registration ← url f.reg_port
        control ← url (port_at 0 f.control_ports)
        mux ← url (port_at 0 f.mux_ports)
        iopub ← url (port_at 0 f.iopub_ports)
        notification ← url f.notifier_port
        task ← url (port_at 0 f.task_ports)
        some (record {
          hub_registration = hub_registration;
          control = control;
          mux = mux;
          task = task;
          task_scheme = 100 ∷ 101 ∷ 102 ∷ 97 ∷ 117 ∷ 108 ∷ 116 ∷ [];
          iopub = iopub;
          notification = notification;
        })

  unfoldable pub engine_info : HubFactory → Option EngineInfo
  unfolding iface port_at
  engine_info f =
      let url : ℕ → Option Bytes = format_port (iface f.engine_transport f.engine_ip) in
      do
        hub_registration ← url f.reg_port
        control ← url (port_at 1 f.control_ports)
        mux ← url (port_at 1 f.mux_ports)
        iopub ← url (port_at 1 f.iopub_ports)
        task ← url (port_at 1 f.task_ports)
        heartbeat0 ← url (port_at 0 f.hb_ports)
        heartbeat1 ← url (port_at 1 f.hb_ports)
        some (record {
          hub_registration = hub_registration;
          control = control;
          mux = mux;
          task = task;
          iopub = iopub;
          heartbeat0 = heartbeat0;
          heartbeat1 = heartbeat1;
        })
