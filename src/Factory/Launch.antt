-- ===== src/Factory/Launch.antt =====
-- gpf/controller/hub_factory.cpp: the method `get`, which binds the sockets, makes the heart monitor and
-- makes the hub. ZeroMQ's `bind` and `connect` are logged with their addresses.
pub mod Bound
use gpf.Prelude.{
  [], ℕ, Bool, true, false, Option, some, none, List, ◌∷◌, ◌++◌, nat_eq, ◌&&◌, if◌then◌else◌,
}
use gpf.Url.{Bytes}
use gpf.Factory.{
  HubFactory, ClientInfo, EngineInfo, client_info, engine_info, iface, port_at, ◌>>=◌,
}
use gpf.Hub.State.{Env}
use gpf.Hub.System.{System, create}
use gpf.Monitor.{new}

abbrev pub bytes_eq : Bytes → Bytes → Bool
bytes_eq [] [] = true
bytes_eq [] (b ∷ t) = false
bytes_eq (a ∷ s) [] = false
bytes_eq (a ∷ s) (b ∷ t) = nat_eq a b && bytes_eq s t

-- The sockets: `q`, `hpub`, `hrep`, `n` and `sub`.
pub data Socket : Type 0 where
  query heart_pub heart_router notifier monitor : Socket

-- `inproc://monitor`
abbrev pub inproc : Bytes
inproc = 105 ∷ 110 ∷ 112 ∷ 114 ∷ 111 ∷ 99 ∷ []

abbrev pub monitor_name : Bytes
monitor_name = 109 ∷ 111 ∷ 110 ∷ 105 ∷ 116 ∷ 111 ∷ 114 ∷ []

abbrev pub inproc_monitor : Bytes
inproc_monitor = (inproc ++ (58 ∷ 47 ∷ 47 ∷ [])) ++ monitor_name

-- What `get` leaves: the addresses that were bound, in order, that which the resubmission socket is
-- connected to, and the hub with its heart monitor and the infos that it was given.
pub record Launched (env : Env) : Type 0 where
  pub bound : List (Socket × Bytes)
  pub resubmit : Bytes
  pub system : System env
  pub ci : ClientInfo
  pub ei : EngineInfo

module _ (format_port : Bytes → ℕ → Option Bytes) where
  -- An exception closes what was bound before it.
  unfoldable pub binds : HubFactory → Option (List (Socket × Bytes))
  unfolding iface port_at
  binds f =
      let client_url : ℕ → Option Bytes = format_port (iface f.client_transport f.client_ip) in
      let engine_url : ℕ → Option Bytes = format_port (iface f.engine_transport f.engine_ip) in
      do
        clients ← client_url f.reg_port
        engines ←
            (if bytes_eq f.client_ip f.engine_ip
              then some []
              else (engine_url f.reg_port >>= λ a. some ((query, a) ∷ [])))
        pub_url ← engine_url (port_at 0 f.hb_ports)
        router_url ← engine_url (port_at 1 f.hb_ports)
        notifier_url ← client_url f.notifier_port
        some (
            (query, clients)
            ∷ (engines
                ++ ((heart_pub, pub_url)
                    ∷ (heart_router, router_url)
                    ∷ (notifier, notifier_url)
                    ∷ (monitor, f.monitor_url)
                    ∷ (monitor, inproc_monitor)
                    ∷ [])))

  -- The clock readings of the heart monitor's constructor are `t0` to `t3`; the counter of engine ids
  -- stands at `next_id`. `none` is an exception of `boost::format`.
  unfoldable pub launch : (env : Env) → ℕ → ℕ → ℕ → ℕ → ℕ → HubFactory → Option (Launched env)
  unfolding binds client_info engine_info new create
  launch env t0 t1 t2 t3 next_id f = do
    bound ← binds f
    ci ← client_info format_port f
    ei ← engine_info format_port f
    some (record {
      bound = bound;
      resubmit = ci.task;
      system = create env (new f.interval t0 t1 t2 t3) next_id;
      ci = ci;
      ei = ei;
    })
