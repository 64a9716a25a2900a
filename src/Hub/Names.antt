-- ===== src/Hub/Names.antt =====
-- The engines' names: no two registrations share a queue or a heart, and ids are never used twice.
pub mod Registration
pub mod Tasks
pub mod Queries
pub mod Reachable
use Prim.Native.Nat.{◌<◌}
use gpf.Prelude.{
  ℕ, suc, List, [], ◌≡◌, refl, Option, none, some, ℤ, pos, negsuc, int_eq, arith, Option-cases, inl,
  inr,
}
use gpf.Table.Separate.{
  Registry, Registry-empty, Registry-erase, Registry-drop, Registry-wait, Registry-admit,
}
use gpf.Hub.State.{Env, Hub, EngineConnector}

abbrev pub Below : ℕ → ℤ → Type 0
Below n (pos k) = k < n
Below n (negsuc k) = ⊥

pub Below-suc : (n : ℕ) (z : ℤ) → Below n z → Below (suc n) z
Below-suc n z b = ground arith

module _ (env : Env) where
  open env.engine_set use {Rows, find, insert, erase, find-insert, find-erase}

  -- Every id of the table was handed out by the counter.
  abbrev pub Issued : ℕ → Rows → Type 0
  Issued n t = (k : ℤ) (e : EngineConnector env.Incoming) → find t k ≡ some e → Below n k

  -- No engine of the table has a message, a task or a result on record.
  abbrev pub IsIdle : EngineConnector env.Incoming → Type 0
  IsIdle e = (e.queues ≡ []) × (e.tasks ≡ []) × (e.completed ≡ [])

  abbrev pub Idle : Rows → Type 0
  Idle t = (k : ℤ) (e : EngineConnector env.Incoming) → find t k ≡ some e → IsIdle e

  pub record NamesOf (engines incoming : Rows) (next_id : ℕ) : Type 0 where
    pub queues : Registry env.engine_set (λ e. e.queue) engines incoming
    pub hearts : Registry env.engine_set (λ e. e.heartbeat) engines incoming
    pub issued_engines : Issued next_id engines
    pub issued_incoming : Issued next_id incoming
    pub idle_engines : Idle engines
    pub idle_incoming : Idle incoming

  pub Issued-erase : (n : ℕ) (t : Rows) (i : ℤ) → Issued n t → Issued n (erase i t)
  Issued-erase n t i v k e p = v k e (ground (arith, find-erase i t k))

  pub Issued-insert :
      (n : ℕ) (t : Rows) (r : EngineConnector env.Incoming)
      → Below n r.id
      → Issued n t
      → Issued n (insert r t)
  Issued-insert n t r b v k e p = ground (arith, find-insert r t k, int_eq.beq_iff r.id k, v k e)

  pub Idle-erase : (t : Rows) (i : ℤ) → Idle t → Idle (erase i t)
  Idle-erase t i v k e p = v k e (ground (arith, find-erase i t k))

  pub Idle-insert :
      (t : Rows) (r : EngineConnector env.Incoming) → IsIdle r → Idle t → Idle (insert r t)
  Idle-insert t r b v k e p = ground (arith, find-insert r t k, int_eq.beq_iff r.id k, v k e)

  pub NamesOf-admit :
      (s t : Rows) (n : ℕ) (r : EngineConnector env.Incoming)
      → find t r.id ≡ some r
      → NamesOf s t n
      → NamesOf (insert r s) t n
  NamesOf-admit s t n r there v = record {
    queues = Registry-admit env.engine_set (λ e. e.queue) s t r there v.queues;
    hearts = Registry-admit env.engine_set (λ e. e.heartbeat) s t r there v.hearts;
    issued_engines = Issued-insert n s r (v.issued_incoming r.id r there) v.issued_engines;
    issued_incoming = v.issued_incoming;
    idle_engines = Idle-insert s r (v.idle_incoming r.id r there) v.idle_engines;
    idle_incoming = v.idle_incoming;
  }

  pub NamesOf-wait :
      (s t : Rows) (n : ℕ) (r : EngineConnector env.Incoming)
      → env.engine_set.find_by (λ e. e.queue) s r.queue ≡ none
      → env.engine_set.find_by (λ e. e.heartbeat) s r.heartbeat ≡ none
      → env.engine_set.find_by (λ e. e.queue) t r.queue ≡ none
      → env.engine_set.find_by (λ e. e.heartbeat) t r.heartbeat ≡ none
      → Below n r.id
      → IsIdle r
      → NamesOf s t n
      → NamesOf s (insert r t) n
  NamesOf-wait s t n r qs hs qt ht b idle v = record {
    queues = Registry-wait env.engine_set (λ e. e.queue) s t r qs qt v.queues;
    hearts = Registry-wait env.engine_set (λ e. e.heartbeat) s t r hs ht v.hearts;
    issued_engines = v.issued_engines;
    issued_incoming = Issued-insert n t r b v.issued_incoming;
    idle_engines = v.idle_engines;
    idle_incoming = Idle-insert t r idle v.idle_incoming;
  }

  pub NamesOf-erase : (s t : Rows) (n : ℕ) (i : ℤ) → NamesOf s t n → NamesOf (erase i s) t n
  NamesOf-erase s t n i v = record {
    queues = Registry-erase env.engine_set (λ e. e.queue) s t i v.queues;
    hearts = Registry-erase env.engine_set (λ e. e.heartbeat) s t i v.hearts;
    issued_engines = Issued-erase n s i v.issued_engines;
    issued_incoming = v.issued_incoming;
    idle_engines = Idle-erase s i v.idle_engines;
    idle_incoming = v.idle_incoming;
  }

  pub NamesOf-drop : (s t : Rows) (n : ℕ) (i : ℤ) → NamesOf s t n → NamesOf s (erase i t) n
  NamesOf-drop s t n i v = record {
    queues = Registry-drop env.engine_set (λ e. e.queue) s t i v.queues;
    hearts = Registry-drop env.engine_set (λ e. e.heartbeat) s t i v.hearts;
    issued_engines = v.issued_engines;
    issued_incoming = Issued-erase n t i v.issued_incoming;
    idle_engines = v.idle_engines;
    idle_incoming = Idle-erase t i v.idle_incoming;
  }

  pub NamesOf-count : (s t : Rows) (n : ℕ) → NamesOf s t n → NamesOf s t (suc n)
  NamesOf-count s t n v = record {
    queues = v.queues;
    hearts = v.hearts;
    issued_engines = λ k e p. Below-suc n k (v.issued_engines k e p);
    issued_incoming = λ k e p. Below-suc n k (v.issued_incoming k e p);
    idle_engines = v.idle_engines;
    idle_incoming = v.idle_incoming;
  }

  pub NamesOf-empty : (n : ℕ) → NamesOf env.engine_set.empty env.engine_set.empty n
  NamesOf-empty n = record {
    queues = Registry-empty env.engine_set (λ e. e.queue);
    hearts = Registry-empty env.engine_set (λ e. e.heartbeat);
    issued_engines = λ k e p. cc (env.engine_set.find-empty k);
    issued_incoming = λ k e p. cc (env.engine_set.find-empty k);
    idle_engines = λ k e p. cc (env.engine_set.find-empty k);
    idle_incoming = λ k e p. cc (env.engine_set.find-empty k);
  }

  abbrev pub Names : Hub env → Type 0
  Names h = NamesOf h.engines h.incoming_registrations h.next_id
