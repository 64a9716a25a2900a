-- ===== src/Hub/Ledger.antt =====
-- Where the hub's knowledge of tasks comes from: the reports on its monitor socket behind each pending
-- and each completed message, and behind each record.
pub mod Reports
pub mod Clients
pub mod Reachable
pub mod Answers
use gpf.Prelude.{
  String, Bool, true, false, ◌≡◌, refl, subst, Option, none, some, List, [], ◌∷◌, ◌||◌, ◌==◌, ◌⊎◌,
  inl, inr, string_eq, arith, eq_iff, Bool-cases,
}
use gpf.Prelude.Lists.{Member, later}
use gpf.StringSet.{StringSet, contains, insert, erase, contains-insert, contains-erase}
use gpf.Hub.Messages.{In, Out, InTask, OutTask}
use gpf.Hub.State.{Env, Hub, Task, Ptime, not_a_date_time}

module _ (env : Env) where
  open env.task_set use {Rows, find, find-insert, find-erase, find-replace}

  -- The message reports a request under the id.
  pub data Requests (i : env.Incoming) (id : String) : Type 0 where
    by_in :
        (bytes : String) (m : In)
        → env.topic i ≡ some "in"
        → env.header i ≡ some bytes
        → env.parse_in bytes ≡ some m
        → m.msg_id ≡ id
        → Requests i id
    by_intask :
        (bytes : String) (m : InTask)
        → env.topic i ≡ some "intask"
        → env.header i ≡ some bytes
        → env.parse_intask bytes ≡ some m
        → m.msg_id ≡ id
        → Requests i id

  -- The message reports a result under the id, and `time` is the text of when it was completed.
  pub data Results (i : env.Incoming) (id time : String) : Type 0 where
    by_out :
        (bytes : String) (m : Out)
        → env.topic i ≡ some "out"
        → env.header i ≡ some bytes
        → env.parse_out bytes ≡ some m
        → m.msg_id ≡ id
        → m.completed ≡ time
        → Results i id time
    by_outtask :
        (bytes : String) (m : OutTask)
        → env.topic i ≡ some "outtask"
        → env.header i ≡ some bytes
        → env.parse_outtask bytes ≡ some m
        → m.msg_id ≡ id
        → m.completed ≡ time
        → Results i id time

  -- One of the messages reports a request, or a result, under the id.
  pub data Requested (ms : List env.Incoming) (id : String) : Type 0 where
    requested : (i : env.Incoming) → Member i ms → Requests i id → Requested ms id

  pub data Reported (ms : List env.Incoming) (id : String) : Type 0 where
    reported : (i : env.Incoming) (time : String) → Member i ms → Results i id time → Reported ms id

  -- One of the messages reports when the id was completed.
  pub data CompletedAt (ms : List env.Incoming) (id : String) (t : Ptime) : Type 0 where
    never : t ≡ not_a_date_time → CompletedAt ms id t
    completed_at :
        (i : env.Incoming) (time : String)
        → Member i ms
        → Results i id time
        → env.from_iso_string time ≡ some t
        → CompletedAt ms id t

  -- The record keeps the message that requested it, and has been completed when one of them says so.
  pub record Recorded (ms : List env.Incoming) (id : String) (task : Task env.Incoming)
      : Type 0 where
    pub came : Member task.incoming_msg ms
    pub request : Requests task.incoming_msg id
    pub completion : CompletedAt ms id task.completed

  pub record LedgerOf (ms : List env.Incoming) (tasks : Rows) (pending all_completed : StringSet)
      : Type 0 where
    pub records : (id : String) (t : Task env.Incoming) → find tasks id ≡ some t → Recorded ms id t
    pub waiting : (id : String) → contains pending id ≡ true → Requested ms id
    pub requests : (id : String) → contains all_completed id ≡ true → Requested ms id
    pub results : (id : String) → contains all_completed id ≡ true → Reported ms id

  abbrev pub Ledger : List env.Incoming → Hub env → Type 0
  Ledger ms h = LedgerOf ms h.tasks h.pending h.all_completed

  -- One more message has come.
  pub LedgerOf-later :
      (i : env.Incoming) (ms : List env.Incoming) (tasks : Rows) (pending all_completed : StringSet)
      → LedgerOf ms tasks pending all_completed
      → LedgerOf (i ∷ ms) tasks pending all_completed
  LedgerOf-later i ms tasks pending all_completed v = record {
    records = λ id t e.
        let r = v.records id t e in
        record { came = later r.came; request = r.request; completion = completed r.completion };
    waiting = λ id e. requests (v.waiting id e);
    requests = λ id e. requests (v.requests id e);
    results = λ id e. results (v.results id e);
  }
    where
      requests : {id : String} → Requested ms id → Requested (i ∷ ms) id
      requests (requested j m r) = requested j (later m) r

      results : {id : String} → Reported ms id → Reported (i ∷ ms) id
      results (reported j time m r) = reported j time (later m) r

      completed : {id : String} {t : Ptime} → CompletedAt ms id t → CompletedAt (i ∷ ms) id t
      completed (never e) = never e
      completed (completed_at j time m r e) = completed_at j time (later m) r e

  module _ (ms : List env.Incoming) (tasks : Rows) (pending all_completed : StringSet)
      (v : LedgerOf ms tasks pending all_completed) where
    pub LedgerOf-erase :
        (id : String) → LedgerOf ms (env.task_set.erase id tasks) pending all_completed
    LedgerOf-erase id = record {
      records = λ k t e. v.records k t (ground (arith, find-erase id tasks k, e));
      waiting = v.waiting;
      requests = v.requests;
      results = v.results;
    }

    pub LedgerOf-clear : LedgerOf ms env.task_set.empty pending all_completed
    LedgerOf-clear = record {
      records = λ k t e. absurd (cc (env.task_set.find-empty k, e));
      waiting = v.waiting;
      requests = v.requests;
      results = v.results;
    }

    -- A row of a table in which one was written.
    written :
        (r : Task env.Incoming) (k : String) (t : Task env.Incoming)
        → find (env.task_set.replace r tasks) k ≡ some t
        → (find tasks k ≡ some t) ⊎ ((r.id ≡ k) × (r ≡ t))
    written r k t e = ground (arith, find-replace r tasks k, e, eq_iff r.id k)

    pub LedgerOf-replace :
        (r : Task env.Incoming)
        → Recorded ms r.id r
        → LedgerOf ms (env.task_set.replace r tasks) pending all_completed
    LedgerOf-replace r d = record {
      records = λ k t e. elim (written r k t e) [
        | inl old ↦ v.records k t old
        | inr (i, q) ↦ subst (Recorded ms k) q (subst (λ j. Recorded ms j r) i d)
      ];
      waiting = v.waiting;
      requests = v.requests;
      results = v.results;
    }

    added :
        (r : Task env.Incoming) (k : String) (t : Task env.Incoming)
        → find (env.task_set.insert r tasks) k ≡ some t
        → (find tasks k ≡ some t) ⊎ ((r.id ≡ k) × (r ≡ t))
    added r k t e = ground (arith, find-insert r tasks k, e, eq_iff r.id k)

    inserted :
        (P : String → Type 0) (s : StringSet) (id k : String)
        → ((j : String) → contains s j ≡ true → P j)
        → P id
        → contains (insert id s) k ≡ true
        → P k
    inserted P s id k old new e = elim (Bool-cases (contains s k)) [
      | inl c ↦ old k c
      | inr c ↦ subst P ((eq_iff id k).0 (ground (arith, contains-insert id k s, e, c))) new
    ]

    -- A request is reported.
    pub LedgerOf-request :
        (r : Task env.Incoming)
        → Recorded ms r.id r
        → LedgerOf ms (env.task_set.insert r tasks) (insert r.id pending) all_completed
    LedgerOf-request r d = record {
      records = λ k t e. elim (added r k t e) [
        | inl old ↦ v.records k t old
        | inr (i, q) ↦ subst (Recorded ms k) q (subst (λ j. Recorded ms j r) i d)
      ];
      waiting = λ k e.
          inserted (Requested ms) pending r.id k v.waiting
            (requested r.incoming_msg d.came d.request) e;
      requests = v.requests;
      results = v.results;
    }

    -- A result is reported of a pending message.
    pub LedgerOf-settle :
        (id : String)
        → contains pending id ≡ true
        → Reported ms id
        → LedgerOf ms tasks (erase id pending) (insert id all_completed)
    LedgerOf-settle id there d = record {
      records = v.records;
      waiting = λ k e. v.waiting k (ground (arith, contains-erase id k pending, e));
      requests =
          λ k e. inserted (Requested ms) all_completed id k v.requests (v.waiting id there) e;
      results = λ k e. inserted (Reported ms) all_completed id k v.results d e;
    }
