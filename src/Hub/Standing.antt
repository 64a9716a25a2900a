-- ===== src/Hub/Standing.antt =====
-- How an engine stands with the hub: the specification of the life of one id, a machine with five moves,
-- and what the two tables of gpf/controller/hub.cpp have to do with it.
pub mod Handlers
pub mod Requests
pub mod Reachable
use gpf.Prelude.{
  ℕ, suc, ◌≡◌, refl, sym, ap, ◌∙◌, subst, Option, none, some, ℤ, pos, false, inl, inr, Bool-cases,
  Option-cases, int_eq, arith,
}
use gpf.Hub.State.{Env, Hub, EngineConnector}

module _ (env : Env) where
  open env.engine_set use {Rows, find, insert, erase, find-insert, find-erase}

  -- The counter of ids, and what the tables of waiting registrations and of engines have under an id.
  pub record Standing : Type 0 where
    pub next_id : ℕ
    pub waiting : Option (EngineConnector env.Incoming)
    pub engine : Option (EngineConnector env.Incoming)

  -- A move in the life of the id `k`.
  pub data Move (k : ℤ) (s t : Standing) : Type 0 where
    -- a request has taken another id, or came to nothing
    counts : t.next_id ≡ suc s.next_id → t.waiting ≡ s.waiting → t.engine ≡ s.engine → Move k s t
    -- a request has taken this id, which is the next one
    applies :
        (ec : EngineConnector env.Incoming)
        → k ≡ pos s.next_id
        → ec.id ≡ k
        → s.waiting ≡ none
        → t.next_id ≡ suc s.next_id
        → t.waiting ≡ some ec
        → t.engine ≡ s.engine
        → Move k s t
    -- what waits becomes an engine, and goes on waiting
    joins :
        (ec : EngineConnector env.Incoming)
        → s.waiting ≡ some ec
        → s.engine ≡ none
        → t.next_id ≡ s.next_id
        → t.waiting ≡ some ec
        → t.engine ≡ some ec
        → Move k s t
    -- what waits is dropped
    expires :
        (ec : EngineConnector env.Incoming)
        → s.waiting ≡ some ec
        → t.next_id ≡ s.next_id
        → t.waiting ≡ none
        → t.engine ≡ s.engine
        → Move k s t
    -- the engine is erased
    leaves :
        (ec : EngineConnector env.Incoming)
        → s.engine ≡ some ec
        → t.next_id ≡ s.next_id
        → t.waiting ≡ s.waiting
        → t.engine ≡ none
        → Move k s t

  pub data Moves (k : ℤ) (s : Standing) : Standing → Type 0 where
    stays : {t : Standing} → t ≡ s → Moves k s t
    moves : {u t : Standing} → Moves k s u → Move k u t → Moves k s t

  pub one : {k : ℤ} {s t : Standing} → Move k s t → Moves k s t
  one m = moves (stays refl) m

  pub Moves-trans : {k : ℤ} {s t u : Standing} → Moves k s t → Moves k t u → Moves k s u
  Moves-trans {k} {s} p (stays e) = subst (Moves k s) (sym e) p
  Moves-trans p (moves q m) = moves (Moves-trans p q) m

  abbrev pub standing : ℤ → ℕ → Rows → Rows → Standing
  standing k n incoming engines = record {
    next_id = n;
    waiting = find incoming k;
    engine = find engines k;
  }

  erased-none : (t : Rows) (j k : ℤ) → find t k ≡ none → find (erase j t) k ≡ find t k
  erased-none t j k e = ground (arith, find-erase j t k)

  erased-other : (t : Rows) (j k : ℤ) → int_eq.beq j k ≡ false → find (erase j t) k ≡ find t k
  erased-other t j k d = ground (arith, find-erase j t k)

  module _ (k : ℤ) (n : ℕ) (t s : Rows) where
    pub Moves-counts : Moves k (standing k n t s) (standing k (suc n) t s)
    Moves-counts = one (counts refl refl refl)

    pub Moves-applies :
        (ec : EngineConnector env.Incoming)
        → ec.id ≡ pos n
        → Moves k (standing k n t s) (standing k (suc n) (insert ec t) s)
    Moves-applies ec i = elim (Option-cases (find t k)) [
      | inr (old, e) ↦
          one (counts refl (ground (arith, find-insert ec t k, int_eq.beq_iff ec.id k)) refl)
      | inl e ↦ elim (Bool-cases (int_eq.beq ec.id k)) [
        | inl d ↦
            let same : ec.id ≡ k = (int_eq.beq_iff ec.id k).0 d in
            one (
              applies ec (cc) same e refl (ground (arith, find-insert ec t k, ap (find t) same))
                refl)
        | inr d ↦ one (counts refl (ground (arith, find-insert ec t k)) refl)
      ]
    ]

    pub Moves-joins :
        (ec : EngineConnector env.Incoming)
        → find t ec.id ≡ some ec
        → Moves k (standing k n t s) (standing k n t (insert ec s))
    Moves-joins ec there = elim (Bool-cases (int_eq.beq ec.id k)) [
      | inl d ↦
          let same : ec.id ≡ k = (int_eq.beq_iff ec.id k).0 d in
          elim (Option-cases (find s k)) [
            | inl e ↦
                let there' : find t k ≡ some ec = ap (find t) (sym same) ∙ there in
                one (
                  joins ec there' e refl there'
                    (ground (arith, find-insert ec s k, ap (find s) same)))
            | inr (old, e) ↦
                stays (
                  kept (find (insert ec s) k)
                    (ground (arith, find-insert ec s k, ap (find s) same)))
          ]
      | inr d ↦ stays (kept (find (insert ec s) k) (ground (arith, find-insert ec s k)))
    ]
      where
        kept :
            (o : Option (EngineConnector env.Incoming))
            → o ≡ find s k
            → ◌≡◌ {A = Standing}
                (record { next_id = n; waiting = find t k; engine = o })
                (standing k n t s)
        kept o e = λ i. record { next_id = n; waiting = find t k; engine = e i }

    pub Moves-expires : (j : ℤ) → Moves k (standing k n t s) (standing k n (erase j t) s)
    Moves-expires j = elim (Option-cases (find t k)) [
      | inl e ↦
          stays (λ i. record { next_id = n; waiting = (erased-none t j k e) i; engine = find s k })
      | inr (ec, e) ↦ elim (Bool-cases (int_eq.beq j k)) [
        | inl d ↦ one (expires ec e refl (rw (find-erase j t k, d) refl) refl)
        | inr d ↦
            stays
              (λ i. record { next_id = n; waiting = (erased-other t j k d) i; engine = find s k })
      ]
    ]

    pub Moves-leaves : (j : ℤ) → Moves k (standing k n t s) (standing k n t (erase j s))
    Moves-leaves j = elim (Option-cases (find s k)) [
      | inl e ↦
          stays (λ i. record { next_id = n; waiting = find t k; engine = (erased-none s j k e) i })
      | inr (ec, e) ↦ elim (Bool-cases (int_eq.beq j k)) [
        | inl d ↦ one (leaves ec e refl refl (rw (find-erase j s k, d) refl))
        | inr d ↦
            stays
              (λ i. record { next_id = n; waiting = find t k; engine = (erased-other s j k d) i })
      ]
    ]
