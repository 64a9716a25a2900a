-- ===== src/Hub/Queries/Purge.antt =====
-- What `purge_results` removes.
use Prim.Native.String.{◌++◌ as append}
use gpf.Prelude.{
  String, Bool, true, false, ◌||◌, ◌≡◌, refl, sym, ap, ◌∙◌, none, some, List, [], ◌∷◌, ◌++◌, ℤ,
  arith, inl, inr, Bool-cases, ◌==◌, int_beq, if◌then◌else◌,
}
use mathlib.Core.List.{append-nil}
use gpf.StringSet.{StringSet, contains}
use gpf.Hub.Messages.{PurgeResultsRequest}
use gpf.Hub.State.{Env, Hub, returned, replied, text, purged, send, with_message-eq}
use gpf.Hub.Queries.{purge_msg_ids, purge_eids, purge_reply, purge_selected, purge_results}
use gpf.Hub.Tasks.Tracking.{Tracked, TrackedBy-purge}

-- Whether one of the ids is in the set.
abbrev pub any_in : List String → StringSet → Bool
any_in [] p = false
any_in (id ∷ ids) p = contains p id || any_in ids p

-- Whether the list holds the id.
abbrev pub holds : List String → String → Bool
holds [] j = false
holds (id ∷ ids) j = id == j || holds ids j

abbrev pub holds_eid : List ℤ → ℤ → Bool
holds_eid [] j = false
holds_eid (eid ∷ eids) j = int_beq eid j || holds_eid eids j

module _ (env : Env) where
  -- The records without those of the ids.
  abbrev pub erase_all : List String → env.task_set.Rows → env.task_set.Rows
  erase_all [] t = t
  erase_all (id ∷ ids) t = erase_all ids (env.task_set.erase id t)

  -- The engines without those of the ids.
  abbrev pub erase_engines : List ℤ → env.engine_set.Rows → env.engine_set.Rows
  erase_engines [] t = t
  erase_engines (eid ∷ eids) t = erase_engines eids (env.engine_set.erase eid t)

  find-erase_all :
      (ids : List String) (t : env.task_set.Rows) (j : String)
      → env.task_set.find (erase_all ids t) j
        ≡ (if holds ids j then none else env.task_set.find t j)
  find-erase_all [] t j = refl
  find-erase_all (id ∷ ids) t j =
      ground (arith, find-erase_all ids (env.task_set.erase id t) j, env.task_set.find-erase id t j)

  find-erase_engines :
      (eids : List ℤ) (t : env.engine_set.Rows) (j : ℤ)
      → env.engine_set.find (erase_engines eids t) j
        ≡ (if holds_eid eids j then none else env.engine_set.find t j)
  find-erase_engines [] t j = refl
  find-erase_engines (eid ∷ eids) t j = ground (
    arith,
    find-erase_engines eids (env.engine_set.erase eid t) j,
    env.engine_set.find-erase eid t j,
  )

module _ {env : Env} (incoming : env.Incoming) where
  -- Ids that are not pending lose their records, up to one that is.
  purge_msg_ids-free :
      (ids : List String) (rest : List String) (h : Hub env)
      → any_in ids h.pending ≡ false
      → purge_msg_ids incoming (ids ++ rest) h
        ≡ purge_msg_ids incoming rest (record h { tasks = erase_all env ids h.tasks })
  unfolding purge_msg_ids
  purge_msg_ids-free [] rest h free = refl
  purge_msg_ids-free (id ∷ ids) rest h free = elim (Bool-cases (contains h.pending id)) [
    | inl e ↦ ground (arith, e, free)
    | inr e ↦ rw e (
        purge_msg_ids-free ids rest (record h { tasks = env.task_set.erase id h.tasks })
          (rw e at free))
  ]

  purge_eids-eq :
      (eids : List ℤ) (h : Hub env)
      → purge_eids eids h ≡ (record h { engines = erase_engines env eids h.engines })
  unfolding purge_eids
  purge_eids-eq [] h = refl
  purge_eids-eq (eid ∷ eids) h =
      purge_eids-eq eids (record h { engines = env.engine_set.erase eid h.engines })

  Tracked-purge_msg_ids :
      (ids : List String) (h : Hub env)
      → Tracked env h
      → Tracked env (purge_msg_ids incoming ids h).1
  unfolding purge_msg_ids
  Tracked-purge_msg_ids [] h v = v
  Tracked-purge_msg_ids (id ∷ ids) h v = elim (Bool-cases (contains h.pending id)) [
    | inl e ↦ rw e v
    | inr e ↦ rw e (
        Tracked-purge_msg_ids ids (record h { tasks = env.task_set.erase id h.tasks })
          (TrackedBy-purge env h.pending h.tasks id e v))
  ]

module _ {env : Env} (incoming : env.Incoming) (h : Hub env) (bytes : String)
    (m : PurgeResultsRequest) (frame : env.header incoming ≡ some bytes)
    (parsed : env.parse_purge_results_request bytes ≡ some m) (some_of : m.all ≡ false) where
  purge_results-free_eq :
      any_in m.msg_ids h.pending ≡ false
      → purge_results incoming h ≡ (
        returned,
        send (replied incoming "load_reply" (purged (record { ok = true }))) (record h {
          tasks = erase_all env m.msg_ids h.tasks;
          engines = erase_engines env m.eids h.engines;
        }),
      )
  unfolding purge_results purge_selected purge_reply purge_msg_ids
  purge_results-free_eq free =
      with_message-eq env.parse_purge_results_request incoming h _ bytes m frame parsed
      ∙ rw
          (
            some_of,
            ap (λ ids. purge_msg_ids incoming ids h) (sym (append-nil m.msg_ids))
                ∙ purge_msg_ids-free incoming m.msg_ids [] h free,
          )
          (ap
            (λ h'.
              (returned, send (replied incoming "load_reply" (purged (record { ok = true }))) h'))
            (purge_eids-eq incoming m.eids (record h { tasks = erase_all env m.msg_ids h.tasks })))

  -- A request to purge some results (not all), none of whose ids is pending, is answered by `ok`. The hub is
  -- then without the records of these ids, and also without the engines that the request lists: it is
  -- the engines that go. Nothing else has changed.
  pub purge_results-all_free :
      any_in m.msg_ids h.pending ≡ false
      → let r = purge_results incoming h in
        ((j : String)
          → env.task_set.find r.1.tasks j
            ≡ (if holds m.msg_ids j then none else env.task_set.find h.tasks j))
        × ((eid : ℤ)
            → env.engine_set.find r.1.engines eid
              ≡ (if holds_eid m.eids eid then none else env.engine_set.find h.engines eid))
        × (r ≡ (
          returned,
          send
              (replied incoming "load_reply" (purged (record { ok = true })))
              (record h { tasks = r.1.tasks; engines = r.1.engines }),
        ))
  purge_results-all_free free =
      rw (purge_results-free_eq free)
        (find-erase_all env m.msg_ids h.tasks, find-erase_engines env m.eids h.engines, refl)

  purge_results-pending_eq :
      (ids : List String) (id : String) (rest : List String)
      → m.msg_ids ≡ ids ++ id ∷ rest
      → any_in ids h.pending ≡ false
      → contains h.pending id ≡ true
      → purge_results incoming h ≡ (
        returned,
        send
            (replied incoming "purge_results_reply" (text (append "Error: Got pending msg_id " id)))
            (record h { tasks = erase_all env ids h.tasks }),
      )
  unfolding purge_results purge_selected purge_msg_ids
  purge_results-pending_eq ids id rest split free waits =
      with_message-eq env.parse_purge_results_request incoming h _ bytes m frame parsed
      ∙ rw (some_of, split, purge_msg_ids-free incoming ids (id ∷ rest) h free, waits) refl

  -- A request to purge some results (not all) stops at the first id that is pending, and is answered by an error
  -- that names it: the ids before it have lost their records, those behind it and the engines have not.
  pub purge_results-pending :
      (ids : List String) (id : String) (rest : List String)
      → m.msg_ids ≡ ids ++ id ∷ rest
      → any_in ids h.pending ≡ false
      → contains h.pending id ≡ true
      → let r = purge_results incoming h in
        ((j : String)
          → env.task_set.find r.1.tasks j
            ≡ (if holds ids j then none else env.task_set.find h.tasks j))
        × (r ≡ (
          returned,
          send
              (replied incoming "purge_results_reply"
                (text (append "Error: Got pending msg_id " id)))
              (record h { tasks = r.1.tasks }),
        ))
  purge_results-pending ids id rest split free waits =
      rw (purge_results-pending_eq ids id rest split free waits)
        (find-erase_all env ids h.tasks, refl)

  -- A request to purge some results (not all) leaves every pending message its record, if each had one.
  pub purge_results-Tracked : Tracked env h → Tracked env (purge_results incoming h).1
  unfolding purge_results purge_selected purge_reply
  purge_results-Tracked v =
      rw
        (with_message-eq env.parse_purge_results_request incoming h _ bytes m frame parsed, some_of)
        (elim (Bool-cases (purge_msg_ids incoming m.msg_ids h).0) [
          | inl e ↦
              rw (e, purge_eids-eq incoming m.eids (purge_msg_ids incoming m.msg_ids h).1)
                (Tracked-purge_msg_ids incoming m.msg_ids h v)
          | inr e ↦ rw e (Tracked-purge_msg_ids incoming m.msg_ids h v)
        ])
