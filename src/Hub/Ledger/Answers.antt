-- ===== src/Hub/Ledger/Answers.antt =====
-- What a client is told of results was reported.
use Prim.Native.String.{◌++◌ as append}
use gpf.Prelude.{
  subst, ℕ, String, Bool, ◌≡◌, refl, ap, List, [], ◌∷◌, ◌++◌, ◌⊎◌, inl, inr, Option-cases, arith,
  if◌then◌else◌,
}
use gpf.Prelude.Lists.{All, length, length-append}
use gpf.Monitor.{new}
use gpf.Hub.Messages.{TaskResult, GetResultsReply, pending}
use gpf.Hub.State.{Env, Hub, Task, Sent, replied, results, text, with_message-keeps}
use gpf.Hub.Queries.{get_results, gather, Gathered, unknown, gathered, result_of}
use gpf.Hub.System.{System, create, Reach}
use gpf.Hub.Ledger.{
  Ledger, Requested, requested, Reported, reported, CompletedAt, never, completed_at,
}
use gpf.Hub.Ledger.Reachable.{monitored_in, Reach-Ledger}

snoc-grows : {A : Type 0} (l : List A) (a : A) → l ≡ l ++ a ∷ [] → ⊥
snoc-grows l a e = omega (arith, ap length e, length-append l (a ∷ []))

snoc-last : {A : Type 0} (l : List A) (a b : A) → l ++ a ∷ [] ≡ l ++ b ∷ [] → a ≡ b
snoc-last [] a b e = cc
snoc-last (x ∷ l) a b e = snoc-last l a b (cc)

module _ (env : Env) (ms : List env.Incoming) where
  -- What a result says was reported: the message was requested, and it is pending or was completed.
  abbrev pub Grounded : TaskResult → Type 0
  Grounded r = Requested env ms r.msg_id × ((r.status ≡ pending) ⊎ Reported env ms r.msg_id)

  status-Grounded :
      (id : String) (t : Task env.Incoming)
      → CompletedAt env ms id t.completed
      → ((result_of id t).status ≡ pending) ⊎ Reported env ms id
  status-Grounded id t (never e) = inl (rw e refl)
  status-Grounded id t (completed_at i time m r e) = inr (reported i time m r)

  abbrev AllGrounded : Gathered → Type 0
  AllGrounded (unknown id) = Unit
  AllGrounded (gathered rs bufs) = All Grounded rs

  grown :
      (status_only : Bool) (id : String) (t : Task env.Incoming) (rest : Gathered)
      → Grounded (result_of id t)
      → AllGrounded rest
      → AllGrounded (elim rest [
        | unknown j ↦ unknown j
        | gathered rs bufs ↦
            gathered (result_of id t ∷ rs) (if status_only then bufs else t.result_content ∷ bufs)
      ])
  grown status_only id t (unknown j) g a = tt
  grown status_only id t (gathered rs bufs) g a = (g, a)

  gather-Grounded :
      (status_only : Bool) (h : Hub env) (ids : List String)
      → Ledger env ms h
      → AllGrounded (gather env status_only h.tasks ids)
  unfolding gather
  gather-Grounded status_only h [] v = tt
  gather-Grounded status_only h (id ∷ ids) v = elim (Option-cases (env.task_set.find h.tasks id)) [
    | inl e ↦ rw (gather, e) tt
    | inr (t, e) ↦
        let r = v.records id t e in
        rw (gather, e)
          (grown status_only id t (gather env status_only h.tasks ids)
            (requested t.incoming_msg r.came r.request, status-Grounded id t r.completion)
            (gather-Grounded status_only h ids v))
  ]

  -- What `get_results` makes of what it has gathered.
  told :
      (incoming : env.Incoming) (reply : GetResultsReply) (bufs : List String) (g : Gathered)
      → AllGrounded g
      → ◌≡◌ {A = Sent env.Incoming}
          (elim g [
            | unknown id ↦
                replied incoming "get_results_reply" (text (append "Unknown message id " id))
            | gathered rs bs ↦ replied incoming "load_reply" (results (record { results = rs }) bs)
          ])
          (replied incoming "load_reply" (results reply bufs))
      → All Grounded reply.results
  told incoming reply bufs (unknown id) a e = cc
  told incoming reply bufs (gathered rs bs) a e =
      let same : ◌≡◌ {A = GetResultsReply} (record { results = rs }) reply = cc in
      subst (λ (x : GetResultsReply). All Grounded x.results) same a

  sends-Grounded :
      (incoming : env.Incoming) (h : Hub env) (reply : GetResultsReply) (bufs : List String)
      → Ledger env ms h
      → (get_results incoming h).1.sent
        ≡ h.sent ++ replied incoming "load_reply" (results reply bufs) ∷ []
      → All Grounded reply.results
  unfolding get_results
  sends-Grounded incoming h reply bufs v =
      with_message-keeps
        (λ (h' : Hub env).
          h'.sent ≡ h.sent ++ replied incoming "load_reply" (results reply bufs) ∷ []
          → All Grounded reply.results)
        env.parse_get_results_request incoming h _ (λ e. absurd (snoc-grows _ _ e))
        λ msg e.
          told incoming reply bufs (gather env msg.status_only h.tasks msg.msg_ids)
            (gather-Grounded msg.status_only h msg.msg_ids v) (snoc-last h.sent _ _ e)

module _ {env : Env} {to_iso_string : ℕ → String} (interval t0 t1 t2 t3 next_id : ℕ) where
  -- In every state that a hub with a new heart monitor reaches: if `get_results` answers a message with
  -- results, then a request under each of their ids has come on the monitor socket, and each of them is
  -- pending or a result under its id has come there.
  pub get_results-Grounded :
      {t : System env}
      (r : Reach env to_iso_string (create env (new interval t0 t1 t2 t3) next_id) t)
      (incoming : env.Incoming) (reply : GetResultsReply) (bufs : List String)
      → (get_results incoming t.1).1.sent
        ≡ t.1.sent ++ replied incoming "load_reply" (results reply bufs) ∷ []
      → All (Grounded env (monitored_in r)) reply.results
  get_results-Grounded {t} r incoming reply bufs =
      sends-Grounded env (monitored_in r) incoming t.1 reply bufs
        (Reach-Ledger interval t0 t1 t2 t3 next_id r)
