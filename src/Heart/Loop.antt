-- ===== src/Heart/Loop.antt =====
-- The rest of `heart::operator()`, in gpf/controller/heartmonitor.cpp: the heart's loop. The pings that its
-- socket will receive, in order, and what the polls report are its input; the pongs are logged.
use gpf.Prelude.{
  ℕ, suc, ◌+◌, ℤ, String, true, false, ◌≡◌, ◌≢◌, refl, sym, ap, ◌∙◌, Option, none, some, List, [],
  ◌∷◌, ◌++◌, foldl, map, arith,
}
use mathlib.Core.List.{append_assoc, append-nil}
use gpf.Prelude.Lists.{length, take, drop}
use gpf.Timers.{DeadlineTimer}
use gpf.Url.{Bytes}
use gpf.Reactor.Loop.{Polled, Ended, stuck, run, internal_event}
use gpf.Reactor.Loop.Keeps.{Holds, Holds-map}
use gpf.Reactor.Loop.Single.{single, after, reads, call, world, run-single}
use gpf.Heart.{Heart, start, bumm}

-- What the heart has yet to receive, the heart, and the pongs that it has sent, oldest first.
abbrev pub Beating : Type 0
Beating = List (List String) × (Heart × List (List String))

-- `bumm` on a ping, in the loop: `operator()` holds the socket of the pongs until the loop has ended.
unfoldable pub answer : List String → Heart × List (List String) → Heart × List (List String)
unfolding bumm
answer ping (h, pongs) =
    let (h', pong) = bumm true ping h in
    (h', elim pong [ none ↦ pongs | some frames ↦ pongs ++ frames ∷ [] ])

-- The heart's loop has no timer.
abbrev no_timer : ⊥ → Beating → List (DeadlineTimer ⊥) × Beating
no_timer a s = elim a [ ]

-- `operator()`, with `sub` for the socket of the pings. As there is no timer, a fuel of 1 is enough.
-- An exception of ZeroMQ, on which the loop ends without more, is not among the reports of the polls.
unfoldable pub operate :
    (ℕ → ℕ)
    → (Bytes → Option ℤ)
    → String
    → ℕ
    → List (ℕ × Polled)
    → List (List String)
    → Heart
    → Option (Ended ⊥ Beating)
unfolding start run single answer
operate tolower lexical_cast uuid sub polls pings h = elim (start tolower lexical_cast uuid h) [
  | none ↦ none
  | some h' ↦
      some
        (run no_timer (call answer) 1 [] (single sub) polls (world answer (pings, (h', [])) false))
]

tally :
    (h : Heart) (m n : ℕ) (k l : List (List String))
    → m ≡ n
    → k ≡ l
    → ◌≡◌ {A = Heart × List (List String)} (record h { count = m }, k) (record h { count = n }, l)
tally h m n k l e d = λ i. (record h { count = e i }, d i)

-- The pings of a list are answered in turn.
foldl-answer :
    (pings : List (List String)) (h : Heart) (pongs : List (List String))
    → foldl (λ s ping. answer ping s) (h, pongs) pings
      ≡ (record h { count = h.count + length pings }, pongs ++ map (λ frames. h.id ∷ frames) pings)
unfolding answer bumm
foldl-answer [] h pongs =
    tally h h.count (h.count + 0) pongs (pongs ++ []) (omega arith) (sym (append-nil pongs))
foldl-answer (ping ∷ pings) h pongs =
    foldl-answer pings (record h { count = suc h.count }) (pongs ++ (h.id ∷ ping) ∷ [])
    ∙ tally h (suc h.count + length pings) (h.count + suc (length pings)) _ _ (omega arith)
        (append_assoc pongs ((h.id ∷ ping) ∷ []) _)

-- In a reactor whose own socket is another one than the heart's, whatever the polls report and whatever
-- pings come: if the heart gets to its loop, the loop is never stuck; and if it goes on or has stopped, the
-- heart has answered one ping for each event of its socket, in order, each by its name and the frames of
-- the ping, it has counted them, and nothing else of it has changed.
pub operate-answers :
    (tolower : ℕ → ℕ) (lexical_cast : Bytes → Option ℤ) (uuid : String) (sub : ℕ)
    (polls : List (ℕ × Polled)) (pings : List (List String)) (h h' : Heart)
    → sub ≢ internal_event
    → start tolower lexical_cast uuid h ≡ some h'
    → let come = take (reads sub polls) pings in
      (e : Ended ⊥ Beating) × (operate tolower lexical_cast uuid sub polls pings h ≡ some e)
      × (e ≢ stuck)
      × Holds
          (λ (s : Beating).
            (s.0 ≡ drop (reads sub polls) pings)
            × (s.1.0 ≡ record h' { count = h'.count + length come })
            × (s.1.1 ≡ map (λ frames. h'.id ∷ frames) come))
          e
unfolding operate
operate-answers tolower lexical_cast uuid sub polls pings h h' apart begun =
    let (free, ends) = run-single answer no_timer 0 sub polls (pings, (h', [])) apart in
    let told = foldl-answer (take (reads sub polls) pings) h' [] in
    (
      _,
      rw (operate, begun) refl,
      free,
      Holds-map
          (λ (s : Beating) (q : s ≡ after answer (reads sub polls) (pings, (h', []))). (
            ap (λ (t : Beating). t.0) q,
            ap (λ (t : Beating). t.1.0) q ∙ ap (λ (t : Heart × List (List String)). t.0) told,
            ap (λ (t : Beating). t.1.1) q ∙ ap (λ (t : Heart × List (List String)). t.1) told,
          ))
          _ ends,
    )
