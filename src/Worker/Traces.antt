-- ===== src/Worker/Traces.antt =====
-- What the supervisor sees of a run: packages/agent-runtime-worker/src/AgentWorkerHost.ts stops
-- forwarding the events of a run after its terminal event.
use my_note_book.Base.{
  ℕ, suc, String, Bool, true, false, not, ◌&&◌, Option, none, some, List, [], ◌∷◌, ◌++◌, ◌≡◌, refl,
  sym, ap, ◌∙◌, ◌==◌, arith, eq_iff, if◌then◌else◌, is_some, lookup, has, add, has-add, keep,
  Bool-cases, inl, inr,
}
use my_note_book.Worker.Messages.{
  AgentWorkerIdentity, AgentRunRequest, AgentRuntimeEvent, AgentWorkerMessage, run_event,
}
use my_note_book.Worker.Host.{WorkerHost, new_host}
use my_note_book.Worker.Runs.{is_terminal_event, start_run, runtime_event, run_ended}
use my_note_book.Worker.Frame.{events, events-send, sent_plain}
use my_note_book.Worker.Staged.{Staged, Move, claims, reports, closes_run, Step-cases}
use my_note_book.Worker.Steps.{Step, Reach, created, next}

module _ {P : Type 0} where
  -- The events of one run among the messages that were sent.
  abbrev pub events_of : String → List (AgentWorkerMessage P) → List (AgentRuntimeEvent P)
  events_of id sent = keep (λ event. event.run_id == id) (events sent)

  -- Whether the last event is terminal.
  unfoldable pub has_ended : List (AgentRuntimeEvent P) → Bool
  has_ended [] = false
  has_ended (e ∷ []) = is_terminal_event e.event_type
  has_ended (e ∷ f ∷ l) = has_ended (f ∷ l)

  -- No event but the last is terminal.
  abbrev pub TerminalLast : List (AgentRuntimeEvent P) → Type 0
  TerminalLast [] = Unit
  TerminalLast (e ∷ []) = Unit
  TerminalLast (e ∷ f ∷ l) = (is_terminal_event e.event_type ≡ false) × TerminalLast (f ∷ l)

  has_ended-append :
      (l : List (AgentRuntimeEvent P)) (e : AgentRuntimeEvent P)
      → has_ended (l ++ e ∷ []) ≡ is_terminal_event e.event_type
  unfolding has_ended
  has_ended-append [] e = refl
  has_ended-append (f ∷ []) e = refl
  has_ended-append (f ∷ g ∷ l) e = has_ended-append (g ∷ l) e

  TerminalLast-append :
      (l : List (AgentRuntimeEvent P)) (e : AgentRuntimeEvent P)
      → TerminalLast l
      → has_ended l ≡ false
      → TerminalLast (l ++ e ∷ [])
  unfolding has_ended
  TerminalLast-append [] e h k = tt
  TerminalLast-append (f ∷ []) e h k = (k, tt)
  TerminalLast-append (f ∷ g ∷ l) e (open_event, h) k =
      (open_event, TerminalLast-append (g ∷ l) e h k)

  keep-append :
      (p : AgentRuntimeEvent P → Bool) (l r : List (AgentRuntimeEvent P))
      → keep p (l ++ r) ≡ keep p l ++ keep p r
  keep-append p [] r = refl
  keep-append p (e ∷ l) r = ground (arith, keep-append p l r)

  events_of-send :
      (id : String) (sent : List (AgentWorkerMessage P)) (e : AgentRuntimeEvent P)
      → events_of id (sent ++ run_event e ∷ [])
        ≡ (if e.run_id == id then events_of id sent ++ e ∷ [] else events_of id sent)
  events_of-send id sent e =
      rw (events-send sent (run_event e), keep-append (λ f. f.run_id == id) (events sent) (e ∷ []))
        (split (e.run_id == id))
    where
      split :
          (b : Bool)
          → events_of id sent ++ (if b then e ∷ [] else [])
            ≡ (if b then events_of id sent ++ e ∷ [] else events_of id sent)
      split true = refl
      split false = my_note_book.Base.append-nil (events_of id sent)

-- The events that were forwarded for the run end with the first terminal one, and the run counts
-- as terminal exactly if there was one.
pub record IsTraced {P : Type 0} (id : String) (s : WorkerHost P) : Type 0 where
  pub last : TerminalLast (events_of id s.sent)
  pub ended : has_ended (events_of id s.sent) ≡ has id s.terminal_run_ids

new_host-IsTraced :
    (P : Type 0) (id : String) (identity : AgentWorkerIdentity)
    (builds : ℕ → List (String × String) → Bool)
    → IsTraced id (new_host P identity builds)
unfolding new_host events has_ended has
new_host-IsTraced P id identity builds = record { last = tt; ended = refl }

module _ {P : Type 0} (id : String) where
  Staged-IsTraced : {s u : WorkerHost P} → Staged s u → IsTraced id s → IsTraced id u
  Staged-IsTraced f h = record {
    last = rw f.sent_events h.last;
    ended = rw (f.sent_events, f.terminal) h.ended;
  }

  same-IsTraced :
      {s u : WorkerHost P}
      → events u.sent ≡ events s.sent
      → u.terminal_run_ids ≡ s.terminal_run_ids
      → IsTraced id s
      → IsTraced id u
  same-IsTraced e f h = record { last = rw e h.last; ended = rw (e, f) h.ended }

  abbrev marked : AgentRuntimeEvent P → List String → List String
  marked event ids = if is_terminal_event event.event_type then add event.run_id ids else ids

  has-marked :
      (event : AgentRuntimeEvent P) (ids : List String)
      → has id (marked event ids) ≡ (
          if is_terminal_event event.event_type
          then (if event.run_id == id then true else has id ids)
          else has id ids)
  has-marked event ids = ground (arith, has-add event.run_id id ids, eq_iff event.run_id id)

  forwarded-IsTraced :
      (event : AgentRuntimeEvent P) (s : WorkerHost P)
      → has event.run_id s.terminal_run_ids ≡ false
      → IsTraced id s
      → IsTraced id (record s {
        terminal_run_ids = marked event s.terminal_run_ids;
        sent = s.sent ++ run_event event ∷ [];
      })
  forwarded-IsTraced event s still_open h = elim (Bool-cases (event.run_id == id)) [
    | inl e ↦
        let same : has id s.terminal_run_ids ≡ false =
          ground (arith, still_open, eq_iff event.run_id id, e) in
        let old = events_of id s.sent in
        record {
          last =
              rw (events_of-send id s.sent event, e)
                (TerminalLast-append old event h.last (h.ended ∙ same));
          ended =
              rw (events_of-send id s.sent event, e, has_ended-append old event)
                (ground (arith, has-marked event s.terminal_run_ids, same, e));
        }
    | inr e ↦ record {
      last = rw (events_of-send id s.sent event, e) h.last;
      ended =
          rw (events_of-send id s.sent event, e)
            (ground (arith, has-marked event s.terminal_run_ids, h.ended, e));
    }
  ]

  runtime_event-IsTraced :
      (event : AgentRuntimeEvent P) (s : WorkerHost P)
      → IsTraced id s
      → IsTraced id (runtime_event event s)
  unfolding runtime_event
  runtime_event-IsTraced event s h =
      elim (Bool-cases (
        is_some (lookup event.run_id s.active_run_promises)
        && not (has event.run_id s.terminal_run_ids))) [
          | inl go ↦ rw go (forwarded-IsTraced event s (ground (arith, go)) h)
          | inr stay ↦ rw stay h
        ]

  start_run-IsTraced :
      (k : String) (request : AgentRunRequest P) (finalize : Bool) (s : WorkerHost P)
      → IsTraced id s
      → IsTraced id (start_run k request finalize s)
  unfolding start_run
  start_run-IsTraced k request finalize s h =
      elim (Bool-cases (has request.run_id s.claimed_run_ids)) [
        | inl e ↦ rw e (same-IsTraced (sent_plain s _ refl) refl h)
        | inr e ↦ rw e (same-IsTraced refl refl h)
      ]

  run_ended-IsTraced :
      (run_id : String) (s : WorkerHost P) → IsTraced id s → IsTraced id (run_ended run_id s)
  unfolding run_ended
  run_ended-IsTraced run_id s h = ground (arith, h.last, h.ended)

  Move-IsTraced : {s u : WorkerHost P} → Move s u → IsTraced id s → IsTraced id u
  Move-IsTraced (claims k request finalize t staged e) h =
      rw e (start_run-IsTraced k request finalize t (Staged-IsTraced staged h))
  Move-IsTraced {s} (reports event e) h = rw e (runtime_event-IsTraced event s h)
  Move-IsTraced {s} (closes_run run_id e) h = rw e (run_ended-IsTraced run_id s h)

  Step-IsTraced : {s u : WorkerHost P} → Step s u → IsTraced id s → IsTraced id u
  Step-IsTraced step h = elim (Step-cases step) [
    | inl staged ↦ Staged-IsTraced staged h
    | inr move ↦ Move-IsTraced move h
  ]

-- In every state that a host can get into, no event of a run was forwarded after a terminal event
-- (completed, failed or cancelled) of that run, and the run's id is in `terminalRunIds` exactly if
-- its last forwarded event is terminal.
pub Reach-IsTraced :
    {P : Type 0} {identity : AgentWorkerIdentity} {s : WorkerHost P} (id : String)
    → Reach identity s
    → IsTraced id s
Reach-IsTraced {P} {identity} id (created builds) = new_host-IsTraced P id identity builds
Reach-IsTraced id (next reached step) = Step-IsTraced id step (Reach-IsTraced id reached)
