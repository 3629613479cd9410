-- ===== src/Worker/Claims.antt =====
-- A run id is driven once: packages/agent-runtime-worker/src/AgentWorkerHost.ts.
use my_note_book.Base.{
  ℕ, ◌+◌, String, Bool, true, List, [], ◌∷◌, ◌++◌, ◌≡◌, ◌==◌, arith, eq_iff, if◌then◌else◌, is_some,
  lookup, has, lookup-insert, lookup-delete, has-add, has-remove, inl, inr,
}
use my_note_book.Worker.Messages.{AgentWorkerIdentity, AgentRunRequest, AgentRuntimeEvent}
use my_note_book.Worker.Host.{RuntimeCall, starts, running, ActiveRun, WorkerHost, new_host}
use my_note_book.Worker.Runs.{start_run, runtime_event, run_ended}
use my_note_book.Worker.Frame.{started, started-append}
use my_note_book.Worker.Staged.{Staged, Move, claims, reports, closes_run, Step-cases}
use my_note_book.Worker.Steps.{Step, Reach, created, next}

-- How often an id stands in a list.
unfoldable pub occurrences : String → List String → ℕ
occurrences id [] = 0
occurrences id (x ∷ l) = (if x == id then 1 else 0) + occurrences id l

pub occurrences-append :
    (id : String) (l r : List String)
    → occurrences id (l ++ r) ≡ occurrences id l + occurrences id r
unfolding occurrences
occurrences-append id [] r = omega arith
occurrences-append id (x ∷ l) r = omega (arith, occurrences-append id l r)

-- The runtime was told to start the run once if its id is claimed, and never if not; it counts as
-- active exactly while its promise chain lasts, and then it is claimed.
pub record IsClaimed {P : Type 0} (id : String) (s : WorkerHost P) : Type 0 where
  pub once : occurrences id (started s.runtime_calls) ≡ (if has id s.claimed_run_ids then 1 else 0)
  pub tracked : has id s.active_run_ids ≡ is_some (lookup id s.active_run_promises)
  pub owned : is_some (lookup id s.active_run_promises) ≡ true → has id s.claimed_run_ids ≡ true

new_host-IsClaimed :
    (P : Type 0) (id : String) (identity : AgentWorkerIdentity)
    (builds : ℕ → List (String × String) → Bool)
    → IsClaimed id (new_host P identity builds)
unfolding new_host started occurrences has lookup
new_host-IsClaimed P id identity builds = ground arith

module _ {P : Type 0} (id : String) where
  pub Staged-IsClaimed : {s u : WorkerHost P} → Staged s u → IsClaimed id s → IsClaimed id u
  Staged-IsClaimed f h = record {
    once = rw (f.started_runs, f.claimed) h.once;
    tracked = rw (f.active, f.promised id) h.tracked;
    owned = rw (f.promised id, f.claimed) h.owned;
  }

  started-start :
      (l : List (RuntimeCall P)) (request : AgentRunRequest P)
      → occurrences id (started (l ++ starts request ∷ []))
        ≡ occurrences id (started l) + (if request.run_id == id then 1 else 0)
  unfolding started occurrences
  started-start l request =
      rw (started-append l (starts request ∷ []))
        (omega (arith, occurrences-append id (started l) (request.run_id ∷ [])))

  pub start_run-IsClaimed :
      (k : String) (request : AgentRunRequest P) (finalize : Bool) (s : WorkerHost P)
      → IsClaimed id s
      → IsClaimed id (start_run k request finalize s)
  unfolding start_run
  start_run-IsClaimed k request finalize s h =
      let run : ActiveRun P = record { request_id = k; finalize = finalize; stage = running } in
      ground (
        arith,
        started-start s.runtime_calls request,
        has-add request.run_id id s.claimed_run_ids,
        has-add request.run_id id s.active_run_ids,
        lookup-insert request.run_id id run s.active_run_promises,
        eq_iff request.run_id id,
      )

  pub runtime_event-IsClaimed :
      (event : AgentRuntimeEvent P) (s : WorkerHost P)
      → IsClaimed id s
      → IsClaimed id (runtime_event event s)
  unfolding runtime_event
  runtime_event-IsClaimed event s h = ground arith

  pub run_ended-IsClaimed :
      (run_id : String) (s : WorkerHost P) → IsClaimed id s → IsClaimed id (run_ended run_id s)
  unfolding run_ended
  run_ended-IsClaimed run_id s h =
      ground (
        arith,
        has-remove run_id id s.active_run_ids,
        lookup-delete run_id id s.active_run_promises,
      )

  Move-IsClaimed : {s u : WorkerHost P} → Move s u → IsClaimed id s → IsClaimed id u
  Move-IsClaimed (claims k request finalize t staged e) h =
      rw e (start_run-IsClaimed k request finalize t (Staged-IsClaimed staged h))
  Move-IsClaimed {s} (reports event e) h = rw e (runtime_event-IsClaimed event s h)
  Move-IsClaimed {s} (closes_run run_id e) h = rw e (run_ended-IsClaimed run_id s h)

  Step-IsClaimed : {s u : WorkerHost P} → Step s u → IsClaimed id s → IsClaimed id u
  Step-IsClaimed step h = elim (Step-cases step) [
    | inl staged ↦ Staged-IsClaimed staged h
    | inr move ↦ Move-IsClaimed move h
  ]

-- In every state that a host can get into, the runtime was told to start a run exactly once if the
-- run's id has been claimed, by a `run.start` or an orchestration, and never if not; the run counts
-- as active exactly while its promise chain lasts; and such a run is claimed.
pub Reach-IsClaimed :
    {P : Type 0} {identity : AgentWorkerIdentity} {s : WorkerHost P} (id : String)
    → Reach identity s
    → IsClaimed id s
Reach-IsClaimed {P} {identity} id (created builds) = new_host-IsClaimed P id identity builds
Reach-IsClaimed id (next reached step) = Step-IsClaimed id step (Reach-IsClaimed id reached)
