-- ===== src/Worker/Staged.antt =====
-- The steps of packages/agent-runtime-worker/src/AgentWorkerHost.ts that claim, report on or end a
-- run, told apart from all the others.
use my_note_book.Base.{
  ℕ, String, Bool, true, false, not, none, some, [], ◌∷◌, ◌++◌, ◌≡◌, refl, ap, ◌∙◌, ◌⊎◌, arith,
  eq_iff, if◌then◌else◌, is_some, lookup, insert, lookup-insert, Option-cases, Bool-cases, inl, inr,
}
use my_note_book.Worker.Messages.{
  AgentRunRequest, AgentSidecarSubmission, AgentRuntimeEvent, AgentWorkerHostMessage,
  AgentWorkerMessage, supervisor_hello, run_start, orchestration_start, run_cancel, run_steer,
  tool_result, authorization_result, tool_recorded, provider_response_started,
  provider_response_chunk, provider_response_completed, provider_response_failed,
  supervisor_shutdown, tool_invoke, tool_record, authorization_request, orchestration_prepared,
  run_error, run_result, orchestration_completed, run_was_cancelled, run_steered,
}
use my_note_book.Worker.Host.{
  RuntimeCall, cancels_run, steers, RunStage, running, finalizing, settled_run, ActiveRun,
  WorkerHost, replied, answered, recorded, plain_error, send, normalize_worker_error,
}
use my_note_book.Worker.Replies.{
  tools, authorizations, tool_records, invoke_tool, request_authorization, record_tool_call,
}
use my_note_book.Worker.Runs.{
  Outcome, fulfilled, thrown, start_run, runtime_event, run_answered, run_finalized, run_ended,
  orchestration_planned, cancel_answered, steer_answered, skips_finalizer, ignores, handle_message,
  on_message, answer_run, finalize_run,
}
use my_note_book.Worker.Steps.{
  Step, starts_up, beats, receives, emits, answers, finalizes, ends, plans, cancel_ends, steer_ends,
  invokes, asks, records_call, aborts, refuses_fetch, fetches, aborts_fetch, cancels_stream, stops,
  drains, finishes,
}
use my_note_book.Worker.Frame

-- The runs are the same but for the stages of their promise chains.
pub record Staged {P : Type 0} (s u : WorkerHost P) : Type 0 where
  pub claimed : u.claimed_run_ids ≡ s.claimed_run_ids
  pub terminal : u.terminal_run_ids ≡ s.terminal_run_ids
  pub active : u.active_run_ids ≡ s.active_run_ids
  pub promised :
      (id : String)
      → is_some (lookup id u.active_run_promises) ≡ is_some (lookup id s.active_run_promises)
  pub sent_events : Frame.events u.sent ≡ Frame.events s.sent
  pub started_runs : Frame.started u.runtime_calls ≡ Frame.started s.runtime_calls

-- The other steps.
pub data Move {P : Type 0} (s u : WorkerHost P) : Type 0 where
  claims :
      (k : String) (request : AgentRunRequest P) (finalize : Bool) (t : WorkerHost P)
      → Staged s t
      → u ≡ start_run k request finalize t
      → Move s u
  reports : (event : AgentRuntimeEvent P) → u ≡ runtime_event event s → Move s u
  closes_run : (run_id : String) → u ≡ run_ended run_id s → Move s u

module _ {P : Type 0} where
  of_Frame : {s u : WorkerHost P} → Frame.Frame s u → Staged s u
  of_Frame f = record {
    claimed = f.claimed;
    terminal = f.terminal;
    active = f.active;
    promised = λ id. ap (λ m. is_some (lookup id m)) f.promises;
    sent_events = f.sent_events;
    started_runs = f.started_runs;
  }

module _ {P : Type 0} (s : WorkerHost P) where
  -- A change of the stage of a present run, and a message that is no run event.
  abbrev at : String → ActiveRun P → RunStage P → WorkerHost P
  at run_id run stage = record s {
    active_run_promises = insert run_id (record run { stage = stage }) s.active_run_promises;
  }

  at-Staged :
      (run_id : String) (run : ActiveRun P) (stage : RunStage P)
      → lookup run_id s.active_run_promises ≡ some run
      → Staged s (at run_id run stage)
  at-Staged run_id run stage e = record {
    claimed = refl;
    terminal = refl;
    active = refl;
    promised = λ id. ground (
      arith,
      lookup-insert run_id id (record run { stage = stage }) s.active_run_promises,
      eq_iff run_id id,
      e,
    );
    sent_events = refl;
    started_runs = refl;
  }

  send-Staged :
      {t : WorkerHost P} (m : AgentWorkerMessage P)
      → Frame.event_of m ≡ []
      → Staged s t
      → Staged s (send m t)
  send-Staged {t} m e f = record {
    claimed = f.claimed;
    terminal = f.terminal;
    active = f.active;
    promised = f.promised;
    sent_events = Frame.sent_plain t m e ∙ f.sent_events;
    started_runs = f.started_runs;
  }

  either-Staged :
      (b : Bool) {t u : WorkerHost P} → Staged s t → Staged s u → Staged s (if b then t else u)
  either-Staged true f g = f
  either-Staged false f g = g

  self : Staged s s
  self = of_Frame (Frame.Frame-refl s)

  module _ (run_id : String) (run : ActiveRun P)
      (e : lookup run_id s.active_run_promises ≡ some run) where
    answer_run-Staged :
        (stage : RunStage P) (outcome : Outcome P)
        → Staged s (answer_run run_id run stage outcome s)
    unfolding answer_run
    answer_run-Staged running (fulfilled result) =
        either-Staged run.finalize (at-Staged run_id run (finalizing result) e) (
          send-Staged (run_result run.request_id result none) refl
            (at-Staged run_id run settled_run e))
    answer_run-Staged running (thrown error) =
        send-Staged (run_error run.request_id run_id (normalize_worker_error error)) refl
          (at-Staged run_id run settled_run e)
    answer_run-Staged (finalizing _) outcome = self
    answer_run-Staged settled_run outcome = self

    finalize_run-Staged :
        (stage : RunStage P) (outcome : Outcome P)
        → Staged s (finalize_run run_id run stage outcome s)
    unfolding finalize_run
    finalize_run-Staged (finalizing result) (fulfilled finalization) =
        send-Staged (run_result run.request_id result (some finalization)) refl (
          send-Staged (orchestration_completed run.request_id finalization) refl
            (at-Staged run_id run settled_run e))
    finalize_run-Staged (finalizing result) (thrown error) =
        send-Staged (run_error run.request_id run_id (normalize_worker_error error)) refl
          (at-Staged run_id run settled_run e)
    finalize_run-Staged running outcome = self
    finalize_run-Staged settled_run outcome = self

  run_answered-Staged :
      (run_id : String) (outcome : Outcome P) → Staged s (run_answered run_id outcome s)
  unfolding run_answered
  run_answered-Staged run_id outcome = elim (Option-cases (lookup run_id s.active_run_promises)) [
    | inl e ↦ rw e self
    | inr (run, e) ↦ rw e (answer_run-Staged run_id run e run.stage outcome)
  ]

  run_finalized-Staged :
      (run_id : String) (outcome : Outcome P) → Staged s (run_finalized run_id outcome s)
  unfolding run_finalized
  run_finalized-Staged run_id outcome = elim (Option-cases (lookup run_id s.active_run_promises)) [
    | inl e ↦ rw e self
    | inr (run, e) ↦ rw e (finalize_run-Staged run_id run e run.stage outcome)
  ]

  call_runtime-Staged :
      (c : RuntimeCall P)
      → Frame.start_of c ≡ []
      → Staged s (record s { runtime_calls = s.runtime_calls ++ c ∷ [] })
  call_runtime-Staged c e = record {
    claimed = refl;
    terminal = refl;
    active = refl;
    promised = λ id. refl;
    sent_events = refl;
    started_runs = Frame.started_call s.runtime_calls c e;
  }

  -- A message of the supervisor starts a run, or leaves the runs alone.
  handle_message-cases :
      (message : AgentWorkerHostMessage P)
      → Staged s (handle_message message s) ⊎ Move s (handle_message message s)
  unfolding handle_message
  handle_message-cases (supervisor_hello id version) =
      inl (of_Frame (Frame.refuse_protocol-Frame s version))
  handle_message-cases (run_start k request) = inr (claims k request false s self refl)
  handle_message-cases (orchestration_start k submission) = inl self
  handle_message-cases (run_cancel k run_id) = inl (call_runtime-Staged (cancels_run run_id) refl)
  handle_message-cases (run_steer k run_id input) =
      inl (call_runtime-Staged (steers run_id input) refl)
  handle_message-cases (tool_result k result) =
      inl (of_Frame (Frame.resolve_pending-Frame s tools k (replied result)))
  handle_message-cases (authorization_result k id answer) =
      inl (of_Frame (Frame.resolve_pending-Frame s authorizations k (answered answer)))
  handle_message-cases (tool_recorded k) =
      inl (of_Frame (Frame.resolve_pending-Frame s tool_records k recorded))
  handle_message-cases (provider_response_started k status headers) =
      inl (of_Frame (Frame.start_provider_response-Frame s k status headers))
  handle_message-cases (provider_response_chunk k body) =
      inl (of_Frame (Frame.push_provider_chunk-Frame s k body))
  handle_message-cases (provider_response_completed k) =
      inl (of_Frame (Frame.finish_provider_response-Frame s k))
  handle_message-cases (provider_response_failed k error) =
      inl (of_Frame (Frame.fail_provider_response-Frame s k (plain_error error)))
  handle_message-cases (supervisor_shutdown reason) = inl (of_Frame (Frame.stop-Frame s reason))

  on_message-cases :
      (version : ℕ) (message : AgentWorkerHostMessage P)
      → Staged s (on_message version message s) ⊎ Move s (on_message version message s)
  unfolding on_message
  on_message-cases version message = elim (Bool-cases (ignores version s)) [
    | inl ignored ↦ rw ignored (inl self)
    | inr handled ↦ rw handled (handle_message-cases message)
  ]

  orchestration_planned-cases :
      (k : String) (submission : AgentSidecarSubmission P)
      (outcome : Outcome (P × AgentRunRequest P))
      → Staged s (orchestration_planned k submission outcome s)
        ⊎ Move s (orchestration_planned k submission outcome s)
  unfolding orchestration_planned
  orchestration_planned-cases k submission (fulfilled (task, request)) =
      let message = orchestration_prepared k task request in
      inr (
        claims k request (not (skips_finalizer request.intent)) (send message s)
          (send-Staged message refl self) refl)
  orchestration_planned-cases k submission (thrown error) =
      inl (send-Staged (run_error k submission.run_id (normalize_worker_error error)) refl self)

  cancel_answered-Staged :
      (k id : String) (outcome : Outcome (Unit {0})) → Staged s (cancel_answered k id outcome s)
  unfolding cancel_answered
  cancel_answered-Staged k id (fulfilled _) = send-Staged (run_was_cancelled k id) refl self
  cancel_answered-Staged k id (thrown error) =
      send-Staged (run_error k id (normalize_worker_error error)) refl self

  steer_answered-Staged :
      (k id : String) (outcome : Outcome (Unit {0})) → Staged s (steer_answered k id outcome s)
  unfolding steer_answered
  steer_answered-Staged k id (fulfilled _) = send-Staged (run_steered k id) refl self
  steer_answered-Staged k id (thrown error) =
      send-Staged (run_error k id (normalize_worker_error error)) refl self

module _ {P : Type 0} where
  -- Every step claims, reports on or ends a run, or leaves the runs alone.
  pub Step-cases : {s u : WorkerHost P} → Step s u → Staged s u ⊎ Move s u
  unfolding invoke_tool request_authorization record_tool_call
  Step-cases {s} (starts_up now) = inl (of_Frame (Frame.start-Frame s now))
  Step-cases {s} (beats now on) = inl (of_Frame (Frame.emit_heartbeat-Frame s now))
  Step-cases {s} (receives version message on) = on_message-cases s version message
  Step-cases (emits event) = inr (reports event refl)
  Step-cases {s} (answers id outcome) = inl (run_answered-Staged s id outcome)
  Step-cases {s} (finalizes id outcome) = inl (run_finalized-Staged s id outcome)
  Step-cases (ends id) = inr (closes_run id refl)
  Step-cases {s} (plans k submission outcome) = orchestration_planned-cases s k submission outcome
  Step-cases {s} (cancel_ends k id outcome) = inl (cancel_answered-Staged s k id outcome)
  Step-cases {s} (steer_ends k id outcome) = inl (steer_answered-Staged s k id outcome)
  Step-cases {s} (invokes request signal) = inl (
      of_Frame (
        Frame.wait_for_host_reply-Frame s tools request.request_id signal
          (some request.internal_tool_call_id) (tool_invoke request) refl))
  Step-cases {s} (asks k request signal) = inl (
      of_Frame (
        Frame.wait_for_host_reply-Frame s authorizations k signal none
          (authorization_request k request) refl))
  Step-cases {s} (records_call k tool_call signal) = inl (
      of_Frame (
        Frame.wait_for_host_reply-Frame s tool_records k signal none (tool_record k tool_call)
          refl))
  Step-cases {s} (aborts c k reason) = inl (of_Frame (Frame.reply_aborted-Frame s c k reason))
  Step-cases {s} (refuses_fetch reason) =
      inl (of_Frame (Frame.provider_fetch_refused-Frame s reason))
  Step-cases {s} (fetches request late fresh) =
      inl (of_Frame (Frame.provider_fetch_sent-Frame s request late))
  Step-cases {s} (aborts_fetch k reason) = inl (of_Frame (Frame.provider_aborted-Frame s k reason))
  Step-cases {s} (cancels_stream k begun) = inl (of_Frame (Frame.stream_cancelled-Frame s k))
  Step-cases {s} (stops reason) = inl (of_Frame (Frame.stop-Frame s reason))
  Step-cases {s} drains = inl (of_Frame (Frame.stop_cancelled-Frame s))
  Step-cases {s} finishes = inl (of_Frame (Frame.stop_finished-Frame s))
