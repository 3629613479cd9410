-- ===== src/Worker/Runs.antt =====
-- Starting, finalizing, cancelling and steering runs, the dispatch of the supervisor's messages,
-- and stopping, in packages/agent-runtime-worker/src/AgentWorkerHost.ts.
use Prim.Native.String
use my_note_book.Base.{
  ℕ, String, Bool, true, false, not, ◌&&◌, ◌||◌, Option, none, some, List, [], ◌∷◌, ◌++◌, map, ◌==◌,
  if◌then◌else◌, nat_eq, is_some, lookup, insert, delete, has, add, remove, decimal,
}
use my_note_book.Worker.Messages.{
  agent_worker_protocol_version, Thrown, duplicate_run, AgentWorkerError, AgentRunRequest,
  AgentSidecarSubmission, AgentRuntimeEventType, run_completed, run_failed, run_cancelled,
  AgentRuntimeEvent, AgentWorkerHostMessage, supervisor_hello, run_start, orchestration_start,
  run_cancel, run_steer, tool_result, authorization_result, tool_recorded,
  provider_response_started, provider_response_chunk, provider_response_completed,
  provider_response_failed, supervisor_shutdown, run_event, orchestration_prepared,
  orchestration_completed, run_result, run_was_cancelled, run_steered, shutdown,
}
use my_note_book.Worker.Host.{
  replied, answered, recorded, RunStage, running, finalizing, settled_run, ActiveRun, RuntimeCall,
  starts, cancels_run, steers, cancelling, draining, stopped, StopStage, WorkerHost,
  normalize_worker_error, plain_error, send, send_run_error,
}
use my_note_book.Worker.Replies.{
  tools, authorizations, tool_records, resolve_pending, reject_replies,
}
use my_note_book.Worker.Provider.{
  start_provider_response, push_provider_chunk, finish_provider_response, fail_provider_response,
  fail_each,
}

unfoldable pub refused_protocol : ℕ → String
refused_protocol version =
    String.◌++◌ "Unsupported supervisor protocol " (String.◌++◌ (decimal version) ".")

-- The outcome of a promise that the host awaits.
pub data Outcome (A : Type 0) : Type 0 where
  fulfilled : A → Outcome A
  thrown : Thrown → Outcome A

abbrev pub is_terminal_event : AgentRuntimeEventType → Bool
is_terminal_event run_completed = true
is_terminal_event run_failed = true
is_terminal_event run_cancelled = true
is_terminal_event _ = false

-- `['research', 'review', 'learning'].includes(intent)`
abbrev pub skips_finalizer : String → Bool
skips_finalizer intent = intent == "research" || intent == "review" || intent == "learning"

abbrev keys {ℓ} : {V : Type ℓ} → List (String × V) → List String
keys [] = []
keys ((k, v) ∷ m) = k ∷ keys m

abbrev duplicate_error : String → AgentWorkerError
duplicate_error run_id = record {
  code = duplicate_run;
  message = String.◌++◌ "run_id " (String.◌++◌ run_id " 已由 Worker 驱动。");
  retryable = false;
}

module _ {P : Type 0} where
  abbrev call_runtime : RuntimeCall P → WorkerHost P → WorkerHost P
  call_runtime c s = record s { runtime_calls = s.runtime_calls ++ c ∷ [] }

  unfoldable pub start_run : String → AgentRunRequest P → Bool → WorkerHost P → WorkerHost P
  start_run request_id request finalize s =
      let run : ActiveRun P = record {
        request_id = request_id;
        finalize = finalize;
        stage = running;
      } in
      if has request.run_id s.claimed_run_ids
      then send_run_error request_id request.run_id (duplicate_error request.run_id) s
      else call_runtime (starts request) (record s {
        claimed_run_ids = add request.run_id s.claimed_run_ids;
        active_run_ids = add request.run_id s.active_run_ids;
        active_run_promises = insert request.run_id run s.active_run_promises;
      })

  -- The listener of `subscribeEvents`, which is called for the events of its run until the run's
  -- promise chain has ended.
  unfoldable pub runtime_event : AgentRuntimeEvent P → WorkerHost P → WorkerHost P
  runtime_event event s =
      if is_some (lookup event.run_id s.active_run_promises)
        && not (has event.run_id s.terminal_run_ids)
      then send (run_event event) (record s {
        terminal_run_ids =
            if is_terminal_event event.event_type
            then add event.run_id s.terminal_run_ids
            else s.terminal_run_ids;
      })
      else s

  abbrev at_stage : String → ActiveRun P → RunStage P → WorkerHost P → WorkerHost P
  at_stage run_id run stage s = record s {
    active_run_promises = insert run_id (record run { stage = stage }) s.active_run_promises;
  }

  -- `.then` and `.catch` of a started run, at the outcome of `runtime.startRun`.
  unfoldable pub answer_run :
      String → ActiveRun P → RunStage P → Outcome P → WorkerHost P → WorkerHost P
  answer_run run_id run running (fulfilled result) s =
      if run.finalize
      then at_stage run_id run (finalizing result) s
      else send (run_result run.request_id result none) (at_stage run_id run settled_run s)
  answer_run run_id run running (thrown error) s =
      send_run_error run.request_id run_id (normalize_worker_error error)
        (at_stage run_id run settled_run s)
  answer_run run_id run _ outcome s = s

  answer_found : String → Option (ActiveRun P) → Outcome P → WorkerHost P → WorkerHost P
  unfolding answer_run
  answer_found run_id none outcome s = s
  answer_found run_id (some run) outcome s = answer_run run_id run run.stage outcome s

  unfoldable pub run_answered : String → Outcome P → WorkerHost P → WorkerHost P
  unfolding answer_found
  run_answered run_id outcome s =
      answer_found run_id (lookup run_id s.active_run_promises) outcome s

  -- The same chain, at the outcome of `finalize`.
  unfoldable pub finalize_run :
      String → ActiveRun P → RunStage P → Outcome P → WorkerHost P → WorkerHost P
  finalize_run run_id run (finalizing result) (fulfilled finalization) s =
      send (run_result run.request_id result (some finalization)) (
        send (orchestration_completed run.request_id finalization)
          (at_stage run_id run settled_run s))
  finalize_run run_id run (finalizing result) (thrown error) s =
      send_run_error run.request_id run_id (normalize_worker_error error)
        (at_stage run_id run settled_run s)
  finalize_run run_id run _ outcome s = s

  finalize_found : String → Option (ActiveRun P) → Outcome P → WorkerHost P → WorkerHost P
  unfolding finalize_run
  finalize_found run_id none outcome s = s
  finalize_found run_id (some run) outcome s = finalize_run run_id run run.stage outcome s

  unfoldable pub run_finalized : String → Outcome P → WorkerHost P → WorkerHost P
  unfolding finalize_found
  run_finalized run_id outcome s =
      finalize_found run_id (lookup run_id s.active_run_promises) outcome s

  abbrev is_settled : Option (ActiveRun P) → Bool
  is_settled none = false
  is_settled (some run) = elim run.stage [ settled_run ↦ true | _ ↦ false ]

  -- `.finally`
  unfoldable pub run_ended : String → WorkerHost P → WorkerHost P
  run_ended run_id s =
      if is_settled (lookup run_id s.active_run_promises)
      then record s {
        active_run_ids = remove run_id s.active_run_ids;
        active_run_promises = delete run_id s.active_run_promises;
      }
      else s

  -- The rest of `startOrchestration`, at the outcome of `planSidecarRun`: the task to report and
  -- the run's request.
  unfoldable pub orchestration_planned :
      String
      → AgentSidecarSubmission P
      → Outcome (P × AgentRunRequest P)
      → WorkerHost P
      → WorkerHost P
  orchestration_planned request_id submission (fulfilled (task, request)) s =
      start_run request_id request (not (skips_finalizer request.intent))
        (send (orchestration_prepared request_id task request) s)
  orchestration_planned request_id submission (thrown error) s =
      send_run_error request_id submission.run_id (normalize_worker_error error) s

  -- The rest of `cancelRun` and of `steerRun`, at the outcome of the runtime's call.
  unfoldable pub cancel_answered :
      String → String → Outcome (Unit {0}) → WorkerHost P → WorkerHost P
  cancel_answered request_id run_id (fulfilled _) s = send (run_was_cancelled request_id run_id) s
  cancel_answered request_id run_id (thrown error) s =
      send_run_error request_id run_id (normalize_worker_error error) s

  unfoldable pub steer_answered : String → String → Outcome (Unit {0}) → WorkerHost P → WorkerHost P
  steer_answered request_id run_id (fulfilled _) s = send (run_steered request_id run_id) s
  steer_answered request_id run_id (thrown error) s =
      send_run_error request_id run_id (normalize_worker_error error) s

  -- `stop` up to its first `await`.
  unfoldable pub stop : String → WorkerHost P → WorkerHost P
  stop reason s = if s.stopping then s else record s {
    stopping = true;
    heartbeat_timer = false;
    stop_stage = cancelling reason;
    runtime_calls = s.runtime_calls ++ map cancels_run s.active_run_ids;
  }

  -- Its cancellations are answered: it awaits the runs that are active now.
  drain_from : StopStage → WorkerHost P → WorkerHost P
  drain_from (cancelling reason) s = record s {
    stop_stage = draining reason (keys s.active_run_promises);
  }
  drain_from _ s = s

  unfoldable pub stop_cancelled : WorkerHost P → WorkerHost P
  unfolding drain_from
  stop_cancelled s = drain_from s.stop_stage s

  unfoldable pub none_active : List String → List (String × ActiveRun P) → Bool
  none_active [] runs = true
  none_active (run_id ∷ run_ids) runs =
      not (is_some (lookup run_id runs)) && none_active run_ids runs

  -- `rejectPending`
  unfoldable pub reject_pending : String → WorkerHost P → WorkerHost P
  reject_pending reason s =
      let t = reject_replies reason s in
      fail_each (plain_error reason) t.pending_provider_responses t

  -- Those runs have ended: the rest of `stop`.
  finish_from : StopStage → WorkerHost P → WorkerHost P
  finish_from (draining reason run_ids) s =
      let t = send (shutdown s.identity.worker_instance_id reason) (reject_pending reason s) in
      if none_active run_ids s.active_run_promises
      then record t { subscribed = false; channel_closed = true; stop_stage = stopped }
      else s
  finish_from _ s = s

  unfoldable pub stop_finished : WorkerHost P → WorkerHost P
  unfolding finish_from
  stop_finished s = finish_from s.stop_stage s

  -- The `switch` of `onMessage`. An `orchestration.start` only calls `planSidecarRun`.
  unfoldable pub handle_message : AgentWorkerHostMessage P → WorkerHost P → WorkerHost P
  handle_message (supervisor_hello supervisor_instance_id protocol_version) s =
      if nat_eq protocol_version agent_worker_protocol_version
      then s
      else stop (refused_protocol protocol_version) s
  handle_message (run_start request_id request) s = start_run request_id request false s
  handle_message (orchestration_start request_id submission) s = s
  handle_message (run_cancel request_id run_id) s = call_runtime (cancels_run run_id) s
  handle_message (run_steer request_id run_id input) s = call_runtime (steers run_id input) s
  handle_message (tool_result request_id result) s =
      resolve_pending tools request_id (replied result) s
  handle_message (authorization_result request_id authorization_id answer) s =
      resolve_pending authorizations request_id (answered answer) s
  handle_message (tool_recorded request_id) s = resolve_pending tool_records request_id recorded s
  handle_message (provider_response_started request_id status headers) s =
      start_provider_response request_id status headers s
  handle_message (provider_response_chunk request_id body_base64) s =
      push_provider_chunk request_id body_base64 s
  handle_message (provider_response_completed request_id) s = finish_provider_response request_id s
  handle_message (provider_response_failed request_id error) s =
      fail_provider_response request_id (plain_error error) s
  handle_message (supervisor_shutdown reason) s = stop reason s

  abbrev pub ignores : ℕ → WorkerHost P → Bool
  ignores version s = not (nat_eq version agent_worker_protocol_version) || s.stopping

  unfoldable pub on_message : ℕ → AgentWorkerHostMessage P → WorkerHost P → WorkerHost P
  unfolding handle_message
  on_message version message s = if ignores version s then s else handle_message message s
