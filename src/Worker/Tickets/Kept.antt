-- ===== src/Worker/Tickets/Kept.antt =====
-- The promises of packages/agent-runtime-worker/src/AgentWorkerHost.ts over all of its steps.
use my_note_book.Base.{ℕ, String, Bool, false, List, arith}
use my_note_book.Worker.Messages.{
  AgentWorkerIdentity, AgentRunRequest, AgentSidecarSubmission, AgentRuntimeEvent,
  AgentWorkerHostMessage, supervisor_hello, run_start, tool_result, authorization_result,
  tool_recorded, provider_response_started, provider_response_chunk, provider_response_completed,
  provider_response_failed, supervisor_shutdown,
}
use my_note_book.Worker.Host.{
  WorkerHost, new_host, emit_heartbeat, start, replied, answered, recorded, plain_error,
}
use my_note_book.Worker.Replies.{
  tools, authorizations, tool_records, invoke_tool, request_authorization, record_tool_call,
  reject_replies,
}
use my_note_book.Worker.Runs.{
  Outcome, fulfilled, thrown, start_run, runtime_event, run_answered, run_finalized, run_ended,
  orchestration_planned, cancel_answered, steer_answered, stop, stop_cancelled, reject_pending,
  stop_finished, refused_protocol, on_message,
}
use my_note_book.Worker.Steps.{
  Step, starts_up, beats, receives, emits, answers, finalizes, ends, plans, cancel_ends, steer_ends,
  invokes, asks, records_call, aborts, refuses_fetch, fetches, aborts_fetch, cancels_stream, stops,
  drains, finishes, Reach, created, next,
}
use my_note_book.Worker.Tickets.{total, settlements, failures, IsKept}
use my_note_book.Worker.Tickets.Replies.{
  wait_for_host_reply-IsKept, resolve_pending-IsKept, reply_aborted-IsKept, reject_replies-IsKept,
}
use my_note_book.Worker.Tickets.Provider.{
  provider_fetch_refused-IsKept, provider_fetch_sent-IsKept, start_provider_response-IsKept,
  push_provider_chunk-IsKept, finish_provider_response-IsKept, fail_provider_response-IsKept,
  provider_aborted-IsKept, stream_cancelled-IsKept, fail_each-IsKept,
}

module _ {P : Type 0} (t : ℕ) (s : WorkerHost P) (kept : IsKept t s) where
  start-IsKept : (now : ℕ) → IsKept t (start now s)
  unfolding start
  start-IsKept now = ground arith

  start_run-IsKept :
      (k : String) (request : AgentRunRequest P) (finalize : Bool)
      → IsKept t (start_run k request finalize s)
  unfolding start_run
  start_run-IsKept k request finalize = ground arith

  runtime_event-IsKept : (event : AgentRuntimeEvent P) → IsKept t (runtime_event event s)
  unfolding runtime_event
  runtime_event-IsKept event = ground arith

  run_answered-IsKept : (id : String) (outcome : Outcome P) → IsKept t (run_answered id outcome s)
  unfolding run_answered
  run_answered-IsKept id outcome = ground arith

  run_finalized-IsKept : (id : String) (outcome : Outcome P) → IsKept t (run_finalized id outcome s)
  unfolding run_finalized
  run_finalized-IsKept id outcome = ground arith

  run_ended-IsKept : (id : String) → IsKept t (run_ended id s)
  unfolding run_ended
  run_ended-IsKept id = ground arith

  orchestration_planned-IsKept :
      (k : String) (submission : AgentSidecarSubmission P)
      (outcome : Outcome (P × AgentRunRequest P))
      → IsKept t (orchestration_planned k submission outcome s)
  unfolding orchestration_planned start_run
  orchestration_planned-IsKept k submission outcome = ground arith

  cancel_answered-IsKept :
      (k id : String) (outcome : Outcome (Unit {0})) → IsKept t (cancel_answered k id outcome s)
  unfolding cancel_answered
  cancel_answered-IsKept k id (fulfilled _) = kept
  cancel_answered-IsKept k id (thrown error) = kept

  steer_answered-IsKept :
      (k id : String) (outcome : Outcome (Unit {0})) → IsKept t (steer_answered k id outcome s)
  unfolding steer_answered
  steer_answered-IsKept k id (fulfilled _) = kept
  steer_answered-IsKept k id (thrown error) = kept

  stop-IsKept : (reason : String) → IsKept t (stop reason s)
  unfolding stop
  stop-IsKept reason = ground arith

  stop_cancelled-IsKept : IsKept t (stop_cancelled s)
  unfolding stop_cancelled
  stop_cancelled-IsKept = ground arith

  reject_pending-IsKept : (reason : String) → IsKept t (reject_pending reason s)
  unfolding reject_pending
  reject_pending-IsKept reason =
      fail_each-IsKept t (plain_error reason) (reject_replies reason s).pending_provider_responses
        (reject_replies reason s) (reject_replies-IsKept t reason s kept)

  stop_finished-IsKept : IsKept t (stop_finished s)
  unfolding stop_finished
  stop_finished-IsKept = grind (arith, reject_pending-IsKept)

  on_message-IsKept :
      (version : ℕ) (message : AgentWorkerHostMessage P) → IsKept t (on_message version message s)
  unfolding on_message
  on_message-IsKept version (run_start k request) = ground (arith, start_run-IsKept k request false)
  on_message-IsKept version (tool_result k result) =
      ground (arith, resolve_pending-IsKept t s kept tools k (replied result))
  on_message-IsKept version (authorization_result k id answer) =
      ground (arith, resolve_pending-IsKept t s kept authorizations k (answered answer))
  on_message-IsKept version (tool_recorded k) =
      ground (arith, resolve_pending-IsKept t s kept tool_records k recorded)
  on_message-IsKept version (provider_response_started k status headers) =
      ground (arith, start_provider_response-IsKept t k status headers s kept)
  on_message-IsKept version (provider_response_chunk k body) =
      ground (arith, push_provider_chunk-IsKept t k body s kept)
  on_message-IsKept version (provider_response_completed k) =
      ground (arith, finish_provider_response-IsKept t k s kept)
  on_message-IsKept version (provider_response_failed k error) =
      ground (arith, fail_provider_response-IsKept t k (plain_error error) s kept)
  on_message-IsKept version (supervisor_hello id protocol_version) =
      ground (arith, stop-IsKept (refused_protocol protocol_version))
  on_message-IsKept version (supervisor_shutdown reason) = ground (arith, stop-IsKept reason)
  on_message-IsKept version _ = ground arith

new_host-IsKept :
    (P : Type 0) (t : ℕ) (identity : AgentWorkerIdentity)
    (builds : ℕ → List (String × String) → Bool)
    → IsKept t (new_host P identity builds)
unfolding new_host total settlements failures
new_host-IsKept P t identity builds = ground arith

module _ {P : Type 0} (t : ℕ) where
  Step-IsKept : {s u : WorkerHost P} → Step s u → IsKept t s → IsKept t u
  Step-IsKept {s} (starts_up now) kept = start-IsKept t s kept now
  Step-IsKept {s} (beats now on) kept = unfold emit_heartbeat in kept
  Step-IsKept {s} (receives version message on) kept = on_message-IsKept t s kept version message
  Step-IsKept {s} (emits event) kept = runtime_event-IsKept t s kept event
  Step-IsKept {s} (answers id outcome) kept = run_answered-IsKept t s kept id outcome
  Step-IsKept {s} (finalizes id outcome) kept = run_finalized-IsKept t s kept id outcome
  Step-IsKept {s} (ends id) kept = run_ended-IsKept t s kept id
  Step-IsKept {s} (plans k submission outcome) kept =
      orchestration_planned-IsKept t s kept k submission outcome
  Step-IsKept {s} (cancel_ends k id outcome) kept = cancel_answered-IsKept t s kept k id outcome
  Step-IsKept {s} (steer_ends k id outcome) kept = steer_answered-IsKept t s kept k id outcome
  Step-IsKept {s} (invokes request signal) kept =
      unfold invoke_tool in wait_for_host_reply-IsKept t s kept tools _ signal _ _
  Step-IsKept {s} (asks k request signal) kept =
      unfold request_authorization in
      wait_for_host_reply-IsKept t s kept authorizations k signal _ _
  Step-IsKept {s} (records_call k tool_call signal) kept =
      unfold record_tool_call in wait_for_host_reply-IsKept t s kept tool_records k signal _ _
  Step-IsKept {s} (aborts c k reason) kept = reply_aborted-IsKept t s kept c k reason
  Step-IsKept {s} (refuses_fetch reason) kept = provider_fetch_refused-IsKept t reason s kept
  Step-IsKept {s} (fetches request late fresh) kept =
      provider_fetch_sent-IsKept t request late s fresh kept
  Step-IsKept {s} (aborts_fetch k reason) kept = provider_aborted-IsKept t k reason s kept
  Step-IsKept {s} (cancels_stream k begun) kept = stream_cancelled-IsKept t k s begun kept
  Step-IsKept {s} (stops reason) kept = stop-IsKept t s kept reason
  Step-IsKept {s} drains kept = stop_cancelled-IsKept t s kept
  Step-IsKept {s} finishes kept = stop_finished-IsKept t s kept

-- In every state that a host can get into, each promise that it has made (for a tool call, an
-- authorization, a record of a tool call or a model request) is in at most one place: it waits in
-- its map, or it is settled, once; it is settled, or it waits for a reply or for the start of its
-- response, unless `new Response` has thrown for it; no promise is settled that has not been made;
-- and no response that was ended, and none that is resolved but not started, is left in the map of
-- pending responses.
pub Reach-IsKept :
    {P : Type 0} {identity : AgentWorkerIdentity} {s : WorkerHost P} (t : ℕ)
    → Reach identity s
    → IsKept t s
Reach-IsKept {P} {identity} t (created builds) = new_host-IsKept P t identity builds
Reach-IsKept t (next reached step) = Step-IsKept t step (Reach-IsKept t reached)
