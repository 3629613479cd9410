-- ===== src/Worker/Steps.antt =====
-- The runs of packages/agent-runtime-worker/src/AgentWorkerHost.ts: everything that its supervisor,
-- its runtime, its timers, the planner and the finalizer can make it do next.
use my_note_book.Base.{ℕ, String, Bool, true, none, some, List, ◌≡◌, lookup}
use my_note_book.Worker.Messages.{
  AgentWorkerIdentity, AgentWorkerToolInvocation, AgentWorkerAuthorizationRequest,
  AgentWorkerProviderRequest, AgentRunRequest, AgentSidecarSubmission, AgentRuntimeEvent,
  AgentWorkerHostMessage,
}
use my_note_book.Worker.Host.{
  Signal, PendingProviderResponse, WorkerHost, new_host, emit_heartbeat, start,
}
use my_note_book.Worker.Replies.{
  Channel, invoke_tool, request_authorization, record_tool_call, reply_aborted,
}
use my_note_book.Worker.Provider.{
  provider_fetch_refused, provider_fetch_sent, provider_aborted, stream_cancelled,
}
use my_note_book.Worker.Runs.{
  Outcome, runtime_event, run_answered, run_finalized, run_ended, orchestration_planned,
  cancel_answered, steer_answered, stop, stop_cancelled, stop_finished, on_message,
}

-- A request id that `createId` returns is not in use, a heartbeat needs its timer, a message its
-- subscription, and a body stream can be cancelled once the promise of its response is
-- resolved.
pub data Step {P : Type 0} (s : WorkerHost P) : WorkerHost P → Type 0 where
  starts_up : (now : ℕ) → Step s (start now s)
  beats : (now : ℕ) → s.heartbeat_timer ≡ true → Step s (emit_heartbeat now s)
  receives :
      (version : ℕ) (message : AgentWorkerHostMessage P)
      → s.subscribed ≡ true
      → Step s (on_message version message s)
  emits : (event : AgentRuntimeEvent P) → Step s (runtime_event event s)
  answers : (run_id : String) (outcome : Outcome P) → Step s (run_answered run_id outcome s)
  finalizes : (run_id : String) (outcome : Outcome P) → Step s (run_finalized run_id outcome s)
  ends : (run_id : String) → Step s (run_ended run_id s)
  plans :
      (request_id : String) (submission : AgentSidecarSubmission P)
      (outcome : Outcome (P × AgentRunRequest P))
      → Step s (orchestration_planned request_id submission outcome s)
  cancel_ends :
      (request_id run_id : String) (outcome : Outcome (Unit {0}))
      → Step s (cancel_answered request_id run_id outcome s)
  steer_ends :
      (request_id run_id : String) (outcome : Outcome (Unit {0}))
      → Step s (steer_answered request_id run_id outcome s)
  invokes :
      (request : AgentWorkerToolInvocation P) (signal : Signal)
      → Step s (invoke_tool request signal s)
  asks :
      (request_id : String) (request : AgentWorkerAuthorizationRequest) (signal : Signal)
      → Step s (request_authorization request_id request signal s)
  records_call :
      (request_id : String) (tool_call : P) (signal : Signal)
      → Step s (record_tool_call request_id tool_call signal s)
  aborts : (c : Channel) (request_id reason : String) → Step s (reply_aborted c request_id reason s)
  refuses_fetch : (reason : String) → Step s (provider_fetch_refused reason s)
  fetches :
      (request : AgentWorkerProviderRequest) (aborted_meanwhile : Bool)
      → lookup request.request_id s.pending_provider_responses ≡ none
      → Step s (provider_fetch_sent request aborted_meanwhile s)
  aborts_fetch : (request_id reason : String) → Step s (provider_aborted request_id reason s)
  cancels_stream :
      (request_id : String)
      → ((p : PendingProviderResponse)
          → lookup request_id s.pending_provider_responses ≡ some p
          → p.resolved ≡ true)
      → Step s (stream_cancelled request_id s)
  stops : (reason : String) → Step s (stop reason s)
  drains : Step s (stop_cancelled s)
  finishes : Step s (stop_finished s)

-- The states that a new host can get into.
pub data Reach {P : Type 0} (identity : AgentWorkerIdentity) : WorkerHost P → Type 0 where
  created :
      (builds_response : ℕ → List (String × String) → Bool)
      → Reach identity (new_host P identity builds_response)
  next : {s t : WorkerHost P} → Reach identity s → Step s t → Reach identity t
