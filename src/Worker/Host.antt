-- ===== src/Worker/Host.antt =====
-- The state of packages/agent-runtime-worker/src/AgentWorkerHost.ts, its construction, `start` and
-- the helpers that its parts share.
use my_note_book.Base.{
  ℕ, String, Bool, true, false, Option, none, some, List, [], ◌∷◌, ◌++◌, ◌==◌, if◌then◌else◌,
}
use my_note_book.Worker.Messages.{
  Thrown, AgentWorkerErrorCode, duplicate_run, run_not_found, invalid_steer,
  authorization_not_found, runtime_error, AgentWorkerError, AgentWorkerIdentity,
  AgentWorkerToolResult, AgentRunSteerInput, AgentRunRequest, AgentWorkerMessage, runtime_hello,
  run_error, heartbeat,
}

-- The abort signal that a call is given.
pub data Signal : Type 0 where
  no_signal live : Signal
  aborted : String → Signal

-- `PendingHostReply`: the promise's ticket, whether an abort listener is registered, and the
-- internal tool call that an abort has to cancel.
pub record PendingHostReply : Type 0 where
  pub ticket : ℕ
  pub watched : Bool
  pub cancels : Option String

-- `resolved` is whether the promise has been resolved, which the code leaves to the promise.
pub record PendingProviderResponse : Type 0 where
  pub ticket : ℕ
  pub response_started : Bool
  pub resolved : Bool
  pub finished : Bool
  pub watched : Bool

-- What a promise that the host has made comes to.
pub data Settlement (P : Type 0) : Type 0 where
  replied : AgentWorkerToolResult P → Settlement P
  answered : String → Settlement P
  recorded : Settlement P
  responded : ℕ → List (String × String) → Settlement P
  rejected : Thrown → Settlement P

-- What happens to the body stream of a response; a chunk is still in base64.
pub data StreamEvent : Type 0 where
  enqueued : String → StreamEvent
  closed : StreamEvent
  errored : Thrown → StreamEvent

-- How far the promise chain of a started run is.
pub data RunStage (P : Type 0) : Type 0 where
  running : RunStage P
  finalizing : P → RunStage P
  settled_run : RunStage P

pub record ActiveRun (P : Type 0) : Type 0 where
  pub request_id : String
  pub finalize : Bool
  pub stage : RunStage P

pub data RuntimeCall (P : Type 0) : Type 0 where
  starts : AgentRunRequest P → RuntimeCall P
  cancels_run : String → RuntimeCall P
  steers : String → AgentRunSteerInput → RuntimeCall P

-- How far `stop` is: it awaits the cancellations, and then the runs that were active.
pub data StopStage : Type 0 where
  not_stopping : StopStage
  cancelling : String → StopStage
  draining : String → List String → StopStage
  stopped : StopStage

-- `builds_response` belongs to the platform: whether `new Response` takes a status and headers with a
-- body stream, or throws. `unbuilt` has the tickets of the promises for which it has thrown.
pub record WorkerHost (P : Type 0) : Type 0 where
  pub builds_response : ℕ → List (String × String) → Bool
  pub identity : AgentWorkerIdentity
  pub claimed_run_ids : List String
  pub terminal_run_ids : List String
  pub active_run_ids : List String
  pub active_run_promises : List (String × ActiveRun P)
  pub pending_tools : List (String × PendingHostReply)
  pub pending_authorizations : List (String × PendingHostReply)
  pub pending_tool_records : List (String × PendingHostReply)
  pub pending_provider_responses : List (String × PendingProviderResponse)
  pub subscribed : Bool
  pub heartbeat_timer : Bool
  pub stopping : Bool
  pub stop_stage : StopStage
  pub channel_closed : Bool
  pub sent : List (AgentWorkerMessage P)
  pub runtime_calls : List (RuntimeCall P)
  pub next_ticket : ℕ
  pub settled : List (ℕ × Settlement P)
  pub streams : List (String × StreamEvent)
  pub unbuilt : List ℕ

unfoldable pub new_host :
    (Q : Type 0) → AgentWorkerIdentity → (ℕ → List (String × String) → Bool) → WorkerHost Q
new_host Q identity builds_response = record {
  builds_response = builds_response;
  identity = identity;
  claimed_run_ids = [];
  terminal_run_ids = [];
  active_run_ids = [];
  active_run_promises = [];
  pending_tools = [];
  pending_authorizations = [];
  pending_tool_records = [];
  pending_provider_responses = [];
  subscribed = false;
  heartbeat_timer = false;
  stopping = false;
  stop_stage = not_stopping;
  channel_closed = false;
  sent = [];
  runtime_calls = [];
  next_ticket = 0;
  settled = [];
  streams = [];
  unbuilt = [];
}

abbrev code_of : Option String → AgentWorkerErrorCode
code_of none = runtime_error
code_of (some code) =
    if code == "duplicate_run"
    then duplicate_run
    else if code == "run_not_found"
    then run_not_found
    else if code == "invalid_steer"
    then invalid_steer
    else if code == "authorization_not_found"
    then authorization_not_found
    else runtime_error

unfoldable pub normalize_worker_error : Thrown → AgentWorkerError
normalize_worker_error error = record {
  code = code_of error.code;
  message = error.message;
  retryable = false;
}

abbrev pub abort_error : String → Thrown
abort_error reason = record { name = "AbortError"; code = none; message = reason }

abbrev pub plain_error : String → Thrown
plain_error message = record { name = "Error"; code = none; message = message }

module _ {P : Type 0} where
  abbrev pub send : AgentWorkerMessage P → WorkerHost P → WorkerHost P
  send message s = record s { sent = s.sent ++ message ∷ [] }

  abbrev pub send_run_error : String → String → AgentWorkerError → WorkerHost P → WorkerHost P
  send_run_error request_id run_id error s = send (run_error request_id run_id error) s

  abbrev pub settle : ℕ → Settlement P → WorkerHost P → WorkerHost P
  settle ticket settlement s = record s { settled = s.settled ++ (ticket, settlement) ∷ [] }

  unfoldable pub emit_heartbeat : ℕ → WorkerHost P → WorkerHost P
  emit_heartbeat now s = send (heartbeat s.identity.worker_instance_id s.active_run_ids now) s

  unfoldable pub start : ℕ → WorkerHost P → WorkerHost P
  unfolding emit_heartbeat
  start now s =
      if s.subscribed
      then s
      else let t =
          emit_heartbeat now (send (runtime_hello s.identity) (record s { subscribed = true })) in
        record t { heartbeat_timer = true }
