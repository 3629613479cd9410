-- ===== src/Worker/Tests.antt =====
-- A run that calls a tool and is stopped.
use my_note_book.Base.{
  ℕ, String, Bool, true, false, not, ◌&&◌, leb, nat_eq, List, ◌+◌, ◌≤◌, none, [], ◌∷◌, ◌++◌, ◌≡◌,
  refl, arith, lookup, insert, delete, has, add, remove, decimal,
}
use my_note_book.Worker.Messages.{
  Thrown, AgentWorkerIdentity, AgentWorkerToolInvocation, AgentWorkerProviderRequest,
  AgentRunRequest, AgentRuntimeEvent, run_cancelled, run_start, shutdown,
}
use my_note_book.Worker.Host.{
  PendingProviderResponse, live, WorkerHost, new_host, start, normalize_worker_error,
}
use my_note_book.Worker.Replies.{invoke_tool, wait_for_host_reply}
use my_note_book.Worker.Provider.{
  provider_fetch_sent, start_provider_response, finish_provider_response, fail_provider_response,
}
use my_note_book.Worker.Runs.{
  thrown, start_run, runtime_event, run_answered, run_ended, stop, stop_cancelled, none_active,
  reject_pending, stop_finished, on_message, refused_protocol,
}
use my_note_book.Worker.Steps.{
  Reach, created, next, starts_up, receives, emits, answers, ends, invokes, fetches, stops, drains,
}
use my_note_book.Worker.Tickets.{settlements, failures, places, IsKept}
use my_note_book.Worker.Tickets.Kept.{Reach-IsKept}
use my_note_book.Worker.Claims.{IsClaimed, Reach-IsClaimed}
use my_note_book.Worker.Traces.{IsTraced, Reach-IsTraced}
use my_note_book.Worker.Stopping.{stop_finished-settles}
use my_note_book.Worker.Stranded.{start_provider_response-unbuilt}

abbrev me : AgentWorkerIdentity
me = record {
  protocol_version = 1;
  worker_instance_id = "w";
  pid = 7;
  runtime = "ai-sdk";
  runtime_version = "v";
}

-- The statuses that may have a body, as `new Response` takes them.
abbrev plain_status : ℕ → List (String × String) → Bool
plain_status status headers =
    leb 200 status
    && leb status 599
    && not (nat_eq status 204)
    && not (nat_eq status 205)
    && not (nat_eq status 304)

abbrev request : AgentRunRequest ℕ
request = record { run_id = "r"; intent = "ask"; rest = 0 }

abbrev tool_call : AgentWorkerToolInvocation ℕ
tool_call = record {
  request_id = "t";
  run_id = "r";
  turn_id = none;
  internal_tool_call_id = "c";
  provider_tool_call_id = none;
  tool_name = "read_document";
  arguments = 0;
  source = 0;
}

abbrev model_request : AgentWorkerProviderRequest
model_request = record {
  request_id = "m";
  run_id = "r";
  url = "u";
  method = "POST";
  headers = [];
  body = none;
}

abbrev cancelled_event : AgentRuntimeEvent ℕ
cancelled_event = record { run_id = "r"; sequence = 0; event_type = run_cancelled; payload = 0 }

abbrev aborted_run : Thrown
aborted_run = record { name = "AbortError"; code = none; message = "stop" }

abbrev busy : WorkerHost ℕ
busy = provider_fetch_sent model_request false (
    invoke_tool tool_call live
      (on_message 1 (run_start "q" request) (start 0 (new_host ℕ me plain_status))))

abbrev drained : WorkerHost ℕ
drained = run_ended "r" (
    run_answered "r" (thrown aborted_run)
      (stop_cancelled (stop "bye" (runtime_event cancelled_event busy))))

busy_reached : Reach me busy
unfolding provider_fetch_sent invoke_tool wait_for_host_reply on_message start new_host start_run
    lookup insert has add
busy_reached =
    let started =
      next (next (created plain_status) (starts_up 0)) (receives 1 (run_start "q" request) refl) in
    next (next started (invokes tool_call live)) (fetches model_request false refl)

drained_reached : Reach me drained
drained_reached =
    next
      (next (next (next (next busy_reached (emits cancelled_event)) (stops "bye")) drains)
        (answers "r" (thrown aborted_run)))
      (ends "r")

Reach-IsKept_example : IsKept 1 drained
Reach-IsKept_example = Reach-IsKept 1 drained_reached

Reach-IsClaimed_example : IsClaimed "r" drained
Reach-IsClaimed_example = Reach-IsClaimed "r" drained_reached

Reach-IsTraced_example : IsTraced "r" drained
Reach-IsTraced_example = Reach-IsTraced "r" drained_reached

stop_finished-settles_example :
    let u = stop_finished drained in
    (1 ≤ settlements 1 u.settled + failures 1 u.unbuilt)
    × (settlements 1 u.settled ≤ 1)
    × (u.pending_tools ≡ [])
    × (u.pending_authorizations ≡ [])
    × (u.pending_tool_records ≡ [])
    × (u.pending_provider_responses ≡ [])
    × (u.sent
        ≡ (reject_pending "bye" drained).sent
          ++ shutdown drained.identity.worker_instance_id "bye" ∷ [])
    × (u.channel_closed ≡ true)
    × (u.subscribed ≡ false)
unfolding run_ended run_answered stop_cancelled stop runtime_event provider_fetch_sent invoke_tool
    wait_for_host_reply on_message start new_host start_run lookup insert delete has add remove
    none_active normalize_worker_error
stop_finished-settles_example =
    stop_finished-settles drained "bye" ("r" ∷ []) 1 drained_reached refl refl (omega arith)

-- The entry of the model request.
abbrev asked : PendingProviderResponse
asked = record {
  ticket = 1;
  response_started = false;
  resolved = false;
  finished = false;
  watched = true;
}

-- A provider that answers with the status 204.
start_provider_response-unbuilt_example :
    let t = start_provider_response "m" 204 [] busy in
    (places 1 (finish_provider_response "m" t) ≡ 0)
    × (places 1 (fail_provider_response "m" aborted_run t) ≡ 0)
unfolding provider_fetch_sent invoke_tool wait_for_host_reply on_message start new_host start_run
    lookup insert has add
start_provider_response-unbuilt_example =
    start_provider_response-unbuilt "m" 204 [] busy asked aborted_run busy_reached refl refl refl
      refl

refused_version : refused_protocol 205 ≡ "Unsupported supervisor protocol 205."
unfolding refused_protocol decimal
refused_version = refl
