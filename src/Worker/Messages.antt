-- ===== src/Worker/Messages.antt =====
-- The protocol of packages/agent-runtime-contracts/src/index.ts, as far as
-- packages/agent-runtime-worker/src/AgentWorkerHost.ts looks into it; the rest of a record is a
-- value of a type `P`. Every message that the host sends has protocol version 1.
use my_note_book.Base.{ℕ, String, Bool, Option, List}

abbrev pub agent_worker_protocol_version : ℕ
agent_worker_protocol_version = 1

-- A thrown value: the `code` of the object if that is a text, and the text of the error.
pub record Thrown : Type 0 where
  pub name : String
  pub code : Option String
  pub message : String

pub data AgentWorkerErrorCode : Type 0 where
  duplicate_run run_not_found invalid_steer authorization_not_found : AgentWorkerErrorCode
  worker_protocol_error worker_unavailable runtime_error : AgentWorkerErrorCode

pub record AgentWorkerError : Type 0 where
  pub code : AgentWorkerErrorCode
  pub message : String
  pub retryable : Bool

pub record AgentWorkerIdentity : Type 0 where
  pub protocol_version : ℕ
  pub worker_instance_id : String
  pub pid : ℕ
  pub runtime : String
  pub runtime_version : String

pub record AgentWorkerToolInvocation (P : Type 0) : Type 0 where
  pub request_id : String
  pub run_id : String
  pub turn_id : Option String
  pub internal_tool_call_id : String
  pub provider_tool_call_id : Option String
  pub tool_name : String
  pub arguments : P
  pub source : P

pub record AgentWorkerToolResult (P : Type 0) : Type 0 where
  pub is_ok : Bool
  pub value : Option P
  pub error : Option String
  pub error_code : Option String
  pub retryable : Option Bool
  pub retry_after_ms : Option ℕ
  pub is_error : Option Bool

pub record AgentWorkerAuthorizationRequest : Type 0 where
  pub authorization_id : String
  pub run_id : String
  pub question : String
  pub context : String
  pub options : List String
  pub allow_free_text : Bool

pub record AgentWorkerProviderRequest : Type 0 where
  pub request_id : String
  pub run_id : String
  pub url : String
  pub method : String
  pub headers : List (String × String)
  pub body : Option String

pub record AgentRunSteerInput : Type 0 where
  pub authorization_id : String
  pub answer : String

pub record AgentRunRequest (P : Type 0) : Type 0 where
  pub run_id : String
  pub intent : String
  pub rest : P

pub record AgentSidecarSubmission (P : Type 0) : Type 0 where
  pub run_id : String
  pub rest : P

pub data AgentRuntimeEventType : Type 0 where
  run_completed run_failed run_cancelled other : AgentRuntimeEventType

pub record AgentRuntimeEvent (P : Type 0) : Type 0 where
  pub run_id : String
  pub sequence : ℕ
  pub event_type : AgentRuntimeEventType
  pub payload : P

-- What the supervisor sends.
pub data AgentWorkerHostMessage (P : Type 0) : Type 0 where
  supervisor_hello : String → ℕ → AgentWorkerHostMessage P
  run_start : String → AgentRunRequest P → AgentWorkerHostMessage P
  orchestration_start : String → AgentSidecarSubmission P → AgentWorkerHostMessage P
  run_cancel : String → String → AgentWorkerHostMessage P
  run_steer : String → String → AgentRunSteerInput → AgentWorkerHostMessage P
  tool_result : String → AgentWorkerToolResult P → AgentWorkerHostMessage P
  authorization_result : String → String → String → AgentWorkerHostMessage P
  tool_recorded : String → AgentWorkerHostMessage P
  provider_response_started : String → ℕ → List (String × String) → AgentWorkerHostMessage P
  provider_response_chunk : String → String → AgentWorkerHostMessage P
  provider_response_completed : String → AgentWorkerHostMessage P
  provider_response_failed : String → String → AgentWorkerHostMessage P
  supervisor_shutdown : String → AgentWorkerHostMessage P

-- What the worker sends. A run's result is followed by the finalization that it carries.
pub data AgentWorkerMessage (P : Type 0) : Type 0 where
  runtime_hello : AgentWorkerIdentity → AgentWorkerMessage P
  run_event : AgentRuntimeEvent P → AgentWorkerMessage P
  orchestration_prepared : String → P → AgentRunRequest P → AgentWorkerMessage P
  orchestration_completed : String → P → AgentWorkerMessage P
  run_result : String → P → Option P → AgentWorkerMessage P
  run_error : String → String → AgentWorkerError → AgentWorkerMessage P
  run_was_cancelled : String → String → AgentWorkerMessage P
  run_steered : String → String → AgentWorkerMessage P
  tool_invoke : AgentWorkerToolInvocation P → AgentWorkerMessage P
  tool_cancel : String → AgentWorkerMessage P
  tool_record : String → P → AgentWorkerMessage P
  authorization_request : String → AgentWorkerAuthorizationRequest → AgentWorkerMessage P
  provider_request : AgentWorkerProviderRequest → AgentWorkerMessage P
  provider_cancel : String → AgentWorkerMessage P
  heartbeat : String → List String → ℕ → AgentWorkerMessage P
  shutdown : String → String → AgentWorkerMessage P
