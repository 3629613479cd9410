-- ===== src/Run/Engine.antt =====
-- src/services/agent/AgentRunEngine.ts. The clock's reading is an argument of `dispatch`, and the
-- calls of `onEvent` are kept, oldest first, in `notified`.
use my_note_book.Base.{ℕ, String, Option, List, [], ◌∷◌, ◌++◌}
use my_note_book.Run.Lifecycle.{
  AgentPlanStep, AgentRunEvent, AgentRunLifecycleState, task_created, plan_generated, step_started,
  step_succeeded, step_errored, tool_call_requested, tool_call_succeeded, tool_call_failed,
  approval_requested, approval_granted, approval_rejected, external_wait_started,
  external_wait_finished, run_completed, run_failed, run_cancelled, create_idle_agent_run_lifecycle,
  reduce_agent_run_event,
}

pub data AgentRunCommand (V : Type 0) : Type 0 where
  create_run : String → String → AgentRunCommand V
  set_plan : List (AgentPlanStep V) → AgentRunCommand V
  start_step : String → AgentRunCommand V
  complete_step : String → Option V → AgentRunCommand V
  fail_step : String → String → AgentRunCommand V
  request_tool : Option String → String → AgentRunCommand V
  complete_tool : String → AgentRunCommand V
  fail_tool : String → String → AgentRunCommand V
  request_approval : String → Option String → String → AgentRunCommand V
  grant_approval : String → AgentRunCommand V
  reject_approval : String → String → AgentRunCommand V
  start_external_wait : Option String → AgentRunCommand V
  finish_external_wait : Option String → AgentRunCommand V
  complete_run : AgentRunCommand V
  fail_run : String → AgentRunCommand V
  cancel_run : AgentRunCommand V

pub record AgentRunEngine (V : Type 0) : Type 0 where
  pub current_state : AgentRunLifecycleState V
  pub event_history : List (AgentRunEvent V)
  pub notified : List (AgentRunEvent V × AgentRunLifecycleState V)

-- What a client of the engine may do: dispatch a command at a time, or reset.
pub data EngineCall (V : Type 0) : Type 0 where
  dispatches : AgentRunCommand V → ℕ → EngineCall V
  resets : EngineCall V

module _ {V : Type 0} where
  unfoldable pub decide_agent_run_events : AgentRunCommand V → ℕ → List (AgentRunEvent V)
  decide_agent_run_events (create_run run_id goal) at = task_created run_id goal at ∷ []
  decide_agent_run_events (set_plan steps) at = plan_generated steps at ∷ []
  decide_agent_run_events (start_step step_id) at = step_started step_id at ∷ []
  decide_agent_run_events (complete_step step_id output) at = step_succeeded step_id output at ∷ []
  decide_agent_run_events (fail_step step_id error) at = step_errored step_id error at ∷ []
  decide_agent_run_events (request_tool step_id tool_call_id) at =
      tool_call_requested step_id tool_call_id at ∷ []
  decide_agent_run_events (complete_tool tool_call_id) at = tool_call_succeeded tool_call_id at ∷ []
  decide_agent_run_events (fail_tool tool_call_id error) at =
      tool_call_failed tool_call_id error at ∷ []
  decide_agent_run_events (request_approval approval_id step_id question) at =
      approval_requested approval_id step_id question at ∷ []
  decide_agent_run_events (grant_approval approval_id) at = approval_granted approval_id at ∷ []
  decide_agent_run_events (reject_approval approval_id reason) at =
      approval_rejected approval_id reason at ∷ []
  decide_agent_run_events (start_external_wait step_id) at = external_wait_started step_id at ∷ []
  decide_agent_run_events (finish_external_wait step_id) at = external_wait_finished step_id at ∷ []
  decide_agent_run_events complete_run at = run_completed at ∷ []
  decide_agent_run_events (fail_run error) at = run_failed error at ∷ []
  decide_agent_run_events cancel_run at = run_cancelled at ∷ []

  unfoldable pub new_engine : AgentRunEngine V
  new_engine = record {
    current_state = create_idle_agent_run_lifecycle;
    event_history = [];
    notified = [];
  }

  -- One round of the loop of `dispatch`.
  unfoldable pub apply_event : AgentRunEngine V → AgentRunEvent V → AgentRunEngine V
  apply_event engine event =
      let next = reduce_agent_run_event engine.current_state event in
      record {
        current_state = next;
        event_history = engine.event_history ++ event ∷ [];
        notified = engine.notified ++ (event, next) ∷ [];
      }

  unfoldable pub apply_events : AgentRunEngine V → List (AgentRunEvent V) → AgentRunEngine V
  apply_events engine [] = engine
  apply_events engine (event ∷ events) = apply_events (apply_event engine event) events

  unfoldable pub dispatch : AgentRunEngine V → AgentRunCommand V → ℕ → AgentRunEngine V
  dispatch engine command now = apply_events engine (decide_agent_run_events command now)

  unfoldable pub reset : AgentRunEngine V → AgentRunEngine V
  reset engine = record engine {
    current_state = create_idle_agent_run_lifecycle;
    event_history = [];
  }

  unfoldable pub call : AgentRunEngine V → EngineCall V → AgentRunEngine V
  call engine (dispatches command now) = dispatch engine command now
  call engine resets = reset engine

  unfoldable pub calls : AgentRunEngine V → List (EngineCall V) → AgentRunEngine V
  calls engine [] = engine
  calls engine (c ∷ cs) = calls (call engine c) cs
