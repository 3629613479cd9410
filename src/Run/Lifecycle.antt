-- ===== src/Run/Lifecycle.antt =====
-- src/models/agent/agentRunLifecycle.ts. `unknown` inputs and outputs are values of a type `V`, an
-- absent field or a null is `none`, and times are natural numbers of milliseconds.
use my_note_book.Base.{
  ℕ, String, Bool, true, false, Option, none, some, List, [], ◌∷◌, map, ◌==◌, if◌then◌else◌, holds,
  or_else, find_first,
}

pub data AgentRunPhase : Type 0 where
  idle planning executing waiting_user waiting_external completed failed cancelled : AgentRunPhase

pub data AgentPlanStepType : Type 0 where
  reason tool delegate approval write respond finalize : AgentPlanStepType

pub data AgentPlanStepStatus : Type 0 where
  pending running succeeded step_failed blocked : AgentPlanStepStatus

pub record AgentPlanStep (V : Type 0) : Type 0 where
  pub id : String
  pub step_type : AgentPlanStepType
  pub status : AgentPlanStepStatus
  pub depends_on : List String
  pub input : V
  pub output : Option V
  pub error : Option String

pub record AgentPendingApproval : Type 0 where
  pub id : String
  pub step_id : Option String
  pub question : String

pub record AgentRunLifecycleState (V : Type 0) : Type 0 where
  pub id : Option String
  pub goal : String
  pub phase : AgentRunPhase
  pub plan : List (AgentPlanStep V)
  pub current_step_id : Option String
  pub pending_approval : Option AgentPendingApproval
  pub active_tool_call_id : Option String
  pub error : Option String
  pub started_at : Option ℕ
  pub completed_at : Option ℕ

-- The last number of each event is `occurredAt`.
pub data AgentRunEvent (V : Type 0) : Type 0 where
  task_created : String → String → ℕ → AgentRunEvent V
  plan_generated : List (AgentPlanStep V) → ℕ → AgentRunEvent V
  step_started : String → ℕ → AgentRunEvent V
  step_succeeded : String → Option V → ℕ → AgentRunEvent V
  step_errored : String → String → ℕ → AgentRunEvent V
  tool_call_requested : Option String → String → ℕ → AgentRunEvent V
  tool_call_succeeded : String → ℕ → AgentRunEvent V
  tool_call_failed : String → String → ℕ → AgentRunEvent V
  approval_requested : String → Option String → String → ℕ → AgentRunEvent V
  approval_granted : String → ℕ → AgentRunEvent V
  approval_rejected : String → String → ℕ → AgentRunEvent V
  external_wait_started : Option String → ℕ → AgentRunEvent V
  external_wait_finished : Option String → ℕ → AgentRunEvent V
  run_completed : ℕ → AgentRunEvent V
  run_failed : String → ℕ → AgentRunEvent V
  run_cancelled : ℕ → AgentRunEvent V

abbrev pub is_reason : Option AgentPlanStepType → Bool
is_reason (some reason) = true
is_reason _ = false

-- `state.pendingApproval?.id === approvalId`
abbrev pub is_pending : Option AgentPendingApproval → String → Bool
is_pending none approval_id = false
is_pending (some request) approval_id = request.id == approval_id

module _ {V : Type 0} where
  unfoldable pub create_idle_agent_run_lifecycle : AgentRunLifecycleState V
  create_idle_agent_run_lifecycle = record {
    id = none;
    goal = "";
    phase = idle;
    plan = [];
    current_step_id = none;
    pending_approval = none;
    active_tool_call_id = none;
    error = none;
    started_at = none;
    completed_at = none;
  }

  -- A copy: values are immutable here.
  abbrev pub clone_step : AgentPlanStep V → AgentPlanStep V
  clone_step step = record step { depends_on = step.depends_on }

  -- `plan.map((step) => (step.id === stepId ? update(step) : step))`
  unfoldable pub update_plan :
      String → (AgentPlanStep V → AgentPlanStep V) → List (AgentPlanStep V) → List (AgentPlanStep V)
  update_plan step_id update [] = []
  update_plan step_id update (step ∷ plan) =
      (if step.id == step_id then update step else step) ∷ update_plan step_id update plan

  -- The partial update of the state is a function, applied before the plan is mapped.
  unfoldable pub update_step :
      AgentRunLifecycleState V
      → String
      → (AgentPlanStep V → AgentPlanStep V)
      → (AgentRunLifecycleState V → AgentRunLifecycleState V)
      → AgentRunLifecycleState V
  update_step state step_id update state_update = record (state_update state) {
    plan = update_plan step_id update state.plan;
  }

  abbrev type_of_step : Option (AgentPlanStep V) → Option AgentPlanStepType
  type_of_step none = none
  type_of_step (some step) = some step.step_type

  unfoldable pub step_phase : List (AgentPlanStep V) → String → AgentRunPhase
  step_phase plan step_id =
      if is_reason (type_of_step (find_first (λ step. step.id == step_id) plan))
      then planning
      else executing

  unfoldable pub terminal_state :
      AgentRunLifecycleState V → AgentRunPhase → ℕ → Option String → AgentRunLifecycleState V
  terminal_state state phase completed_at error = record state {
    phase = phase;
    current_step_id = none;
    pending_approval = none;
    active_tool_call_id = none;
    error = error;
    completed_at = some completed_at;
  }

  unfoldable pub reduce_agent_run_event :
      AgentRunLifecycleState V → AgentRunEvent V → AgentRunLifecycleState V
  unfolding create_idle_agent_run_lifecycle update_step step_phase terminal_state
  reduce_agent_run_event state (task_created run_id goal occurred_at) =
      let initial : AgentRunLifecycleState V = create_idle_agent_run_lifecycle in
      record initial {
        id = some run_id;
        goal = goal;
        phase = planning;
        started_at = some occurred_at;
      }
  reduce_agent_run_event state (plan_generated steps occurred_at) = record state {
    phase = planning;
    plan = map clone_step steps;
  }
  reduce_agent_run_event state (step_started step_id occurred_at) =
      update_step state step_id (λ step. record step { status = running })
        (λ s. record s { current_step_id = some step_id; phase = step_phase state.plan step_id })
  reduce_agent_run_event state (step_succeeded step_id output occurred_at) =
      update_step state step_id (λ step. record step { status = succeeded; output = output })
        (λ s. record s {
          current_step_id =
              if holds state.current_step_id step_id then none else state.current_step_id;
        })
  reduce_agent_run_event state (step_errored step_id error occurred_at) =
      update_step state step_id (λ step. record step { status = step_failed; error = some error })
        (λ s. record s { current_step_id = none; error = some error })
  reduce_agent_run_event state (tool_call_requested step_id tool_call_id occurred_at) =
      record state {
        phase = executing;
        current_step_id = or_else step_id state.current_step_id;
        active_tool_call_id = some tool_call_id;
      }
  reduce_agent_run_event state (tool_call_succeeded tool_call_id occurred_at) = record state {
    active_tool_call_id =
        if holds state.active_tool_call_id tool_call_id then none else state.active_tool_call_id;
  }
  reduce_agent_run_event state (tool_call_failed tool_call_id error occurred_at) = record state {
    active_tool_call_id =
        if holds state.active_tool_call_id tool_call_id then none else state.active_tool_call_id;
    error = some error;
  }
  reduce_agent_run_event state (approval_requested approval_id step_id question occurred_at) =
      record state {
        phase = waiting_user;
        pending_approval =
            some (record { id = approval_id; step_id = step_id; question = question });
      }
  reduce_agent_run_event state (approval_granted approval_id occurred_at) =
      if is_pending state.pending_approval approval_id
      then record state { phase = executing; pending_approval = none }
      else state
  reduce_agent_run_event state (approval_rejected approval_id why occurred_at) =
      if is_pending state.pending_approval approval_id
      then record state { phase = executing; pending_approval = none; error = some why }
      else state
  reduce_agent_run_event state (external_wait_started step_id occurred_at) = record state {
    phase = waiting_external;
    current_step_id = step_id;
  }
  reduce_agent_run_event state (external_wait_finished step_id occurred_at) = record state {
    phase = executing;
    current_step_id = step_id;
  }
  reduce_agent_run_event state (run_completed occurred_at) =
      terminal_state state completed occurred_at none
  reduce_agent_run_event state (run_failed error occurred_at) =
      terminal_state state failed occurred_at (some error)
  reduce_agent_run_event state (run_cancelled occurred_at) =
      terminal_state state cancelled occurred_at none
