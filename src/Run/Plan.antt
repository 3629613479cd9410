-- ===== src/Run/Plan.antt =====
-- What an event leaves alone: the shape of the plan, the steps that it does not name, and an
-- approval that it does not answer (src/models/agent/agentRunLifecycle.ts).
use my_note_book.Base.{
  String, Bool, true, false, not, Option, none, some, List, [], ◌∷◌, map, ◌≡◌, refl, ◌==◌, arith,
  eq_iff, keep, holds, Bool-cases, inl, inr,
}
use my_note_book.Run.Lifecycle.{
  AgentPlanStepType, AgentPlanStep, AgentPendingApproval, AgentRunEvent, AgentRunLifecycleState,
  task_created, plan_generated, step_started, step_succeeded, step_errored, approval_requested,
  approval_granted, approval_rejected, run_completed, run_failed, run_cancelled, update_plan,
  reduce_agent_run_event,
}

-- What a step is, apart from how far it has come.
pub record Shape (V : Type 0) : Type 0 where
  pub id : String
  pub step_type : AgentPlanStepType
  pub depends_on : List String
  pub input : V

module _ {V : Type 0} where
  abbrev pub shape : AgentPlanStep V → Shape V
  shape step = record {
    id = step.id;
    step_type = step.step_type;
    depends_on = step.depends_on;
    input = step.input;
  }

  abbrev pub replaces_plan : AgentRunEvent V → Bool
  replaces_plan (task_created _ _ _) = true
  replaces_plan (plan_generated _ _) = true
  replaces_plan _ = false

  -- The step that an event is about.
  abbrev pub subject : AgentRunEvent V → Option String
  subject (step_started id _) = some id
  subject (step_succeeded id _ _) = some id
  subject (step_errored id _ _) = some id
  subject _ = none

  -- The steps that an event is not about.
  abbrev pub bystanders : Option String → List (AgentPlanStep V) → List (AgentPlanStep V)
  bystanders id plan = keep (λ step. not (holds id step.id)) plan

  module _ (id : String) (update : AgentPlanStep V → AgentPlanStep V) where
    update_plan-shape :
        ((step : AgentPlanStep V) → shape (update step) ≡ shape step)
        → (plan : List (AgentPlanStep V)) → map shape (update_plan id update plan) ≡ map shape plan
    unfolding update_plan
    update_plan-shape same [] = refl
    update_plan-shape same (step ∷ plan) = elim (Bool-cases (step.id == id)) [
      | inl e ↦ rw e (ground (arith, same step, update_plan-shape same plan))
      | inr e ↦ rw e (ground (arith, update_plan-shape same plan))
    ]

    update_plan-bystanders :
        ((step : AgentPlanStep V) → (update step).id ≡ step.id)
        → (plan : List (AgentPlanStep V))
        → bystanders (some id) (update_plan id update plan) ≡ bystanders (some id) plan
    unfolding update_plan
    update_plan-bystanders same [] = refl
    update_plan-bystanders same (step ∷ plan) = ground (
      arith,
      same step,
      eq_iff step.id id,
      eq_iff id step.id,
      eq_iff id (update step).id,
      update_plan-bystanders same plan,
    )

  -- An event that does not set the plan keeps the number and the order of its steps, and of each
  -- the id, the type, the dependencies and the input; and it keeps every step that it is not about
  -- as it was, status, output and error included.
  pub reduce-plan_frame :
      (s : AgentRunLifecycleState V) (e : AgentRunEvent V)
      → replaces_plan e ≡ false
      → (map shape (reduce_agent_run_event s e).plan ≡ map shape s.plan)
        × (bystanders (subject e) (reduce_agent_run_event s e).plan ≡ bystanders (subject e) s.plan)
  unfolding reduce_agent_run_event
  reduce-plan_frame s (step_started id at) h = (
    update_plan-shape id _ (λ step. refl) s.plan,
    update_plan-bystanders id _ (λ step. refl) s.plan,
  )
  reduce-plan_frame s (step_succeeded id output at) h = (
    update_plan-shape id _ (λ step. refl) s.plan,
    update_plan-bystanders id _ (λ step. refl) s.plan,
  )
  reduce-plan_frame s (step_errored id error at) h = (
    update_plan-shape id _ (λ step. refl) s.plan,
    update_plan-bystanders id _ (λ step. refl) s.plan,
  )
  reduce-plan_frame s _ h = ground arith

  -- The events after which a pending approval `id` may be gone.
  abbrev pub settles_approval : AgentRunEvent V → String → Bool
  settles_approval (task_created _ _ _) id = true
  settles_approval (approval_requested _ _ _ _) id = true
  settles_approval (approval_granted answered _) id = id == answered
  settles_approval (approval_rejected answered _ _) id = id == answered
  settles_approval (run_completed _) id = true
  settles_approval (run_failed _ _) id = true
  settles_approval (run_cancelled _) id = true
  settles_approval _ id = false

  -- A pending approval stays pending, with its step and question, until it is granted or rejected
  -- under its own id, another is requested, the run ends or a new task is created.
  pub reduce-pending_approval :
      (s : AgentRunLifecycleState V) (e : AgentRunEvent V) (p : AgentPendingApproval)
      → s.pending_approval ≡ some p
      → settles_approval e p.id ≡ false
      → (reduce_agent_run_event s e).pending_approval ≡ some p
  unfolding reduce_agent_run_event
  reduce-pending_approval s (task_created _ _ _) p h k = ground arith
  reduce-pending_approval s (approval_granted id _) p h k = ground (arith, h)
  reduce-pending_approval s (approval_rejected id _ _) p h k = ground (arith, h)
  reduce-pending_approval s _ p h k = ground arith
