-- ===== src/Run/Tests.antt =====
-- Runs of the engine on concrete commands.
use my_note_book.Base.{ℕ, String, none, some, List, [], ◌∷◌, ◌++◌, map, ◌≡◌, refl}
use my_note_book.Run.Lifecycle.{
  AgentPlanStep, AgentRunLifecycleState, AgentPendingApproval, reason, tool, pending, executing,
  completed, step_succeeded, step_started, approval_granted, run_completed, update_plan,
  create_idle_agent_run_lifecycle, reduce_agent_run_event,
}
use my_note_book.Run.Engine.{
  AgentRunCommand, AgentRunEngine, EngineCall, dispatches, resets, create_run, set_plan, start_step,
  complete_step, request_approval, grant_approval, complete_run, new_engine, calls,
  decide_agent_run_events, apply_event, apply_events, dispatch, call, reset,
}
use my_note_book.Run.Invariant.{IsConsistent, calls-IsConsistent}
use my_note_book.Run.Plan.{shape, bystanders, reduce-plan_frame, reduce-pending_approval}
use my_note_book.Run.Replay.{replay, trace, dispatch_all, calls-replay, dispatch_all-notified}

abbrev a_step : String → AgentPlanStep ℕ
a_step id = record {
  id = id;
  step_type = tool;
  status = pending;
  depends_on = [];
  input = 7;
  output = none;
  error = none;
}

abbrev commands : List (AgentRunCommand ℕ × ℕ)
commands =
    (create_run "r" "g", 1)
    ∷ (set_plan (a_step "a" ∷ a_step "b" ∷ []), 2)
    ∷ (start_step "a", 3)
    ∷ (request_approval "q" (some "a") "go on?", 4)
    ∷ (grant_approval "q", 5)
    ∷ (complete_step "a" (some 9), 6)
    ∷ (complete_run, 7)
    ∷ []

abbrev engine_calls : List (EngineCall ℕ)
engine_calls = resets ∷ map (λ c. dispatches c.0 c.1) commands

run_test :
    ((calls new_engine engine_calls).current_state.phase ≡ completed)
    × ((calls new_engine engine_calls).current_state.completed_at ≡ some 7)
unfolding calls call dispatch decide_agent_run_events apply_events apply_event new_engine reset
    reduce_agent_run_event update_plan
run_test = (refl, refl)

calls-IsConsistent_example : IsConsistent (calls new_engine engine_calls).current_state
calls-IsConsistent_example = calls-IsConsistent engine_calls

calls-replay_example :
    (calls new_engine engine_calls).current_state
    ≡ replay create_idle_agent_run_lifecycle (calls new_engine engine_calls).event_history
calls-replay_example = calls-replay engine_calls

abbrev fresh : AgentRunEngine ℕ
fresh = new_engine

dispatch_all-notified_example :
    (es : List (my_note_book.Run.Lifecycle.AgentRunEvent ℕ)) × ((dispatch_all fresh
        commands).event_history
      ≡ fresh.event_history ++ es)
    × ((dispatch_all fresh commands).notified ≡ fresh.notified ++ trace fresh.current_state es)
dispatch_all-notified_example = dispatch_all-notified fresh commands

abbrev asking : AgentPendingApproval
asking = record { id = "q"; step_id = none; question = "go on?" }

abbrev started : AgentRunLifecycleState ℕ
started = record {
  id = some "r";
  goal = "g";
  phase = executing;
  plan = a_step "a" ∷ a_step "b" ∷ [];
  current_step_id = some "a";
  pending_approval = some asking;
  active_tool_call_id = none;
  error = none;
  started_at = some 1;
  completed_at = none;
}

reduce-plan_frame_example :
    (map shape (reduce_agent_run_event started (step_succeeded "a" (some 9) 5)).plan
      ≡ map shape started.plan)
    × (bystanders (some "a") (reduce_agent_run_event started (step_succeeded "a" (some 9) 5)).plan
        ≡ bystanders (some "a") started.plan)
reduce-plan_frame_example = reduce-plan_frame started (step_succeeded "a" (some 9) 5) refl

reduce-pending_approval_example :
    (reduce_agent_run_event started (approval_granted "other" 5)).pending_approval ≡ some asking
reduce-pending_approval_example =
    reduce-pending_approval started (approval_granted "other" 5) asking refl refl
