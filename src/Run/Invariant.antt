-- ===== src/Run/Invariant.antt =====
-- What holds of a run between two events: src/models/agent/agentRunLifecycle.ts.
use my_note_book.Base.{
  ℕ, Option, none, some, List, [], ◌∷◌, ◌≡◌, refl, ◌⊎◌, inl, inr, Bool, true, false, arith, is_some,
  ap, map,
}
use my_note_book.Run.Lifecycle.{
  AgentRunPhase, idle, planning, executing, waiting_user, completed, failed, cancelled,
  AgentPlanStep, AgentRunEvent, AgentRunLifecycleState, step_started, update_plan, step_phase,
  create_idle_agent_run_lifecycle, reduce_agent_run_event,
}
use my_note_book.Run.Engine.{
  AgentRunEngine, EngineCall, dispatches, resets, decide_agent_run_events, new_engine, apply_event,
  apply_events, dispatch, reset, call, calls,
}

abbrev pub is_terminal : AgentRunPhase → Bool
is_terminal completed = true
is_terminal failed = true
is_terminal cancelled = true
is_terminal _ = false

-- A finished run has nothing in flight and a completion time; a run that waits for the user
-- has a question to answer; an idle run has no id, no plan and no start.
pub record IsConsistent {V : Type 0} (s : AgentRunLifecycleState V) : Type 0 where
  pub finished_step : is_terminal s.phase ≡ true → s.current_step_id ≡ none
  pub finished_approval : is_terminal s.phase ≡ true → s.pending_approval ≡ none
  pub finished_tool : is_terminal s.phase ≡ true → s.active_tool_call_id ≡ none
  pub finished_time : is_terminal s.phase ≡ true → is_some s.completed_at ≡ true
  pub blank : s.phase ≡ idle → (s.id ≡ none) × (s.plan ≡ []) × (s.started_at ≡ none)
  pub asked : s.phase ≡ waiting_user → is_some s.pending_approval ≡ true

module _ {V : Type 0} where
  step_phase_cases :
      (plan : List (AgentPlanStep V)) (id : my_note_book.Base.String)
      → (step_phase plan id ≡ planning) ⊎ (step_phase plan id ≡ executing)
  unfolding step_phase
  step_phase_cases plan id = ground arith

  pub create_idle-IsConsistent : IsConsistent (create_idle_agent_run_lifecycle {V = V})
  unfolding create_idle_agent_run_lifecycle
  create_idle-IsConsistent = ground arith

  pub reduce-IsConsistent :
      (s : AgentRunLifecycleState V) (e : AgentRunEvent V)
      → IsConsistent s
      → IsConsistent (reduce_agent_run_event s e)
  unfolding reduce_agent_run_event update_plan
  reduce-IsConsistent s (step_started id at) h = ground (arith, step_phase_cases s.plan id)
  reduce-IsConsistent s _ h = ground arith

  pub apply_events-IsConsistent :
      (g : AgentRunEngine V) (es : List (AgentRunEvent V))
      → IsConsistent g.current_state
      → IsConsistent (apply_events g es).current_state
  unfolding apply_events apply_event
  apply_events-IsConsistent g [] h = h
  apply_events-IsConsistent g (e ∷ es) h =
      apply_events-IsConsistent (apply_event g e) es (reduce-IsConsistent g.current_state e h)

  pub call-IsConsistent :
      (g : AgentRunEngine V) (c : EngineCall V)
      → IsConsistent g.current_state
      → IsConsistent (call g c).current_state
  unfolding call dispatch reset
  call-IsConsistent g (dispatches command now) h =
      apply_events-IsConsistent g (decide_agent_run_events command now) h
  call-IsConsistent g resets h = create_idle-IsConsistent

  calls-IsConsistent_from :
      (g : AgentRunEngine V) (cs : List (EngineCall V))
      → IsConsistent g.current_state
      → IsConsistent (calls g cs).current_state
  unfolding calls
  calls-IsConsistent_from g [] h = h
  calls-IsConsistent_from g (c ∷ cs) h =
      calls-IsConsistent_from (call g c) cs (call-IsConsistent g c h)

  -- Whatever commands and resets an engine is given from its construction on, its state is
  -- consistent: a completed, failed or cancelled run has no current step, pending approval or
  -- active tool call and has a completion time, a run that waits for the user has a pending
  -- approval, and an idle run has no id, plan or start.
  pub calls-IsConsistent :
      (cs : List (EngineCall V)) → IsConsistent (calls (new_engine {V = V}) cs).current_state
  unfolding new_engine
  calls-IsConsistent cs = calls-IsConsistent_from new_engine cs create_idle-IsConsistent
