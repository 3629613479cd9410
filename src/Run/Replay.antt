-- ===== src/Run/Replay.antt =====
-- The engine of src/services/agent/AgentRunEngine.ts is event sourced: its history determines its
-- state, and its observer sees every event once with the state after it.
use my_note_book.Base.{ℕ, List, [], ◌∷◌, ◌++◌, ◌≡◌, refl, sym, ap, ◌∙◌, append_assoc, append-nil}
use my_note_book.Run.Lifecycle.{
  AgentRunEvent, AgentRunLifecycleState, create_idle_agent_run_lifecycle, reduce_agent_run_event,
}
use my_note_book.Run.Engine.{
  AgentRunEngine, AgentRunCommand, EngineCall, dispatches, resets, decide_agent_run_events,
  new_engine, apply_event, apply_events, dispatch, reset, call, calls,
}

module _ {V : Type 0} where
  -- The state that a history leads to.
  unfoldable pub replay :
      AgentRunLifecycleState V → List (AgentRunEvent V) → AgentRunLifecycleState V
  replay s [] = s
  replay s (e ∷ es) = replay (reduce_agent_run_event s e) es

  -- What an observer sees of a history.
  unfoldable pub trace :
      AgentRunLifecycleState V
      → List (AgentRunEvent V)
      → List (AgentRunEvent V × AgentRunLifecycleState V)
  trace s [] = []
  trace s (e ∷ es) = let next = reduce_agent_run_event s e in (e, next) ∷ trace next es

  replay-append :
      (s : AgentRunLifecycleState V) (es fs : List (AgentRunEvent V))
      → replay s (es ++ fs) ≡ replay (replay s es) fs
  unfolding replay
  replay-append s [] fs = refl
  replay-append s (e ∷ es) fs = replay-append (reduce_agent_run_event s e) es fs

  trace-append :
      (s : AgentRunLifecycleState V) (es fs : List (AgentRunEvent V))
      → trace s (es ++ fs) ≡ trace s es ++ trace (replay s es) fs
  unfolding replay trace
  trace-append s [] fs = refl
  trace-append s (e ∷ es) fs = rw (trace-append (reduce_agent_run_event s e) es fs)

  -- The three effects of a list of events on the engine.
  pub apply_events-effect :
      (g : AgentRunEngine V) (es : List (AgentRunEvent V))
      → ((apply_events g es).current_state ≡ replay g.current_state es)
        × ((apply_events g es).event_history ≡ g.event_history ++ es)
        × ((apply_events g es).notified ≡ g.notified ++ trace g.current_state es)
  unfolding apply_events apply_event replay trace
  apply_events-effect g [] = (refl, sym (append-nil _), sym (append-nil _))
  apply_events-effect g (e ∷ es) =
      let next = reduce_agent_run_event g.current_state e in
      let (state, history, notified) = apply_events-effect (apply_event g e) es in
      (
        state,
        history ∙ append_assoc g.event_history (e ∷ []) es,
        notified ∙ append_assoc g.notified ((e, next) ∷ []) (trace next es),
      )

  abbrev initial : AgentRunLifecycleState V
  initial = create_idle_agent_run_lifecycle

  call-replay :
      (g : AgentRunEngine V) (c : EngineCall V)
      → g.current_state ≡ replay initial g.event_history
      → (call g c).current_state ≡ replay initial (call g c).event_history
  unfolding call dispatch reset
  call-replay g (dispatches command now) h =
      let es = decide_agent_run_events command now in
      let (state, history, _) = apply_events-effect g es in
      state
      ∙ ap (λ s. replay s es) h
      ∙ sym (replay-append initial g.event_history es)
      ∙ ap (replay initial) (sym history)
  call-replay g resets h = unfold replay in refl

  calls-replay_from :
      (g : AgentRunEngine V) (cs : List (EngineCall V))
      → g.current_state ≡ replay initial g.event_history
      → (calls g cs).current_state ≡ replay initial (calls g cs).event_history
  unfolding calls
  calls-replay_from g [] h = h
  calls-replay_from g (c ∷ cs) h = calls-replay_from (call g c) cs (call-replay g c h)

  -- After any commands and resets, replaying the engine's event history on the idle state gives
  -- the engine's state.
  pub calls-replay :
      (cs : List (EngineCall V))
      → (calls (new_engine {V = V}) cs).current_state
        ≡ replay create_idle_agent_run_lifecycle (calls (new_engine {V = V}) cs).event_history
  unfolding new_engine
  calls-replay cs = calls-replay_from new_engine cs (unfold replay in refl)

  -- Commands with the times at which they are dispatched, and no reset between them.
  unfoldable pub dispatch_all : AgentRunEngine V → List (AgentRunCommand V × ℕ) → AgentRunEngine V
  dispatch_all g [] = g
  dispatch_all g ((command, now) ∷ cs) = dispatch_all (dispatch g command now) cs

  -- Between two resets the observer is called once for each recorded event, in order, with the
  -- state that the events up to that one lead to.
  pub dispatch_all-notified :
      (g : AgentRunEngine V) (cs : List (AgentRunCommand V × ℕ))
      → (es : List (AgentRunEvent V)) × ((dispatch_all g cs).event_history ≡ g.event_history ++ es)
        × ((dispatch_all g cs).notified ≡ g.notified ++ trace g.current_state es)
  unfolding dispatch_all dispatch
  dispatch_all-notified g [] = ([], sym (append-nil _), unfold trace in sym (append-nil _))
  dispatch_all-notified g ((command, now) ∷ cs) =
      let es = decide_agent_run_events command now in
      let (state, history, notified) = apply_events-effect g es in
      let (fs, later_history, later_notified) = dispatch_all-notified (dispatch g command now) cs in
      (
        es ++ fs,
        later_history ∙ ap (λ h. h ++ fs) history ∙ append_assoc g.event_history es fs,
        later_notified
            ∙ ap (λ s. (apply_events g es).notified ++ trace s fs) state
            ∙ ap (λ n. n ++ trace (replay g.current_state es) fs) notified
            ∙ append_assoc g.notified (trace g.current_state es)
                (trace (replay g.current_state es) fs)
            ∙ ap (λ t. g.notified ++ t) (sym (trace-append g.current_state es fs)),
      )
