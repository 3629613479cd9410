-- ===== src/Learning/Consistent.antt =====
-- The sessions that src/services/cognitive/LearningSessionStateService.ts can lead to.
use mathlib.Core.Path.{subst}
use my_note_book.Base.{
  ℕ, ◌≤◌, String, true, false, not, Option, none, List, [], ◌∷◌, ◌++◌, length, length-append, All,
  All-append, trim, eq_iff, arith, ◌≡◌, ◌≢◌, refl, sym, ◌∙◌, ◌⊎◌, inl, inr,
}
use my_note_book.Documents.{ok}
use my_note_book.Learning.Session.{
  LearningUnderstandingState, not_assessed, demonstrated, needs_review, await_attempt, complete,
  review, LearningAttempt, LearningSessionState, LearningTurnResult, create_learning_session_state,
  is_not_assessed, has_attempts, apply_learning_turn, open_session, analyse_attempt, record_attempt,
  attempt_of, answer, expected_hint_level, ends_session, opens, is_waiting, is_no_prompt, completed,
}

-- The assessment of the last attempt.
abbrev pub latest : LearningUnderstandingState → List LearningAttempt → LearningUnderstandingState
latest state [] = state
latest state (attempt ∷ attempts) = latest attempt.understanding_state attempts

latest-append :
    (state : LearningUnderstandingState) (attempts : List LearningAttempt)
    (attempt : LearningAttempt)
    → latest state (attempts ++ attempt ∷ []) ≡ attempt.understanding_state
latest-append state [] attempt = refl
latest-append state (a ∷ attempts) attempt = latest-append a.understanding_state attempts attempt

-- An attempt that was analysed has an answer, an assessment and evidence for it.
abbrev pub IsAnalysed : LearningAttempt → Type 0
IsAnalysed attempt =
    (attempt.response ≢ "")
    × (attempt.evidence ≢ "")
    × (is_not_assessed attempt.understanding_state ≡ false)

pub record IsConsistent (s : LearningSessionState) : Type 0 where
  pub hints_bound : s.hint_level ≤ 3
  pub hints_earned : s.hint_level ≤ length s.attempts
  pub analysed : All IsAnalysed s.attempts
  pub assessed : s.understanding_state ≡ latest not_assessed s.attempts
  pub finished : s.next_step ≡ complete → s.understanding_state ≡ demonstrated
  pub reviewed : s.next_step ≡ review → s.understanding_state ≡ needs_review

-- The sessions that begin with a topic and go on by accepted turns.
pub data IsSession (C : Type 0) : LearningSessionState → Type 0 where
  fresh : (topic : String) → IsSession C (create_learning_session_state topic)
  turned :
      {s t : LearningSessionState} (id : String) (now : ℕ) (attempt : Option String)
      (turn : LearningTurnResult C)
      → IsSession C s
      → apply_learning_turn id now s attempt turn ≡ ok t
      → IsSession C t

pub no_attempts : (attempts : List LearningAttempt) → has_attempts attempts ≡ false → attempts ≡ []
no_attempts [] h = refl
no_attempts (attempt ∷ attempts) h = cc h

module _ {C : Type 0} (turn : LearningTurnResult C) where
  -- What the guards of `analyse_attempt` leave.
  abbrev pub IsAccepted : LearningSessionState → String → Type 0
  IsAccepted s response =
      (response ≢ "")
      × (is_not_assessed turn.understanding_state ≡ false)
      × (trim turn.evidence ≢ "")
      × (is_waiting turn.phase ≡ not (is_no_prompt turn.next_prompt.kind))
      × (turn.phase ≡ completed → ends_session turn.understanding_state ≡ true)
      × (turn.next_prompt.hint_level ≡ expected_hint_level s turn)

  pub analyse_attempt-ok :
      (id : String) (now : ℕ) (s t : LearningSessionState) (response : String)
      → analyse_attempt id now s response turn ≡ ok t
      → IsAccepted s response × (record_attempt id now s response turn ≡ t)
  unfolding analyse_attempt
  analyse_attempt-ok id now s t response e =
      ground (arith, eq_iff response "", eq_iff (trim turn.evidence) "")

  pub open_session-ok :
      (s t : LearningSessionState)
      → open_session s turn ≡ ok t
      → (t.attempts ≡ s.attempts)
        × (t.hint_level ≡ 0)
        × (t.understanding_state ≡ not_assessed)
        × (t.next_step ≡ await_attempt)
        × (t.topic ≡ s.topic)
        × (opens turn.next_prompt.kind ≡ true)
  unfolding open_session
  open_session-ok s t e = ground arith

  open_session-IsConsistent :
      (s t : LearningSessionState)
      → has_attempts s.attempts ≡ false
      → open_session s turn ≡ ok t
      → IsConsistent t
  open_session-IsConsistent s t none_yet e =
      let done = open_session-ok s t e in
      let empty : t.attempts ≡ [] = done.0 ∙ no_attempts s.attempts none_yet in
      record {
        hints_bound = omega (arith, done);
        hints_earned = omega (arith, done);
        analysed = rw empty tt;
        assessed = rw empty done.2;
        finished = ground (arith, done);
        reviewed = ground (arith, done);
      }

  record_attempt-IsConsistent :
      (id : String) (now : ℕ) (s : LearningSessionState) (response : String)
      → IsAccepted s response
      → IsConsistent s
      → IsConsistent (record_attempt id now s response turn)
  unfolding record_attempt expected_hint_level
  record_attempt-IsConsistent id now s response (answered, assessed, shown, agrees, ends, level) h =
      record {
        hints_bound = ground (arith, level);
        hints_earned =
            ground (arith, level, length-append s.attempts (attempt_of id now response turn ∷ []));
        analysed =
            All-append IsAnalysed s.attempts (attempt_of id now response turn ∷ []) h.analysed
              ((answered, shown, assessed), tt);
        assessed = sym (latest-append not_assessed s.attempts (attempt_of id now response turn));
        finished = ground (arith, ends);
        reviewed = ground (arith, ends);
      }

  pub apply_learning_turn-ok :
      (id : String) (now : ℕ) (attempt : Option String) (s t : LearningSessionState)
      → apply_learning_turn id now s attempt turn ≡ ok t
      → ((has_attempts s.attempts ≡ false) × (attempt ≡ none) × (open_session s turn ≡ ok t))
        ⊎ (analyse_attempt id now s (answer attempt) turn ≡ ok t)
  unfolding apply_learning_turn
  apply_learning_turn-ok id now attempt s t e = ground arith

  pub apply_learning_turn-IsConsistent :
      (id : String) (now : ℕ) (attempt : Option String) (s t : LearningSessionState)
      → IsConsistent s
      → apply_learning_turn id now s attempt turn ≡ ok t
      → IsConsistent t
  apply_learning_turn-IsConsistent id now attempt s t h e =
      elim (apply_learning_turn-ok id now attempt s t e) [
        | inl (none_yet, absent, opened) ↦ open_session-IsConsistent s t none_yet opened
        | inr analysed ↦
            let found = analyse_attempt-ok id now s t (answer attempt) analysed in
            subst IsConsistent found.1
              (record_attempt-IsConsistent id now s (answer attempt) found.0 h)
      ]

pub fresh-IsConsistent : (topic : String) → IsConsistent (create_learning_session_state topic)
unfolding create_learning_session_state
fresh-IsConsistent topic = ground arith

-- Every session that begins with a topic and goes on by accepted turns is consistent: the hint
-- level is at most 3 and at most the number of attempts; every recorded attempt has an answer,
-- evidence and an assessment; the session's assessment is the one of its last attempt, or that
-- nothing was assessed; a completed session was demonstrated and one for review needs review.
pub IsSession-IsConsistent :
    {C : Type 0} (s : LearningSessionState) → IsSession C s → IsConsistent s
IsSession-IsConsistent s (fresh topic) = fresh-IsConsistent topic
IsSession-IsConsistent t (turned {s} id now attempt turn before e) =
    apply_learning_turn-IsConsistent turn id now attempt s t (IsSession-IsConsistent s before) e
