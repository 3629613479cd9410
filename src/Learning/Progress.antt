-- ===== src/Learning/Progress.antt =====
-- What one accepted turn of src/services/cognitive/LearningSessionStateService.ts changes.
use my_note_book.Base.{
  min, if◌then◌else◌, ℕ, ◌+◌, String, Option, none, [], ◌∷◌, ◌++◌, arith, ◌≡◌, ◌⊎◌, inl, inr,
}
use my_note_book.Documents.{ok}
use my_note_book.Learning.Session.{
  LearningSessionState, LearningTurnResult, is_hint, attempt_of, answer, apply_learning_turn,
  expected_hint_level, record_attempt,
}
use my_note_book.Learning.Consistent.{
  IsConsistent, no_attempts, apply_learning_turn-ok, open_session-ok, analyse_attempt-ok,
}

-- An accepted turn of a consistent session keeps its topic. The hint level rises by one, up to 3, by a
-- hint and stays by any other prompt. The turn opens the session, when there is neither an attempt on record nor a
-- new one, and leaves the attempts alone; or it appends the one that was just analysed.
pub apply_learning_turn-progress :
    {C : Type 0} (id : String) (now : ℕ) (attempt : Option String) (turn : LearningTurnResult C)
    (s t : LearningSessionState)
    → IsConsistent s
    → apply_learning_turn id now s attempt turn ≡ ok t
    → (t.topic ≡ s.topic)
      × (t.hint_level
          ≡ (if is_hint turn.next_prompt.kind then min 3 (s.hint_level + 1) else s.hint_level))
      × (((s.attempts ≡ []) × (attempt ≡ none) × (t.attempts ≡ []))
          ⊎ (t.attempts ≡ s.attempts ++ attempt_of id now (answer attempt) turn ∷ []))
unfolding record_attempt expected_hint_level
apply_learning_turn-progress id now attempt turn s t h e =
    elim (apply_learning_turn-ok turn id now attempt s t e) [
      | inl (none_yet, absent, opened) ↦
          ground (arith, open_session-ok turn s t opened, no_attempts s.attempts none_yet)
      | inr analysed ↦
          let found = analyse_attempt-ok turn id now s t (answer attempt) analysed in
          ground (arith, found)
    ]
