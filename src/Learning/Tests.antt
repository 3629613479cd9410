-- ===== src/Learning/Tests.antt =====
-- A session about lists: the opening turn, and a hint after a first attempt.
use my_note_book.Base.{
  min, if◌then◌else◌, ◌+◌, String, Option, none, some, [], ◌∷◌, ◌++◌, ◌≡◌, ◌⊎◌, refl, trim,
}
use my_note_book.Documents.{ok}
use my_note_book.Learning.Session.{
  LearningSessionState, LearningTurnResult, waiting_user, hint, misconception, LearningNextStep,
  is_hint, answer, attempt_of, create_learning_session_state, create_initial_learning_turn,
  apply_learning_turn,
}
use my_note_book.Learning.Consistent.{
  IsSession, fresh, turned, IsConsistent, IsSession-IsConsistent, apply_learning_turn-IsConsistent,
  fresh-IsConsistent,
}
use my_note_book.Learning.Progress.{apply_learning_turn-progress}

abbrev new_session : LearningSessionState
new_session = create_learning_session_state " lists "

abbrev opening : LearningTurnResult (Unit {0})
opening = create_initial_learning_turn " lists "

abbrev hinting : LearningTurnResult (Unit {0})
hinting = record {
  phase = waiting_user;
  feedback = record { correct_points = []; omissions = "tails" ∷ []; misconceptions = [] };
  understanding_state = misconception;
  evidence = "a list is a set";
  next_prompt = record { kind = hint; content = "does order matter?"; hint_level = 1 };
  candidate_understanding = none;
}

abbrev opened : LearningSessionState
opened = record new_session { current_prompt = opening.next_prompt.content }

abbrev hinted : LearningSessionState
hinted = record opened {
  current_prompt = "does order matter?";
  prompt_kind = hint;
  hint_level = 1;
  attempts = attempt_of "a1" 5 "a set" hinting ∷ [];
  understanding_state = misconception;
  next_step = LearningNextStep.continue;
}

opening_accepted : apply_learning_turn "a0" 4 new_session none opening ≡ ok opened
unfolding apply_learning_turn create_learning_session_state create_initial_learning_turn
opening_accepted = refl

hinting_accepted : apply_learning_turn "a1" 5 opened (some "a set") hinting ≡ ok hinted
unfolding apply_learning_turn create_learning_session_state create_initial_learning_turn trim
hinting_accepted = refl

abbrev hinted-IsSession : IsSession (Unit {0}) hinted
hinted-IsSession =
    turned "a1" 5 (some "a set") hinting
      (turned "a0" 4 none opening (fresh " lists ") opening_accepted) hinting_accepted

IsSession-IsConsistent_example : IsConsistent hinted
IsSession-IsConsistent_example = IsSession-IsConsistent hinted hinted-IsSession

apply_learning_turn-progress_example :
    (hinted.topic ≡ opened.topic)
    × (hinted.hint_level ≡ (
        if is_hint hinting.next_prompt.kind
        then min 3 (opened.hint_level + 1)
        else opened.hint_level))
    × (((opened.attempts ≡ [])
          × (◌≡◌ {A = Option String} (some "a set") none)
          × (hinted.attempts ≡ []))
        ⊎ (hinted.attempts
            ≡ opened.attempts ++ attempt_of "a1" 5 (answer (some "a set")) hinting ∷ []))
apply_learning_turn-progress_example =
    apply_learning_turn-progress "a1" 5 (some "a set") hinting opened hinted
      (apply_learning_turn-IsConsistent opening "a0" 4 none new_session opened
        (fresh-IsConsistent " lists ") opening_accepted)
      hinting_accepted
