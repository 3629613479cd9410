-- ===== src/Learning/Session.antt =====
-- src/services/cognitive/LearningSessionStateService.ts over the types of
-- src/models/cognitive/cognitive.ts. Hint levels and times are natural numbers. A confidence is a
-- value of a type `C`. `create_id` and `now` stand for what the calls of the turn's `createId` and
-- clock return.
use text.Mathlib.Text.{◌==◌}
use Prim.Native.String
use my_note_book.Base.{
  ℕ, ◌+◌, min, String, Bool, true, false, not, ◌&&◌, ◌||◌, Option, none, some, List, [], ◌∷◌, ◌++◌,
  if◌then◌else◌, nat_eq, is_some, trim,
}
use my_note_book.Documents.{validation_error, AppResult, ok, err}

pub data LearningUnderstandingState : Type 0 where
  not_assessed partial misconception demonstrated needs_review : LearningUnderstandingState

pub data LearningPromptKind : Type 0 where
  question guided_question hint counterexample transfer_question no_prompt : LearningPromptKind

pub data LearningNextStep : Type 0 where
  await_attempt continue complete review : LearningNextStep

pub data LearningPhase : Type 0 where
  waiting_user completed : LearningPhase

pub record LearningFeedback : Type 0 where
  pub correct_points : List String
  pub omissions : List String
  pub misconceptions : List String

pub record LearningAttempt : Type 0 where
  pub id : String
  pub response : String
  pub feedback : LearningFeedback
  pub understanding_state : LearningUnderstandingState
  pub evidence : String
  pub created_at : ℕ

pub record LearningSessionState : Type 0 where
  pub topic : String
  pub current_prompt : String
  pub prompt_kind : LearningPromptKind
  pub hint_level : ℕ
  pub attempts : List LearningAttempt
  pub understanding_state : LearningUnderstandingState
  pub next_step : LearningNextStep

pub record LearningPrompt : Type 0 where
  pub kind : LearningPromptKind
  pub content : String
  pub hint_level : ℕ

pub record CandidateUnderstanding (C : Type 0) : Type 0 where
  pub title : String
  pub content : String
  pub confidence : C

pub record LearningTurnResult (C : Type 0) : Type 0 where
  pub phase : LearningPhase
  pub feedback : LearningFeedback
  pub understanding_state : LearningUnderstandingState
  pub evidence : String
  pub next_prompt : LearningPrompt
  pub candidate_understanding : Option (CandidateUnderstanding C)

unfoldable pub create_learning_session_state : String → LearningSessionState
create_learning_session_state topic = record {
  topic = trim topic;
  current_prompt = "";
  prompt_kind = question;
  hint_level = 0;
  attempts = [];
  understanding_state = not_assessed;
  next_step = await_attempt;
}

unfoldable pub create_initial_learning_turn : {C : Type 0} → String → LearningTurnResult C
create_initial_learning_turn topic = record {
  phase = waiting_user;
  feedback = record { correct_points = []; omissions = []; misconceptions = [] };
  understanding_state = not_assessed;
  evidence = "";
  next_prompt = record {
    kind = question;
    content = prompt (if trim topic == "" then "当前主题" else trim topic);
    hint_level = 0;
  };
  candidate_understanding = none;
}
  where
    prompt : String → String
    prompt normalized_topic =
        String.◌++◌ "请先用自己的话解释你对“" (String.◌++◌ normalized_topic "”的当前理解，也可以指出最不确定的部分。")

-- The comparisons with the literals of the unions.
abbrev pub is_waiting : LearningPhase → Bool
is_waiting waiting_user = true
is_waiting completed = false

abbrev pub is_not_assessed : LearningUnderstandingState → Bool
is_not_assessed not_assessed = true
is_not_assessed _ = false

-- `['question', 'guided_question'].includes(kind)`
abbrev pub opens : LearningPromptKind → Bool
opens question = true
opens guided_question = true
opens _ = false

abbrev pub is_no_prompt : LearningPromptKind → Bool
is_no_prompt no_prompt = true
is_no_prompt _ = false

abbrev pub is_hint : LearningPromptKind → Bool
is_hint hint = true
is_hint _ = false

-- `['demonstrated', 'needs_review'].includes(understandingState)`
abbrev pub ends_session : LearningUnderstandingState → Bool
ends_session demonstrated = true
ends_session needs_review = true
ends_session _ = false

-- The `nextStep` of an analysed attempt.
abbrev pub step_after : LearningPhase → LearningUnderstandingState → LearningNextStep
step_after waiting_user state = continue
step_after completed needs_review = review
step_after completed _ = complete

-- `input.userAttempt?.trim() ?? ''`
abbrev pub answer : Option String → String
answer none = ""
answer (some attempt) = trim attempt

abbrev pub has_attempts : List LearningAttempt → Bool
has_attempts [] = false
has_attempts (attempt ∷ attempts) = true

unfoldable pub invalid : String → AppResult LearningSessionState
invalid message = err (record { code = validation_error; message = message })

module _ {C : Type 0} where
  -- The turn that opens a session.
  unfoldable pub open_session :
      LearningSessionState → LearningTurnResult C → AppResult LearningSessionState
  unfolding invalid
  open_session state turn =
      if not (is_waiting turn.phase)
        || not (is_not_assessed turn.understanding_state)
        || not (opens turn.next_prompt.kind)
        || not (nat_eq turn.next_prompt.hint_level 0)
        || is_some turn.candidate_understanding
      then invalid "首次 Learning turn 必须先等待用户尝试，不能评定理解或给出候选理解记录。"
      else ok (record state {
        current_prompt = turn.next_prompt.content;
        prompt_kind = turn.next_prompt.kind;
        hint_level = 0;
        understanding_state = not_assessed;
        next_step = await_attempt;
      })

  unfoldable pub expected_hint_level : LearningSessionState → LearningTurnResult C → ℕ
  expected_hint_level state turn =
      if is_hint turn.next_prompt.kind then min 3 (state.hint_level + 1) else state.hint_level

  abbrev pub attempt_of : String → ℕ → String → LearningTurnResult C → LearningAttempt
  attempt_of created_id now response turn = record {
    id = created_id;
    response = response;
    feedback = turn.feedback;
    understanding_state = turn.understanding_state;
    evidence = trim turn.evidence;
    created_at = now;
  }

  unfoldable pub record_attempt :
      String → ℕ → LearningSessionState → String → LearningTurnResult C → LearningSessionState
  record_attempt created_id now state response turn = record state {
    current_prompt = turn.next_prompt.content;
    prompt_kind = turn.next_prompt.kind;
    hint_level = turn.next_prompt.hint_level;
    attempts = state.attempts ++ attempt_of created_id now response turn ∷ [];
    understanding_state = turn.understanding_state;
    next_step = step_after turn.phase turn.understanding_state;
  }

  -- The turn that analyses an attempt.
  unfoldable pub analyse_attempt :
      String
      → ℕ
      → LearningSessionState
      → String
      → LearningTurnResult C
      → AppResult LearningSessionState
  unfolding invalid expected_hint_level record_attempt
  analyse_attempt created_id now state response turn =
      if response == ""
      then invalid "Learning 分析缺少本轮用户尝试。"
      else if is_not_assessed turn.understanding_state || trim turn.evidence == ""
      then invalid "理解状态变化必须引用本轮用户尝试的可见证据。"
      else if (is_waiting turn.phase && is_no_prompt turn.next_prompt.kind)
          || (not (is_waiting turn.phase) && not (is_no_prompt turn.next_prompt.kind))
      then invalid "Learning phase 与下一步提示不一致。"
      else if not (is_waiting turn.phase) && not (ends_session turn.understanding_state)
      then invalid "只有 demonstrated 或 needs_review 可以结束 Learning Session。"
      else if not (nat_eq turn.next_prompt.hint_level (expected_hint_level state turn))
      then invalid "提示层级必须逐级增加，非提示步骤不能静默改变层级。"
      else ok (record_attempt created_id now state response turn)

  unfoldable pub apply_learning_turn :
      String
      → ℕ
      → LearningSessionState
      → Option String
      → LearningTurnResult C
      → AppResult LearningSessionState
  unfolding open_session analyse_attempt
  apply_learning_turn created_id now state user_attempt turn =
      if not (has_attempts state.attempts) && not (is_some user_attempt)
      then open_session state turn
      else analyse_attempt created_id now state (answer user_attempt) turn
