-- ===== src/Policy/Normalize.antt =====
-- src/models/agent/executionPolicy.ts. The numbers that a policy brings are of a type `N`, and
-- `round` is `Math.round` on them: a whole number, an infinity or NaN. A risk level outside of the
-- union is `other_risk`. In a budget an absent number that may be null is `none`, as a null is; the
-- other two numbers of a budget are there, as its type says.
use my_note_book.Base.{
  clamp_integer, ℕ, ◌*◌, max, String, Bool, Option, none, some, List, [], ◌==◌, not, keep, true,
  take, distinct_onto, ℤ, pos, negsuc,
}

pub data AgentRiskLevel : Type 0 where
  read_only propose_write sensitive : AgentRiskLevel
  other_risk : String → AgentRiskLevel

pub record ExecutionBudget (N : Type 0) : Type 0 where
  pub max_input_tokens : Option N
  pub max_output_tokens : N
  pub max_total_tokens : Option N
  pub max_cost_usd_micros : Option N
  pub max_model_turns : N
  pub max_parallel_tools : Option N

pub record ExecutionPolicy (N : Type 0) : Type 0 where
  pub max_tool_rounds : N
  pub max_duration_ms : N
  pub max_tool_failures : N
  pub token_budget : N
  pub allowed_tools : List String
  pub risk_level : AgentRiskLevel
  pub allow_user_input : Bool
  pub allow_write_proposals : Bool
  pub max_retries : N
  pub budget : Option (ExecutionBudget N)

-- What `Math.round` returns.
pub data Rounded : Type 0 where
  whole : ℤ → Rounded
  infinite minus_infinite not_a_number : Rounded

abbrev pub natural : ℕ → Rounded
natural n = whole (pos n)

-- `Math.max(minimum, Math.min(rounded, maximum))`; both let NaN through.
unfoldable pub clamp_rounded : Rounded → ℕ → ℕ → Rounded
clamp_rounded (whole value) minimum maximum = natural (clamp_integer value minimum maximum)
clamp_rounded infinite minimum maximum = natural (max minimum maximum)
clamp_rounded minus_infinite minimum maximum = natural minimum
clamp_rounded not_a_number minimum maximum = not_a_number

-- `Math.max(1, rounded)`
at_least_one : Rounded → Rounded
at_least_one (whole (pos value)) = natural (max 1 value)
at_least_one (whole (negsuc value)) = natural 1
at_least_one infinite = infinite
at_least_one minus_infinite = natural 1
at_least_one not_a_number = not_a_number

unfoldable pub known_risk : AgentRiskLevel → AgentRiskLevel
known_risk (other_risk name) = propose_write
known_risk risk = risk

-- The absent budget, whose fields `budget?.maxInputTokens` and the like are all undefined.
abbrev pub field_of :
    {N A : Type 0} → Option (ExecutionBudget N) → (ExecutionBudget N → Option A) → Option A
field_of none field = none
field_of (some budget) field = field budget

module _ {N : Type 0} (round : N → Rounded) where
  unfoldable pub clamp_nullable_integer : Option N → ℕ → ℕ → Option Rounded
  clamp_nullable_integer none minimum maximum = none
  clamp_nullable_integer (some value) minimum maximum =
      some (clamp_rounded (round value) minimum maximum)

  -- `clampInteger(value ?? fallback, …)` for a fallback that has been rounded already.
  unfoldable pub clamp_or : Option N → Rounded → ℕ → ℕ → Rounded
  clamp_or none fallback minimum maximum = clamp_rounded fallback minimum maximum
  clamp_or (some value) fallback minimum maximum = clamp_rounded (round value) minimum maximum

  unfoldable pub normalize_execution_budget :
      Option (ExecutionBudget N) → Rounded → Rounded → ExecutionBudget Rounded
  normalize_execution_budget budget token_budget max_tool_rounds = record {
    max_input_tokens =
        clamp_nullable_integer (field_of budget (λ b. b.max_input_tokens)) 1 10_000_000;
    max_output_tokens =
        clamp_or (field_of budget (λ b. some b.max_output_tokens)) token_budget 1 128_000;
    max_total_tokens =
        clamp_nullable_integer (field_of budget (λ b. b.max_total_tokens)) 1 10_000_000;
    max_cost_usd_micros =
        clamp_nullable_integer (field_of budget (λ b. b.max_cost_usd_micros)) 0 10_000_000_000;
    max_model_turns = clamp_or (field_of budget (λ b. some b.max_model_turns)) max_tool_rounds 1 96;
    max_parallel_tools = clamp_nullable_integer (field_of budget (λ b. b.max_parallel_tools)) 1 64;
  }

  unfoldable pub normalize_execution_policy : ExecutionPolicy N → ExecutionPolicy Rounded
  normalize_execution_policy policy =
      let max_tool_rounds = clamp_rounded (round policy.max_tool_rounds) 1 96 in
      let token_budget = clamp_rounded (round policy.token_budget) 1 128_000 in
      record {
        max_tool_rounds = max_tool_rounds;
        max_duration_ms = clamp_rounded (round policy.max_duration_ms) 1_000 (45 * 60 * 1000);
        max_tool_failures = clamp_rounded (round policy.max_tool_failures) 0 20;
        token_budget = token_budget;
        allowed_tools =
            take 128 (distinct_onto [] (keep (λ tool. not (tool == "")) policy.allowed_tools));
        risk_level = known_risk policy.risk_level;
        allow_user_input = policy.allow_user_input;
        allow_write_proposals = policy.allow_write_proposals;
        max_retries = clamp_rounded (round policy.max_retries) 0 8;
        budget = some (normalize_execution_budget policy.budget token_budget max_tool_rounds);
      }

  unfoldable pub resolve_execution_budget : ExecutionPolicy N → ExecutionBudget Rounded
  resolve_execution_budget policy =
      normalize_execution_budget policy.budget (clamp_rounded (round policy.token_budget) 1 128_000)
        (clamp_rounded (round policy.max_tool_rounds) 1 96)

  unfoldable pub create_default_execution_policy :
      N → List String → Option AgentRiskLevel → ExecutionPolicy Rounded
  unfolding at_least_one
  create_default_execution_policy requested_budget allowed_tools risk_level =
      let token_budget = at_least_one (round requested_budget) in
      record {
        max_tool_rounds = natural 48;
        max_duration_ms = natural (15 * 60 * 1000);
        max_tool_failures = natural 10;
        token_budget = token_budget;
        allowed_tools = distinct_onto [] allowed_tools;
        risk_level = elim risk_level [ none ↦ propose_write | some risk ↦ risk ];
        allow_user_input = true;
        allow_write_proposals = true;
        max_retries = natural 4;
        budget = some (record {
          max_input_tokens = none;
          max_output_tokens = token_budget;
          max_total_tokens = none;
          max_cost_usd_micros = none;
          max_model_turns = natural 48;
          max_parallel_tools = none;
        });
      }
