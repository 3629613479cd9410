-- ===== src/Policy/Bounds.antt =====
-- The limits that src/models/agent/executionPolicy.ts puts on a policy.
use my_note_book.Base.{
  clamp_integer_bounds, ℕ, ◌≤◌, String, Bool, true, false, not, Option, none, some, List, [], keep,
  ◌==◌, length, length-take, distinct_onto, distinct_onto-AreDistinct, take-AreDistinct,
  AreDistinct, All, All-take, All-distinct_onto, keep-All, pos, arith, ◌≡◌, refl,
}
use my_note_book.Policy.Normalize.{
  AgentRiskLevel, read_only, propose_write, sensitive, other_risk, ExecutionBudget, ExecutionPolicy,
  Rounded, whole, infinite, minus_infinite, not_a_number, clamp_rounded, known_risk,
  clamp_nullable_integer, clamp_or, normalize_execution_budget, normalize_execution_policy,
}

-- A number from the minimum to the maximum, or NaN.
abbrev pub IsWithin : ℕ → ℕ → Rounded → Type 0
IsWithin minimum maximum (whole (pos value)) = (minimum ≤ value) × (value ≤ maximum)
IsWithin minimum maximum not_a_number = Unit
IsWithin minimum maximum _ = ⊥

abbrev pub IsNullOrWithin : ℕ → ℕ → Option Rounded → Type 0
IsNullOrWithin minimum maximum none = Unit
IsNullOrWithin minimum maximum (some value) = IsWithin minimum maximum value

pub record IsBoundedBudget (b : ExecutionBudget Rounded) : Type 0 where
  pub input : IsNullOrWithin 1 10_000_000 b.max_input_tokens
  pub output : IsWithin 1 128_000 b.max_output_tokens
  pub total : IsNullOrWithin 1 10_000_000 b.max_total_tokens
  pub cost : IsNullOrWithin 0 10_000_000_000 b.max_cost_usd_micros
  pub turns : IsWithin 1 96 b.max_model_turns
  pub parallel : IsNullOrWithin 1 64 b.max_parallel_tools

abbrev pub IsNamed : String → Type 0
IsNamed tool = not (tool == "") ≡ true

pub record IsBoundedPolicy (p : ExecutionPolicy Rounded) : Type 0 where
  pub rounds : IsWithin 1 96 p.max_tool_rounds
  pub duration : IsWithin 1_000 2_700_000 p.max_duration_ms
  pub failures : IsWithin 0 20 p.max_tool_failures
  pub tokens : IsWithin 1 128_000 p.token_budget
  pub few_tools : length p.allowed_tools ≤ 128
  pub named_tools : All IsNamed p.allowed_tools
  pub distinct_tools : AreDistinct p.allowed_tools
  pub known : known_risk p.risk_level ≡ p.risk_level
  pub retries : IsWithin 0 8 p.max_retries
  pub budgeted : (b : ExecutionBudget Rounded) × (p.budget ≡ some b) × IsBoundedBudget b

known_risk_idem : (risk : AgentRiskLevel) → known_risk (known_risk risk) ≡ known_risk risk
unfolding known_risk
known_risk_idem read_only = refl
known_risk_idem propose_write = refl
known_risk_idem sensitive = refl
known_risk_idem (other_risk name) = refl

clamp_rounded_bounds :
    (value : Rounded) (minimum maximum : ℕ)
    → minimum ≤ maximum
    → IsWithin minimum maximum (clamp_rounded value minimum maximum)
unfolding clamp_rounded
clamp_rounded_bounds (whole value) minimum maximum h = clamp_integer_bounds value minimum maximum h
clamp_rounded_bounds infinite minimum maximum h = ground arith
clamp_rounded_bounds minus_infinite minimum maximum h = ground arith
clamp_rounded_bounds not_a_number minimum maximum h = tt

abbrev pub is_nan : Rounded → Bool
is_nan not_a_number = true
is_nan _ = false

module _ {N : Type 0} (round : N → Rounded) where
  clamp_nullable_integer-IsNullOrWithin :
      (value : Option N) (minimum maximum : ℕ)
      → minimum ≤ maximum
      → IsNullOrWithin minimum maximum (clamp_nullable_integer round value minimum maximum)
  unfolding clamp_nullable_integer
  clamp_nullable_integer-IsNullOrWithin none minimum maximum h = tt
  clamp_nullable_integer-IsNullOrWithin (some value) minimum maximum h =
      clamp_rounded_bounds (round value) minimum maximum h

  clamp_or-IsWithin :
      (value : Option N) (fallback : Rounded) (minimum maximum : ℕ)
      → minimum ≤ maximum
      → IsWithin minimum maximum (clamp_or round value fallback minimum maximum)
  unfolding clamp_or
  clamp_or-IsWithin none fallback minimum maximum h =
      clamp_rounded_bounds fallback minimum maximum h
  clamp_or-IsWithin (some value) fallback minimum maximum h =
      clamp_rounded_bounds (round value) minimum maximum h

  pub normalize_execution_budget-IsBoundedBudget :
      (budget : Option (ExecutionBudget N)) (tokens rounds : Rounded)
      → IsBoundedBudget (normalize_execution_budget round budget tokens rounds)
  unfolding normalize_execution_budget
  normalize_execution_budget-IsBoundedBudget budget tokens rounds = record {
    input = clamp_nullable_integer-IsNullOrWithin _ 1 10_000_000 (omega arith);
    output = clamp_or-IsWithin _ tokens 1 128_000 (omega arith);
    total = clamp_nullable_integer-IsNullOrWithin _ 1 10_000_000 (omega arith);
    cost = clamp_nullable_integer-IsNullOrWithin _ 0 10_000_000_000 (omega arith);
    turns = clamp_or-IsWithin _ rounds 1 96 (omega arith);
    parallel = clamp_nullable_integer-IsNullOrWithin _ 1 64 (omega arith);
  }

pub normalized_IsBoundedPolicy :
    {N : Type 0} (round : N → Rounded) (policy : ExecutionPolicy N)
    → IsBoundedPolicy (normalize_execution_policy round policy)
unfolding normalize_execution_policy
normalized_IsBoundedPolicy round policy = record {
  rounds = clamp_rounded_bounds _ 1 96 (omega arith);
  duration = clamp_rounded_bounds _ 1_000 2_700_000 (omega arith);
  failures = clamp_rounded_bounds _ 0 20 (omega arith);
  tokens = clamp_rounded_bounds _ 1 128_000 (omega arith);
  few_tools = length-take 128 (distinct_onto [] named);
  named_tools = All-take IsNamed 128 (distinct_onto [] named) (
      All-distinct_onto IsNamed [] named tt
        (keep-All (λ tool. not (tool == "")) policy.allowed_tools));
  distinct_tools =
      take-AreDistinct 128 (distinct_onto [] named) (distinct_onto-AreDistinct [] named tt);
  known = known_risk_idem policy.risk_level;
  retries = clamp_rounded_bounds _ 0 8 (omega arith);
  budgeted = (
    _,
    refl,
    normalize_execution_budget-IsBoundedBudget round policy.budget
        (clamp_rounded (round policy.token_budget) 1 128_000)
        (clamp_rounded (round policy.max_tool_rounds) 1 96),
  );
}
  where
    named : List String
    named = keep (λ tool. not (tool == "")) policy.allowed_tools

-- Where a normalised policy has NaN: just where the policy brought it.
pub record HasItsNaN {N : Type 0} (round : N → Rounded) (p : ExecutionPolicy N)
    (q : ExecutionPolicy Rounded) : Type 0 where
  pub rounds : is_nan q.max_tool_rounds ≡ is_nan (round p.max_tool_rounds)
  pub duration : is_nan q.max_duration_ms ≡ is_nan (round p.max_duration_ms)
  pub failures : is_nan q.max_tool_failures ≡ is_nan (round p.max_tool_failures)
  pub tokens : is_nan q.token_budget ≡ is_nan (round p.token_budget)
  pub retries : is_nan q.max_retries ≡ is_nan (round p.max_retries)
