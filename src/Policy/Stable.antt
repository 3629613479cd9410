-- ===== src/Policy/Stable.antt =====
-- Normalising in src/models/agent/executionPolicy.ts is stable.
use mathlib.Core.Path.{subst}
use my_note_book.Base.{
  clamp_integer, sym, ℕ, ◌≤◌, String, not, Option, none, some, List, [], keep, ◌==◌, take, length,
  distinct_onto, distinct_onto_same, take_all, AreDistinct, All, keep_same, pos, negsuc, arith, ◌≡◌,
  refl, ap,
}
use my_note_book.Policy.Normalize.{
  Rounded, whole, infinite, minus_infinite, not_a_number, clamp_rounded, ExecutionBudget,
  ExecutionPolicy, clamp_nullable_integer, clamp_or, normalize_execution_budget,
  normalize_execution_policy, resolve_execution_budget,
}
use my_note_book.Policy.Bounds.{
  IsNamed, IsWithin, IsNullOrWithin, IsBoundedBudget, IsBoundedPolicy,
  normalize_execution_budget-IsBoundedBudget, normalized_IsBoundedPolicy,
}

clamp_rounded_same :
    (value : Rounded) (minimum maximum : ℕ)
    → IsWithin minimum maximum value
    → clamp_rounded value minimum maximum ≡ value
unfolding clamp_rounded clamp_integer
clamp_rounded_same (whole (pos value)) minimum maximum h = ground arith
clamp_rounded_same (whole (negsuc value)) minimum maximum h = absurd h
clamp_rounded_same infinite minimum maximum h = absurd h
clamp_rounded_same minus_infinite minimum maximum h = absurd h
clamp_rounded_same not_a_number minimum maximum h = refl

-- A rounded number stays as it is when it is rounded.
abbrev pub as_it_is : Rounded → Rounded
as_it_is value = value

clamp_nullable_integer_same :
    (value : Option Rounded) (minimum maximum : ℕ)
    → IsNullOrWithin minimum maximum value
    → clamp_nullable_integer as_it_is value minimum maximum ≡ value
unfolding clamp_nullable_integer
clamp_nullable_integer_same none minimum maximum h = refl
clamp_nullable_integer_same (some value) minimum maximum h =
    ap some (clamp_rounded_same value minimum maximum h)

normalize_execution_budget_same :
    (b : ExecutionBudget Rounded) (tokens rounds : Rounded)
    → IsBoundedBudget b
    → normalize_execution_budget as_it_is (some b) tokens rounds ≡ b
unfolding normalize_execution_budget clamp_or
normalize_execution_budget_same b tokens rounds h =
    rw
      (
        clamp_nullable_integer_same b.max_input_tokens 1 10_000_000 h.input,
        clamp_rounded_same b.max_output_tokens 1 128_000 h.output,
        clamp_nullable_integer_same b.max_total_tokens 1 10_000_000 h.total,
        clamp_nullable_integer_same b.max_cost_usd_micros 0 10_000_000_000 h.cost,
        clamp_rounded_same b.max_model_turns 1 96 h.turns,
        clamp_nullable_integer_same b.max_parallel_tools 1 64 h.parallel,
      )
      refl

tools_same :
    (tools : List String)
    → length tools ≤ 128
    → All IsNamed tools
    → AreDistinct tools
    → take 128 (distinct_onto [] (keep (λ tool. not (tool == "")) tools)) ≡ tools
tools_same tools few named distinct =
    rw (keep_same (λ tool. not (tool == "")) tools named, distinct_onto_same tools distinct)
      (take_all 128 tools few)

normalize_bounded :
    (p : ExecutionPolicy Rounded) (b : ExecutionBudget Rounded)
    → IsBoundedPolicy p
    → p.budget ≡ some b
    → IsBoundedBudget b
    → (normalize_execution_policy as_it_is p ≡ p) × (resolve_execution_budget as_it_is p ≡ b)
unfolding normalize_execution_policy resolve_execution_budget
normalize_bounded p b h e bounded =
    let resolved : (tokens rounds : Rounded)
        → normalize_execution_budget as_it_is p.budget tokens rounds ≡ b =
      λ tokens rounds.
        subst (λ o. normalize_execution_budget as_it_is o tokens rounds ≡ b) (sym e)
          (normalize_execution_budget_same b tokens rounds bounded) in
    (
      ground (
        arith,
        clamp_rounded_same p.max_tool_rounds 1 96 h.rounds,
        clamp_rounded_same p.max_duration_ms 1_000 2_700_000 h.duration,
        clamp_rounded_same p.max_tool_failures 0 20 h.failures,
        clamp_rounded_same p.token_budget 1 128_000 h.tokens,
        clamp_rounded_same p.max_retries 0 8 h.retries,
        tools_same p.allowed_tools h.few_tools h.named_tools h.distinct_tools,
        h.known,
        resolved p.token_budget p.max_tool_rounds,
        e,
      ),
      resolved (clamp_rounded (as_it_is p.token_budget) 1 128_000)
          (clamp_rounded (as_it_is p.max_tool_rounds) 1 96),
    )

resolve_execution_budget-IsBoundedBudget :
    {N : Type 0} (round : N → Rounded) (policy : ExecutionPolicy N)
    → IsBoundedBudget (resolve_execution_budget round policy)
unfolding resolve_execution_budget
resolve_execution_budget-IsBoundedBudget round policy =
    normalize_execution_budget-IsBoundedBudget round policy.budget
      (clamp_rounded (round policy.token_budget) 1 128_000)
      (clamp_rounded (round policy.max_tool_rounds) 1 96)

shows_budget :
    {N : Type 0} (round : N → Rounded) (policy : ExecutionPolicy N)
    → (normalize_execution_policy round policy).budget
      ≡ some (resolve_execution_budget round policy)
unfolding resolve_execution_budget normalize_execution_policy
shows_budget round policy = refl

-- Normalising a normalised policy changes nothing, and resolving its budget gives the budget that it
-- shows, which is the one that resolving gives for the policy as it was brought.
pub normalize_idem :
    {N : Type 0} (round : N → Rounded) (policy : ExecutionPolicy N)
    → (normalize_execution_policy as_it_is (normalize_execution_policy round policy)
        ≡ normalize_execution_policy round policy)
      × (resolve_execution_budget as_it_is (normalize_execution_policy round policy)
          ≡ resolve_execution_budget round policy)
      × ((normalize_execution_policy round policy).budget
          ≡ some (resolve_execution_budget round policy))
normalize_idem round policy =
    let bounded = normalized_IsBoundedPolicy round policy in
    let shown = shows_budget round policy in
    let unchanged =
      normalize_bounded (normalize_execution_policy round policy)
        (resolve_execution_budget round policy) bounded shown
        (resolve_execution_budget-IsBoundedBudget round policy) in
    (unchanged.0, unchanged.1, shown)
