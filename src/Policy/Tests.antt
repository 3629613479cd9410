-- ===== src/Policy/Tests.antt =====
-- A policy with numbers out of range, an absent one and tools twice.
use my_note_book.Base.{
  suc, ◌+◌, ◌-◌, ◌/◌, leb, if◌then◌else◌, distinct_onto, add, has, true, Option, none, some, [],
  ◌∷◌, ℤ, pos, negsuc, ◌≡◌, refl,
}
use my_note_book.Policy.Normalize.{
  Rounded, whole, not_a_number, ExecutionPolicy, other_risk, normalize_execution_policy,
  resolve_execution_budget,
}
use my_note_book.Policy.Stable.{as_it_is, normalize_idem}

-- Halves, rounded as `Math.round` does; an absent number gives NaN.
abbrev round_halves : Option ℤ → Rounded
round_halves none = not_a_number
round_halves (some (pos halves)) = whole (pos ((halves + 1) / 2))
round_halves (some (negsuc halves)) =
    whole (if leb 2 (suc halves) then negsuc (suc halves / 2 - 1) else pos 0)

abbrev loose : ExecutionPolicy (Option ℤ)
loose = record {
  max_tool_rounds = some (negsuc 4);
  max_duration_ms = none;
  max_tool_failures = some (pos 3);
  token_budget = some (pos 1_000_001);
  allowed_tools = "read" ∷ "" ∷ "write" ∷ "read" ∷ [];
  risk_level = other_risk "unknown";
  allow_user_input = true;
  allow_write_proposals = true;
  max_retries = some (pos 5);
  budget = none;
}

normalize_idem_example :
    (normalize_execution_policy as_it_is (normalize_execution_policy round_halves loose)
      ≡ normalize_execution_policy round_halves loose)
    × (resolve_execution_budget as_it_is (normalize_execution_policy round_halves loose)
        ≡ resolve_execution_budget round_halves loose)
    × ((normalize_execution_policy round_halves loose).budget
        ≡ some (resolve_execution_budget round_halves loose))
normalize_idem_example = normalize_idem round_halves loose

tools_and_rounds :
    (normalize_execution_policy round_halves loose).allowed_tools ≡ "read" ∷ "write" ∷ []
unfolding normalize_execution_policy distinct_onto add has
tools_and_rounds = refl
