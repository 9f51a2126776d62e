-- ===== src/Usage.antt =====
-- internal/openai/usage_estimate.go, and estimateTextTokens of internal/openai/anthropic.go: the tokens
-- of a request, estimated where the upstream does not count them.
pub mod Estimates
mod Tests
use qwen2api_go.Prelude.{
  ℕ, ◌+◌, ◌/◌, Bool, true, false, Option, none, some, List, [], ◌∷◌, leb, length, if◌then◌else◌,
}
use qwen2api_go.Prelude.Int.{ℤ, pos, leb_ℤ, pos_part}
use qwen2api_go.Text.{Text, text_beq, trim_space}
use qwen2api_go.Json.{
  Value, absent, text, array, object, other, Values, no_items, item, Entries, no_entries, entry,
  sprint,
}

-- The rounding up of a quarter.
pub estimate_text_tokens : Text → ℕ
estimate_text_tokens s =
    let trimmed = trim_space s in if text_beq trimmed [] then 0 else (length trimmed + 3) / 4

mutual
  unfolding estimate_text_tokens

  pub estimate_payload_tokens : Value → ℕ
  estimate_payload_tokens absent = 0
  estimate_payload_tokens (text s) = estimate_text_tokens s
  estimate_payload_tokens (array items) = estimate_items items
  estimate_payload_tokens (object entries) = estimate_entries entries
  estimate_payload_tokens (other json) = estimate_text_tokens json

  pub estimate_items : Values → ℕ
  estimate_items no_items = 0
  estimate_items (item v items) = estimate_payload_tokens v + estimate_items items

  pub estimate_entries : Entries → ℕ
  estimate_entries no_entries = 0
  estimate_entries (entry key v entries) =
      estimate_text_tokens key + estimate_payload_tokens v + estimate_entries entries

-- The fields of a message; a missing one reads as nil, but `tool_calls` is tested for.
pub record Message : Type 0 where
  pub role : Value
  pub content : Value
  pub name : Value
  pub tool_call_id : Value
  pub tool_calls : Option Value

pub record ToolCall : Type 0 where
  pub call_name : Text
  pub input : Value

-- `if total <= 0 { return 1 }`
abbrev pub at_least_one : ℕ → ℕ
at_least_one total = if leb total 0 then 1 else total

-- A trimmed text that is not empty is counted.
abbrev pub named_tokens : Text → ℕ
named_tokens s = if text_beq (trim_space s) [] then 0 else estimate_text_tokens (trim_space s)

-- `print` is what fmt.Sprint makes of values that are neither nil nor a string.
module _ (print : Value → Text) where
  pub estimate_message : Message → ℕ
  unfolding estimate_text_tokens estimate_payload_tokens sprint
  estimate_message m =
      estimate_text_tokens (sprint print m.role)
      + estimate_payload_tokens m.content
      + named_tokens (sprint print m.name)
      + named_tokens (sprint print m.tool_call_id)
      + elim m.tool_calls [ none ↦ 0 | some calls ↦ estimate_payload_tokens calls ]

  pub estimate_messages : List Message → ℕ
  unfolding estimate_message
  estimate_messages [] = 0
  estimate_messages (m ∷ messages) = estimate_message m + estimate_messages messages

  pub estimate_openai_input_tokens : List Message → Value → Value → ℕ
  unfolding estimate_messages
  estimate_openai_input_tokens messages tools tool_choice = at_least_one (
      estimate_messages messages
      + estimate_payload_tokens tools
      + estimate_payload_tokens tool_choice)

pub estimate_calls : List ToolCall → ℕ
unfolding estimate_text_tokens estimate_payload_tokens
estimate_calls [] = 0
estimate_calls (c ∷ calls) =
    estimate_text_tokens c.call_name + estimate_payload_tokens c.input + estimate_calls calls

pub estimate_openai_output_tokens : Text → List ToolCall → ℕ
unfolding estimate_text_tokens estimate_calls
estimate_openai_output_tokens content tool_calls =
    at_least_one (estimate_text_tokens content + estimate_calls tool_calls)

-- The counts that the upstream reports may be missing or negative; the estimates are not negative.
pub apply_usage_fallback : ℤ → ℤ → ℤ → ℕ → ℕ → ℕ × ℕ × ℕ
apply_usage_fallback prompt completion total estimated_prompt estimated_completion =
    let prompt' = if leb_ℤ prompt (pos 0) then estimated_prompt else pos_part prompt in
    let completion' =
      if leb_ℤ completion (pos 0) then estimated_completion else pos_part completion in
    (prompt', completion', if leb_ℤ total (pos 0) then prompt' + completion' else pos_part total)
