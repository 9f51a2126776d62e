-- ===== src/Usage/Estimates.antt =====
-- What the estimates give: internal/openai/usage_estimate.go.
use qwen2api_go.Prelude.{
  ℕ, zero, suc, ◌+◌, ◌<◌, ◌≡◌, refl, true, Option, List, [], ◌∷◌, ◌⊎◌, inl, inr, if-cases, arith,
  if◌then◌else◌,
}
use qwen2api_go.Prelude.Int.{ℤ, pos, negsuc, leb_ℤ, pos_part}
use qwen2api_go.Text.{Text, codes, text_beq, trim_space, trim_left, trim_right, is_space}
use qwen2api_go.Json.{Value, absent, text, sprint}
use qwen2api_go.Usage.{
  Message, ToolCall, named_tokens, estimate_text_tokens, estimate_payload_tokens, estimate_message,
  estimate_messages, estimate_openai_input_tokens, estimate_openai_output_tokens,
  apply_usage_fallback,
}

nil_tokens : named_tokens (codes "<nil>") ≡ 2
unfolding estimate_text_tokens trim_space trim_left trim_right is_space text_beq
nil_tokens = refl

empty_tokens : named_tokens [] ≡ 0
unfolding trim_space trim_left trim_right text_beq
empty_tokens = refl

-- A message without a name, and the same with an empty one; neither has a tool call id.
abbrev pub message_named : Value → Value → Option Value → Value → Message
message_named role content tool_calls name = record {
  role = role;
  content = content;
  name = name;
  tool_call_id = absent;
  tool_calls = tool_calls;
}

-- A message without a name and without a tool call id is estimated at two tokens more than the same
-- message with an empty name, whatever its role, its content and its tool calls are, whatever messages
-- come after it, and whatever tools and choice of a tool the request has.
pub estimate_openai_input_tokens_nameless :
    (print : Value → Text) (role content : Value) (tool_calls : Option Value)
    (messages : List Message) (tools tool_choice : Value)
    → estimate_openai_input_tokens print
        (message_named role content tool_calls absent ∷ messages)
        tools
        tool_choice
      ≡ estimate_openai_input_tokens print
          (message_named role content tool_calls (text []) ∷ messages)
          tools
          tool_choice
        + 2
unfolding estimate_openai_input_tokens estimate_messages estimate_message sprint
    estimate_payload_tokens
estimate_openai_input_tokens_nameless print role content tool_calls messages tools tool_choice =
    ground (arith, nil_tokens, empty_tokens)

input_positive :
    (print : Value → Text) (messages : List Message) (tools tool_choice : Value)
    → 0 < estimate_openai_input_tokens print messages tools tool_choice
unfolding estimate_openai_input_tokens
input_positive print messages tools tool_choice = ground arith

output_positive :
    (content : Text) (calls : List ToolCall) → 0 < estimate_openai_output_tokens content calls
unfolding estimate_openai_output_tokens
output_positive content calls = ground arith

fallback_positive :
    (count : ℤ) (estimate : ℕ)
    → 0 < estimate
    → 0 < (if leb_ℤ count (pos 0) then estimate else pos_part count)
fallback_positive (pos zero) estimate h = h
fallback_positive (pos (suc n)) estimate h = ground arith
fallback_positive (negsuc n) estimate h = ground arith

-- With the estimates of a request and its answer to fall back on, all three counts are positive,
-- whatever the upstream reports, and none of the three is changed if it is reported as positive.
apply_usage_fallback_positive :
    (print : Value → Text) (prompt completion total : ℤ) (messages : List Message)
    (tools tool_choice : Value) (content : Text) (calls : List ToolCall)
    → let r =
        apply_usage_fallback prompt completion total
          (estimate_openai_input_tokens print messages tools tool_choice)
          (estimate_openai_output_tokens content calls) in
      (0 < r.0)
      × (0 < r.1)
      × (0 < r.2)
      × ((leb_ℤ prompt (pos 0) ≡ true) ⊎ (r.0 ≡ pos_part prompt))
      × ((leb_ℤ completion (pos 0) ≡ true) ⊎ (r.1 ≡ pos_part completion))
      × ((leb_ℤ total (pos 0) ≡ true) ⊎ (r.2 ≡ pos_part total))
unfolding apply_usage_fallback
apply_usage_fallback_positive print prompt completion total messages tools tool_choice content
      calls =
    let p =
      fallback_positive prompt (estimate_openai_input_tokens print messages tools tool_choice)
        (input_positive print messages tools tool_choice) in
    let c =
      fallback_positive completion (estimate_openai_output_tokens content calls)
        (output_positive content calls) in
    (
      p,
      c,
      fallback_positive total _ (omega (arith, p)),
      kept prompt _,
      kept completion _,
      kept total _,
    )
  where
    kept :
        (count : ℤ) (estimate : ℕ)
        → (leb_ℤ count (pos 0) ≡ true)
          ⊎ ((if leb_ℤ count (pos 0) then estimate else pos_part count) ≡ pos_part count)
    kept count estimate =
        if-cases (λ n. (leb_ℤ count (pos 0) ≡ true) ⊎ (n ≡ pos_part count)) (leb_ℤ count (pos 0)) _
          _ (λ e. inl e) (λ _. inr refl)
