-- ===== src/Execution/Prepare.antt =====
-- internal/openai/chat_execution.go: the messages of a request.
use qwen2api_go.Prelude.{
  ℕ, zero, suc, ◌-◌, Bool, none, some, List, ◌∷◌, length, get_elem?, drop, if◌then◌else◌,
}
use qwen2api_go.Text.{Text, Unicode, codes, trim_space, is_blank, equal_fold}
use qwen2api_go.Json.{Value, text, Entries, no_entries, entry, sprint, field}

unfoldable pub inject_qwen_web2_control_prompt : List Entries → Text → List Entries
inject_qwen_web2_control_prompt messages prompt =
    if is_blank prompt
    then messages
    else entry (codes "role") (text (codes "system"))
        (entry (codes "content") (text (trim_space prompt)) no_entries)
      ∷ messages

module _ (print : Value → Text) ⦃u : Unicode⦄ where
  unfoldable pub is_tool_message : Entries → Bool
  unfolding sprint field
  is_tool_message message =
      equal_fold (trim_space (sprint print (field (codes "role") message))) (codes "tool")

  -- The loop on `start`: back over the messages of tools.
  unfoldable pub start_of_tail : ℕ → List Entries → ℕ
  unfolding is_tool_message
  start_of_tail zero messages = zero
  start_of_tail (suc before) messages =
      let earlier = start_of_tail before messages in
      elim (get_elem? messages before) [
        | none ↦ suc before
        | some m ↦ if is_tool_message m then earlier else suc before
      ]

  unfoldable pub select_incremental_tail_messages : List Entries → List Entries
  unfolding start_of_tail
  select_incremental_tail_messages messages =
      drop (start_of_tail (length messages - 1) messages) messages
