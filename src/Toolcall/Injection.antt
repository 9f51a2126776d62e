-- ===== src/Toolcall/Injection.antt =====
-- internal/toolcall/toolcall.go: the prompt about tools that is put into the messages of a request.
use qwen2api_go.Prelude.{
  Bool, false, not, ◌&&◌, ◌||◌, Option, none, some, List, [], ◌∷◌, ◌++◌, map, eqb, length,
  if◌then◌else◌,
}
use qwen2api_go.Text.{
  Text, Unicode, codes, text_beq, trim_space, is_blank, equal_fold, contains, join,
}
use qwen2api_go.Dict.{Dict}
use qwen2api_go.Json.{
  Value, absent, text, array, object, Values, no_items, item, Entries, no_entries, entry, sprint,
  field, put_field,
}
use qwen2api_go.Prompts.{Definition, render}
use qwen2api_go.Toolcall.Content.{
  message_of, raw_json, fallback_text, is_system, normalize_message_text_content,
  normalize_tool_messages,
}
use qwen2api_go.Toolcall.Policy.{
  ToolSchema, ToolChoicePolicy, policy, normalize_tool_schemas, parse_tool_choice_policy,
}

pub record InjectionResult : Type 0 where
  pub messages : List Entries
  pub tool_names : List Text
  pub tool_schemas : List ToolSchema
  pub policy_of : ToolChoicePolicy

-- What a policy makes of a prompt's line on the mode; `specific` has the name of the required tool.
unfoldable pub mode_line : ToolChoicePolicy → Text → Text → (Text → Text) → Text
mode_line p plain required specific =
    if text_beq p.mode (codes "specific") && not (text_beq p.required_tool [])
    then specific p.required_tool
    else if text_beq p.mode (codes "required")
    then required
    else plain

abbrev pub reminder_mark : Text
reminder_mark = codes "[ml_tool reminder]"

-- fmt.Sprint on other values, json.Marshal, json.Unmarshal into a map, the verb %q, and the table of
-- prompts.
module _ (print : Value → Text) (marshal : Value → Option Text)
    (unmarshal_object : Text → Option Entries) (quote : Text → Text) (definitions : List Definition)
    ⦃u : Unicode⦄ where
  unfoldable pub build_reminder : List Text → ToolChoicePolicy → Dict Text Text → Text
  unfolding mode_line
  build_reminder tool_names p overrides =
      let line =
        mode_line p (codes "If a tool is needed, use only the listed ml_tool names.")
          (codes "You must call one listed ml_tool before the final answer.")
          (λ name.
            codes "You must call ml_tool " ++ quote name ++ codes " before the final answer.") in
      if eqb (length tool_names) 0
      then []
      else render definitions overrides (codes "openai.toolcall.reminder")
          ((codes "tool_names", join (codes ", ") tool_names) ∷ (codes "mode_line", line) ∷ [])

  unfoldable pub build_instructions_with_overrides :
      List Text → ToolChoicePolicy → Dict Text Text → Text
  unfolding mode_line
  build_instructions_with_overrides tool_names p overrides =
      let tool_list =
        if eqb (length tool_names) 0 then codes "(none)" else join (codes ", ") tool_names in
      let line =
        mode_line p (codes "Call a tool only when it is necessary.")
          (codes "You must call one of the provided tools before giving a final answer.")
          (λ name.
            codes "You must call the tool "
            ++ quote name
            ++ codes " before giving a final answer.") in
      render definitions overrides (codes "openai.toolcall.instructions")
        ((codes "tool_list", tool_list) ∷ (codes "mode_line", line) ∷ [])

  abbrev pub is_reminder : Value → Bool
  is_reminder (object content) =
      equal_fold (sprint print (field (codes "type") content)) (codes "text")
      && contains reminder_mark (sprint print (field (codes "text") content))
  is_reminder v = false

  unfoldable pub has_reminder : Values → Bool
  unfolding sprint field
  has_reminder no_items = false
  has_reminder (item v items) = is_reminder v || has_reminder items

  abbrev pub text_part : Text → Value
  text_part s =
      object (entry (codes "type") (text (codes "text")) (entry (codes "text") (text s) no_entries))

  abbrev pub reminded : Text → Value → Value
  reminded reminder (text s) =
      if contains reminder_mark s
      then text s
      else if is_blank s
      then text reminder
      else text (reminder ++ codes "\n\n" ++ trim_space s)
  reminded reminder (array items) =
      if has_reminder items then array items else array (item (text_part reminder) items)
  reminded reminder v = text reminder

  unfoldable pub append_reminder_to_content : Value → Text → Value
  unfolding has_reminder
  append_reminder_to_content content reminder =
      if is_blank reminder then content else reminded reminder content

  -- The last message that is not the system's; none if there is no such message.
  unfoldable pub remind_last : Text → List Entries → Option (List Entries)
  unfolding sprint field put_field append_reminder_to_content
  remind_last reminder [] = none
  remind_last reminder (message ∷ messages) = elim (remind_last reminder messages) [
    | some later ↦ some (message ∷ later)
    | none ↦
        if is_system print marshal unmarshal_object message
        then none
        else some (
            put_field (codes "content")
              (append_reminder_to_content (field (codes "content") message) reminder) message
            ∷ messages)
  ]

  unfoldable pub append_tool_reminder :
      List Entries → List Text → ToolChoicePolicy → Dict Text Text → List Entries
  unfolding build_reminder remind_last
  append_tool_reminder messages tool_names p overrides =
      let reminder = build_reminder tool_names p overrides in
      if not p.enabled || eqb (length messages) 0 || eqb (length tool_names) 0
      then messages
      else if is_blank reminder
      then messages
      else elim (remind_last reminder messages) [ none ↦ messages | some later ↦ later ]

  abbrev pub tool_details : List ToolSchema → List Text
  tool_details [] = []
  tool_details (schema ∷ schemas) =
      (codes "Tool: " ++ schema.name)
      ∷ (codes "Description: "
          ++ fallback_text schema.description (codes "(no description provided)"))
      ∷ (codes "Parameters: "
          ++ raw_json print marshal unmarshal_object
              (elim schema.parameters [ none ↦ absent | some p ↦ object p ]))
      ∷ []
      ∷ tool_details schemas

  abbrev pub with_prompt : Text → Text → Text
  with_prompt prompt current =
      if is_blank current then prompt else trim_space current ++ codes "\n\n" ++ prompt

  -- A message of the system, by its role as it is written.
  unfoldable pub is_system_role : Entries → Bool
  unfolding sprint field
  is_system_role message = equal_fold (sprint print (field (codes "role") message)) (codes "system")

  -- The first message of the system gets the prompt; none if there is no such message.
  unfoldable pub prompt_first : Text → List Entries → Option (List Entries)
  unfolding is_system_role field put_field normalize_message_text_content
  prompt_first prompt [] = none
  prompt_first prompt (message ∷ messages) =
      let current =
        normalize_message_text_content print marshal unmarshal_object
          (field (codes "content") message) in
      let later = prompt_first prompt messages in
      if is_system_role message
      then some (put_field (codes "content") (text (with_prompt prompt current)) message ∷ messages)
      else elim later [ none ↦ none | some rest ↦ some (message ∷ rest) ]

  abbrev pub with_tool_prompt : Text → List Entries → List Entries
  with_tool_prompt prompt messages = elim (prompt_first prompt messages) [
    | some prompted ↦ prompted
    | none ↦ message_of (codes "system") (text prompt) ∷ messages
  ]

  unfoldable pub inject_prompt_with_overrides :
      List (Option Entries) → Value → Value → Dict Text Text → InjectionResult
  unfolding normalize_tool_messages normalize_tool_schemas parse_tool_choice_policy
      build_instructions_with_overrides prompt_first append_tool_reminder
  inject_prompt_with_overrides messages tools_raw tool_choice overrides =
      let normalized = normalize_tool_messages print marshal unmarshal_object messages in
      let schemas = normalize_tool_schemas print tools_raw in
      let names = map (λ s. s.name) schemas in
      let p = parse_tool_choice_policy print tool_choice names in
      let prompt = render definitions overrides (codes "openai.toolcall.prompt") (
        (codes "tool_details", trim_space (join (codes "\n") (tool_details schemas)))
        ∷ (codes "instructions", build_instructions_with_overrides names p overrides)
        ∷ []) in
      if eqb (length schemas) 0
      then record {
        messages = normalized;
        tool_names = [];
        tool_schemas = schemas;
        policy_of = policy false [] [];
      }
      else if not p.enabled
      then record {
        messages = normalized;
        tool_names = names;
        tool_schemas = schemas;
        policy_of = p;
      }
      else record {
        messages = append_tool_reminder (with_tool_prompt prompt normalized) names p overrides;
        tool_names = names;
        tool_schemas = schemas;
        policy_of = p;
      }
