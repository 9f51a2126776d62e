-- ===== src/Toolcall/Content.antt =====
-- internal/toolcall/toolcall.go: the texts of messages, and the messages that carry tool calls and their
-- results.
use qwen2api_go.Prelude.{
  Bool, true, false, ◌||◌, Option, none, some, List, [], ◌∷◌, ◌++◌, if◌then◌else◌,
}
use qwen2api_go.Text.{
  Text, Unicode, codes, text_eq, text_beq, trim_space, is_blank, equal_fold, to_lower, join,
}
use qwen2api_go.Json.{
  Value, absent, text, array, object, Values, no_items, item, Entries, no_entries, entry, sprint,
  field,
}
use qwen2api_go.Toolcall.Escapes.{escape_cdata, escape_xml, sanitize_tag_name}

unfoldable pub sanitize_placeholder_text : Text → Text
sanitize_placeholder_text s =
    let trimmed = trim_space s in
    if text_beq trimmed []
      || text_beq trimmed (codes "<nil>")
      || text_beq trimmed (codes "nil")
      || text_beq trimmed (codes "null")
      || text_beq trimmed (codes "undefined")
    then []
    else s

abbrev pub fallback_text : Text → Text → Text
fallback_text value fallback = if is_blank value then fallback else value

-- The parts that are not empty.
abbrev pub unless_empty : Text → List Text
unless_empty s = if text_beq s [] then [] else s ∷ []

-- The first of two texts that is not empty.
abbrev pub or_else : Text → Text → Text
or_else s t = if text_beq s [] then t else s

-- A message of two fields.
abbrev pub message_of : Text → Value → Entries
message_of role content =
    entry (codes "role") (text role) (entry (codes "content") content no_entries)

-- fmt.Sprint on other values, json.Marshal, and json.Unmarshal into a map.
module _ (print : Value → Text) (marshal : Value → Option Text)
    (unmarshal_object : Text → Option Entries) where
  unfoldable pub printable_text : Value → Text
  unfolding sprint sanitize_placeholder_text
  printable_text absent = []
  printable_text v = sanitize_placeholder_text (trim_space (sprint print v))

  -- json.Marshal without its error
  abbrev pub raw_json : Value → Text
  raw_json v = elim (marshal v) [ none ↦ [] | some raw ↦ raw ]

  unfoldable pub format_xml_parameter_value : Value → Text
  unfolding escape_cdata sprint
  format_xml_parameter_value (text s) = escape_cdata s
  format_xml_parameter_value v = elim (marshal v) [
    | none ↦ escape_cdata (sprint print v)
    | some raw ↦ escape_cdata raw
  ]

  -- A parameter of a tool call. The code runs over a map in an order that Go leaves open.
  unfoldable pub format_parameters : Entries → List Text
  unfolding format_xml_parameter_value sanitize_tag_name
  format_parameters no_entries = []
  format_parameters (entry key v entries) =
      (codes "      <"
        ++ sanitize_tag_name key
        ++ codes "><![CDATA["
        ++ format_xml_parameter_value v
        ++ codes "]]></"
        ++ sanitize_tag_name key
        ++ codes ">")
      ∷ format_parameters entries

  -- The arguments: a map, or a text that holds one; otherwise there are none.
  abbrev pub arguments_of : Value → Entries
  arguments_of (text s) = elim (unmarshal_object s) [ none ↦ no_entries | some args ↦ args ]
  arguments_of (object args) = args
  arguments_of v = no_entries

  abbrev pub object_or_none : Value → Entries
  object_or_none (object entries) = entries
  object_or_none v = no_entries

  abbrev pub present : Value → Bool
  present absent = false
  present v = true

  unfoldable pub format_call : Value → List Text
  unfolding sprint field escape_xml format_parameters
  format_call (object call) =
      let function = object_or_none (field (codes "function") call) in
      let of_function = trim_space (sprint print (field (codes "name") function)) in
      let name = or_else of_function (trim_space (sprint print (field (codes "name") call))) in
      let given = field (codes "arguments") function in
      let args = arguments_of (if present given then given else field (codes "arguments") call) in
      if text_beq name []
      then []
      else join (codes "\n") (
          codes "  <ml_tool_call>"
          ∷ (codes "    <ml_tool_name>" ++ escape_xml name ++ codes "</ml_tool_name>")
          ∷ codes "    <ml_parameters>"
          ∷ join (codes "\n") (format_parameters args)
          ∷ codes "    </ml_parameters>"
          ∷ codes "  </ml_tool_call>"
          ∷ [])
        ∷ []
  format_call v = []

  unfoldable pub format_calls : Values → List Text
  unfolding format_call
  format_calls no_items = []
  format_calls (item call calls) = format_call call ++ format_calls calls

  abbrev pub wrapped : List Text → Text
  wrapped [] = []
  wrapped (block ∷ blocks) =
      codes "<ml_tool_calls>\n" ++ join (codes "\n") (block ∷ blocks) ++ codes "\n</ml_tool_calls>"

  unfoldable pub format_assistant_tool_calls : Values → Text
  unfolding format_calls
  format_assistant_tool_calls calls = wrapped (format_calls calls)

module _ (print : Value → Text) (marshal : Value → Option Text)
    (unmarshal_object : Text → Option Entries) ⦃u : Unicode⦄ where
  abbrev printable : Value → Text
  printable = printable_text print marshal unmarshal_object

  -- The text of an item of a list of contents.
  unfoldable pub text_item : Value → List Text
  unfolding sprint field printable_text
  text_item (object content) =
      if equal_fold (sprint print (field (codes "type") content)) (codes "text")
      then unless_empty (printable (field (codes "text") content))
      else []
  text_item v = []

  unfoldable pub text_items : Values → List Text
  unfolding text_item
  text_items no_items = []
  text_items (item v items) = text_item v ++ text_items items

  unfoldable pub normalize_message_text_content : Value → Text
  unfolding text_items sanitize_placeholder_text printable_text field
  normalize_message_text_content (text s) = sanitize_placeholder_text s
  normalize_message_text_content (array items) = join (codes "\n") (text_items items)
  normalize_message_text_content (object content) =
      or_else (printable (field (codes "text") content)) (
        or_else (printable (field (codes "content") content))
          (sanitize_placeholder_text (raw_json print marshal unmarshal_object (object content))))
  normalize_message_text_content v = []

  unfoldable pub format_tool_result : Entries → Text
  unfolding printable_text normalize_message_text_content escape_xml escape_cdata field
  format_tool_result message =
      let name = or_else (printable (field (codes "name") message)) (codes "tool") in
      let call_id = printable (field (codes "tool_call_id") message) in
      let content = normalize_message_text_content (field (codes "content") message) in
      let id_lines =
        if text_beq call_id []
        then []
        else (codes "  <ml_tool_call_id>" ++ escape_xml call_id ++ codes "</ml_tool_call_id>")
          ∷ [] in
      join (codes "\n") (
        codes "<ml_tool_result>"
        ∷ (codes "  <ml_tool_name>" ++ escape_xml name ++ codes "</ml_tool_name>")
        ∷ (id_lines
            ++ (codes "  <content><![CDATA[" ++ escape_cdata content ++ codes "]]></content>")
              ∷ codes "</ml_tool_result>"
              ∷ []))

  -- The role of a message.
  abbrev pub role_of : Entries → Text
  role_of message = to_lower (trim_space (sprint print (field (codes "role") message)))

  abbrev pub with_markup : Text → Text → Text
  with_markup content markup =
      if is_blank content then markup else content ++ codes "\n\n" ++ markup

  -- A message of the assistant: its tool calls become text.
  abbrev pub assistant_message : Entries → Value → Entries
  assistant_message message (array (item call calls)) = message_of (codes "assistant") (
      text (
        with_markup (normalize_message_text_content (field (codes "content") message))
          (format_assistant_tool_calls print marshal unmarshal_object (item call calls))))
  assistant_message message v = message

  -- The message that takes the place of one that is not the system's.
  unfoldable pub normalize_message : Entries → Entries
  unfolding sprint field format_tool_result normalize_message_text_content
      format_assistant_tool_calls
  normalize_message message =
      if text_beq (role_of message) (codes "assistant")
      then assistant_message message (field (codes "tool_calls") message)
      else if text_beq (role_of message) (codes "tool")
      then message_of (codes "user") (text (format_tool_result message))
      else message

  abbrev pub is_system : Entries → Bool
  is_system message = text_beq (role_of message) (codes "system")

  -- The loop: the messages and the parts of the system's message. A nil message is passed over.
  unfoldable pub split_system : List (Option Entries) → List Entries × List Text
  unfolding sprint field normalize_message normalize_message_text_content
  split_system [] = ([], [])
  split_system (none ∷ messages) = split_system messages
  split_system (some message ∷ messages) =
      let (others, parts) = split_system messages in
      let content = normalize_message_text_content (field (codes "content") message) in
      if is_system message
      then (others, if is_blank content then parts else content ∷ parts)
      else (normalize_message message ∷ others, parts)

  abbrev pub system_first : List Entries × List Text → List Entries
  system_first (others, []) = others
  system_first (others, part ∷ parts) =
      message_of (codes "system") (text (join (codes "\n\n") (part ∷ parts))) ∷ others

  unfoldable pub normalize_tool_messages : List (Option Entries) → List Entries
  unfolding split_system
  normalize_tool_messages messages = system_first (split_system messages)
