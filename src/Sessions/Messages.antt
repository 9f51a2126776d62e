-- ===== src/Sessions/Messages.antt =====
-- internal/openai/conversation_sessions.go: the messages that are kept for the session viewer.
use qwen2api_go.Prelude.{
  ℕ, suc, ◌-◌, Bool, true, false, not, ◌&&◌, ◌||◌, Option, none, some, List, [], ◌∷◌, ◌++◌, ltb,
  leb, eqb, length, take, drop, if◌then◌else◌,
}
use qwen2api_go.Prelude.Int.{ℤ, pos, add_ℕ}
use qwen2api_go.Text.{
  Text, codes, text_beq, trim_space, is_blank, decimal, join, distinct, sort_texts,
}
use qwen2api_go.Json.{
  Value, absent, text, array, object, Values, no_items, item, Entries, no_entries, entry, sprint,
  field, field?,
}
use qwen2api_go.Storage.{CachedChatMessage}

-- maxCachedConversationMessages
abbrev pub max_cached_messages : ℕ
max_cached_messages = 100

-- What the caller gives of an exchange: a nil map is `none`.
pub record Exchange : Type 0 where
  pub request_messages : List (Option Entries)
  pub assistant_message : Option Entries
  pub tool_names : List Text

abbrev unless_blank : Text → List Text
unless_blank name = if text_beq name [] then [] else name ∷ []

-- normalizeToolCalls. A list of `any` and a list of maps are both an `array`.
unfoldable pub normalize_tool_calls : Value → Values
normalize_tool_calls absent = no_items
normalize_tool_calls (array items) = items
normalize_tool_calls v = item v no_items

abbrev pub metadata_keys : List Text
metadata_keys = codes "name" ∷ codes "tool_call_id" ∷ codes "chat_type" ∷ []

-- `print` is fmt.Sprint on other values, `marshal` json.Marshal.
module _ (print : Value → Text) (marshal : Value → Option Text) where
  abbrev sprint_trimmed : Value → Text
  sprint_trimmed v = trim_space (sprint print v)

  unfoldable pub first_non_empty : List Value → Value
  unfolding sprint
  first_non_empty [] = text []
  first_non_empty (v ∷ rest) =
      let later = first_non_empty rest in
      if not (text_beq (sprint_trimmed v) []) && not (text_beq (sprint print v) (codes "<nil>"))
      then v
      else later

  -- An entry of a list of contents: what is appended, if anything.
  unfoldable pub content_part : Value → List Text
  unfolding sprint first_non_empty
  content_part (object obj) =
      let type_name = sprint_trimmed (field (codes "type") obj) in
      let plain =
        sprint print
          (first_non_empty (field (codes "text") obj ∷ field (codes "content") obj ∷ [])) in
      let any_text = sprint_trimmed (
        first_non_empty (
          field (codes "text") obj ∷ field (codes "content") obj ∷ field (codes "url") obj ∷ [])) in
      if text_beq type_name (codes "text") || text_beq type_name (codes "input_text")
      then plain ∷ []
      else if text_beq type_name (codes "image_url") || text_beq type_name (codes "input_image")
      then codes "[image]" ∷ []
      else if text_beq type_name (codes "file") || text_beq type_name (codes "input_file")
      then codes "[file]" ∷ []
      else if not (text_beq any_text [])
      then any_text ∷ []
      else if not (text_beq type_name [])
      then (codes "[" ++ type_name ++ codes "]") ∷ []
      else []
  content_part v = if text_beq (sprint_trimmed v) [] then [] else sprint_trimmed v ∷ []

  content_parts : Values → List Text
  unfolding content_part
  content_parts no_items = []
  content_parts (item v items) = content_part v ++ content_parts items

  unfoldable pub cached_content_text : Value → Text
  unfolding content_parts sprint
  cached_content_text absent = []
  cached_content_text (text s) = s
  cached_content_text (array items) = join (codes "\n") (content_parts items)
  cached_content_text v = elim (marshal v) [ some raw ↦ raw | none ↦ sprint print v ]

  -- The entries among `keys` that the message has and that are not blank.
  unfoldable pub metadata_of : List Text → Entries → Entries
  unfolding sprint
  metadata_of [] message = no_entries
  metadata_of (key ∷ keys) message =
      let rest = metadata_of keys message in
      elim (field? key message) [
        | none ↦ rest
        | some v ↦ if text_beq (sprint_trimmed v) [] then rest else entry key v rest
      ]

  abbrev pub empty_cached : ℤ → CachedChatMessage
  empty_cached created_at = record {
    id = [];
    role = [];
    content = [];
    reasoning_content = [];
    tool_calls = no_items;
    created_at = created_at;
    metadata = no_entries;
  }

  unfoldable pub cached_message_from_map : Option Entries → ℤ → CachedChatMessage
  unfolding cached_content_text normalize_tool_calls metadata_of sprint
  cached_message_from_map none created_at = empty_cached created_at
  cached_message_from_map (some message) created_at = record {
    id = [];
    role = sprint_trimmed (field (codes "role") message);
    content = cached_content_text (field (codes "content") message);
    reasoning_content = cached_content_text (field (codes "reasoning_content") message);
    tool_calls = normalize_tool_calls (field (codes "tool_calls") message);
    created_at = created_at;
    metadata = metadata_of metadata_keys message;
  }

  -- fmt.Sprintf("msg-%d-%d", now, place)
  abbrev pub message_id : ℤ → ℕ → Text
  message_id now place = codes "msg-" ++ decimal now ++ codes "-" ++ decimal (pos place)

  -- The message at place `place`, counted from 1, with a default for a blank role.
  unfoldable pub cached_at : ℤ → ℕ → Text → Option Entries → CachedChatMessage
  unfolding cached_message_from_map
  cached_at now place default_role message =
      let cached = cached_message_from_map message (add_ℕ now (place - 1)) in
      record cached {
        role = if is_blank cached.role then default_role else cached.role;
        id = message_id now place;
      }

  unfoldable pub cached_from : ℤ → ℕ → List (Option Entries) → List CachedChatMessage
  unfolding cached_at
  cached_from now place [] = []
  cached_from now place (m ∷ messages) =
      cached_at now place (codes "message") m ∷ cached_from now (suc place) messages

  -- `messages[len(messages)-max:]`, if there are more.
  abbrev pub newest : List CachedChatMessage → List CachedChatMessage
  newest messages =
      if ltb max_cached_messages (length messages)
      then drop (length messages - max_cached_messages) messages
      else messages

  abbrev pub assistant_at : ℤ → ℕ → Option Entries → List CachedChatMessage
  assistant_at now place none = []
  assistant_at now place (some m) = cached_at now place (codes "assistant") (some m) ∷ []

  unfoldable pub build_cached_messages :
      ℤ → List (Option Entries) → Option Entries → List CachedChatMessage
  unfolding cached_from cached_at
  build_cached_messages now request_messages assistant_message = newest (
      cached_from now 1 request_messages
      ++ assistant_at now (suc (length request_messages)) assistant_message)

  unfoldable pub names_from_tool_call : Value → List Text
  unfolding sprint
  names_from_tool_call (object obj) =
      function_name (field (codes "function") obj)
      ++ unless_blank (sprint_trimmed (field (codes "name") obj))
    where
      function_name : Value → List Text
      function_name (object fn) = unless_blank (sprint_trimmed (field (codes "name") fn))
      function_name v = []
  names_from_tool_call v = []

  names_from_tool_calls : Values → List Text
  unfolding names_from_tool_call
  names_from_tool_calls no_items = []
  names_from_tool_calls (item call calls) = names_from_tool_call call ++ names_from_tool_calls calls

  -- A message with a tool call id that is neither blank nor nil is the result of a tool.
  unfoldable pub is_tool_result : CachedChatMessage → Bool
  unfolding sprint
  is_tool_result message = elim (field? (codes "tool_call_id") message.metadata) [
    | none ↦ false
    | some v ↦
        not (text_beq (sprint_trimmed v) []) && not (text_beq (sprint_trimmed v) (codes "<nil>"))
  ]

  unfoldable pub names_of_messages : List CachedChatMessage → List Text
  unfolding names_from_tool_calls is_tool_result
  names_of_messages [] = []
  names_of_messages (m ∷ messages) =
      names_from_tool_calls m.tool_calls
      ++ (if is_tool_result m then codes "tool_result" ∷ [] else [])
      ++ names_of_messages messages

  trimmed_names : List Text → List Text
  trimmed_names [] = []
  trimmed_names (name ∷ names) = unless_blank (trim_space name) ++ trimmed_names names

  -- The set of names, sorted.
  unfoldable pub cached_tools_used : List CachedChatMessage → List Text → List Text
  unfolding names_of_messages trimmed_names
  cached_tools_used messages tool_names =
      sort_texts (distinct (trimmed_names tool_names ++ names_of_messages messages))

unfoldable pub truncate_for_admin : Text → ℕ → Text
truncate_for_admin value limit =
    let trimmed = trim_space value in
    if eqb limit 0 || leb (length trimmed) limit then trimmed else take limit trimmed ++ codes "…"

-- The text of a message in the list of sessions; a message without one but with tool calls names them.
unfoldable pub preview_of : CachedChatMessage → Text
preview_of m =
    let content = trim_space m.content in
    if text_beq content [] && not (has_none m.tool_calls) then codes "[tool calls]" else content
  where
    has_none : Values → Bool
    has_none no_items = true
    has_none (item v items) = false

-- The last message that has a preview: the loop runs from the back.
unfoldable pub last_preview : List CachedChatMessage → Text
unfolding preview_of truncate_for_admin
last_preview [] = []
last_preview (m ∷ messages) =
    let later = last_preview messages in
    if not (text_beq later [])
    then later
    else if text_beq (preview_of m) []
    then []
    else truncate_for_admin (preview_of m) 240
