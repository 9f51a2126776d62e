-- ===== src/Toolcall/Tests.antt =====
-- internal/toolcall/toolcall.go at concrete values: the sieve on a text in two chunks and on one in which
-- a letter grows in lower case, a choice of tools, escapes, and the prompt for a request with one tool.
use qwen2api_go.Prelude.{
  Bool, false, sym, ap, ◌∙◌, ltb, leb, ◌++◌, Option, drop, ℕ, zero, suc, ◌≡◌, refl, true, none,
  some, List, [], ◌∷◌, map, if◌then◌else◌, ◌&&◌, eqb,
}
use qwen2api_go.Text.{
  codes, ascii_lower, text_beq, has_prefix, trim_space, trim_left, trim_right, is_space,
  replace_from, contains, join, to_lower, equal_fold,
}
use qwen2api_go.Json.{
  Value, text, object, array, absent, item, no_items, put_field, Entries, entry, no_entries, field,
  field?, sprint,
}
use qwen2api_go.Fixtures.{ascii_unicode}
use Prim.Native.String.{String}
use qwen2api_go.Dict.{lookup}
use qwen2api_go.Prompts.{Definition, render, resolve, default_value_of, definition_by_id}
use qwen2api_go.Toolcall.Content.{
  message_of, normalize_tool_messages, split_system, normalize_message,
  normalize_message_text_content, sanitize_placeholder_text,
}
use qwen2api_go.Toolcall.Injection.{
  InjectionResult, inject_prompt_with_overrides, prompt_first, is_system_role, append_tool_reminder,
  build_reminder, remind_last, append_reminder_to_content, mode_line,
  build_instructions_with_overrides,
}
use qwen2api_go.Toolcall.Policy.{
  policy, normalize_tool_schemas, normalize_tool_items, normalize_tool_schema,
  parse_tool_choice_policy,
}
use qwen2api_go.Toolcall.Escapes.{escape_xml, decode_xml_text}
use qwen2api_go.Toolcall.Decoding.{decode_xml_text-escape_xml}
use qwen2api_go.Toolcall.Markers.{
  Bytes, first_from, index_of, longest_from, longest_of, has_suffix, safe_utf8_split_index,
  back_to_valid,
}
use qwen2api_go.Toolcall.Sieve.{
  Markup, new_stream_state, process_stream_chunk, first_marker_index, longest_marker_prefix_suffix,
}
use qwen2api_go.Toolcall.Passing.{IsUtf8}
use qwen2api_go.Toolcall.Feeding.{concat, feed, IsFed, feed_finds}

abbrev markup_with : (Bytes → Bytes) → Markup Unit
markup_with lower = record {
  lower = lower;
  valid_utf8 = λ s. true;
  parse_calls = λ s. [];
  remove_markup = λ s. s;
  strip_malformed_prelude = λ s. s;
  strip_prompt_leakage = λ s. s;
}

abbrev ascii_markup : Markup Unit
ascii_markup = markup_with (map ascii_lower)

-- The marker is cut in two by the chunks.
abbrev cut_chunks : List Bytes
cut_chunks = codes "so: <TOOL_" ∷ codes "call>" ∷ codes "x" ∷ []

-- A test for UTF-8 by the lead bytes: how many bytes of a rune are still to come.
abbrev utf8_step : ℕ → ℕ → Option ℕ
utf8_step zero c =
    if ltb c 128
    then some 0
    else if leb 194 c && ltb c 224
    then some 1
    else if leb 224 c && ltb c 240
    then some 2
    else if leb 240 c && ltb c 245
    then some 3
    else none
utf8_step (suc k) c = if leb 128 c && ltb c 192 then some k else none

abbrev utf8_run : Option ℕ → Bytes → Option ℕ
utf8_run none s = none
utf8_run (some k) [] = some k
utf8_run (some k) (c ∷ s) = utf8_run (utf8_step k c) s

abbrev is_whole : Option ℕ → Bool
is_whole (some zero) = true
is_whole _ = false

abbrev is_utf8 : Bytes → Bool
is_utf8 s = is_whole (utf8_run (some 0) s)

whole_run : (o : Option ℕ) → is_whole o ≡ true → o ≡ some 0
whole_run none e = cc
whole_run (some zero) e = refl
whole_run (some (suc k)) e = cc

run-append : (o : Option ℕ) (a b : Bytes) → utf8_run o (a ++ b) ≡ utf8_run (utf8_run o a) b
run-append none a b = refl
run-append (some k) [] b = refl
run-append (some k) (c ∷ a) b = run-append (utf8_step k c) a b

after_whole : (a b : Bytes) → is_utf8 a ≡ true → is_utf8 (a ++ b) ≡ is_utf8 b
after_whole a b valid =
    ap is_whole
      (run-append (some 0) a b ∙ ap (λ o. utf8_run o b) (whole_run (utf8_run (some 0) a) valid))

is_utf8-IsUtf8 : IsUtf8 is_utf8
is_utf8-IsUtf8 =
    (refl, λ a b va vb. after_whole a b va ∙ vb, λ a b va vab. sym (after_whole a b va) ∙ vab)

-- Text that is not valid UTF-8 does not change byte by byte.
abbrev utf8_markup : Markup Unit
utf8_markup =
    record (markup_with (λ s. if is_utf8 s then map ascii_lower s else 0xef ∷ 0xbf ∷ 0xbd ∷ [])) {
      valid_utf8 = is_utf8;
    }

-- A text that begins with a Chinese letter, of three bytes.
abbrev chinese_chunks : List Bytes
chinese_chunks = (0xe5 ∷ 0xa5 ∷ 0xbd ∷ codes ": <TOOL_") ∷ codes "call>" ∷ codes "x" ∷ []

feed_finds_example :
    IsFed utf8_markup [] (concat chinese_chunks) (feed utf8_markup chinese_chunks new_stream_state)
feed_finds_example =
    feed_finds utf8_markup chinese_chunks is_utf8-IsUtf8 (refl, (refl, (refl, tt)))
      (λ a s b e valid. rw valid refl)

finds_cut_marker :
    feed ascii_markup cut_chunks new_stream_state
    ≡ some (
      codes "so: ",
      record { pending = []; capturing = true; capture_buff = codes "<TOOL_call>" },
      codes "x" ∷ [],
    )
unfolding feed process_stream_chunk first_marker_index first_from index_of has_prefix
    longest_marker_prefix_suffix longest_from longest_of has_suffix text_beq safe_utf8_split_index
    back_to_valid
finds_cut_marker = refl

-- unicode.ToLower takes U+023A, two bytes in UTF-8, to U+2C65, which has three.
abbrev lower_growing : Bytes → Bytes
lower_growing [] = []
lower_growing (c ∷ []) = ascii_lower c ∷ []
lower_growing (c ∷ d ∷ s) =
    let grown = 0xe2 ∷ 0xb1 ∷ 0xa5 ∷ lower_growing s in
    let plain = ascii_lower c ∷ lower_growing (d ∷ s) in
    if eqb c 0xc8 && eqb d 0xba then grown else plain

abbrev grows : ℕ → Bytes
grows zero = codes "<tool_call"
grows (suc n) = 0xc8 ∷ 0xba ∷ grows n

-- One such letter before the marker: the capture begins after the marker's first byte.
misses_a_byte :
    process_stream_chunk (markup_with lower_growing) new_stream_state (grows 1)
    ≡ some (
      record { pending = []; capturing = true; capture_buff = codes "tool_call" },
      record { content = 0xc8 ∷ 0xba ∷ codes "<"; tool_calls = [] },
    )
unfolding process_stream_chunk first_marker_index first_from index_of has_prefix
misses_a_byte = refl

-- Eleven of them: the index is outside of the text, and the slice panics.
panics : process_stream_chunk (markup_with lower_growing) new_stream_state (grows 11) ≡ none
unfolding process_stream_chunk first_marker_index first_from index_of has_prefix
panics = refl

-- A choice that asks for nothing in particular makes a call of the tool `<nil>` mandatory.
abbrev auto_choice : Entries
auto_choice = entry (codes "type") (text (codes "auto")) no_entries

auto_choice_names_nil :
    parse_tool_choice_policy (λ v. []) (object auto_choice) (codes "f" ∷ [])
    ≡ policy true (codes "specific") (codes "<nil>")
unfolding parse_tool_choice_policy field field? text_beq sprint trim_space trim_left trim_right
    is_space
auto_choice_names_nil = refl

decode_xml_text-escape_xml_example :
    decode_xml_text (escape_xml (codes "a<b>&\"c'")) ≡ trim_space (codes "a<b>&\"c'")
decode_xml_text-escape_xml_example = decode_xml_text-escape_xml (codes "a<b>&\"c'")

-- A request with one tool, whose messages have none of the system.
abbrev one_tool : Value
one_tool = array (item (object (entry (codes "name") (text (codes "f")) no_entries)) no_items)

abbrev one_message : List (Option Entries)
one_message = some (message_of (codes "user") (text (codes "hi"))) ∷ []

abbrev prompt_of : String → String → Definition
prompt_of id value = record {
  id = codes id;
  category = [];
  title = [];
  description = [];
  default_value = codes value;
  risk = [];
  placeholders = [];
}

abbrev tool_prompts : List Definition
tool_prompts =
    prompt_of "openai.toolcall.prompt" "Use {{tool_details}}"
    ∷ prompt_of "openai.toolcall.reminder" "Only {{tool_names}}."
    ∷ []

abbrev injected : InjectionResult
injected =
    inject_prompt_with_overrides (λ v. []) (λ v. some (codes "{}")) (λ s. none) (λ s. s)
      tool_prompts one_message one_tool absent []

reminds_the_user :
    drop 1 injected.messages ≡ message_of (codes "user") (text (codes "Only f.\n\nhi")) ∷ []
unfolding inject_prompt_with_overrides normalize_tool_messages split_system normalize_message
    normalize_tool_schemas normalize_tool_items normalize_tool_schema parse_tool_choice_policy
    prompt_first is_system_role append_tool_reminder build_reminder remind_last
    append_reminder_to_content render resolve default_value_of definition_by_id replace_from
    mode_line build_instructions_with_overrides put_field field field? sprint text_beq trim_space
    trim_left trim_right is_space has_prefix contains join to_lower equal_fold lookup
    normalize_message_text_content sanitize_placeholder_text
reminds_the_user = refl
