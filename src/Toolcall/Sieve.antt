-- ===== src/Toolcall/Sieve.antt =====
-- internal/toolcall/toolcall.go: the sieve, which lets the model's output through as it comes and holds
-- back what may be a tool call. A Go string is here the list of its bytes, which the code cuts at; a cut
-- outside of the string panics, written `none`.
use qwen2api_go.Prelude.{
  ℕ, suc, ◌+◌, ◌-◌, Bool, true, false, not, ◌&&◌, ◌||◌, Option, none, some, List, [], ◌∷◌, ◌++◌,
  ltb, eqb, length, drop, if◌then◌else◌,
}
use qwen2api_go.Text.{codes, has_prefix, contains, trim_left}
use qwen2api_go.Toolcall.Markers.{
  Bytes, start_markers, tool_tag_pairs, slice_to, slice_from, slice, index_of, last_index_of,
  first_from, longest_from, safe_utf8_split_index, is_blank_byte,
}

pub record StreamState : Type 0 where
  pub pending : Bytes
  pub capturing : Bool
  pub capture_buff : Bytes

abbrev pub new_stream_state : StreamState
new_stream_state = record { pending = []; capturing = false; capture_buff = [] }

abbrev pub waiting : Bytes → Bytes → StreamState
waiting buff pending = record { pending = pending; capturing = false; capture_buff = buff }

-- What a chunk yields: text, and tool calls of a type `C`.
pub record StreamChunkResult (C : Type 0) : Type 0 where
  pub content : Bytes
  pub tool_calls : List C

-- strings.ToLower and utf8.ValidString on bytes, and the functions of the same file that are made of
-- regular expressions: ParseCalls, RemoveMarkup, stripMalformedToolPreludePrefix and
-- stripToolPromptLeakage.
pub record Markup (C : Type 0) : Type 0 where
  pub lower : Bytes → Bytes
  pub valid_utf8 : Bytes → Bool
  pub parse_calls : Bytes → List C
  pub remove_markup : Bytes → Bytes
  pub strip_malformed_prelude : Bytes → Bytes
  pub strip_prompt_leakage : Bytes → Bytes

module _ {C : Type 0} (m : Markup C) where
  abbrev pub only : Bytes → StreamChunkResult C
  only content = record { content = content; tool_calls = [] }

  unfoldable pub first_marker_index : Bytes → Option ℕ
  unfolding first_from
  first_marker_index s = first_from start_markers (m.lower s) none

  unfoldable pub longest_marker_prefix_suffix : Bytes → ℕ
  unfolding longest_from
  longest_marker_prefix_suffix s =
      if eqb (length s) 0 then 0 else longest_from start_markers (m.lower s) 0

  -- The block from an opening tag to the end of the last closing one, with what surrounds it.
  abbrev pub consume_parts :
      Option Bytes → Option Bytes → Option Bytes → Option (Option (StreamChunkResult C))
  consume_parts (some prefix) (some block) (some suffix) =
      let calls = m.parse_calls block in
      let all = prefix ++ block ++ suffix in
      some (
        some (
          if eqb (length calls) 0
          then only (m.strip_prompt_leakage (m.strip_malformed_prelude all))
          else record {
            content = m.strip_prompt_leakage (m.remove_markup all);
            tool_calls = calls;
          }))
  consume_parts _ _ _ = none

  abbrev pub consume_at : Bytes → Bytes → ℕ → Option ℕ → Option (Option (StreamChunkResult C))
  consume_at source close open_index none = some none
  consume_at source close open_index (some close_index) =
      let close_end = close_index + length close in
      if ltb close_index open_index
      then some none
      else consume_parts (slice_to open_index source) (slice open_index close_end source)
          (slice_from close_end source)

  abbrev pub consume_pair :
      Bytes
      → Bytes
      → Bytes
      → Option ℕ
      → Option (Option (StreamChunkResult C))
      → Option (Option (StreamChunkResult C))
  consume_pair source lower close none rest = rest
  consume_pair source lower close (some open_index) rest =
      consume_at source close open_index (last_index_of close lower)

  unfoldable pub consume_pairs :
      List (Bytes × Bytes)
      → Bytes
      → Bytes
      → Option (Option (StreamChunkResult C))
      → Option (Option (StreamChunkResult C))
  unfolding index_of last_index_of
  consume_pairs [] source lower rest = rest
  consume_pairs ((open_tag, close_tag) ∷ pairs) source lower rest =
      consume_pair source lower close_tag (index_of open_tag lower)
        (consume_pairs pairs source lower rest)

  -- `some none` says that the capture is not complete.
  unfoldable pub try_consume_capture : Bytes → Option (Option (StreamChunkResult C))
  unfolding consume_pairs contains
  try_consume_capture source =
      let lower = m.lower source in
      consume_pairs tool_tag_pairs source lower (
        some (
          if contains (codes "</ml_tool_calls>") lower
            || contains (codes "</tool_calls>") lower
            || contains (codes "</ml_tool_call>") lower
            || contains (codes "</tool_call>") lower
          then some
              (only (m.strip_prompt_leakage (m.strip_malformed_prelude (m.remove_markup source))))
          else none))

  unfoldable pub starts_with_container_markup : Bytes → Bool
  unfolding has_prefix trim_left
  starts_with_container_markup s =
      let trimmed = m.lower (trim_left is_blank_byte s) in
      has_prefix (codes "<tool_calls") trimmed
      || has_prefix (codes "<ml_tool_calls") trimmed
      || has_prefix (codes "<tool_call") trimmed
      || has_prefix (codes "<ml_tool_call") trimmed
      || has_prefix (codes "<tool_use") trimmed
      || has_prefix (codes "<invoke") trimmed

  abbrev pub is_plain_body : Bytes → Bool
  is_plain_body [] = false
  is_plain_body (c ∷ body) = not (eqb c b'<')

  unfoldable pub should_fallback_malformed_capture : Bytes → Bool
  unfolding starts_with_container_markup index_of trim_left
  should_fallback_malformed_capture captured =
      let source = trim_left is_blank_byte captured in
      starts_with_container_markup source && elim (index_of (codes ">") source) [
        | none ↦ false
        | some i ↦ is_plain_body (trim_left is_blank_byte (drop (suc i) source))
      ]

  abbrev pub Next : Type 0
  Next = Option (StreamState × StreamChunkResult C)

  -- A chunk that comes while a tool call is captured.
  abbrev pub captured_chunk : Bytes → Option (Option (StreamChunkResult C)) → Next
  captured_chunk buff none = none
  captured_chunk buff (some (some result)) = some (new_stream_state, result)
  captured_chunk buff (some none) =
      if should_fallback_malformed_capture buff
      then some (new_stream_state, only (m.strip_malformed_prelude buff))
      else some (record { pending = []; capturing = true; capture_buff = buff }, only [])

  -- The capture begins at an index.
  abbrev pub capture_from : Option Bytes → Option Bytes → Next
  capture_from (some safe) (some captured) =
      some (record { pending = []; capturing = true; capture_buff = captured }, only safe)
  capture_from _ _ = none

  abbrev pub hold_from : Bytes → Option Bytes → Option Bytes → Next
  hold_from buff (some safe) (some held) = some (waiting buff held, only safe)
  hold_from buff _ _ = none

  -- Text without a marker: the end that may be the beginning of one is held back.
  abbrev pub hold : Bytes → Bytes → ℕ → Next
  hold buff s suffix_length =
      let at = safe_utf8_split_index m.valid_utf8 s (length s - suffix_length) in
      if eqb suffix_length 0
      then some (waiting buff [], only s)
      else if ltb suffix_length (length s)
      then hold_from buff (slice_to at s) (slice_from at s)
      else some (waiting buff s, only [])

  abbrev pub pass_chunk : Bytes → Bytes → Option ℕ → Next
  pass_chunk buff s (some i) = capture_from (slice_to i s) (slice_from i s)
  pass_chunk buff s none = hold buff s (longest_marker_prefix_suffix s)

  unfoldable pub process_stream_chunk : StreamState → Bytes → Next
  unfolding try_consume_capture should_fallback_malformed_capture first_marker_index
      longest_marker_prefix_suffix safe_utf8_split_index
  process_stream_chunk state chunk =
      let pending = state.pending ++ chunk in
      let buff = state.capture_buff ++ pending in
      if state.capturing
      then captured_chunk buff (try_consume_capture buff)
      else pass_chunk state.capture_buff pending (first_marker_index pending)

  abbrev pub finalize_capture :
      Bytes → Option (Option (StreamChunkResult C)) → Option (StreamChunkResult C)
  finalize_capture source none = none
  finalize_capture source (some (some result)) = some result
  finalize_capture source (some none) =
      some (only (m.strip_prompt_leakage (m.strip_malformed_prelude (m.remove_markup source))))

  unfoldable pub finalize_stream : StreamState → Option (StreamChunkResult C)
  unfolding try_consume_capture
  finalize_stream state =
      let calls = m.parse_calls state.pending in
      if state.capturing
      then finalize_capture (state.capture_buff ++ state.pending)
          (try_consume_capture (state.capture_buff ++ state.pending))
      else some (
          if eqb (length calls) 0
          then only (m.strip_prompt_leakage (m.strip_malformed_prelude state.pending))
          else record {
            content = m.strip_prompt_leakage (m.remove_markup state.pending);
            tool_calls = calls;
          })
