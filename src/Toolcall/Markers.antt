-- ===== src/Toolcall/Markers.antt =====
-- internal/toolcall/toolcall.go: the markers of tool calls, and the places in the model's output at which
-- they stand. A Go string is here the list of its bytes; an index of -1 is `none`.
use qwen2api_go.Prelude.{
  ℕ, zero, suc, ◌-◌, Bool, ◌&&◌, ◌||◌, Option, none, some, List, [], ◌∷◌, ltb, leb, eqb, length,
  take, drop, if◌then◌else◌,
}
use qwen2api_go.Text.{codes, text_beq, has_prefix}

abbrev pub Bytes : Type 0
Bytes = List ℕ

-- startMarkers and toolTagPairs, which are in lower case, so that strings.ToLower leaves them alone.
abbrev pub start_markers : List Bytes
start_markers =
    codes "<ml_tool_calls" ∷ codes "<ml_tool_call" ∷ codes "<tool_calls" ∷ codes "<tool_call" ∷ []

abbrev pub tool_tag_pairs : List (Bytes × Bytes)
tool_tag_pairs =
    (codes "<ml_tool_calls", codes "</ml_tool_calls>")
    ∷ (codes "<ml_tool_call", codes "</ml_tool_call>")
    ∷ (codes "<tool_calls", codes "</tool_calls>")
    ∷ (codes "<tool_call", codes "</tool_call>")
    ∷ (codes "<function_call", codes "</function_call>")
    ∷ (codes "<invoke", codes "</invoke>")
    ∷ (codes "<tool_use", codes "</tool_use>")
    ∷ (codes "<function_call", codes "</function_call>")
    ∷ []

-- `s[:n]`, `s[n:]` and `s[m:n]`
abbrev pub slice_to : ℕ → Bytes → Option Bytes
slice_to n s = if leb n (length s) then some (take n s) else none

abbrev pub slice_from : ℕ → Bytes → Option Bytes
slice_from n s = if leb n (length s) then some (drop n s) else none

abbrev pub slice : ℕ → ℕ → Bytes → Option Bytes
slice m n s = if leb m n && leb n (length s) then some (drop m (take n s)) else none

-- `i + 1`, for an index that is there
abbrev pub next : Option ℕ → Option ℕ
next none = none
next (some i) = some (suc i)

-- strings.Index, strings.LastIndex and strings.HasSuffix; an index of -1 is `none`.
unfoldable pub index_of : Bytes → Bytes → Option ℕ
unfolding has_prefix
index_of part [] = if has_prefix part [] then some 0 else none
index_of part (c ∷ s) =
    let later = next (index_of part s) in if has_prefix part (c ∷ s) then some 0 else later

unfoldable pub last_index_of : Bytes → Bytes → Option ℕ
unfolding has_prefix
last_index_of part [] = if has_prefix part [] then some 0 else none
last_index_of part (c ∷ s) = elim (last_index_of part s) [
  | some i ↦ some (suc i)
  | none ↦ if has_prefix part (c ∷ s) then some 0 else none
]

unfoldable pub has_suffix : Bytes → Bytes → Bool
has_suffix s part = leb (length part) (length s) && text_beq (drop (length s - length part) s) part

-- `idx >= 0 && (result == -1 || idx < result)`
abbrev pub earlier : Option ℕ → Option ℕ → Option ℕ
earlier result none = result
earlier none (some i) = some i
earlier (some best) (some i) = if ltb i best then some i else some best

unfoldable pub first_from : List Bytes → Bytes → Option ℕ → Option ℕ
unfolding index_of
first_from [] lower result = result
first_from (marker ∷ markers) lower result =
    first_from markers lower (earlier result (index_of marker lower))

-- The loop on `l`: the longest beginning of the marker, above `best`, that the text ends with.
unfoldable pub longest_of : Bytes → Bytes → ℕ → ℕ → ℕ
unfolding has_suffix
longest_of marker lower zero best = best
longest_of marker lower (suc l) best =
    let shorter = longest_of marker lower l best in
    if leb (suc l) best
    then best
    else if has_suffix lower (take (suc l) marker)
    then suc l
    else shorter

abbrev pub least : ℕ → ℕ → ℕ
least a b = if ltb b a then b else a

unfoldable pub longest_from : List Bytes → Bytes → ℕ → ℕ
unfolding longest_of
longest_from [] lower best = best
longest_from (marker ∷ markers) lower best =
    longest_from markers lower (longest_of marker lower (least (length marker) (length lower)) best)

-- The loop of safeUTF8SplitIndex: back to a place before which the text is valid UTF-8.
unfoldable pub back_to_valid : (Bytes → Bool) → Bytes → ℕ → ℕ
back_to_valid valid s zero = zero
back_to_valid valid s (suc i) =
    let before = back_to_valid valid s i in if valid (take (suc i) s) then suc i else before

unfoldable pub safe_utf8_split_index : (Bytes → Bool) → Bytes → ℕ → ℕ
unfolding back_to_valid
safe_utf8_split_index valid s i = if leb (length s) i then length s else back_to_valid valid s i

-- The cutset " \t\r\n"
abbrev pub is_blank_byte : ℕ → Bool
is_blank_byte c = eqb c 32 || eqb c 9 || eqb c 13 || eqb c 10
