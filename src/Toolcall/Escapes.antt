-- ===== src/Toolcall/Escapes.antt =====
-- internal/toolcall/toolcall.go: escapes in the markup of tool calls.
use qwen2api_go.Prelude.{
  ℕ, zero, suc, ◌+◌, ◌-◌, Bool, true, false, ◌&&◌, ◌||◌, Option, none, some, List, [], ◌∷◌, ◌++◌,
  leb, eqb, length, if◌then◌else◌,
}
use qwen2api_go.Text.{Text, codes, has_prefix, replace_from, trim_space, ascii_lower}

unfoldable pub escape_cdata : Text → Text
unfolding replace_from
escape_cdata = replace_from (codes "]]>") (codes "]]]]><![CDATA[>") 0

-- strings.NewReplacer with texts of one byte
unfoldable pub escape_char : ℕ → Text
escape_char c =
    if eqb c b'&'
    then codes "&amp;"
    else if eqb c b'<'
    then codes "&lt;"
    else if eqb c b'>'
    then codes "&gt;"
    else if eqb c b'"'
    then codes "&quot;"
    else if eqb c 39
    then codes "&apos;"
    else c ∷ []

unfoldable pub escape_xml : Text → Text
unfolding escape_char
escape_xml [] = []
escape_xml (c ∷ s) = escape_char c ++ escape_xml s

abbrev pub entities : List (Text × ℕ)
entities =
    (codes "&lt;", b'<')
    ∷ (codes "&gt;", b'>')
    ∷ (codes "&quot;", b'"')
    ∷ (codes "&apos;", 39)
    ∷ (codes "&amp;", b'&')
    ∷ []

-- The first entity that the text begins with: its length after the first code point, and its value.
unfoldable pub entity_at : List (Text × ℕ) → Text → Option (ℕ × ℕ)
unfolding has_prefix
entity_at [] s = none
entity_at ((old, c) ∷ rest) s =
    let later = entity_at rest s in if has_prefix old s then some (length old - 1, c) else later

-- strings.NewReplacer with the entities
unfoldable pub decode_from : ℕ → Text → Text
unfolding entity_at
decode_from skip [] = []
decode_from (suc skip) (c ∷ s) = decode_from skip s
decode_from zero (c ∷ s) = elim (entity_at entities (c ∷ s)) [
  | none ↦ c ∷ decode_from zero s
  | some (skip, d) ↦ d ∷ decode_from skip s
]

-- A prefix whose letters may be of either case.
unfoldable pub has_prefix_fold : Text → Text → Bool
has_prefix_fold [] t = true
has_prefix_fold (c ∷ s) [] = false
has_prefix_fold (c ∷ s) (d ∷ t) = eqb (ascii_lower c) (ascii_lower d) && has_prefix_fold s t

abbrev pub onto : ℕ → Option Text → Option Text
onto c none = none
onto c (some t) = some (c ∷ t)

-- The text before the first `]]>`, if there is one.
unfoldable pub until_close : Text → Option Text
unfolding has_prefix
until_close [] = none
until_close (c ∷ s) =
    let later = onto c (until_close s) in
    if has_prefix (codes "]]>") (c ∷ s) then some [] else later

abbrev pub cdata_open : Text
cdata_open = codes "<![CDATA["

-- A section that begins here and has an end: its contents.
unfoldable pub section_at : Text → Option Text
unfolding has_prefix_fold until_close
section_at s = if has_prefix_fold cdata_open s then until_close (rest_of 9 s) else none
  where
    rest_of : ℕ → Text → Text
    rest_of zero t = t
    rest_of (suc n) [] = []
    rest_of (suc n) (c ∷ t) = rest_of n t

-- `xmlCDATA.ReplaceAllString(value, "$1")`: each section gives way to its contents.
unfoldable pub open_cdata : ℕ → Text → Text
unfolding section_at
open_cdata skip [] = []
open_cdata (suc skip) (c ∷ s) = open_cdata skip s
open_cdata zero (c ∷ s) = elim (section_at (c ∷ s)) [
  | none ↦ c ∷ open_cdata zero s
  | some contents ↦ contents ++ open_cdata (length contents + 11) s
]

unfoldable pub decode_xml_text : Text → Text
unfolding open_cdata decode_from
decode_xml_text value = trim_space (decode_from 0 (open_cdata 0 value))

abbrev pub is_letter_byte : ℕ → Bool
is_letter_byte c = leb b'a' c && leb c b'z' || leb b'A' c && leb c b'Z'

abbrev pub is_tag_char : ℕ → Bool
is_tag_char c =
    is_letter_byte c
    || leb b'0' c && leb c b'9'
    || eqb c b'_'
    || eqb c b'-'
    || eqb c b'.'
    || eqb c b':'

abbrev pub tag_char : ℕ → ℕ
tag_char c = if is_tag_char c then c else b'_'

unfoldable pub tag_chars : Text → Text
tag_chars [] = []
tag_chars (c ∷ s) = tag_char c ∷ tag_chars s

abbrev pub with_letter : Text → Text
with_letter [] = codes "value"
with_letter (c ∷ s) =
    let name = tag_char c ∷ tag_chars s in
    if is_letter_byte (tag_char c) || eqb (tag_char c) b'_' then name else b'_' ∷ name

-- An empty name is `value`; a name that does not begin with a letter or `_` gets one.
unfoldable pub sanitize_tag_name : Text → Text
unfolding tag_chars
sanitize_tag_name name = with_letter (trim_space name)
