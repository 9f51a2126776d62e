-- ===== src/Json.antt =====
-- Go values of type `any`, as encoding/json decodes them: the messages and tool calls that
-- internal/openai and internal/toolcall read.
use qwen2api_go.Prelude.{
  ◌≡◌, refl, ap, ◌∙◌, false, if-cases, Bool-cases, inl, inr, Option, none, some, if◌then◌else◌,
}
use qwen2api_go.Text.{Text, codes, text_beq, text_beq→eq, text_beq_refl}

-- A Go value of type `any`: nil, a string (or bytes), a list, a map, or another value, with its JSON
-- text.
mutual
  pub data Value : Type 0 where
    absent : Value
    text : Text → Value
    array : Values → Value
    object : Entries → Value
    other : Text → Value

  pub data Values : Type 0 where
    no_items : Values
    item : Value → Values → Values

  pub data Entries : Type 0 where
    no_entries : Entries
    entry : Text → Value → Entries → Entries

-- fmt.Sprint writes nil as `<nil>` and a string as it is; `print` is what it makes of other values.
unfoldable pub sprint : (Value → Text) → Value → Text
sprint print absent = codes "<nil>"
sprint print (text s) = s
sprint print v = print v

-- `m[key]` with its second result, and without: a missing key reads as nil.
unfoldable pub field? : Text → Entries → Option Value
field? key no_entries = none
field? key (entry k v entries) =
    let rest = field? key entries in if text_beq k key then some v else rest

unfoldable pub field : Text → Entries → Value
unfolding field?
field key entries = elim (field? key entries) [ none ↦ absent | some v ↦ v ]

-- `m[key] = v`
unfoldable pub put_field : Text → Value → Entries → Entries
put_field key v no_entries = entry key v no_entries
put_field key v (entry k w entries) =
    let rest = put_field key v entries in
    if text_beq k key then entry k v entries else entry k w rest

-- Writing a field leaves the others as they are.
pub field?-put_field :
    (asked key : Text) (v : Value) (entries : Entries)
    → text_beq key asked ≡ false
    → field? asked (put_field key v entries) ≡ field? asked entries
unfolding field? put_field
field?-put_field asked key v no_entries apart = rw apart refl
field?-put_field asked key v (entry k w entries) apart =
    if-cases (λ b. field? asked b ≡ field? asked (entry k w entries)) (text_beq k key) _ _
      (λ same.
        let k_apart : text_beq k asked ≡ false =
          ap (λ s. text_beq s asked) (text_beq→eq k key same) ∙ apart in
        rw k_apart refl)
      (λ differs.
        ap (λ o. if text_beq k asked then some w else o)
          (field?-put_field asked key v entries apart))

field?-put_own :
    (key : Text) (v : Value) (entries : Entries) → field? key (put_field key v entries) ≡ some v
unfolding field? put_field
field?-put_own key v no_entries = rw (text_beq_refl key) refl
field?-put_own key v (entry k w entries) = elim (Bool-cases (text_beq k key)) [
  | inl same ↦ rw same (rw same refl)
  | inr differs ↦ rw differs (rw differs (field?-put_own key v entries))
]

-- A field that is written is read again.
pub field-put_own :
    (key : Text) (v : Value) (entries : Entries) → field key (put_field key v entries) ≡ v
unfolding field
field-put_own key v entries =
    ap (λ o. elim o [ none ↦ absent | some w ↦ w ]) (field?-put_own key v entries)
