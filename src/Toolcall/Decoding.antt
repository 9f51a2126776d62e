-- ===== src/Toolcall/Decoding.antt =====
-- Names that are escaped in the markup of a tool call are read again as they were: internal/toolcall/
-- toolcall.go, escapeXML and decodeXMLText.
use qwen2api_go.Prelude.{
  ℕ, ◌≡◌, refl, sym, ap, ◌∙◌, true, false, none, [], ◌∷◌, ◌++◌, eqb, eqb_iff, any, any-append,
  if-cases, arith,
}
use qwen2api_go.Text.{Text, has_prefix, trim_space}
use qwen2api_go.Toolcall.Escapes.{
  escape_char, escape_xml, entities, entity_at, decode_from, has_prefix_fold, section_at,
  open_cdata, decode_xml_text,
}

no_entity : (c : ℕ) (s : Text) → eqb c b'&' ≡ false → entity_at entities (c ∷ s) ≡ none
unfolding entity_at has_prefix
no_entity c s e = ground arith

decode_plain : (c : ℕ) (s : Text) → eqb c b'&' ≡ false → decode_from 0 (c ∷ s) ≡ c ∷ decode_from 0 s
unfolding decode_from
decode_plain c s e = rw (decode_from, no_entity c s e) refl

-- An escaped code point is decoded to itself.
decode-escape_char : (c : ℕ) (s : Text) → decode_from 0 (escape_char c ++ s) ≡ c ∷ decode_from 0 s
unfolding escape_char decode_from entity_at has_prefix
decode-escape_char c s =
    let Decodes = λ (t : Text). decode_from 0 (t ++ s) ≡ c ∷ decode_from 0 s in
    let again =
      λ (d : ℕ) (e : eqb c d ≡ true). ap (λ x. x ∷ decode_from 0 s) (sym ((eqb_iff c d).0 e)) in
    if-cases Decodes (eqb c b'&') _ _ (again b'&') (λ plain.
      if-cases Decodes (eqb c b'<') _ _ (again b'<') (λ _.
        if-cases Decodes (eqb c b'>') _ _ (again b'>') (λ _.
          if-cases Decodes (eqb c b'"') _ _ (again b'"')
            (λ _. if-cases Decodes (eqb c 39) _ _ (again 39) (λ _. decode_plain c s plain)))))

decode-escape_xml : (s : Text) → decode_from 0 (escape_xml s) ≡ s
unfolding escape_xml decode_from
decode-escape_xml [] = refl
decode-escape_xml (c ∷ s) =
    decode-escape_char c (escape_xml s) ∙ ap (λ t. c ∷ t) (decode-escape_xml s)

no_section : (c : ℕ) (s : Text) → eqb b'<' c ≡ false → section_at (c ∷ s) ≡ none
unfolding section_at has_prefix_fold
no_section c s e = ground arith

-- A text without `<` has no section of CDATA.
open_cdata_none : (s : Text) → any (eqb b'<') s ≡ false → open_cdata 0 s ≡ s
unfolding open_cdata
open_cdata_none [] h = refl
open_cdata_none (c ∷ s) h =
    rw (open_cdata, no_section c s (ground arith))
      (ap (λ t. c ∷ t) (open_cdata_none s (ground arith)))

any-escape_char : (c : ℕ) → any (eqb b'<') (escape_char c) ≡ false
unfolding escape_char
any-escape_char c = ground arith

any-escape_xml : (s : Text) → any (eqb b'<') (escape_xml s) ≡ false
unfolding escape_xml
any-escape_xml [] = refl
any-escape_xml (c ∷ s) =
    any-append (eqb b'<') (escape_char c) (escape_xml s)
    ∙ rw (any-escape_char c, any-escape_xml s) refl

-- A text that is escaped and decoded again is the text without the space around it.
pub decode_xml_text-escape_xml : (s : Text) → decode_xml_text (escape_xml s) ≡ trim_space s
unfolding decode_xml_text
decode_xml_text-escape_xml s =
    ap (λ t. trim_space (decode_from 0 t)) (open_cdata_none (escape_xml s) (any-escape_xml s))
    ∙ ap trim_space (decode-escape_xml s)
