-- ===== src/Prompts/Resolution.antt =====
-- Normalising the overrides does not change what a prompt resolves to, up to line ends: internal/
-- prompts/prompts.go, NormalizeOverrides and Resolve.
use qwen2api_go.Prelude.{
  ◌≡◌, refl, sym, subst, ap, ◌∙◌, false, Option, none, some, List, [], ◌∷◌, arith, if◌then◌else◌,
  if-cases, Bool-cases, inl, inr, ◌==◌,
}
use qwen2api_go.Text.{Text, text_eq, text_beq, text_beq_iff, trim_space}
use qwen2api_go.Dict.{Dict, lookup, lookup-put}
use qwen2api_go.Prompts.{
  Definition, definition_by_id, default_value_of, resolve, keep_override, normalize_overrides,
  normalize_newlines,
}

-- The keys are trimmed, and none stands twice.
abbrev pub HasCleanKeys : Dict Text Text → Type 0
HasCleanKeys [] = Unit
HasCleanKeys ((id, value) ∷ overrides) =
    (trim_space id ≡ id) × (lookup id overrides ≡ none) × HasCleanKeys overrides

-- What is kept of an override: nothing, if it is the default.
abbrev effective : Definition → Option Text → Option Text
effective d none = none
effective d (some value) =
    if text_beq (normalize_newlines value) d.default_value
    then none
    else some (normalize_newlines value)

module _ (definitions : List Definition) (id : Text) (d : Definition)
    (known : definition_by_id definitions id ≡ some d) (trimmed : trim_space id ≡ id) where
  keep_override-lookup :
      (o : Option Definition) (other value : Text) (rest : Dict Text Text)
      → (other == id) ≡ false
      → lookup id (keep_override definitions o other value rest) ≡ lookup id rest
  keep_override-lookup none other value rest e = refl
  keep_override-lookup (some c) other value rest e =
      if-cases (λ (m : Dict Text Text). lookup id m ≡ lookup id rest)
        (text_beq value c.default_value) _ _ (λ _. refl)
        (λ _. lookup-put other id value rest ∙ rw e refl)

  keep_override-itself :
      (value : Text) (rest : Dict Text Text)
      → lookup id rest ≡ none
      → lookup id (keep_override definitions (some d) id (normalize_newlines value) rest)
        ≡ effective d (some value)
  keep_override-itself value rest e =
      ground (arith, e, lookup-put id id (normalize_newlines value) rest, text_beq_iff id id)

  normalize_overrides-lookup :
      (overrides : Dict Text Text)
      → HasCleanKeys overrides
      → lookup id (normalize_overrides definitions overrides) ≡ effective d (lookup id overrides)
  unfolding normalize_overrides lookup
  normalize_overrides-lookup [] h = refl
  normalize_overrides-lookup ((other, value) ∷ overrides) h = elim (Bool-cases (other == id)) [
    | inl same ↦
        let e : other ≡ id = (text_beq_iff other id).0 same in
        let gone : lookup id overrides ≡ none = subst (λ t. lookup t overrides ≡ none) e h.1 in
        ap
          (λ t. lookup id (
            keep_override definitions (definition_by_id definitions t) t (normalize_newlines value)
              (normalize_overrides definitions overrides)))
          (h.0 ∙ e)
        ∙ ap
            (λ o. lookup id (
              keep_override definitions o id (normalize_newlines value)
                (normalize_overrides definitions overrides)))
            known
        ∙ keep_override-itself value (normalize_overrides definitions overrides)
            (normalize_overrides-lookup overrides h.2 ∙ ap (effective d) gone)
        ∙ sym (ap (λ b. effective d (if b then some value else lookup id overrides)) same)
    | inr differs ↦
        keep_override-lookup (definition_by_id definitions (trim_space other)) (trim_space other)
          (normalize_newlines value) (normalize_overrides definitions overrides)
          (ap (λ t. t == id) h.0 ∙ differs)
        ∙ normalize_overrides-lookup overrides h.2
        ∙ sym (ap (λ b. effective d (if b then some value else lookup id overrides)) differs)
  ]

  default_value_of_known : default_value_of definitions (trim_space id) ≡ d.default_value
  unfolding default_value_of
  default_value_of_known =
      ap (λ t. elim (definition_by_id definitions t) [ none ↦ [] | some c ↦ c.default_value ])
        trimmed
      ∙ ap (λ o. elim o [ none ↦ [] | some c ↦ c.default_value ]) known

  effective-value :
      (o : Option Text)
      → elim (effective d o) [ some value ↦ value | none ↦ d.default_value ]
        ≡ elim o [ some value ↦ normalize_newlines value | none ↦ d.default_value ]
  effective-value none = refl
  effective-value (some value) =
      ground (arith, text_beq_iff (normalize_newlines value) d.default_value)

  -- If the keys of the overrides are trimmed and none stands twice, a prompt that is known, by an id
  -- without space at its ends, resolves after the overrides have been normalised to its override
  -- with line ends normalised, or to its default if it has none.
  pub resolve-normalize_overrides :
      (overrides : Dict Text Text)
      → HasCleanKeys overrides
      → resolve definitions (normalize_overrides definitions overrides) id
        ≡ elim (lookup id overrides) [
          | some value ↦ normalize_newlines value
          | none ↦ d.default_value
        ]
  unfolding resolve
  resolve-normalize_overrides overrides h =
      ap
        (λ t. elim (lookup t (normalize_overrides definitions overrides)) [
          | some value ↦ value
          | none ↦ default_value_of definitions (trim_space id)
        ])
        trimmed
      ∙ ap
          (λ o. elim o [ some value ↦ value | none ↦ default_value_of definitions (trim_space id) ])
          (normalize_overrides-lookup overrides h)
      ∙ ap
          (λ (t : Text). elim (effective d (lookup id overrides)) [ some value ↦ value | none ↦ t ])
          default_value_of_known
      ∙ effective-value (lookup id overrides)
