-- ===== src/Prompts/Tests.antt =====
-- The theorem on prompts with a table of one prompt.
use qwen2api_go.Prelude.{true, false, ◌≡◌, refl, none, some, List, [], ◌∷◌}
use qwen2api_go.Text.{
  Text, codes, text_eq, text_beq, trim_space, trim_left, trim_right, is_space, replace_from,
  has_prefix,
}
use qwen2api_go.Dict.{Dict, lookup, put}
use qwen2api_go.Prompts.{
  Definition, definition_by_id, known_id, normalize_newlines, join_newlines, normalize_overrides,
  resolve, list, render, default_value_of,
}
use qwen2api_go.Prompts.Resolution.{resolve-normalize_overrides}

abbrev greeting : Definition
greeting = record {
  id = codes "g";
  category = [];
  title = [];
  description = [];
  default_value = codes "hello";
  risk = [];
  placeholders = [];
}

abbrev overrides : Dict Text Text
overrides = (codes "x", codes "y") ∷ (codes "g", 72 ∷ 13 ∷ 10 ∷ 13 ∷ []) ∷ []

newlines : normalize_newlines (72 ∷ 13 ∷ 10 ∷ 13 ∷ []) ≡ 72 ∷ 10 ∷ 10 ∷ []
unfolding normalize_newlines join_newlines
newlines = refl

unknown_is_dropped :
    normalize_overrides (greeting ∷ []) overrides ≡ (codes "g", 72 ∷ 10 ∷ 10 ∷ []) ∷ []
unfolding normalize_overrides definition_by_id normalize_newlines join_newlines trim_space trim_left
    trim_right is_space text_beq put
unknown_is_dropped = refl

one_item :
    list (greeting ∷ []) []
    ≡ record { definition = greeting; value = codes "hello"; is_modified = false } ∷ []
unfolding list lookup
one_item = refl

g_is_known : known_id (greeting ∷ []) (codes " g ") ≡ true
unfolding known_id definition_by_id trim_space trim_left trim_right is_space text_beq
g_is_known = refl

resolve-normalize_overrides_example :
    resolve (greeting ∷ []) (normalize_overrides (greeting ∷ []) overrides) (codes "g")
    ≡ elim (lookup (codes "g") overrides) [
      | some value ↦ normalize_newlines value
      | none ↦ greeting.default_value
    ]
unfolding definition_by_id trim_space trim_left trim_right is_space text_beq lookup
resolve-normalize_overrides_example =
    resolve-normalize_overrides (greeting ∷ []) (codes "g") greeting refl refl overrides
      (refl, refl, (refl, refl, tt))

-- A value that looks like a placeholder is itself replaced or not, as the order of the values is.
abbrev template : List Definition
template =
    record {
      id = codes "t";
      category = [];
      title = [];
      description = [];
      default_value = codes "{{a}}";
      risk = [];
      placeholders = [];
    }
    ∷ []

replaces_in_value :
    render template [] (codes "t") ((codes "a", codes "{{b}}") ∷ (codes "b", codes "x") ∷ [])
    ≡ codes "x"
unfolding render resolve default_value_of definition_by_id replace_from lookup text_beq trim_space
    trim_left trim_right is_space has_prefix
replaces_in_value = refl

keeps_value :
    render template [] (codes "t") ((codes "b", codes "x") ∷ (codes "a", codes "{{b}}") ∷ [])
    ≡ codes "{{b}}"
unfolding render resolve default_value_of definition_by_id replace_from lookup text_beq trim_space
    trim_left trim_right is_space has_prefix
keeps_value = refl
