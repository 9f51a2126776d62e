-- ===== src/Prompts.antt =====
-- internal/prompts/prompts.go: the prompts that can be overridden. The table `definitions` of the
-- prompts with their default texts is an argument. Overrides are a map by prompt id; the code runs
-- through it in an arbitrary order, the model from the last entry to the first.
pub mod Resolution
mod Tests
use qwen2api_go.Prelude.{
  ℕ, Bool, true, false, not, ◌&&◌, Option, none, some, List, [], ◌∷◌, ◌++◌, eqb, find, map,
  if◌then◌else◌,
}
use qwen2api_go.Text.{Text, text_eq, text_beq, trim_space, codes, replace_from}
use qwen2api_go.Dict.{Dict, lookup, put}

pub record Definition : Type 0 where
  pub id : Text
  pub category : Text
  pub title : Text
  pub description : Text
  pub default_value : Text
  pub risk : Text
  pub placeholders : List Text

pub record Item : Type 0 where
  pub definition : Definition
  pub value : Text
  pub is_modified : Bool

abbrev pub begins_with_newline : Text → Bool
begins_with_newline [] = false
begins_with_newline (c ∷ s) = eqb c 10

-- strings.ReplaceAll of "\r\n" by "\n": a carriage return in front of a newline goes.
pub join_newlines : Text → Text
join_newlines [] = []
join_newlines (c ∷ s) =
    let rest = join_newlines s in if eqb c 13 && begins_with_newline s then rest else c ∷ rest

abbrev pub newline_for_return : ℕ → ℕ
newline_for_return c = if eqb c 13 then 10 else c

pub normalize_newlines : Text → Text
unfolding join_newlines
normalize_newlines value = map newline_for_return (join_newlines value)

module _ (definitions : List Definition) where
  unfoldable pub definition_by_id : Text → Option Definition
  definition_by_id id = find (λ d. text_beq d.id (trim_space id)) definitions

  pub known_id : Text → Bool
  unfolding definition_by_id
  known_id id = elim (definition_by_id (trim_space id)) [ none ↦ false | some d ↦ true ]

  unfoldable pub default_value_of : Text → Text
  unfolding definition_by_id
  default_value_of id = elim (definition_by_id id) [ none ↦ [] | some d ↦ d.default_value ]

  unfoldable pub resolve : Dict Text Text → Text → Text
  unfolding default_value_of
  resolve overrides id = elim (lookup (trim_space id) overrides) [
    | some value ↦ value
    | none ↦ default_value_of (trim_space id)
  ]

  -- The placeholders with their values, in the order in which Go goes through the map of them, which it
  -- leaves open.
  abbrev pub fill : List (Text × Text) → Text → Text
  fill [] s = s
  fill ((key, value) ∷ values) s =
      fill values (replace_from (codes "{{" ++ key ++ codes "}}") value 0 s)

  unfoldable pub render : Dict Text Text → Text → List (Text × Text) → Text
  unfolding resolve replace_from
  render overrides id values = trim_space (fill values (resolve overrides id))

  -- An override is kept if its prompt is known and its text is not the default.
  abbrev pub keep_override : Option Definition → Text → Text → Dict Text Text → Dict Text Text
  keep_override none id value normalized = normalized
  keep_override (some d) id value normalized =
      if text_beq value d.default_value then normalized else put id value normalized

  pub normalize_overrides : Dict Text Text → Dict Text Text
  unfolding definition_by_id normalize_newlines
  normalize_overrides [] = []
  normalize_overrides ((id, value) ∷ overrides) =
      let rest = normalize_overrides overrides in
      keep_override (definition_by_id (trim_space id)) (trim_space id) (normalize_newlines value)
        rest

  -- The items of List, for the prompts `ds`.
  abbrev pub item_of : Dict Text Text → Definition → Item
  item_of overrides d = elim (lookup d.id overrides) [
    | none ↦ record { definition = d; value = d.default_value; is_modified = false }
    | some value ↦ record {
      definition = d;
      value = value;
      is_modified = not (text_beq value d.default_value);
    }
  ]

  pub list : Dict Text Text → List Item
  list overrides = map (item_of overrides) definitions
