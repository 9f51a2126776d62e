-- ===== src/Toolcall/Policy.antt =====
-- internal/toolcall/toolcall.go: the tools of a request, and whether the model must call one.
use qwen2api_go.Prelude.{
  ◌≡◌, ◌⊎◌, keep, Bool, true, false, not, Option, none, some, List, [], ◌∷◌, ◌++◌, eqb, length,
  if◌then◌else◌,
}
use qwen2api_go.Text.{Text, Unicode, codes, text_eq, text_beq, trim_space, equal_fold, to_lower}
use qwen2api_go.Json.{Value, text, array, object, Values, no_items, item, Entries, sprint, field}

-- A nil map of parameters is `none`.
pub record ToolSchema : Type 0 where
  pub name : Text
  pub description : Text
  pub parameters : Option Entries

pub record ToolChoicePolicy : Type 0 where
  pub enabled : Bool
  pub mode : Text
  pub required_tool : Text

abbrev pub policy : Bool → Text → Text → ToolChoicePolicy
policy enabled mode required_tool = record {
  enabled = enabled;
  mode = mode;
  required_tool = required_tool;
}

abbrev pub auto_policy : List Text → ToolChoicePolicy
auto_policy tool_names = policy (not (eqb (length tool_names) 0)) (codes "auto") []

module _ (print : Value → Text) ⦃u : Unicode⦄ where
  abbrev pub as_map : Value → Option Entries
  as_map (object entries) = some entries
  as_map v = none

  abbrev pub target_of : Entries → Entries
  target_of tool =
      if equal_fold (sprint print (field (codes "type") tool)) (codes "function")
      then (elim (as_map (field (codes "function") tool)) [ none ↦ tool | some fn ↦ fn ])
      else tool

  unfoldable pub normalize_tool_schema : Value → List ToolSchema
  unfolding sprint field
  normalize_tool_schema (object tool) =
      let target = target_of tool in
      let name = trim_space (sprint print (field (codes "name") target)) in
      if text_beq name []
      then []
      else record {
        name = name;
        description = trim_space (sprint print (field (codes "description") target));
        parameters = as_map (field (codes "parameters") target);
      }
        ∷ []
  normalize_tool_schema v = []

  unfoldable pub normalize_tool_items : Values → List ToolSchema
  unfolding normalize_tool_schema
  normalize_tool_items no_items = []
  normalize_tool_items (item tool tools) = normalize_tool_schema tool ++ normalize_tool_items tools

  unfoldable pub normalize_tool_schemas : Value → List ToolSchema
  unfolding normalize_tool_items
  normalize_tool_schemas (array tools) = normalize_tool_items tools
  normalize_tool_schemas v = []

  -- The tool that a map names: in `function`, or itself.
  abbrev pub named_tool : Option Entries → Entries → Text
  named_tool none choice = trim_space (sprint print (field (codes "name") choice))
  named_tool (some fn) choice =
      let of_function = trim_space (sprint print (field (codes "name") fn)) in
      if text_beq of_function []
      then trim_space (sprint print (field (codes "name") choice))
      else of_function

  unfoldable pub parse_tool_choice_policy : Value → List Text → ToolChoicePolicy
  unfolding sprint field
  parse_tool_choice_policy (text s) tool_names =
      let choice = to_lower (trim_space s) in
      if text_beq choice (codes "none")
      then policy false (codes "none") []
      else if text_beq choice (codes "required")
      then policy true (codes "required") []
      else auto_policy tool_names
  parse_tool_choice_policy (object choice) tool_names =
      let required = named_tool (as_map (field (codes "function") choice)) choice in
      if text_beq required []
      then auto_policy tool_names
      else policy true (codes "specific") required
  parse_tool_choice_policy v tool_names = auto_policy tool_names

  -- A text for tool_choice that says a word.
  abbrev pub says : Text → Value → Bool
  says word (text s) = text_beq (to_lower (trim_space s)) word
  says word v = false

  -- The names that a map for tool_choice gives and that are not empty: that of its function, if it has
  -- one, and its own.
  abbrev pub is_name : Text → Bool
  is_name name = not (text_beq name [])

  abbrev printed_name : Entries → Text
  printed_name entries = trim_space (sprint print (field (codes "name") entries))

  abbrev pub function_names : Option Entries → List Text
  function_names none = []
  function_names (some fn) = printed_name fn ∷ []

  abbrev pub given_names : Value → List Text
  given_names (object choice) =
      keep is_name
        (function_names (as_map (field (codes "function") choice)) ++ printed_name choice ∷ [])
  given_names v = []

  -- A policy for the value of a request and the names of its tools.
  abbrev pub IsMeant : Value → List Text → ToolChoicePolicy → Type 0
  IsMeant v tool_names p =
      ((says (codes "none") v ≡ true) × (p ≡ policy false (codes "none") []))
      ⊎ ((says (codes "required") v ≡ true) × (p ≡ policy true (codes "required") []))
      ⊎ ((name : Text) × (rest : List Text) × (given_names v ≡ name ∷ rest)
          × (p ≡ policy true (codes "specific") name))
      ⊎ ((says (codes "none") v ≡ false)
          × (says (codes "required") v ≡ false)
          × (given_names v ≡ [])
          × (p ≡ policy (not (eqb (length tool_names) 0)) (codes "auto") []))
