-- ===== src/Toolcall/Roles.antt =====
-- What the prompts about tools leave of the messages: internal/toolcall/toolcall.go,
-- InjectPromptWithOverrides.
use qwen2api_go.Prelude.{◌≡◌, ◌⊎◌, Bool, true, false, Option, none, some, List, [], ◌∷◌, ◌++◌, any}
use qwen2api_go.Text.{Text, Unicode, codes, text_beq, trim_space}
use qwen2api_go.Dict.{Dict}
use qwen2api_go.Json.{Value, text, array, item, Entries, field, field?}
use qwen2api_go.Prompts.{Definition}
use qwen2api_go.Toolcall.Content.{message_of, is_system, normalize_message_text_content}
use qwen2api_go.Toolcall.Injection.{append_reminder_to_content, remind_last, is_system_role}

-- At most one message of a list differs in another, by a change.
abbrev pub Edited : (Entries → Entries → Type 0) → List Entries → List Entries → Type 0
Edited Change [] [] = Unit
Edited Change [] (m' ∷ ms') = ⊥
Edited Change (m ∷ ms) [] = ⊥
Edited Change (m ∷ ms) (m' ∷ ms') = ((m' ≡ m) × Edited Change ms ms') ⊎ (Change m m' × (ms' ≡ ms))

-- Two messages agree but for their content.
abbrev pub OnlyContent : Entries → Entries → Type 0
OnlyContent m m' =
    (key : Text) → text_beq (codes "content") key ≡ false → field? key m' ≡ field? key m

-- A content that comes from another by text in front of it.
abbrev pub Prepended : Value → Value → Type 0
Prepended (text s) v = (v ≡ text s) ⊎ ((front : Text) × (v ≡ text (front ++ trim_space s)))
Prepended (array items) v = (v ≡ array items) ⊎ ((new : Value) × (v ≡ array (item new items)))
Prepended v w = Unit

module _ (print : Value → Text) (marshal : Value → Option Text)
    (unmarshal_object : Text → Option Entries) (quote : Text → Text) (definitions : List Definition)
    ⦃u : Unicode⦄ where
  abbrev text_of : Value → Text
  text_of = normalize_message_text_content print marshal unmarshal_object

  abbrev from_system : Entries → Bool
  from_system = is_system_role print marshal unmarshal_object quote definitions

  -- A message of the system, behind whose text more is written.
  abbrev pub Prompted : Entries → Entries → Type 0
  Prompted m m' =
      (from_system m ≡ true)
      × OnlyContent m m'
      × (more : Text) × (field (codes "content") m'
          ≡ text (trim_space (text_of (field (codes "content") m)) ++ more))

  -- A message that is not the system's, in front of whose content something is written.
  abbrev pub Reminded : Entries → Entries → Type 0
  Reminded m m' =
      (is_system print marshal unmarshal_object m ≡ false)
      × OnlyContent m m'
      × Prepended (field (codes "content") m) (field (codes "content") m')

  abbrev remind : Value → Text → Value
  remind = append_reminder_to_content print marshal unmarshal_object quote definitions

  abbrev IsReminded : List Entries → Option (List Entries) → Type 0
  IsReminded messages none = Unit
  IsReminded messages (some out) = Edited Reminded messages out

  abbrev at_last : Text → List Entries → Option (List Entries)
  at_last = remind_last print marshal unmarshal_object quote definitions

  abbrev IsPrompted : List Entries → Option (List Entries) → Type 0
  IsPrompted messages none = any from_system messages ≡ false
  IsPrompted messages (some out) = Edited Prompted messages out

  -- One message of the system is prompted, or one comes first that was missing.
  abbrev pub HasPrompt : List Entries → List Entries → Type 0
  HasPrompt before messages =
      Edited Prompted before messages
      ⊎ ((any from_system before ≡ false)
          × (prompt : Text) × (messages ≡ message_of (codes "system") (text prompt) ∷ before))

  -- First the prompt, then the reminder.
  abbrev pub IsGuided : List Entries → List Entries → Type 0
  IsGuided before messages =
      (prompted : List Entries) × HasPrompt before prompted × Edited Reminded prompted messages
