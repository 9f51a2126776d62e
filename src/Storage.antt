-- ===== src/Storage.antt =====
-- internal/storage/accounts.go: the account record, and what a store of accounts promises.
pub mod FileStore
pub mod EnvStore
pub mod Conversations
pub mod Choice
use qwen2api_go.Prelude.{Bool, Option, List}
use qwen2api_go.Prelude.Int.{ℤ}
use qwen2api_go.Json.{Values, Entries}
use qwen2api_go.Text.{Text, Unicode, codes, trim_space, equal_fold}

pub record Account : Type 0 where
  pub email : Text
  pub password : Text
  pub token : Text
  pub source : Text
  pub expires : ℤ

abbrev pub account_source_guest : Text
account_source_guest = codes "guest"

module _ ⦃u : Unicode⦄ where
  unfoldable pub is_guest : Account → Bool
  is_guest a = equal_fold (trim_space a.source) account_source_guest

-- An error is its message.
abbrev pub Error : Type 0
Error = Text

pub data Result (A : Type 0) : Type 0 where
  ok : A → Result A
  err : Error → Result A

-- The interface AccountStore over a store of type `S`. A write returns the store that it leaves
-- and Go's `error`, `none` for nil.
pub record AccountStore (S : Type 0) : Type 0 where
  pub load_accounts : S → S × Result (List Account)
  pub save_account : Account → S → S × Option Error
  pub delete_account : Text → S → S × Option Error
  pub save_all_accounts : List Account → S → S × Option Error

-- internal/storage/conversations.go: the sessions that are remembered. A nil map of
-- metadata is written as an empty one.
pub record CachedChatMessage : Type 0 where
  pub id : Text
  pub role : Text
  pub content : Text
  pub reasoning_content : Text
  pub tool_calls : Values
  pub created_at : ℤ
  pub metadata : Entries

pub record ConversationSession : Type 0 where
  pub context_hash : Text
  pub account_email : Text
  pub chat_id : Text
  pub model : Text
  pub chat_type : Text
  pub created_at : ℤ
  pub updated_at : ℤ
  pub last_message : Text
  pub message_count : ℤ
  pub has_tools : Bool
  pub tools_used : List Text
  pub messages : List CachedChatMessage

-- The interface ConversationStore over a store of type `S`. A session that is not found is `none`.
pub record ConversationStore (S : Type 0) : Type 0 where
  pub get_conversation_session : Text → S → S × Result (Option ConversationSession)
  pub save_conversation_session : ConversationSession → S → S × Option Error
  pub delete_conversation_session : Text → S → S × Option Error
  pub list_conversation_sessions : S → S × Result (List ConversationSession)
