-- ===== src/Storage/Choice.antt =====
-- Which stores a program has: NewAccountStore, NewConversationStore and NewChatTracker of internal/
-- storage/accounts.go, conversations.go and chat_tracker.go. `connect` gives the error of
-- newRedisClient for a URL, and `raw` is the value of the variable ACCOUNTS.
mod Tests
use qwen2api_go.Prelude.{Bool, ◌||◌, Option, none, some, List, [], ◌++◌, if◌then◌else◌}
use qwen2api_go.Text.{Text, Unicode, codes, text_beq, trim_space, to_lower, equal_fold}
use qwen2api_go.Storage.{Account, Error, Result, ok, err}
use qwen2api_go.Storage.EnvStore.{parse_accounts}

pub data AccountStoreChoice : Type 0 where
  accounts_of_env : List Account → AccountStoreChoice
  accounts_in_file : AccountStoreChoice
  accounts_in_redis : Text → AccountStoreChoice

pub data ConversationStoreChoice : Type 0 where
  sessions_in_memory sessions_in_file : ConversationStoreChoice
  sessions_in_redis : Text → ConversationStoreChoice

pub data ChatTrackerChoice : Type 0 where
  chats_in_memory : ChatTrackerChoice
  chats_in_redis : Text → ChatTrackerChoice

pub record Config : Type 0 where
  pub data_save_mode : Text
  pub redis_url : Text

abbrev pub err_no_redis_url : Error
err_no_redis_url = codes "DATA_SAVE_MODE=redis 时必须提供 REDIS_URL"

module _ ⦃u : Unicode⦄ where
  pub is_redis_mode : Config → Bool
  is_redis_mode cfg = equal_fold (trim_space cfg.data_save_mode) (codes "redis")

  pub redis_url_from_config : Config → Result Text
  unfolding is_redis_mode
  redis_url_from_config cfg =
      let url = trim_space cfg.redis_url in
      if is_redis_mode cfg
      then (if text_beq url [] then err err_no_redis_url else ok url)
      else ok []

  abbrev pub connected : {A : Type 0} → (Text → Option Error) → (Text → A) → Result Text → Result A
  connected connect choice (err e) = err e
  connected connect choice (ok url) = elim (connect url) [ some e ↦ err e | none ↦ ok (choice url) ]

  abbrev pub mode_of : Config → Text
  mode_of cfg = to_lower (trim_space cfg.data_save_mode)

  abbrev pub unknown_mode : Config → Error
  unknown_mode cfg = codes "不支持的数据保存模式: " ++ cfg.data_save_mode

  pub new_account_store : (Text → Option Error) → Text → Config → Result AccountStoreChoice
  unfolding redis_url_from_config
  new_account_store connect raw cfg =
      let mode = mode_of cfg in
      if text_beq mode [] || text_beq mode (codes "none")
      then ok (accounts_of_env (parse_accounts raw))
      else if text_beq mode (codes "guest")
      then ok (accounts_of_env [])
      else if text_beq mode (codes "file")
      then ok accounts_in_file
      else if text_beq mode (codes "redis")
      then connected connect accounts_in_redis (redis_url_from_config cfg)
      else err (unknown_mode cfg)

  pub new_conversation_store : (Text → Option Error) → Config → Result ConversationStoreChoice
  unfolding redis_url_from_config
  new_conversation_store connect cfg =
      let mode = mode_of cfg in
      if text_beq mode [] || text_beq mode (codes "none") || text_beq mode (codes "guest")
      then ok sessions_in_memory
      else if text_beq mode (codes "file")
      then ok sessions_in_file
      else if text_beq mode (codes "redis")
      then connected connect sessions_in_redis (redis_url_from_config cfg)
      else err (unknown_mode cfg)

  pub new_chat_tracker : (Text → Option Error) → Config → Result ChatTrackerChoice
  unfolding redis_url_from_config is_redis_mode
  new_chat_tracker connect cfg =
      if is_redis_mode cfg
      then connected connect chats_in_redis (redis_url_from_config cfg)
      else ok chats_in_memory
