-- ===== src/Storage/Choice/Tests.antt =====
-- The stores of some configurations.
use qwen2api_go.Prelude.{◌≡◌, refl, Option, none, []}
use qwen2api_go.Text.{
  Text, codes, text_beq, trim_space, trim_left, trim_right, is_space, equal_fold,
}
use qwen2api_go.Storage.{Error, ok, err}
use qwen2api_go.Fixtures.{ascii_unicode}
use qwen2api_go.Storage.Choice.{
  Config, accounts_of_env, accounts_in_redis, sessions_in_file, err_no_redis_url, is_redis_mode,
  redis_url_from_config, new_account_store, new_conversation_store, new_chat_tracker,
}

abbrev connect : Text → Option Error
connect url = none

abbrev mode : Text → Config
mode name = record { data_save_mode = name; redis_url = codes "redis://r" }

-- In guest mode the variable ACCOUNTS is not read.
guests_only :
    new_account_store connect (codes "a@x:p") (mode (codes " Guest ")) ≡ ok (accounts_of_env [])
unfolding new_account_store trim_space trim_left trim_right is_space text_beq
guests_only = refl

redis :
    new_account_store connect [] (mode (codes "REDIS")) ≡ ok (accounts_in_redis (codes "redis://r"))
unfolding new_account_store redis_url_from_config is_redis_mode equal_fold trim_space trim_left
    trim_right is_space text_beq
redis = refl

redis_without_url :
    new_chat_tracker connect (record { data_save_mode = codes "redis"; redis_url = [] })
    ≡ err err_no_redis_url
unfolding new_chat_tracker redis_url_from_config is_redis_mode equal_fold trim_space trim_left
    trim_right is_space text_beq
redis_without_url = refl

sessions_go_with_accounts :
    new_conversation_store connect (mode (codes "file")) ≡ ok sessions_in_file
unfolding new_conversation_store trim_space trim_left trim_right is_space text_beq
sessions_go_with_accounts = refl
