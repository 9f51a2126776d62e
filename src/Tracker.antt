-- ===== src/Tracker.antt =====
-- internal/storage/chat_tracker.go: which chats the program has used, and when, in memory. A map from
-- keys `email|chat` to Unix seconds; the clock stands after the Unix epoch. The code lists the
-- entries in an arbitrary order, the model in the order in which they are stored.
pub mod Listing
mod Tests
use qwen2api_go.Prelude.{ℕ, Option, none, some, List, [], ◌∷◌, ◌++◌}
use qwen2api_go.Text.{Text, text_eq, cut}
use qwen2api_go.Dict.{Dict, put, remove}

pub record ChatUsage : Type 0 where
  pub account_email : Text
  pub chat_id : Text
  pub updated_at : ℕ

unfoldable pub chat_tracker_key : Text → Text → Text
chat_tracker_key account_email chat_id = account_email ++ b'|' ∷ chat_id

unfoldable pub record_chat_usage : ℕ → Text → Text → Dict Text ℕ → Dict Text ℕ
unfolding chat_tracker_key
record_chat_usage now account_email chat_id usages =
    put (chat_tracker_key account_email chat_id) now usages

-- The entry of a key that can be cut is appended.
abbrev pub append_usage : Option (Text × Text) → ℕ → List ChatUsage → List ChatUsage
append_usage none updated_at rest = rest
append_usage (some (account_email, chat_id)) updated_at rest =
    record { account_email = account_email; chat_id = chat_id; updated_at = updated_at } ∷ rest

unfoldable pub list_chat_usages : Dict Text ℕ → List ChatUsage
list_chat_usages [] = []
list_chat_usages ((key, updated_at) ∷ usages) =
    append_usage (cut b'|' key) updated_at (list_chat_usages usages)

unfoldable pub delete_chat_usage : Text → Text → Dict Text ℕ → Dict Text ℕ
unfolding chat_tracker_key
delete_chat_usage account_email chat_id usages =
    remove (chat_tracker_key account_email chat_id) usages
