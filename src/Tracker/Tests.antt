-- ===== src/Tracker/Tests.antt =====
-- The theorem on the tracker of chats at a concrete tracker.
use qwen2api_go.Prelude.{refl, [], ◌∷◌, In}
use qwen2api_go.Text.{codes}
use qwen2api_go.Tracker.{record_chat_usage, list_chat_usages}
use qwen2api_go.Tracker.Listing.{list-record_chat_usage}

list-record_chat_usage_example :
    In
      (record { account_email = codes "a@x"; chat_id = codes "c1"; updated_at = 5 })
      (list_chat_usages (record_chat_usage 5 (codes "a@x") (codes "c1") ((codes "b@x|c2", 3) ∷ [])))
list-record_chat_usage_example =
    list-record_chat_usage 5 (codes "a@x") (codes "c1") ((codes "b@x|c2", 3) ∷ []) refl
