-- ===== src/Cleanup/Tests.antt =====
-- The theorems on the cleanup with one chat of long ago and one of today.
use qwen2api_go.Prelude.{false, true, ℕ, ◌-◌, ◌≡◌, refl, Option, none, [], ◌∷◌, All}
use qwen2api_go.Text.{Text, codes, text_eq, text_beq}
use qwen2api_go.Dict.{Dict}
use qwen2api_go.Storage.{Error}
use qwen2api_go.Fixtures.{ascii_unicode, ada, bob}
use qwen2api_go.Pool.{Pool, new_pool}
use qwen2api_go.Tracker.{list_chat_usages}
use qwen2api_go.Cleanup.{cleanup_threshold, cleanup_program_chats}
use qwen2api_go.Cleanup.Recent.{IsDue, cleanup_program_chats-IsDue}

abbrev deletes_all : Text → Text → Option Error
deletes_all token chat = none

abbrev clock : ℕ → ℕ × ℕ
clock round = (1, 2)

abbrev pool : Pool
pool = record new_pool { accounts = ada ∷ bob ∷ []; initialized = true }

abbrev usages : Dict Text ℕ
usages = (codes "a@x|old", 5) ∷ (codes "b@x|new", 100000) ∷ []

differ : false ≡ text_beq (codes "a@x|old") (codes "b@x|new")
unfolding text_beq
differ = refl

cleanup_program_chats-IsDue_example :
    All
      (IsDue (100001 - cleanup_threshold) (list_chat_usages usages))
      (cleanup_program_chats deletes_all 100001 clock pool usages).asked
cleanup_program_chats-IsDue_example =
    cleanup_program_chats-IsDue deletes_all 100001 clock pool usages
