-- ===== src/Cleanup/Pages.antt =====
-- internal/cleanup/service.go, mode 2: all chats of an account that have not been used for a day are
-- deleted, page by page. The upstream keeps the chats: a state `U` with the calls ListChats and
-- DeleteChat. The loop has no bound of its own, so that the model has fuel and may run out of it.
-- One time stands for those that the code reads, one for each account.
pub mod Finish
mod Tests
use qwen2api_go.Prelude.{
  ℕ, zero, suc, ◌+◌, ◌-◌, not, ◌||◌, Option, none, some, List, [], ◌∷◌, ◌++◌, ltb, if◌then◌else◌,
}
use qwen2api_go.Text.{Text, Unicode, is_blank}
use qwen2api_go.Storage.{Account, Error, Result, ok, err, is_guest}
use qwen2api_go.Cleanup.{cleanup_threshold}

pub record Chat : Type 0 where
  pub chat_id : Text
  pub updated_at : ℕ

pub record Upstream (U : Type 0) : Type 0 where
  pub list_chats : Text → ℕ → U → Result (List Chat)
  pub delete_chat : Text → Text → U → U × Option Error

-- The state of the upstream, and the numbers of deletions that have succeeded and failed.
abbrev pub Progress : Type 0 → Type 0
Progress U = U × ℕ × ℕ

-- The loop ends at an error and at an empty page.
abbrev pub unless_done :
    {U : Type 0}
    → Progress U
    → (List Chat → Option (Progress U))
    → Result (List Chat)
    → Option (Progress U)
unless_done s go_on (err e) = some s
unless_done s go_on (ok []) = some s
unless_done s go_on (ok (chat ∷ chats)) = go_on (chat ∷ chats)

abbrev pub and_then : {U : Type 0} → Option (Progress U) → (U → Option U) → Option U
and_then none go_on = none
and_then (some s) go_on = go_on s.0

module _ {U : Type 0} (up : Upstream U) (token : Text) (cutoff : ℕ) where
  -- The chats of one page, with the numbers of deletions that succeed and that fail.
  pub clean_page : List Chat → U → ℕ → ℕ → Progress U
  clean_page [] u deleted failed = (u, deleted, failed)
  clean_page (chat ∷ chats) u deleted failed =
      let skips = ltb cutoff chat.updated_at in
      let r = up.delete_chat token chat.chat_id u in
      clean_page chats (if skips then u else r.0)
        (if skips then deleted else elim r.1 [ none ↦ deleted + 1 | some e ↦ deleted ])
        (if skips then failed else elim r.1 [ none ↦ failed | some e ↦ failed + 1 ])

  pub clean_pages : ℕ → ℕ → Progress U → Option (Progress U)
  unfolding clean_page
  clean_pages zero page s = none
  clean_pages (suc fuel) page (u, deleted, failed) =
      unless_done (u, deleted, failed)
        (λ chats. clean_pages fuel (page + 1) (clean_page chats u deleted failed))
        (up.list_chats token page u)

module _ {U : Type 0} (up : Upstream U) where
  -- `now` is in Unix seconds.
  pub cleanup_account_all_chats : ℕ → ℕ → Account → U → Option (Progress U)
  unfolding clean_pages
  cleanup_account_all_chats fuel now account u =
      clean_pages up account.token (now - cleanup_threshold) fuel 1 (u, 0, 0)

  pub cleanup_all_chats : ⦃u : Unicode⦄ → ℕ → ℕ → List Account → U → Option U
  unfolding cleanup_account_all_chats
  cleanup_all_chats fuel now [] u = some u
  cleanup_all_chats fuel now (a ∷ accounts) u =
      and_then
        (if is_guest a || is_blank a.token
          then some (u, 0, 0)
          else cleanup_account_all_chats fuel now a u)
        (cleanup_all_chats fuel now accounts)
