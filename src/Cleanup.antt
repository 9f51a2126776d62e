-- ===== src/Cleanup.antt =====
-- internal/cleanup/service.go, mode 1: the chats that the program has used and that have not been used
-- for a day are deleted. The upstream's answers to DeleteChat are the argument `delete_chat`, by
-- token and chat; `clock` gives the times that the pool reads in each round. The state is the pool,
-- the tracker and the list of what the upstream has been asked to delete.
pub mod Recent
pub mod Pages
mod Tests
use qwen2api_go.Prelude.{
  ℕ, suc, ◌+◌, ◌-◌, Option, none, some, List, [], ◌∷◌, ◌++◌, ltb, if◌then◌else◌,
}
use qwen2api_go.Text.{Text, Unicode, trim_space, equal_fold}
use qwen2api_go.Dict.{Dict}
use qwen2api_go.Storage.{Account, Error, Result, ok, err, account_source_guest}
use qwen2api_go.Pool.{Pool, get_account_session_by_email}
use qwen2api_go.Tracker.{ChatUsage, list_chat_usages, delete_chat_usage}

pub record Cleaning : Type 0 where
  pub pool : Pool
  pub usages : Dict Text ℕ
  pub asked : List (Text × Text)

-- cleanupThreshold in seconds
abbrev pub cleanup_threshold : ℕ
cleanup_threshold = 86400

abbrev pub forget : ChatUsage → Dict Text ℕ → Dict Text ℕ
forget usage usages = delete_chat_usage usage.account_email usage.chat_id usages

module _ (delete_chat : Text → Text → Option Error) where
  -- What is done with the account, if there is one.
  abbrev pub delete_with : ChatUsage → Cleaning → Pool × Result Account → Cleaning
  delete_with usage c (pool, err e) = record c { pool = pool }
  delete_with usage c (pool, ok account) = record {
    pool = pool;
    usages = elim (delete_chat account.token usage.chat_id) [
      | some e ↦ c.usages
      | none ↦ forget usage c.usages
    ];
    asked = c.asked ++ (account.token, usage.chat_id) ∷ [];
  }

  module _ ⦃u : Unicode⦄ where
    pub clean_usage : ℕ → ℕ × ℕ → ChatUsage → Cleaning → Cleaning
    clean_usage cutoff times usage c =
        if ltb cutoff usage.updated_at
        then c
        else if equal_fold (trim_space usage.account_email) account_source_guest
        then record c { usages = forget usage c.usages }
        else delete_with usage c
            (get_account_session_by_email times.0 times.1 usage.account_email c.pool)

    pub clean_usages : ℕ → (ℕ → ℕ × ℕ) → ℕ → List ChatUsage → Cleaning → Cleaning
    unfolding clean_usage
    clean_usages cutoff clock round [] c = c
    clean_usages cutoff clock round (usage ∷ rest) c =
        clean_usages cutoff clock (round + 1) rest (clean_usage cutoff (clock round) usage c)

    -- `now` is in Unix seconds.
    pub cleanup_program_chats : ℕ → (ℕ → ℕ × ℕ) → Pool → Dict Text ℕ → Cleaning
    unfolding clean_usages
    cleanup_program_chats now clock pool usages =
        clean_usages (now - cleanup_threshold) clock 0 (list_chat_usages usages)
          (record { pool = pool; usages = usages; asked = [] })
