-- ===== src/Cleanup/Recent.antt =====
-- What a cleanup leaves alone, and what it deletes: internal/cleanup/service.go, cleanupProgramChats.
use qwen2api_go.Prelude.{
  ℕ, ◌+◌, ◌-◌, ◌≡◌, ◌≢◌, refl, ◌∙◌, Bool, true, false, Option, none, some, List, [], ◌∷◌, ◌++◌, ltb,
  In, All, ◌==◌, inl, inr, arith, if-cases,
}
use qwen2api_go.Text.{Text, Unicode, text_eq, text_beq_iff, trim_space, equal_fold}
use qwen2api_go.Dict.{Dict, lookup, lookup-remove}
use qwen2api_go.Storage.{Account, Error, Result, ok, err, account_source_guest}
use qwen2api_go.Pool.{Pool, get_account_session_by_email}
use qwen2api_go.Tracker.{ChatUsage, chat_tracker_key, list_chat_usages, delete_chat_usage}
use qwen2api_go.Cleanup.{
  Cleaning, cleanup_threshold, forget, delete_with, clean_usage, clean_usages,
  cleanup_program_chats,
}

-- An old use is one of a day ago or more.
abbrev pub is_recent : ℕ → ChatUsage → Bool
is_recent cutoff usage = ltb cutoff usage.updated_at

abbrev pub key_of : ChatUsage → Text
key_of usage = chat_tracker_key usage.account_email usage.chat_id

-- All listed uses under this key are recent.
abbrev pub IsRecentKey : ℕ → Text → List ChatUsage → Type 0
IsRecentKey cutoff key usages =
    All (λ usage. key_of usage ≡ key → is_recent cutoff usage ≡ true) usages

forget-lookup :
    (key : Text) (usage : ChatUsage) (usages : Dict Text ℕ)
    → key_of usage ≢ key
    → lookup key (forget usage usages) ≡ lookup key usages
unfolding delete_chat_usage
forget-lookup key usage usages other =
    lookup-remove (key_of usage) key usages
    ∙ if-cases (λ (o : Option ℕ). o ≡ lookup key usages) (key_of usage == key) none
        (lookup key usages) (λ e. absurd (other ((text_beq_iff (key_of usage) key).0 e)))
        (λ _. refl)

-- A request to delete is about a chat of an old use, in the list, that is not the guest's.
abbrev pub IsDue : ⦃u : Unicode⦄ → ℕ → List ChatUsage → Text × Text → Type 0
IsDue cutoff xs request =
    (usage : ChatUsage) × In usage xs
    × (request.1 ≡ usage.chat_id)
    × (is_recent cutoff usage ≡ false)
    × (equal_fold (trim_space usage.account_email) account_source_guest ≡ false)

module _ ⦃u : Unicode⦄ (delete_chat : Text → Text → Option Error) (cutoff : ℕ) where
  delete_with-lookup :
      (key : Text) (usage : ChatUsage) (c : Cleaning) (r : Pool × Result Account)
      → key_of usage ≢ key
      → lookup key (delete_with delete_chat usage c r).usages ≡ lookup key c.usages
  delete_with-lookup key usage c (pool, err e) other = refl
  delete_with-lookup key usage c (pool, ok account) other =
      elim (delete_chat account.token usage.chat_id)
        as (λ o.
          lookup key (elim o [ some e ↦ c.usages | none ↦ forget usage c.usages ])
          ≡ lookup key c.usages) [ some e ↦ refl | none ↦ forget-lookup key usage c.usages other ]

  clean_usage-lookup :
      (key : Text) (times : ℕ × ℕ) (usage : ChatUsage) (c : Cleaning)
      → (key_of usage ≡ key → is_recent cutoff usage ≡ true)
      → lookup key (clean_usage delete_chat cutoff times usage c).usages ≡ lookup key c.usages
  unfolding clean_usage
  clean_usage-lookup key times usage c recent =
      if-cases (λ (d : Cleaning). lookup key d.usages ≡ lookup key c.usages)
        (is_recent cutoff usage) _ _ (λ _. refl)
        (λ old.
          let other : key_of usage ≢ key = λ e. ground (arith, old, recent e) in
          if-cases (λ (d : Cleaning). lookup key d.usages ≡ lookup key c.usages)
            (equal_fold (trim_space usage.account_email) account_source_guest) _ _
            (λ _. forget-lookup key usage c.usages other)
            (λ _.
              delete_with-lookup key usage c
                (get_account_session_by_email times.0 times.1 usage.account_email c.pool) other))

  clean_usages-lookup :
      (key : Text) (clock : ℕ → ℕ × ℕ) (round : ℕ) (xs : List ChatUsage) (c : Cleaning)
      → IsRecentKey cutoff key xs
      → lookup key (clean_usages delete_chat cutoff clock round xs c).usages ≡ lookup key c.usages
  unfolding clean_usages
  clean_usages-lookup key clock round [] c h = refl
  clean_usages-lookup key clock round (usage ∷ xs) c h =
      clean_usages-lookup key clock (round + 1) xs
        (clean_usage delete_chat cutoff (clock round) usage c) h.1
      ∙ clean_usage-lookup key (clock round) usage c h.0

  All-last :
      (P : Text × Text → Type 0) (xs : List (Text × Text)) (x : Text × Text)
      → All P xs
      → P x
      → All P (xs ++ x ∷ [])
  All-last P [] x h last = (last, tt)
  All-last P (y ∷ xs) x h last = (h.0, All-last P xs x h.1 last)

  clean_usage-IsDue :
      (listed : List ChatUsage) (times : ℕ × ℕ) (usage : ChatUsage) (c : Cleaning)
      → In usage listed
      → All (IsDue cutoff listed) c.asked
      → All (IsDue cutoff listed) (clean_usage delete_chat cutoff times usage c).asked
  unfolding clean_usage
  clean_usage-IsDue listed times usage c m h =
      if-cases (λ (d : Cleaning). All (IsDue cutoff listed) d.asked) (is_recent cutoff usage) _ _
        (λ _. h)
        (λ old.
          if-cases (λ (d : Cleaning). All (IsDue cutoff listed) d.asked)
            (equal_fold (trim_space usage.account_email) account_source_guest) _ _ (λ _. h)
            (λ regular.
              asks old regular
                (get_account_session_by_email times.0 times.1 usage.account_email c.pool)))
    where
      asks :
          is_recent cutoff usage ≡ false
          → equal_fold (trim_space usage.account_email) account_source_guest ≡ false
          → (r : Pool × Result Account)
          → All (IsDue cutoff listed) (delete_with delete_chat usage c r).asked
      asks old regular (pool, err e) = h
      asks old regular (pool, ok account) =
          All-last (IsDue cutoff listed) c.asked (account.token, usage.chat_id) h
            (usage, m, refl, old, regular)

  clean_usages-IsDue :
      (listed : List ChatUsage) (clock : ℕ → ℕ × ℕ) (round : ℕ) (xs : List ChatUsage) (c : Cleaning)
      → ((usage : ChatUsage) → In usage xs → In usage listed)
      → All (IsDue cutoff listed) c.asked
      → All (IsDue cutoff listed) (clean_usages delete_chat cutoff clock round xs c).asked
  unfolding clean_usages
  clean_usages-IsDue listed clock round [] c sub h = h
  clean_usages-IsDue listed clock round (usage ∷ xs) c sub h =
      clean_usages-IsDue listed clock (round + 1) xs
        (clean_usage delete_chat cutoff (clock round) usage c) (λ v m. sub v (inr m))
        (clean_usage-IsDue listed (clock round) usage c (sub usage (inl refl)) h)

module _ ⦃u : Unicode⦄ (delete_chat : Text → Text → Option Error) (now : ℕ)
    (clock : ℕ → ℕ × ℕ) where
  -- The record of a chat stays as it was if all listed uses under its key are of the last day,
  -- whatever the upstream answers.
  cleanup_program_chats-lookup :
      (key : Text) (pool : Pool) (usages : Dict Text ℕ)
      → IsRecentKey (now - cleanup_threshold) key (list_chat_usages usages)
      → lookup key (cleanup_program_chats delete_chat now clock pool usages).usages
        ≡ lookup key usages
  unfolding cleanup_program_chats
  cleanup_program_chats-lookup key pool usages h =
      clean_usages-lookup delete_chat (now - cleanup_threshold) key clock 0
        (list_chat_usages usages) _ h

  -- The upstream is asked to delete only chats whose use is on record, a day ago or more, and not
  -- the guest's.
  pub cleanup_program_chats-IsDue :
      (pool : Pool) (usages : Dict Text ℕ)
      → All
          (IsDue (now - cleanup_threshold) (list_chat_usages usages))
          (cleanup_program_chats delete_chat now clock pool usages).asked
  unfolding cleanup_program_chats
  cleanup_program_chats-IsDue pool usages =
      clean_usages-IsDue delete_chat (now - cleanup_threshold) (list_chat_usages usages) clock 0
        (list_chat_usages usages) _ (λ _ m. m) tt
