-- ===== src/Registry/Synced.antt =====
-- The pool of internal/account/service.go over the file store of internal/storage/accounts.go: the
-- file is the persistent part of the pool.
use mathlib.Core.Path.{fun_ext}
use mathlib.Core.Bool.{false≢true}
use qwen2api_go.Prelude.{
  ℕ, ◌≡◌, refl, sym, ap, subst, ◌∙◌, Bool, true, false, not, Option, some, List, [], ◌∷◌, ◌++◌, any,
  keep, find, find-holds, any-find, change_first, remove_first, arith, keep-all, all-keep,
  keep-append, any-keep_le, keep_comm, all-change_first, if◌then◌else◌,
}
use qwen2api_go.Prelude.Int.{ℤ}
use qwen2api_go.Text.{Text, Unicode, equal_fold}
use qwen2api_go.Storage.{Account, is_guest}
use qwen2api_go.Storage.FileStore.{
  Disk, Holds, file_store, upsert, without_email, save_account-Writes, delete_account-Writes,
}
use qwen2api_go.Credentials.{Remote, Backend}
use qwen2api_go.Pool.Frame.{
  get_account_session-accounts, get_account_session_by_email-accounts,
  get_account_session_excluding-accounts, record_failure-accounts, reset_failure-accounts,
}
use qwen2api_go.Registry.{Service, has_email, is_persistent, with_guest, blocks, refresh_account}
use qwen2api_go.Registry.Distinct.{Distinct, remove_first-keep, has_email_congr}
use qwen2api_go.Registry.Invariant.{
  IsWellFormed, no_source-persistent, persistent_shape, keep-with_guest,
}
use qwen2api_go.Registry.Cases.{
  new_account, renewed, added, deleted, refreshed, add_account_with_token-cases, add_account-cases,
  delete_account-cases, refresh_account-cases, refresh_all_accounts-cases,
}
use qwen2api_go.Registry.History.{
  Call, adds, adds_token, deletes, refreshes, refreshes_all, serves, serves_by_email,
  serves_excluding, fails, succeeds, step, run, step-IsWellFormed,
}

module _ ⦃u : Unicode⦄ where
  add_upsert :
      (xs : List Account) (a : Account)
      → is_persistent a ≡ true
      → any (has_email a.email) xs ≡ false
      → upsert a (keep is_persistent xs) ≡ keep is_persistent (keep is_persistent xs ++ a ∷ [])
  unfolding upsert
  add_upsert xs a persistent fresh = rw (any-keep_le is_persistent (has_email a.email) xs fresh) (
      sym (
        keep-append is_persistent (keep is_persistent xs) (a ∷ [])
        ∙ ground
            (arith, keep-all is_persistent (keep is_persistent xs) (all-keep is_persistent xs))))

  delete_without :
      (email : Text) (xs : List Account)
      → Distinct xs
      → without_email email (keep is_persistent xs)
        ≡ keep is_persistent (with_guest (remove_first (has_email email) xs))
  unfolding without_email
  delete_without email xs d =
      keep_comm (λ a. not (has_email email a)) is_persistent xs
      ∙ ap (keep is_persistent) (sym (remove_first-keep email xs d))
      ∙ sym (keep-with_guest (remove_first (has_email email) xs))

  abbrev upsert_at : Account → List Account → (Account → Bool) → List Account
  upsert_at a xs same = if any same xs then change_first same (λ _. a) xs else xs ++ a ∷ []

  refresh_upsert :
      (email : Text) (xs : List Account) (a fresh : Account)
      → IsWellFormed xs
      → find (has_email email) xs ≡ some a
      → is_persistent a ≡ true
      → fresh.email ≡ a.email
      → is_persistent fresh ≡ true
      → upsert fresh (keep is_persistent xs)
        ≡ keep is_persistent (change_first (has_email email) (λ _. fresh) xs)
  unfolding upsert
  refresh_upsert email xs a fresh v found persistent same kept =
      let all_persistent = persistent_shape email xs a v found persistent in
      let agree : has_email fresh.email ≡ has_email email = fun_ext (λ x.
        has_email_congr fresh.email email x (
          subst (λ e. equal_fold e email ≡ true) (sym same)
            (find-holds (has_email email) xs a found))) in
      ap (upsert fresh) (keep-all is_persistent xs all_persistent)
      ∙ ap (upsert_at fresh xs) agree
      ∙ rw (any-find (has_email email) xs a found) (
          sym (
            keep-all is_persistent _
              (all-change_first (has_email email) is_persistent fresh xs all_persistent kept)))

module _ ⦃u : Unicode⦄ (password_hash : Text → Text) (payload_exp : Text → Option ℤ) where
  -- The service of a program that runs with the data in a file.
  abbrev pub file_backend : Backend Disk
  file_backend = record {
    store = file_store;
    password_hash = password_hash;
    payload_exp = payload_exp;
  }

  -- The accounts are well formed, and the file holds those of them that persist, in their order.
  abbrev pub IsSynced : Service Disk → Type 0
  IsSynced s = IsWellFormed s.accounts × Holds (keep is_persistent s.accounts) s.store_state

  synced_added :
      (email password token : Text) (expires : ℤ) (s : Service Disk)
      → IsSynced s
      → any (has_email email) s.accounts ≡ false
      → Holds
          (keep is_persistent
            (added file_backend s (new_account email password token expires)).accounts)
          (added file_backend s (new_account email password token expires)).store_state
  synced_added email password token expires s v fresh =
      let a = new_account email password token expires in
      subst (λ xs. Holds xs (added file_backend s a).store_state)
        (add_upsert s.accounts a (no_source-persistent a refl) fresh)
        (save_account-Writes _ s.store_state v.1 a).1

  -- The store takes every write, so that an account is never left out.
  synced_takes :
      (a : Account) (s : Service Disk)
      → IsSynced s
      → blocks (file_store.save_account a s.store_state).1 ≡ true
      → ⊥
  unfolding blocks
  synced_takes a s v held =
      false≢true (sym (ap blocks (save_account-Writes _ s.store_state v.1 a).0) ∙ held)

  refresh-IsSynced :
      (remote : Remote) (now : ℕ) (email : Text) (s : Service Disk)
      → IsSynced s
      → IsSynced (refresh_account file_backend remote now email s).0
  unfolding step is_persistent is_guest
  refresh-IsSynced remote now email s v = (
    step-IsWellFormed file_backend s (refreshes remote now email) v.0,
    refresh_account-cases file_backend (λ q. Holds (keep is_persistent q.accounts) q.store_state)
        remote now email s v.1 v.1
        λ a token expires found regular.
          subst
            (λ xs. Holds xs (refreshed file_backend s email (renewed a token expires)).store_state)
            (refresh_upsert email s.accounts a (renewed a token expires) v.0 found (ground arith)
              refl (ground arith))
            (save_account-Writes _ s.store_state v.1 (renewed a token expires)).1,
  )

  step-IsSynced : (s : Service Disk) (c : Call) → IsSynced s → IsSynced (step file_backend s c)
  unfolding step
  step-IsSynced s (adds remote now email password) v = (
    step-IsWellFormed file_backend s (adds remote now email password) v.0,
    add_account-cases file_backend (λ q. Holds (keep is_persistent q.accounts) q.store_state) remote
        now email password s v.1 (λ token expires _ held. absurd (synced_takes _ s v held))
        (λ token expires fresh. synced_added email password token expires s v fresh),
  )
  step-IsSynced s (adds_token email password token expires) v = (
    step-IsWellFormed file_backend s (adds_token email password token expires) v.0,
    add_account_with_token-cases file_backend
        (λ q. Holds (keep is_persistent q.accounts) q.store_state) email password token expires s
        v.1 (λ _ held. absurd (synced_takes _ s v held))
        (λ fresh. synced_added email password token expires s v fresh),
  )
  step-IsSynced s (deletes email) v = (
    step-IsWellFormed file_backend s (deletes email) v.0,
    delete_account-cases file_backend (λ q. Holds (keep is_persistent q.accounts) q.store_state)
        email s v.1
        λ a found regular.
          subst (λ xs. Holds xs (deleted file_backend s email).store_state)
            (delete_without email s.accounts v.0.distinct)
            (delete_account-Writes _ s.store_state v.1 email).1,
  )
  step-IsSynced s (refreshes remote now email) v = refresh-IsSynced remote now email s v
  step-IsSynced s (refreshes_all remote now hours) v =
      refresh_all_accounts-cases file_backend IsSynced remote now hours s
        (refresh-IsSynced remote now) v
  step-IsSynced s (serves now stamp) v =
      subst (λ xs. IsWellFormed xs × Holds (keep is_persistent xs) s.store_state)
        (sym (get_account_session-accounts s.pool now stamp)) v
  step-IsSynced s (serves_by_email now stamp email) v =
      subst (λ xs. IsWellFormed xs × Holds (keep is_persistent xs) s.store_state)
        (sym (get_account_session_by_email-accounts s.pool now stamp email)) v
  step-IsSynced s (serves_excluding now stamp excluded) v =
      subst (λ xs. IsWellFormed xs × Holds (keep is_persistent xs) s.store_state)
        (sym (get_account_session_excluding-accounts s.pool now stamp excluded)) v
  step-IsSynced s (fails now email) v =
      subst (λ xs. IsWellFormed xs × Holds (keep is_persistent xs) s.store_state)
        (sym (record_failure-accounts now email s.pool)) v
  step-IsSynced s (succeeds email) v =
      subst (λ xs. IsWellFormed xs × Holds (keep is_persistent xs) s.store_state)
        (sym (reset_failure-accounts email s.pool)) v

  -- Over a disk without faults, if the accounts are well formed and the file holds those of them
  -- that persist, in their order, then so they are and so it does after any calls of the service,
  -- whatever the upstream answers.
  pub run-IsSynced :
      (calls : List Call) (s : Service Disk) → IsSynced s → IsSynced (run file_backend s calls)
  unfolding run
  run-IsSynced [] s v = v
  run-IsSynced (c ∷ calls) s v = run-IsSynced calls (step file_backend s c) (step-IsSynced s c v)
