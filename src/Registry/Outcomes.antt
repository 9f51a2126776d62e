-- ===== src/Registry/Outcomes.antt =====
-- What a call reports, and what it has then done: internal/account/service.go, AddAccount,
-- AddAccountWithToken, DeleteAccount and RefreshAccount.
use qwen2api_go.Prelude.{
  ℕ, ◌≡◌, refl, sym, ap, subst, ◌∙◌, true, false, not, ◌||◌, Option, none, some, any, keep, find,
  remove_first, if-cases, any-keep-not, keep_comm, if◌then◌else◌,
}
use qwen2api_go.Prelude.Int.{ℤ}
use qwen2api_go.Text.{Text, Unicode, text_eq, text_beq, is_blank}
use qwen2api_go.Dict.{Dict, put, get_or, get_or-put}
use qwen2api_go.Storage.{Account, Error, Result, ok, err, is_guest}
use qwen2api_go.Credentials.{Remote, Backend, login_with_expiry}
use qwen2api_go.Registry.{
  Service, has_email, is_persistent, blocks, unless_readonly, add_account_with_token, add_account,
  delete_account, refresh_account,
}
use qwen2api_go.Registry.Distinct.{Distinct, remove_first-keep}
use qwen2api_go.Registry.Invariant.{keep-with_guest}
use qwen2api_go.Registry.Cases.{deleted, refresh_account-cases}

module _ ⦃u : Unicode⦄ {S : Type 0} (b : Backend S) (s : Service S) where
  abbrev Atomic : Service S × Option Error → Type 0
  Atomic r = (e : Error) → r.1 ≡ some e → r.0.pool ≡ s.pool

  add_account_with_token-Atomic :
      (email password token : Text) (expires : ℤ)
      → Atomic (add_account_with_token b email password token expires s)
  unfolding add_account_with_token
  add_account_with_token-Atomic email password token expires =
      if-cases Atomic (any (has_email email) s.accounts) _ _ (λ _ e h. refl)
        (λ _. if-cases Atomic (blocks _) _ _ (λ _ e h. refl) (λ _ e h. cc))

  -- An attempt to add an account that reports an error, be it of the input, the login, the token or
  -- the store, leaves the pool as it was.
  pub add_account_atomic :
      (remote : Remote) (now : ℕ) (email password : Text) (e : Error)
      → (add_account b remote now email password s).1 ≡ some e
      → (add_account b remote now email password s).0.pool ≡ s.pool
  unfolding add_account
  add_account_atomic remote now email password =
      if-cases Atomic (is_blank email || is_blank password) _ _ (λ _ e h. refl)
        (λ _.
          if-cases Atomic (any (has_email email) s.accounts) _ _ (λ _ e h. refl)
            (λ _. logged_in (login_with_expiry b remote now email password)))
    where
      logged_in :
          (r : Result (Text × ℤ))
          → Atomic (elim r [
            | err e ↦ (s, some e)
            | ok (token, expires) ↦ add_account_with_token b email password token expires s
          ])
      logged_in (err e) = λ e h. refl
      logged_in (ok (token, expires)) = add_account_with_token-Atomic email password token expires

  delete_opens :
      (email : Text) (a : Account)
      → find (has_email email) s.accounts ≡ some a
      → is_guest a ≡ false
      → delete_account b email s
        ≡ (deleted b s email, unless_readonly (b.delete_account email s.store_state).1)
  unfolding delete_account
  delete_opens email a found regular = rw (found, delete_account) (rw regular)

  persistent-deleted :
      (email : Text)
      → Distinct s.accounts
      → keep is_persistent (deleted b s email).accounts
        ≡ keep (λ a. not (has_email email a)) (keep is_persistent s.accounts)
  persistent-deleted email d =
      keep-with_guest (remove_first (has_email email) s.accounts)
      ∙ ap (keep is_persistent) (remove_first-keep email s.accounts d)
      ∙ keep_comm is_persistent (λ a. not (has_email email a)) s.accounts

  abbrev pub Deletes : Text → Service S × Option Error → Type 0
  Deletes email r =
      (keep is_persistent r.0.accounts
        ≡ keep (λ a. not (has_email email a)) (keep is_persistent s.accounts))
      × (r.0.store_state ≡ (b.delete_account email s.store_state).0)
      × (r.1 ≡ unless_readonly (b.delete_account email s.store_state).1)

  -- If the emails are distinct, deleting an account of the pool that is no guest leaves, of the
  -- accounts that persist, those with another email, and asks the store to do the same; the error of
  -- the store is reported unless the store is read-only. This holds whether or not the store
  -- succeeds.
  pub delete_account_removes :
      (email : Text) (a : Account)
      → Distinct s.accounts
      → find (has_email email) s.accounts ≡ some a
      → is_guest a ≡ false
      → Deletes email (delete_account b email s)
  delete_account_removes email a d found regular =
      subst (Deletes email) (sym (delete_opens email a found regular))
        (persistent-deleted email d, refl, refl)

  -- If the emails are distinct, deleting an account of the pool that is no guest, where the store
  -- answers with an error and is not read-only, reports that error and has taken the account out of
  -- the pool all the same.
  delete_account_not_atomic :
      (email : Text) (a : Account) (e : Error)
      → Distinct s.accounts
      → find (has_email email) s.accounts ≡ some a
      → is_guest a ≡ false
      → (b.delete_account email s.store_state).1 ≡ some e
      → blocks (some e) ≡ true
      → let r = delete_account b email s in
        (r.1 ≡ some e) × (any (has_email email) (keep is_persistent r.0.accounts) ≡ false)
  delete_account_not_atomic email a e d found regular fails blocking =
      let (left, _, reported) = delete_account_removes email a d found regular in
      (
        reported ∙ ap unless_readonly fails ∙ ap (λ c. if c then some e else none) blocking,
        ap (any (has_email email)) left
            ∙ any-keep-not (has_email email) (keep is_persistent s.accounts),
      )

module _ ⦃u : Unicode⦄ {S : Type 0} (b : Backend S) (s : Service S) where
  -- Refreshing an account under an email that finds it but is spelled in another way, by the case of
  -- its letters, does not touch the failure count of the account, whatever the upstream answers.
  pub refresh_account_other_case :
      (remote : Remote) (now : ℕ) (email : Text) (a : Account)
      → find (has_email email) s.accounts ≡ some a
      → text_beq email a.email ≡ false
      → get_or 0 a.email (refresh_account b remote now email s).0.failures
        ≡ get_or 0 a.email s.failures
  refresh_account_other_case remote now email a found other =
      refresh_account-cases b (λ q. get_or 0 a.email q.failures ≡ get_or 0 a.email s.failures)
        remote now email s refl (get_or-put_other s.failures)
        (λ _ _ _ _ _. get_or-put_other s.failures)
    where
      get_or-put_other :
          (failures : Dict Text ℕ)
          → get_or 0 a.email (put email 0 failures) ≡ get_or 0 a.email failures
      get_or-put_other failures = get_or-put 0 email a.email 0 failures ∙ rw other
