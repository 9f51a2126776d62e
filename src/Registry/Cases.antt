-- ===== src/Registry/Cases.antt =====
-- What the operations of the service do, one rule for each: internal/account/service.go. A property of
-- the service holds after a call if it holds in each case.
use qwen2api_go.Prelude.{
  ℕ, ◌≡◌, true, false, not, ◌&&◌, ◌||◌, Option, none, some, List, [], ◌∷◌, ◌++◌, any, keep, find,
  remove_first, change_first, inl, inr, if-cases, Option-cases,
}
use qwen2api_go.Prelude.Int.{ℤ, ltb_ℤ}
use qwen2api_go.Text.{Text, Unicode, text_eq, is_blank}
use qwen2api_go.Dict.{remove}
use qwen2api_go.Storage.{Account, Error, Result, ok, err, is_guest}
use qwen2api_go.Credentials.{Remote, Backend, login_with_expiry, remaining_tenths, threshold_tenths}
use qwen2api_go.Registry.{
  Service, has_email, is_persistent, blocks, add_account_with_token, add_account, with_guest,
  delete_account, clear_failures, refresh_account, refresh_each, refresh_all_accounts,
}

abbrev pub new_account : Text → Text → Text → ℤ → Account
new_account email password token expires = record {
  email = email;
  password = password;
  token = token;
  source = [];
  expires = expires;
}

abbrev pub renewed : Account → Text → ℤ → Account
renewed a token expires = record a { token = token; expires = expires }

module _ ⦃u : Unicode⦄ {S : Type 0} (b : Backend S) (s : Service S) where
  -- The service after an account has been added, if the store has taken it, and if not.
  abbrev pub added : Account → Service S
  added a = record {
    pool = record s.pool { accounts = keep is_persistent s.accounts ++ a ∷ [] };
    store_state = (b.save_account a s.store_state).0;
  }

  abbrev pub not_added : Account → Service S
  not_added a = record s { store_state = (b.save_account a s.store_state).0 }

  abbrev pub deleted : Text → Service S
  deleted email = record {
    pool = record s.pool {
      accounts = with_guest (remove_first (has_email email) s.accounts);
      failures = remove email s.failures;
      last_used = remove email s.last_used;
    };
    store_state = (b.delete_account email s.store_state).0;
  }

  abbrev pub refreshed_guest : Text → Service S
  refreshed_guest email = record s { pool = clear_failures email s.pool }

  abbrev pub refreshed : Text → Account → Service S
  refreshed email fresh = record {
    pool =
        clear_failures email
          (record s.pool { accounts = change_first (has_email email) (λ _. fresh) s.accounts });
    store_state = (b.save_account fresh s.store_state).0;
  }

module _ ⦃u : Unicode⦄ {S : Type 0} (b : Backend S) (P : Service S → Type 0) where
  abbrev At : Service S × Option Error → Type 0
  At r = P r.0

  pub add_account_with_token-cases :
      (email password token : Text) (expires : ℤ) (s : Service S)
      → let a = new_account email password token expires in
        P s
        → (any (has_email email) s.accounts ≡ false
            → blocks (b.save_account a s.store_state).1 ≡ true
            → P (not_added b s a))
        → (any (has_email email) s.accounts ≡ false → P (added b s a))
        → P (add_account_with_token b email password token expires s).0
  unfolding add_account_with_token
  add_account_with_token-cases email password token expires s old failed new =
      if-cases At (any (has_email email) s.accounts) _ _ (λ _. old)
        (λ fresh. if-cases At (blocks _) _ _ (λ held. failed fresh held) (λ _. new fresh))

  pub add_account-cases :
      (remote : Remote) (now : ℕ) (email password : Text) (s : Service S)
      → P s
      → ((token : Text) (expires : ℤ)
          → any (has_email email) s.accounts ≡ false
          → blocks (b.save_account (new_account email password token expires) s.store_state).1
            ≡ true
          → P (not_added b s (new_account email password token expires)))
      → ((token : Text) (expires : ℤ)
          → any (has_email email) s.accounts ≡ false
          → P (added b s (new_account email password token expires)))
      → P (add_account b remote now email password s).0
  unfolding add_account
  add_account-cases remote now email password s old failed new =
      if-cases At (is_blank email || is_blank password) _ _ (λ _. old)
        (λ _.
          if-cases At (any (has_email email) s.accounts) _ _ (λ _. old)
            (λ _. logged_in (login_with_expiry b remote now email password)))
    where
      logged_in :
          (r : Result (Text × ℤ))
          → At (elim r [
            | err e ↦ (s, some e)
            | ok (token, expires) ↦ add_account_with_token b email password token expires s
          ])
      logged_in (err e) = old
      logged_in (ok (token, expires)) =
          add_account_with_token-cases email password token expires s old (failed token expires)
            (new token expires)

  pub delete_account-cases :
      (email : Text) (s : Service S)
      → P s
      → ((a : Account)
          → find (has_email email) s.accounts ≡ some a
          → is_guest a ≡ false
          → P (deleted b s email))
      → P (delete_account b email s).0
  unfolding delete_account
  delete_account-cases email s old new = elim (Option-cases (find (has_email email) s.accounts)) [
    | inl e ↦ rw (e, delete_account) old
    | inr (a, e) ↦
        rw (e, delete_account)
          (if-cases At (is_guest a) _ _ (λ _. old) (λ regular. new a e regular))
  ]

  pub refresh_account-cases :
      (remote : Remote) (now : ℕ) (email : Text) (s : Service S)
      → P s
      → P (refreshed_guest b s email)
      → ((a : Account) (token : Text) (expires : ℤ)
          → find (has_email email) s.accounts ≡ some a
          → is_guest a ≡ false
          → P (refreshed b s email (renewed a token expires)))
      → P (refresh_account b remote now email s).0
  unfolding refresh_account
  refresh_account-cases remote now email s old guest new =
      elim (Option-cases (find (has_email email) s.accounts)) [
        | inl e ↦ rw (e, refresh_account) old
        | inr (a, e) ↦
            rw (e, refresh_account)
              (if-cases At (is_guest a) _ _ (λ _. cookie remote.refresh_guest)
                (λ regular.
                  logged_in a (login_with_expiry b remote now a.email a.password)
                    (λ token expires. new a token expires e regular)))
      ]
    where
      cookie :
          (r : Option Error)
          → At (elim r [ some e ↦ (s, some e) | none ↦ (refreshed_guest b s email, none) ])
      cookie none = guest
      cookie (some e) = old

      logged_in :
          (a : Account) (r : Result (Text × ℤ))
          → ((token : Text) (expires : ℤ) → P (refreshed b s email (renewed a token expires)))
          → At (elim r [
            | err e ↦ (s, some e)
            | ok (token, expires) ↦ (
              refreshed b s email (renewed a token expires),
              (b.save_account (renewed a token expires) s.store_state).1,
            )
          ])
      logged_in a (err e) change = old
      logged_in a (ok (token, expires)) change = change token expires

  refresh_each-cases :
      (remote : Remote) (now : ℕ) (threshold : ℤ)
      → ((email : Text) (s : Service S) → P s → P (refresh_account b remote now email s).0)
      → (xs : List Account) (s : Service S) (count : ℕ) → P s
      → P (refresh_each b remote now threshold xs s count).0
  unfolding refresh_each
  refresh_each-cases remote now threshold keeps [] s count old = old
  refresh_each-cases remote now threshold keeps (a ∷ xs) s count old =
      refresh_each-cases remote now threshold keeps xs _ _ (
        if-cases P (not (is_guest a) && ltb_ℤ threshold (remaining_tenths now a.expires)) _ _
          (λ _. old) (λ _. keeps a.email s old))

  pub refresh_all_accounts-cases :
      (remote : Remote) (now : ℕ) (hours : ℤ) (s : Service S)
      → ((email : Text) (s : Service S) → P s → P (refresh_account b remote now email s).0)
      → P s
      → P (refresh_all_accounts b remote now hours s).0
  unfolding refresh_all_accounts
  refresh_all_accounts-cases remote now hours s keeps old =
      refresh_each-cases remote now (threshold_tenths hours) keeps s.accounts s 0 old
