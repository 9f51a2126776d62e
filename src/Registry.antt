-- ===== src/Registry.antt =====
-- internal/account/service.go: loading, adding, deleting and refreshing accounts. The service is the
-- pool and the store of accounts behind it.
pub mod Distinct
pub mod Invariant
pub mod Cases
pub mod Startup
pub mod History
pub mod Synced
pub mod Outcomes
pub mod EnvMode
mod Tests
use qwen2api_go.Prelude.{
  ℕ, suc, ◌+◌, ◌*◌, Bool, true, false, not, ◌&&◌, ◌||◌, Option, none, some, List, [], ◌∷◌, ◌++◌,
  eqb, any, all, keep, find, remove_first, change_first, length, if◌then◌else◌,
}
use qwen2api_go.Prelude.Int.{ℤ, pos, ltb_ℤ}
use qwen2api_go.Text.{Text, Unicode, codes, text_eq, contains, equal_fold, is_blank}
use qwen2api_go.Dict.{put, remove}
use qwen2api_go.Storage.{Account, Error, Result, ok, err, is_guest, account_source_guest}
use qwen2api_go.Credentials.{
  Remote, Backend, decode_jwt_expiry, login_with_expiry, remaining_tenths, threshold_tenths,
}
use qwen2api_go.Pool.{Pool}

pub record Service (S : Type 0) : Type 0 where
  pub pool : Pool
  pub open pool use *
  pub store_state : S

abbrev pub guest_account : Account
guest_account = record {
  email = codes "guest";
  password = [];
  token = [];
  source = account_source_guest;
  expires = pos 0;
}

abbrev pub err_blank : Error
err_blank = codes "邮箱和密码不能为空"

abbrev pub err_exists : Error
err_exists = codes "账号已存在"

abbrev pub err_missing : Error
err_missing = codes "账号不存在"

abbrev pub err_guest_stays : Error
err_guest_stays = codes "游客账号不可删除"

-- `err != nil && !isReadonlyStoreError(err)`
unfoldable pub blocks : Option Error → Bool
blocks none = false
blocks (some e) = not (contains (codes "不支持") e)

abbrev pub unless_readonly : Option Error → Option Error
unless_readonly e = if blocks e then e else none

-- `s.failures[email] = 0`
abbrev pub clear_failures : Text → Pool → Pool
clear_failures email p = record p { failures = put email 0 p.failures }

module _ ⦃u : Unicode⦄ where
  abbrev pub has_email : Text → Account → Bool
  has_email email a = equal_fold a.email email

  unfoldable pub is_persistent : Account → Bool
  is_persistent a = not (is_guest a)

  unfoldable pub filter_persistent_accounts : List Account → List Account
  unfolding is_persistent
  filter_persistent_accounts = keep is_persistent

  abbrev pub or_guest : List Account → List Account
  or_guest [] = guest_account ∷ []
  or_guest (a ∷ rest) = a ∷ rest

  -- The guest comes back when no other account is left.
  abbrev with_guest : List Account → List Account
  with_guest rest =
      if eqb (length (filter_persistent_accounts rest)) 0 then rest ++ guest_account ∷ [] else rest

  -- What `ensureAccountReady` makes of an account when its token cannot be used as it is.
  log_in_again : {S : Type 0} → Backend S → Remote → ℕ → Account → Option Account
  log_in_again b remote now a =
      if is_blank a.email || is_blank a.password
      then none
      else elim (login_with_expiry b remote now a.email a.password) [
        | err e ↦ none
        | ok (token, expires) ↦ some (record a { token = token; expires = expires })
      ]

-- `if ok { validated = append(validated, normalized) }`
abbrev append_ready : Option Account → List Account → List Account
append_ready none others = others
append_ready (some ready) others = ready ∷ others

module _ ⦃u : Unicode⦄ {S : Type 0} (b : Backend S) where
  -- An error of the guest's cookie is logged only.
  ensure_account_ready : Remote → ℕ → Account → Option Account
  unfolding log_in_again decode_jwt_expiry
  ensure_account_ready remote now a =
      if is_guest a then some guest_account else elim (decode_jwt_expiry b now a.token) [
        | some (true, expires) ↦ some (record a { expires = expires })
        | some (false, expires) ↦ log_in_again b remote now a
        | none ↦ log_in_again b remote now a
      ]

  ready_accounts : Remote → ℕ → List Account → List Account
  unfolding ensure_account_ready
  ready_accounts remote now [] = []
  ready_accounts remote now (a ∷ rest) =
      append_ready (ensure_account_ready remote now a) (ready_accounts remote now rest)

  -- An error of the store's answer to the list that is saved is logged only. The goroutine that
  -- calls RefreshAllAccounts from time to time is a caller of the service.
  pub initialize : Remote → ℕ → Service S → Service S × Option Error
  unfolding ready_accounts
  initialize remote now s =
      let (loaded, result) = b.load_accounts s.store_state in
      elim result [
        | err e ↦ (record s { store_state = loaded }, some e)
        | ok accounts ↦
            let validated = or_guest (ready_accounts remote now accounts) in
            let saved = b.save_all_accounts (filter_persistent_accounts validated) loaded in
            (
              record {
                pool = record s.pool { accounts = validated; initialized = true };
                store_state = saved.0;
              },
              none,
            )
      ]

  pub add_account_with_token : Text → Text → Text → ℤ → Service S → Service S × Option Error
  unfolding filter_persistent_accounts
  add_account_with_token email password token expires s =
      let account : Account = record {
        email = email;
        password = password;
        token = token;
        source = [];
        expires = expires;
      } in
      let accounts = filter_persistent_accounts s.accounts ++ account ∷ [] in
      let (saved, e) = b.save_account account s.store_state in
      if any (has_email email) s.accounts
      then (s, some err_exists)
      else if blocks e
      then (record s { store_state = saved }, e)
      else (record { pool = record s.pool { accounts = accounts }; store_state = saved }, none)

  pub add_account : Remote → ℕ → Text → Text → Service S → Service S × Option Error
  unfolding add_account_with_token
  add_account remote now email password s =
      if is_blank email || is_blank password
      then (s, some err_blank)
      else if any (has_email email) s.accounts
      then (s, some err_exists)
      else elim (login_with_expiry b remote now email password) [
        | err e ↦ (s, some e)
        | ok (token, expires) ↦ add_account_with_token email password token expires s
      ]

  delete_found : Text → Account → Service S → Service S × Option Error
  unfolding filter_persistent_accounts
  delete_found email account s =
      let rest = remove_first (has_email email) s.accounts in
      let (left, e) = b.delete_account email s.store_state in
      if is_guest account then (s, some err_guest_stays) else (
        record {
          pool = record s.pool {
            accounts = with_guest rest;
            failures = remove email s.failures;
            last_used = remove email s.last_used;
          };
          store_state = left;
        },
        unless_readonly e,
      )

  pub delete_account : Text → Service S → Service S × Option Error
  unfolding delete_found
  delete_account email s = elim (find (has_email email) s.accounts) [
    | none ↦ (s, some err_missing)
    | some account ↦ delete_found email account s
  ]

  unfoldable pub refresh_found : Remote → ℕ → Text → Account → Service S → Service S × Option Error
  refresh_found remote now email account s =
      if is_guest account
      then elim remote.refresh_guest [
        | some e ↦ (s, some e)
        | none ↦ (record s { pool = clear_failures email s.pool }, none)
      ]
      else elim (login_with_expiry b remote now account.email account.password) [
        | err e ↦ (s, some e)
        | ok (token, expires) ↦
            let fresh : Account = record account { token = token; expires = expires } in
            let (saved, e) = b.save_account fresh s.store_state in
            let accounts = change_first (has_email email) (λ _. fresh) s.accounts in
            (
              record {
                pool = clear_failures email (record s.pool { accounts = accounts });
                store_state = saved;
              },
              e,
            )
      ]

  unfoldable pub refresh_account : Remote → ℕ → Text → Service S → Service S × Option Error
  unfolding refresh_found
  refresh_account remote now email s = elim (find (has_email email) s.accounts) [
    | none ↦ (s, some err_missing)
    | some account ↦ refresh_found remote now email account s
  ]

  -- The loop of RefreshAllAccounts over the accounts that it has copied, with the number refreshed.
  refresh_each : Remote → ℕ → ℤ → List Account → Service S → ℕ → Service S × ℕ
  unfolding refresh_account
  refresh_each remote now threshold [] s refreshed = (s, refreshed)
  refresh_each remote now threshold (a ∷ rest) s refreshed =
      let (s', e) = refresh_account remote now a.email s in
      let skips = not (is_guest a) && ltb_ℤ threshold (remaining_tenths now a.expires) in
      refresh_each remote now threshold rest (if skips then s else s')
        (if skips then refreshed else elim e [ none ↦ refreshed + 1 | some _ ↦ refreshed ])

  pub refresh_all_accounts : Remote → ℕ → ℤ → Service S → Service S × ℕ
  unfolding refresh_each
  refresh_all_accounts remote now hours s =
      refresh_each remote now (threshold_tenths hours) s.accounts s 0
