-- ===== src/Registry/EnvMode.antt =====
-- The service of a program that has its accounts from the variable ACCOUNTS: internal/account/
-- service.go over envStore of internal/storage/accounts.go, which takes no writes.
use qwen2api_go.Prelude.{◌≡◌, refl, false, Option, none, List, [], ◌∷◌, ◌++◌, any, keep}
use qwen2api_go.Prelude.Int.{ℤ}
use qwen2api_go.Text.{Text, Unicode, contains, has_prefix}
use qwen2api_go.Storage.{Account}
use qwen2api_go.Storage.EnvStore.{env_store}
use qwen2api_go.Credentials.{Backend}
use qwen2api_go.Registry.{
  Service, has_email, blocks, is_persistent, filter_persistent_accounts, add_account_with_token,
}
use qwen2api_go.Registry.Cases.{new_account}

module _ (password_hash : Text → Text) (payload_exp : Text → Option ℤ) where
  abbrev pub env_backend : Backend (List Account)
  env_backend = record {
    store = env_store;
    password_hash = password_hash;
    payload_exp = payload_exp;
  }

module _ ⦃u : Unicode⦄ (password_hash : Text → Text) (payload_exp : Text → Option ℤ)
    (s : Service (List Account)) where
  -- With the accounts of the environment the store answers every write with an error, and yet an
  -- account with a new email is added to the pool, behind those that persist, and no error is
  -- reported; the store stays as it was.
  add_account_with_token-env :
      (email password token : Text) (expires : ℤ)
      → any (has_email email) s.accounts ≡ false
      → let r =
          add_account_with_token
            (env_backend password_hash payload_exp)
            email
            password
            token
            expires
            s in
        (r.1 ≡ none)
        × (r.0.accounts
            ≡ keep is_persistent s.accounts ++ new_account email password token expires ∷ [])
        × (r.0.store_state ≡ s.store_state)
  unfolding add_account_with_token env_store blocks contains has_prefix filter_persistent_accounts
  add_account_with_token-env email password token expires fresh = rw fresh (refl, refl, refl)
