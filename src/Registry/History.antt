-- ===== src/Registry/History.antt =====
-- Any sequence of calls of the service: internal/account/service.go. The calls that hold the lock are
-- atomic; AddAccount and RefreshAllAccounts let go of it between their steps, and are taken here with
-- no other call in between.
use qwen2api_go.Prelude.{ℕ, refl, sym, subst, List, [], ◌∷◌, arith}
use qwen2api_go.Prelude.Int.{ℤ}
use qwen2api_go.Text.{Text, Unicode}
use qwen2api_go.Storage.{is_guest}
use qwen2api_go.Credentials.{Remote, Backend}
use qwen2api_go.Pool.{
  Pool, get_account_session, get_account_session_by_email, get_account_session_excluding,
  record_failure, reset_failure,
}
use qwen2api_go.Pool.Frame.{
  get_account_session-accounts, get_account_session_by_email-accounts,
  get_account_session_excluding-accounts, record_failure-accounts, reset_failure-accounts,
}
use qwen2api_go.Registry.{
  Service, is_persistent, add_account_with_token, add_account, delete_account, refresh_account,
  refresh_all_accounts,
}
use qwen2api_go.Registry.Cases.{
  renewed, add_account_with_token-cases, add_account-cases, delete_account-cases,
  refresh_account-cases, refresh_all_accounts-cases,
}
use qwen2api_go.Registry.Invariant.{
  IsWellFormed, add-IsWellFormed, delete-IsWellFormed, refresh-IsWellFormed,
}

pub data Call : Type 0 where
  adds : Remote → ℕ → Text → Text → Call
  adds_token : Text → Text → Text → ℤ → Call
  deletes : Text → Call
  refreshes : Remote → ℕ → Text → Call
  refreshes_all : Remote → ℕ → ℤ → Call
  serves : ℕ → ℕ → Call
  serves_by_email : ℕ → ℕ → Text → Call
  serves_excluding : ℕ → ℕ → List Text → Call
  fails : ℕ → Text → Call
  succeeds : Text → Call

abbrev on_pool : {S : Type 0} → (Pool → Pool) → Service S → Service S
on_pool f s = record s { pool = f s.pool }

module _ ⦃u : Unicode⦄ {S : Type 0} (b : Backend S) where
  unfoldable pub step : Service S → Call → Service S
  step s (adds remote now email password) = (add_account b remote now email password s).0
  step s (adds_token email password token expires) =
      (add_account_with_token b email password token expires s).0
  step s (deletes email) = (delete_account b email s).0
  step s (refreshes remote now email) = (refresh_account b remote now email s).0
  step s (refreshes_all remote now hours) = (refresh_all_accounts b remote now hours s).0
  step s (serves now stamp) = on_pool (λ p. (get_account_session now stamp p).0) s
  step s (serves_by_email now stamp email) =
      on_pool (λ p. (get_account_session_by_email now stamp email p).0) s
  step s (serves_excluding now stamp excluded) =
      on_pool (λ p. (get_account_session_excluding now stamp excluded p).0) s
  step s (fails now email) = on_pool (record_failure now email) s
  step s (succeeds email) = on_pool (reset_failure email) s

  unfoldable pub run : Service S → List Call → Service S
  unfolding step
  run s [] = s
  run s (c ∷ calls) = run (step s c) calls

  abbrev Formed : Service S → Type 0
  Formed s = IsWellFormed s.accounts

  refresh_step :
      (remote : Remote) (now : ℕ) (email : Text) (s : Service S)
      → Formed s
      → Formed (refresh_account b remote now email s).0
  unfolding is_persistent is_guest
  refresh_step remote now email s v =
      refresh_account-cases b Formed remote now email s v v λ a token expires found regular.
        refresh-IsWellFormed email s.accounts a (renewed a token expires) v found (ground arith)
          refl (ground arith)

  pub step-IsWellFormed : (s : Service S) (c : Call) → Formed s → Formed (step s c)
  unfolding step
  step-IsWellFormed s (adds remote now email password) v =
      add_account-cases b Formed remote now email password s v (λ _ _ _ _. v)
        λ token expires fresh. add-IsWellFormed s.accounts _ v refl fresh
  step-IsWellFormed s (adds_token email password token expires) v =
      add_account_with_token-cases b Formed email password token expires s v (λ _ _. v)
        λ fresh. add-IsWellFormed s.accounts _ v refl fresh
  step-IsWellFormed s (deletes email) v = delete_account-cases b Formed email s v λ a found regular.
      delete-IsWellFormed email s.accounts a v found (unfold is_persistent in ground arith)
  step-IsWellFormed s (refreshes remote now email) v = refresh_step remote now email s v
  step-IsWellFormed s (refreshes_all remote now hours) v =
      refresh_all_accounts-cases b Formed remote now hours s (refresh_step remote now) v
  step-IsWellFormed s (serves now stamp) v =
      subst IsWellFormed (sym (get_account_session-accounts s.pool now stamp)) v
  step-IsWellFormed s (serves_by_email now stamp email) v =
      subst IsWellFormed (sym (get_account_session_by_email-accounts s.pool now stamp email)) v
  step-IsWellFormed s (serves_excluding now stamp excluded) v =
      subst IsWellFormed (sym (get_account_session_excluding-accounts s.pool now stamp excluded)) v
  step-IsWellFormed s (fails now email) v =
      subst IsWellFormed (sym (record_failure-accounts now email s.pool)) v
  step-IsWellFormed s (succeeds email) v =
      subst IsWellFormed (sym (reset_failure-accounts email s.pool)) v

  -- Whatever calls are made, in whatever order and with whatever answers of the upstream and the
  -- store, the emails stay distinct up to case, and the pool holds either the guest alone or
  -- accounts that persist, at least one, if that was so before.
  pub run-IsWellFormed :
      (calls : List Call) (s : Service S)
      → IsWellFormed s.accounts
      → IsWellFormed (run s calls).accounts
  unfolding run
  run-IsWellFormed [] s v = v
  run-IsWellFormed (c ∷ calls) s v = run-IsWellFormed calls (step s c) (step-IsWellFormed s c v)
