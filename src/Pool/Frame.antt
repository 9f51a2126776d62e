-- ===== src/Pool/Frame.antt =====
-- The calls that hand out sessions and count failures leave the accounts alone: internal/account/
-- service.go.
use qwen2api_go.Prelude.{
  ℕ, ◌≡◌, refl, not, Option, none, some, List, [], ◌∷◌, eqb, length, if-cases,
}
use qwen2api_go.Text.{Text, Unicode, text_beq}
use qwen2api_go.Storage.{Account, Result}
use qwen2api_go.Pool.{
  Pool, available_locked, round_robin_locked, touch, choose, fall_back, choose_or_fall_back,
  choose_or_fail, answer, get_account_session, get_account_session_by_email,
  get_account_session_excluding, record_failure, reset_failure,
}

module _ ⦃u : Unicode⦄ (p : Pool) where
  abbrev Keeps : Pool × Result Account → Type 0
  Keeps r = r.0.accounts ≡ p.accounts

  fall_back-Keeps : (stamp : ℕ) (q : Pool) → q.accounts ≡ p.accounts → Keeps (fall_back stamp q)
  unfolding fall_back
  fall_back-Keeps stamp q same =
      if-cases Keeps (text_beq (round_robin_locked q).0.email []) _ _ (λ _. same) (λ _. same)

  choose_or_fall_back-Keeps :
      (stamp : ℕ) (xs : List Account) (q : Pool)
      → q.accounts ≡ p.accounts
      → Keeps (choose_or_fall_back stamp (xs, q))
  unfolding choose
  choose_or_fall_back-Keeps stamp [] q same = fall_back-Keeps stamp q same
  choose_or_fall_back-Keeps stamp (x ∷ xs) q same = same

  choose_or_fail-Keeps :
      (stamp : ℕ) (xs : List Account) (q : Pool)
      → q.accounts ≡ p.accounts
      → Keeps (choose_or_fail stamp xs q)
  unfolding choose
  choose_or_fail-Keeps stamp [] q same = same
  choose_or_fail-Keeps stamp (x ∷ xs) q same = same

  answer-Keeps :
      (stamp : ℕ) (o : Option Account) (q : Pool)
      → q.accounts ≡ p.accounts
      → Keeps (answer stamp o q)
  unfolding touch
  answer-Keeps stamp none q same = same
  answer-Keeps stamp (some a) q same = same

  pub get_account_session-accounts :
      (now stamp : ℕ) → (get_account_session now stamp p).0.accounts ≡ p.accounts
  unfolding get_account_session
  get_account_session-accounts now stamp =
      if-cases Keeps (not p.initialized) _ _ (λ _. refl)
        (λ _.
          if-cases Keeps (eqb (length p.accounts) 0) _ _ (λ _. refl)
            (λ _.
              choose_or_fall_back-Keeps stamp (available_locked now p).0 (available_locked now p).1
                refl))

  pub get_account_session_by_email-accounts :
      (now stamp : ℕ) (email : Text)
      → (get_account_session_by_email now stamp email p).0.accounts ≡ p.accounts
  unfolding get_account_session_by_email
  get_account_session_by_email-accounts now stamp email =
      if-cases Keeps (not p.initialized) _ _ (λ _. refl)
        (λ _. answer-Keeps stamp _ (available_locked now p).1 refl)

  pub get_account_session_excluding-accounts :
      (now stamp : ℕ) (excluded : List Text)
      → (get_account_session_excluding now stamp excluded p).0.accounts ≡ p.accounts
  unfolding get_account_session_excluding
  get_account_session_excluding-accounts now stamp excluded =
      if-cases Keeps (not p.initialized) _ _ (λ _. refl)
        (λ _.
          if-cases Keeps (eqb (length p.accounts) 0) _ _ (λ _. refl)
            (λ _. choose_or_fail-Keeps stamp _ (available_locked now p).1 refl))

pub record_failure-accounts :
    (now : ℕ) (email : Text) (p : Pool) → (record_failure now email p).accounts ≡ p.accounts
unfolding record_failure
record_failure-accounts now email p = refl

pub reset_failure-accounts :
    (email : Text) (p : Pool) → (reset_failure email p).accounts ≡ p.accounts
unfolding reset_failure
reset_failure-accounts email p = refl
