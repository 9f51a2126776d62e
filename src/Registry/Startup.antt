-- ===== src/Registry/Startup.antt =====
-- The accounts after Initialize: internal/account/service.go, ensureAccountReady and Initialize.
use qwen2api_go.Prelude.{
  ℕ, ◌≡◌, refl, ap, ◌⊎◌, Bool, true, false, ◌||◌, Option, none, some, List, [], ◌∷◌, any, all, inl,
  inr, arith, if-cases,
}
use qwen2api_go.Prelude.Int.{ℤ}
use qwen2api_go.Text.{Text, Unicode, is_blank}
use qwen2api_go.Storage.{Account, Result, ok, err, is_guest}
use qwen2api_go.Credentials.{Remote, Backend, login_with_expiry, decode_jwt_expiry}
use qwen2api_go.Registry.{
  Service, has_email, is_persistent, log_in_again, ensure_account_ready, append_ready,
  ready_accounts, or_guest, initialize,
}
use qwen2api_go.Registry.Distinct.{Distinct}
use qwen2api_go.Registry.Invariant.{IsWellFormed, only_guest}

regular_head :
    ⦃u : Unicode⦄ (a : Account) (xs : List Account)
    → all is_persistent (a ∷ xs) ≡ true
    → is_guest a ≡ false
unfolding is_persistent
regular_head a xs h = ground arith

-- Guests are told by their source alone.
persistent_source :
    ⦃u : Unicode⦄ (a : Account) (token : Text) (expires : ℤ)
    → is_persistent (record a { token = token; expires = expires }) ≡ is_persistent a
unfolding is_persistent is_guest
persistent_source a token expires = refl

module _ ⦃u : Unicode⦄ {S : Type 0} (b : Backend S) (remote : Remote) (now : ℕ) where
  -- An account that is ready is the stored one, but for its token and time of expiry.
  abbrev pub Renews : Account → Option Account → Type 0
  Renews a o =
      (o ≡ none)
      ⊎ ((token : Text) × (expires : ℤ) × (o
            ≡ some (record a { token = token; expires = expires })))

  log_in_again-Renews : (a : Account) → Renews a (log_in_again b remote now a)
  unfolding log_in_again
  log_in_again-Renews a =
      if-cases (Renews a) (is_blank a.email || is_blank a.password) _ _ (λ _. inl refl)
        (λ _. logged_in (login_with_expiry b remote now a.email a.password))
    where
      logged_in :
          (r : Result (Text × ℤ))
          → Renews a (elim r [
            | err e ↦ none
            | ok (token, expires) ↦ some (record a { token = token; expires = expires })
          ])
      logged_in (err e) = inl refl
      logged_in (ok (token, expires)) = inr (token, expires, refl)

  ensure_account_ready-Renews :
      (a : Account) → is_guest a ≡ false → Renews a (ensure_account_ready b remote now a)
  unfolding ensure_account_ready
  ensure_account_ready-Renews a regular =
      if-cases (Renews a) (is_guest a) _ _ (λ e. cc (e, regular))
        (λ _. decoded (decode_jwt_expiry b now a.token))
    where
      decoded :
          (o : Option (Bool × ℤ))
          → Renews a (elim o [
            | some (true, expires) ↦ some (record a { expires = expires })
            | some (false, expires) ↦ log_in_again b remote now a
            | none ↦ log_in_again b remote now a
          ])
      decoded (some (true, expires)) = inr (a.token, expires, refl)
      decoded (some (false, expires)) = log_in_again-Renews a
      decoded none = log_in_again-Renews a

  -- What goes through `ready_accounts` from a list of accounts that persist.
  ready_accounts-cons :
      (a : Account) (xs : List Account)
      → is_guest a ≡ false
      → (ready_accounts b remote now (a ∷ xs) ≡ ready_accounts b remote now xs)
        ⊎ ((token : Text) × (expires : ℤ) × (ready_accounts b remote now (a ∷ xs)
              ≡ record a { token = token; expires = expires } ∷ ready_accounts b remote now xs))
  unfolding ready_accounts
  ready_accounts-cons a xs regular = elim (ensure_account_ready-Renews a regular) [
    | inl e ↦ inl (ap (λ o. append_ready o (ready_accounts b remote now xs)) e)
    | inr (token, expires, e) ↦
        inr (token, expires, ap (λ o. append_ready o (ready_accounts b remote now xs)) e)
  ]

  ready_accounts-fresh :
      (t : Text) (xs : List Account)
      → all is_persistent xs ≡ true
      → any (has_email t) xs ≡ false
      → any (has_email t) (ready_accounts b remote now xs) ≡ false
  ready_accounts-fresh t [] h fresh = unfold ready_accounts in refl
  ready_accounts-fresh t (a ∷ xs) h fresh =
      let rest = ready_accounts-fresh t xs (ground arith) (ground arith) in
      elim (ready_accounts-cons a xs (regular_head a xs h)) [
        | inl e ↦ rw e rest
        | inr (token, expires, e) ↦ rw e (ground arith)
      ]

  ready_accounts-Distinct :
      (xs : List Account)
      → all is_persistent xs ≡ true
      → Distinct xs
      → Distinct (ready_accounts b remote now xs)
        × (all is_persistent (ready_accounts b remote now xs) ≡ true)
  ready_accounts-Distinct [] h d = unfold ready_accounts in (tt, refl)
  ready_accounts-Distinct (a ∷ xs) h d =
      let (distinct, persistent) = ready_accounts-Distinct xs (ground arith) d.1 in
      elim (ready_accounts-cons a xs (regular_head a xs h)) [
        | inl e ↦ rw e (distinct, persistent)
        | inr (token, expires, e) ↦ rw e (
          (ready_accounts-fresh a.email xs (ground arith) d.0, distinct),
          ground (arith, persistent_source a token expires),
        )
      ]

  or_guest-IsWellFormed :
      (xs : List Account) → Distinct xs → all is_persistent xs ≡ true → IsWellFormed (or_guest xs)
  or_guest-IsWellFormed [] d h = only_guest
  or_guest-IsWellFormed (x ∷ xs) d h = record {
    distinct = d;
    shape = inl (h, λ (e : x ∷ xs ≡ []). cc);
  }

  -- If the store loads accounts with distinct emails, no guest among them, the service starts with
  -- well-formed accounts, whatever the upstream answers and whether or not the accounts can be
  -- saved; it is then ready, and no error is reported.
  pub initialize-IsWellFormed :
      (s : Service S) (loaded : S) (accounts : List Account)
      → b.load_accounts s.store_state ≡ (loaded, ok accounts)
      → Distinct accounts
      → all is_persistent accounts ≡ true
      → let r = initialize b remote now s in
        IsWellFormed r.0.accounts × (r.0.initialized ≡ true) × (r.1 ≡ none)
  unfolding initialize
  initialize-IsWellFormed s loaded accounts e d h =
      let (distinct, persistent) = ready_accounts-Distinct accounts h d in
      rw (e, initialize) (or_guest-IsWellFormed _ distinct persistent, refl, refl)
