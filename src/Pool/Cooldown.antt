-- ===== src/Pool/Cooldown.antt =====
-- Which accounts are available, and what is left of the failure counts: internal/account/service.go,
-- availableLocked.
use qwen2api_go.Prelude.{
  ℕ, ◌+◌, ◌≡◌, ◌≢◌, refl, Bool, false, ◌&&◌, List, [], ◌∷◌, leb, keep, any, ap₂, ◌||◌, arith,
  if◌then◌else◌,
}
use qwen2api_go.Text.{Text, Unicode, text_eq, text_beq, text_beq_iff, text_beq_refl}
use qwen2api_go.Dict.{Dict, get_or, get_or-put}
use qwen2api_go.Storage.{Account}
use qwen2api_go.Pool.{
  Pool, cooldown, has_access, is_cooling, admits, forgive, available_from, available_locked,
  record_failure, reset_failure,
}

module _ ⦃u : Unicode⦄ (now : ℕ) (last_used : Dict Text ℕ) where
  -- Clearing the count of an account that has cooled down changes nobody's availability.
  admits-forgive :
      (failures : Dict Text ℕ) (b a : Account)
      → admits now last_used (forgive now last_used b failures) a ≡ admits now last_used failures a
  unfolding admits forgive is_cooling
  admits-forgive failures b a =
      ground (arith, get_or-put 0 b.email a.email 0 failures, text_beq_iff b.email a.email)

  keep-forgive :
      (failures : Dict Text ℕ) (b : Account) (xs : List Account)
      → keep (admits now last_used (forgive now last_used b failures)) xs
        ≡ keep (admits now last_used failures) xs
  keep-forgive failures b [] = refl
  keep-forgive failures b (a ∷ xs) = rw (admits-forgive failures b a, keep-forgive failures b xs)

  available_from-keep :
      (xs : List Account) (failures : Dict Text ℕ)
      → (available_from now last_used xs failures).0 ≡ keep (admits now last_used failures) xs
  unfolding available_from
  available_from-keep [] failures = refl
  available_from-keep (a ∷ xs) failures =
      rw (available_from-keep xs (forgive now last_used a failures), keep-forgive failures a xs)

module _ ⦃u : Unicode⦄ where
  -- The available accounts are, in their order, those of the pool that have a token or are guests
  -- and are not cooling down: judged by the counts before the call, although the loop changes the
  -- counts as it goes.
  pub available_locked-keep :
      (now : ℕ) (p : Pool)
      → (available_locked now p).0 ≡ keep (admits now p.last_used p.failures) p.accounts
  unfolding available_locked
  available_locked-keep now p = available_from-keep now p.last_used p.accounts p.failures

  -- The available accounts after three or more failures start again from zero failures.
  abbrev pub is_forgiven : ℕ → Dict Text ℕ → Dict Text ℕ → Text → Account → Bool
  is_forgiven now last_used failures email a =
      text_beq a.email email
      && (admits now last_used failures a && leb 3 (get_or 0 a.email failures))

  get_or-forgive :
      (now : ℕ) (last_used : Dict Text ℕ) (email : Text) (failures : Dict Text ℕ) (a : Account)
      → get_or 0 email (forgive now last_used a failures)
        ≡ (if is_forgiven now last_used failures email a then 0 else get_or 0 email failures)
  unfolding forgive
  get_or-forgive now last_used email failures a =
      ground (arith, get_or-put 0 a.email email 0 failures)

  is_forgiven-forgive :
      (now : ℕ) (last_used : Dict Text ℕ) (email : Text) (failures : Dict Text ℕ) (a b : Account)
      → is_forgiven now last_used failures email a ≡ false
      → is_forgiven now last_used (forgive now last_used a failures) email b
        ≡ is_forgiven now last_used failures email b
  is_forgiven-forgive now last_used email failures a b h = ground (
    arith,
    admits-forgive now last_used failures a b,
    get_or-forgive now last_used email failures a,
    text_beq_iff b.email email,
  )

  any-is_forgiven :
      (now : ℕ) (last_used : Dict Text ℕ) (email : Text) (failures : Dict Text ℕ) (a : Account)
      (xs : List Account)
      → is_forgiven now last_used failures email a ≡ false
      → any (is_forgiven now last_used (forgive now last_used a failures) email) xs
        ≡ any (is_forgiven now last_used failures email) xs
  any-is_forgiven now last_used email failures a [] h = refl
  any-is_forgiven now last_used email failures a (b ∷ xs) h =
      ap₂ ◌||◌ (is_forgiven-forgive now last_used email failures a b h)
        (any-is_forgiven now last_used email failures a xs h)

  available_from-counts :
      (now : ℕ) (last_used : Dict Text ℕ) (email : Text) (xs : List Account)
      (failures : Dict Text ℕ)
      → get_or 0 email (available_from now last_used xs failures).1
        ≡ (if any (is_forgiven now last_used failures email) xs then 0 else get_or 0 email failures)
  unfolding available_from
  available_from-counts now last_used email [] failures = refl
  available_from-counts now last_used email (a ∷ xs) failures = ground (
    arith,
    available_from-counts now last_used email xs (forgive now last_used a failures),
    any-is_forgiven now last_used email failures a xs,
    get_or-forgive now last_used email failures a,
  )

  -- A count is reset exactly if an available account of that email had failed three times or more;
  -- every other count, the accounts, the times of use and the index stay as they were.
  pub available_locked-counts :
      (now : ℕ) (email : Text) (p : Pool)
      → let q = (available_locked now p).1 in
        (get_or 0 email q.failures ≡ (
          if any (is_forgiven now p.last_used p.failures email) p.accounts
          then 0
          else get_or 0 email p.failures))
        × (q.accounts ≡ p.accounts)
        × (q.last_used ≡ p.last_used)
        × (q.current_index ≡ p.current_index)
        × (q.initialized ≡ p.initialized)
  unfolding available_locked
  available_locked-counts now email p =
      (available_from-counts now p.last_used email p.accounts p.failures, refl, refl, refl, refl)

  -- After three failures in a row, the third at time `third`, which is not Go's zero time, an
  -- account is unavailable until five minutes after `third`, and available from then on if it has a
  -- token or is a guest.
  pub admits-record_failure :
      (first second third now : ℕ) (a : Account) (p : Pool)
      → third ≢ 0
      → let q =
          record_failure third a.email
            (record_failure second a.email (record_failure first a.email p)) in
        admits now q.last_used q.failures a ≡ (has_access a && leb (third + cooldown) now)
  unfolding admits is_cooling record_failure
  admits-record_failure first second third now a p h =
      simp (get_or-put, text_beq_refl) (ground arith)

  -- A reset makes the account available at once, however recently it failed.
  admits-reset_failure :
      (now : ℕ) (a : Account) (p : Pool)
      → let q = reset_failure a.email p in admits now q.last_used q.failures a ≡ has_access a
  unfolding admits is_cooling reset_failure
  admits-reset_failure now a p = simp (get_or-put, text_beq_refl) (ground arith)
