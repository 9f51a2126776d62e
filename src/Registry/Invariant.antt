-- ===== src/Registry/Invariant.antt =====
-- The accounts of the service: internal/account/service.go. Either all of them persist, and there is
-- at least one, or the guest is the only one.
use mathlib.Core.List.{append-nil}
use qwen2api_go.Prelude.{
  ℕ, suc, ◌≡◌, ◌≢◌, refl, sym, ap, subst, ◌∙◌, ◌⊎◌, true, false, some, List, [], ◌∷◌, ◌++◌, eqb,
  length, any, all, keep, find, remove_first, change_first, inl, inr, arith, keep-all, keep-append,
  if-cases, all-keep, all-append, all-remove_first, any-keep_le, In, find-In, all-change_first,
  change_first-ne-nil,
}
use qwen2api_go.Text.{Text, Unicode, equal_fold, trim_space}
use qwen2api_go.Storage.{Account, is_guest}
use qwen2api_go.Registry.{
  guest_account, has_email, is_persistent, filter_persistent_accounts, with_guest,
}
use qwen2api_go.Registry.Distinct.{
  Distinct, keep-Distinct, append-Distinct, remove_first-keep, change_first-Distinct,
}

module _ ⦃u : Unicode⦄ where
  pub record IsWellFormed (xs : List Account) : Type 0 where
    pub distinct : Distinct xs
    pub shape : ((all is_persistent xs ≡ true) × (xs ≢ [])) ⊎ (xs ≡ guest_account ∷ [])

  pub guest_account-persistent : is_persistent guest_account ≡ false
  unfolding is_persistent is_guest equal_fold trim_space
  guest_account-persistent = refl

  -- An account that AddAccountWithToken makes has no source.
  pub no_source-persistent : (a : Account) → a.source ≡ [] → is_persistent a ≡ true
  unfolding is_persistent is_guest equal_fold trim_space
  no_source-persistent a e = rw e refl

  pub keep-with_guest :
      (xs : List Account) → keep is_persistent (with_guest xs) ≡ keep is_persistent xs
  unfolding filter_persistent_accounts
  keep-with_guest xs =
      if-cases (λ ys. keep is_persistent ys ≡ keep is_persistent xs)
        (eqb (length (keep is_persistent xs)) 0) _ _
        (λ e.
          keep-append is_persistent xs (guest_account ∷ [])
          ∙ rw guest_account-persistent (append-nil (keep is_persistent xs)))
        (λ _. refl)

  pub only_guest : IsWellFormed (guest_account ∷ [])
  only_guest = record { distinct = (refl, tt); shape = inr refl }

  eqb-suc_zero : (n : ℕ) → eqb (suc n) 0 ≡ false
  eqb-suc_zero n = ground arith

  append-ne-nil : {A : Type 0} (xs : List A) (a : A) → xs ++ a ∷ [] ≢ []
  append-ne-nil [] a e = cc
  append-ne-nil (x ∷ xs) a e = cc

  pub add-IsWellFormed :
      (xs : List Account) (a : Account)
      → IsWellFormed xs
      → a.source ≡ []
      → any (has_email a.email) xs ≡ false
      → IsWellFormed (keep is_persistent xs ++ a ∷ [])
  add-IsWellFormed xs a v regular fresh = record {
    distinct =
        append-Distinct (keep is_persistent xs) a (keep-Distinct is_persistent xs v.distinct)
          (any-keep_le is_persistent (has_email a.email) xs fresh);
    shape = inl (
      all-append is_persistent (keep is_persistent xs) (a ∷ [])
          ∙ ground (arith, all-keep is_persistent xs, no_source-persistent a regular),
      append-ne-nil (keep is_persistent xs) a,
    );
  }

  with_guest-IsWellFormed :
      (xs : List Account) → Distinct xs → all is_persistent xs ≡ true → IsWellFormed (with_guest xs)
  unfolding filter_persistent_accounts
  with_guest-IsWellFormed [] d h = only_guest
  with_guest-IsWellFormed (x ∷ xs) d h =
      rw (keep-all is_persistent (x ∷ xs) h, eqb-suc_zero (length xs))
        (record { distinct = d; shape = inl (h, λ (e : x ∷ xs ≡ []). cc) })

  -- If an account that persists is found, all of them persist.
  pub persistent_shape :
      (email : Text) (xs : List Account) (a : Account)
      → IsWellFormed xs
      → find (has_email email) xs ≡ some a
      → is_persistent a ≡ true
      → all is_persistent xs ≡ true
  persistent_shape email xs a v found persistent = elim v.shape [
    | inl (h, _) ↦ h
    | inr e ↦ elim (subst (In a) e (find-In (has_email email) a xs found)) [
      | inl same ↦ cc (ap is_persistent same, guest_account-persistent, persistent)
      | inr m ↦ absurd m
    ]
  ]

  pub delete-IsWellFormed :
      (email : Text) (xs : List Account) (a : Account)
      → IsWellFormed xs
      → find (has_email email) xs ≡ some a
      → is_persistent a ≡ true
      → IsWellFormed (with_guest (remove_first (has_email email) xs))
  delete-IsWellFormed email xs a v found persistent =
      let all_persistent = persistent_shape email xs a v found persistent in
      with_guest-IsWellFormed (remove_first (has_email email) xs)
        (subst Distinct (sym (remove_first-keep email xs v.distinct))
          (keep-Distinct _ xs v.distinct))
        (all-remove_first (has_email email) is_persistent xs all_persistent)

  pub refresh-IsWellFormed :
      (email : Text) (xs : List Account) (a fresh : Account)
      → IsWellFormed xs
      → find (has_email email) xs ≡ some a
      → is_persistent a ≡ true
      → fresh.email ≡ a.email
      → is_persistent fresh ≡ true
      → IsWellFormed (change_first (has_email email) (λ _. fresh) xs)
  refresh-IsWellFormed email xs a fresh v found persistent same kept = record {
    distinct = change_first-Distinct email a fresh xs found same v.distinct;
    shape = inl (
      all-change_first (has_email email) is_persistent fresh xs
          (persistent_shape email xs a v found persistent) kept,
      change_first-ne-nil (has_email email) fresh xs found,
    );
  }
