-- ===== src/Registry/Distinct.antt =====
-- Lists of accounts in which no two emails agree up to case.
use qwen2api_go.Prelude.{
  ◌≡◌, refl, sym, ap, ap₂, subst, ◌∙◌, Bool, true, false, not, ◌||◌, some, List, [], ◌∷◌, ◌++◌, any,
  keep, find, remove_first, change_first, inl, inr, arith, any-append, Bool-cases, if-cases,
  any-keep_le, keep_none,
}
use qwen2api_go.Text.{Text, Unicode, equal_fold, equal_fold_trans, equal_fold_symm}
use qwen2api_go.Storage.{Account}
use qwen2api_go.Registry.{has_email}

module _ ⦃u : Unicode⦄ where
  abbrev pub Distinct : List Account → Type 0
  Distinct [] = Unit
  Distinct (a ∷ xs) = (any (has_email a.email) xs ≡ false) × Distinct xs

  -- Texts that agree up to case agree with the same emails.
  pub has_email_congr :
      (s t : Text) (a : Account) → equal_fold s t ≡ true → has_email s a ≡ has_email t a
  has_email_congr s t a h =
      ground
        (arith, equal_fold_trans a.email s t, equal_fold_trans a.email t s, equal_fold_symm s t h)

  any-has_email_congr :
      (s t : Text) (xs : List Account)
      → equal_fold s t ≡ true
      → any (has_email s) xs ≡ any (has_email t) xs
  any-has_email_congr s t [] h = refl
  any-has_email_congr s t (a ∷ xs) h =
      ap₂ ◌||◌ (has_email_congr s t a h) (any-has_email_congr s t xs h)

  -- A filter leaves distinct emails distinct.
  pub keep-Distinct : (p : Account → Bool) (xs : List Account) → Distinct xs → Distinct (keep p xs)
  keep-Distinct p [] d = tt
  keep-Distinct p (a ∷ xs) d =
      if-cases Distinct (p a) (a ∷ keep p xs) (keep p xs)
        (λ _. (any-keep_le p (has_email a.email) xs d.0, keep-Distinct p xs d.1))
        (λ _. keep-Distinct p xs d.1)

  pub append-Distinct :
      (xs : List Account) (a : Account)
      → Distinct xs
      → any (has_email a.email) xs ≡ false
      → Distinct (xs ++ a ∷ [])
  append-Distinct [] a d fresh = (refl, tt)
  append-Distinct (x ∷ xs) a d fresh = (
    any-append (has_email x.email) xs (a ∷ [])
        ∙ ground (arith, d.0, equal_fold_symm a.email x.email),
    append-Distinct xs a d.1 (ground arith),
  )

  -- With distinct emails, cutting the first account of an email out is filtering that email out.
  pub remove_first-keep :
      (email : Text) (xs : List Account)
      → Distinct xs
      → remove_first (has_email email) xs ≡ keep (λ a. not (has_email email a)) xs
  remove_first-keep email [] d = refl
  remove_first-keep email (x ∷ xs) d = elim (Bool-cases (has_email email x)) [
    | inl e ↦
        rw e (
          sym (keep_none (has_email email) xs (sym (any-has_email_congr x.email email xs e) ∙ d.0)))
    | inr e ↦ rw e (ap (λ ys. x ∷ ys) (remove_first-keep email xs d.1))
  ]

  found_first :
      (email : Text) (x a : Account) (xs : List Account)
      → has_email email x ≡ true
      → find (has_email email) (x ∷ xs) ≡ some a
      → x.email ≡ a.email
  found_first email x a xs e found = ground arith

  -- An account may be replaced by one with the same email.
  any-change_first :
      (email t : Text) (a fresh : Account) (xs : List Account)
      → find (has_email email) xs ≡ some a
      → fresh.email ≡ a.email
      → any (has_email t) (change_first (has_email email) (λ _. fresh) xs) ≡ any (has_email t) xs
  any-change_first email t a fresh [] found same = refl
  any-change_first email t a fresh (x ∷ xs) found same = elim (Bool-cases (has_email email x)) [
    | inl e ↦ rw e (
        ap (λ m. equal_fold m t || any (has_email t) xs)
          (same ∙ sym (found_first email x a xs e found)))
    | inr e ↦
        rw e
          (ap (λ v. has_email t x || v) (any-change_first email t a fresh xs (rw e at found) same))
  ]

  pub change_first-Distinct :
      (email : Text) (a fresh : Account) (xs : List Account)
      → find (has_email email) xs ≡ some a
      → fresh.email ≡ a.email
      → Distinct xs
      → Distinct (change_first (has_email email) (λ _. fresh) xs)
  change_first-Distinct email a fresh [] found same d = tt
  change_first-Distinct email a fresh (x ∷ xs) found same d =
      elim (Bool-cases (has_email email x)) [
        | inl e ↦ rw e (
          subst (λ m. any (has_email m) xs ≡ false)
              (sym (same ∙ sym (found_first email x a xs e found))) d.0,
          d.1,
        )
        | inr e ↦ rw e (
          any-change_first email x.email a fresh xs (rw e at found) same ∙ d.0,
          change_first-Distinct email a fresh xs (rw e at found) same d.1,
        )
      ]
