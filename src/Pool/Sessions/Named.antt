-- ===== src/Pool/Sessions/Named.antt =====
-- The sessions that ask for an account by its email, or for one outside a set: internal/account/
-- service.go, GetAccountSessionByEmail and GetAccountSessionExcluding.
use qwen2api_go.Prelude.{
  ℕ, ◌≡◌, refl, sym, ap, subst, ◌∙◌, ◌⊎◌, Bool, true, false, not, ◌&&◌, Option, none, some, List,
  [], ◌∷◌, eqb, length, any, keep, find, find-In, find-holds, In, In-keep, inl, inr, arith,
  any-keep_nil, any_of-find-none, any-keep, keep-keep,
}
use qwen2api_go.Text.{Text, Unicode, text_eq, text_beq, equal_fold, trim_space}
use qwen2api_go.Dict.{get_or}
use qwen2api_go.Storage.{Account, ok, err}
use qwen2api_go.Pool.{
  Pool, answer, available_locked, select, touch, choose, choose_or_fail,
  get_account_session_by_email, get_account_session_excluding, err_not_initialized, err_no_accounts,
  err_unavailable,
}
use qwen2api_go.Pool.Cooldown.{available_locked-keep, available_locked-counts}
use qwen2api_go.Pool.Selection.{select-In}
use qwen2api_go.Pool.Sessions.{
  Outcome, Served, is_admitted, admits-access, get_or-touch, nonempty, if_false,
}

module _ ⦃u : Unicode⦄ (now stamp : ℕ) (p : Pool) where
  -- What `Served` asks for holds of an available account that is touched.
  touched-Served :
      (a : Account) (q : Pool)
      → q.accounts ≡ p.accounts
      → In a p.accounts
      → is_admitted now p a ≡ true
      → Served now p stamp a (touch a.email stamp q)
  unfolding touch
  touched-Served a q same member holds = record {
    member = member;
    access = admits-access now p a holds;
    admitted = λ _. holds;
    noted = get_or-touch a.email stamp q;
    same = same;
  }

  module _ (email : Text) where
    abbrev pub is_asked_for : Account → Bool
    is_asked_for a = equal_fold a.email (trim_space email)

    by_email_opens :
        p.initialized ≡ true
        → get_account_session_by_email now stamp email p
          ≡ answer stamp (find is_asked_for (available_locked now p).0) (available_locked now p).1
    unfolding get_account_session_by_email
    by_email_opens ready = if_false (not p.initialized) _ _ (ap not ready)

    abbrev pub AnswersByEmail : Outcome → Type 0
    AnswersByEmail r =
        ((a : Account) × (q : Pool) × (r ≡ (q, ok a))
          × Served now p stamp a q
          × (is_asked_for a ≡ true)
          × (is_admitted now p a ≡ true))
        ⊎ ((any (λ a. is_admitted now p a && is_asked_for a) p.accounts ≡ false)
            × (r.1 ≡ err err_unavailable)
            × (r.0.accounts ≡ p.accounts)
            × (r.0.last_used ≡ p.last_used))

    answer-found :
        (xs : List Account) (q : Pool) (o : Option Account)
        → xs ≡ keep (is_admitted now p) p.accounts
        → q.accounts ≡ p.accounts
        → q.last_used ≡ p.last_used
        → find is_asked_for xs ≡ o
        → AnswersByEmail (answer stamp o q)
    answer-found xs q none kept same used found = inr (
      sym (any-keep (is_admitted now p) is_asked_for p.accounts)
          ∙ ap (any is_asked_for) (sym kept)
          ∙ any_of-find-none is_asked_for xs found,
      refl,
      same,
      used,
    )
    answer-found xs q (some a) kept same used found =
        let (member, holds) =
          In-keep (is_admitted now p) a p.accounts
            (subst (In a) kept (find-In is_asked_for a xs found)) in
        inl (
          a,
          touch a.email stamp q,
          refl,
          touched-Served a q same member holds,
          find-holds is_asked_for xs a found,
          holds,
        )

    -- An initialised pool answers with an available account whose email is the one asked for, up to
    -- case and surrounding space; it answers with an error, and notes no use, exactly if no
    -- available account has that email.
    pub get_account_session_by_email_answers :
        p.initialized ≡ true → AnswersByEmail (get_account_session_by_email now stamp email p)
    get_account_session_by_email_answers ready = subst AnswersByEmail (sym (by_email_opens ready)) (
        answer-found (available_locked now p).0 (available_locked now p).1 _
          (available_locked-keep now p) (available_locked-counts now [] p).1
          (available_locked-counts now [] p).2 refl)

  module _ (excluded : List Text) where
    abbrev pub is_allowed : Account → Bool
    is_allowed a = not (any (text_beq a.email) excluded)

    excluding_opens :
        p.initialized ≡ true
        → any (λ a. is_admitted now p a && is_allowed a) p.accounts ≡ true
        → get_account_session_excluding now stamp excluded p
          ≡ choose_or_fail stamp
              (keep is_allowed (available_locked now p).0)
              (available_locked now p).1
    unfolding get_account_session_excluding
    excluding_opens ready some_left =
        if_false (not p.initialized) (p, err err_not_initialized) _ (ap not ready)
        ∙ if_false (eqb (length p.accounts) 0) (p, err err_no_accounts) _
            (nonempty (λ a. is_admitted now p a && is_allowed a) p.accounts some_left)

    abbrev pub AnswersOutside : Outcome → Type 0
    AnswersOutside r =
        (a : Account) × (q : Pool) × (r ≡ (q, ok a))
        × Served now p stamp a q
        × (is_allowed a ≡ true)

    choose-allowed :
        (ys : List Account) (q : Pool)
        → keep (λ a. is_admitted now p a && is_allowed a) p.accounts ≡ ys
        → any (λ a. is_admitted now p a && is_allowed a) p.accounts ≡ true
        → q.accounts ≡ p.accounts
        → AnswersOutside (choose_or_fail stamp ys q)
    unfolding choose
    choose-allowed [] q kept some_left same =
        cc (any-keep_nil (λ a. is_admitted now p a && is_allowed a) p.accounts kept, some_left)
    choose-allowed (first ∷ rest) q kept some_left same =
        let chosen = select q.last_used first (get_or 0 first.email q.last_used) rest in
        let (member, holds) =
          In-keep (λ a. is_admitted now p a && is_allowed a) chosen p.accounts
            (subst (In chosen) (sym kept) (select-In q.last_used first _ rest)) in
        (
          chosen,
          touch chosen.email stamp q,
          refl,
          touched-Served chosen q same member (ground arith),
          ground arith,
        )

    -- If an available account is not excluded, an initialised pool serves one that is available and
    -- not excluded.
    pub get_account_session_excluding_serves :
        p.initialized ≡ true
        → any (λ a. is_admitted now p a && is_allowed a) p.accounts ≡ true
        → AnswersOutside (get_account_session_excluding now stamp excluded p)
    get_account_session_excluding_serves ready some_left =
        subst AnswersOutside (sym (excluding_opens ready some_left)) (
          choose-allowed _ (available_locked now p).1
            (sym (
              ap (keep is_allowed) (available_locked-keep now p)
              ∙ keep-keep (is_admitted now p) is_allowed p.accounts))
            some_left (available_locked-counts now [] p).1)
