-- ===== src/Pool/Sessions.antt =====
-- What a caller of the pool gets: internal/account/service.go, GetAccountSession,
-- GetAccountSessionByEmail and GetAccountSessionExcluding.
pub mod Named
pub mod Outside
use qwen2api_go.Prelude.{
  ℕ, zero, suc, ◌+◌, ◌≤◌, ◌<◌, ◌≡◌, ◌≢◌, refl, sym, ap, subst, ◌∙◌, ◌⊎◌, Bool, true, false, not,
  ◌&&◌, Option, none, some, List, [], ◌∷◌, eqb, length, any, all, keep, find, find-In, find-holds,
  find-none, In, In-keep, inl, inr, arith, Bool-cases, Option-cases, any-keep_nil, keep-nil_of_any,
  any_of-In, all-In, if◌then◌else◌,
}
use qwen2api_go.Text.{
  Text, Unicode, text_eq, text_beq, text_beq_refl, text_beq_iff, equal_fold, trim_space,
}
use qwen2api_go.Dict.{Dict, get_or, put, get_or-put}
use qwen2api_go.Storage.{Account, Error, Result, ok, err}
use qwen2api_go.Pool.{
  Pool, has_access, admits, available_locked, round_robin_locked, select, touch, choose, fall_back,
  choose_or_fall_back, choose_or_fail, get_account_session, get_account_session_by_email,
  get_account_session_excluding, err_not_initialized, err_no_accounts, err_none_usable,
  err_unavailable, err_none_left,
}
use qwen2api_go.Pool.Cooldown.{available_locked-keep, available_locked-counts}
use qwen2api_go.Pool.Selection.{select-In}
use qwen2api_go.Pool.RoundRobin.{Finds, round_robin_locked-Finds, round_robin_locked_fails}

abbrev pub Outcome : Type 0
Outcome = Pool × Result Account

get_or-touch :
    (email : Text) (stamp : ℕ) (p : Pool) → get_or 0 email (touch email stamp p).last_used ≡ stamp
unfolding touch
get_or-touch email stamp p = simp (get_or-put, text_beq_refl)

if_false : (b : Bool) (x y : Outcome) → b ≡ false → (if b then x else y) ≡ y
if_false true x y e = cc
if_false false x y e = refl

nonempty {ℓ} :
    {A : Type ℓ} (p : A → Bool) (xs : List A) → any p xs ≡ true → eqb (length xs) 0 ≡ false
nonempty p [] h = cc
nonempty p (x ∷ xs) h = ground arith

module _ ⦃u : Unicode⦄ (stamp : ℕ) (p : Pool) where
  abbrev next_in_turn : Account
  next_in_turn = (round_robin_locked p).0

  fall_back-named :
      text_beq next_in_turn.email [] ≡ false
      → fall_back stamp p
        ≡ (touch next_in_turn.email stamp (round_robin_locked p).1, ok next_in_turn)
  unfolding fall_back
  fall_back-named e = rw e

  fall_back-unnamed :
      text_beq next_in_turn.email [] ≡ true
      → fall_back stamp p ≡ ((round_robin_locked p).1, err err_none_usable)
  unfolding fall_back
  fall_back-unnamed e = rw e

  accounts-turn : (round_robin_locked p).1.accounts ≡ p.accounts
  unfolding round_robin_locked
  accounts-turn = refl

module _ ⦃u : Unicode⦄ (now stamp : ℕ) (p : Pool) where
  pub session_opens :
      p.initialized ≡ true
      → any has_access p.accounts ≡ true
      → get_account_session now stamp p ≡ choose_or_fall_back stamp (available_locked now p)
  unfolding get_account_session
  session_opens ready access =
      if_false (not p.initialized) (p, err err_not_initialized) _ (ap not ready)
      ∙ if_false (eqb (length p.accounts) 0) (p, err err_no_accounts) _
          (nonempty has_access p.accounts access)

module _ ⦃u : Unicode⦄ (now : ℕ) (p : Pool) where
  abbrev pub is_admitted : Account → Bool
  is_admitted = admits now p.last_used p.failures

  -- `a` is an account of the pool that has a token or is a guest; it is available if any account
  -- is; its time of use is now `stamp`; and the accounts are those of before.
  pub record Served (stamp : ℕ) (a : Account) (q : Pool) : Type 0 where
    pub member : In a p.accounts
    pub access : has_access a ≡ true
    pub admitted : any is_admitted p.accounts ≡ true → is_admitted a ≡ true
    pub noted : get_or 0 a.email q.last_used ≡ stamp
    pub same : q.accounts ≡ p.accounts

  abbrev pub IsServed : ℕ → Outcome → Type 0
  IsServed stamp r = (a : Account) × (q : Pool) × (r ≡ (q, ok a)) × Served stamp a q

  admits-access : (a : Account) → is_admitted a ≡ true → has_access a ≡ true
  unfolding admits
  admits-access a h = ground arith

  choose-Served :
      (stamp : ℕ) (first : Account) (rest : List Account) (p' : Pool)
      → p'.accounts ≡ p.accounts
      → keep is_admitted p.accounts ≡ first ∷ rest
      → IsServed stamp (choose stamp first rest p')
  unfolding choose touch
  choose-Served stamp first rest p' same kept =
      let chosen = select p'.last_used first (get_or 0 first.email p'.last_used) rest in
      let (member, holds) =
        In-keep is_admitted chosen p.accounts
          (subst (In chosen) (sym kept) (select-In p'.last_used first _ rest)) in
      (
        chosen,
        touch chosen.email stamp p',
        refl,
        record {
          member = member;
          access = admits-access chosen holds;
          admitted = λ _. holds;
          noted = get_or-touch chosen.email stamp p';
          same = same;
        },
      )

  fall_back-Served :
      (stamp : ℕ) (p' : Pool)
      → p'.accounts ≡ p.accounts
      → any is_admitted p.accounts ≡ false
      → any has_access p.accounts ≡ true
      → all (λ a. not (text_beq a.email [])) p.accounts ≡ true
      → IsServed stamp (fall_back stamp p')
  unfolding touch
  fall_back-Served stamp p' same none_admitted access named =
      let (has, member, _, _) = (round_robin_locked-Finds p' (rw same access)).0 in
      let a = next_in_turn stamp p' in
      let member' : In a p.accounts = subst (In a) same member in
      let name : not (text_beq a.email []) ≡ true = all-In _ a p.accounts named member' in
      (
        a,
        touch a.email stamp (round_robin_locked p').1,
        fall_back-named stamp p' (ground arith),
        record {
          member = member';
          access = has;
          admitted = λ some_admitted. cc (none_admitted, some_admitted);
          noted = get_or-touch a.email stamp (round_robin_locked p').1;
          same = accounts-turn stamp p' ∙ same;
        },
      )

  serve_cases :
      (stamp : ℕ) (xs : List Account) (p' : Pool)
      → xs ≡ keep is_admitted p.accounts
      → p'.accounts ≡ p.accounts
      → any has_access p.accounts ≡ true
      → all (λ a. not (text_beq a.email [])) p.accounts ≡ true
      → IsServed stamp (choose_or_fall_back stamp (xs, p'))
  serve_cases stamp [] p' kept same access named =
      fall_back-Served stamp p' same (any-keep_nil is_admitted p.accounts (sym kept)) access named
  serve_cases stamp (first ∷ rest) p' kept same access named =
      choose-Served stamp first rest p' same (sym kept)

  -- An initialised pool in which any account has a token or is a guest always serves a session, if
  -- no account has an empty email: with an account of the pool that has a token or is a guest, and
  -- that is available if any account is. The time of its use is noted, and the accounts stay as they
  -- were.
  pub get_account_session_serves :
      (stamp : ℕ)
      → p.initialized ≡ true
      → any has_access p.accounts ≡ true
      → all (λ a. not (text_beq a.email [])) p.accounts ≡ true
      → IsServed stamp (get_account_session now stamp p)
  get_account_session_serves stamp ready access named =
      subst (IsServed stamp) (sym (session_opens now stamp p ready access)) (
        serve_cases stamp (available_locked now p).0 (available_locked now p).1
          (available_locked-keep now p) (available_locked-counts now [] p).1 access named)

module _ ⦃u : Unicode⦄ (now stamp : ℕ) (p : Pool) where
  none_admitted :
      (xs : List Account) → any has_access xs ≡ false → any (is_admitted now p) xs ≡ false
  unfolding admits
  none_admitted [] h = refl
  none_admitted (x ∷ xs) h = ground (arith, none_admitted xs)

  -- Why there is no session.
  abbrev pub refusal : Error
  refusal =
      if not p.initialized
      then err_not_initialized
      else if eqb (length p.accounts) 0
      then err_no_accounts
      else err_none_usable

  fall_back-refuses :
      (q : Pool)
      → q.accounts ≡ p.accounts
      → any has_access p.accounts ≡ false
      → (fall_back stamp q).1 ≡ err err_none_usable
  fall_back-refuses q same shut =
      ap (λ (r : Outcome). r.1)
        (fall_back-unnamed stamp q (
          ap (λ (a : Account). text_beq a.email []) (round_robin_locked_fails q (rw same shut))
          ∙ text_beq_refl []))

  ladder :
      (b c : Bool) (r : Outcome)
      → r.1 ≡ err err_none_usable
      → (if b then (p, err err_not_initialized) else if c then (p, err err_no_accounts) else r).1
        ≡ err (if b then err_not_initialized else if c then err_no_accounts else err_none_usable)
  ladder true c r h = refl
  ladder false true r h = refl
  ladder false false r h = h

  empty_choice :
      (xs : List Account) (q : Pool)
      → xs ≡ []
      → (fall_back stamp q).1 ≡ err err_none_usable
      → (choose_or_fall_back stamp (xs, q)).1 ≡ err err_none_usable
  empty_choice [] q e h = h
  empty_choice (x ∷ xs) q e h = cc

  -- A pool in which no account has a token or is a guest refuses, and says whether it has not been
  -- initialised, is empty, or has no account that can be used.
  get_account_session_refuses :
      any has_access p.accounts ≡ false → (get_account_session now stamp p).1 ≡ err refusal
  unfolding get_account_session
  get_account_session_refuses shut =
      let refuses =
        fall_back-refuses (available_locked now p).1 (available_locked-counts now [] p).1 shut in
      let nothing =
        available_locked-keep now p
        ∙ keep-nil_of_any (is_admitted now p) p.accounts (none_admitted p.accounts shut) in
      ladder (not p.initialized) (eqb (length p.accounts) 0)
        (choose_or_fall_back stamp (available_locked now p))
        (empty_choice (available_locked now p).0 (available_locked now p).1 nothing refuses)
