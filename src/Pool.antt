-- ===== src/Pool.antt =====
-- internal/account/service.go: the account pool and the choice of an account for a request. A time
-- is a number of nanoseconds since Go's zero time; what the code reads from the clock is an
-- argument. The maps `lastUsed` and `failures` are read with the zero value for a missing key.
pub mod Cooldown
pub mod Selection
pub mod RoundRobin
pub mod Sessions
pub mod Starvation
pub mod Stats
pub mod Frame
mod Tests
use qwen2api_go.Prelude.{
  ℕ, zero, suc, ◌+◌, Bool, true, false, not, ◌&&◌, ◌||◌, Option, none, some, List, [], ◌∷◌, ltb,
  leb, eqb, any, keep, find, length, get_elem?, if◌then◌else◌,
}
use qwen2api_go.Prelude.Int.{ℤ, pos}
use qwen2api_go.Text.{Text, Unicode, codes, text_eq, text_beq, trim_space, equal_fold, is_blank}
use qwen2api_go.Dict.{Dict, put, get_or}
use qwen2api_go.Storage.{Account, Error, Result, ok, err, is_guest}

pub record Pool : Type 0 where
  pub accounts : List Account
  pub initialized : Bool
  pub current_index : ℕ
  pub last_used : Dict Text ℕ
  pub failures : Dict Text ℕ

abbrev pub new_pool : Pool
new_pool = record {
  accounts = [];
  initialized = false;
  current_index = 0;
  last_used = [];
  failures = [];
}

-- 5 * time.Minute
abbrev pub cooldown : ℕ
cooldown = 300000000000

abbrev pub empty_account : Account
empty_account = record { email = []; password = []; token = []; source = []; expires = pos 0 }

abbrev pub err_not_initialized : Error
err_not_initialized = codes "账户管理器尚未初始化"

abbrev pub err_no_accounts : Error
err_no_accounts = codes "没有可用的账户令牌"

abbrev pub err_none_usable : Error
err_none_usable = codes "所有账户令牌都不可用"

abbrev pub err_unavailable : Error
err_unavailable = codes "指定账号当前不可用"

abbrev pub err_none_left : Error
err_none_left = codes "没有符合条件的可用账户令牌"

module _ ⦃u : Unicode⦄ where
  -- account.IsGuest() || strings.TrimSpace(account.Token) != ""
  unfoldable pub has_access : Account → Bool
  has_access a = is_guest a || not (is_blank a.token)

  -- Three failures or more, and used less than five minutes ago.
  unfoldable pub is_cooling : ℕ → Dict Text ℕ → Dict Text ℕ → Account → Bool
  is_cooling now last_used failures a =
      let used_at = get_or 0 a.email last_used in
      leb 3 (get_or 0 a.email failures) && (not (eqb used_at 0) && ltb now (used_at + cooldown))

  -- An account that `availableLocked` appends to its result.
  unfoldable pub admits : ℕ → Dict Text ℕ → Dict Text ℕ → Account → Bool
  unfolding has_access is_cooling
  admits now last_used failures a = has_access a && not (is_cooling now last_used failures a)

  -- `s.failures[account.Email] = 0`, for an account that is appended after its cooldown
  unfoldable pub forgive : ℕ → Dict Text ℕ → Account → Dict Text ℕ → Dict Text ℕ
  unfolding admits
  forgive now last_used a failures =
      if admits now last_used failures a && leb 3 (get_or 0 a.email failures)
      then put a.email 0 failures
      else failures

  -- The loop of availableLocked: the accounts that it appends, and the failure counts it leaves.
  available_from : ℕ → Dict Text ℕ → List Account → Dict Text ℕ → List Account × Dict Text ℕ
  unfolding admits forgive
  available_from now last_used [] failures = ([], failures)
  available_from now last_used (a ∷ rest) failures =
      let (found, left) = available_from now last_used rest (forgive now last_used a failures) in
      (if admits now last_used failures a then a ∷ found else found, left)

  unfoldable pub available_locked : ℕ → Pool → List Account × Pool
  unfolding available_from
  available_locked now p =
      let (found, left) = available_from now p.last_used p.accounts p.failures in
      (found, record p { failures = left })

  -- The loop of roundRobinLocked, which makes at most as many rounds as there are accounts. The
  -- index is in range after the reset, since a round is made only if there is an account.
  round_robin : ℕ → List Account → ℕ → Account × ℕ
  round_robin zero accounts index = (empty_account, index)
  round_robin (suc rounds) accounts index =
      let at = if leb (length accounts) index then 0 else index in
      let rest = round_robin rounds accounts (at + 1) in
      elim (get_elem? accounts at) [
        | none ↦ (empty_account, at)
        | some account ↦ if has_access account then (account, at + 1) else rest
      ]

  pub round_robin_locked : Pool → Account × Pool
  unfolding round_robin
  round_robin_locked p =
      let (account, index) = round_robin (length p.accounts) p.accounts p.current_index in
      (account, record p { current_index = index })

-- The loop over the candidates: `selected` gives way to an account that was used before it, and to
-- any account while it has itself never been used.
pub select : Dict Text ℕ → Account → ℕ → List Account → Account
select last_used selected selected_last_used [] = selected
select last_used selected selected_last_used (account ∷ rest) =
    let used_at = get_or 0 account.email last_used in
    let replaces = ltb used_at selected_last_used || eqb selected_last_used 0 in
    select last_used (if replaces then account else selected)
      (if replaces then used_at else selected_last_used) rest

unfoldable pub touch : Text → ℕ → Pool → Pool
touch email stamp p = record p { last_used = put email stamp p.last_used }

-- The part that GetAccountSession and GetAccountSessionExcluding have in common: choose among the
-- candidates, and note the time.
pub choose : ℕ → Account → List Account → Pool → Pool × Result Account
unfolding select touch
choose stamp first rest p =
    let chosen = select p.last_used first (get_or 0 first.email p.last_used) rest in
    (touch chosen.email stamp p, ok chosen)

module _ ⦃u : Unicode⦄ where
  -- Nothing is available: take the accounts by turns, cooling down or not.
  fall_back : ℕ → Pool → Pool × Result Account
  unfolding round_robin_locked touch
  fall_back stamp p =
      let (account, p') = round_robin_locked p in
      if text_beq account.email []
      then (p', err err_none_usable)
      else (touch account.email stamp p', ok account)

  abbrev choose_or_fall_back : ℕ → List Account × Pool → Pool × Result Account
  choose_or_fall_back stamp ([], p) = fall_back stamp p
  choose_or_fall_back stamp (first ∷ rest, p) = choose stamp first rest p

  -- `now` is the time that availableLocked reads, `stamp` the one that is noted as last use.
  pub get_account_session : ℕ → ℕ → Pool → Pool × Result Account
  unfolding available_locked fall_back choose
  get_account_session now stamp p =
      if not p.initialized
      then (p, err err_not_initialized)
      else if eqb (length p.accounts) 0
      then (p, err err_no_accounts)
      else choose_or_fall_back stamp (available_locked now p)

  abbrev answer : ℕ → Option Account → Pool → Pool × Result Account
  answer stamp none p = (p, err err_unavailable)
  answer stamp (some account) p = (touch account.email stamp p, ok account)

  unfoldable pub get_account_session_by_email : ℕ → ℕ → Text → Pool → Pool × Result Account
  unfolding available_locked touch
  get_account_session_by_email now stamp email p =
      let (found, p') = available_locked now p in
      if not p.initialized
      then (p, err err_not_initialized)
      else answer stamp (find (λ a. equal_fold a.email (trim_space email)) found) p'

  abbrev choose_or_fail : ℕ → List Account → Pool → Pool × Result Account
  choose_or_fail stamp [] p = (p, err err_none_left)
  choose_or_fail stamp (first ∷ rest) p = choose stamp first rest p

  pub get_account_session_excluding : ℕ → ℕ → List Text → Pool → Pool × Result Account
  unfolding available_locked choose
  get_account_session_excluding now stamp excluded p =
      let (found, p') = available_locked now p in
      if not p.initialized
      then (p, err err_not_initialized)
      else if eqb (length p.accounts) 0
      then (p, err err_no_accounts)
      else choose_or_fail stamp (keep (λ a. not (any (text_beq a.email) excluded)) found) p'

pub record_failure : ℕ → Text → Pool → Pool
record_failure now email p = record p {
  failures = put email (get_or 0 email p.failures + 1) p.failures;
  last_used = put email now p.last_used;
}

pub reset_failure : Text → Pool → Pool
reset_failure email p = record p { failures = put email 0 p.failures }
