-- ===== src/Pool/Stats.antt =====
-- The reports on the pool: internal/account/service.go, RuntimeForAccount, BuildHealthStats and
-- rotationStats. Hours are given in tenths, as the code rounds them down to tenths; the text of a
-- time is represented by its Unix seconds. The maps of the two reports are a record of counts and a
-- dictionary.
use qwen2api_go.Prelude.{
  ℕ, suc, ◌+◌, ◌-◌, ◌*◌, ◌/◌, ◌≡◌, refl, ◌∙◌, Bool, false, not, ◌&&◌, ◌||◌, Option, none, some,
  List, [], ◌∷◌, ltb, leb, eqb, length, keep, length-keep-le, min, arith, if◌then◌else◌,
}
use qwen2api_go.Prelude.Int.{ℤ, pos, negsuc, leb_ℤ, pos_part}
use qwen2api_go.Clock.{hour, max_duration, at_unix, unix_milli}
use qwen2api_go.Text.{Text, Unicode, text_eq, is_blank}
use qwen2api_go.Dict.{Dict, get_or, put}
use qwen2api_go.Storage.{Account, is_guest}
use qwen2api_go.Pool.{Pool, cooldown, has_access, admits, available_locked}
use qwen2api_go.Pool.Cooldown.{available_locked-keep}

pub data Status : Type 0 where
  valid expiring_soon expired invalid : Status

pub record RuntimeState : Type 0 where
  pub status : Status
  pub remaining_tenths : ℤ
  pub expires_at : Option ℕ

-- The part behind the early returns, for a positive time of expiry.
runtime_until : ℕ → ℕ → RuntimeState
runtime_until now seconds =
    let remaining = min (at_unix seconds - now) max_duration in
    if leb (at_unix seconds) now
    then record { status = expired; remaining_tenths = pos 0; expires_at = some seconds }
    else record {
      status = if leb remaining (6 * hour) then expiring_soon else valid;
      remaining_tenths = pos (remaining * 10 / hour);
      expires_at = some seconds;
    }

pub record AccountCounts : Type 0 where
  pub total : ℕ
  pub valid_count : ℕ
  pub expiring_soon_count : ℕ
  pub expired_count : ℕ
  pub invalid_count : ℕ

-- `stats[runtime.Status]++`
count_status : Status → AccountCounts → AccountCounts
count_status valid c = record c { valid_count = c.valid_count + 1 }
count_status expiring_soon c = record c { expiring_soon_count = c.expiring_soon_count + 1 }
count_status expired c = record c { expired_count = c.expired_count + 1 }
count_status invalid c = record c { invalid_count = c.invalid_count + 1 }

-- The accounts that are counted under some status.
abbrev pub counted : AccountCounts → ℕ
counted c = c.valid_count + c.expiring_soon_count + c.expired_count + c.invalid_count

count_status_total :
    (s : Status) (c : AccountCounts)
    → (counted (count_status s c) ≡ suc (counted c)) × ((count_status s c).total ≡ c.total)
unfolding count_status
count_status_total valid c = omega arith
count_status_total _ c = omega arith

pub record UsageStatus : Type 0 where
  pub failures : ℕ
  pub last_used_milli : ℤ
  pub available : Bool

pub record RotationStats : Type 0 where
  pub total : ℕ
  pub available : ℕ
  pub in_cooldown : ℕ
  pub current_index : ℕ
  pub usage_stats : Dict Text UsageStatus

module _ ⦃u : Unicode⦄ where
  pub runtime_for_account : ℕ → Account → RuntimeState
  unfolding runtime_until
  runtime_for_account now a =
      if is_guest a
      then record { status = valid; remaining_tenths = negsuc 9; expires_at = none }
      else if is_blank a.token || leb_ℤ a.expires (pos 0)
      then record { status = invalid; remaining_tenths = negsuc 9; expires_at = none }
      else runtime_until now (pos_part a.expires)

  count_all : ℕ → List Account → AccountCounts → AccountCounts
  unfolding count_status
  count_all now [] c = c
  count_all now (a ∷ rest) c =
      count_all now rest (count_status (runtime_for_account now a).status c)

  -- The counts of BuildHealthStats.
  pub account_counts : ℕ → Pool → AccountCounts
  unfolding count_all runtime_for_account
  account_counts now p = count_all now p.accounts (record {
    total = length p.accounts;
    valid_count = 0;
    expiring_soon_count = 0;
    expired_count = 0;
    invalid_count = 0;
  })

  -- The Boolean `ok` of rotationStats.
  is_available : ℕ → Pool → Account → Bool
  unfolding has_access
  is_available now p a =
      let ok = has_access a in
      let used_at = get_or 0 a.email p.last_used in
      if ok
        && leb 3 (get_or 0 a.email p.failures)
        && not (eqb used_at 0)
        && ltb now (used_at + cooldown)
      then false
      else ok

  count_usage : ℕ → Pool → List Account → ℕ → Dict Text UsageStatus → ℕ × Dict Text UsageStatus
  unfolding is_available
  count_usage now p [] available usage = (available, usage)
  count_usage now p (a ∷ rest) available usage =
      count_usage now p rest (if is_available now p a then available + 1 else available) (
        put a.email
          (record {
            failures = get_or 0 a.email p.failures;
            last_used_milli = unix_milli (get_or 0 a.email p.last_used);
            available = is_available now p a;
          })
          usage)

  pub rotation_stats : ℕ → Pool → RotationStats
  unfolding count_usage
  rotation_stats now p =
      let (available, usage) = count_usage now p p.accounts 0 [] in
      record {
        total = length p.accounts;
        available = available;
        in_cooldown = length p.accounts - available;
        current_index = p.current_index;
        usage_stats = usage;
      }

  count_all_total :
      (now : ℕ) (xs : List Account) (c : AccountCounts)
      → (counted (count_all now xs c) ≡ length xs + counted c)
        × ((count_all now xs c).total ≡ c.total)
  unfolding count_all
  count_all_total now [] c = (omega arith, refl)
  count_all_total now (a ∷ xs) c =
      let status = (runtime_for_account now a).status in
      let (sum, total) = count_all_total now xs (count_status status c) in
      let (one, same) = count_status_total status c in (omega (arith, sum, one), total ∙ same)

  -- Every account is counted under exactly one status: the four counts add up to the total, which
  -- is the number of accounts.
  account_counts_total :
      (now : ℕ) (p : Pool)
      → (counted (account_counts now p) ≡ (account_counts now p).total)
        × ((account_counts now p).total ≡ length p.accounts)
  unfolding account_counts
  account_counts_total now p = ground (
    arith,
    count_all_total now p.accounts (record {
      total = length p.accounts;
      valid_count = 0;
      expiring_soon_count = 0;
      expired_count = 0;
      invalid_count = 0;
    }),
  )

  is_available-admits :
      (now : ℕ) (p : Pool) (a : Account)
      → is_available now p a ≡ admits now p.last_used p.failures a
  unfolding is_available admits
  is_available-admits now p a = ground arith

  count_usage-length :
      (now : ℕ) (p : Pool) (xs : List Account) (n : ℕ) (usage : Dict Text UsageStatus)
      → (count_usage now p xs n usage).0 ≡ n + length (keep (admits now p.last_used p.failures) xs)
  unfolding count_usage
  count_usage-length now p [] n usage = omega arith
  count_usage-length now p (a ∷ xs) n usage =
      count_usage-length now p xs _ _ ∙ rw (is_available-admits now p a) (ground arith)

  -- The statistics count as available exactly the accounts that a request made at that time would
  -- choose from, and all others as cooling down.
  rotation_stats-available_locked :
      (now : ℕ) (p : Pool)
      → let r = rotation_stats now p in
        (r.available ≡ length (available_locked now p).0)
        × (r.available + r.in_cooldown ≡ length p.accounts)
        × (r.total ≡ length p.accounts)
  unfolding rotation_stats
  rotation_stats-available_locked now p =
      let count = count_usage-length now p p.accounts 0 [] in
      let most = length-keep-le (admits now p.last_used p.failures) p.accounts in
      (count ∙ rw (available_locked-keep now p) (omega arith), omega (arith, count, most), refl)
