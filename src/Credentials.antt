-- ===== src/Credentials.antt =====
-- internal/account/service.go: tokens and logins. What the upstream answers is an argument of each
-- call; what the service computes by packages outside the repository is the record `Backend`.
use qwen2api_go.Prelude.{
  ℕ, ◌+◌, ◌-◌, ◌*◌, ◌/◌, Bool, Option, none, some, List, ◌∷◌, ltb, leb, min, if◌then◌else◌,
}
use qwen2api_go.Prelude.Int.{ℤ, pos, negsuc, leb_ℤ, pos_part, sub_ℕ}
use qwen2api_go.Clock.{second, hour, unix_epoch, max_duration, at_unix}
use qwen2api_go.Text.{Text, codes, split}
use qwen2api_go.Storage.{AccountStore, Error, Result, ok, err}

infixl 5 ◌>>=◌
abbrev ◌>>=◌ : {A B : Type 0} → Option A → (A → Option B) → Option B
none >>= f = none
some a >>= f = f a

-- The answers of the upstream during one call: SignIn with an email and a password hash, and
-- RefreshGuestCookieHeader.
pub record Remote : Type 0 where
  pub sign_in : Text → Text → Result Text
  pub refresh_guest : Option Error

-- The store, and what the service computes by packages outside the repository: the hexadecimal
-- SHA-256 of a password, and the field `exp` of a token's payload, read by base64 and JSON decoding.
pub record Backend (S : Type 0) : Type 0 where
  pub store : AccountStore S
  pub open store use *
  pub password_hash : Text → Text
  pub payload_exp : Text → Option ℤ

abbrev pub err_bad_token : Error
err_bad_token = codes "token 无效"

abbrev payload_part : List Text → Option Text
payload_part (header ∷ payload ∷ rest) = some payload
payload_part _ = none

-- remainingHours, in tenths of an hour, rounded towards zero as the conversion to int does.
unfoldable pub remaining_tenths : ℕ → ℤ → ℤ
remaining_tenths now expires =
    let at = at_unix (pos_part expires) in
    if leb_ℤ expires (pos 0)
    then negsuc 9
    else if leb at now
    then sub_ℕ 0 (min (now - at) max_duration * 10 / hour)
    else pos (min (at - now) max_duration * 10 / hour)

-- The threshold of RefreshAllAccounts, 24 hours unless it is positive, in tenths.
unfoldable pub threshold_tenths : ℤ → ℤ
threshold_tenths hours = if leb_ℤ hours (pos 0) then pos 240 else pos (pos_part hours * 10)

module _ {S : Type 0} (b : Backend S) where
  -- Whether the token is still valid, and when it expires; `none` if it cannot be read.
  unfoldable pub decode_jwt_expiry : ℕ → Text → Option (Bool × ℤ)
  decode_jwt_expiry now token = do
    payload ← payload_part (split b'.' token)
    expires ← b.payload_exp payload
    if leb_ℤ expires (pos 0)
        then none
        else some (ltb (now / second) (pos_part expires + unix_epoch), expires)

  unfoldable pub decode_expiry : ℕ → Text → Result ℤ
  unfolding decode_jwt_expiry
  decode_expiry now token = elim (decode_jwt_expiry now token) [
    | none ↦ err err_bad_token
    | some (valid, expires) ↦ ok expires
  ]

  unfoldable pub login : Remote → Text → Text → Result Text
  login remote email password = remote.sign_in email (b.password_hash password)

  -- A token from a fresh login, with the time at which it expires.
  unfoldable pub login_with_expiry : Remote → ℕ → Text → Text → Result (Text × ℤ)
  unfolding login decode_expiry
  login_with_expiry remote now email password = elim (login remote email password) [
    | err e ↦ err e
    | ok token ↦ elim (decode_expiry now token) [ err e ↦ err e | ok expires ↦ ok (token, expires) ]
  ]
