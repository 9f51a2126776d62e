-- ===== src/Keyring.antt =====
-- internal/auth/apikey.go and errors.go: the API keys. The first key is the administrator's.
pub mod Validation
pub mod Changes
mod Tests
use qwen2api_go.Prelude.{
  ℕ, Bool, true, false, not, ◌&&◌, Option, none, some, List, [], ◌∷◌, ◌++◌, any, keep, find, drop,
  remove_first, if◌then◌else◌,
}
use qwen2api_go.Text.{Text, Unicode, codes, text_beq, trim_space, has_prefix, to_lower}

pub record Keyring : Type 0 where
  pub admin_key : Text
  pub api_keys : List Text

pub record ValidationResult : Type 0 where
  pub is_valid : Bool
  pub is_admin : Bool
  pub key : Text

pub record KeyringSnapshot : Type 0 where
  pub admin_key : Text
  pub api_keys : List Text
  pub regular_keys : List Text

pub data KeyError : Type 0 where
  invalid_api_key api_key_exists api_key_not_found delete_admin_key : KeyError

abbrev pub is_empty : Text → Bool
is_empty s = text_beq s []

-- The keys that NewKeyring keeps: trimmed, and not empty.
clean_keys : List Text → List Text
clean_keys [] = []
clean_keys (key ∷ rest) =
    let others = clean_keys rest in
    if is_empty (trim_space key) then others else trim_space key ∷ others

abbrev first_or : Text → List Text → Text
first_or default [] = default
first_or default (key ∷ rest) = key

pub new_keyring : List Text → Text → Keyring
unfolding clean_keys
new_keyring api_keys admin_key =
    let keys = clean_keys api_keys in
    record {
      admin_key = if is_empty admin_key then first_or admin_key keys else admin_key;
      api_keys = keys;
    }

-- The values of the headers x-api-key and Authorization and of the query parameter apiKey, empty if
-- they are not there.
pub record Request : Type 0 where
  pub x_api_key : Text
  pub authorization : Text
  pub query_api_key : Text

pub extract_api_key : Request → Text
extract_api_key r =
    if not (is_empty r.x_api_key)
    then r.x_api_key
    else if not (is_empty r.authorization)
    then r.authorization
    else if not (is_empty r.query_api_key)
    then r.query_api_key
    else []

module _ ⦃u : Unicode⦄ where
  -- The slice `clean[7:]` counts bytes: a text that begins with "bearer " in lower case begins with
  -- seven ASCII characters, since no other letter of Unicode has its lower case among b, e, a and r.
  pub normalize_key : Text → Text
  normalize_key raw =
      let clean = trim_space raw in
      if has_prefix (codes "bearer ") (to_lower clean) then trim_space (drop 7 clean) else clean

  abbrev pub rejected : ValidationResult
  rejected = record { is_valid = false; is_admin = false; key = [] }

  abbrev accept : Keyring → Text → Option Text → ValidationResult
  accept k clean none = rejected
  accept k clean (some candidate) = record {
    is_valid = true;
    is_admin = text_beq clean k.admin_key;
    key = clean;
  }

  pub validate : Keyring → Text → ValidationResult
  validate k provided =
      let clean = normalize_key provided in
      if is_empty clean then rejected else accept k clean (find (text_beq clean) k.api_keys)

  pub add_regular_key : Text → Keyring → Keyring × Option KeyError
  add_regular_key key k =
      let clean = normalize_key key in
      if is_empty clean
      then (k, some invalid_api_key)
      else if any (λ existing. text_beq existing clean) k.api_keys
      then (k, some api_key_exists)
      else (record k { api_keys = k.api_keys ++ clean ∷ [] }, none)

  pub delete_regular_key : Text → Keyring → Keyring × Option KeyError
  delete_regular_key key k =
      let clean = normalize_key key in
      if is_empty clean
      then (k, some invalid_api_key)
      else if text_beq clean k.admin_key
      then (k, some delete_admin_key)
      else if any (λ existing. text_beq existing clean) k.api_keys
      then (
        record k { api_keys = remove_first (λ existing. text_beq existing clean) k.api_keys },
        none,
      )
      else (k, some api_key_not_found)

pub snapshot : Keyring → KeyringSnapshot
snapshot k = record {
  admin_key = k.admin_key;
  api_keys = k.api_keys;
  regular_keys = keep (λ key. not (text_beq key k.admin_key)) k.api_keys;
}
