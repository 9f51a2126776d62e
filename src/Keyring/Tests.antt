-- ===== src/Keyring/Tests.antt =====
-- The theorems on the API keys at concrete keyrings.
use qwen2api_go.Prelude.{◌≡◌, ◌↔◌, refl, inl, true, [], ◌∷◌, In}
use qwen2api_go.Text.{codes, text_beq, trim_space, trim_left, trim_right, is_space, has_prefix}
use qwen2api_go.Fixtures.{ascii_unicode}
use qwen2api_go.Keyring.{
  Keyring, new_keyring, clean_keys, extract_api_key, normalize_key, validate, delete_regular_key,
  snapshot,
}
use qwen2api_go.Keyring.Validation.{validate_padded}
use qwen2api_go.Keyring.Changes.{
  deletes, change_all, validate-change_all_admin, validate-delete_regular_key_twice,
}

abbrev two_keys : Keyring
two_keys = record { admin_key = codes "adm"; api_keys = codes "adm" ∷ codes "k" ∷ [] }

abbrev twice : Keyring
twice = record { admin_key = codes "adm"; api_keys = codes "adm" ∷ codes "k" ∷ codes "k" ∷ [] }

-- A key is cleaned of space and of the word bearer in any case of letters.
normalized : normalize_key (codes "  bEaReR  k ") ≡ codes "k"
unfolding normalize_key has_prefix trim_space trim_left trim_right is_space
normalized = refl

snapshot_regular : (snapshot two_keys).regular_keys ≡ codes "k" ∷ []
unfolding snapshot text_beq
snapshot_regular = refl

validate_padded_example :
    (((validate two_keys (codes "  k ")).is_valid ≡ true) ↔ In (codes "k") two_keys.api_keys)
    × (((validate two_keys (codes "  Bearer k ")).is_valid ≡ true)
        ↔ In (codes "k") two_keys.api_keys)
unfolding trim_space trim_left trim_right is_space has_prefix
validate_padded_example =
    validate_padded two_keys (codes "  ") (codes "k") (codes " ") (refl, (refl, tt)) (refl, tt) refl
      (λ (e : codes "k" ≡ []). cc) refl

validate-change_all_admin_example :
    validate (change_all two_keys (deletes (codes "adm") ∷ deletes (codes "k") ∷ [])) (codes "adm")
    ≡ record { is_valid = true; is_admin = true; key = codes "adm" }
unfolding normalize_key has_prefix trim_space trim_left trim_right is_space
validate-change_all_admin_example =
    validate-change_all_admin (deletes (codes "adm") ∷ deletes (codes "k") ∷ []) two_keys
      (record { listed = inl refl; normal = refl; not_blank = λ (e : codes "adm" ≡ []). cc })

validate-delete_regular_key_twice_example :
    (validate (delete_regular_key (codes "k") twice).0 (codes "k")).is_valid ≡ true
unfolding delete_regular_key normalize_key has_prefix trim_space trim_left trim_right is_space
    text_beq
validate-delete_regular_key_twice_example =
    validate-delete_regular_key_twice (codes "k") twice (codes "adm" ∷ []) [] [] refl
      (λ (e : codes "k" ≡ []). cc) refl

-- Blank keys are dropped, and the first key that is left is the administrator's.
first_is_admin : new_keyring (codes " " ∷ codes " adm " ∷ codes "k" ∷ []) [] ≡ two_keys
unfolding new_keyring clean_keys trim_space trim_left trim_right is_space text_beq
first_is_admin = refl

-- The header x-api-key comes before the header Authorization.
x_api_key_first :
    extract_api_key
      (record { x_api_key = codes "k"; authorization = codes "Bearer adm"; query_api_key = [] })
    ≡ codes "k"
unfolding extract_api_key text_beq
x_api_key_first = refl
