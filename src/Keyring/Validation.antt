-- ===== src/Keyring/Validation.antt =====
-- Which keys are accepted: internal/auth/apikey.go, normalizeKey and Validate.
use mathlib.Core.Bool.{false≢true}
use qwen2api_go.Prelude.{
  ℕ, ◌≡◌, ◌≢◌, refl, sym, ap, subst, All, drop, ◌∙◌, ◌↔◌, inl, inr, Bool, true, false, not, Option,
  none, some, List, [], ◌∷◌, ◌++◌, ◌&&◌, any, any-find, find, In, any_of-In, any_of-find-none,
  arith, Bool-cases, if◌then◌else◌,
}
use qwen2api_go.Text.{
  Text, Unicode, codes, text_beq, text_beq_iff, text_beq_refl, trim_space, trim_left, trim_right,
  is_space, trim_front, has_prefix, to_lower,
}
use qwen2api_go.Keyring.{Keyring, is_empty, normalize_key, rejected, accept, validate}

pub not_empty : (s : Text) → s ≢ [] → is_empty s ≡ false
not_empty s h = elim (Bool-cases (is_empty s)) [
  | inl e ↦ absurd (h ((text_beq_iff s []).0 e))
  | inr e ↦ e
]

module _ ⦃u : Unicode⦄ (k : Keyring) (provided : Text) where
  abbrev clean : Text
  clean = normalize_key provided

  -- The test that Validate makes of each candidate, over all of them.
  abbrev pub is_known : Bool
  is_known = any (text_beq clean) k.api_keys

  find_known :
      (clean : Text) (keys : List Text) (o : Option Text)
      → find (text_beq clean) keys ≡ o
      → accept k clean o ≡ (
          if any (text_beq clean) keys
          then record { is_valid = true; is_admin = text_beq clean k.admin_key; key = clean }
          else rejected)
  find_known clean keys none e = rw (any_of-find-none (text_beq clean) keys e)
  find_known clean keys (some key) e = rw (any-find (text_beq clean) keys key e)

  validate_lem : validate k provided ≡ (
      if not (is_empty clean) && is_known
      then record { is_valid = true; is_admin = text_beq clean k.admin_key; key = clean }
      else rejected)
  unfolding validate
  validate_lem = ground (arith, find_known clean k.api_keys (find (text_beq clean) k.api_keys) refl)

  any-In : (keys : List Text) → any (text_beq clean) keys ≡ true → In clean keys
  any-In [] h = false≢true h
  any-In (key ∷ keys) h = elim (Bool-cases (text_beq clean key)) [
    | inl e ↦ inl (sym ((text_beq_iff clean key).0 e))
    | inr e ↦ inr (any-In keys (ground arith))
  ]

  is_valid_lem : (validate k provided).is_valid ≡ (not (is_empty clean) && is_known)
  is_valid_lem = ground (arith, validate_lem)

  -- A key is valid exactly if, without the surrounding space and the word Bearer, it is not empty and
  -- stands in the keyring.
  pub validate_iff :
      ((validate k provided).is_valid ≡ true)
      ↔ ((normalize_key provided ≢ []) × In (normalize_key provided) k.api_keys)
  validate_iff = (
    λ h. (
      λ e. false≢true (ground (arith, h, is_valid_lem, (text_beq_iff clean []).1 e)),
      any-In k.api_keys (ground (arith, h, is_valid_lem)),
    ),
    λ m. ground (
      arith,
      is_valid_lem,
      not_empty clean m.0,
      any_of-In (text_beq clean) clean k.api_keys m.1 (text_beq_refl clean),
    ),
  )

  -- A valid key is the administrator's exactly if it is the administrator's key; what is not valid
  -- has no rights and no name.
  pub validate_rights : validate k provided ≡ (
      if (validate k provided).is_valid
      then record {
        is_valid = true;
        is_admin = text_beq (normalize_key provided) k.admin_key;
        key = normalize_key provided;
      }
      else rejected)
  validate_rights = ground (arith, validate_lem)

module _ (p : ℕ → Bool) where
  trim_right-cons : (c : ℕ) (s : Text) → trim_right p s ≡ s → s ≢ [] → trim_right p (c ∷ s) ≡ c ∷ s
  unfolding trim_right
  trim_right-cons c [] e ne = absurd (ne refl)
  trim_right-cons c (d ∷ s) e ne = ground arith

  trim_right-append : (s t : Text) → trim_right p t ≡ t → t ≢ [] → trim_right p (s ++ t) ≡ s ++ t
  trim_right-append [] t e ne = e
  trim_right-append (c ∷ []) t e ne = trim_right-cons c t e ne
  trim_right-append (c ∷ d ∷ s) t e ne =
      trim_right-cons c (d ∷ s ++ t) (trim_right-append (d ∷ s) t e ne) (λ h. cc)

  trim_right_idem : (s : Text) → trim_right p (trim_right p s) ≡ trim_right p s
  unfolding trim_right
  trim_right_idem [] = refl
  trim_right_idem (c ∷ s) = front (p c) (trim_right p s) refl (trim_right_idem s)
    where
      front :
          (b : Bool) (r : Text)
          → p c ≡ b
          → trim_right p r ≡ r
          → trim_right p (trim_front b c r) ≡ trim_front b c r
      front true [] e h = refl
      front true (d ∷ r) e h = ground arith
      front false r e h = ground arith

trim_right_of_trim_space : (s : Text) → trim_space s ≡ s → trim_right is_space s ≡ s
unfolding trim_space
trim_right_of_trim_space s e =
    ap (trim_right is_space) (sym e) ∙ trim_right_idem is_space (trim_left is_space s) ∙ e

module _ ⦃u : Unicode⦄ where
  trim_space-bearer :
      (key : Text)
      → trim_space key ≡ key
      → key ≢ []
      → trim_space (codes "Bearer " ++ key) ≡ codes "Bearer " ++ key
  unfolding trim_space trim_left is_space
  trim_space-bearer key trimmed ne =
      trim_right-append is_space (codes "Bearer ") key (trim_right_of_trim_space key trimmed) ne

  -- The word Bearer and a space in front of a key make no difference: what is left is the key, if it
  -- has no space at its ends and is not empty.
  normalize_key-bearer :
      (key : Text) → trim_space key ≡ key → key ≢ [] → normalize_key (codes "Bearer " ++ key) ≡ key
  unfolding normalize_key has_prefix
  normalize_key-bearer key trimmed ne = rw (trim_space-bearer key trimmed ne) trimmed

append_nil : (s : Text) → s ++ [] ≡ s
append_nil [] = refl
append_nil (c ∷ s) = ap (λ t. c ∷ t) (append_nil s)

abbrev pub AreSpaces : Text → Type 0
AreSpaces s = All (λ c. is_space c ≡ true) s

trim_left-spaces :
    (pre s : Text) → AreSpaces pre → trim_left is_space (pre ++ s) ≡ trim_left is_space s
unfolding trim_left
trim_left-spaces [] s h = refl
trim_left-spaces (c ∷ pre) s (h, hs) = rw h (trim_left-spaces pre s hs)

trim_right_spaces : (post : Text) → AreSpaces post → trim_right is_space post ≡ []
unfolding trim_right
trim_right_spaces [] h = refl
trim_right_spaces (c ∷ post) (h, hs) = rw (h, trim_right_spaces post hs) refl

trim_right-spaces :
    (s post : Text) → AreSpaces post → trim_right is_space (s ++ post) ≡ trim_right is_space s
unfolding trim_right
trim_right-spaces [] post h = trim_right_spaces post h
trim_right-spaces (c ∷ s) post h = ap (trim_front (is_space c) c) (trim_right-spaces s post h)

trim_space-behind : (s post : Text) → AreSpaces post → trim_space (s ++ post) ≡ trim_space s
unfolding trim_space trim_left trim_right
trim_space-behind [] post h =
    ap (λ t. trim_right is_space (trim_left is_space t)) (sym (append_nil post))
    ∙ ap (trim_right is_space) (trim_left-spaces post [] h)
trim_space-behind (c ∷ s) post h = elim (Bool-cases (is_space c)) [
  | inl e ↦ rw e (trim_space-behind s post h)
  | inr e ↦ rw e (ap (trim_front (is_space c) c) (trim_right-spaces s post h))
]

-- Space around a text does not change what strings.TrimSpace makes of it.
trim_space-between :
    (pre s post : Text)
    → AreSpaces pre
    → AreSpaces post
    → trim_space (pre ++ (s ++ post)) ≡ trim_space s
unfolding trim_space
trim_space-between pre s post h h' =
    ap (trim_right is_space) (trim_left-spaces pre (s ++ post) h) ∙ trim_space-behind s post h'

module _ ⦃u : Unicode⦄ where
  normalize_key-between :
      (pre s post : Text)
      → AreSpaces pre
      → AreSpaces post
      → normalize_key (pre ++ (s ++ post)) ≡ normalize_key s
  unfolding normalize_key
  normalize_key-between pre s post h h' =
      ap (λ t. if has_prefix (codes "bearer ") (to_lower t) then trim_space (drop 7 t) else t)
        (trim_space-between pre s post h h')

  normalize_key_plain :
      (key : Text)
      → trim_space key ≡ key
      → has_prefix (codes "bearer ") (to_lower key) ≡ false
      → normalize_key key ≡ key
  unfolding normalize_key
  normalize_key_plain key trimmed plain = rw trimmed (rw plain refl)

  valid_as :
      (k : Keyring) (provided key : Text)
      → key ≢ []
      → normalize_key provided ≡ key
      → ((validate k provided).is_valid ≡ true) ↔ In key k.api_keys
  valid_as k provided key ne same = (
    λ h. subst (λ t. In t k.api_keys) same ((validate_iff k provided).0 h).1,
    λ there.
        (validate_iff k provided).1
          (subst (λ t. (t ≢ []) × In t k.api_keys) (sym same) (ne, there)),
  )

  -- A key that is not empty, has no space at its ends and does not begin with the word bearer is valid
  -- exactly if it stands in the keyring, whatever space is around it, and just so with the word Bearer
  -- and a space in front of it.
  pub validate_padded :
      (k : Keyring) (pre key post : Text)
      → AreSpaces pre
      → AreSpaces post
      → trim_space key ≡ key
      → key ≢ []
      → has_prefix (codes "bearer ") (to_lower key) ≡ false
      → (((validate k (pre ++ (key ++ post))).is_valid ≡ true) ↔ In key k.api_keys)
        × (((validate k (pre ++ ((codes "Bearer " ++ key) ++ post))).is_valid ≡ true)
            ↔ In key k.api_keys)
  validate_padded k pre key post h h' trimmed ne plain = (
    valid_as k (pre ++ (key ++ post)) key ne
        (normalize_key-between pre key post h h' ∙ normalize_key_plain key trimmed plain),
    valid_as k (pre ++ ((codes "Bearer " ++ key) ++ post)) key ne (
        normalize_key-between pre (codes "Bearer " ++ key) post h h'
        ∙ normalize_key-bearer key trimmed ne),
  )
