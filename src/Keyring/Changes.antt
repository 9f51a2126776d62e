-- ===== src/Keyring/Changes.antt =====
-- Adding and deleting regular keys: internal/auth/apikey.go, AddRegularKey and DeleteRegularKey.
use mathlib.Core.Bool.{false≢true}
use qwen2api_go.Prelude.{
  ◌≡◌, ◌≢◌, refl, sym, ap, subst, ◌∙◌, inl, inr, Bool, true, false, Option, none, List, [], ◌∷◌,
  ◌++◌, any, ap₂, ◌||◌, remove_first, remove_first-append, In, In-append_left, In-append_last,
  In-append_right, any_of-In, arith, Bool-cases, if-cases,
}
use qwen2api_go.Text.{Text, Unicode, text_beq, text_beq_iff, text_beq_refl}
use qwen2api_go.Keyring.{
  Keyring, KeyError, is_empty, normalize_key, validate, add_regular_key, delete_regular_key,
}
use qwen2api_go.Keyring.Validation.{validate_iff, validate_rights, not_empty}

pub data Change : Type 0 where
  adds deletes : Text → Change

abbrev pub is_key : Text → Text → Bool
is_key clean existing = text_beq existing clean

-- No key stands twice in the list.
abbrev pub Unique : List Text → Type 0
Unique [] = Unit
Unique (key ∷ keys) = (any (is_key key) keys ≡ false) × Unique keys

module _ ⦃u : Unicode⦄ where
  pub change : Keyring → Change → Keyring
  change k (adds key) = (add_regular_key key k).0
  change k (deletes key) = (delete_regular_key key k).0

  pub change_all : Keyring → List Change → Keyring
  unfolding change
  change_all k [] = k
  change_all k (c ∷ changes) = change_all (change k c) changes

  -- The administrator's key is not empty, as it stands, and is in the keyring.
  pub record HasAdmin (k : Keyring) : Type 0 where
    pub listed : In k.admin_key k.api_keys
    pub normal : normalize_key k.admin_key ≡ k.admin_key
    pub not_blank : k.admin_key ≢ []

  -- Cutting another key out leaves a key in the list.
  In-remove_first :
      (key clean : Text) (keys : List Text)
      → text_beq clean key ≡ false
      → In key keys
      → In key (remove_first (is_key clean) keys)
  In-remove_first key clean [] other m = absurd m
  In-remove_first key clean (x ∷ keys) other (inl e) =
      if-cases (In key) (text_beq x clean) keys (x ∷ remove_first (is_key clean) keys)
        (λ same.
          absurd
            (false≢true (sym other ∙ ground (arith, text_beq_iff x clean, text_beq_iff clean key))))
        (λ _. inl e)
  In-remove_first key clean (x ∷ keys) other (inr m) =
      if-cases (In key) (text_beq x clean) keys (x ∷ remove_first (is_key clean) keys) (λ _. m)
        (λ _. inr (In-remove_first key clean keys other m))

  Same : Keyring → Keyring → Type 0
  Same k q = (q.admin_key ≡ k.admin_key) × In k.admin_key q.api_keys

  add-Same :
      (key : Text) (k : Keyring) → In k.admin_key k.api_keys → Same k (add_regular_key key k).0
  unfolding add_regular_key Same
  add-Same key k m =
      if-cases (λ (r : Keyring × Option KeyError). Same k r.0) (is_empty (normalize_key key)) _ _
        (λ _. (refl, m))
        (λ _.
          if-cases (λ (r : Keyring × Option KeyError). Same k r.0)
            (any (is_key (normalize_key key)) k.api_keys) _ _ (λ _. (refl, m))
            (λ _. (refl, In-append_left k.admin_key k.api_keys _ m)))

  delete-Same :
      (key : Text) (k : Keyring) → In k.admin_key k.api_keys → Same k (delete_regular_key key k).0
  unfolding delete_regular_key Same
  delete-Same key k m =
      if-cases Here (is_empty (normalize_key key)) _ _ (λ _. (refl, m))
        (λ _.
          if-cases Here (text_beq (normalize_key key) k.admin_key) _ _ (λ _. (refl, m))
            (λ other.
              if-cases Here (any (is_key (normalize_key key)) k.api_keys) _ _
                (λ _. (refl, In-remove_first k.admin_key (normalize_key key) k.api_keys other m))
                (λ _. (refl, m))))
    where
      Here : Keyring × Option KeyError → Type 0
      Here r = (r.0.admin_key ≡ k.admin_key) × In k.admin_key r.0.api_keys

  HasAdmin-Same : (k q : Keyring) → HasAdmin k → Same k q → HasAdmin q × (q.admin_key ≡ k.admin_key)
  unfolding Same
  HasAdmin-Same k q v (same, m) = (
    record {
      listed = subst (λ a. In a q.api_keys) (sym same) m;
      normal = subst (λ a. normalize_key a ≡ a) (sym same) v.normal;
      not_blank = subst (λ a. a ≢ []) (sym same) v.not_blank;
    },
    same,
  )

  change_all-HasAdmin :
      (changes : List Change) (k : Keyring)
      → HasAdmin k
      → HasAdmin (change_all k changes) × ((change_all k changes).admin_key ≡ k.admin_key)
  unfolding change_all
  change_all-HasAdmin [] k v = (v, refl)
  change_all-HasAdmin (adds key ∷ changes) k v =
      let (v', same) = HasAdmin-Same k _ v (add-Same key k v.listed) in
      let (w, same') = change_all-HasAdmin changes _ v' in (w, same' ∙ same)
  change_all-HasAdmin (deletes key ∷ changes) k v =
      let (v', same) = HasAdmin-Same k _ v (delete-Same key k v.listed) in
      let (w, same') = change_all-HasAdmin changes _ v' in (w, same' ∙ same)

  valid-rights :
      (k : Keyring) (provided : Text)
      → (validate k provided).is_valid ≡ true
      → validate k provided ≡ record {
        is_valid = true;
        is_admin = text_beq (normalize_key provided) k.admin_key;
        key = normalize_key provided;
      }
  valid-rights k provided valid = validate_rights k provided ∙ rw valid

  -- If the key of the administrator is in the keyring, is not empty and is as it stands after
  -- normalisation, no sequence of additions and deletions, whatever it tries, takes its rights away:
  -- it stays valid, and stays the key of the administrator.
  pub validate-change_all_admin :
      (changes : List Change) (k : Keyring)
      → HasAdmin k
      → validate (change_all k changes) k.admin_key
        ≡ record { is_valid = true; is_admin = true; key = k.admin_key }
  validate-change_all_admin changes k v =
      let (w, same) = change_all-HasAdmin changes k v in
      let q = change_all k changes in
      let valid = (validate_iff q k.admin_key).1 (
        λ e. v.not_blank (sym v.normal ∙ e),
        subst (λ a. In a q.api_keys) (same ∙ sym v.normal) w.listed,
      ) in
      ground (arith, valid-rights q k.admin_key valid, v.normal, same, text_beq_refl k.admin_key)

  add_opens :
      (key : Text) (k : Keyring)
      → (add_regular_key key k).1 ≡ none
      → (normalize_key key ≢ [])
        × (any (is_key (normalize_key key)) k.api_keys ≡ false)
        × ((add_regular_key key k).0 ≡ record k { api_keys = k.api_keys ++ normalize_key key ∷ [] })
  unfolding add_regular_key
  add_opens key k done = ground (arith, text_beq_iff (normalize_key key) [], done)

  delete_opens :
      (key : Text) (k : Keyring)
      → (delete_regular_key key k).1 ≡ none
      → (any (is_key (normalize_key key)) k.api_keys ≡ true)
        × ((delete_regular_key key k).0
            ≡ record k { api_keys = remove_first (is_key (normalize_key key)) k.api_keys })
  unfolding delete_regular_key
  delete_opens key k done = ground arith

  delete_runs :
      (key : Text) (k : Keyring)
      → is_empty (normalize_key key) ≡ false
      → text_beq (normalize_key key) k.admin_key ≡ false
      → any (is_key (normalize_key key)) k.api_keys ≡ true
      → delete_regular_key key k
        ≡ (record k { api_keys = remove_first (is_key (normalize_key key)) k.api_keys }, none)
  unfolding delete_regular_key
  delete_runs key k e other known = ground arith

  not-any_of_Unique :
      (clean : Text) (keys : List Text)
      → Unique keys
      → any (is_key clean) (remove_first (is_key clean) keys) ≡ false
  not-any_of_Unique clean [] unique = refl
  not-any_of_Unique clean (x ∷ keys) unique = elim (Bool-cases (is_key clean x)) [
    | inl e ↦ rw e (subst (λ y. any (is_key y) keys ≡ false) ((text_beq_iff x clean).0 e) unique.0)
    | inr e ↦ rw e (ap₂ ◌||◌ e (not-any_of_Unique clean keys unique.1))
  ]

  -- A key that has been deleted is no longer accepted, if no key stood twice in the keyring.
  validate-delete_regular_key :
      (key : Text) (k : Keyring)
      → Unique k.api_keys
      → (delete_regular_key key k).1 ≡ none
      → (validate (delete_regular_key key k).0 key).is_valid ≡ false
  validate-delete_regular_key key k unique done = elim (Bool-cases (validate q key).is_valid) [
    | inl valid ↦ cc (gone (((validate_iff q key).0 valid).1))
    | inr e ↦ e
  ]
    where
      q : Keyring
      q = (delete_regular_key key k).0

      gone : In (normalize_key key) q.api_keys → false ≡ true
      gone m =
          sym (not-any_of_Unique (normalize_key key) k.api_keys unique)
          ∙ any_of-In (is_key (normalize_key key)) (normalize_key key) _
              (subst (λ (r : Keyring). In (normalize_key key) r.api_keys)
                (delete_opens key k done).1 m)
              (text_beq_refl (normalize_key key))

  In-remove_first_twice :
      (clean : Text) (keys rest : List Text)
      → any (is_key clean) keys ≡ true
      → In clean (remove_first (is_key clean) (keys ++ clean ∷ rest))
  In-remove_first_twice clean [] rest h = cc
  In-remove_first_twice clean (x ∷ keys) rest h =
      if-cases (In clean) (is_key clean x) (keys ++ clean ∷ rest)
        (x ∷ remove_first (is_key clean) (keys ++ clean ∷ rest))
        (λ _. In-append_right clean keys (clean ∷ rest) (inl refl))
        (λ e. inr (In-remove_first_twice clean keys rest (ground arith)))

  -- A key that stands twice in the keyring is still accepted after it has been deleted.
  pub validate-delete_regular_key_twice :
      (key : Text) (k : Keyring) (before between after : List Text)
      → k.api_keys ≡ before ++ normalize_key key ∷ between ++ normalize_key key ∷ after
      → normalize_key key ≢ []
      → (delete_regular_key key k).1 ≡ none
      → (validate (delete_regular_key key k).0 key).is_valid ≡ true
  validate-delete_regular_key_twice key k before between after listed ne done =
      (validate_iff (delete_regular_key key k).0 key).1 (
        ne,
        subst (λ (r : Keyring). In (normalize_key key) r.api_keys) (sym (delete_opens key k done).1)
            (subst (λ keys. In (normalize_key key) (remove_first (is_key (normalize_key key)) keys))
              (sym listed)
              (In-remove_first_twice (normalize_key key) (before ++ normalize_key key ∷ between)
                after
                (any_of-In (is_key (normalize_key key)) (normalize_key key) _
                  (In-append_right (normalize_key key) before _ (inl refl))
                  (text_beq_refl (normalize_key key))))),
      )

  -- Adding a key and deleting it again gives the keyring of before, if it is not the administrator's.
  delete-add_regular_key :
      (key : Text) (k : Keyring)
      → (add_regular_key key k).1 ≡ none
      → text_beq (normalize_key key) k.admin_key ≡ false
      → delete_regular_key key (add_regular_key key k).0 ≡ (k, none)
  delete-add_regular_key key k done other =
      let (ne, fresh, e) = add_opens key k done in
      ap (delete_regular_key key) e
      ∙ delete_runs key (record k { api_keys = k.api_keys ++ normalize_key key ∷ [] })
          (not_empty (normalize_key key) ne) other
          (any_of-In (is_key (normalize_key key)) (normalize_key key) _
            (In-append_last (normalize_key key) k.api_keys) (text_beq_refl (normalize_key key)))
      ∙ ap (λ keys. (record k { api_keys = keys }, none))
          (remove_first-append (is_key (normalize_key key)) k.api_keys (normalize_key key) fresh
            (text_beq_refl (normalize_key key)))
