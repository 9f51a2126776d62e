-- ===== src/Sessions/Changes.antt =====
-- What a delete and a save do to the sessions: internal/openai/conversation_sessions.go.
use qwen2api_go.Prelude.{
  ◌≡◌, refl, sym, ap, subst, ◌∙◌, ◌↔◌, inl, inr, Bool, true, false, ◌&&◌, ◌||◌, Option, none, some,
  List, [], ◌∷◌, any, keep, map, In, All, All_of, Bool-cases, if-cases, if◌then◌else◌, arith,
}
use qwen2api_go.Text.{
  Text, Unicode, text_eq, text_beq, text_beq_iff, trim_space, trim_space-trim_space, is_blank,
  distinct, distinct_from,
}
use qwen2api_go.Storage.{ConversationSession, ConversationStore, ok}
use qwen2api_go.Sessions.Aliases.{same_conversation_session}
use qwen2api_go.Sessions.Service.{delete_hashes, aliases_of, aliases_found, listed_aliases, delete}
use qwen2api_go.Sessions.Spec.{
  Sessions, IsKeyed, IsListing, keep_unless, without, without_chat, spec_delete,
}
use qwen2api_go.Sessions.Refinement.{ready_same, is_taken, taken-keep_unless}

-- What is left at a hash once those of a list are gone.
abbrev without_all : List Text → Sessions → Sessions
without_all gone f hash = if any (λ g. text_beq g hash) gone then none else f hash

-- A text that is equal to one that is seen is seen.
seen_equal :
    (x hash : Text) (seen : List Text)
    → any (text_beq x) seen ≡ true
    → text_beq x hash ≡ true
    → any (λ g. text_beq g hash) seen ≡ true
seen_equal x hash [] h e = cc
seen_equal x hash (y ∷ ys) h e =
    ground (arith, text_beq_iff x y, text_beq_iff x hash, text_beq_iff y hash, seen_equal x hash ys)

any-distinct_from :
    (hash : Text) (xs seen : List Text)
    → any (λ g. text_beq g hash) seen ≡ false
    → any (λ g. text_beq g hash) (distinct_from seen xs) ≡ any (λ g. text_beq g hash) xs
unfolding distinct_from
any-distinct_from hash [] seen h = refl
any-distinct_from hash (x ∷ xs) seen h =
    if-cases (λ ys. any (λ g. text_beq g hash) ys ≡ any (λ g. text_beq g hash) (x ∷ xs))
      (any (text_beq x) seen) _ _
      (λ e. ground (arith, any-distinct_from hash xs seen h, seen_equal x hash seen e))
      (λ e. ground (arith, any-distinct_from hash xs (x ∷ seen)))

distinct_from-All :
    (P : Text → Type 0) (xs seen : List Text) → All P xs → All P (distinct_from seen xs)
unfolding distinct_from
distinct_from-All P [] seen h = tt
distinct_from-All P (x ∷ xs) seen (h, hs) =
    if-cases (All P) (any (text_beq x) seen) _ _ (λ e. distinct_from-All P xs seen hs)
      (λ e. (h, distinct_from-All P xs (x ∷ seen) hs))

module _ {S : Type 0} (store : ConversationStore S) (Ready : Sessions → S → Type 0)
    (promise : IsListing store Ready) where
  delete_hashes-Ready :
      (hashes : List Text) (f : Sessions) (s : S)
      → Ready f s
      → All (λ hash. trim_space hash ≡ hash) hashes
      → Ready (without_all hashes f) (delete_hashes store hashes s)
  delete_hashes-Ready [] f s ready trimmed = ready
  delete_hashes-Ready (x ∷ xs) f s ready (trimmed, all_trimmed) =
      ready_same store Ready promise (without_all xs (without (trim_space x) f)) _ _
        (λ hash. rw trimmed (ground arith))
        (delete_hashes-Ready xs _ _ (promise.deleted f s x ready) all_trimmed)

  delete_distinct-Ready :
      (hashes : List Text) (f : Sessions) (s : S)
      → Ready f s
      → All (λ hash. trim_space hash ≡ hash) hashes
      → Ready (without_all hashes f) (delete_hashes store (distinct hashes) s)
  unfolding distinct
  delete_distinct-Ready hashes f s ready trimmed =
      ready_same store Ready promise (without_all (distinct hashes) f) _ _
        (λ hash.
          ap (λ (b : Bool). if b then none else f hash) (any-distinct_from hash hashes [] refl))
        (delete_hashes-Ready (distinct hashes) f s ready (distinct_from-All _ hashes [] trimmed))

any-aliases :
    (p : ConversationSession → Bool) (hash : Text) (sessions : List ConversationSession)
    → any
        (λ g. text_beq g hash)
        (map (λ (c : ConversationSession). c.context_hash) (keep p sessions))
      ≡ is_taken p sessions hash
any-aliases p hash [] = refl
any-aliases p hash (x ∷ xs) =
    if-cases
      (λ ys.
        any (λ g. text_beq g hash) (map (λ (c : ConversationSession). c.context_hash) ys)
        ≡ (p x && text_beq x.context_hash hash || is_taken p xs hash))
      (p x) _ _ (λ e. rw (e, any-aliases p hash xs) refl) (λ e. rw (e, any-aliases p hash xs) refl)

aliases-All :
    (P : Text → Type 0) (p : ConversationSession → Bool) (sessions : List ConversationSession)
    → All (λ (x : ConversationSession). P x.context_hash) sessions
    → All P (map (λ (c : ConversationSession). c.context_hash) (keep p sessions))
aliases-All P p [] h = tt
aliases-All P p (x ∷ xs) (h, hs) =
    if-cases (λ ys. All P (map (λ (c : ConversationSession). c.context_hash) ys)) (p x) _ _
      (λ e. (h, aliases-All P p xs hs)) (λ e. aliases-All P p xs hs)

module _ {S : Type 0} (store : ConversationStore S) (Ready : Sessions → S → Type 0)
    (promise : IsListing store Ready) ⦃u : Unicode⦄ where
  -- The store after the hash and the aliases that were found are deleted.
  abbrev delete_found : Text → S × List Text → S
  delete_found hash r = delete_hashes store (distinct (hash ∷ r.1)) r.0

  left_over :
      (hash : Text) (x : ConversationSession) (f : Sessions) (sessions : List ConversationSession)
      → IsKeyed f
      → ((y : ConversationSession) → In y sessions ↔ (f y.context_hash ≡ some y))
      → (other : Text)
      → without_all (hash ∷ aliases_of store x sessions) f other
        ≡ without hash (λ h. keep_unless (same_conversation_session x) (f h)) other
  left_over hash x f sessions keyed lists other = ground (
    arith,
    any-aliases (same_conversation_session x) other sessions,
    taken-keep_unless store Ready promise (same_conversation_session x) f sessions keyed lists
        other,
  )

  delete_aliases-Ready :
      (hash : Text) (x : ConversationSession) (f : Sessions) (s : S)
      → IsKeyed f
      → trim_space hash ≡ hash
      → Ready f s
      → Ready
          (without hash (λ h. keep_unless (same_conversation_session x) (f h)))
          (delete_found hash (listed_aliases store x (store.list_conversation_sessions s)))
  delete_aliases-Ready hash x f s keyed trimmed ready =
      let (sessions, e, lists) = promise.listed f s ready in
      subst
        (λ r.
          Ready (without hash (λ h. keep_unless (same_conversation_session x) (f h)))
            (delete_found hash (listed_aliases store x r)))
        (sym e)
        (ready_same store Ready promise _ _ _ (left_over hash x f sessions keyed lists) (
          delete_distinct-Ready store Ready promise (hash ∷ aliases_of store x sessions) f s ready (
            trimmed,
            aliases-All (λ h. trim_space h ≡ h) (same_conversation_session x) sessions
                (All_of _ sessions (λ y member. (keyed y.context_hash y ((lists y).0 member)).1)),
          )))

  delete_found-Ready :
      (hash : Text) (f : Sessions) (s : S)
      → IsKeyed f
      → trim_space hash ≡ hash
      → Ready f s
      → (o : Option ConversationSession)
      → Ready (without_chat hash o f) (delete_found hash (aliases_found store (s, ok o)))
  delete_found-Ready hash f s keyed trimmed ready none =
      ready_same store Ready promise _ _ _ (λ other. ground arith)
        (delete_distinct-Ready store Ready promise (hash ∷ []) f s ready (trimmed, tt))
  delete_found-Ready hash f s keyed trimmed ready (some x) =
      elim (Bool-cases (is_blank x.chat_id)) [
        | inl e ↦ rw e (
            ready_same store Ready promise _ _ _ (λ other. ground arith)
              (delete_distinct-Ready store Ready promise (hash ∷ []) f s ready (trimmed, tt)))
        | inr e ↦ rw e (delete_aliases-Ready hash x f s keyed trimmed ready)
      ]

  -- Delete takes away the session under the hash, if the hash is not blank, and every other session of
  -- the same account and chat, if the session that is there names both; all other sessions stay.
  pub delete-Implements :
      (context_hash : Text) (f : Sessions) (s : S)
      → IsKeyed f
      → Ready f s
      → Ready (spec_delete context_hash f) (delete store context_hash s)
  unfolding delete
  delete-Implements context_hash f s keyed ready = elim (Bool-cases (is_blank context_hash)) [
    | inl e ↦ rw e ready
    | inr e ↦
        let hash = trim_space context_hash in
        let trimmed = trim_space-trim_space context_hash in
        rw e (
          subst
            (λ r. Ready (without_chat hash (f hash) f) (delete_found hash (aliases_found store r)))
            (sym (promise.shows f s ready hash ∙ ap (λ h. (s, ok (f h))) trimmed))
            (delete_found-Ready hash f s keyed trimmed ready (f hash)))
  ]
