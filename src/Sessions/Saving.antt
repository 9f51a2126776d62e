-- ===== src/Sessions/Saving.antt =====
-- What a save does to the sessions, and what is found after it: internal/openai/conversation_sessions.go.
use mathlib.Core.Bool.{false≢true}
use qwen2api_go.Prelude.{
  ℕ, ◌≡◌, refl, sym, ap, subst, ◌∙◌, ◌⊎◌, inl, inr, Bool, true, false, not, ◌||◌, Option, none,
  some, [], ◌∷◌, ◌++◌, any, any-append, if-cases, if◌then◌else◌, arith,
}
use qwen2api_go.Text.{
  Text, codes, text_eq, text_beq, text_beq_refl, trim_space, trim_space-trim_space, trim_space_none,
  is_space, is_blank,
}
use qwen2api_go.Clock.{unix_milli}
use qwen2api_go.Storage.{ConversationSession, ConversationStore, Result, ok, err}
use qwen2api_go.Sessions.Messages.{Exchange}
use qwen2api_go.Sessions.Aliases.{cache_context_hash}
use qwen2api_go.Sessions.Service.{
  Codec, session_to_save, with_exchange, with_existing, new_session, updates, write_session,
  save_session,
}
use qwen2api_go.Sessions.Spec.{Sessions, IsListing, with_session, spec_save}

-- SHA-256 in hexadecimal has no space.
abbrev pub IsHex : (Text → Text) → Type 0
IsHex hex = (s : Text) → any is_space (hex s) ≡ false

abbrev IsHash : Text → Type 0
IsHash hash = (hash ≡ []) ⊎ ((trim_space hash ≡ hash) × (is_blank hash ≡ false))

chat_prefix : any is_space (codes "chat:") ≡ false
unfolding is_space
chat_prefix = refl

cons-text_beq : (c : ℕ) (s : Text) → text_beq (c ∷ s) [] ≡ false
unfolding text_beq
cons-text_beq c s = refl

cache_context_hash-IsHash :
    (hex : Text → Text) (context_hash chat_id : Text)
    → IsHex hex
    → IsHash (cache_context_hash hex context_hash chat_id)
unfolding cache_context_hash
cache_context_hash-IsHash hex context_hash chat_id is_hex =
    if-cases IsHash (not (is_blank context_hash)) _ _
      (λ e. inr (
        trim_space-trim_space context_hash,
        ap (λ s. text_beq s []) (trim_space-trim_space context_hash) ∙ ground arith,
      ))
      (λ e.
        if-cases IsHash (is_blank chat_id) _ _ (λ d. inl refl)
          (λ d.
            let digits = hex (codes "chat:" ++ trim_space chat_id) in
            let trimmed = trim_space_none (codes "chat:" ++ digits) (
              any-append is_space (codes "chat:") digits
              ∙ rw (chat_prefix, is_hex (codes "chat:" ++ trim_space chat_id)) refl) in
            inr (trimmed, ap (λ s. text_beq s []) trimmed ∙ cons-text_beq _ _)))

-- A hash that is not empty is trimmed and not blank.
pub proper :
    (hex : Text → Text) (context_hash chat_id : Text)
    → IsHex hex
    → text_beq (cache_context_hash hex context_hash chat_id) [] ≡ false
    → (trim_space (cache_context_hash hex context_hash chat_id)
        ≡ cache_context_hash hex context_hash chat_id)
      × (is_blank (cache_context_hash hex context_hash chat_id) ≡ false)
proper hex context_hash chat_id is_hex named =
    elim (cache_context_hash-IsHash hex context_hash chat_id is_hex) [
      | inl e ↦ absurd (no_empty e)
      | inr h ↦ h
    ]
  where
    no_empty : cache_context_hash hex context_hash chat_id ≡ [] → ⊥
    no_empty e = false≢true (sym named ∙ ap (λ s. text_beq s []) e ∙ text_beq_refl [])

module _ (codec : Codec) (now built : ℕ) (hash account_email chat_id model chat_type : Text)
    (exchange : Option Exchange) where
  -- What a saved session says of its chat.
  abbrev pub SaysChat : ConversationSession → Type 0
  SaysChat session =
      (session.context_hash ≡ hash)
      × (session.account_email ≡ account_email)
      × (session.chat_id ≡ chat_id)
      × (session.model ≡ model)
      × (session.chat_type ≡ chat_type)
      × (session.updated_at ≡ unix_milli now)

  with_existing-SaysChat :
      (update : Bool) (found : Result (Option ConversationSession))
      → SaysChat (
          with_existing
            (unix_milli now)
            update
            found
            (new_session (unix_milli now) hash account_email chat_id model chat_type))
  with_existing-SaysChat update (err e) = (refl, refl, refl, refl, refl, refl)
  with_existing-SaysChat update (ok none) = (refl, refl, refl, refl, refl, refl)
  with_existing-SaysChat true (ok (some x)) = (refl, refl, refl, refl, refl, refl)
  with_existing-SaysChat false (ok (some x)) = (refl, refl, refl, refl, refl, refl)

  with_exchange-SaysChat :
      (x : Option Exchange) (session : ConversationSession)
      → SaysChat session
      → SaysChat (with_exchange codec built x session)
  with_exchange-SaysChat none session h = h
  with_exchange-SaysChat (some x) session h = h

  pub session_to_save-SaysChat :
      (found : Result (Option ConversationSession))
      → SaysChat (
          session_to_save codec now built hash account_email chat_id model chat_type exchange found)
  unfolding session_to_save
  session_to_save-SaysChat found =
      with_exchange-SaysChat exchange _ (with_existing-SaysChat (updates exchange) found)

module _ {S : Type 0} (store : ConversationStore S) (Ready : Sessions → S → Type 0)
    (promise : IsListing store Ready) (codec : Codec) (is_hex : IsHex codec.sha256_hex)
    (now built : ℕ) (context_hash account_email chat_id model chat_type : Text)
    (exchange : Option Exchange) where
  abbrev pub hash_saved : Text
  hash_saved = cache_context_hash codec.sha256_hex context_hash chat_id

  -- The session that is written, where the store answers with `o`.
  abbrev pub written : Option ConversationSession → ConversationSession
  written o =
      session_to_save codec now built hash_saved account_email chat_id model chat_type exchange
        (ok o)

  saved-Ready :
      (f : Sessions) (s : S) (session : ConversationSession)
      → session.context_hash ≡ hash_saved
      → is_blank hash_saved ≡ false
      → Ready f s
      → Ready (with_session hash_saved session f) (store.save_conversation_session session s).0
  saved-Ready f s session at named ready =
      subst (λ h. Ready (with_session h session f) (store.save_conversation_session session s).0) at
        (promise.saved f s session (ap is_blank at ∙ named) ready)

  pub written-hash : (o : Option ConversationSession) → (written o).context_hash ≡ hash_saved
  written-hash o =
      (session_to_save-SaysChat codec now built hash_saved account_email chat_id model chat_type
        exchange (ok o)).0

  write-Ready :
      (f : Sessions) (s : S)
      → Ready f s
      → trim_space hash_saved ≡ hash_saved
      → is_blank hash_saved ≡ false
      → Ready (with_session hash_saved (written (f hash_saved)) f) (
          write_session store codec now built hash_saved account_email chat_id model chat_type
            exchange
            (store.get_conversation_session hash_saved s))
  write-Ready f s ready trimmed named =
      subst
        (λ r. Ready (with_session hash_saved (written (f hash_saved)) f) (
          write_session store codec now built hash_saved account_email chat_id model chat_type
            exchange r))
        (sym (promise.shows f s ready hash_saved ∙ ap (λ h. (s, ok (f h))) trimmed))
        (saved-Ready f s (written (f hash_saved)) (written-hash (f hash_saved)) named ready)

  ready_if :
      (b : Bool) (f g : Sessions) (s t : S)
      → Ready f s
      → (b ≡ false → Ready g t)
      → Ready (if b then f else g) (if b then s else t)
  ready_if true f g s t ready more = ready
  ready_if false f g s t ready more = more refl

  -- A save does what spec_save does, on a store that keeps its promise.
  pub save_session-Implements :
      (f : Sessions) (s : S)
      → Ready f s
      → Ready
          (spec_save codec now built context_hash account_email chat_id model chat_type exchange f)
          (save_session store codec now built context_hash account_email chat_id model chat_type
            exchange s)
  unfolding save_session
  save_session-Implements f s ready =
      ready_if (is_blank account_email || is_blank chat_id || text_beq hash_saved []) f _ s _ ready
        (λ named.
          let (trimmed, there) =
            proper codec.sha256_hex context_hash chat_id is_hex (ground arith) in
          write-Ready f s ready trimmed there)
