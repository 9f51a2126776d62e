-- ===== src/Sessions/Spec.antt =====
-- What ConversationSessionService promises, on a map from hashes to sessions: internal/openai/
-- conversation_sessions.go without the store.
use qwen2api_go.Prelude.{
  ℕ, ◌≡◌, ◌↔◌, Bool, false, Option, none, some, List, [], ◌||◌, In, if◌then◌else◌,
}
use qwen2api_go.Text.{Text, Unicode, text_beq, trim_space, is_blank}
use qwen2api_go.Storage.{ConversationSession, ConversationStore, ok}
use qwen2api_go.Storage.Conversations.Faithful.{Shows}
use qwen2api_go.Sessions.Aliases.{cache_context_hash, same_conversation_session}
use qwen2api_go.Sessions.Messages.{Exchange}
use qwen2api_go.Sessions.Service.{Codec, is_expired, is_stale, session_to_save}

abbrev pub Sessions : Type 0
Sessions = Text → Option ConversationSession

-- A session stands under its own hash, which has no space around it.
abbrev pub IsKeyed : Sessions → Type 0
IsKeyed f =
    (hash : Text) (session : ConversationSession)
    → f hash ≡ some session
    → (session.context_hash ≡ hash) × (trim_space hash ≡ hash)

abbrev pub without : Text → Sessions → Sessions
without gone f hash = if text_beq gone hash then none else f hash

abbrev pub with_session : Text → ConversationSession → Sessions → Sessions
with_session at session f hash = if text_beq at hash then some session else f hash

-- A store that shows the sessions `f` and is in order as `Ready` says: a save of a session whose hash is
-- not blank puts it under its hash, a delete takes away what is under the hash deleted, and what is
-- listed is exactly what is shown. Nothing is said of a session with a blank hash, which the stores
-- treat differently.
pub record IsListing {S : Type 0} (store : ConversationStore S) (Ready : Sessions → S → Type 0)
    : Type 1 where
  pub shows : (f : Sessions) (s : S) → Ready f s → Shows store f s
  pub saved :
      (f : Sessions) (s : S) (session : ConversationSession)
      → is_blank session.context_hash ≡ false
      → Ready f s
      → Ready
          (with_session session.context_hash session f)
          (store.save_conversation_session session s).0
  pub deleted :
      (f : Sessions) (s : S) (hash : Text)
      → Ready f s
      → Ready (without (trim_space hash) f) (store.delete_conversation_session hash s).0
  pub listed :
      (f : Sessions) (s : S)
      → Ready f s
      → (sessions : List ConversationSession) × (store.list_conversation_sessions s
          ≡ (s, ok sessions))
        × ((session : ConversationSession)
            → In session sessions ↔ (f session.context_hash ≡ some session))

abbrev pub keep_unless :
    (ConversationSession → Bool) → Option ConversationSession → Option ConversationSession
keep_unless gone none = none
keep_unless gone (some session) = if gone session then none else some session

-- Without the sessions that are expired at a time.
abbrev pub swept : ℕ → Sessions → Sessions
swept now f hash = keep_unless (is_expired now) (f hash)

abbrev pub fresh :
    ℕ → Text → Sessions → Option ConversationSession → Sessions × Option ConversationSession
fresh now hash f none = (f, none)
fresh now hash f (some session) =
    if is_stale now session then (without hash f, none) else (f, some session)

abbrev pub spec_get : ℕ → ℕ → Text → Sessions → Sessions × Option ConversationSession
spec_get sweep now hash f =
    if is_blank hash
    then (f, none)
    else fresh now (trim_space hash) (swept sweep f) (swept sweep f (trim_space hash))

module _ ⦃u : Unicode⦄ where
  -- Without a hash and the sessions of the chat that is found under it.
  abbrev pub without_chat : Text → Option ConversationSession → Sessions → Sessions
  without_chat hash none f = without hash f
  without_chat hash (some session) f =
      if is_blank session.chat_id
      then without hash f
      else without hash (λ other. keep_unless (same_conversation_session session) (f other))

  abbrev pub spec_delete : Text → Sessions → Sessions
  spec_delete hash f =
      if is_blank hash then f else without_chat (trim_space hash) (f (trim_space hash)) f

abbrev pub spec_save :
    Codec → ℕ → ℕ → Text → Text → Text → Text → Text → Option Exchange → Sessions → Sessions
spec_save codec now built context_hash account_email chat_id model chat_type exchange f =
    let hash = cache_context_hash codec.sha256_hex context_hash chat_id in
    let session =
      session_to_save codec now built hash account_email chat_id model chat_type exchange
        (ok (f hash)) in
    if is_blank account_email || is_blank chat_id || text_beq hash []
    then f
    else with_session hash session f
