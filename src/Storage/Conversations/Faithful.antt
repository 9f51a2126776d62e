-- ===== src/Storage/Conversations/Faithful.antt =====
-- What a store of conversation sessions promises, and that the one in memory keeps it: internal/storage/
-- conversations.go.
use qwen2api_go.Prelude.{◌≡◌, refl, ap, ◌∙◌, Bool, Option, none, some, if◌then◌else◌, if-cases}
use qwen2api_go.Text.{Text, text_eq, text_beq, trim_space, is_blank}
use qwen2api_go.Dict.{Dict, lookup, put, lookup-put, lookup-remove}
use qwen2api_go.Storage.{ConversationSession, ConversationStore, ok}
use qwen2api_go.Storage.Conversations.{memory_store}

-- The store `s` works, and these are its sessions by hash.
abbrev pub Shows :
    {S : Type 0} → ConversationStore S → (Text → Option ConversationSession) → S → Type 0
Shows store f s =
    (hash : Text) → store.get_conversation_session hash s ≡ (s, ok (f (trim_space hash)))

-- A store that shows the sessions `f` and is in order as `Ready` says: after a save it shows the saved
-- session under its hash, after a delete none under the hash deleted, and what it showed before under
-- all others; a session whose hash is `skipped` is not saved.
pub record IsFaithful {S : Type 0} (store : ConversationStore S) (skipped : Text → Bool)
    (Ready : (Text → Option ConversationSession) → S → Type 0) : Type 1 where
  pub shows : (f : Text → Option ConversationSession) (s : S) → Ready f s → Shows store f s
  pub saves :
      (f : Text → Option ConversationSession) (s : S) (session : ConversationSession)
      → Ready f s
      → (store.save_conversation_session session s).1 ≡ none
  pub saved :
      (f : Text → Option ConversationSession) (s : S) (session : ConversationSession)
      → Ready f s
      → Ready
          (λ hash.
            if skipped session.context_hash
            then f hash
            else if text_beq session.context_hash hash
            then some session
            else f hash)
          (store.save_conversation_session session s).0
  pub deleted :
      (f : Text → Option ConversationSession) (s : S) (hash : Text)
      → Ready f s
      → Ready
          (λ other. if text_beq (trim_space hash) other then none else f other)
          (store.delete_conversation_session hash s).0

abbrev pub ReadyInMemory :
    (Text → Option ConversationSession) → Dict Text ConversationSession → Type 0
ReadyInMemory f sessions = (hash : Text) → lookup hash sessions ≡ f hash

-- The store in memory keeps the promise, but for sessions with a blank hash, which it does not save.
pub memory_store-IsFaithful : IsFaithful memory_store is_blank ReadyInMemory
unfolding memory_store
memory_store-IsFaithful = record {
  shows = λ f s v hash. ap (λ (o : Option ConversationSession). (s, ok o)) (v (trim_space hash));
  saves = λ f s session v. refl;
  saved = λ f s session v hash.
      if-cases
        (λ sessions. lookup hash sessions ≡ (
          if is_blank session.context_hash
          then f hash
          else if text_beq session.context_hash hash
          then some session
          else f hash))
        (is_blank session.context_hash) s (put session.context_hash session s)
        (λ blank. rw blank (v hash))
        (λ named. rw named (lookup-put session.context_hash hash session s ∙ rw (v hash) refl));
  deleted = λ f s hash v other. lookup-remove (trim_space hash) other s ∙ rw (v other) refl;
}

-- What a client sees of a save, and of a delete, of a store that keeps the promise.
pub remembers :
    {S : Type 0} (store : ConversationStore S) (skipped : Text → Bool)
    (Ready : (Text → Option ConversationSession) → S → Type 0)
    → IsFaithful store skipped Ready
    → (f : Text → Option ConversationSession) (s : S) (session : ConversationSession)
      (hash gone : Text)
    → Ready f s
    → ((store.save_conversation_session session s).1 ≡ none)
      × ((store.get_conversation_session hash (store.save_conversation_session session s).0).1
          ≡ ok (
              if skipped session.context_hash
              then f (trim_space hash)
              else if text_beq session.context_hash (trim_space hash)
              then some session
              else f (trim_space hash)))
      × ((store.get_conversation_session hash (store.delete_conversation_session gone s).0).1
          ≡ ok (if text_beq (trim_space gone) (trim_space hash) then none else f (trim_space hash)))
remembers store skipped Ready faithful f s session hash gone v = (
  faithful.saves f s session v,
  ap (λ r. r.1) (faithful.shows _ _ (faithful.saved f s session v) hash),
  ap (λ r. r.1) (faithful.shows _ _ (faithful.deleted f s gone v) hash),
)

-- In memory a save never fails; if the hash of the session is not blank, the session is then found
-- exactly under that hash, and under all other hashes what was there before; a session with a blank
-- hash changes nothing. After a delete nothing is found under the hash deleted, and under all others
-- what was there before.
memory_store_remembers :
    (f : Text → Option ConversationSession) (s : Dict Text ConversationSession)
    (session : ConversationSession) (hash gone : Text)
    → ReadyInMemory f s
    → ((memory_store.save_conversation_session session s).1 ≡ none)
      × ((memory_store.get_conversation_session hash
            (memory_store.save_conversation_session session s).0).1
          ≡ ok (
              if is_blank session.context_hash
              then f (trim_space hash)
              else if text_beq session.context_hash (trim_space hash)
              then some session
              else f (trim_space hash)))
      × ((memory_store.get_conversation_session hash
            (memory_store.delete_conversation_session gone s).0).1
          ≡ ok (if text_beq (trim_space gone) (trim_space hash) then none else f (trim_space hash)))
memory_store_remembers = remembers memory_store is_blank ReadyInMemory memory_store-IsFaithful
