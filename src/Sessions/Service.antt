-- ===== src/Sessions/Service.antt =====
-- internal/openai/conversation_sessions.go: ConversationSessionService, over any store of sessions. The
-- service and its store are there: the methods' answers for a nil service are left out.
use qwen2api_go.Prelude.{
  ℕ, ◌+◌, ◌*◌, ◌/◌, Bool, true, false, not, ◌&&◌, ◌||◌, Option, none, some, List, [], ◌∷◌, keep,
  map, ltb, eqb, length, if◌then◌else◌,
}
use qwen2api_go.Prelude.Int.{ℤ, pos, pos_part, sub_ℕ, ltb_ℤ, leb_ℤ}
use qwen2api_go.Text.{Text, Unicode, text_eq, text_beq, trim_space, is_blank, distinct}
use qwen2api_go.Clock.{unix_epoch, unix_milli, hour}
use qwen2api_go.Json.{Value}
use qwen2api_go.Storage.{ConversationSession, ConversationStore, Error, Result, ok, err}
use qwen2api_go.Sessions.Messages.{Exchange, build_cached_messages, last_preview, cached_tools_used}
use qwen2api_go.Sessions.Aliases.{
  cache_context_hash, normalize_context_hash_aliases, same_conversation_session,
  dedupe_conversation_session_aliases,
}

-- conversationSessionTTL, in nanoseconds and in milliseconds
abbrev pub session_ttl : ℕ
session_ttl = 24 * hour

abbrev pub session_ttl_ms : ℕ
session_ttl_ms = 86400000

-- time.Now().Add(-conversationSessionTTL).UnixMilli()
abbrev pub cutoff : ℕ → ℤ
cutoff now = sub_ℕ (now / 1000000) (unix_epoch * 1000 + session_ttl_ms)

-- The condition of cleanupExpired.
unfoldable pub is_expired : ℕ → ConversationSession → Bool
is_expired now session = ltb_ℤ (pos 0) session.updated_at && ltb_ℤ session.updated_at (cutoff now)

-- The condition of Get: `time.Since(time.UnixMilli(session.UpdatedAt)) > conversationSessionTTL`.
unfoldable pub is_stale : ℕ → ConversationSession → Bool
is_stale now session =
    ltb_ℤ (pos 0) session.updated_at
    && ltb ((pos_part session.updated_at + unix_epoch * 1000) * 1000000 + session_ttl) now

module _ {S : Type 0} (store : ConversationStore S) where
  -- The store after the call, whatever error it reports.
  abbrev pub delete_hash : Text → S → S
  delete_hash hash s = (store.delete_conversation_session hash s).0

  unfoldable pub delete_expired : ℕ → List ConversationSession → S → S
  unfolding is_expired
  delete_expired now [] s = s
  delete_expired now (session ∷ sessions) s =
      delete_expired now sessions
        (if is_expired now session then delete_hash session.context_hash s else s)

  abbrev pub delete_listed : ℕ → S × Result (List ConversationSession) → S × Option Error
  delete_listed now (s, err e) = (s, some e)
  delete_listed now (s, ok sessions) = (delete_expired now sessions s, none)

  unfoldable pub cleanup_expired : ℕ → S → S × Option Error
  unfolding delete_expired
  cleanup_expired now s = delete_listed now (store.list_conversation_sessions s)

  abbrev pub unless_stale :
      ℕ → Text → S × Result (Option ConversationSession) → S × Option ConversationSession
  unless_stale now hash (s, err e) = (s, none)
  unless_stale now hash (s, ok none) = (s, none)
  unless_stale now hash (s, ok (some session)) =
      if is_stale now session then (delete_hash hash s, none) else (s, some session)

  -- `swept` is the time that cleanupExpired reads, `now` the one that the session's age is taken from.
  unfoldable pub get : ℕ → ℕ → Text → S → S × Option ConversationSession
  unfolding cleanup_expired is_stale
  get swept now hash s =
      if is_blank hash
      then (s, none)
      else unless_stale now hash (store.get_conversation_session hash (cleanup_expired swept s).0)

  abbrev pub delete_hashes : List Text → S → S
  delete_hashes [] s = s
  delete_hashes (hash ∷ hashes) s = delete_hashes hashes (delete_hash hash s)

module _ {S : Type 0} (store : ConversationStore S) ⦃u : Unicode⦄ where
  -- The hashes of the sessions of the same chat.
  abbrev pub aliases_of : ConversationSession → List ConversationSession → List Text
  aliases_of session sessions =
      map (λ (c : ConversationSession). c.context_hash)
        (keep (same_conversation_session session) sessions)

  abbrev pub listed_aliases :
      ConversationSession → S × Result (List ConversationSession) → S × List Text
  listed_aliases session (s, err e) = (s, [])
  listed_aliases session (s, ok sessions) = (s, aliases_of session sessions)

  abbrev pub aliases_found : S × Result (Option ConversationSession) → S × List Text
  aliases_found (s, err e) = (s, [])
  aliases_found (s, ok none) = (s, [])
  aliases_found (s, ok (some session)) =
      if is_blank session.chat_id
      then (s, [])
      else listed_aliases session (store.list_conversation_sessions s)

  -- The hashes are deleted in the order in which they are found, which Go leaves open.
  unfoldable pub delete : Text → S → S
  unfolding same_conversation_session
  delete context_hash s =
      let hash = trim_space context_hash in
      let (s', aliases) = aliases_found (store.get_conversation_session hash s) in
      if is_blank context_hash then s else delete_hashes store (distinct (hash ∷ aliases)) s'

  abbrev pub deduped : S × Result (List ConversationSession) → S × Result (List ConversationSession)
  deduped (s, err e) = (s, err e)
  deduped (s, ok sessions) = (s, ok (dedupe_conversation_session_aliases sessions))

  abbrev pub list_after : S × Option Error → S × Result (List ConversationSession)
  list_after (s, some e) = (s, err e)
  list_after (s, none) = deduped (store.list_conversation_sessions s)

  unfoldable pub list_all : ℕ → S → S × Result (List ConversationSession)
  unfolding dedupe_conversation_session_aliases cleanup_expired
  list_all now s = list_after (cleanup_expired store now s)

-- What the service calls of other packages: SHA-256 in hexadecimal, fmt.Sprint and json.Marshal.
pub record Codec : Type 0 where
  pub sha256_hex : Text → Text
  pub print : Value → Text
  pub marshal : Value → Option Text

-- `created_at`, from the session that is there.
abbrev pub created_before : ℤ → ConversationSession → ℤ
created_before now existing = if leb_ℤ existing.created_at (pos 0) then now else existing.created_at

abbrev pub with_existing :
    ℤ → Bool → Result (Option ConversationSession) → ConversationSession → ConversationSession
with_existing now update (err e) session = session
with_existing now update (ok none) session = session
with_existing now true (ok (some existing)) session = record session {
  created_at = created_before now existing;
}
with_existing now false (ok (some existing)) session = record session {
  created_at = created_before now existing;
  last_message = existing.last_message;
  message_count = existing.message_count;
  has_tools = existing.has_tools;
  tools_used = existing.tools_used;
  messages = existing.messages;
}

abbrev pub updates : Option Exchange → Bool
updates none = false
updates (some x) = true

-- The fields of a chat that a session keeps.
abbrev pub new_session : ℤ → Text → Text → Text → Text → Text → ConversationSession
new_session now hash account_email chat_id model chat_type = record {
  context_hash = hash;
  account_email = account_email;
  chat_id = chat_id;
  model = model;
  chat_type = chat_type;
  created_at = now;
  updated_at = now;
  last_message = [];
  message_count = pos 0;
  has_tools = false;
  tools_used = [];
  messages = [];
}

module _ (codec : Codec) where
  -- The exchange, if messages are updated; `built` is the time that buildCachedMessages reads.
  abbrev pub with_exchange : ℕ → Option Exchange → ConversationSession → ConversationSession
  with_exchange built none session = session
  with_exchange built (some x) session =
      let messages =
        build_cached_messages codec.print codec.marshal (unix_milli built) x.request_messages
          x.assistant_message in
      let tools_used = cached_tools_used codec.print codec.marshal messages x.tool_names in
      record session {
        messages = messages;
        message_count = pos (length messages);
        last_message = last_preview messages;
        tools_used = tools_used;
        has_tools = not (eqb (length tools_used) 0);
      }

  -- The session that is written, from what the store answers for its hash.
  unfoldable pub session_to_save :
      ℕ
      → ℕ
      → Text
      → Text
      → Text
      → Text
      → Text
      → Option Exchange
      → Result (Option ConversationSession)
      → ConversationSession
  unfolding build_cached_messages last_preview cached_tools_used
  session_to_save now built hash account_email chat_id model chat_type exchange found =
      with_exchange built exchange (
        with_existing (unix_milli now) (updates exchange) found
          (new_session (unix_milli now) hash account_email chat_id model chat_type))

module _ {S : Type 0} (store : ConversationStore S) (codec : Codec) where
  -- The write, from what the store answers for the hash.
  abbrev pub write_session :
      ℕ
      → ℕ
      → Text
      → Text
      → Text
      → Text
      → Text
      → Option Exchange
      → S × Result (Option ConversationSession)
      → S
  write_session now built hash account_email chat_id model chat_type exchange (s, found) =
      (store.save_conversation_session
        (session_to_save codec now built hash account_email chat_id model chat_type exchange found)
        s).0

  unfoldable pub save_session : ℕ → ℕ → Text → Text → Text → Text → Text → Option Exchange → S → S
  unfolding cache_context_hash session_to_save
  save_session now built context_hash account_email chat_id model chat_type exchange s =
      let hash = cache_context_hash codec.sha256_hex context_hash chat_id in
      if is_blank account_email || is_blank chat_id || text_beq hash []
      then s
      else write_session now built hash account_email chat_id model chat_type exchange
          (store.get_conversation_session hash s)

  unfoldable pub save : ℕ → Text → Text → Text → Text → Text → S → S
  unfolding save_session
  save now context_hash account_email chat_id model chat_type =
      save_session now now context_hash account_email chat_id model chat_type none

  unfoldable pub save_under : ℕ → ℕ → List Text → Text → Text → Text → Text → Exchange → S → S
  unfolding save_session
  save_under now built [] account_email chat_id model chat_type exchange s = s
  save_under now built (hash ∷ hashes) account_email chat_id model chat_type exchange s =
      save_under now built hashes account_email chat_id model chat_type exchange
        (save_session now built hash account_email chat_id model chat_type (some exchange) s)

  -- CacheExchangeWithAliases; all times that are read of one call are taken as the same two.
  unfoldable pub cache_exchange_with_aliases :
      ℕ → ℕ → List Text → Text → Text → Text → Text → Exchange → S → S
  unfolding save_under normalize_context_hash_aliases
  cache_exchange_with_aliases now built hashes account_email chat_id model chat_type exchange =
      save_under now built (normalize_context_hash_aliases codec.sha256_hex hashes chat_id)
        account_email chat_id model chat_type exchange
