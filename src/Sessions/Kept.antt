-- ===== src/Sessions/Kept.antt =====
-- What a save writes, field by field: internal/openai/conversation_sessions.go.
use qwen2api_go.Prelude.{
  ℕ, ◌≡◌, refl, ap, false, not, ◌||◌, Option, none, some, [], ◌++◌, eqb, length, Bool-cases, inl,
  inr, if-cases, if◌then◌else◌, arith,
}
use qwen2api_go.Prelude.Int.{ℤ, pos, ltb_ℤ}
use qwen2api_go.Text.{Text, codes, text_eq, text_beq, trim_space, is_blank}
use qwen2api_go.Clock.{unix_milli}
use qwen2api_go.Storage.{ConversationSession, ConversationStore, ok}
use qwen2api_go.Sessions.Messages.{Exchange, build_cached_messages, last_preview, cached_tools_used}
use qwen2api_go.Sessions.Aliases.{cache_context_hash}
use qwen2api_go.Sessions.Service.{Codec, created_before, session_to_save, save_session}
use qwen2api_go.Sessions.Spec.{Sessions, IsListing, with_session, spec_save}
use qwen2api_go.Sessions.Refinement.{ready_same}
use qwen2api_go.Sessions.Saving.{IsHex, save_session-Implements}

-- The time of creation that was there, if it was after 1970.
abbrev pub created_at_first : ℤ → Option ConversationSession → ℤ
created_at_first now none = now
created_at_first now (some x) = if ltb_ℤ (pos 0) x.created_at then x.created_at else now

created_at_first-created_before :
    (now : ℤ) (x : ConversationSession) → created_before now x ≡ created_at_first now (some x)
created_at_first-created_before now x = ground arith

module _ (codec : Codec) (now built : ℕ) (hash account_email chat_id model chat_type : Text) where
  -- The session of a save over the one that was there: it keeps the time of creation and, without an
  -- exchange, all that is said of the messages; an exchange brings its own.
  abbrev pub kept_session : Option Exchange → Option ConversationSession → ConversationSession
  kept_session none none = record {
    context_hash = hash;
    account_email = account_email;
    chat_id = chat_id;
    model = model;
    chat_type = chat_type;
    created_at = unix_milli now;
    updated_at = unix_milli now;
    last_message = [];
    message_count = pos 0;
    has_tools = false;
    tools_used = [];
    messages = [];
  }
  kept_session none (some x) = record {
    context_hash = hash;
    account_email = account_email;
    chat_id = chat_id;
    model = model;
    chat_type = chat_type;
    created_at = created_at_first (unix_milli now) (some x);
    updated_at = unix_milli now;
    last_message = x.last_message;
    message_count = x.message_count;
    has_tools = x.has_tools;
    tools_used = x.tools_used;
    messages = x.messages;
  }
  kept_session (some e) o =
      let messages =
        build_cached_messages codec.print codec.marshal (unix_milli built) e.request_messages
          e.assistant_message in
      let tools = cached_tools_used codec.print codec.marshal messages e.tool_names in
      record {
        context_hash = hash;
        account_email = account_email;
        chat_id = chat_id;
        model = model;
        chat_type = chat_type;
        created_at = created_at_first (unix_milli now) o;
        updated_at = unix_milli now;
        last_message = last_preview messages;
        message_count = pos (length messages);
        has_tools = not (eqb (length tools) 0);
        tools_used = tools;
        messages = messages;
      }

  session_to_save-kept_session :
      (exchange : Option Exchange) (o : Option ConversationSession)
      → session_to_save codec now built hash account_email chat_id model chat_type exchange (ok o)
        ≡ kept_session exchange o
  unfolding session_to_save
  session_to_save-kept_session none none = refl
  session_to_save-kept_session none (some x) =
      ap (λ t. record (kept_session none (some x)) { created_at = t })
        (created_at_first-created_before (unix_milli now) x)
  session_to_save-kept_session (some e) none = refl
  session_to_save-kept_session (some e) (some x) =
      ap (λ t. record (kept_session (some e) (some x)) { created_at = t })
        (created_at_first-created_before (unix_milli now) x)

-- The hash that is given, trimmed, or the one of the chat if that is blank.
abbrev pub hash_of_save : (Text → Text) → Text → Text → Text
hash_of_save hex context_hash chat_id =
    if is_blank context_hash
    then codes "chat:" ++ hex (codes "chat:" ++ trim_space chat_id)
    else trim_space context_hash

hash_of_save-some :
    (hex : Text → Text) (context_hash chat_id : Text)
    → text_beq (hash_of_save hex context_hash chat_id) [] ≡ false
unfolding text_beq
hash_of_save-some hex context_hash chat_id =
    if-cases (λ h. text_beq h [] ≡ false) (is_blank context_hash) _ _ (λ _. refl) (λ e. e)

cache_context_hash-hash_of_save :
    (hex : Text → Text) (context_hash chat_id : Text)
    → is_blank chat_id ≡ false
    → cache_context_hash hex context_hash chat_id ≡ hash_of_save hex context_hash chat_id
unfolding cache_context_hash
cache_context_hash-hash_of_save hex context_hash chat_id chat =
    elim (Bool-cases (is_blank context_hash)) [ inl e ↦ rw (e, chat) refl | inr e ↦ rw e refl ]

module _ (codec : Codec) (now built : ℕ) (context_hash account_email chat_id model chat_type : Text)
    (exchange : Option Exchange) where
  abbrev pub saved_sessions : Sessions → Sessions
  saved_sessions f =
      let hash = hash_of_save codec.sha256_hex context_hash chat_id in
      if is_blank account_email || is_blank chat_id
      then f
      else with_session hash
          (kept_session codec now built hash account_email chat_id model chat_type exchange
            (f hash))
          f

  spec_save-saved_sessions :
      (f : Sessions)
      → spec_save codec now built context_hash account_email chat_id model chat_type exchange f
        ≡ saved_sessions f
  spec_save-saved_sessions f = elim (Bool-cases (is_blank account_email)) [
    | inl e ↦ rw e refl
    | inr e ↦ elim (Bool-cases (is_blank chat_id)) [
      | inl e' ↦ rw (e, e') refl
      | inr e' ↦
          let hash = hash_of_save codec.sha256_hex context_hash chat_id in
          rw
            (
              e,
              e',
              cache_context_hash-hash_of_save codec.sha256_hex context_hash chat_id e',
              hash_of_save-some codec.sha256_hex context_hash chat_id,
            )
            (ap (λ x. with_session hash x f)
              (session_to_save-kept_session codec now built hash account_email chat_id model
                chat_type exchange (f hash)))
    ]
  ]

-- A save with an account and a chat writes one session, under the hash that is given, trimmed, or, if
-- that is blank, under one of the chat's. The session has the account, the chat, the model and the type
-- that are given and the time of the call. The time of creation is the one of the session that was
-- under that hash, if it was after 1970, else that of the call. Without an exchange the messages, their
-- number, the preview and the tools are those that were there; with one they are made of the exchange.
-- Without an account or a chat nothing is written. The condition is that SHA-256 in hexadecimal has no
-- space.
pub save_session-Keeps :
    {S : Type 0} (store : ConversationStore S) (Ready : Sessions → S → Type 0)
    → IsListing store Ready
    → (codec : Codec) → IsHex codec.sha256_hex
    → (now built : ℕ) (context_hash account_email chat_id model chat_type : Text)
      (exchange : Option Exchange) (f : Sessions) (s : S)
    → Ready f s
    → Ready
        (saved_sessions codec now built context_hash account_email chat_id model chat_type exchange
          f)
        (save_session store codec now built context_hash account_email chat_id model chat_type
          exchange s)
save_session-Keeps store Ready promise codec is_hex now built context_hash account_email chat_id
      model chat_type exchange f s ready =
    ready_same store Ready promise _ _ _
      (λ hash.
        ap (λ (g : Sessions). g hash)
          (spec_save-saved_sessions codec now built context_hash account_email chat_id model
            chat_type exchange f))
      (save_session-Implements store Ready promise codec is_hex now built context_hash account_email
        chat_id model chat_type exchange f s ready)
