-- ===== src/Execution/Mappings.antt =====
-- What the handler writes to the sessions: internal/openai/chat_execution.go together with internal/
-- openai/conversation_sessions.go.
use qwen2api_go.Prelude.{
  ℕ, ◌≡◌, refl, sym, ap, subst, ◌∙◌, false, not, ◌&&◌, ◌||◌, none, some, [], if-cases,
}
use qwen2api_go.Text.{Text, Unicode, text_beq, trim_space, is_blank}
use qwen2api_go.Storage.{Account, ConversationSession, ok}
use qwen2api_go.Sessions.Service.{session_to_save, save, delete}
use qwen2api_go.Sessions.Spec.{Sessions, IsKeyed, IsListing, spec_delete, spec_save}
use qwen2api_go.Sessions.Aliases.{cache_context_hash}
use qwen2api_go.Sessions.Keyed.{spec_delete-IsKeyed, spec_save-IsKeyed, spec_save-shown}
use qwen2api_go.Sessions.Changes.{delete-Implements}
use qwen2api_go.Sessions.Saving.{IsHex, session_to_save-SaysChat, save_session-Implements}
use qwen2api_go.Execution.{
  ChatError, upstream, failure, Env, State, Prepared, Executed, note_success, note_failure,
  save_mapping, count_error, record_chat_usage, should_invalidate,
}

module _ {S : Type 0} (Ready : Sessions → S → Type 0) where
  -- The store shows sessions, each under its own hash.
  abbrev pub IsKept : S → Type 0
  IsKept sessions = (f : Sessions) × IsKeyed f × Ready f sessions

  -- Under the hash stands a session of this account, chat, model and type.
  abbrev pub Maps : Text → Text → Text → Text → Text → S → Type 0
  Maps hash email chat_id model chat_type sessions =
      (f : Sessions) × IsKeyed f
      × Ready f sessions
      × (y : ConversationSession) × (f hash ≡ some y)
      × (y.account_email ≡ email)
      × (y.chat_id ≡ chat_id)
      × (y.model ≡ model)
      × (y.chat_type ≡ chat_type)

  -- A session that belongs to the answer stands under the hash.
  abbrev pub Remembers : Text → Executed → S → Type 0
  Remembers hash x = Maps hash x.account_email x.chat_id x.model x.chat_type

module _ ⦃u : Unicode⦄ {A S C W : Type 0} (env : Env A S C W) (Ready : Sessions → S → Type 0)
    (promise : IsListing env.session_store Ready) (is_hex : IsHex env.codec.sha256_hex) where
  pub delete-IsKept :
      (hash : Text) (s : S) → IsKept Ready s → IsKept Ready (delete env.session_store hash s)
  delete-IsKept hash s (f, keyed, ready) = (
    spec_delete hash f,
    spec_delete-IsKeyed hash f keyed,
    delete-Implements env.session_store Ready promise hash f s keyed ready,
  )

  pub count_error-IsKept :
      (p : Prepared) (a : Account) (e : ChatError) (s : State A S C W)
      → IsKept Ready s.sessions
      → IsKept Ready (count_error env p a e s).sessions
  unfolding count_error note_failure
  count_error-IsKept p a (failure e) s kept = kept
  count_error-IsKept p a (upstream e) s kept =
      if-cases (λ (t : State A S C W). IsKept Ready t.sessions)
        (should_invalidate e && not (text_beq p.context_hash [])) _ _
        (λ _. delete-IsKept p.context_hash s.sessions kept) (λ _. kept)

  record_chat_usage-sessions :
      (email chat_id : Text) (s : State A S C W)
      → (record_chat_usage env email chat_id s).sessions ≡ s.sessions
  unfolding record_chat_usage
  record_chat_usage-sessions email chat_id s =
      if-cases (λ (t : State A S C W). t.sessions ≡ s.sessions) (is_blank email || is_blank chat_id)
        _ _ (λ _. refl) (λ _. refl)

  module _ (p : Prepared) (named : is_blank p.context_hash ≡ false)
      (trimmed : trim_space p.context_hash ≡ p.context_hash) where
    hash_kept :
        (chat_id : Text)
        → cache_context_hash env.codec.sha256_hex p.context_hash chat_id ≡ p.context_hash
    unfolding cache_context_hash
    hash_kept chat_id = rw named trimmed

    pub named_text : text_beq p.context_hash [] ≡ false
    named_text = ap (λ h. text_beq h []) (sym trimmed) ∙ named

    save-Maps :
        (now : ℕ) (email chat_id : Text) (sessions : S)
        → IsKept Ready sessions
        → is_blank email ≡ false
        → is_blank chat_id ≡ false
        → Maps Ready p.context_hash email chat_id p.model p.chat_type (
            save env.session_store env.codec now p.context_hash email chat_id p.model p.chat_type
              sessions)
    unfolding save
    save-Maps now email chat_id sessions (f, keyed, ready) mail chat =
        let (hash, own, chat', model, type, _) =
          session_to_save-SaysChat env.codec now now p.context_hash email chat_id p.model
            p.chat_type none (ok (f p.context_hash)) in
        (
          spec_save env.codec now now p.context_hash email chat_id p.model p.chat_type none f,
          spec_save-IsKeyed env.codec now now p.context_hash email chat_id p.model p.chat_type none
              f is_hex keyed,
          save_session-Implements env.session_store Ready promise env.codec is_hex now now
              p.context_hash email chat_id p.model p.chat_type none f sessions ready,
          session_to_save env.codec now now p.context_hash email chat_id p.model p.chat_type none
              (ok (f p.context_hash)),
          spec_save-shown env.codec now now p.context_hash email chat_id p.model p.chat_type
              p.context_hash none f mail chat named_text (hash_kept chat_id),
          own,
          chat',
          model,
          type,
        )

    -- What is left by note_success: a session of the account and the chat that it is given.
    pub note_success-Maps :
        (email chat_id : Text) (s : State A S C W)
        → IsKept Ready s.sessions
        → is_blank email ≡ false
        → is_blank chat_id ≡ false
        → Maps Ready p.context_hash email chat_id p.model p.chat_type
            (note_success env p email chat_id s).sessions
    unfolding save_mapping
    note_success-Maps email chat_id s kept mail chat =
        subst (Maps Ready p.context_hash email chat_id p.model p.chat_type)
          (sym (record_chat_usage-sessions email chat_id (save_mapping env p email chat_id s)))
          (save-Maps _ email chat_id s.sessions kept mail chat)
