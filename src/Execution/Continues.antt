-- ===== src/Execution/Continues.antt =====
-- A request whose conversation has a chat: internal/openai/chat_execution.go, executeChatRequest.
use qwen2api_go.Prelude.{
  ℕ, ◌≡◌, refl, sym, ap, subst, ◌∙◌, Bool, true, false, some, [], if◌then◌else◌, if-cases, ◌&&◌,
  ◌||◌,
}
use qwen2api_go.Text.{Text, Unicode, text_eq, text_beq, text_beq_refl, trim_space, is_blank}
use qwen2api_go.Storage.{Account, ConversationSession, Result, ok}
use qwen2api_go.Sessions.Service.{is_expired, is_stale}
use qwen2api_go.Sessions.Spec.{Sessions, IsKeyed, IsListing, spec_get}
use qwen2api_go.Sessions.Refinement.{get-Implements}
use qwen2api_go.Sessions.Keyed.{spec_get-IsKeyed}
use qwen2api_go.Sessions.Lasting.{spec_get-some}
use qwen2api_go.Sessions.Saving.{IsHex}
use qwen2api_go.Execution.{
  Env, State, Prepared, Executed, Outcome, executed, Mapped, done, go_on, after_mapped,
  max_attempts_of, mapped_session, mapped_account, mapped_sent, note_success, session_by_email,
  get_mapped, try_mapped, execute_chat_request, send_chat_with_session, save_mapping,
  record_chat_usage,
}
use qwen2api_go.Execution.Sent.{IsAnswerOf, send_chat_with_session-IsSent}
use qwen2api_go.Execution.Mappings.{IsKept, Maps, named_text, note_success-Maps}

module _ ⦃u : Unicode⦄ {A S C W : Type 0} (env : Env A S C W) (Ready : Sessions → S → Type 0)
    (promise : IsListing env.session_store Ready) (is_hex : IsHex env.codec.sha256_hex)
    (p : Prepared) (named : is_blank p.context_hash ≡ false)
    (trimmed : trim_space p.context_hash ≡ p.context_hash) where
  -- The two times that a Get reads.
  abbrev swept_at : State A S C W → ℕ
  swept_at s = (env.clock s.world).1

  abbrev read_at : State A S C W → ℕ
  read_at s = (env.clock (env.clock s.world).0).1

  get_mapped-IsKept :
      (s : State A S C W) (f : Sessions) (y : ConversationSession)
      → IsKeyed f
      → Ready f s.sessions
      → f p.context_hash ≡ some y
      → is_expired (swept_at s) y ≡ false
      → is_stale (read_at s) y ≡ false
      → ((get_mapped env p.context_hash s).1 ≡ some y)
        × IsKept Ready (get_mapped env p.context_hash s).0.sessions
  unfolding get_mapped
  get_mapped-IsKept s f y keyed ready shown lasts young =
      let (same, ready') =
        get-Implements env.session_store Ready promise (swept_at s) (read_at s) p.context_hash f
          s.sessions keyed ready in
      (
        same
            ∙ spec_get-some (swept_at s) (read_at s) p.context_hash f y named (ap f trimmed ∙ shown)
                lasts young,
        (
          (spec_get (swept_at s) (read_at s) p.context_hash f).0,
          spec_get-IsKeyed (swept_at s) (read_at s) p.context_hash f keyed,
          ready',
        ),
      )

  session_by_email-sessions :
      (email : Text) (s : State A S C W) → (session_by_email env email s).0.sessions ≡ s.sessions
  unfolding session_by_email
  session_by_email-sessions email s = refl

  -- The states on the way: after the look at the sessions, with the account, and after the request.
  abbrev looked : State A S C W → State A S C W
  looked s = (get_mapped env p.context_hash s).0

  abbrev lent : ConversationSession → State A S C W → State A S C W × Result Account
  lent y s = session_by_email env y.account_email (looked s)

  abbrev sent : ConversationSession → Account → State A S C W → State A S C W × Outcome
  sent y a s = send_chat_with_session env p a y.chat_id true (lent y s).0

  -- A success is noted in the sessions and the tracker only.
  note_success-accounts :
      (email chat_id : Text) (s : State A S C W)
      → (note_success env p email chat_id s).accounts ≡ s.accounts
  unfolding save_mapping record_chat_usage
  note_success-accounts email chat_id s =
      if-cases (λ (t : State A S C W). t.accounts ≡ s.accounts) (is_blank email || is_blank chat_id)
        _ _ (λ _. refl) (λ _. refl)

  fits :
      (y : ConversationSession)
      → y.model ≡ p.model
      → y.chat_type ≡ p.chat_type
      → (text_beq y.model p.model && text_beq y.chat_type p.chat_type) ≡ true
  fits y model type = rw (model, type, text_beq_refl p.model) (text_beq_refl p.chat_type)

  try_mapped-done :
      (s : State A S C W) (y : ConversationSession) (a : Account) (x : Executed)
      → text_beq p.context_hash [] ≡ false
      → (get_mapped env p.context_hash s).1 ≡ some y
      → y.model ≡ p.model
      → y.chat_type ≡ p.chat_type
      → (lent y s).1 ≡ ok a
      → (sent y a s).1 ≡ executed x
      → try_mapped env p s
        ≡ (note_success env p a.email y.chat_id (sent y a s).0, done (executed x))
  unfolding try_mapped
  try_mapped-done s y a x there found model type lends answers = rw there (
      ap (λ o. mapped_session env p (looked s, o)) found
      ∙ ap
          (λ (b : Bool).
            if b then mapped_account env p y.chat_id (lent y s) else (looked s, go_on []))
          (fits y model type)
      ∙ ap (λ o. mapped_account env p y.chat_id ((lent y s).0, o)) lends
      ∙ ap (λ o. mapped_sent env p a y.chat_id ((sent y a s).0, o)) answers)

  -- A request under a hash whose session is not older than 24 hours and has the model and the type of the
  -- request, and whose account is available: if the request in that chat is answered, then it is the
  -- answer, under that account. The accounts, with all that is noted of their use and their failures,
  -- are left as that one request leaves them, so that no other account is asked for or counted after it.
  -- The session keeps the account and the chat that it had, also if the answer came from a new chat
  -- after the guest was refreshed.
  pub execute_chat_request-continues :
      (s : State A S C W) (f : Sessions) (y : ConversationSession) (a : Account) (x : Executed)
      → IsKeyed f
      → Ready f s.sessions
      → f p.context_hash ≡ some y
      → is_expired (swept_at s) y ≡ false
      → is_stale (read_at s) y ≡ false
      → y.model ≡ p.model
      → y.chat_type ≡ p.chat_type
      → (lent y s).1 ≡ ok a
      → (sent y a s).1 ≡ executed x
      → is_blank a.email ≡ false
      → is_blank y.chat_id ≡ false
      → ((execute_chat_request env p s).1 ≡ some (executed x))
        × (x.account_email ≡ a.email)
        × ((execute_chat_request env p s).0.accounts ≡ (sent y a s).0.accounts)
        × Maps Ready p.context_hash a.email y.chat_id p.model p.chat_type
            (execute_chat_request env p s).0.sessions
  unfolding execute_chat_request
  execute_chat_request-continues s f y a x keyed ready shown lasts young model type lends answers
        mail chat =
      let (found, kept) = get_mapped-IsKept s f y keyed ready shown lasts young in
      let there = named_text env Ready promise is_hex p named trimmed in
      let (sessions, _, answer) =
        send_chat_with_session-IsSent env p a y.chat_id true (lent y s).0 in
      let kept' =
        subst (IsKept Ready) (sym (sessions ∙ session_by_email-sessions y.account_email (looked s)))
          kept in
      subst
        (λ (r : State A S C W × Mapped).
          ((after_mapped env (max_attempts_of env s) p r).1 ≡ some (executed x))
          × (x.account_email ≡ a.email)
          × ((after_mapped env (max_attempts_of env s) p r).0.accounts ≡ (sent y a s).0.accounts)
          × Maps Ready p.context_hash a.email y.chat_id p.model p.chat_type
              (after_mapped env (max_attempts_of env s) p r).0.sessions)
        (sym (try_mapped-done s y a x there found model type lends answers))
        (
          refl,
          (subst (IsAnswerOf p a) answers answer).0,
          note_success-accounts a.email y.chat_id (sent y a s).0,
          note_success-Maps env Ready promise is_hex p named trimmed a.email y.chat_id
              (sent y a s).0 kept' mail chat,
        )
