-- ===== src/Execution/Remembers.antt =====
-- A conversation stays in its chat: internal/openai/chat_execution.go, executeChatRequest, together with
-- internal/openai/conversation_sessions.go.
use qwen2api_go.Prelude.{
  ℕ, zero, suc, ◌≡◌, refl, sym, ap, subst, ◌∙◌, true, false, not, ◌&&◌, Option, none, some, List,
  [], ◌∷◌, ltb, length, if-cases, if◌then◌else◌,
}
use qwen2api_go.Prelude.Int.{ℤ}
use qwen2api_go.Text.{Text, Unicode, text_beq, trim_space, trim_left, trim_right, is_blank}
use qwen2api_go.Storage.{Account, Result, ok, err}
use qwen2api_go.Sessions.Spec.{Sessions, IsListing}
use qwen2api_go.Sessions.Saving.{IsHex}
use qwen2api_go.Execution.{
  ChatError, Env, State, Prepared, Executed, Outcome, executed, failed, add_attempt, Ending,
  answered, chosen, last_failure, tries_again, remember, note_success, session_excluding, retry,
  count_error, send_chat_with_session,
}
use qwen2api_go.Execution.Sent.{IsAnswerOf, send_chat_with_session-IsSent}
use qwen2api_go.Execution.Mappings.{
  IsKept, Maps, Remembers, count_error-IsKept, named_text, note_success-Maps,
}

module _ ⦃u : Unicode⦄ {A S C W : Type 0} (env : Env A S C W) (Ready : Sessions → S → Type 0)
    (p : Prepared) where
  -- The state after an answer remembers it; after an error the sessions are still in order.
  abbrev pub IsEnd : Ending env → Type 0
  IsEnd (s, none) = Unit
  IsEnd (s, some (failed status e)) = IsKept Ready s.sessions
  IsEnd (s, some (executed x)) =
      is_blank x.account_email ≡ false
      → is_blank x.chat_id ≡ false
      → Remembers Ready p.context_hash x s.sessions

module _ ⦃u : Unicode⦄ {A S C W : Type 0} (env : Env A S C W) (Ready : Sessions → S → Type 0)
    (promise : IsListing env.session_store Ready) (is_hex : IsHex env.codec.sha256_hex)
    (p : Prepared) (named : is_blank p.context_hash ≡ false)
    (trimmed : trim_space p.context_hash ≡ p.context_hash) where
  moved :
      (x : Executed) (a : Account) (sessions : S)
      → IsAnswerOf p a (executed x)
      → Maps Ready p.context_hash a.email x.chat_id p.model p.chat_type sessions
      → Remembers Ready p.context_hash x sessions
  moved x a sessions (own, model, type, _) (f, keyed, ready, y, shown, own', chat, model', type') =
      (f, keyed, ready, y, shown, own' ∙ sym own, chat, model' ∙ sym model, type' ∙ sym type)

  both_named :
      (s : Text)
      → is_blank s ≡ false
      → (not (text_beq p.context_hash []) && not (text_beq s [])) ≡ true
  unfolding text_beq trim_space trim_left trim_right
  both_named s h = rw (named_text env Ready promise is_hex p named trimmed) (ap not (not_empty s h))
    where
      not_empty : (t : Text) → is_blank t ≡ false → text_beq t [] ≡ false
      not_empty [] k = k
      not_empty (c ∷ t) k = refl

  remember-Remembers :
      (x : Executed) (a : Account) (s : State A S C W)
      → IsKept Ready s.sessions
      → IsAnswerOf p a (executed x)
      → IsEnd env Ready p (remember env p x a s, some (executed x))
  remember-Remembers x a s kept answer mail chat =
      subst
        (λ b.
          Remembers Ready p.context_hash x
            (if b then note_success env p a.email x.chat_id s else s).sessions)
        (sym (both_named x.chat_id chat))
        (moved x a _ answer (
          note_success-Maps env Ready promise is_hex p named trimmed a.email x.chat_id s kept
            (ap is_blank (sym answer.0) ∙ mail) chat))

  answered-IsEnd :
      (a : Account) (rest : ℤ × ChatError → State A S C W → Ending env)
      (r : State A S C W × Outcome)
      → IsKept Ready r.0.sessions
      → IsAnswerOf p a r.1
      → ((e : ℤ × ChatError) (s : State A S C W)
          → IsKept Ready s.sessions
          → IsEnd env Ready p (rest e s))
      → IsEnd env Ready p (answered env p a rest r)
  answered-IsEnd a rest (s, executed x) kept answer h = remember-Remembers x a s kept answer
  answered-IsEnd a rest (s, failed status e) kept answer h =
      let kept' = count_error-IsKept env Ready promise is_hex p a e s kept in
      if-cases (IsEnd env Ready p) (tries_again env p e) _ _
        (λ _. h (status, e) (count_error env p a e s) kept') (λ _. kept')

  last_failure-IsEnd :
      (last : Option (ℤ × ChatError)) (s : State A S C W)
      → IsKept Ready s.sessions
      → IsEnd env Ready p (s, some (last_failure env p last))
  last_failure-IsEnd none s kept = kept
  last_failure-IsEnd (some last) s kept = kept

  chosen-IsEnd :
      (last : Option (ℤ × ChatError)) (rest : Account → ℤ × ChatError → State A S C W → Ending env)
      (r : State A S C W × Result Account)
      → IsKept Ready r.0.sessions
      → ((a : Account) (e : ℤ × ChatError) (s : State A S C W)
          → IsKept Ready s.sessions
          → IsEnd env Ready p (rest a e s))
      → IsEnd env Ready p (chosen env p last rest r)
  chosen-IsEnd last rest (s, err e) kept h = last_failure-IsEnd last s kept
  chosen-IsEnd last rest (s, ok a) kept h =
      let (sessions, _, answer) = send_chat_with_session-IsSent env p a [] false s in
      answered-IsEnd a (rest a) (send_chat_with_session env p a [] false s)
        (subst (IsKept Ready) (sym sessions) kept) answer (h a)

  -- The loop over the accounts, for a request with a context hash: when it returns an answer with an
  -- account and a chat, then under the hash stands a session of exactly that account and chat, with the
  -- model and the type of the request; when it returns an error the sessions are still in order.
  pub retry-IsEnd :
      (fuel max_attempts : ℕ) (attempted : List Text) (last : Option (ℤ × ChatError))
      (s : State A S C W)
      → IsKept Ready s.sessions
      → IsEnd env Ready p (retry env fuel max_attempts p attempted last s)
  unfolding retry session_excluding
  retry-IsEnd zero max_attempts attempted last s kept = tt
  retry-IsEnd (suc fuel) max_attempts attempted last s kept =
      if-cases (IsEnd env Ready p) (ltb (length attempted) max_attempts) _ _
        (λ _.
          chosen-IsEnd last
            (λ a e. retry env fuel max_attempts p (add_attempt a.email attempted) (some e))
            (session_excluding env attempted s) kept
            (λ a e t kept'.
              retry-IsEnd fuel max_attempts (add_attempt a.email attempted) (some e) t kept'))
        (λ _. last_failure-IsEnd last s kept)
