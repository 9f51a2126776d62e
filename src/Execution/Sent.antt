-- ===== src/Execution/Sent.antt =====
-- What one request to the upstream leaves alone, and whose account its answer names: internal/openai/
-- chat_execution.go, sendChatWithSession.
use qwen2api_go.Prelude.{◌≡◌, refl, Bool, false, Option, none, some, List, [], if-cases}
use qwen2api_go.Prelude.Int.{ℤ}
use qwen2api_go.Text.{Text, Unicode, trim_space, is_blank}
use qwen2api_go.Json.{Entries}
use qwen2api_go.Storage.{Account, Error, Result, ok, err, is_guest}
use qwen2api_go.Execution.{
  ChatError, upstream, failure, Reply, reply, refused, Inspected, unread, error_event, stream, Env,
  State, Prepared, Outcome, executed, failed, bad_gateway, status_of, Step, after_refresh,
  refresh_guest_session, fail_or_refresh, inspected_with, completed_with, uploaded_with, chat_with,
  attempt, send_chat_with_session, normalize_upstream_status,
}

-- The answer is for the request and names the account.
abbrev pub IsAnswerOf : Prepared → Account → Outcome → Type 0
IsAnswerOf p a (failed status e) = Unit
IsAnswerOf p a (executed x) =
    (x.account_email ≡ a.email)
    × (x.model ≡ p.model)
    × (x.chat_type ≡ p.chat_type)
    × (x.context_hash ≡ p.context_hash)

module _ ⦃u : Unicode⦄ {A S C W : Type 0} (env : Env A S C W) where
  module _ (p : Prepared) (a : Account) (sessions : S) (usages : C) where
    -- The sessions and the tracker are as they were, and the outcome is for the request.
    abbrev pub IsSent : State A S C W × Outcome → Type 0
    IsSent r = (r.0.sessions ≡ sessions) × (r.0.usages ≡ usages) × IsAnswerOf p a r.1

    abbrev pub Same : State A S C W → Type 0
    Same s = (s.sessions ≡ sessions) × (s.usages ≡ usages)

    abbrev SendsAgain : Option (Step env) → Type 0
    SendsAgain none = Unit
    SendsAgain (some again) = (s : State A S C W) → Same s → IsSent (again s)

    refresh_guest_session-Same :
        (s : State A S C W) → Same s → Same (refresh_guest_session env a s).0
    unfolding refresh_guest_session
    refresh_guest_session-Same s same =
        if-cases (λ (r : State A S C W × Option Error). Same r.0) (is_guest a) _ _ (λ _. same)
          (λ _. same)

    after_refresh-IsSent :
        (again : Step env) (status : ℤ) (e : ChatError) (r : State A S C W × Option Error)
        → SendsAgain (some again)
        → Same r.0
        → IsSent (after_refresh env again status e r)
    after_refresh-IsSent again status e (s, none) sends same = sends s same
    after_refresh-IsSent again status e (s, some _) sends same = (same.0, same.1, tt)

    fail_or_refresh-IsSent :
        (again : Option (Step env)) (status : ℤ) (e : ChatError) (s : State A S C W)
        → SendsAgain again
        → Same s
        → IsSent (fail_or_refresh env again a status e s)
    unfolding fail_or_refresh
    fail_or_refresh-IsSent none status e s sends same = (same.0, same.1, tt)
    fail_or_refresh-IsSent (some again) status e s sends same =
        if-cases IsSent (is_guest a) _ _
          (λ _.
            after_refresh-IsSent again status e (refresh_guest_session env a s) sends
              (refresh_guest_session-Same s same))
          (λ _. (same.0, same.1, tt))

    module _ (again : Option (Step env)) (sends : SendsAgain again) where
      inspected_with-IsSent :
          (chat_id : Text) (answer : Inspected) (s : State A S C W)
          → Same s
          → IsSent (inspected_with env p again a chat_id answer s)
      unfolding inspected_with
      inspected_with-IsSent chat_id (unread e) s same =
          fail_or_refresh-IsSent again bad_gateway (failure e) s sends same
      inspected_with-IsSent chat_id (error_event e) s same =
          fail_or_refresh-IsSent again (normalize_upstream_status e.status_code) (upstream e) s
            sends same
      inspected_with-IsSent chat_id (stream body) s same =
          (same.0, same.1, (refl, refl, refl, refl))

      completed_with-IsSent :
          (chat_id : Text) (answer : Reply Text) (s : State A S C W)
          → Same s
          → IsSent (completed_with env p again a chat_id answer s)
      unfolding completed_with
      completed_with-IsSent chat_id (refused e) s same =
          fail_or_refresh-IsSent again (status_of e) e s sends same
      completed_with-IsSent chat_id (reply body) s same = inspected_with-IsSent chat_id _ _ same

      uploaded_with-IsSent :
          (chat_id : Text) (answer : Result (List Entries)) (s : State A S C W)
          → Same s
          → IsSent (uploaded_with env p again a chat_id answer s)
      unfolding uploaded_with
      uploaded_with-IsSent chat_id (err e) s same = (same.0, same.1, tt)
      uploaded_with-IsSent chat_id (ok messages) s same = completed_with-IsSent chat_id _ _ same

      chat_with-IsSent :
          (incremental : Bool) (answer : Reply Text) (s : State A S C W)
          → Same s
          → IsSent (chat_with env p again a incremental answer s)
      unfolding chat_with
      chat_with-IsSent incremental (refused e) s same =
          fail_or_refresh-IsSent again (status_of e) e s sends same
      chat_with-IsSent incremental (reply chat_id) s same = uploaded_with-IsSent chat_id _ _ same

      attempt-IsSent :
          (existing : Text) (incremental : Bool) (s : State A S C W)
          → Same s
          → IsSent (attempt env p again a existing incremental s)
      unfolding attempt
      attempt-IsSent existing incremental s same =
          if-cases IsSent (is_blank existing) _ _ (λ _. chat_with-IsSent incremental _ _ same)
            (λ _. chat_with-IsSent incremental (reply (trim_space existing)) s same)

  -- A request leaves the sessions and the tracker alone, whether or not the guest is refreshed, and an
  -- answer names the account that it was made under.
  pub send_chat_with_session-IsSent :
      (p : Prepared) (a : Account) (existing : Text) (incremental : Bool) (s : State A S C W)
      → IsSent p a s.sessions s.usages (send_chat_with_session env p a existing incremental s)
  unfolding send_chat_with_session
  send_chat_with_session-IsSent p a existing incremental s =
      attempt-IsSent p a s.sessions s.usages (some (attempt env p none a [] false))
        (λ t same. attempt-IsSent p a s.sessions s.usages none tt [] false t same) existing
        incremental s (refl, refl)
