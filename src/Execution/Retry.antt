-- ===== src/Execution/Retry.antt =====
-- internal/openai/chat_execution.go: executeChatRequest, which continues the chat of the conversation or
-- tries the accounts one after the other.
use qwen2api_go.Prelude.{
  ℕ, zero, suc, Bool, true, false, not, ◌&&◌, Option, none, some, List, [], ◌∷◌, any, ltb, leb,
  length, if◌then◌else◌,
}
use qwen2api_go.Prelude.Int.{ℤ}
use qwen2api_go.Text.{Text, Unicode, codes, text_beq}
use qwen2api_go.Storage.{Account, ConversationSession, Error, Result, ok, err}
use qwen2api_go.Pool.{
  Pool, record_failure, get_account_session_by_email, get_account_session_excluding,
}
use qwen2api_go.Sessions.Service.{get, save, delete}
use qwen2api_go.Execution.Defs.{
  ChatError, upstream, failure, Env, State, Prepared, Executed, Outcome, executed, failed,
  bad_gateway, should_invalidate, normalize_upstream_status, send_chat_with_session,
  record_chat_usage,
}

abbrev pub err_all_failed : Error
err_all_failed = codes "上游聊天请求失败"

-- `attempted[email] = struct{}{}`
abbrev pub add_attempt : Text → List Text → List Text
add_attempt email attempted =
    if any (text_beq email) attempted then attempted else email ∷ attempted

-- What the attempt to continue a chat gives: the outcome, or the accounts that have been attempted.
pub data Mapped : Type 0 where
  done : Outcome → Mapped
  go_on : List Text → Mapped

module _ ⦃u : Unicode⦄ {A S C W : Type 0} (env : Env A S C W) where
  abbrev pub with_pool : Pool → State A S C W → State A S C W
  with_pool pool s = record s { accounts = record s.accounts { pool = pool } }

  -- RecordFailure, and the two calls that give a session, with the times that they read.
  unfoldable pub note_failure : Text → State A S C W → State A S C W
  note_failure email s =
      let (w, now) = env.clock s.world in
      record (with_pool (record_failure now email s.accounts.pool) s) { world = w }

  unfoldable pub session_by_email : Text → State A S C W → State A S C W × Result Account
  session_by_email email s =
      let (w, now) = env.clock s.world in
      let (w', stamp) = env.clock w in
      let (pool, found) = get_account_session_by_email now stamp email s.accounts.pool in
      (record (with_pool pool s) { world = w' }, found)

  unfoldable pub session_excluding : List Text → State A S C W → State A S C W × Result Account
  session_excluding attempted s =
      let (w, now) = env.clock s.world in
      let (w', stamp) = env.clock w in
      let (pool, found) = get_account_session_excluding now stamp attempted s.accounts.pool in
      (record (with_pool pool s) { world = w' }, found)

  -- Get, Save and Delete of the sessions.
  unfoldable pub get_mapped : Text → State A S C W → State A S C W × Option ConversationSession
  get_mapped hash s =
      let (w, swept) = env.clock s.world in
      let (w', now) = env.clock w in
      let (sessions, found) = get env.session_store swept now hash s.sessions in
      (record s { sessions = sessions; world = w' }, found)

  unfoldable pub save_mapping : Prepared → Text → Text → State A S C W → State A S C W
  save_mapping p email chat_id s =
      let (w, now) = env.clock s.world in
      record s {
        sessions =
            save env.session_store env.codec now p.context_hash email chat_id p.model p.chat_type
              s.sessions;
        world = w;
      }

  abbrev pub forget_mapping : Prepared → State A S C W → State A S C W
  forget_mapping p s = record s { sessions = delete env.session_store p.context_hash s.sessions }

  module _ (p : Prepared) where
    -- The success of a request: the mapping and the use of the chat are noted.
    abbrev pub note_success : Text → Text → State A S C W → State A S C W
    note_success email chat_id s =
        record_chat_usage env email chat_id (save_mapping p email chat_id s)

    -- The request in the mapped chat has failed.
    abbrev pub mapped_failed : Account → ChatError → State A S C W → State A S C W × Mapped
    mapped_failed a (upstream e) s =
        if should_invalidate e
        then (forget_mapping p s, go_on [])
        else if e.retryable
        then (note_failure a.email s, go_on (a.email ∷ []))
        else (s, done (failed (normalize_upstream_status e.status_code) (upstream e)))
    mapped_failed a (failure e) s = (note_failure a.email s, go_on (a.email ∷ []))

    abbrev pub mapped_sent : Account → Text → State A S C W × Outcome → State A S C W × Mapped
    mapped_sent a chat_id (s, executed x) = (note_success a.email chat_id s, done (executed x))
    mapped_sent a chat_id (s, failed status e) = mapped_failed a e s

    abbrev pub mapped_account : Text → State A S C W × Result Account → State A S C W × Mapped
    mapped_account chat_id (s, err e) = (s, go_on [])
    mapped_account chat_id (s, ok a) =
        mapped_sent a chat_id (send_chat_with_session env p a chat_id true s)

    abbrev pub mapped_session : State A S C W × Option ConversationSession → State A S C W × Mapped
    mapped_session (s, none) = (s, go_on [])
    mapped_session (s, some x) =
        if text_beq x.model p.model && text_beq x.chat_type p.chat_type
        then mapped_account x.chat_id (session_by_email x.account_email s)
        else (s, go_on [])

    -- The chat that the context hash is mapped to is tried first.
    unfoldable pub try_mapped : State A S C W → State A S C W × Mapped
    unfolding note_failure session_by_email get_mapped save_mapping send_chat_with_session
        record_chat_usage should_invalidate
    try_mapped s =
        if text_beq p.context_hash []
        then (s, go_on [])
        else mapped_session (get_mapped p.context_hash s)

    -- The chat of the stream is remembered, if there is a hash.
    abbrev pub remember : Executed → Account → State A S C W → State A S C W
    remember x a s =
        if not (text_beq p.context_hash []) && not (text_beq x.chat_id [])
        then note_success a.email x.chat_id s
        else s

    -- An upstream error counts as a failure of the account, and may end the mapping.
    unfoldable pub count_error : Account → ChatError → State A S C W → State A S C W
    unfolding note_failure should_invalidate
    count_error a (failure e) s = s
    count_error a (upstream e) s =
        if should_invalidate e && not (text_beq p.context_hash [])
        then forget_mapping p (note_failure a.email s)
        else note_failure a.email s

    abbrev pub tries_again : ChatError → Bool
    tries_again (failure e) = false
    tries_again (upstream e) = e.retryable

    -- What is returned once no account is left.
    abbrev pub last_failure : Option (ℤ × ChatError) → Outcome
    last_failure none = failed bad_gateway (failure err_all_failed)
    last_failure (some (status, e)) = failed status e

  -- The rounds of the loop, and what a round does with the answer: `rest` is the loop with the last
  -- error. `none` says that the fuel is used up.
  abbrev pub Ending : Type 0
  Ending = State A S C W × Option Outcome

  module _ (p : Prepared) (a : Account) (rest : ℤ × ChatError → State A S C W → Ending) where
    abbrev pub answered : State A S C W × Outcome → Ending
    answered (s, executed x) = (remember p x a s, some (executed x))
    answered (s, failed status e) =
        let s' = count_error p a e s in
        if tries_again p e then rest (status, e) s' else (s', some (failed status e))

  module _ (p : Prepared) (last : Option (ℤ × ChatError))
      (rest : Account → ℤ × ChatError → State A S C W → Ending) where
    abbrev pub chosen : State A S C W × Result Account → Ending
    chosen (s, err e) = (s, some (last_failure p last))
    chosen (s, ok a) = answered p a (rest a) (send_chat_with_session env p a [] false s)

  unfoldable pub retry :
      ℕ → ℕ → Prepared → List Text → Option (ℤ × ChatError) → State A S C W → Ending
  unfolding session_excluding send_chat_with_session count_error save_mapping record_chat_usage
  retry zero max_attempts p attempted last s = (s, none)
  retry (suc fuel) max_attempts p attempted last s =
      if ltb (length attempted) max_attempts
      then chosen p last (λ a e. retry fuel max_attempts p (add_attempt a.email attempted) (some e))
          (session_excluding attempted s)
      else (s, some (last_failure p last))

  abbrev pub max_attempts_of : State A S C W → ℕ
  max_attempts_of s =
      let count = length s.accounts.pool.accounts in if leb count 0 then 1 else count

  abbrev pub after_mapped : ℕ → Prepared → State A S C W × Mapped → Ending
  after_mapped max_attempts p (s, done x) = (s, some x)
  after_mapped max_attempts p (s, go_on attempted) =
      retry (suc max_attempts) max_attempts p attempted none s

  -- executeChatRequest behind the preparation of the request; the loop has one round of fuel more than
  -- there are attempts.
  unfoldable pub execute_chat_request : Prepared → State A S C W → Ending
  unfolding try_mapped retry
  execute_chat_request p s = after_mapped (max_attempts_of s) p (try_mapped p s)
