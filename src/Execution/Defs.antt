-- ===== src/Execution/Defs.antt =====
-- internal/openai/chat_execution.go: one request to the upstream, under an account.
use qwen2api_go.Prelude.{
  ℕ, Bool, false, not, ◌&&◌, ◌||◌, Option, none, some, List, [], eqb, length, if◌then◌else◌,
}
use qwen2api_go.Prelude.Int.{ℤ, pos, leb_ℤ}
use qwen2api_go.Text.{Text, Unicode, codes, text_eq, trim_space, is_blank, to_lower, contains}
use qwen2api_go.Json.{Entries}
use qwen2api_go.Storage.{Account, ConversationStore, Error, Result, ok, err, is_guest}
use qwen2api_go.Credentials.{Remote, Backend}
use qwen2api_go.Pool.{reset_failure}
use qwen2api_go.Registry.{Service, refresh_account}
use qwen2api_go.Sessions.Service.{Codec}

-- internal/qwen/upstream.go
pub record UpstreamError : Type 0 where
  pub code : Text
  pub message : Text
  pub details : Text
  pub response_id : Text
  pub status_code : ℤ
  pub retryable : Bool

-- Go's `error`, which may hold an UpstreamError.
pub data ChatError : Type 0 where
  upstream : UpstreamError → ChatError
  failure : Error → ChatError

pub data Reply (A : Type 0) : Type 0 where
  reply : A → Reply A
  refused : ChatError → Reply A

-- What InspectUpstreamStream gives: an error of the connection, an error that the upstream reports, or
-- a stream.
pub data Inspected : Type 0 where
  unread : Error → Inspected
  error_event : UpstreamError → Inspected
  stream : Text → Inspected

-- UpstreamError.Error
unfoldable pub error_text : UpstreamError → Text
error_text e =
    if not (is_blank e.details)
    then e.details
    else if not (is_blank e.message)
    then e.message
    else if not (is_blank e.code)
    then e.code
    else codes "上游请求失败"

unfoldable pub normalize_upstream_status : ℤ → ℤ
normalize_upstream_status status = if leb_ℤ status (pos 0) then pos 502 else status

module _ ⦃u : Unicode⦄ where
  -- shouldInvalidateConversationMapping
  unfoldable pub should_invalidate : UpstreamError → Bool
  unfolding error_text
  should_invalidate e =
      let haystack = to_lower (trim_space (error_text e)) in
      contains (codes "chat_id") haystack
      || contains (codes "not found") haystack
      || contains (codes "permission") haystack
      || contains (codes "unauthorized") haystack

-- What is outside: the clock, the client of Qwen, and the upload of media. The request of
-- `chat_completions` is made of the account, the model, the chat, its type and the messages.
pub record Upstream (W : Type 0) : Type 0 where
  pub clock : W → W × ℕ
  pub remote : W → W × Remote
  pub new_chat : Text → Text → Text → W → W × Reply Text
  pub upload_inline_media : Text → List Entries → W → W × Result (List Entries)
  pub chat_completions : Account → Text → Text → Text → List Entries → W → W × Reply Text
  pub inspect_upstream_stream : Text → W → W × Inspected

-- The stores behind the handler, and the packages that it calls. `track` is RecordChatUsage of the
-- tracker at a time, and does nothing if there is no tracker.
pub record Env (A S C W : Type 0) : Type 0 where
  pub up : Upstream W
  pub open up use *
  pub backend : Backend A
  pub session_store : ConversationStore S
  pub codec : Codec
  pub track : ℕ → Text → Text → C → C

pub record State (A S C W : Type 0) : Type 0 where
  pub accounts : Service A
  pub sessions : S
  pub usages : C
  pub world : W

-- preparedChatRequest, as far as it is sent or decides what is sent.
pub record Prepared : Type 0 where
  pub requested_model : Text
  pub model : Text
  pub chat_type : Text
  pub full_upstream_messages : List Entries
  pub last_upstream_messages : List Entries
  pub context_hash : Text
  pub tool_names : List Text

-- executedChat: the stream carries the id of its chat, as `withChatID` adds it.
pub record Executed : Type 0 where
  pub model : Text
  pub requested_model : Text
  pub chat_type : Text
  pub context_hash : Text
  pub account_email : Text
  pub chat_id : Text
  pub tool_names : List Text
  pub body : Text

-- The two results of a request: a chat with status 200, or a status and an error.
pub data Outcome : Type 0 where
  executed : Executed → Outcome
  failed : ℤ → ChatError → Outcome

abbrev pub bad_gateway : ℤ
bad_gateway = pos 502

-- The status that goes with an error of the client.
abbrev pub status_of : ChatError → ℤ
status_of (upstream e) = normalize_upstream_status e.status_code
status_of (failure e) = bad_gateway

module _ ⦃u : Unicode⦄ {A S C W : Type 0} (env : Env A S C W) where
  unfoldable pub refresh_guest_session : Account → State A S C W → State A S C W × Option Error
  refresh_guest_session a s =
      let (w, remote) = env.remote s.world in
      let (w', now) = env.clock w in
      let (accounts, e) = refresh_account env.backend remote now a.email s.accounts in
      if is_guest a then (record s { accounts = accounts; world = w' }, e) else (s, none)

  abbrev pub Step : Type 0
  Step = State A S C W → State A S C W × Outcome

  abbrev pub after_refresh :
      Step → ℤ → ChatError → State A S C W × Option Error → State A S C W × Outcome
  after_refresh again status e (s, none) = again s
  after_refresh again status e (s, some _) = (s, failed status e)

  -- The guest's session is refreshed and the request made again, if `again` is given.
  unfoldable pub fail_or_refresh : Option Step → Account → ℤ → ChatError → Step
  unfolding refresh_guest_session
  fail_or_refresh none a status e s = (s, failed status e)
  fail_or_refresh (some again) a status e s =
      if is_guest a
      then after_refresh again status e (refresh_guest_session a s)
      else (s, failed status e)

  module _ (p : Prepared) (again : Option Step) (a : Account) where
    abbrev pub executed_chat : Text → Text → Executed
    executed_chat chat_id body = record {
      model = p.model;
      requested_model = p.requested_model;
      chat_type = p.chat_type;
      context_hash = p.context_hash;
      account_email = a.email;
      chat_id = chat_id;
      tool_names = p.tool_names;
      body = body;
    }

    -- `h.accounts.ResetFailure(session.Email)`
    abbrev pub forgiven : State A S C W → State A S C W
    forgiven s = record s {
      accounts = record s.accounts { pool = reset_failure a.email s.accounts.pool };
    }

    unfoldable pub inspected_with : Text → Inspected → Step
    unfolding fail_or_refresh
    inspected_with chat_id (unread e) s = fail_or_refresh again a bad_gateway (failure e) s
    inspected_with chat_id (error_event e) s =
        fail_or_refresh again a (normalize_upstream_status e.status_code) (upstream e) s
    inspected_with chat_id (stream body) s = (forgiven s, executed (executed_chat chat_id body))

    unfoldable pub completed_with : Text → Reply Text → Step
    unfolding inspected_with
    completed_with chat_id (refused e) s = fail_or_refresh again a (status_of e) e s
    completed_with chat_id (reply body) s =
        let (w, inspected) = env.inspect_upstream_stream body s.world in
        inspected_with chat_id inspected (record s { world = w })

    unfoldable pub uploaded_with : Text → Result (List Entries) → Step
    unfolding completed_with
    uploaded_with chat_id (err e) s = (s, failed bad_gateway (failure e))
    uploaded_with chat_id (ok messages) s =
        let (w, answer) = env.chat_completions a p.model chat_id p.chat_type messages s.world in
        completed_with chat_id answer (record s { world = w })

    abbrev pub base_messages : Bool → List Entries
    base_messages incremental =
        if incremental && not (eqb (length p.last_upstream_messages) 0)
        then p.last_upstream_messages
        else p.full_upstream_messages

    unfoldable pub chat_with : Bool → Reply Text → Step
    unfolding uploaded_with
    chat_with incremental (refused e) s = fail_or_refresh again a (status_of e) e s
    chat_with incremental (reply chat_id) s =
        let (w, messages) = env.upload_inline_media a.token (base_messages incremental) s.world in
        uploaded_with chat_id messages (record s { world = w })

    -- The chat that is given, or a new one.
    unfoldable pub attempt : Text → Bool → Step
    unfolding chat_with
    attempt existing_chat_id incremental s =
        let (w, opened) = env.new_chat a.token p.model p.chat_type s.world in
        if is_blank existing_chat_id
        then chat_with incremental opened (record s { world = w })
        else chat_with incremental (reply (trim_space existing_chat_id)) s

  -- sendChatWithSession, with sendChatWithSessionAttempt: a guest's session is refreshed once, and the
  -- request is then made in a new chat.
  unfoldable pub send_chat_with_session : Prepared → Account → Text → Bool → Step
  unfolding attempt
  send_chat_with_session p a existing_chat_id incremental =
      attempt p (some (attempt p none a [] false)) a existing_chat_id incremental

  unfoldable pub record_chat_usage : Text → Text → State A S C W → State A S C W
  record_chat_usage account_email chat_id s =
      let (w, now) = env.clock s.world in
      if is_blank account_email || is_blank chat_id
      then s
      else record s { usages = env.track now account_email chat_id s.usages; world = w }
