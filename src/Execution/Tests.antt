-- ===== src/Execution/Tests.antt =====
-- Requests to an upstream that answers, and to one that has lost a chat.
use qwen2api_go.Prelude.{
  ℕ, ◌+◌, ◌≡◌, refl, Bool, true, false, Option, none, some, [], ◌∷◌, if◌then◌else◌,
}
use qwen2api_go.Prelude.Int.{pos}
use qwen2api_go.Text.{
  Text, codes, text_eq, text_beq, trim_space, is_blank, trim_left, trim_right, is_space, equal_fold,
}
use qwen2api_go.Dict.{Dict, lookup, put, get_or}
use qwen2api_go.Clock.{at_unix, unix_milli}
use qwen2api_go.Storage.{Account, ConversationSession, ok, err, is_guest}
use qwen2api_go.Storage.Conversations.{memory_store}
use qwen2api_go.Pool.{
  new_pool, get_account_session_by_email, available_locked, has_access, admits, is_cooling, forgive,
  touch,
}
use qwen2api_go.Registry.{guest_account, refresh_account, refresh_found}
use qwen2api_go.Fixtures.{ascii_unicode, ada}
use qwen2api_go.Sessions.Service.{
  is_expired, is_stale, get, cleanup_expired, delete_expired, save, save_session, session_to_save,
}
use qwen2api_go.Sessions.Aliases.{cache_context_hash}
use qwen2api_go.Sessions.Spec.{Sessions, IsKeyed, with_session}
use qwen2api_go.Sessions.Saving.{IsHex}
use qwen2api_go.Sessions.Keyed.{with_session-IsKeyed}
use qwen2api_go.Sessions.InMemory.{ReadyAndProper, memory_store-IsListing}
use qwen2api_go.Execution.{
  UpstreamError, upstream, reply, refused, stream, Upstream, Env, State, Prepared, Executed,
  Outcome, executed, retry, execute_chat_request, session_by_email, get_mapped,
  send_chat_with_session, attempt, chat_with, uploaded_with, completed_with, inspected_with,
  try_mapped, save_mapping, record_chat_usage, fail_or_refresh, refresh_guest_session,
}
use qwen2api_go.Execution.Ends.{Ends, execute_chat_request-Ends}
use qwen2api_go.Execution.Attempts.{IsFresh, IsFromLast, tried, retry-IsInTurn}
use qwen2api_go.Execution.Mappings.{Maps}
use qwen2api_go.Execution.Remembers.{IsEnd, retry-IsEnd}
use qwen2api_go.Execution.Continues.{execute_chat_request-continues}

abbrev noon : ℕ
noon = at_unix 1700000000

abbrev gone : UpstreamError
gone = record {
  code = [];
  message = codes "busy";
  details = [];
  response_id = [];
  status_code = pos 500;
  retryable = false;
}

-- An upstream that has lost the chats that `lost` names; each look at the clock takes a nanosecond.
abbrev upstream_without : (Text → Bool) → Upstream ℕ
upstream_without lost = record {
  clock = λ w. (w + 1, noon + w);
  remote = λ w. (w, record { sign_in = λ email password. err []; refresh_guest = none });
  new_chat = λ token model chat_type w. (w, reply (codes "new"));
  upload_inline_media = λ token messages w. (w, ok messages);
  chat_completions = λ a model chat_id chat_type messages w.
      (w, if lost chat_id then refused (upstream gone) else reply (codes "ok"));
  inspect_upstream_stream = λ body w. (w, stream body);
}

abbrev env_without : (Text → Bool) → Env Unit (Dict Text ConversationSession) Unit ℕ
env_without lost = record {
  up = upstream_without lost;
  backend = record {
    store = record {
      load_accounts = λ s. (s, ok []);
      save_account = λ a s. (s, none);
      delete_account = λ email s. (s, none);
      save_all_accounts = λ accounts s. (s, none);
    };
    password_hash = λ s. s;
    payload_exp = λ s. none;
  };
  session_store = memory_store;
  codec = record { sha256_hex = λ s. codes "0"; print = λ v. []; marshal = λ v. none };
  track = λ now email chat_id usages. usages;
}

abbrev stored : Text → ConversationSession
stored email = record {
  context_hash = codes "h";
  account_email = email;
  chat_id = codes "c";
  model = codes "m";
  chat_type = codes "t2t";
  created_at = unix_milli noon;
  updated_at = unix_milli noon;
  last_message = [];
  message_count = pos 0;
  has_tools = false;
  tools_used = [];
  messages = [];
}

abbrev shown : Text → Sessions
shown email = with_session (codes "h") (stored email) (λ hash. none)

shown-IsKeyed : (email : Text) → IsKeyed (shown email)
unfolding trim_space trim_left trim_right is_space
shown-IsKeyed email =
    with_session-IsKeyed (codes "h") (stored email) (λ hash. none) refl refl (λ hash x h. cc)

abbrev state_of : Account → State Unit (Dict Text ConversationSession) Unit ℕ
state_of a = record {
  accounts = record {
    pool = record new_pool { accounts = a ∷ []; initialized = true };
    store_state = tt;
  };
  sessions = (codes "h", stored a.email) ∷ [];
  usages = tt;
  world = 0;
}

state-Ready : (a : Account) → ReadyAndProper (shown a.email) (state_of a).sessions
unfolding lookup
state-Ready a = (λ hash. refl, (refl, refl, tt))

abbrev request : Prepared
request = record {
  requested_model = codes "m";
  model = codes "m";
  chat_type = codes "t2t";
  full_upstream_messages = [];
  last_upstream_messages = [];
  context_hash = codes "h";
  tool_names = [];
}

abbrev answering : Env Unit (Dict Text ConversationSession) Unit ℕ
answering = env_without (λ chat_id. false)

answering-IsHex : IsHex answering.codec.sha256_hex
unfolding is_space
answering-IsHex s = refl

execute_chat_request-Ends_example :
    Ends answering (execute_chat_request answering request (state_of ada))
execute_chat_request-Ends_example = execute_chat_request-Ends answering request (state_of ada)

retry-IsInTurn_example :
    IsFresh (codes "b@x" ∷ []) (tried answering request 2 2 (codes "b@x" ∷ []) (state_of ada))
    × IsFromLast
        (tried answering request 2 2 (codes "b@x" ∷ []) (state_of ada))
        (retry answering 2 2 request (codes "b@x" ∷ []) none (state_of ada)).1
retry-IsInTurn_example = retry-IsInTurn answering request 2 2 (codes "b@x" ∷ []) none (state_of ada)

request-named : is_blank request.context_hash ≡ false
unfolding trim_space trim_left trim_right is_space text_beq
request-named = refl

request-trimmed : trim_space request.context_hash ≡ request.context_hash
unfolding trim_space trim_left trim_right is_space
request-trimmed = refl

retry-IsEnd_example :
    IsEnd answering ReadyAndProper request (retry answering 2 1 request [] none (state_of ada))
retry-IsEnd_example =
    retry-IsEnd answering ReadyAndProper memory_store-IsListing answering-IsHex request
      request-named request-trimmed 2 1 [] none (state_of ada)
      (shown ada.email, shown-IsKeyed ada.email, state-Ready ada)

-- The answer to a request of Ada's conversation.
abbrev ada_answer : Executed
ada_answer = record {
  model = codes "m";
  requested_model = codes "m";
  chat_type = codes "t2t";
  context_hash = codes "h";
  account_email = codes "a@x";
  chat_id = codes "c";
  tool_names = [];
  body = codes "ok";
}

-- Ada is available, and the chat answers.
ada-lent :
    (session_by_email answering (codes "a@x") (get_mapped answering (codes "h") (state_of ada)).0).1
    ≡ ok ada
unfolding session_by_email get_account_session_by_email available_locked get_mapped get
    cleanup_expired delete_expired is_expired is_stale memory_store lookup trim_space trim_left
    trim_right is_space text_beq equal_fold is_guest has_access admits is_cooling forgive get_or
    touch
ada-lent = refl

ada-answers :
    (send_chat_with_session answering request ada
      (codes "c")
      true
      (session_by_email answering
        (codes "a@x")
        (get_mapped answering (codes "h") (state_of ada)).0).0).1
    ≡ executed ada_answer
unfolding send_chat_with_session attempt chat_with uploaded_with completed_with inspected_with
    trim_space trim_left trim_right is_space text_beq
ada-answers = refl

not_expired : is_expired noon (stored ada.email) ≡ false
unfolding is_expired
not_expired = refl

not_stale : is_stale (noon + 1) (stored ada.email) ≡ false
unfolding is_stale
not_stale = refl

shown_here : shown ada.email (codes "h") ≡ some (stored ada.email)
unfolding text_beq
shown_here = refl

ada-named : is_blank ada.email ≡ false
unfolding trim_space trim_left trim_right is_space text_beq
ada-named = refl

chat_named : is_blank (codes "c") ≡ false
unfolding trim_space trim_left trim_right is_space text_beq
chat_named = refl

execute_chat_request-continues_example :
    ((execute_chat_request answering request (state_of ada)).1 ≡ some (executed ada_answer))
    × (ada_answer.account_email ≡ ada.email)
    × ((execute_chat_request answering request (state_of ada)).0.accounts
        ≡ (send_chat_with_session answering request ada
            (codes "c")
            true
            (session_by_email answering
              (codes "a@x")
              (get_mapped answering (codes "h") (state_of ada)).0).0).0.accounts)
    × Maps ReadyAndProper
        (codes "h")
        ada.email
        (codes "c")
        (codes "m")
        (codes "t2t")
        (execute_chat_request answering request (state_of ada)).0.sessions
execute_chat_request-continues_example =
    execute_chat_request-continues answering ReadyAndProper memory_store-IsListing answering-IsHex
      request request-named request-trimmed (state_of ada) (shown ada.email) (stored ada.email) ada
      ada_answer (shown-IsKeyed ada.email) (state-Ready ada) shown_here not_expired not_stale refl
      refl ada-lent ada-answers ada-named chat_named

-- An upstream that has lost the chat of the conversation: the guest is refreshed, and the answer comes
-- from a new chat, but the session still names the lost one.
abbrev losing : Env Unit (Dict Text ConversationSession) Unit ℕ
losing = env_without (λ chat_id. text_beq chat_id (codes "c"))

abbrev chat_of : Option Outcome → Text
chat_of (some (executed x)) = x.chat_id
chat_of _ = []

abbrev mapped_chat : Option ConversationSession → Text
mapped_chat none = []
mapped_chat (some y) = y.chat_id

guest_keeps_lost_chat :
    (chat_of (execute_chat_request losing request (state_of guest_account)).1 ≡ codes "new")
    × (mapped_chat (
          lookup
            (codes "h")
            (execute_chat_request losing request (state_of guest_account)).0.sessions)
        ≡ codes "c")
unfolding execute_chat_request try_mapped save_mapping record_chat_usage save save_session
    session_to_save cache_context_hash put session_by_email get_account_session_by_email
    available_locked get_mapped get cleanup_expired delete_expired is_expired is_stale memory_store
    lookup send_chat_with_session attempt chat_with uploaded_with completed_with inspected_with
    fail_or_refresh refresh_guest_session refresh_account refresh_found trim_space trim_left
    trim_right is_space text_beq equal_fold is_guest has_access admits is_cooling forgive get_or
    touch
guest_keeps_lost_chat = (refl, refl)
