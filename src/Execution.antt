-- ===== src/Execution.antt =====
-- internal/openai/chat_execution.go: the accounts and the chat that a request runs under. The pool of
-- accounts, the sessions and the tracker of chats are those of the other modules; what is outside the
-- program is a world, which each call of it changes.
mod Defs
pub mod Prepare
mod Retry
mod Tests
pub mod Ends
pub mod Sent
pub mod Mappings
pub mod Remembers
pub mod Attempts
pub mod Continues
pub use Defs.{
  UpstreamError, ChatError, upstream, failure, Reply, reply, refused, Inspected, unread,
  error_event, stream, Upstream, Env, State, Prepared, Executed, Outcome, executed, failed,
  bad_gateway, status_of, Step, after_refresh, executed_chat, forgiven, base_messages,
}
unfoldable pub use Defs.{
  error_text, should_invalidate, normalize_upstream_status, refresh_guest_session, fail_or_refresh,
  inspected_with, completed_with, uploaded_with, chat_with, attempt, send_chat_with_session,
  record_chat_usage,
}
pub use Retry.{
  Mapped, done, go_on, err_all_failed, add_attempt, with_pool, forget_mapping, note_success,
  mapped_failed, mapped_sent, mapped_account, mapped_session, remember, tries_again, last_failure,
  Ending, answered, chosen, max_attempts_of, after_mapped,
}
unfoldable pub use Retry.{
  note_failure, session_by_email, session_excluding, get_mapped, save_mapping, try_mapped,
  count_error, retry, execute_chat_request,
}
