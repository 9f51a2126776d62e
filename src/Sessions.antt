-- ===== src/Sessions.antt =====
-- internal/openai/conversation_sessions.go: the sessions that join a client's conversation to a chat of
-- the upstream.
pub mod Messages
pub mod Aliases
pub mod Service
pub mod Spec
pub mod Refinement
pub mod Changes
pub mod Saving
pub mod Kept
pub mod Lasting
pub mod InMemory
pub mod OnDisk
pub mod Keyed
mod Tests
