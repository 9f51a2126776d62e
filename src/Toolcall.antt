-- ===== src/Toolcall.antt =====
-- internal/toolcall/toolcall.go: tool calls in the messages to the model and in its output.
pub mod Escapes
pub mod Content
pub mod Markers
pub mod Sieve
pub mod Starts
pub mod Held
pub mod Passing
pub mod Feeding
mod Tests
pub mod Policy
pub mod Decoding
pub mod Injection
pub mod Roles
