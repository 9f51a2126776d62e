-- ===== src/Lib.antt =====
-- Qwen2API_Go, a service that offers Qwen Chat under the interfaces of OpenAI and Anthropic. What is
-- modelled is the part that decides which account a request runs under, who may call, and what is
-- counted.
--
-- The parts and the files that model them:
--   * Pool.antt, internal/account/service.go: the accounts in memory, with the times of use and the
--     failure counts by email. `get_account_session`, `get_account_session_by_email` and
--     `get_account_session_excluding` are GetAccountSession, GetAccountSessionByEmail and
--     GetAccountSessionExcluding; `available_locked` and `round_robin_locked` are availableLocked and
--     roundRobinLocked; `record_failure` and `reset_failure` are RecordFailure and ResetFailure. The
--     children are named for what they are about; Pool/Stats.antt has RuntimeForAccount,
--     BuildHealthStats and rotationStats.
--   * Credentials.antt, the same file: decodeJWTExpiry, remainingHours and the login.
--   * Registry.antt, the same file: Initialize, AddAccount, AddAccountWithToken, DeleteAccount,
--     RefreshAccount and RefreshAllAccounts, on the pool together with a store of accounts. A store is
--     a record `AccountStore` of the four operations of the interface of that name.
--   * Storage.antt, internal/storage/accounts.go: the account record and that interface;
--     Storage/FileStore.antt has fileStore, and Storage/EnvStore.antt envStore.
--     The interface ConversationStore of internal/storage/conversations.go is there too, and
--     Storage/Conversations.antt has its stores in memory and in the file. Storage/Choice.antt says
--     which stores a program has.
--   * Tracker.antt, internal/storage/chat_tracker.go: the tracker of chats in memory; Cleanup.antt,
--     internal/cleanup/service.go: cleanupProgramChats, which uses the tracker and the pool;
--     Cleanup/Pages.antt has cleanupAllChats.
--   * Usage.antt, internal/openai/usage_estimate.go: the estimates of tokens. Prompts.antt,
--     internal/prompts/prompts.go: the prompts and their overrides.
--   * Sessions.antt, internal/openai/conversation_sessions.go: the sessions that join a conversation to a
--     chat of the upstream, over any `ConversationStore`. Sessions/Messages.antt has the messages that
--     are kept, Sessions/Aliases.antt the hashes of one chat, and Sessions/Service.antt the methods:
--     `get`, `save_session`, `delete`, `cleanup_expired` and `list_all`. Sessions/Spec.antt says what they
--     promise on a map from hashes to sessions, over a store `IsListing`; InMemory.antt and OnDisk.antt
--     have the two stores that are such.
--   * Execution.antt, internal/openai/chat_execution.go: executeChatRequest, which puts the pool, the
--     sessions and the tracker together. Execution/Defs.antt has one request to the upstream,
--     Execution/Retry.antt the chat of the conversation and the loop over the accounts, and
--     Execution/Prepare.antt the choice of messages.
--   * Toolcall.antt, internal/toolcall/toolcall.go: tool calls in the messages to the model and in its
--     output. Toolcall/Sieve.antt has the sieve, ProcessStreamChunk and FinalizeStream, on the bytes of
--     the output; a cut out of range, which panics, is `none`, and what the code does by regular
--     expressions is the record `Markup`. Toolcall/Escapes.antt has the texts of XML, Content.antt
--     normalizeToolMessages, Policy.antt normalizeToolSchemas and parseToolChoicePolicy, and
--     Injection.antt InjectPromptWithOverrides.
--   * Json.antt: the values of type `any` that the handlers read.
--   * Keyring.antt, internal/auth/apikey.go and errors.go: the API keys.
--   * Metrics.antt, internal/metrics/stats.go: the counters behind the dashboard.
-- Prelude, Text, Dict and Clock hold what these share: lists, strings, maps and times. Each part has a
-- module Tests with its theorems at concrete values; Fixtures.antt has what the tests share.
--
-- How the code is represented:
--   * A method is a function of the state, which returns the new state and the answer. The methods
--     hold a mutex, so that each is one step; a sequence of calls is a list of a data type of calls
--     (Registry/History.antt, Metrics/Consistency.antt). AddAccount lets go of the mutex between its
--     two checks, and RefreshAllAccounts between two accounts: they are taken as one step.
--   * A time is the number of nanoseconds since Go's zero time, so that IsZero is a test for 0. The
--     times that a call reads are its arguments; nothing is assumed of their order.
--   * A string that holds valid UTF-8 is the list of its code points. Letters of ASCII change case by
--     computation; Unicode's tables for the others are the interface `Unicode`.
--     The strings of the sieve are lists of bytes.
--   * The maps are association lists, gone through in their order where Go leaves it open. A map that a
--     function changes in place is a new one in its answer. Counts and token counts are natural
--     numbers without a bound.
--   * An `error` is its message, `none` for nil. What the upstream answers to a login is the record
--     `Remote`, an argument of each call. SHA-256, and base64 and JSON as they read the field `exp`,
--     are in the record `Backend`.
--   * The faults of a disk are part of its state; JSON that is written is read again as it was.
--   * What is outside the program, for a chat request, is a world of any type, which each call of the
--     record `Upstream` changes; the clock is read from it.
--   * Hours that the code rounds to tenths are numbers of tenths; the rounding of binary fractions is
--     left out.
-- The loops are recursions on the list they run over. The loop of roundRobinLocked makes as many
-- rounds as there are accounts, as in the code, and that of Snapshot thirty. The loop of
-- cleanupAccountAllChats over the pages of the upstream has fuel, one round more than there are pages,
-- and that of executeChatRequest one round more than the pool has accounts. The digits of a number are
-- written with fuel for 20, more than an int64 has.
--
-- Not modelled: the HTTP handlers of internal/openai, internal/admin and internal/server, the client
-- of internal/qwen, the regular expressions of internal/toolcall and its values for a schema,
-- internal/toolargs, internal/ssxmod, internal/config, internal/logging, all stores in Redis, the timers
-- that refresh accounts and clean up, and the console in public.
pub mod Prelude
pub mod Text
pub mod Dict
pub mod Json
pub mod Sessions
pub mod Execution
pub mod Toolcall
pub mod Storage
pub mod Clock
pub mod Pool
pub mod Credentials
pub mod Registry
pub mod Keyring
pub mod Fixtures
pub mod Metrics
pub mod Tracker
pub mod Cleanup
pub mod Usage
pub mod Prompts
