-- ===== src/Storage/Conversations.antt =====
-- internal/storage/conversations.go: the stores of conversation sessions in memory and in the file.
pub mod Faithful
pub mod OnDisk
mod Tests
use qwen2api_go.Prelude.{
  Bool, not, Option, none, some, List, [], ◌∷◌, ◌++◌, map, any, find, keep, change_first,
  if◌then◌else◌,
}
use qwen2api_go.Text.{Text, text_eq, text_beq, trim_space, is_blank}
use qwen2api_go.Dict.{Dict, lookup, put, remove}
use qwen2api_go.Storage.{ConversationSession, ConversationStore, Error, Result, ok, err}
use qwen2api_go.Storage.FileStore.{FileData, Disk, read, change_data}

-- The map of memoryConversationStore, by context hash.
unfoldable pub memory_store : ConversationStore (Dict Text ConversationSession)
memory_store = record {
  get_conversation_session = λ hash sessions. (sessions, ok (lookup (trim_space hash) sessions));
  save_conversation_session = λ session sessions. (
    (if is_blank session.context_hash then sessions else put session.context_hash session sessions),
    none,
  );
  delete_conversation_session = λ hash sessions. (remove (trim_space hash) sessions, none);
  list_conversation_sessions =
      λ sessions. (sessions, ok (map (λ (entry : Text × ConversationSession). entry.1) sessions));
}

abbrev pub has_hash : Text → ConversationSession → Bool
has_hash hash session = text_beq session.context_hash hash

-- Replace the first session with that hash, or append the session.
unfoldable pub upsert_session :
    ConversationSession → List ConversationSession → List ConversationSession
upsert_session session sessions =
    if any (has_hash session.context_hash) sessions
    then change_first (has_hash session.context_hash) (λ _. session) sessions
    else sessions ++ session ∷ []

unfoldable pub without_session : Text → List ConversationSession → List ConversationSession
without_session hash = keep (λ session. not (has_hash (trim_space hash) session))

unfoldable pub file_conversations : ConversationStore Disk
unfolding read change_data upsert_session without_session
file_conversations = record {
  get_conversation_session = λ hash disk.
      let (disk', result) = read disk in
      (
        disk',
        elim result [ err e ↦ err e | ok d ↦ ok (find (has_hash (trim_space hash)) d.sessions) ],
      );
  save_conversation_session =
      λ session. change_data (λ d. record d { sessions = upsert_session session d.sessions });
  delete_conversation_session =
      λ hash. change_data (λ d. record d { sessions = without_session hash d.sessions });
  list_conversation_sessions = λ disk.
      let (disk', result) = read disk in
      (disk', elim result [ err e ↦ err e | ok d ↦ ok d.sessions ]);
}
