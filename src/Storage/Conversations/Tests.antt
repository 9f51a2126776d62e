-- ===== src/Storage/Conversations/Tests.antt =====
-- A store of conversation sessions in memory and one on a disk, ready for use.
use qwen2api_go.Prelude.{◌≡◌, refl, false, none, some, [], if◌then◌else◌}
use qwen2api_go.Prelude.Int.{pos}
use qwen2api_go.Text.{codes, text_beq, trim_space}
use qwen2api_go.Dict.{lookup}
use qwen2api_go.Storage.{ConversationSession, ok}
use qwen2api_go.Storage.Conversations.{file_conversations}
use qwen2api_go.Storage.FileStore.{Disk, holds, default_data}
use qwen2api_go.Storage.Conversations.Faithful.{ReadyInMemory}
use qwen2api_go.Storage.Conversations.OnDisk.{ReadyOnDisk, file_conversations_remembers}

empty_memory-Ready : ReadyInMemory (λ hash. none) []
unfolding lookup
empty_memory-Ready = λ hash. refl

abbrev default_disk : Disk
default_disk = record {
  contents = holds default_data;
  dir_fault = none;
  read_fault = none;
  write_fault = none;
}

abbrev session : ConversationSession
session = record {
  context_hash = codes "h";
  account_email = codes "a@x";
  chat_id = codes "c";
  model = [];
  chat_type = [];
  created_at = pos 1;
  updated_at = pos 2;
  last_message = [];
  message_count = pos 1;
  has_tools = false;
  tools_used = [];
  messages = [];
}

default_disk-Ready : ReadyOnDisk (λ hash. none) default_disk
default_disk-Ready = record {
  contained = default_data;
  stored = refl;
  dir_works = refl;
  read_works = refl;
  write_works = refl;
  sessions = λ hash. refl;
}

file_conversations_remembers_example :
    ((file_conversations.save_conversation_session session default_disk).1 ≡ none)
    × ((file_conversations.get_conversation_session
          (codes " h ")
          (file_conversations.save_conversation_session session default_disk).0).1
        ≡ ok (
            if text_beq session.context_hash (trim_space (codes " h "))
            then some session
            else none))
    × ((file_conversations.get_conversation_session
          (codes " h ")
          (file_conversations.delete_conversation_session (codes "h") default_disk).0).1
        ≡ ok (if text_beq (trim_space (codes "h")) (trim_space (codes " h ")) then none else none))
file_conversations_remembers_example =
    file_conversations_remembers (λ hash. none) default_disk session (codes " h ") (codes "h")
      default_disk-Ready
