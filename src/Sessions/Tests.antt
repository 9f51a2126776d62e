-- ===== src/Sessions/Tests.antt =====
-- The service of sessions over the store in memory, with one session in it.
use qwen2api_go.Prelude.{ℕ, suc, ◌+◌, ◌*◌, ◌/◌, ◌≤◌, ◌≡◌, refl, false, none, some, [], ◌∷◌}
use qwen2api_go.Prelude.Int.{pos}
use qwen2api_go.Text.{Text, codes, text_eq, text_beq, trim_space, trim_left, trim_right, is_space}
use qwen2api_go.Dict.{Dict, lookup}
use qwen2api_go.Clock.{at_unix, unix_milli}
use qwen2api_go.Storage.{ConversationSession}
use qwen2api_go.Storage.Conversations.{memory_store}
use qwen2api_go.Fixtures.{ascii_unicode}
use qwen2api_go.Sessions.Service.{
  Codec, is_expired, is_stale, save_session, get, delete, cleanup_expired, delete_expired,
}
use qwen2api_go.Sessions.Spec.{Sessions, IsKeyed, with_session, spec_delete}
use qwen2api_go.Sessions.Changes.{delete-Implements}
use qwen2api_go.Sessions.Saving.{IsHex}
use qwen2api_go.Sessions.Kept.{saved_sessions, save_session-Keeps}
use qwen2api_go.Sessions.Keyed.{with_session-IsKeyed}
use qwen2api_go.Sessions.Lasting.{get_young}
use qwen2api_go.Sessions.InMemory.{ReadyAndProper, memory_store-IsListing}

abbrev noon : ℕ
noon = at_unix 1700000000

abbrev stored : ConversationSession
stored = record {
  context_hash = codes "h";
  account_email = codes "a@x";
  chat_id = codes "c";
  model = codes "m";
  chat_type = codes "t2t";
  created_at = unix_milli noon;
  updated_at = unix_milli noon;
  last_message = [];
  message_count = pos 0;
  has_tools = false;
  tools_used = [];
  messages = [];
}

abbrev in_memory : Dict Text ConversationSession
in_memory = (codes "h", stored) ∷ []

abbrev shown : Sessions
shown = with_session (codes "h") stored (λ hash. none)

shown-IsKeyed : IsKeyed shown
unfolding trim_space trim_left trim_right is_space
shown-IsKeyed = with_session-IsKeyed (codes "h") stored (λ hash. none) refl refl (λ hash x h. cc)

in_memory-Ready : ReadyAndProper shown in_memory
unfolding lookup
in_memory-Ready = (λ hash. refl, (refl, refl, tt))

abbrev codec : Codec
codec = record { sha256_hex = λ s. codes "0"; print = λ v. []; marshal = λ v. none }

codec-IsHex : IsHex codec.sha256_hex
unfolding is_space
codec-IsHex s = refl

delete-Implements_example :
    ReadyAndProper (spec_delete (codes "h") shown) (delete memory_store (codes "h") in_memory)
delete-Implements_example =
    delete-Implements memory_store ReadyAndProper memory_store-IsListing (codes "h") shown in_memory
      shown-IsKeyed in_memory-Ready

-- A later save over the session that is there.
save_session-Keeps_example :
    ReadyAndProper
      (saved_sessions codec noon noon (codes "h") (codes "b@x") (codes "d") [] [] none shown)
      (save_session memory_store codec noon noon
        (codes "h")
        (codes "b@x")
        (codes "d")
        []
        []
        none
        in_memory)
save_session-Keeps_example =
    save_session-Keeps memory_store ReadyAndProper memory_store-IsListing codec codec-IsHex noon
      noon (codes "h") (codes "b@x") (codes "d") [] [] none shown in_memory in_memory-Ready

finds_stored : (get memory_store noon noon (codes "h") in_memory).1 ≡ some stored
unfolding get cleanup_expired delete_expired is_expired is_stale memory_store lookup trim_space
    trim_left trim_right is_space text_beq
finds_stored = refl

get_young_example :
    (shown (trim_space (codes "h")) ≡ some stored)
    × (noon / 1000000 ≤ suc 1699999999999 + 62135596800000 + 86400000)
    × (noon ≤ (suc 1699999999999 + 62135596800000) * 1000000 + 86400000000000)
get_young_example =
    get_young memory_store ReadyAndProper memory_store-IsListing shown in_memory noon noon
      1699999999999 (codes "h") stored shown-IsKeyed in_memory-Ready finds_stored refl
