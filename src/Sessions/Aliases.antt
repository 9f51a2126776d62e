-- ===== src/Sessions/Aliases.antt =====
-- internal/openai/conversation_sessions.go: the hashes under which one chat is kept.
use qwen2api_go.Prelude.{
  Bool, true, not, ◌&&◌, ◌||◌, Option, none, some, List, [], ◌∷◌, ◌++◌, map, any, ltb, length,
  if◌then◌else◌,
}
use qwen2api_go.Prelude.Int.{ltb_ℤ, eqb_ℤ}
use qwen2api_go.Text.{Text, Unicode, codes, text_eq, text_beq, trim_space, is_blank, to_lower}
use qwen2api_go.Dict.{Dict, lookup, put}
use qwen2api_go.Storage.{ConversationSession}

module _ (sha256_hex : Text → Text) where
  -- The hash itself, or one of the chat; the empty text if both are blank.
  unfoldable pub cache_context_hash : Text → Text → Text
  cache_context_hash context_hash chat_id =
      if not (is_blank context_hash)
      then trim_space context_hash
      else if is_blank chat_id
      then []
      else codes "chat:" ++ sha256_hex (codes "chat:" ++ trim_space chat_id)

  -- The loop: `seen` has the hashes that are in the result already.
  unfoldable pub aliases_from : List Text → List Text → List Text
  aliases_from seen [] = []
  aliases_from seen (hash ∷ rest) =
      let trimmed = trim_space hash in
      let skipped = aliases_from seen rest in
      let kept = trimmed ∷ aliases_from (trimmed ∷ seen) rest in
      if text_beq trimmed [] || any (text_beq trimmed) seen then skipped else kept

  abbrev pub or_fallback : Text → List Text → List Text
  or_fallback fallback [] = if text_beq fallback [] then [] else fallback ∷ []
  or_fallback fallback (hash ∷ hashes) = hash ∷ hashes

  unfoldable pub normalize_context_hash_aliases : List Text → Text → List Text
  unfolding aliases_from cache_context_hash
  normalize_context_hash_aliases context_hashes chat_id =
      or_fallback (cache_context_hash [] chat_id) (aliases_from [] context_hashes)

module _ ⦃u : Unicode⦄ where
  unfoldable pub conversation_alias_key : ConversationSession → Text
  conversation_alias_key session =
      if is_blank session.account_email || is_blank session.chat_id
      then []
      else to_lower (trim_space session.account_email) ++ 0 ∷ trim_space session.chat_id

  unfoldable pub same_conversation_session : ConversationSession → ConversationSession → Bool
  unfolding conversation_alias_key
  same_conversation_session a b =
      not (text_beq (conversation_alias_key a) [])
      && text_beq (conversation_alias_key a) (conversation_alias_key b)

unfoldable pub session_is_more_useful : ConversationSession → ConversationSession → Bool
session_is_more_useful candidate existing =
    if not (eqb_ℤ candidate.updated_at existing.updated_at)
    then ltb_ℤ existing.updated_at candidate.updated_at
    else if not (eqb_ℤ candidate.message_count existing.message_count)
    then ltb_ℤ existing.message_count candidate.message_count
    else ltb (length existing.messages) (length candidate.messages)

-- `!ok || sessionIsMoreUseful(session, existing)`
abbrev pub replaces : ConversationSession → Option ConversationSession → Bool
replaces session none = true
replaces session (some existing) = session_is_more_useful session existing

module _ ⦃u : Unicode⦄ where
  -- The loop: the sessions without a key, and the map byChat.
  unfoldable pub by_chat :
      List ConversationSession
      → Dict Text ConversationSession
      → List ConversationSession × Dict Text ConversationSession
  unfolding conversation_alias_key session_is_more_useful
  by_chat [] chats = ([], chats)
  by_chat (session ∷ sessions) chats =
      let key = conversation_alias_key session in
      let (loose, without) = by_chat sessions chats in
      let better = replaces session (lookup key chats) in
      let rest = by_chat sessions (if better then put key session chats else chats) in
      if text_beq key [] then (session ∷ loose, without) else rest

  -- The map is read in the order of its association list, which Go leaves open.
  unfoldable pub dedupe_conversation_session_aliases :
      List ConversationSession → List ConversationSession
  unfolding by_chat
  dedupe_conversation_session_aliases sessions =
      let (loose, chats) = by_chat sessions [] in
      loose ++ map (λ (entry : Text × ConversationSession). entry.1) chats
