-- ===== src/Sessions/Keyed.antt =====
-- Each session stays under its own hash: internal/openai/conversation_sessions.go.
use qwen2api_go.Prelude.{
  ℕ, ◌≡◌, refl, sym, ap, subst, ◌∙◌, inl, inr, Bool, false, ◌||◌, Option, none, some, [],
  Bool-cases, if-cases, if◌then◌else◌, arith,
}
use qwen2api_go.Text.{
  Text, Unicode, text_eq, text_beq, text_beq→eq, text_beq_refl, trim_space, is_blank,
}
use qwen2api_go.Storage.{ConversationSession, ok}
use qwen2api_go.Sessions.Aliases.{cache_context_hash, same_conversation_session}
use qwen2api_go.Sessions.Messages.{Exchange}
use qwen2api_go.Sessions.Service.{Codec, is_expired, is_stale, session_to_save}
use qwen2api_go.Sessions.Spec.{
  Sessions, IsKeyed, keep_unless, without, without_chat, with_session, swept, fresh, spec_get,
  spec_delete, spec_save,
}
use qwen2api_go.Sessions.Refinement.{keep_unless-some}
use qwen2api_go.Sessions.Saving.{IsHex, session_to_save-SaysChat, proper}

pub with_session-IsKeyed :
    (at : Text) (session : ConversationSession) (f : Sessions)
    → session.context_hash ≡ at
    → trim_space at ≡ at
    → IsKeyed f
    → IsKeyed (with_session at session f)
with_session-IsKeyed at session f own trimmed keyed hash x shown =
    elim (Bool-cases (text_beq at hash)) [
      | inl e ↦
          let here : at ≡ hash = text_beq→eq at hash e in
          let same : session ≡ x = some_eq (rw e at shown) in
          (
            ap (λ (y : ConversationSession). y.context_hash) (sym same) ∙ own ∙ here,
            subst (λ h. trim_space h ≡ h) here trimmed,
          )
      | inr e ↦ keyed hash x (rw e at shown)
    ]
  where
    some_eq : {x y : ConversationSession} → some x ≡ some y → x ≡ y
    some_eq h = cc

-- No session is new.
abbrev pub IsPart : Sessions → Sessions → Type 0
IsPart g f = (hash : Text) (x : ConversationSession) → g hash ≡ some x → f hash ≡ some x

part-IsKeyed : (g f : Sessions) → IsPart g f → IsKeyed f → IsKeyed g
part-IsKeyed g f part keyed hash x shown = keyed hash x (part hash x shown)

keep_unless-IsPart :
    (gone : ConversationSession → Bool) (f : Sessions) → IsPart (λ h. keep_unless gone (f h)) f
keep_unless-IsPart gone f hash x shown = (keep_unless-some gone (f hash) shown).0

without-IsPart : (gone : Text) (f g : Sessions) → IsPart g f → IsPart (without gone g) f
without-IsPart gone f g part hash x shown = elim (Bool-cases (text_beq gone hash)) [
  | inl e ↦ cc (rw e at shown)
  | inr e ↦ part hash x (rw e at shown)
]

fresh-IsPart :
    (now : ℕ) (hash : Text) (f g : Sessions) (o : Option ConversationSession)
    → IsPart g f
    → IsPart (fresh now hash g o).0 f
fresh-IsPart now hash f g none part = part
fresh-IsPart now hash f g (some x) part =
    if-cases (λ (r : Sessions × Option ConversationSession). IsPart r.0 f) (is_stale now x) _ _
      (λ _. without-IsPart hash f g part) (λ _. part)

pub spec_get-IsKeyed :
    (sweep now : ℕ) (hash : Text) (f : Sessions) → IsKeyed f → IsKeyed (spec_get sweep now hash f).0
spec_get-IsKeyed sweep now hash f = part-IsKeyed (spec_get sweep now hash f).0 f (
    if-cases (λ (r : Sessions × Option ConversationSession). IsPart r.0 f) (is_blank hash) _ _
      (λ _ h x e. e)
      (λ _.
        fresh-IsPart now (trim_space hash) f (swept sweep f) (swept sweep f (trim_space hash))
          (keep_unless-IsPart (is_expired sweep) f)))

module _ ⦃u : Unicode⦄ where
  without_chat-IsPart :
      (hash : Text) (o : Option ConversationSession) (f : Sessions)
      → IsPart (without_chat hash o f) f
  without_chat-IsPart hash none f = without-IsPart hash f f (λ h x e. e)
  without_chat-IsPart hash (some x) f =
      if-cases (λ g. IsPart g f) (is_blank x.chat_id) _ _
        (λ _. without-IsPart hash f f (λ h y e. e))
        (λ _.
          without-IsPart hash f (λ h. keep_unless (same_conversation_session x) (f h))
            (keep_unless-IsPart (same_conversation_session x) f))

  pub spec_delete-IsKeyed : (hash : Text) (f : Sessions) → IsKeyed f → IsKeyed (spec_delete hash f)
  spec_delete-IsKeyed hash f = part-IsKeyed (spec_delete hash f) f (
      if-cases (λ g. IsPart g f) (is_blank hash) _ _ (λ _ h x e. e)
        (λ _. without_chat-IsPart (trim_space hash) (f (trim_space hash)) f))

pub spec_save-IsKeyed :
    (codec : Codec) (now built : ℕ) (context_hash account_email chat_id model chat_type : Text)
    (exchange : Option Exchange) (f : Sessions)
    → IsHex codec.sha256_hex
    → IsKeyed f
    → IsKeyed
        (spec_save codec now built context_hash account_email chat_id model chat_type exchange f)
spec_save-IsKeyed codec now built context_hash account_email chat_id model chat_type exchange f
      is_hex keyed =
    let hash = cache_context_hash codec.sha256_hex context_hash chat_id in
    let x =
      session_to_save codec now built hash account_email chat_id model chat_type exchange
        (ok (f hash)) in
    if-cases IsKeyed (is_blank account_email || is_blank chat_id || text_beq hash []) f
      (with_session hash x f) (λ _. keyed)
      (λ e.
        with_session-IsKeyed hash x f
          (session_to_save-SaysChat codec now built hash account_email chat_id model chat_type
            exchange (ok (f hash))).0
          (proper codec.sha256_hex context_hash chat_id is_hex (ground arith)).0 keyed)

-- What a save shows under its hash.
pub spec_save-shown :
    (codec : Codec) (now built : ℕ) (context_hash account_email chat_id model chat_type hash : Text)
    (exchange : Option Exchange) (f : Sessions)
    → is_blank account_email ≡ false
    → is_blank chat_id ≡ false
    → text_beq hash [] ≡ false
    → cache_context_hash codec.sha256_hex context_hash chat_id ≡ hash
    → spec_save codec now built context_hash account_email chat_id model chat_type exchange f hash
      ≡ some (
          session_to_save codec now built hash account_email chat_id model chat_type exchange
            (ok (f hash)))
spec_save-shown codec now built context_hash account_email chat_id model chat_type hash exchange f
      mail chat named same =
    let x = λ (h : Text).
      session_to_save codec now built h account_email chat_id model chat_type exchange (ok (f h)) in
    rw mail (
      rw chat (
        subst (λ h. (if text_beq h [] then f else with_session h (x h) f) hash ≡ some (x hash))
          (sym same) (rw named (rw (text_beq_refl hash) refl))))
