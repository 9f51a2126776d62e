-- ===== src/Tracker/Listing.antt =====
-- What has been recorded is what is listed: internal/storage/chat_tracker.go, RecordChatUsage,
-- DeleteChatUsage and ListChatUsages of the tracker in memory.
use qwen2api_go.Prelude.{
  ℕ, ◌≡◌, refl, sym, subst, ap, ◌∙◌, false, Option, none, some, List, [], ◌∷◌, any, eqb, In, ◌==◌,
  Bool-cases, inl, inr,
}
use qwen2api_go.Text.{Text, text_eq, text_beq_refl, text_beq_iff, cut, cut-hit}
use qwen2api_go.Dict.{Dict, lookup, lookup-put}
use qwen2api_go.Tracker.{
  ChatUsage, chat_tracker_key, record_chat_usage, append_usage, list_chat_usages,
}

append_usage-In :
    (u : ChatUsage) (parts : Option (Text × Text)) (t : ℕ) (rest : List ChatUsage)
    → In u rest
    → In u (append_usage parts t rest)
append_usage-In u none t rest m = m
append_usage-In u (some (email, chat)) t rest m = inr m

listed-In :
    (email chat key : Text) (t : ℕ) (usages : Dict Text ℕ)
    → cut b'|' key ≡ some (email, chat)
    → lookup key usages ≡ some t
    → In
        (record { account_email = email; chat_id = chat; updated_at = t })
        (list_chat_usages usages)
unfolding lookup list_chat_usages
listed-In email chat key t [] e h = cc
listed-In email chat key t ((j, s) ∷ usages) e h = elim (Bool-cases (j == key)) [
  | inl same ↦
      subst
        (λ (parts : Option (Text × Text)).
          In (record { account_email = email; chat_id = chat; updated_at = t })
            (append_usage parts s (list_chat_usages usages)))
        (sym e ∙ ap (cut b'|') (sym ((text_beq_iff j key).0 same))) (inl (cc (rw same at h)))
  | inr other ↦
      append_usage-In _ (cut b'|' j) s _ (listed-In email chat key t usages e (rw other at h))
]

-- A use that is recorded is listed, with its time, unless the email has a vertical bar in it.
pub list-record_chat_usage :
    (now : ℕ) (email chat : Text) (usages : Dict Text ℕ)
    → any (eqb b'|') email ≡ false
    → In
        (record { account_email = email; chat_id = chat; updated_at = now })
        (list_chat_usages (record_chat_usage now email chat usages))
unfolding record_chat_usage chat_tracker_key
list-record_chat_usage now email chat usages plain =
    listed-In email chat (chat_tracker_key email chat) now _ (cut-hit b'|' email chat plain) (
      lookup-put (chat_tracker_key email chat) (chat_tracker_key email chat) now usages
      ∙ rw (text_beq_refl (chat_tracker_key email chat)) refl)
