-- ===== src/Sessions/InMemory.antt =====
-- The store of sessions in memory also lists what it shows: internal/storage/conversations.go, for the
-- service of internal/openai/conversation_sessions.go.
use qwen2api_go.Prelude.{
  ◌≡◌, refl, sym, ap, subst, ◌∙◌, inl, inr, true, false, none, some, [], ◌∷◌, map, In, Bool-cases,
  if-cases, arith,
}
use qwen2api_go.Text.{Text, text_eq, text_beq, text_beq→eq, text_beq_iff, trim_space, is_blank}
use qwen2api_go.Dict.{Dict, lookup, put, remove, lookup-put, lookup-remove}
use qwen2api_go.Storage.{ConversationSession}
use qwen2api_go.Storage.Conversations.{memory_store}
use qwen2api_go.Storage.Conversations.Faithful.{ReadyInMemory, memory_store-IsFaithful}
use qwen2api_go.Sessions.Spec.{Sessions, IsListing}

-- Each session stands under its own hash, and once.
abbrev pub IsProper : Dict Text ConversationSession → Type 0
IsProper [] = Unit
IsProper ((k, x) ∷ m) = (x.context_hash ≡ k) × (lookup k m ≡ none) × IsProper m

abbrev pub ReadyAndProper : Sessions → Dict Text ConversationSession → Type 0
ReadyAndProper f s = ReadyInMemory f s × IsProper s

lookup-hit :
    (k j : Text) (x : ConversationSession) (m : Dict Text ConversationSession)
    → text_beq k j ≡ true
    → lookup j ((k, x) ∷ m) ≡ some x
unfolding lookup
lookup-hit k j x m e = rw e refl

lookup-miss :
    (k j : Text) (x : ConversationSession) (m : Dict Text ConversationSession)
    → text_beq k j ≡ false
    → lookup j ((k, x) ∷ m) ≡ lookup j m
unfolding lookup
lookup-miss k j x m e = rw e refl

put-IsProper :
    (x : ConversationSession) (m : Dict Text ConversationSession)
    → IsProper m
    → IsProper (put x.context_hash x m)
unfolding put lookup
put-IsProper x [] h = (refl, refl, tt)
put-IsProper x ((k, y) ∷ m) (own, once, rest) = elim (Bool-cases (text_beq k x.context_hash)) [
  | inl e ↦ rw e (refl, subst (λ h. lookup h m ≡ none) (text_beq→eq k x.context_hash e) once, rest)
  | inr e ↦ rw e (
    own,
    ground (
      arith,
      lookup-put x.context_hash k x m,
      text_beq_iff k x.context_hash,
      text_beq_iff x.context_hash k,
    ),
    put-IsProper x m rest,
  )
]

remove-IsProper :
    (hash : Text) (m : Dict Text ConversationSession) → IsProper m → IsProper (remove hash m)
unfolding remove
remove-IsProper hash [] h = tt
remove-IsProper hash ((k, y) ∷ m) (own, once, rest) = elim (Bool-cases (text_beq k hash)) [
  | inl e ↦ rw e (remove-IsProper hash m rest)
  | inr e ↦ rw e (own, ground (arith, lookup-remove hash k m), remove-IsProper hash m rest)
]

listed-shown :
    (m : Dict Text ConversationSession) (x : ConversationSession)
    → IsProper m
    → In x (map (λ (entry : Text × ConversationSession). entry.1) m)
    → lookup x.context_hash m ≡ some x
listed-shown [] x h member = absurd member
listed-shown ((k, y) ∷ m) x (own, once, rest) (inl e) =
    lookup-hit k x.context_hash y m (
      (text_beq_iff k x.context_hash).1
        (sym own ∙ ap (λ (z : ConversationSession). z.context_hash) e))
    ∙ ap some e
listed-shown ((k, y) ∷ m) x (own, once, rest) (inr member) =
    elim (Bool-cases (text_beq k x.context_hash)) [
      | inl e ↦ cc (
        once,
        ap (λ h. lookup h m) (text_beq→eq k x.context_hash e),
        listed-shown m x rest member,
      )
      | inr e ↦ lookup-miss k x.context_hash y m e ∙ listed-shown m x rest member
    ]

found_eq : {x y : ConversationSession} → some x ≡ some y → x ≡ y
found_eq h = cc

none_found : {x : ConversationSession} → none ≡ some x → ⊥
none_found h = cc

shown-listed :
    (m : Dict Text ConversationSession) (x : ConversationSession)
    → lookup x.context_hash m ≡ some x
    → In x (map (λ (entry : Text × ConversationSession). entry.1) m)
unfolding lookup
shown-listed [] x h = none_found (h)
shown-listed ((k, y) ∷ m) x h = elim (Bool-cases (text_beq k x.context_hash)) [
  | inl e ↦ inl (found_eq (sym (lookup-hit k x.context_hash y m e) ∙ h))
  | inr e ↦ inr (shown-listed m x (sym (lookup-miss k x.context_hash y m e) ∙ h))
]

-- The store in memory keeps its promise and lists exactly what it shows.
pub memory_store-IsListing : IsListing memory_store ReadyAndProper
unfolding memory_store
memory_store-IsListing = record {
  shows = λ f s v. memory_store-IsFaithful.shows f s v.0;
  saved = λ f s x named v. (
    λ hash. memory_store-IsFaithful.saved f s x v.0 hash ∙ rw named refl,
    if-cases IsProper (is_blank x.context_hash) s (put x.context_hash x s) (λ _. v.1)
        (λ _. put-IsProper x s v.1),
  );
  deleted = λ f s hash v.
      (memory_store-IsFaithful.deleted f s hash v.0, remove-IsProper (trim_space hash) s v.1);
  listed = λ f s v. (
    map (λ (entry : Text × ConversationSession). entry.1) s,
    refl,
    λ x. (
      λ member. sym (v.0 x.context_hash) ∙ listed-shown s x v.1 member,
      λ shown. shown-listed s x (v.0 x.context_hash ∙ shown),
    ),
  );
}
