-- ===== src/Sessions/OnDisk.antt =====
-- The store of sessions in the file also lists what it shows: internal/storage/conversations.go, for the
-- service of internal/openai/conversation_sessions.go.
use qwen2api_go.Prelude.{
  ◌≡◌, refl, sym, ap, subst, ◌∙◌, inl, inr, true, false, not, none, some, List, [], ◌∷◌, ◌++◌, In,
  any, find, keep, change_first, find-In, Bool-cases, if-cases, if◌then◌else◌, arith,
}
use qwen2api_go.Text.{Text, text_eq, text_beq, text_beq→eq, text_beq_iff, text_beq_refl, trim_space}
use qwen2api_go.Storage.{ConversationSession, Result, ok, err}
use qwen2api_go.Storage.FileStore.{FileData, Disk, change_data, change_data_lem}
use qwen2api_go.Storage.Conversations.{
  has_hash, upsert_session, without_session, file_conversations,
}
use qwen2api_go.Storage.Conversations.OnDisk.{
  ReadyOnDisk, find-change_first, find-append_last, find-upsert_session, find-keep_other, read_lem,
  file_conversations-IsFaithful,
}
use qwen2api_go.Sessions.Spec.{Sessions, IsListing}

-- No hash comes twice.
abbrev pub IsOnce : List ConversationSession → Type 0
IsOnce [] = Unit
IsOnce (x ∷ xs) = (find (has_hash x.context_hash) xs ≡ none) × IsOnce xs

abbrev pub ReadyAndOnce : Sessions → Disk → Type 0
ReadyAndOnce f disk = (v : ReadyOnDisk f disk) × IsOnce v.contained.sessions

change_first-IsOnce :
    (s : ConversationSession) (xs : List ConversationSession)
    → any (has_hash s.context_hash) xs ≡ true
    → IsOnce xs
    → IsOnce (change_first (has_hash s.context_hash) (λ _. s) xs)
change_first-IsOnce s [] h once = tt
change_first-IsOnce s (x ∷ xs) h (alone, once) =
    elim (Bool-cases (text_beq x.context_hash s.context_hash)) [
      | inl e ↦ rw e (
        subst (λ hash. find (has_hash hash) xs ≡ none) (text_beq→eq x.context_hash s.context_hash e)
            alone,
        once,
      )
      | inr e ↦
          let later : any (has_hash s.context_hash) xs ≡ true = ground (arith, h, e) in
          rw e (
            ground (
              arith,
              alone,
              find-change_first s x.context_hash xs later,
              text_beq_iff x.context_hash s.context_hash,
              text_beq_iff s.context_hash x.context_hash,
            ),
            change_first-IsOnce s xs later once,
          )
    ]

append_last-IsOnce :
    (s : ConversationSession) (xs : List ConversationSession)
    → any (has_hash s.context_hash) xs ≡ false
    → IsOnce xs
    → IsOnce (xs ++ s ∷ [])
append_last-IsOnce s [] h once = (refl, tt)
append_last-IsOnce s (x ∷ xs) h (alone, once) = (
  ground (
    arith,
    alone,
    h,
    find-append_last s x.context_hash xs,
    text_beq_iff x.context_hash s.context_hash,
    text_beq_iff s.context_hash x.context_hash,
  ),
  append_last-IsOnce s xs (ground (arith, h)) once,
)

upsert_session-IsOnce :
    (s : ConversationSession) (xs : List ConversationSession)
    → IsOnce xs
    → IsOnce (upsert_session s xs)
unfolding upsert_session
upsert_session-IsOnce s xs once =
    if-cases IsOnce (any (has_hash s.context_hash) xs) _ _ (λ e. change_first-IsOnce s xs e once)
      (λ e. append_last-IsOnce s xs e once)

keep_other-IsOnce :
    (gone : Text) (xs : List ConversationSession)
    → IsOnce xs
    → IsOnce (keep (λ session. not (has_hash gone session)) xs)
keep_other-IsOnce gone [] once = tt
keep_other-IsOnce gone (x ∷ xs) (alone, once) =
    if-cases IsOnce (not (has_hash gone x)) _ _
      (λ _. (
        ground (arith, alone, find-keep_other gone x.context_hash xs),
        keep_other-IsOnce gone xs once,
      ))
      (λ _. keep_other-IsOnce gone xs once)

listed-found :
    (xs : List ConversationSession) (x : ConversationSession)
    → IsOnce xs
    → In x xs
    → find (has_hash x.context_hash) xs ≡ some x
listed-found [] x once member = absurd member
listed-found (y ∷ xs) x (alone, once) (inl e) =
    subst (λ z. find (has_hash z.context_hash) (y ∷ xs) ≡ some z) e
      (rw (text_beq_refl y.context_hash) refl)
listed-found (y ∷ xs) x (alone, once) (inr member) =
    elim (Bool-cases (text_beq y.context_hash x.context_hash)) [
      | inl e ↦ cc (
        alone,
        ap (λ hash. find (has_hash hash) xs) (text_beq→eq y.context_hash x.context_hash e),
        listed-found xs x once member,
      )
      | inr e ↦ rw e (listed-found xs x once member)
    ]

change_data-ReadyAndOnce :
    (f g : Sessions) (change : FileData → FileData) (disk : Disk) (v : ReadyOnDisk f disk)
    → ((hash : Text) → find (has_hash hash) (change v.contained).sessions ≡ g hash)
    → IsOnce (change v.contained).sessions
    → ReadyAndOnce g (change_data change disk).0
change_data-ReadyAndOnce f g change disk v h once =
    subst (λ (r : Disk × _). ReadyAndOnce g r.0)
      (sym
        (change_data_lem change v.contained disk v.stored v.dir_works v.read_works v.write_works))
      (
        record {
          contained = change v.contained;
          stored = refl;
          dir_works = v.dir_works;
          read_works = v.read_works;
          write_works = v.write_works;
          sessions = h;
        },
        once,
      )

-- The store in the file, on a disk without faults whose sessions have different hashes, keeps its promise
-- and lists exactly what it shows.
pub file_conversations-IsListing : IsListing file_conversations ReadyAndOnce
unfolding file_conversations without_session
file_conversations-IsListing = record {
  shows = λ f disk v. file_conversations-IsFaithful.shows f disk v.0;
  saved = λ f disk x named v.
      change_data-ReadyAndOnce f _ _ disk v.0
        (λ hash.
          find-upsert_session x hash v.0.contained.sessions
          ∙ ap (λ o. if text_beq x.context_hash hash then some x else o) (v.0.sessions hash))
        (upsert_session-IsOnce x v.0.contained.sessions v.1);
  deleted = λ f disk hash v.
      change_data-ReadyAndOnce f _ _ disk v.0
        (λ other.
          find-keep_other (trim_space hash) other v.0.contained.sessions
          ∙ ap (λ o. if text_beq (trim_space hash) other then none else o) (v.0.sessions other))
        (keep_other-IsOnce (trim_space hash) v.0.contained.sessions v.1);
  listed = λ f disk v. (
    v.0.contained.sessions,
    ap (λ (r : Disk × Result FileData). (r.0, elim r.1 [ err e ↦ err e | ok d ↦ ok d.sessions ]))
        (read_lem v.0.contained disk v.0.stored v.0.dir_works v.0.read_works),
    λ x. (
      λ member.
          sym (v.0.sessions x.context_hash) ∙ listed-found v.0.contained.sessions x v.1 member,
      λ shown.
          find-In (has_hash x.context_hash) x v.0.contained.sessions
            (v.0.sessions x.context_hash ∙ shown),
    ),
  );
}
