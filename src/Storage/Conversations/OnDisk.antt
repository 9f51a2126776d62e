-- ===== src/Storage/Conversations/OnDisk.antt =====
-- The store of conversation sessions in the file keeps the promise: internal/storage/conversations.go.
use qwen2api_go.Prelude.{
  ◌≡◌, refl, sym, subst, ap, ◌∙◌, true, false, not, Option, none, some, List, [], ◌∷◌, ◌++◌, any,
  find, keep, change_first, arith, if◌then◌else◌, if-cases,
}
use qwen2api_go.Text.{Text, text_eq, text_beq, text_beq_iff, trim_space}
use qwen2api_go.Storage.{ConversationSession, Error, Result, ok, err}
use qwen2api_go.Storage.FileStore.{
  FileData, holds, Disk, read, read_file, ensure, change_data, change_data_lem,
}
use qwen2api_go.Storage.Conversations.{
  has_hash, upsert_session, without_session, file_conversations,
}
use qwen2api_go.Storage.Conversations.Faithful.{IsFaithful, remembers}

pub find-change_first :
    (session : ConversationSession) (hash : Text) (xs : List ConversationSession)
    → any (has_hash session.context_hash) xs ≡ true
    → find (has_hash hash) (change_first (has_hash session.context_hash) (λ _. session) xs)
      ≡ (if text_beq session.context_hash hash then some session else find (has_hash hash) xs)
find-change_first session hash [] h = cc
find-change_first session hash (x ∷ xs) h = ground (
  arith,
  find-change_first session hash xs,
  text_beq_iff x.context_hash session.context_hash,
  text_beq_iff x.context_hash hash,
  text_beq_iff session.context_hash hash,
)

pub find-append_last :
    (session : ConversationSession) (hash : Text) (xs : List ConversationSession)
    → any (has_hash session.context_hash) xs ≡ false
    → find (has_hash hash) (xs ++ session ∷ [])
      ≡ (if text_beq session.context_hash hash then some session else find (has_hash hash) xs)
find-append_last session hash [] h = refl
find-append_last session hash (x ∷ xs) h = ground (
  arith,
  find-append_last session hash xs,
  text_beq_iff x.context_hash session.context_hash,
  text_beq_iff x.context_hash hash,
  text_beq_iff session.context_hash hash,
)

pub find-upsert_session :
    (session : ConversationSession) (hash : Text) (xs : List ConversationSession)
    → find (has_hash hash) (upsert_session session xs)
      ≡ (if text_beq session.context_hash hash then some session else find (has_hash hash) xs)
unfolding upsert_session
find-upsert_session session hash xs =
    if-cases
      (λ ys.
        find (has_hash hash) ys
        ≡ (if text_beq session.context_hash hash then some session else find (has_hash hash) xs))
      (any (has_hash session.context_hash) xs) _ _ (find-change_first session hash xs)
      (find-append_last session hash xs)

pub find-keep_other :
    (gone hash : Text) (xs : List ConversationSession)
    → find (has_hash hash) (keep (λ session. not (has_hash gone session)) xs)
      ≡ (if text_beq gone hash then none else find (has_hash hash) xs)
find-keep_other gone hash [] = ground arith
find-keep_other gone hash (x ∷ xs) = ground (
  arith,
  find-keep_other gone hash xs,
  text_beq_iff x.context_hash gone,
  text_beq_iff x.context_hash hash,
  text_beq_iff gone hash,
)

-- A disk without faults whose file has sessions of which the first of each hash is given by `f`.
pub record ReadyOnDisk (f : Text → Option ConversationSession) (disk : Disk) : Type 0 where
  pub contained : FileData
  pub stored : disk.contents ≡ holds contained
  pub dir_works : disk.dir_fault ≡ none
  pub read_works : disk.read_fault ≡ none
  pub write_works : disk.write_fault ≡ none
  pub sessions : (hash : Text) → find (has_hash hash) contained.sessions ≡ f hash

change_data-Ready :
    (f g : Text → Option ConversationSession) (change : FileData → FileData) (disk : Disk)
    (v : ReadyOnDisk f disk)
    → ((hash : Text) → find (has_hash hash) (change v.contained).sessions ≡ g hash)
    → ((change_data change disk).1 ≡ none) × ReadyOnDisk g (change_data change disk).0
change_data-Ready f g change disk v h =
    subst (λ (r : Disk × Option Error). (r.1 ≡ none) × ReadyOnDisk g r.0)
      (sym
        (change_data_lem change v.contained disk v.stored v.dir_works v.read_works v.write_works))
      (
        refl,
        record {
          contained = change v.contained;
          stored = refl;
          dir_works = v.dir_works;
          read_works = v.read_works;
          write_works = v.write_works;
          sessions = h;
        },
      )

pub read_lem :
    (d : FileData) (disk : Disk)
    → disk.contents ≡ holds d
    → disk.dir_fault ≡ none
    → disk.read_fault ≡ none
    → read disk ≡ (disk, ok d)
unfolding read read_file ensure
read_lem d disk stored dir_works read_works = ground arith

-- The store in the file keeps the promise for all sessions, those with a blank hash among them, on a
-- disk without faults.
pub file_conversations-IsFaithful : IsFaithful file_conversations (λ _. false) ReadyOnDisk
unfolding file_conversations without_session
file_conversations-IsFaithful = record {
  shows = λ f disk v hash.
      ap
        (λ (r : Disk × Result FileData). (
          r.0,
          elim r.1 [ err e ↦ err e | ok d ↦ ok (find (has_hash (trim_space hash)) d.sessions) ],
        ))
        (read_lem v.contained disk v.stored v.dir_works v.read_works)
      ∙ ap (λ (o : Option ConversationSession). (disk, ok o)) (v.sessions (trim_space hash));
  saves = λ f disk session v. (change_data-Ready f _ _ disk v (λ hash. refl)).0;
  saved = λ f disk session v.
      (change_data-Ready f _ _ disk v (λ hash.
        find-upsert_session session hash v.contained.sessions ∙ rw (v.sessions hash) refl)).1;
  deleted = λ f disk hash v.
      (change_data-Ready f _ _ disk v (λ other.
        find-keep_other (trim_space hash) other v.contained.sessions
        ∙ rw (v.sessions other) refl)).1;
}

-- On a disk without faults whose file shows the sessions `f`, a save succeeds; a session is then found
-- exactly under its hash, and under all other hashes what was there before, also if its hash is blank;
-- after a delete nothing is found under the hash deleted, and under all others what was there before.
pub file_conversations_remembers :
    (f : Text → Option ConversationSession) (disk : Disk) (session : ConversationSession)
    (hash gone : Text)
    → ReadyOnDisk f disk
    → ((file_conversations.save_conversation_session session disk).1 ≡ none)
      × ((file_conversations.get_conversation_session hash
            (file_conversations.save_conversation_session session disk).0).1
          ≡ ok (
              if text_beq session.context_hash (trim_space hash)
              then some session
              else f (trim_space hash)))
      × ((file_conversations.get_conversation_session hash
            (file_conversations.delete_conversation_session gone disk).0).1
          ≡ ok (if text_beq (trim_space gone) (trim_space hash) then none else f (trim_space hash)))
file_conversations_remembers =
    remembers file_conversations (λ _. false) ReadyOnDisk file_conversations-IsFaithful
