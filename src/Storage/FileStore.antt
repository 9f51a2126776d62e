-- ===== src/Storage/FileStore.antt =====
-- internal/storage/accounts.go: fileStore. The disk holds the file data/data.json or no such file; the
-- errors that the operating system would answer with are part of its state. Encoding a FileData and
-- decoding it again gives the same value; the fields other than
-- the accounts and the sessions are kept as one text.
use qwen2api_go.Prelude.{
  ◌≡◌, refl, sym, subst, arith, not, Option, none, some, List, [], ◌∷◌, ◌++◌, any, keep,
  change_first, if◌then◌else◌,
}
use qwen2api_go.Text.{Text, Unicode, equal_fold}
use qwen2api_go.Storage.{Account, ConversationSession, AccountStore, Error, Result, ok, err}

pub record FileData : Type 0 where
  pub other_fields : Text
  pub accounts : List Account
  pub sessions : List ConversationSession

pub data Contents : Type 0 where
  absent : Contents
  -- A file that cannot be decoded, with the decoder's error.
  broken : Error → Contents
  holds : FileData → Contents

pub record Disk : Type 0 where
  pub contents : Contents
  -- Errors of os.MkdirAll, os.ReadFile and os.WriteFile.
  pub dir_fault : Option Error
  pub read_fault : Option Error
  pub write_fault : Option Error

abbrev pub default_data : FileData
default_data = record { other_fields = []; accounts = []; sessions = [] }

-- os.WriteFile
unfoldable pub write_file : FileData → Disk → Disk × Option Error
write_file d disk = elim disk.write_fault [
  | some e ↦ (disk, some e)
  | none ↦ (record disk { contents = holds d }, none)
]

-- The file is there, or is written with the default data.
abbrev ensure_file : Contents → Disk → Disk × Option Error
ensure_file absent disk = write_file default_data disk
ensure_file (broken e) disk = (disk, none)
ensure_file (holds d) disk = (disk, none)

unfoldable pub ensure : Disk → Disk × Option Error
unfolding write_file
ensure disk = elim disk.dir_fault [
  | some e ↦ (disk, some e)
  | none ↦ ensure_file disk.contents disk
]

abbrev decode : Contents → Result FileData
decode absent = err []
decode (broken e) = err e
decode (holds d) = ok d

-- os.ReadFile and json.Unmarshal, after `ensure` has seen to the file.
unfoldable pub read_file : Disk → Result FileData
read_file disk = elim disk.read_fault [ some e ↦ err e | none ↦ decode disk.contents ]

unfoldable pub read : Disk → Disk × Result FileData
unfolding ensure read_file
read disk =
    let (disk', e) = ensure disk in (disk', elim e [ some e ↦ err e | none ↦ read_file disk' ])

unfoldable pub write : FileData → Disk → Disk × Option Error
unfolding ensure write_file
write d disk =
    let (disk', e) = ensure disk in elim e [ some e ↦ (disk', some e) | none ↦ write_file d disk' ]

-- Read the file, change its data and write it, or stop at the first error.
unfoldable pub change_data : (FileData → FileData) → Disk → Disk × Option Error
unfolding read write
change_data f disk =
    let (disk', result) = read disk in
    elim result [ err e ↦ (disk', some e) | ok d ↦ write (f d) disk' ]

unfoldable pub change_accounts : (List Account → List Account) → Disk → Disk × Option Error
unfolding change_data
change_accounts f = change_data (λ d. record d { accounts = f d.accounts })

-- On a disk without faults the change is made.
pub change_data_lem :
    (f : FileData → FileData) (d : FileData) (disk : Disk)
    → disk.contents ≡ holds d
    → disk.dir_fault ≡ none
    → disk.read_fault ≡ none
    → disk.write_fault ≡ none
    → change_data f disk ≡ (record disk { contents = holds (f d) }, none)
unfolding change_data read write ensure read_file write_file
change_data_lem f d disk stored dir_works read_works write_works = ground arith

module _ ⦃u : Unicode⦄ where
  -- Replace the first account with that email, up to case, or append the account.
  unfoldable pub upsert : Account → List Account → List Account
  upsert a xs =
      let same = λ (x : Account). equal_fold x.email a.email in
      if any same xs then change_first same (λ _. a) xs else xs ++ a ∷ []

  unfoldable pub without_email : Text → List Account → List Account
  without_email email = keep (λ a. not (equal_fold a.email email))

  unfoldable pub file_store : AccountStore Disk
  unfolding read change_accounts upsert without_email
  file_store = record {
    load_accounts = λ disk.
        let (disk', result) = read disk in
        (disk', elim result [ err e ↦ err e | ok d ↦ ok d.accounts ]);
    save_account = λ a. change_accounts (upsert a);
    delete_account = λ email. change_accounts (without_email email);
    save_all_accounts = λ xs. change_accounts (λ _. xs);
  }

-- A disk without faults, on which the file holds these accounts.
pub record Holds (accounts : List Account) (disk : Disk) : Type 0 where
  pub other_fields : Text
  pub sessions : List ConversationSession
  pub stored :
      disk.contents
      ≡ holds (record { other_fields = other_fields; accounts = accounts; sessions = sessions })
  pub dir_works : disk.dir_fault ≡ none
  pub read_works : disk.read_fault ≡ none
  pub write_works : disk.write_fault ≡ none

-- A write succeeds, and the disk then holds the changed accounts; the other fields are kept.
abbrev pub Writes : List Account → Disk × Option Error → Type 0
Writes xs r = (r.1 ≡ none) × Holds xs r.0

change_accounts-Writes :
    (f : List Account → List Account) (xs : List Account) (disk : Disk)
    → Holds xs disk
    → Writes (f xs) (change_accounts f disk)
unfolding change_accounts
change_accounts-Writes f xs disk h =
    let written =
      change_data_lem (λ d. record d { accounts = f d.accounts }) _ disk h.stored h.dir_works
        h.read_works h.write_works in
    subst (Writes (f xs)) (sym written) (
      refl,
      record {
        other_fields = h.other_fields;
        sessions = h.sessions;
        stored = refl;
        dir_works = h.dir_works;
        read_works = h.read_works;
        write_works = h.write_works;
      },
    )

module _ ⦃u : Unicode⦄ (xs : List Account) (disk : Disk) (h : Holds xs disk) where
  pub save_account-Writes : (a : Account) → Writes (upsert a xs) (file_store.save_account a disk)
  unfolding file_store
  save_account-Writes a = change_accounts-Writes (upsert a) xs disk h

  pub delete_account-Writes :
      (email : Text) → Writes (without_email email xs) (file_store.delete_account email disk)
  unfolding file_store
  delete_account-Writes email = change_accounts-Writes (without_email email) xs disk h

  pub save_all_accounts-Writes :
      (ys : List Account) → Writes ys (file_store.save_all_accounts ys disk)
  unfolding file_store
  save_all_accounts-Writes ys = change_accounts-Writes (λ _. ys) xs disk h

  -- What has been written is what is loaded.
  pub load_accounts-Holds : file_store.load_accounts disk ≡ (disk, ok xs)
  unfolding file_store
  load_accounts-Holds = ground arith
