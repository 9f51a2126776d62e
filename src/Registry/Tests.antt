-- ===== src/Registry/Tests.antt =====
-- The theorems on the account service over a file, and over a store that fails.
use qwen2api_go.Prelude.{◌≡◌, refl, inl, true, Option, none, some, List, [], ◌∷◌}
use qwen2api_go.Prelude.Int.{ℤ, pos}
use qwen2api_go.Text.{
  Text, codes, text_eq, text_beq, trim_space, trim_left, trim_right, is_space, equal_fold, contains,
  has_prefix, split, cut,
}
use qwen2api_go.Dict.{get_or}
use qwen2api_go.Storage.{Account, ok, is_guest}
use qwen2api_go.Storage.FileStore.{
  holds, Disk, file_store, read, read_file, ensure, write, write_file, change_accounts, change_data,
  upsert,
}
use qwen2api_go.Storage.EnvStore.{parse_accounts}
use qwen2api_go.Credentials.{Remote, login_with_expiry}
use qwen2api_go.Fixtures.{ascii_unicode, ada, bob}
use qwen2api_go.Pool.{new_pool}
use qwen2api_go.Registry.{
  Service, guest_account, blocks, is_persistent, add_account_with_token, add_account, initialize,
  delete_account, refresh_account,
}
use qwen2api_go.Registry.Invariant.{IsWellFormed}
use qwen2api_go.Registry.History.{
  Call, adds, deletes, refreshes_all, serves, fails, run, run-IsWellFormed,
}
use qwen2api_go.Registry.Startup.{initialize-IsWellFormed}
use qwen2api_go.Registry.Synced.{file_backend, IsSynced, run-IsSynced}
use qwen2api_go.Registry.Outcomes.{
  Deletes, add_account_atomic, delete_account_removes, refresh_account_other_case,
}

-- An upstream that answers every login with the token `h.p.s`.
abbrev remote : Remote
remote = record { sign_in = λ _ _. ok (codes "h.p.s"); refresh_guest = none }

abbrev hash : Text → Text
hash password = password

-- Every payload expires a day after the Unix epoch.
abbrev expiry : Text → Option ℤ
expiry _ = some (pos 86400)

abbrev disk : Disk
disk = record {
  contents = holds (record { other_fields = []; accounts = ada ∷ bob ∷ []; sessions = [] });
  dir_fault = none;
  read_fault = none;
  write_fault = none;
}

abbrev service : Service Disk
service = record {
  pool = record new_pool { accounts = ada ∷ bob ∷ []; initialized = true };
  store_state = disk;
}

-- The same service, with a disk that takes no writes any more.
abbrev stuck : Service Disk
stuck = record service { store_state = record disk { write_fault = some (codes "disk full") } }

abbrev calls : List Call
calls =
    deletes (codes "A@X")
    ∷ adds remote 0 (codes "c@x") (codes "pw")
    ∷ fails 5 (codes "b@x")
    ∷ serves 6 7
    ∷ refreshes_all remote 0 (pos 24)
    ∷ []

service-IsWellFormed : IsWellFormed service.accounts
unfolding equal_fold text_beq is_persistent is_guest trim_space trim_left trim_right is_space
service-IsWellFormed = record {
  distinct = (refl, (refl, tt));
  shape = inl (refl, λ (e : ada ∷ bob ∷ [] ≡ []). cc);
}

-- The last account gone, the guest comes back.
guest_comes_back :
    (run (file_backend hash expiry) service (deletes ada.email ∷ deletes bob.email ∷ [])).accounts
    ≡ guest_account ∷ []
unfolding run delete_account equal_fold text_beq is_persistent is_guest trim_space trim_left
    trim_right is_space
guest_comes_back = refl

run-IsWellFormed_example : IsWellFormed (run (file_backend hash expiry) service calls).accounts
run-IsWellFormed_example =
    run-IsWellFormed (file_backend hash expiry) calls service service-IsWellFormed

run-IsSynced_example : IsSynced hash expiry (run (file_backend hash expiry) service calls)
unfolding is_persistent is_guest equal_fold text_beq trim_space trim_left trim_right is_space
run-IsSynced_example = run-IsSynced hash expiry calls service (
  service-IsWellFormed,
  record {
    other_fields = [];
    sessions = [];
    stored = refl;
    dir_works = refl;
    read_works = refl;
    write_works = refl;
  },
)

initialize-IsWellFormed_example :
    let r = initialize (file_backend hash expiry) remote 0 service in
    IsWellFormed r.0.accounts × (r.0.initialized ≡ true) × (r.1 ≡ none)
unfolding file_store read read_file ensure equal_fold text_beq is_persistent is_guest trim_space
    trim_left trim_right is_space
initialize-IsWellFormed_example =
    initialize-IsWellFormed (file_backend hash expiry) remote 0 service disk (ada ∷ bob ∷ []) refl
      (refl, (refl, tt)) refl

add_account_atomic_example :
    (add_account (file_backend hash expiry) remote 0 (codes "c@x") (codes "pw") stuck).0.pool
    ≡ stuck.pool
unfolding add_account add_account_with_token equal_fold text_beq trim_space trim_left trim_right
    is_space split blocks contains has_prefix file_store change_accounts change_data read read_file
    ensure write write_file login_with_expiry upsert
add_account_atomic_example =
    add_account_atomic (file_backend hash expiry) stuck remote 0 (codes "c@x") (codes "pw")
      (codes "disk full") refl

delete_account_removes_example :
    Deletes
      (file_backend hash expiry)
      service
      (codes "A@x")
      (delete_account (file_backend hash expiry) (codes "A@x") service)
unfolding equal_fold text_beq is_guest trim_space trim_left trim_right is_space
delete_account_removes_example =
    delete_account_removes (file_backend hash expiry) service (codes "A@x") ada (refl, (refl, tt))
      refl refl

refresh_account_other_case_example :
    get_or 0 ada.email
      (refresh_account (file_backend hash expiry) remote 0 (codes "A@x") service).0.failures
    ≡ get_or 0 ada.email service.failures
unfolding equal_fold text_beq
refresh_account_other_case_example =
    refresh_account_other_case (file_backend hash expiry) service remote 0 (codes "A@x") ada refl
      refl

-- The accounts of a program that has them from its environment.
abbrev from_env : Service (List Account)
from_env = record {
  pool = record new_pool { accounts = ada ∷ bob ∷ []; initialized = true };
  store_state = ada ∷ bob ∷ [];
}

parse_accounts-skips :
    (parse_accounts (codes " a@x:p:q , nobody ,b@x: , :z"))
    ≡ record ada { password = codes "p:q"; token = []; expires = pos 0 } ∷ []
unfolding parse_accounts trim_space trim_left trim_right is_space split cut text_beq
parse_accounts-skips = refl
