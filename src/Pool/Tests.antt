-- ===== src/Pool/Tests.antt =====
-- The theorems on the pool at concrete pools.
use mathlib.Core.Bool.{false≢true}
use qwen2api_go.Prelude.{arith, ◌≡◌, ◌+◌, refl, true, ◌&&◌, [], ◌∷◌, All, leb}
use qwen2api_go.Text.{
  codes, text_eq, text_beq, text_beq_iff, trim_space, trim_left, trim_right, is_space, equal_fold,
}
use qwen2api_go.Dict.{get_or}
use qwen2api_go.Storage.{ok, is_guest}
use qwen2api_go.Fixtures.{ascii_unicode, ada, bob}
use qwen2api_go.Pool.{
  Pool, new_pool, cooldown, has_access, is_cooling, admits, select, get_account_session,
  get_account_session_by_email, get_account_session_excluding, record_failure,
}
use qwen2api_go.Pool.Cooldown.{admits-record_failure}
use qwen2api_go.Pool.Sessions.{IsServed, get_account_session_serves}
use qwen2api_go.Pool.Sessions.Named.{
  AnswersByEmail, AnswersOutside, get_account_session_by_email_answers,
  get_account_session_excluding_serves,
}
use qwen2api_go.Pool.Starvation.{serve_all, serve_all_last}

-- Ada has failed four times, and was used last at time 7.
abbrev two_accounts : Pool
two_accounts = record {
  accounts = ada ∷ bob ∷ [];
  initialized = true;
  current_index = 5;
  last_used = (codes "a@x", 7) ∷ (codes "b@x", 9) ∷ [];
  failures = (codes "a@x", 4) ∷ [];
}

abbrev locked_out : Pool
locked_out = record new_pool {
  accounts = record ada { token = codes " " } ∷ [];
  initialized = true;
}

abbrev unused : Pool
unused = record new_pool { accounts = ada ∷ bob ∷ []; initialized = true }

-- Ada is cooling down, so that Bob is served, although Ada was used before him.
bob_is_served : (get_account_session 20 21 two_accounts).1 ≡ ok bob
unfolding get_account_session select admits is_cooling has_access is_guest equal_fold trim_space
    trim_left trim_right is_space text_beq get_or
bob_is_served = refl

admits-record_failure_example :
    let q =
      record_failure 12 bob.email
        (record_failure 11 bob.email (record_failure 10 bob.email two_accounts)) in
    admits 20 q.last_used q.failures bob ≡ (has_access bob && leb (12 + cooldown) 20)
admits-record_failure_example = admits-record_failure 10 11 12 20 bob two_accounts (omega arith)

get_account_session_serves_example :
    IsServed 20 two_accounts 21 (get_account_session 20 21 two_accounts)
unfolding has_access is_guest equal_fold trim_space trim_left trim_right is_space text_beq
get_account_session_serves_example = get_account_session_serves 20 two_accounts 21 refl refl refl

get_account_session_by_email_answers_example :
    AnswersByEmail 20 21 two_accounts
      (codes " B@X ")
      (get_account_session_by_email 20 21 (codes " B@X ") two_accounts)
get_account_session_by_email_answers_example =
    get_account_session_by_email_answers 20 21 two_accounts (codes " B@X ") refl

get_account_session_excluding_serves_example :
    AnswersOutside 20 21 two_accounts
      (codes "a@x" ∷ [])
      (get_account_session_excluding 20 21 (codes "a@x" ∷ []) two_accounts)
unfolding admits is_cooling has_access is_guest equal_fold trim_space trim_left trim_right is_space
    text_beq get_or
get_account_session_excluding_serves_example =
    get_account_session_excluding_serves 20 21 two_accounts (codes "a@x" ∷ []) refl refl

serve_all_last_example :
    All (λ answer. answer ≡ ok bob) (serve_all ((1, 2) ∷ (3, 4) ∷ (5, 6) ∷ []) unused)
unfolding has_access is_guest equal_fold trim_space trim_left trim_right is_space text_beq get_or
serve_all_last_example =
    serve_all_last ((1, 2) ∷ (3, 4) ∷ (5, 6) ∷ []) (ada ∷ []) bob unused (record {
      ready = refl;
      listed = refl;
      access = refl;
      few = (omega arith, (omega arith, tt));
      unused = (refl, tt);
      apart = (λ e. false≢true ((text_beq_iff ada.email bob.email).1 e), tt);
    })
