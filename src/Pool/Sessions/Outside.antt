-- ===== src/Pool/Sessions/Outside.antt =====
-- The account that GetAccountSessionExcluding gives is not among the excluded ones: internal/account/
-- service.go.
use qwen2api_go.Prelude.{
  ℕ, ◌≡◌, false, not, List, [], ◌∷◌, any, keep, eqb, length, In, In-keep, if-cases, arith,
}
use qwen2api_go.Text.{Text, Unicode, text_eq, text_beq}
use qwen2api_go.Dict.{get_or}
use qwen2api_go.Storage.{Account, Result, ok, err}
use qwen2api_go.Pool.{Pool, available_locked, choose, choose_or_fail, get_account_session_excluding}
use qwen2api_go.Pool.Selection.{select-In}

-- An account that is served is not among the excluded ones.
abbrev pub IsOutside : List Text → Result Account → Type 0
IsOutside excluded (err e) = Unit
IsOutside excluded (ok a) = any (text_beq a.email) excluded ≡ false

module _ ⦃u : Unicode⦄ where
  choose_or_fail-IsOutside :
      (excluded : List Text) (stamp : ℕ) (found : List Account) (p : Pool)
      → ((a : Account) → In a found → any (text_beq a.email) excluded ≡ false)
      → IsOutside excluded (choose_or_fail stamp found p).1
  unfolding choose
  choose_or_fail-IsOutside excluded stamp [] p h = tt
  choose_or_fail-IsOutside excluded stamp (first ∷ rest) p h =
      h _ (select-In p.last_used first (get_or 0 first.email p.last_used) rest)

  pub get_account_session_excluding-IsOutside :
      (now stamp : ℕ) (excluded : List Text) (p : Pool)
      → IsOutside excluded (get_account_session_excluding now stamp excluded p).1
  unfolding get_account_session_excluding
  get_account_session_excluding-IsOutside now stamp excluded p =
      if-cases (λ (r : Pool × Result Account). IsOutside excluded r.1) (not p.initialized) _ _
        (λ _. tt)
        (λ _.
          if-cases (λ (r : Pool × Result Account). IsOutside excluded r.1)
            (eqb (length p.accounts) 0) _ _ (λ _. tt)
            (λ _.
              choose_or_fail-IsOutside excluded stamp
                (keep (λ a. not (any (text_beq a.email) excluded)) (available_locked now p).0)
                (available_locked now p).1
                (λ a member.
                  let holds =
                    (In-keep (λ (b : Account). not (any (text_beq b.email) excluded)) a
                      (available_locked now p).0 member).1 in
                  ground arith)))
