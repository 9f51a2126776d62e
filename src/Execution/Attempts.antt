-- ===== src/Execution/Attempts.antt =====
-- Which accounts a request is tried under: internal/openai/chat_execution.go, executeChatRequest.
use qwen2api_go.Prelude.{
  ℕ, zero, suc, ◌≡◌, sym, ap, subst, false, if◌then◌else◌, Option, none, some, List, [], ◌∷◌, any,
  ltb, length, Bool, true,
}
use qwen2api_go.Prelude.Int.{ℤ}
use qwen2api_go.Text.{Text, Unicode, text_beq}
use qwen2api_go.Storage.{Account, Result, ok, err}
use qwen2api_go.Pool.Sessions.Outside.{IsOutside}
use qwen2api_go.Execution.{
  ChatError, Env, State, Prepared, Outcome, executed, failed, add_attempt, Ending, answered, chosen,
  last_failure, tries_again, session_excluding, retry, count_error, send_chat_with_session,
}
use qwen2api_go.Execution.Ends.{session_excluding-IsOutside}
use qwen2api_go.Execution.Sent.{IsAnswerOf, send_chat_with_session-IsSent}

-- No text of a list is one of `before`, or comes twice.
abbrev pub IsFresh : List Text → List Text → Type 0
IsFresh before [] = Unit
IsFresh before (email ∷ emails) =
    (any (text_beq email) before ≡ false) × IsFresh (email ∷ before) emails

abbrev pub last_of : List Text → Option Text
last_of [] = none
last_of (email ∷ []) = some email
last_of (email ∷ next ∷ emails) = last_of (next ∷ emails)

-- An answer comes from the account that was tried last.
abbrev pub IsFromLast : List Text → Option Outcome → Type 0
IsFromLast emails none = Unit
IsFromLast emails (some (failed status e)) = Unit
IsFromLast emails (some (executed x)) = last_of emails ≡ some x.account_email

IsFromLast-cons :
    (email : Text) (emails : List Text) (o : Option Outcome)
    → IsFromLast emails o
    → IsFromLast (email ∷ emails) o
IsFromLast-cons email emails none h = tt
IsFromLast-cons email emails (some (failed status e)) h = tt
IsFromLast-cons email [] (some (executed x)) h = cc
IsFromLast-cons email (next ∷ emails) (some (executed x)) h = h

add_attempt_new :
    (email : Text) (attempted emails : List Text)
    → any (text_beq email) attempted ≡ false
    → IsFresh (add_attempt email attempted) emails
    → IsFresh (email ∷ attempted) emails
add_attempt_new email attempted emails new h =
    subst (λ b. IsFresh (if b then attempted else email ∷ attempted) emails) new h

-- Two tests of one Boolean.
if_both :
    {X Y : Type 0} (P : X → Y → Type 0) (b : Bool) (x x' : X) (y y' : Y)
    → P x y
    → P x' y'
    → P (if b then x else x') (if b then y else y')
if_both P true x x' y y' h h' = h
if_both P false x x' y y' h h' = h'

module _ ⦃u : Unicode⦄ {A S C W : Type 0} (env : Env A S C W) (p : Prepared) where
  -- The accounts that are lent in the rounds of the loop, in their order, by what the upstream answers.
  abbrev tried_after : (State A S C W → List Text) → State A S C W × Outcome → Account → List Text
  tried_after rest (s, executed x) a = a.email ∷ []
  tried_after rest (s, failed status e) a =
      a.email ∷ (if tries_again env p e then rest (count_error env p a e s) else [])

  abbrev tried_with :
      (Account → State A S C W → List Text) → State A S C W × Result Account → List Text
  tried_with rest (s, err e) = []
  tried_with rest (s, ok a) = tried_after (rest a) (send_chat_with_session env p a [] false s) a

  unfoldable pub tried : ℕ → ℕ → List Text → State A S C W → List Text
  tried zero max_attempts attempted s = []
  tried (suc fuel) max_attempts attempted s =
      let rest =
        tried_with (λ a t. tried fuel max_attempts (add_attempt a.email attempted) t)
          (session_excluding env attempted s) in
      if ltb (length attempted) max_attempts then rest else []

  -- The accounts tried are fresh, and an answer comes from the last of them.
  abbrev IsInTurn : List Text → List Text → Ending env → Type 0
  IsInTurn attempted emails r = IsFresh attempted emails × IsFromLast emails r.1

  last_failure-IsFromLast :
      (emails : List Text) (last : Option (ℤ × ChatError))
      → IsFromLast emails (some (last_failure env p last))
  last_failure-IsFromLast emails none = tt
  last_failure-IsFromLast emails (some last) = tt

  answered-IsInTurn :
      (attempted : List Text) (a : Account) (rest : ℤ × ChatError → State A S C W → Ending env)
      (later : State A S C W → List Text) (r : State A S C W × Outcome)
      → any (text_beq a.email) attempted ≡ false
      → IsAnswerOf p a r.1
      → ((e : ℤ × ChatError) (s : State A S C W)
          → IsInTurn (add_attempt a.email attempted) (later s) (rest e s))
      → IsInTurn attempted (tried_after later r a) (answered env p a rest r)
  answered-IsInTurn attempted a rest later (s, executed x) new answer h =
      ((new, tt), ap some (sym answer.0))
  answered-IsInTurn attempted a rest later (s, failed status e) new answer h =
      let s' = count_error env p a e s in
      let (fresh, from) = h (status, e) s' in
      if_both (λ emails r. IsInTurn attempted (a.email ∷ emails) r) (tries_again env p e) _ _ _ _
        (
          (new, add_attempt_new a.email attempted (later s') new fresh),
          IsFromLast-cons a.email (later s') (rest (status, e) s').1 from,
        )
        ((new, tt), tt)

  chosen-IsInTurn :
      (attempted : List Text) (last : Option (ℤ × ChatError))
      (rest : Account → ℤ × ChatError → State A S C W → Ending env)
      (later : Account → State A S C W → List Text) (r : State A S C W × Result Account)
      → IsOutside attempted r.1
      → ((a : Account) (e : ℤ × ChatError) (s : State A S C W)
          → IsInTurn (add_attempt a.email attempted) (later a s) (rest a e s))
      → IsInTurn attempted (tried_with later r) (chosen env p last rest r)
  chosen-IsInTurn attempted last rest later (s, err e) new h = (tt, last_failure-IsFromLast [] last)
  chosen-IsInTurn attempted last rest later (s, ok a) new h =
      answered-IsInTurn attempted a (rest a) (later a) (send_chat_with_session env p a [] false s)
        new (send_chat_with_session-IsSent env p a [] false s).2 (h a)

  -- The loop lends each account at most once, and none that was attempted before it, whatever the
  -- upstream answers; and its answer, if there is one, comes from the account that it has lent last.
  pub retry-IsInTurn :
      (fuel max_attempts : ℕ) (attempted : List Text) (last : Option (ℤ × ChatError))
      (s : State A S C W)
      → IsFresh attempted (tried fuel max_attempts attempted s)
        × IsFromLast
            (tried fuel max_attempts attempted s)
            (retry env fuel max_attempts p attempted last s).1
  unfolding retry tried
  retry-IsInTurn zero max_attempts attempted last s = (tt, tt)
  retry-IsInTurn (suc fuel) max_attempts attempted last s =
      if_both (IsInTurn attempted) (ltb (length attempted) max_attempts) _ _ _ _
        (chosen-IsInTurn attempted last
          (λ a e. retry env fuel max_attempts p (add_attempt a.email attempted) (some e))
          (λ a t. tried fuel max_attempts (add_attempt a.email attempted) t)
          (session_excluding env attempted s) (session_excluding-IsOutside env attempted s)
          (λ a e t. retry-IsInTurn fuel max_attempts (add_attempt a.email attempted) (some e) t))
        (tt, last_failure-IsFromLast [] last)
