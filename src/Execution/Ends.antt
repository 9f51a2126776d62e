-- ===== src/Execution/Ends.antt =====
-- The loop of executeChatRequest ends: internal/openai/chat_execution.go.
use qwen2api_go.Prelude.{
  ℕ, zero, suc, ◌+◌, ◌≤◌, ◌≡◌, refl, false, Option, none, some, List, [], any, ltb, ltb→lt, length,
  if-cases, arith,
}
use qwen2api_go.Prelude.Int.{ℤ}
use qwen2api_go.Text.{Text, Unicode, text_beq}
use qwen2api_go.Storage.{Account, Result, ok, err}
use qwen2api_go.Pool.Sessions.Outside.{IsOutside, get_account_session_excluding-IsOutside}
use qwen2api_go.Execution.{
  ChatError, Env, State, Prepared, Outcome, executed, failed, Mapped, done, go_on, add_attempt,
  Ending, answered, chosen, last_failure, tries_again, session_excluding, retry,
  execute_chat_request, after_mapped, max_attempts_of, try_mapped, count_error,
  send_chat_with_session,
}

module _ ⦃u : Unicode⦄ {A S C W : Type 0} (env : Env A S C W) where
  abbrev pub Ends : Ending env → Type 0
  Ends r = (x : Outcome) × (r.1 ≡ some x)

  answered-Ends :
      (p : Prepared) (a : Account) (rest : ℤ × ChatError → State A S C W → Ending env)
      (r : State A S C W × Outcome)
      → ((e : ℤ × ChatError) (s : State A S C W) → Ends (rest e s))
      → Ends (answered env p a rest r)
  answered-Ends p a rest (s, executed x) h = (executed x, refl)
  answered-Ends p a rest (s, failed status e) h =
      if-cases Ends (tries_again env p e) _ _ (λ _. h (status, e) (count_error env p a e s))
        (λ _. (failed status e, refl))

  chosen-Ends :
      (p : Prepared) (last : Option (ℤ × ChatError)) (attempted : List Text)
      (rest : Account → ℤ × ChatError → State A S C W → Ending env)
      (r : State A S C W × Result Account)
      → IsOutside attempted r.1
      → ((a : Account)
          → any (text_beq a.email) attempted ≡ false
          → (e : ℤ × ChatError) (s : State A S C W) → Ends (rest a e s))
      → Ends (chosen env p last rest r)
  chosen-Ends p last attempted rest (s, err e) new h = (last_failure env p last, refl)
  chosen-Ends p last attempted rest (s, ok a) new h =
      answered-Ends p a (rest a) (send_chat_with_session env p a [] false s) (h a new)

  pub session_excluding-IsOutside :
      (attempted : List Text) (s : State A S C W)
      → IsOutside attempted (session_excluding env attempted s).1
  unfolding session_excluding
  session_excluding-IsOutside attempted s =
      get_account_session_excluding-IsOutside _ _ attempted s.accounts.pool

  length-add_attempt :
      (email : Text) (attempted : List Text)
      → any (text_beq email) attempted ≡ false
      → length (add_attempt email attempted) ≡ suc (length attempted)
  length-add_attempt email attempted new = rw new refl

  -- One round of fuel more than the attempts that are left is enough.
  pub retry-Ends :
      (fuel max_attempts : ℕ) (p : Prepared) (attempted : List Text) (last : Option (ℤ × ChatError))
      (s : State A S C W)
      → max_attempts ≤ fuel + length attempted
      → Ends (retry env (suc fuel) max_attempts p attempted last s)
  unfolding retry
  retry-Ends zero max_attempts p attempted last s enough =
      if-cases Ends (ltb (length attempted) max_attempts) _ _
        (λ e. absurd (omega (arith, ltb→lt (length attempted) max_attempts e)))
        (λ _. (last_failure env p last, refl))
  retry-Ends (suc fuel) max_attempts p attempted last s enough =
      if-cases Ends (ltb (length attempted) max_attempts) _ _
        (λ _.
          chosen-Ends p last attempted
            (λ a e. retry env (suc fuel) max_attempts p (add_attempt a.email attempted) (some e))
            (session_excluding env attempted s) (session_excluding-IsOutside attempted s)
            (λ a new e s'.
              retry-Ends fuel max_attempts p (add_attempt a.email attempted) (some e) s'
                (omega (arith, length-add_attempt a.email attempted new))))
        (λ _. (last_failure env p last, refl))

  after_mapped-Ends :
      (max_attempts : ℕ) (p : Prepared) (r : State A S C W × Mapped)
      → Ends (after_mapped env max_attempts p r)
  after_mapped-Ends max_attempts p (s, done x) = (x, refl)
  after_mapped-Ends max_attempts p (s, go_on attempted) =
      retry-Ends max_attempts max_attempts p attempted none s (omega arith)

  -- A request always comes to an outcome: with one round more than the pool has accounts the loop over
  -- the accounts is over, whatever the upstream answers, since each round takes an account that has
  -- not been attempted before.
  pub execute_chat_request-Ends :
      (p : Prepared) (s : State A S C W) → Ends (execute_chat_request env p s)
  unfolding execute_chat_request
  execute_chat_request-Ends p s = after_mapped-Ends (max_attempts_of env s) p (try_mapped env p s)
