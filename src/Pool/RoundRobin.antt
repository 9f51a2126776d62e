-- ===== src/Pool/RoundRobin.antt =====
-- Taking the accounts by turns: internal/account/service.go, roundRobinLocked.
use qwen2api_go.Prelude.{
  ℕ, zero, suc, ◌+◌, ◌-◌, ◌≤◌, ◌<◌, ◌≡◌, ◌≢◌, refl, sym, ap, subst, true, false, some, List, leb,
  length, get_elem?, get_elem?-some, get_elem?-In, any, any-index, In, inl, inr, arith, Bool-cases,
  Option-cases, any_of-In, if◌then◌else◌,
}
use qwen2api_go.Text.{Unicode}
use qwen2api_go.Storage.{Account}
use qwen2api_go.Pool.{Pool, empty_account, has_access, round_robin, round_robin_locked}

add_one_sub : (n : ℕ) → n + 1 - 1 ≡ n
add_one_sub n = omega arith

module _ ⦃u : Unicode⦄ (xs : List Account) where
  -- The index that a round looks at, and how many rounds later the index `j` has its turn.
  abbrev looks_at : ℕ → ℕ
  looks_at index = if leb (length xs) index then 0 else index

  abbrev turns : ℕ → ℕ → ℕ
  turns index j =
      if leb (looks_at index) j then j - looks_at index else length xs - looks_at index + j

  -- What a search that ends well returns: an account with access, at the place before the index.
  abbrev pub Finds : Account × ℕ → Type 0
  Finds r =
      (has_access r.0 ≡ true) × In r.0 xs × (r.1 ≤ length xs) × (get_elem? xs (r.1 - 1) ≡ some r.0)

  round_robin-hit :
      (rounds index : ℕ) (b : Account)
      → get_elem? xs (looks_at index) ≡ some b
      → has_access b ≡ true
      → round_robin (suc rounds) xs index ≡ (b, looks_at index + 1)
  unfolding round_robin
  round_robin-hit rounds index b here open_b = ground arith

  round_robin-miss :
      (rounds index : ℕ) (b : Account)
      → get_elem? xs (looks_at index) ≡ some b
      → has_access b ≡ false
      → round_robin (suc rounds) xs index ≡ round_robin rounds xs (looks_at index + 1)
  unfolding round_robin
  round_robin-miss rounds index b here shut_b = ground arith

  -- A miss brings the turn of every account that has access one round nearer.
  turns_fall :
      (index j : ℕ) (a b : Account)
      → j < length xs
      → get_elem? xs j ≡ some a
      → has_access a ≡ true
      → get_elem? xs (looks_at index) ≡ some b
      → has_access b ≡ false
      → turns (looks_at index + 1) j < turns index j
  turns_fall index j a b below at access here shut_b =
      let differ : looks_at index ≢ j = λ e. cc (ap (get_elem? xs) e, here, at, access, shut_b) in
      ground arith

  round_robin-turns :
      (rounds index j : ℕ) (a : Account)
      → j < length xs
      → get_elem? xs j ≡ some a
      → has_access a ≡ true
      → turns index j < rounds
      → Finds (round_robin rounds xs index)
  round_robin-turns zero index j a below at access soon = absurd (omega arith)
  round_robin-turns (suc rounds) index j a below at access soon =
      let (b, here) = get_elem?-some xs (looks_at index) (ground arith) in
      elim (Bool-cases (has_access b)) [
        | inl open_b ↦ subst Finds (sym (round_robin-hit rounds index b here open_b)) (
          open_b,
          get_elem?-In b xs (looks_at index) here,
          ground arith,
          rw (add_one_sub (looks_at index)) here,
        )
        | inr shut_b ↦ subst Finds (sym (round_robin-miss rounds index b here shut_b)) (
            round_robin-turns rounds (looks_at index + 1) j a below at access
              (omega (arith, turns_fall index j a b below at access here shut_b)))
      ]

module _ ⦃u : Unicode⦄ where
  -- If any account has a token or is a guest, wherever the index stands, the search returns such an
  -- account of the pool and leaves the index just behind it; the rest of the pool is unchanged.
  pub round_robin_locked-Finds :
      (p : Pool)
      → any has_access p.accounts ≡ true
      → let (account, q) = round_robin_locked p in
        Finds p.accounts (account, q.current_index)
        × (q ≡ record p { current_index = q.current_index })
  unfolding round_robin_locked
  round_robin_locked-Finds p h =
      let (j, a, below, at, access) = any-index has_access p.accounts h in
      (
        round_robin-turns p.accounts (length p.accounts) p.current_index j a below at access
            (ground arith),
        refl,
      )

  round_robin_fails :
      (xs : List Account) (rounds index : ℕ)
      → any has_access xs ≡ false
      → (round_robin rounds xs index).0 ≡ empty_account
  unfolding round_robin
  round_robin_fails xs zero index h = refl
  round_robin_fails xs (suc rounds) index h =
      elim (Option-cases (get_elem? xs (looks_at xs index))) [
        | inl e ↦ ground arith
        | inr (b, e) ↦
            rw (round_robin-miss xs rounds index b e (shut b e)) (round_robin_fails xs rounds _ h)
      ]
    where
      shut : (b : Account) → get_elem? xs (looks_at xs index) ≡ some b → has_access b ≡ false
      shut b e = ground (arith, any_of-In has_access b xs (get_elem?-In b xs (looks_at xs index) e))

  -- With no such account the search comes back with the empty account.
  pub round_robin_locked_fails :
      (p : Pool) → any has_access p.accounts ≡ false → (round_robin_locked p).0 ≡ empty_account
  unfolding round_robin_locked
  round_robin_locked_fails p h = round_robin_fails p.accounts (length p.accounts) p.current_index h
