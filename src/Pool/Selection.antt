-- ===== src/Pool/Selection.antt =====
-- The choice among the available accounts: internal/account/service.go, the loops over `selected` in
-- GetAccountSession and GetAccountSessionExcluding.
use qwen2api_go.Prelude.{
  ℕ, ◌≤◌, ◌≡◌, ◌≢◌, refl, sym, subst, Bool, true, false, ◌||◌, List, [], ◌∷◌, ◌++◌, ltb, eqb, In,
  All, inl, inr, arith, Bool-cases,
}
use qwen2api_go.Text.{Text, text_eq}
use qwen2api_go.Dict.{Dict, get_or}
use qwen2api_go.Storage.{Account}
use qwen2api_go.Pool.{select}

module _ (last_used : Dict Text ℕ) where
  abbrev pub used_at : Account → ℕ
  used_at a = get_or 0 a.email last_used

  abbrev pub WasUsed : Account → Type 0
  WasUsed a = used_at a ≢ 0

  abbrev pub NeverUsed : Account → Type 0
  NeverUsed a = used_at a ≡ 0

  abbrev replaces : ℕ → Account → Bool
  replaces t a = ltb (used_at a) t || eqb t 0

  pub select-nil : (selected : Account) (t : ℕ) → select last_used selected t [] ≡ selected
  unfolding select
  select-nil selected t = refl

  select-replaces :
      (selected : Account) (t : ℕ) (a : Account) (xs : List Account)
      → replaces t a ≡ true
      → select last_used selected t (a ∷ xs) ≡ select last_used a (used_at a) xs
  unfolding select
  select-replaces selected t a xs r = rw r

  select-stays :
      (selected : Account) (t : ℕ) (a : Account) (xs : List Account)
      → replaces t a ≡ false
      → select last_used selected t (a ∷ xs) ≡ select last_used selected t xs
  unfolding select
  select-stays selected t a xs r = rw r

  In-skip : (b x y : Account) (xs : List Account) → In b (x ∷ xs) → In b (x ∷ y ∷ xs)
  In-skip b x y xs (inl e) = inl e
  In-skip b x y xs (inr m) = inr (inr m)

  -- The account that is selected is one of the candidates.
  pub select-In :
      (selected : Account) (t : ℕ) (xs : List Account)
      → In (select last_used selected t xs) (selected ∷ xs)
  select-In selected t [] = inl (sym (select-nil selected t))
  select-In selected t (a ∷ xs) = elim (Bool-cases (replaces t a)) [
    | inl r ↦
        subst (λ b. In b (selected ∷ a ∷ xs)) (sym (select-replaces selected t a xs r))
          (inr (select-In a (used_at a) xs))
    | inr r ↦
        subst (λ b. In b (selected ∷ a ∷ xs)) (sym (select-stays selected t a xs r))
          (In-skip _ selected a xs (select-In selected t xs))
  ]

  abbrev pub IsLeast : ℕ → List Account → Account → Type 0
  IsLeast t xs chosen = (used_at chosen ≤ t) × All (λ a. used_at chosen ≤ used_at a) xs

  -- Among candidates that have all been used, none was used before the one that is selected.
  select-IsLeast :
      (selected : Account) (t : ℕ) (xs : List Account)
      → t ≢ 0
      → All WasUsed xs
      → t ≡ used_at selected
      → IsLeast t xs (select last_used selected t xs)
  select-IsLeast selected t [] nz h e = (rw select-nil (omega arith), tt)
  select-IsLeast selected t (a ∷ xs) nz h e = elim (Bool-cases (replaces t a)) [
    | inl r ↦
        let (below, rest) = select-IsLeast a (used_at a) xs h.0 h.1 refl in
        subst (IsLeast t (a ∷ xs)) (sym (select-replaces selected t a xs r))
          (ground arith, (below, rest))
    | inr r ↦
        let (below, rest) = select-IsLeast selected t xs nz h.1 e in
        subst (IsLeast t (a ∷ xs)) (sym (select-stays selected t a xs r))
          (below, (ground arith, rest))
  ]

  -- While the selected account has never been used, the next candidate takes its place; so of
  -- candidates that have never been used before the last one, the last one is selected.
  pub select_last :
      (selected : Account) (xs : List Account) (z : Account)
      → All NeverUsed xs
      → select last_used selected 0 (xs ++ z ∷ []) ≡ z
  unfolding select
  select_last selected [] z h = ground arith
  select_last selected (a ∷ xs) z h = ground (arith, select_last a xs z)
