-- ===== src/Dict/Sums.antt =====
-- Predicates on all values of a map, and sums over them.
use qwen2api_go.Prelude.{
  ℕ, ◌+◌, ◌≤◌, ◌≡◌, sym, subst, Bool, true, false, [], ◌∷◌, Eq, ◌==◌, keep, All, Bool-cases, inl,
  inr, arith,
}
use qwen2api_go.Dict.Assoc.{Dict, lookup, put, get_or}

module _ {K V : Type 0} where
  abbrev pub Values : (V → Type 0) → Dict K V → Type 0
  Values P m = All (λ (entry : K × V). P entry.1) m

  pub keep-Values :
      (P : V → Type 0) (p : K × V → Bool) (m : Dict K V) → Values P m → Values P (keep p m)
  keep-Values P p [] h = tt
  keep-Values P p (x ∷ m) h = elim (Bool-cases (p x)) [
    | inl e ↦ rw e (h.0, keep-Values P p m h.1)
    | inr e ↦ rw e (keep-Values P p m h.1)
  ]

  abbrev pub sum_by : (V → ℕ) → Dict K V → ℕ
  sum_by f [] = 0
  sum_by f (x ∷ m) = f x.1 + sum_by f m

  pub sum_by-keep : (f : V → ℕ) (p : K × V → Bool) (m : Dict K V) → sum_by f (keep p m) ≤ sum_by f m
  sum_by-keep f p [] = omega arith
  sum_by-keep f p (x ∷ m) = ground (arith, sum_by-keep f p m)

module _ {K V : Type 0} ⦃e : Eq K⦄ where
  pub put-Values :
      (P : V → Type 0) (k : K) (v : V) (m : Dict K V) → P v → Values P m → Values P (put k v m)
  unfolding put
  put-Values P k v [] h hs = (h, tt)
  put-Values P k v ((j, w) ∷ m) h hs = elim (Bool-cases (j == k)) [
    | inl e ↦ rw e (h, hs.1)
    | inr e ↦ rw e (hs.0, put-Values P k v m h hs.1)
  ]

  get_or-hit :
      (z : V) (j k : K) (w : V) (m : Dict K V) → (j == k) ≡ true → get_or z k ((j, w) ∷ m) ≡ w
  unfolding get_or lookup
  get_or-hit z j k w m e = ground arith

  get_or-miss :
      (z : V) (j k : K) (w : V) (m : Dict K V)
      → (j == k) ≡ false
      → get_or z k ((j, w) ∷ m) ≡ get_or z k m
  unfolding get_or lookup
  get_or-miss z j k w m e = ground arith

  pub get_or-Values :
      (P : V → Type 0) (z : V) (k : K) (m : Dict K V) → P z → Values P m → P (get_or z k m)
  unfolding get_or lookup
  get_or-Values P z k [] h hs = h
  get_or-Values P z k ((j, w) ∷ m) h hs = elim (Bool-cases (j == k)) [
    | inl e ↦ subst P (sym (get_or-hit z j k w m e)) hs.0
    | inr e ↦ subst P (sym (get_or-miss z j k w m e)) (get_or-Values P z k m h hs.1)
  ]

  -- Writing a value adds what it has more than the value that was read.
  pub sum_by-put :
      (f : V → ℕ) (z : V) (k : K) (v : V) (m : Dict K V)
      → f z ≡ 0
      → sum_by f (put k v m) + f (get_or z k m) ≡ sum_by f m + f v
  unfolding put get_or lookup
  sum_by-put f z k v [] e = omega arith
  sum_by-put f z k v ((j, w) ∷ m) e = ground (arith, sum_by-put f z k v m e)
