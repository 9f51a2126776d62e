-- ===== src/Dict/Assoc.antt =====
-- `m[k]`, `m[k] = v` and `delete(m, k)`. A read of a missing key gives the zero value of the type.
use qwen2api_go.Prelude.{
  ◌≡◌, refl, Option, none, some, List, [], ◌∷◌, Eq, ◌==◌, arith, if◌then◌else◌,
}

abbrev pub Dict : Type 0 → Type 0 → Type 0
Dict K V = List (K × V)

module _ {K V : Type 0} ⦃e : Eq K⦄ where
  unfoldable pub lookup : K → Dict K V → Option V
  lookup k [] = none
  lookup k ((j, v) ∷ m) = if j == k then some v else lookup k m

  unfoldable pub put : K → V → Dict K V → Dict K V
  put k v [] = (k, v) ∷ []
  put k v ((j, w) ∷ m) = if j == k then (k, v) ∷ m else (j, w) ∷ put k v m

  unfoldable pub remove : K → Dict K V → Dict K V
  remove k [] = []
  remove k ((j, v) ∷ m) = let rest = remove k m in if j == k then rest else (j, v) ∷ rest

  unfoldable pub get_or : V → K → Dict K V → V
  unfolding lookup
  get_or zero_value k m = elim (lookup k m) [ none ↦ zero_value | some v ↦ v ]

  pub lookup-put :
      (k j : K) (v : V) (m : Dict K V)
      → lookup j (put k v m) ≡ (if k == j then some v else lookup j m)
  unfolding lookup put
  lookup-put k j v [] = refl
  lookup-put k j v ((i, w) ∷ m) =
      ground (arith, e.beq_iff k j, e.beq_iff i k, e.beq_iff i j, lookup-put k j v m)

  pub lookup-remove :
      (k j : K) (m : Dict K V) → lookup j (remove k m) ≡ (if k == j then none else lookup j m)
  unfolding lookup remove
  lookup-remove k j [] = ground arith
  lookup-remove k j ((i, w) ∷ m) =
      ground (arith, e.beq_iff k j, e.beq_iff i k, e.beq_iff i j, lookup-remove k j m)

  pub get_or-put :
      (z : V) (k j : K) (v : V) (m : Dict K V)
      → get_or z j (put k v m) ≡ (if k == j then v else get_or z j m)
  unfolding get_or
  get_or-put z k j v m = ground (arith, lookup-put k j v m)

  pub get_or-remove :
      (z : V) (k j : K) (m : Dict K V)
      → get_or z j (remove k m) ≡ (if k == j then z else get_or z j m)
  unfolding get_or
  get_or-remove z k j m = ground (arith, lookup-remove k j m)
