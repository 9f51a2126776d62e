-- ===== src/Prelude/Quantifiers.antt =====
-- Membership in a list and statements about all its members, as predicates by recursion.
use mathlib.Core.Path.{◌≡◌, refl, sym, ap, subst, ◌∙◌}
use mathlib.Core.Logic.{◌⊎◌, inl, inr}
use mathlib.Core.Bool.{Bool, true}
use mathlib.Core.Option.{some}
use mathlib.Core.List.{List, [], ◌∷◌, ◌++◌}
use native.Mathlib.Omega.{arith}
use Prim.Native.Nat.{ℕ, zero, suc}
use qwen2api_go.Prelude.Lists.{get_elem?, keep, any, all, find}
use qwen2api_go.Prelude.Tests.{Bool-cases}

abbrev pub All {ℓ κ} : {A : Type ℓ} → (A → Type κ) → List A → Type κ
All P [] = Unit
All P (x ∷ xs) = P x × All P xs

-- Membership, with the place kept.
abbrev pub In : {A : Type 0} → A → List A → Type 0
In a [] = ⊥
In a (x ∷ xs) = (x ≡ a) ⊎ In a xs

module _ {A : Type 0} where
  pub In-append_left : (a : A) (xs ys : List A) → In a xs → In a (xs ++ ys)
  In-append_left a [] ys m = absurd m
  In-append_left a (x ∷ xs) ys (inl e) = inl e
  In-append_left a (x ∷ xs) ys (inr m) = inr (In-append_left a xs ys m)

  pub In-append_last : (a : A) (xs : List A) → In a (xs ++ a ∷ [])
  In-append_last a [] = inl refl
  In-append_last a (x ∷ xs) = inr (In-append_last a xs)

  pub In-keep : (p : A → Bool) (a : A) (xs : List A) → In a (keep p xs) → In a xs × (p a ≡ true)
  In-keep p a [] m = absurd m
  In-keep p a (x ∷ xs) m = elim (Bool-cases (p x)) [
    | inl e ↦ widen (rw e at m) e (In-keep p a xs)
    | inr e ↦ let (k, h) = In-keep p a xs (rw e at m) in (inr k, h)
  ]
    where
      widen :
          In a (x ∷ keep p xs)
          → p x ≡ true
          → (In a (keep p xs) → In a xs × (p a ≡ true))
          → In a (x ∷ xs) × (p a ≡ true)
      widen (inl e) h rest = (inl e, ap p (sym e) ∙ h)
      widen (inr k) h rest = (inr (rest k).0, (rest k).1)

  pub In-keep_of : (p : A → Bool) (a : A) (xs : List A) → In a xs → p a ≡ true → In a (keep p xs)
  In-keep_of p a [] m h = absurd m
  In-keep_of p a (x ∷ xs) (inl e) h = rw (ap p e ∙ h) (inl e)
  In-keep_of p a (x ∷ xs) (inr m) h = elim (Bool-cases (p x)) [
    | inl e ↦ rw e (inr (In-keep_of p a xs m h))
    | inr e ↦ rw e (In-keep_of p a xs m h)
  ]

  pub find-In : (p : A → Bool) (a : A) (xs : List A) → find p xs ≡ some a → In a xs
  find-In p a [] h = cc
  find-In p a (x ∷ xs) h = elim (Bool-cases (p x)) [
    | inl e ↦ inl (cc (rw e at h))
    | inr e ↦ inr (find-In p a xs (rw e at h))
  ]

  pub any_of-In : (p : A → Bool) (a : A) (xs : List A) → In a xs → p a ≡ true → any p xs ≡ true
  any_of-In p a [] m h = absurd m
  any_of-In p a (x ∷ xs) (inl e) h = ground (arith, ap p e)
  any_of-In p a (x ∷ xs) (inr m) h = ground (arith, any_of-In p a xs m h)

  pub all-In : (p : A → Bool) (a : A) (xs : List A) → all p xs ≡ true → In a xs → p a ≡ true
  all-In p a [] h m = absurd m
  all-In p a (x ∷ xs) h (inl e) = ground (arith, ap p e)
  all-In p a (x ∷ xs) h (inr m) = all-In p a xs (ground arith) m

  pub All-In : (P : A → Type 0) (a : A) (xs : List A) → All P xs → In a xs → P a
  All-In P a [] h m = absurd m
  All-In P a (x ∷ xs) h (inl e) = subst P e h.0
  All-In P a (x ∷ xs) h (inr m) = All-In P a xs h.1 m

  pub All_of : (P : A → Type 0) (xs : List A) → ((a : A) → In a xs → P a) → All P xs
  All_of P [] h = tt
  All_of P (x ∷ xs) h = (h x (inl refl), All_of P xs (λ a m. h a (inr m)))

  pub get_elem?-In : (a : A) (xs : List A) (i : ℕ) → get_elem? xs i ≡ some a → In a xs
  get_elem?-In a [] i h = cc
  get_elem?-In a (x ∷ xs) zero h = inl (cc)
  get_elem?-In a (x ∷ xs) (suc i) h = inr (get_elem?-In a xs i h)

  pub In-append_right : (a : A) (xs ys : List A) → In a ys → In a (xs ++ ys)
  In-append_right a [] ys m = m
  In-append_right a (x ∷ xs) ys m = inr (In-append_right a xs ys m)
