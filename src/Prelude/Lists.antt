-- ===== src/Prelude/Lists.antt =====
-- Lists measured by native numbers, and the Boolean searches and filters that Go loops spell out.
use Prim.Native.Nat.{ℕ, zero, suc, ◌+◌, ◌-◌, ◌≤◌, ◌<◌}
use mathlib.Core.Path.{◌≡◌, refl}
use mathlib.Core.Bool.{Bool, true, false, not, ◌&&◌, ◌||◌}
use mathlib.Core.Option.{Option, none, some}
use mathlib.Core.List.{List, [], ◌∷◌, ◌++◌}
use native.Mathlib.Omega.{arith}
use qwen2api_go.Prelude.Tests.{Bool-cases, if◌then◌else◌}
use mathlib.Core.Logic.{◌≢◌, inl, inr}

module _ {ℓ} {A : Type ℓ} where
  abbrev pub length : List A → ℕ
  length [] = 0
  length (x ∷ xs) = suc (length xs)

  abbrev pub get_elem? : List A → ℕ → Option A
  get_elem? [] i = none
  get_elem? (x ∷ xs) zero = some x
  get_elem? (x ∷ xs) (suc i) = get_elem? xs i

  abbrev pub take : ℕ → List A → List A
  take zero xs = []
  take (suc n) [] = []
  take (suc n) (x ∷ xs) = x ∷ take n xs

  abbrev pub drop : ℕ → List A → List A
  drop zero xs = xs
  drop (suc n) [] = []
  drop (suc n) (x ∷ xs) = drop n xs

  pub length-append : (xs ys : List A) → length (xs ++ ys) ≡ length xs + length ys
  length-append [] ys = omega arith
  length-append (x ∷ xs) ys = omega (arith, length-append xs ys)

  pub length-drop : (n : ℕ) (xs : List A) → length (drop n xs) ≡ length xs - n
  length-drop zero xs = omega arith
  length-drop (suc n) [] = omega arith
  length-drop (suc n) (x ∷ xs) = omega (arith, length-drop n xs)

module _ {ℓ} {A : Type ℓ} where
  -- `for _, x := range xs { if p(x) { out = append(out, x) } }`
  abbrev pub keep : (A → Bool) → List A → List A
  keep p [] = []
  keep p (x ∷ xs) = let rest = keep p xs in if p x then x ∷ rest else rest

  abbrev pub any : (A → Bool) → List A → Bool
  any p [] = false
  any p (x ∷ xs) = p x || any p xs

  abbrev pub all : (A → Bool) → List A → Bool
  all p [] = true
  all p (x ∷ xs) = p x && all p xs

  -- The first entry that passes the test, as a loop with `return` or `break` finds it.
  abbrev pub find : (A → Bool) → List A → Option A
  find p [] = none
  find p (x ∷ xs) = let rest = find p xs in if p x then some x else rest

  -- `append(xs[:i], xs[i+1:]...)` at the first index that passes the test.
  abbrev pub remove_first : (A → Bool) → List A → List A
  remove_first p [] = []
  remove_first p (x ∷ xs) = let rest = x ∷ remove_first p xs in if p x then xs else rest

  -- `xs[i] = f(xs[i])` at the first index that passes the test.
  abbrev pub change_first : (A → Bool) → (A → A) → List A → List A
  change_first p f [] = []
  change_first p f (x ∷ xs) = let rest = x ∷ change_first p f xs in if p x then f x ∷ xs else rest

module _ {ℓ} {A : Type ℓ} where
  pub length-keep-le : (p : A → Bool) (xs : List A) → length (keep p xs) ≤ length xs
  length-keep-le p [] = omega arith
  length-keep-le p (x ∷ xs) = ground (arith, length-keep-le p xs)

  pub keep-append : (p : A → Bool) (xs ys : List A) → keep p (xs ++ ys) ≡ keep p xs ++ keep p ys
  keep-append p [] ys = refl
  keep-append p (x ∷ xs) ys = ground (arith, keep-append p xs ys)

  -- A filter keeps the whole list where every entry passes.
  pub keep-all : (p : A → Bool) (xs : List A) → all p xs ≡ true → keep p xs ≡ xs
  keep-all p [] h = refl
  keep-all p (x ∷ xs) h = ground (arith, keep-all p xs)

  pub all-keep : (p : A → Bool) (xs : List A) → all p (keep p xs) ≡ true
  all-keep p [] = refl
  all-keep p (x ∷ xs) = ground (arith, all-keep p xs)

  pub all-keep_of_all : (p q : A → Bool) (xs : List A) → all q xs ≡ true → all q (keep p xs) ≡ true
  all-keep_of_all p q [] h = refl
  all-keep_of_all p q (x ∷ xs) h = ground (arith, all-keep_of_all p q xs)

  pub all-append : (p : A → Bool) (xs ys : List A) → all p (xs ++ ys) ≡ (all p xs && all p ys)
  all-append p [] ys = refl
  all-append p (x ∷ xs) ys = ground (arith, all-append p xs ys)

  pub any-append : (p : A → Bool) (xs ys : List A) → any p (xs ++ ys) ≡ (any p xs || any p ys)
  any-append p [] ys = refl
  any-append p (x ∷ xs) ys = ground (arith, any-append p xs ys)

  pub all-remove_first :
      (p q : A → Bool) (xs : List A) → all q xs ≡ true → all q (remove_first p xs) ≡ true
  all-remove_first p q [] h = refl
  all-remove_first p q (x ∷ xs) h = ground (arith, all-remove_first p q xs)

  pub any-find : (p : A → Bool) (xs : List A) (a : A) → find p xs ≡ some a → any p xs ≡ true
  any-find p [] a h = ground arith
  any-find p (x ∷ xs) a h = ground (arith, any-find p xs a)

  pub find-holds : (p : A → Bool) (xs : List A) (a : A) → find p xs ≡ some a → p a ≡ true
  find-holds p [] a h = ground arith
  find-holds p (x ∷ xs) a h = ground (arith, find-holds p xs a)

  pub find-none : (p : A → Bool) (xs : List A) → any p xs ≡ false → find p xs ≡ none
  find-none p [] h = refl
  find-none p (x ∷ xs) h = ground (arith, find-none p xs)

module _ {ℓ} {A : Type ℓ} where
  pub get_elem?-some : (xs : List A) (i : ℕ) → i < length xs → (a : A) × (get_elem? xs i ≡ some a)
  get_elem?-some [] i h = elim h [ ]
  get_elem?-some (x ∷ xs) zero h = (x, refl)
  get_elem?-some (x ∷ xs) (suc i) h = get_elem?-some xs i (omega arith)

  pub any-index :
      (p : A → Bool) (xs : List A)
      → any p xs ≡ true
      → (i : ℕ) × (a : A) × (i < length xs) × (get_elem? xs i ≡ some a) × (p a ≡ true)
  any-index p [] h = cc
  any-index p (x ∷ xs) h = elim (Bool-cases (p x)) [
    | inl e ↦ (zero, x, omega arith, refl, e)
    | inr e ↦
        let (i, a, below, at, holds) = any-index p xs (ground arith) in
        (suc i, a, omega arith, at, holds)
  ]

  pub any-keep_nil : (p : A → Bool) (xs : List A) → keep p xs ≡ [] → any p xs ≡ false
  any-keep_nil p [] h = refl
  any-keep_nil p (x ∷ xs) h = elim (Bool-cases (p x)) [
    | inl e ↦ cc (rw e at h)
    | inr e ↦ ground (arith, any-keep_nil p xs (rw e at h))
  ]

  pub any-keep : (p q : A → Bool) (xs : List A) → any q (keep p xs) ≡ any (λ a. p a && q a) xs
  any-keep p q [] = refl
  any-keep p q (x ∷ xs) = ground (arith, any-keep p q xs)

  pub keep-keep : (p q : A → Bool) (xs : List A) → keep q (keep p xs) ≡ keep (λ a. p a && q a) xs
  keep-keep p q [] = refl
  keep-keep p q (x ∷ xs) = ground (arith, keep-keep p q xs)

  pub keep-nil_of_any : (p : A → Bool) (xs : List A) → any p xs ≡ false → keep p xs ≡ []
  keep-nil_of_any p [] h = refl
  keep-nil_of_any p (x ∷ xs) h = ground (arith, keep-nil_of_any p xs)

  pub any_of_keep_cons :
      (p : A → Bool) (xs : List A) (y : A) (ys : List A) → keep p xs ≡ y ∷ ys → any p xs ≡ true
  any_of_keep_cons p [] y ys h = cc
  any_of_keep_cons p (x ∷ xs) y ys h = elim (Bool-cases (p x)) [
    | inl e ↦ ground arith
    | inr e ↦ ground (arith, any_of_keep_cons p xs y ys (rw e at h))
  ]

  pub any_of-find-none : (p : A → Bool) (xs : List A) → find p xs ≡ none → any p xs ≡ false
  any_of-find-none p [] h = refl
  any_of-find-none p (x ∷ xs) h = ground (arith, any_of-find-none p xs)

  pub any-keep_le : (p q : A → Bool) (xs : List A) → any q xs ≡ false → any q (keep p xs) ≡ false
  any-keep_le p q [] h = refl
  any-keep_le p q (x ∷ xs) h = ground (arith, any-keep_le p q xs)

  pub keep_none : (p : A → Bool) (xs : List A) → any p xs ≡ false → keep (λ a. not (p a)) xs ≡ xs
  keep_none p [] h = refl
  keep_none p (x ∷ xs) h = ground (arith, keep_none p xs)

  pub keep_comm : (p q : A → Bool) (xs : List A) → keep p (keep q xs) ≡ keep q (keep p xs)
  keep_comm p q [] = refl
  keep_comm p q (x ∷ xs) = ground (arith, keep_comm p q xs)

  pub all-change_first :
      (p q : A → Bool) (y : A) (xs : List A)
      → all q xs ≡ true
      → q y ≡ true
      → all q (change_first p (λ _. y) xs) ≡ true
  all-change_first p q y [] h k = refl
  all-change_first p q y (x ∷ xs) h k = ground (arith, all-change_first p q y xs)

  pub change_first-ne-nil :
      (p : A → Bool) (y : A) (xs : List A) {a : A}
      → find p xs ≡ some a
      → change_first p (λ _. y) xs ≢ []
  change_first-ne-nil p y [] h e = cc
  change_first-ne-nil p y (x ∷ xs) h e = ground arith

  pub any-keep-not : (p : A → Bool) (xs : List A) → any p (keep (λ a. not (p a)) xs) ≡ false
  any-keep-not p [] = refl
  any-keep-not p (x ∷ xs) = ground (arith, any-keep-not p xs)

  pub remove_first-append :
      (p : A → Bool) (xs : List A) (a : A)
      → any p xs ≡ false
      → p a ≡ true
      → remove_first p (xs ++ a ∷ []) ≡ xs
  remove_first-append p [] a h k = ground arith
  remove_first-append p (x ∷ xs) a h k = ground (arith, remove_first-append p xs a)

  pub find-append :
      (p : A → Bool) (xs : List A) (a : A)
      → any p xs ≡ false
      → p a ≡ true
      → find p (xs ++ a ∷ []) ≡ some a
  find-append p [] a h k = ground arith
  find-append p (x ∷ xs) a h k = ground (arith, find-append p xs a)

  pub length-ne_zero : (xs : List A) → xs ≢ [] → length xs ≢ 0
  length-ne_zero [] h e = h refl
  length-ne_zero (x ∷ xs) h e = omega arith
