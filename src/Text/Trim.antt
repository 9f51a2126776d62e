-- ===== src/Text/Trim.antt =====
-- strings.TrimSpace leaves what it has trimmed.
use qwen2api_go.Prelude.{
  ℕ, ◌≡◌, refl, sym, ap, ◌∙◌, ◌⊎◌, inl, inr, Bool, true, false, [], ◌∷◌, any, Bool-cases, arith,
}
use qwen2api_go.Text.Defs.{Text, trim_left, trim_right, trim_front, trim_space, is_space}

-- What is left begins with a code point that stays.
trim_left-head :
    (p : ℕ → Bool) (s : Text)
    → (trim_left p s ≡ []) ⊎ ((c : ℕ) × (t : Text) × (trim_left p s ≡ c ∷ t) × (p c ≡ false))
unfolding trim_left
trim_left-head p [] = inl refl
trim_left-head p (c ∷ s) = elim (Bool-cases (p c)) [
  | inl e ↦ rw e (trim_left-head p s)
  | inr e ↦ inr (c, s, rw e refl, e)
]

trim_front-cases :
    (b : Bool) (c : ℕ) (t : Text)
    → ((trim_front b c t ≡ []) × (b ≡ true) × (t ≡ [])) ⊎ (trim_front b c t ≡ c ∷ t)
trim_front-cases true c [] = inl (refl, refl, refl)
trim_front-cases true c (d ∷ t) = inr refl
trim_front-cases false c t = inr refl

trim_right-trim_right : (p : ℕ → Bool) (s : Text) → trim_right p (trim_right p s) ≡ trim_right p s
unfolding trim_right
trim_right-trim_right p [] = refl
trim_right-trim_right p (c ∷ s) = elim (trim_front-cases (p c) c (trim_right p s)) [
  | inl (e, _, _) ↦ ap (trim_right p) e ∙ sym e
  | inr e ↦ ap (trim_right p) e ∙ ap (trim_front (p c) c) (trim_right-trim_right p s)
]

trim_left-trim_right :
    (p : ℕ → Bool) (s : Text)
    → (s ≡ []) ⊎ ((c : ℕ) × (t : Text) × (s ≡ c ∷ t) × (p c ≡ false))
    → trim_left p (trim_right p s) ≡ trim_right p s
unfolding trim_left trim_right
trim_left-trim_right p s (inl e) = rw e refl
trim_left-trim_right p s (inr (c, t, e, stays)) = rw e (rw stays (rw stays refl))

pub trim_space-trim_space : (s : Text) → trim_space (trim_space s) ≡ trim_space s
unfolding trim_space
trim_space-trim_space s =
    ap (trim_right is_space)
      (trim_left-trim_right is_space (trim_left is_space s) (trim_left-head is_space s))
    ∙ trim_right-trim_right is_space (trim_left is_space s)

trim_left_none : (p : ℕ → Bool) (s : Text) → any p s ≡ false → trim_left p s ≡ s
unfolding trim_left
trim_left_none p [] h = refl
trim_left_none p (c ∷ s) h = ground arith

trim_right_none : (p : ℕ → Bool) (s : Text) → any p s ≡ false → trim_right p s ≡ s
unfolding trim_right
trim_right_none p [] h = refl
trim_right_none p (c ∷ s) h =
    let stays : p c ≡ false = ground arith in rw (stays, trim_right_none p s (ground arith)) refl

-- A text without spaces is not changed.
pub trim_space_none : (s : Text) → any is_space s ≡ false → trim_space s ≡ s
unfolding trim_space
trim_space_none s h =
    ap (trim_right is_space) (trim_left_none is_space s h) ∙ trim_right_none is_space s h
