-- ===== src/Text/Laws.antt =====
-- Equality of texts is decided by `text_beq`, equality up to case is an equivalence.
use qwen2api_go.Prelude.{
  ℕ, ◌≡◌, refl, sym, ap, ◌∙◌, ◌↔◌, true, false, some, [], ◌∷◌, ◌++◌, map, Eq, eqb, arith, any,
}
use qwen2api_go.Text.Defs.{Text, Unicode, text_beq, equal_fold, fold, cut}

pub text_beq_refl : (s : Text) → text_beq s s ≡ true
unfolding text_beq
text_beq_refl [] = refl
text_beq_refl (c ∷ s) = ground (arith, text_beq_refl s)

pub text_beq→eq : (s t : Text) → text_beq s t ≡ true → s ≡ t
unfolding text_beq
text_beq→eq [] [] h = refl
text_beq→eq [] (d ∷ t) h = cc
text_beq→eq (c ∷ s) [] h = cc
text_beq→eq (c ∷ s) (d ∷ t) h = ground (arith, text_beq→eq s t)

pub text_beq_iff : (s t : Text) → (text_beq s t ≡ true) ↔ (s ≡ t)
text_beq_iff s t = (text_beq→eq s t, λ e. ap (text_beq s) (sym e) ∙ text_beq_refl s)

instance abbrev pub text_eq : Eq Text
text_eq = record { beq = text_beq; beq_iff = text_beq_iff }

pub cut-hit :
    (sep : ℕ) (s t : Text) → any (eqb sep) s ≡ false → cut sep (s ++ sep ∷ t) ≡ some (s, t)
unfolding cut
cut-hit sep [] t h = ground arith
cut-hit sep (c ∷ s) t h = ground (arith, cut-hit sep s t)

module _ ⦃u : Unicode⦄ where
  pub equal_fold_refl : (s : Text) → equal_fold s s ≡ true
  unfolding equal_fold
  equal_fold_refl s = text_beq_refl (map fold s)

  pub equal_fold→eq : (s t : Text) → equal_fold s t ≡ true → map fold s ≡ map fold t
  unfolding equal_fold
  equal_fold→eq s t h = text_beq→eq _ _ h

  pub equal_fold_of_eq : (s t : Text) → map fold s ≡ map fold t → equal_fold s t ≡ true
  unfolding equal_fold
  equal_fold_of_eq s t e = (text_beq_iff _ _).1 e

  pub equal_fold_trans :
      (s t v : Text) → equal_fold s t ≡ true → equal_fold t v ≡ true → equal_fold s v ≡ true
  equal_fold_trans s t v h k = equal_fold_of_eq s v (equal_fold→eq s t h ∙ equal_fold→eq t v k)

  pub equal_fold_symm : (s t : Text) → equal_fold s t ≡ true → equal_fold t s ≡ true
  equal_fold_symm s t h = equal_fold_of_eq t s (sym (equal_fold→eq s t h))
