-- ===== src/Toolcall/Held.antt =====
-- Text that is let through has no marker in it, whatever comes after it: internal/toolcall/toolcall.go,
-- ProcessStreamChunk.
use mathlib.Core.Bool.{false≢true}
use qwen2api_go.Prelude.{
  ℕ, zero, suc, ◌-◌, ◌≤◌, ◌≡◌, refl, sym, ap, subst, ◌∙◌, inl, inr, Bool, true, false, Option, none,
  some, [], ◌∷◌, ◌++◌, any-index, any_of-In, get_elem?-In, leb, length, length-append, take, drop,
  In, Bool-cases, if◌then◌else◌, arith,
}
use qwen2api_go.Text.{text_beq, text_beq_refl, has_prefix}
use qwen2api_go.Toolcall.Markers.{Bytes, start_markers, next, has_suffix, longest_from}
use qwen2api_go.Toolcall.Starts.{starts, first_start, longest_from-max}

-- No marker stands at a place of `e`, where `rest` follows it.
abbrev pub NoStart : Bytes → Bytes → Type 0
NoStart [] rest = Unit
NoStart (c ∷ e) rest = (starts start_markers (c ∷ (e ++ rest)) ≡ false) × NoStart e rest

pub append_assoc : (a b c : Bytes) → (a ++ b) ++ c ≡ a ++ (b ++ c)
append_assoc [] b c = refl
append_assoc (x ∷ a) b c = ap (λ s. x ∷ s) (append_assoc a b c)

pub NoStart-append :
    (e a rest : Bytes) → NoStart e (a ++ rest) → NoStart a rest → NoStart (e ++ a) rest
NoStart-append [] a rest h k = k
NoStart-append (c ∷ e) a rest (h, hs) k = (
  ap (λ s. starts start_markers (c ∷ s)) (append_assoc e a rest) ∙ h,
  NoStart-append e a rest hs k,
)

-- A prefix within the first part, and one that goes beyond it.
has_prefix-within :
    (marker a b : Bytes)
    → has_prefix marker (a ++ b) ≡ true
    → length marker ≤ length a
    → has_prefix marker a ≡ true
unfolding has_prefix
has_prefix-within [] a b h short = refl
has_prefix-within (m ∷ marker) [] b h short = absurd (omega arith)
has_prefix-within (m ∷ marker) (x ∷ a) b h short = ground (arith, has_prefix-within marker a b)

take-beyond :
    (marker a b : Bytes)
    → has_prefix marker (a ++ b) ≡ true
    → length a ≤ length marker
    → take (length a) marker ≡ a
unfolding has_prefix
take-beyond marker [] b h long = refl
take-beyond [] (x ∷ a) b h long = absurd (omega arith)
take-beyond (m ∷ marker) (x ∷ a) b h long = ground (arith, take-beyond marker a b)

drop-append : (y a : Bytes) → drop (length y) (y ++ a) ≡ a
drop-append [] a = refl
drop-append (x ∷ y) a = drop-append y a

has_suffix-append : (y a : Bytes) → has_suffix (y ++ a) a ≡ true
unfolding has_suffix
has_suffix-append y a =
    let lengths : length (y ++ a) - length a ≡ length y = omega (arith, length-append y a) in
    let rest : drop (length (y ++ a) - length a) (y ++ a) ≡ a =
      ap (λ n. drop n (y ++ a)) lengths ∙ drop-append y a in
    let below : leb (length a) (length (y ++ a)) ≡ true = ground (arith, length-append y a) in
    rw below (ap (λ s. text_beq s a) rest ∙ text_beq_refl a)

no_start_within :
    (y : Bytes) (c : ℕ) (a : Bytes)
    → first_start start_markers (y ++ (c ∷ a)) ≡ none
    → starts start_markers (c ∷ a) ≡ false
no_start_within [] c a h = elim (Bool-cases (starts start_markers (c ∷ a))) [
  | inl e ↦ cc (rw e at h)
  | inr e ↦ e
]
no_start_within (x ∷ y) c a h = no_start_within y c a (no_later _ _ h)
  where
    no_later : (b : Bool) (o : Option ℕ) → (if b then some 0 else next o) ≡ none → o ≡ none
    no_later true o e = cc
    no_later false none e = refl
    no_later false (some i) e = cc

-- A text without a marker whose end, from some place on, is at least as long as every beginning of a
-- marker that it ends with: no marker stands before that place, whatever follows the text.
module _ (t held : Bytes) (clear : first_start start_markers t ≡ none)
    (enough : longest_from start_markers t 0 ≤ length held) where
  no_start_at :
      (y : Bytes) (c : ℕ) (x rest : Bytes)
      → t ≡ y ++ (c ∷ (x ++ held))
      → starts start_markers (c ∷ (x ++ (held ++ rest))) ≡ false
  no_start_at y c x rest split =
      elim (Bool-cases (starts start_markers (c ∷ (x ++ (held ++ rest))))) [
        | inr e ↦ e
        | inl e ↦
            let (i, marker, below, at, holds) =
              any-index (λ m. has_prefix m (c ∷ (x ++ (held ++ rest)))) start_markers e in
            absurd (
              impossible marker (get_elem?-In marker start_markers i at) (
                subst (λ s. has_prefix marker s ≡ true) (sym (append_assoc (c ∷ x) held rest))
                  holds))
      ]
    where
      impossible :
          (marker : Bytes)
          → In marker start_markers
          → has_prefix marker ((c ∷ (x ++ held)) ++ rest) ≡ true
          → ⊥
      impossible marker member holds =
          elim (Bool-cases (leb (length marker) (length (c ∷ (x ++ held))))) [
            | inl short ↦ false≢true (
                sym (
                  no_start_within y c (x ++ held)
                    (subst (λ s. first_start start_markers s ≡ none) split clear))
                ∙ any_of-In (λ m. has_prefix m (c ∷ (x ++ held))) marker start_markers member
                    (has_prefix-within marker (c ∷ (x ++ held)) rest holds (ground arith)))
            | inr long ↦
                let whole = c ∷ (x ++ held) in
                let under : length whole ≤ length marker = ground arith in
                let taken : take (length whole) marker ≡ whole =
                  take-beyond marker whole rest holds under in
                let ends : has_suffix t (take (length whole) marker) ≡ true =
                  ap (λ s. has_suffix s (take (length whole) marker)) split
                  ∙ ap (has_suffix (y ++ whole)) taken
                  ∙ has_suffix-append y whole in
                let fits : length whole ≤ length t =
                  subst (λ s. length whole ≤ length s) (sym split)
                    (omega (arith, length-append y whole)) in
                omega (
                  arith,
                  enough,
                  length-append x held,
                  longest_from-max start_markers marker t 0 (length whole) member under fits ends,
                )
          ]

  held-NoStart : (y x rest : Bytes) → t ≡ y ++ (x ++ held) → NoStart x (held ++ rest)
  held-NoStart y [] rest split = tt
  held-NoStart y (c ∷ x) rest split = (
    no_start_at y c x rest split,
    held-NoStart (y ++ (c ∷ [])) x rest (split ∙ sym (append_assoc y (c ∷ []) (x ++ held))),
  )

  pub safe-NoStart : (safe rest : Bytes) → t ≡ safe ++ held → NoStart safe (held ++ rest)
  safe-NoStart safe rest split = held-NoStart [] safe rest split

pub take-drop : (n : ℕ) (s : Bytes) → take n s ++ drop n s ≡ s
take-drop zero s = refl
take-drop (suc n) [] = refl
take-drop (suc n) (c ∷ s) = ap (λ t. c ∷ t) (take-drop n s)

next-some : (o : Option ℕ) (j : ℕ) → next o ≡ some j → (i : ℕ) × (j ≡ suc i) × (o ≡ some i)
next-some none j h = cc
next-some (some i) j h = (i, cc, refl)

-- The text before the first marker, and the text that begins with it.
abbrev pub IsFirst : Bytes → ℕ → Type 0
IsFirst s j =
    (j ≤ length s) × NoStart (take j s) (drop j s) × (starts start_markers (drop j s) ≡ true)

pub first_start-IsFirst : (s : Bytes) (j : ℕ) → first_start start_markers s ≡ some j → IsFirst s j
first_start-IsFirst [] j h = cc
first_start-IsFirst (c ∷ s) j h = elim (Bool-cases (starts start_markers (c ∷ s))) [
  | inl e ↦ subst (IsFirst (c ∷ s)) (zero_first (rw e at h)) (omega arith, tt, e)
  | inr e ↦
      let (i, same, found) = next-some (first_start start_markers s) j (rw e at h) in
      let (below, clear, here) = first_start-IsFirst s i found in
      subst (IsFirst (c ∷ s)) (sym same)
        (omega arith, (ap (λ t. starts start_markers (c ∷ t)) (take-drop i s) ∙ e, clear), here)
]
  where
    zero_first : {j : ℕ} → some 0 ≡ some j → 0 ≡ j
    zero_first h = cc

first_start-NoStart :
    (e : Bytes) (c : ℕ) (rest : Bytes)
    → NoStart e (c ∷ rest)
    → starts start_markers (c ∷ rest) ≡ true
    → first_start start_markers (e ++ (c ∷ rest)) ≡ some (length e)
first_start-NoStart [] c rest h k = rw k refl
first_start-NoStart (x ∷ e) c rest (h, hs) k = rw h (ap next (first_start-NoStart e c rest hs k))

pub first_start_at :
    (e rest : Bytes)
    → NoStart e rest
    → starts start_markers rest ≡ true
    → first_start start_markers (e ++ rest) ≡ some (length e)
unfolding has_prefix
first_start_at e [] h k = cc
first_start_at e (c ∷ rest) h k = first_start-NoStart e c rest h k
