-- ===== src/Toolcall/Starts.antt =====
-- Where a marker of a tool call starts: internal/toolcall/toolcall.go, firstMarkerIndex and
-- longestMarkerPrefixSuffix.
use mathlib.Core.Bool.{false≢true}
use qwen2api_go.Prelude.{
  ℕ, zero, suc, ◌≤◌, ◌≡◌, refl, sym, ap, subst, ◌∙◌, ◌⊎◌, inl, inr, Bool, true, Option, none, some,
  List, [], ◌∷◌, any, leb, leb→le, In, length, take, Bool-cases, if-cases, if◌then◌else◌, arith,
}
use qwen2api_go.Text.{has_prefix}
use qwen2api_go.Toolcall.Markers.{
  Bytes, start_markers, index_of, next, earlier, first_from, has_suffix, longest_of, longest_from,
  least,
}

-- A marker stands at the beginning.
abbrev pub starts : List Bytes → Bytes → Bool
starts markers s = any (λ marker. has_prefix marker s) markers

-- The first place at which a marker stands.
abbrev pub first_start : List Bytes → Bytes → Option ℕ
first_start markers [] = none
first_start markers (c ∷ s) =
    let later = next (first_start markers s) in if starts markers (c ∷ s) then some 0 else later

earliest : (markers : List Bytes) (s : Bytes) → first_from markers s (some 0) ≡ some 0
unfolding first_from
earliest [] s = refl
earliest (marker ∷ markers) s =
    ap (first_from markers s) (stays (index_of marker s)) ∙ earliest markers s
  where
    stays : (o : Option ℕ) → earlier (some 0) o ≡ some 0
    stays none = refl
    stays (some i) = ground arith

earlier-next : (r o : Option ℕ) → earlier (next r) (next o) ≡ next (earlier r o)
earlier-next r none = refl
earlier-next none (some i) = refl
earlier-next (some b) (some i) = ground arith

earlier-zero : (r : Option ℕ) → earlier (next r) (some 0) ≡ some 0
earlier-zero none = refl
earlier-zero (some b) = ground arith

first_from-cons :
    (markers : List Bytes) (c : ℕ) (s : Bytes) (r : Option ℕ)
    → first_from markers (c ∷ s) (next r)
      ≡ (if starts markers (c ∷ s) then some 0 else next (first_from markers s r))
unfolding first_from index_of
first_from-cons [] c s r = refl
first_from-cons (marker ∷ markers) c s r = elim (Bool-cases (has_prefix marker (c ∷ s))) [
  | inl e ↦ rw e (ap (first_from markers (c ∷ s)) (earlier-zero r) ∙ earliest markers (c ∷ s))
  | inr e ↦ rw e (
      ap (first_from markers (c ∷ s)) (earlier-next r (index_of marker s))
      ∙ first_from-cons markers c s (earlier r (index_of marker s)))
]

nothing_first : first_from start_markers [] none ≡ none
unfolding first_from index_of has_prefix
nothing_first = refl

-- The search for each marker and the choice of the earliest find the first place of any of them.
pub first_from-first_start :
    (s : Bytes) → first_from start_markers s none ≡ first_start start_markers s
first_from-first_start [] = nothing_first
first_from-first_start (c ∷ s) =
    first_from-cons start_markers c s none
    ∙ ap (λ o. if starts start_markers (c ∷ s) then some 0 else next o) (first_from-first_start s)

-- What is found is not less than what was best before, and is at least as long as each beginning of the
-- marker that the text ends with.
pub longest_of-ge : (marker s : Bytes) (n best : ℕ) → best ≤ longest_of marker s n best
unfolding longest_of
longest_of-ge marker s zero best = omega arith
longest_of-ge marker s (suc l) best = ground (arith, longest_of-ge marker s l best)

longest_of-max :
    (marker s : Bytes) (n best l : ℕ)
    → l ≤ n
    → has_suffix s (take l marker) ≡ true
    → l ≤ longest_of marker s n best
unfolding longest_of
longest_of-max marker s zero best l below ends = omega arith
longest_of-max marker s (suc n) best l below ends =
    if-cases (λ r. l ≤ r) (leb (suc n) best) _ _ (λ e. omega (arith, leb→le (suc n) best e))
      (λ _.
        if-cases (λ r. l ≤ r) (has_suffix s (take (suc n) marker)) _ _ (λ _. below)
          (λ e. elim (lower_or_top l n below) [
            | inl under ↦ longest_of-max marker s n best l under ends
            | inr top ↦
                absurd
                  (false≢true (sym e ∙ ap (λ k. has_suffix s (take k marker)) (sym top) ∙ ends))
          ]))
  where
    lower_or_top : (l n : ℕ) → l ≤ suc n → (l ≤ n) ⊎ (l ≡ suc n)
    lower_or_top l n h = ground arith

longest_from-ge : (markers : List Bytes) (s : Bytes) (best : ℕ) → best ≤ longest_from markers s best
unfolding longest_from
longest_from-ge [] s best = omega arith
longest_from-ge (marker ∷ markers) s best = omega (
  arith,
  longest_of-ge marker s (least (length marker) (length s)) best,
  longest_from-ge markers s (longest_of marker s (least (length marker) (length s)) best),
)

-- No beginning of a marker that the text ends with is longer than what is found.
pub longest_from-max :
    (markers : List Bytes) (marker s : Bytes) (best l : ℕ)
    → In marker markers
    → l ≤ length marker
    → l ≤ length s
    → has_suffix s (take l marker) ≡ true
    → l ≤ longest_from markers s best
unfolding longest_from
longest_from-max [] marker s best l member short here ends = absurd member
longest_from-max (other ∷ markers) marker s best l (inl same) short here ends = omega (
  arith,
  longest_of-max other s (least (length other) (length s)) best l
      (in_range other (subst (λ m. l ≤ length m) (sym same) short))
      (subst (λ m. has_suffix s (take l m) ≡ true) (sym same) ends),
  longest_from-ge markers s (longest_of other s (least (length other) (length s)) best),
)
  where
    in_range : (other : Bytes) → l ≤ length other → l ≤ least (length other) (length s)
    in_range other h = ground arith
longest_from-max (other ∷ markers) marker s best l (inr member) short here ends =
    longest_from-max markers marker s (longest_of other s (least (length other) (length s)) best) l
      member short here ends

longest_of-le :
    (marker s : Bytes) (n best k : ℕ) → n ≤ k → best ≤ k → longest_of marker s n best ≤ k
unfolding longest_of
longest_of-le marker s zero best k h b = b
longest_of-le marker s (suc n) best k h b =
    if-cases (λ r. r ≤ k) (leb (suc n) best) _ _ (λ _. b)
      (λ _.
        if-cases (λ r. r ≤ k) (has_suffix s (take (suc n) marker)) _ _ (λ _. h)
          (λ _. longest_of-le marker s n best k (omega arith) b))

-- What is found is not longer than the text.
pub longest_from-le :
    (markers : List Bytes) (s : Bytes) (best : ℕ)
    → best ≤ length s
    → longest_from markers s best ≤ length s
unfolding longest_from
longest_from-le [] s best h = h
longest_from-le (marker ∷ markers) s best h =
    longest_from-le markers s (longest_of marker s (least (length marker) (length s)) best) (
      longest_of-le marker s (least (length marker) (length s)) best (length s)
        (least-le (length marker) (length s)) h)
  where
    least-le : (a b : ℕ) → least a b ≤ b
    least-le a b = ground arith
