-- ===== src/Text/Defs.antt =====
-- A Go string that holds valid UTF-8 is the list of its code points. The functions follow the
-- documentation of packages strings and unicode. ASCII letters are folded by computation; the
-- Unicode tables for the other letters come with the toolchain and are the interface `Unicode`.
use Prim.Native.Char.{code}
use Prim.Native.String.{String}
use qwen2api_go.Prelude.{
  ℕ, zero, suc, length, ◌+◌, ◌-◌, ◌++◌, Bool, true, false, ◌&&◌, ◌||◌, Option, none, some, List, [],
  ◌∷◌, map, ltb, leb, eqb, if◌then◌else◌,
}

abbrev pub Text : Type 0
Text = List ℕ

abbrev pub codes : String → Text
codes String.[] = []
codes (String.◌∷◌ c s) = code c ∷ codes s

-- Package unicode's tables beyond ASCII: a representative of each class of letters that differ by
-- case alone (`unicode.SimpleFold`), and `unicode.ToLower`.
pub record Unicode : Type 0 where
  pub fold_table : ℕ → ℕ
  pub lower_table : ℕ → ℕ

-- unicode.IsSpace
unfoldable pub is_space : ℕ → Bool
is_space c =
    leb 9 c && leb c 13
    || eqb c 32
    || eqb c 0x85
    || eqb c 0xa0
    || eqb c 0x1680
    || leb 0x2000 c && leb c 0x200a
    || eqb c 0x2028
    || eqb c 0x2029
    || eqb c 0x202f
    || eqb c 0x205f
    || eqb c 0x3000

abbrev pub ascii_lower : ℕ → ℕ
ascii_lower c = if leb b'A' c && leb c b'Z' then c + 32 else c

-- strings.TrimLeft with a predicate on code points
unfoldable pub trim_left : (ℕ → Bool) → Text → Text
trim_left p [] = []
trim_left p (c ∷ s) = let rest = trim_left p s in if p c then rest else c ∷ s

-- A trimmed code point goes only where nothing is left behind it.
abbrev pub trim_front : Bool → ℕ → Text → Text
trim_front true c [] = []
trim_front true c (d ∷ t) = c ∷ d ∷ t
trim_front false c t = c ∷ t

unfoldable pub trim_right : (ℕ → Bool) → Text → Text
trim_right p [] = []
trim_right p (c ∷ s) = trim_front (p c) c (trim_right p s)

-- strings.TrimSpace
unfoldable pub trim_space : Text → Text
unfolding trim_left trim_right is_space
trim_space s = trim_right is_space (trim_left is_space s)

-- `==` on strings
unfoldable pub text_beq : Text → Text → Bool
text_beq [] [] = true
text_beq [] (d ∷ t) = false
text_beq (c ∷ s) [] = false
text_beq (c ∷ s) (d ∷ t) = eqb c d && text_beq s t

-- strings.HasPrefix, with the prefix first
unfoldable pub has_prefix : Text → Text → Bool
has_prefix [] t = true
has_prefix (c ∷ s) [] = false
has_prefix (c ∷ s) (d ∷ t) = eqb c d && has_prefix s t

-- strings.Contains, with the part first
unfoldable pub contains : Text → Text → Bool
unfolding has_prefix
contains part [] = has_prefix part []
contains part (c ∷ s) = has_prefix part (c ∷ s) || contains part s

-- strings.Cut at a separator of one code point: the text before and after its first occurrence.
unfoldable pub cut : ℕ → Text → Option (Text × Text)
cut sep [] = none
cut sep (c ∷ s) =
    let rest = cut sep s in
    if eqb c sep
    then some ([], s)
    else (elim rest [ none ↦ none | some (before, after) ↦ some (c ∷ before, after) ])

-- strings.Split at a separator of one code point: one part more than there are separators.
abbrev onto_first : ℕ → List Text → List Text
onto_first c [] = (c ∷ []) ∷ []
onto_first c (part ∷ parts) = (c ∷ part) ∷ parts

unfoldable pub split : ℕ → Text → List Text
split sep [] = [] ∷ []
split sep (c ∷ s) = let parts = split sep s in if eqb c sep then [] ∷ parts else onto_first c parts

-- strings.ReplaceAll: `skip` counts the code points of a match that are still to be passed.
unfoldable pub replace_from : Text → Text → ℕ → Text → Text
unfolding has_prefix
replace_from old new skip [] = []
replace_from old new (suc skip) (c ∷ s) = replace_from old new skip s
replace_from old new zero (c ∷ s) =
    let matched = new ++ replace_from old new (length old - 1) s in
    let kept = c ∷ replace_from old new zero s in if has_prefix old (c ∷ s) then matched else kept

abbrev pub is_blank : Text → Bool
is_blank s = text_beq (trim_space s) []

module _ ⦃u : Unicode⦄ where
  abbrev pub fold : ℕ → ℕ
  fold c = if ltb c 128 then ascii_lower c else u.fold_table c

  abbrev pub lower : ℕ → ℕ
  lower c = if ltb c 128 then ascii_lower c else u.lower_table c

  -- strings.EqualFold: letter by letter, up to case
  unfoldable pub equal_fold : Text → Text → Bool
  unfolding text_beq
  equal_fold s t = text_beq (map fold s) (map fold t)

  -- strings.ToLower
  abbrev pub to_lower : Text → Text
  to_lower s = map lower s
