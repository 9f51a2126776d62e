-- ===== src/Text/Print.antt =====
-- Texts that are put together, and sets of texts: strconv, strings.Join, and a map of names whose keys
-- are sorted.
use qwen2api_go.Prelude.{
  ℕ, zero, suc, ◌+◌, ◌/◌, ◌%◌, Bool, true, false, ◌&&◌, ◌||◌, List, [], ◌∷◌, ◌++◌, any, ltb, eqb,
  if◌then◌else◌,
}
use qwen2api_go.Prelude.Int.{ℤ, pos, negsuc}
use qwen2api_go.Text.Defs.{Text, codes, text_beq}

-- The last `k` digits, before `rest`. An integer of 64 bits has less than 20.
decimal_onto : ℕ → ℕ → Text → Text
decimal_onto zero n rest = rest
decimal_onto (suc k) n rest =
    let digits = (b'0' + n % 10) ∷ rest in
    let more = decimal_onto k (n / 10) digits in if ltb n 10 then digits else more

-- fmt's `%d` of an int64
unfoldable pub decimal : ℤ → Text
unfolding decimal_onto
decimal (pos n) = decimal_onto 20 n []
decimal (negsuc n) = codes "-" ++ decimal_onto 20 (suc n) []

-- strings.Join, with the separator first
unfoldable pub join : Text → List Text → Text
join sep [] = []
join sep (part ∷ []) = part
join sep (part ∷ next ∷ parts) = part ++ sep ++ join sep (next ∷ parts)

-- The first of each text: the keys of a map, in the order in which they are added.
unfoldable pub distinct_from : List Text → List Text → List Text
distinct_from seen [] = []
distinct_from seen (s ∷ rest) =
    let without = distinct_from seen rest in
    let with_it = s ∷ distinct_from (s ∷ seen) rest in
    if any (text_beq s) seen then without else with_it

unfoldable pub distinct : List Text → List Text
unfolding distinct_from
distinct = distinct_from []

-- `<` on strings: UTF-8 keeps the order of the code points.
unfoldable pub text_ltb : Text → Text → Bool
text_ltb s [] = false
text_ltb [] (d ∷ t) = true
text_ltb (c ∷ s) (d ∷ t) = ltb c d || eqb c d && text_ltb s t

abbrev pub insert_text : Text → List Text → List Text
unfolding text_ltb
insert_text s [] = s ∷ []
insert_text s (t ∷ rest) =
    let later = t ∷ insert_text s rest in if text_ltb t s then later else s ∷ t ∷ rest

-- sort.Strings
unfoldable pub sort_texts : List Text → List Text
sort_texts [] = []
sort_texts (s ∷ rest) = insert_text s (sort_texts rest)
