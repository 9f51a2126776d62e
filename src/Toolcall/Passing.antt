-- ===== src/Toolcall/Passing.antt =====
-- One chunk of text outside of a tool call: internal/toolcall/toolcall.go, ProcessStreamChunk.
use qwen2api_go.Prelude.{
  ℕ, zero, suc, ◌-◌, ◌≤◌, ◌<◌, ◌≡◌, refl, sym, ap, subst, ◌∙◌, ◌⊎◌, inl, inr, Bool, true, false,
  Option, none, some, [], ◌∷◌, ◌++◌, map, ltb, leb, le→leb, eqb, length, take, drop, length-drop,
  if-cases, if◌then◌else◌, arith,
}
use qwen2api_go.Text.{ascii_lower}
use qwen2api_go.Toolcall.Markers.{
  Bytes, start_markers, slice_to, slice_from, next, longest_of, longest_from, first_from,
  back_to_valid, safe_utf8_split_index,
}
use qwen2api_go.Toolcall.Sieve.{
  StreamState, new_stream_state, Markup, first_marker_index, longest_marker_prefix_suffix, Next,
  hold_from, pass_chunk, process_stream_chunk,
}
use qwen2api_go.Toolcall.Starts.{starts, first_start, first_from-first_start, longest_from-le}
use qwen2api_go.Toolcall.Held.{NoStart, safe-NoStart, first_start-IsFirst, take-drop}

-- Letters of ASCII in lower case, byte by byte.
abbrev pub low : Bytes → Bytes
low s = map ascii_lower s

pub low-append : (a b : Bytes) → low (a ++ b) ≡ low a ++ low b
low-append [] b = refl
low-append (c ∷ a) b = ap (λ s. ascii_lower c ∷ s) (low-append a b)

pub length-low : (s : Bytes) → length (low s) ≡ length s
length-low [] = refl
length-low (c ∷ s) = ap suc (length-low s)

take-low : (n : ℕ) (s : Bytes) → take n (low s) ≡ low (take n s)
take-low zero s = refl
take-low (suc n) [] = refl
take-low (suc n) (c ∷ s) = ap (λ t. ascii_lower c ∷ t) (take-low n s)

drop-low : (n : ℕ) (s : Bytes) → drop n (low s) ≡ low (drop n s)
drop-low zero s = refl
drop-low (suc n) [] = refl
drop-low (suc n) (c ∷ s) = drop-low n s

pub append_nil : (s : Bytes) → s ++ [] ≡ s
append_nil [] = refl
append_nil (c ∷ s) = ap (λ t. c ∷ t) (append_nil s)

-- A text without a marker.
abbrev pub IsClear : Bytes → Type 0
IsClear s = first_start start_markers s ≡ none

IsClear-later : (c : ℕ) (s : Bytes) → IsClear (c ∷ s) → IsClear s
IsClear-later c s h = no_later (starts start_markers (c ∷ s)) (first_start start_markers s) h
  where
    no_later : (b : Bool) (o : Option ℕ) → (if b then some 0 else next o) ≡ none → o ≡ none
    no_later true o e = cc
    no_later false none e = refl
    no_later false (some i) e = cc

drop-IsClear : (n : ℕ) (s : Bytes) → IsClear s → IsClear (drop n s)
drop-IsClear zero s h = h
drop-IsClear (suc n) [] h = h
drop-IsClear (suc n) (c ∷ s) h = drop-IsClear n s (IsClear-later c s h)

pub append-IsClear : (e s : Bytes) → NoStart e s → IsClear s → IsClear (e ++ s)
append-IsClear [] s h k = k
append-IsClear (c ∷ e) s (h, hs) k = rw h (ap next (append-IsClear e s hs k))

longest_nil : longest_from start_markers [] 0 ≡ 0
unfolding longest_from longest_of
longest_nil = refl

-- What utf8.ValidString says of texts that are put together: the empty text is valid, two valid texts
-- are, and so is what follows a valid beginning of a valid text.
abbrev pub IsUtf8 : (Bytes → Bool) → Type 0
IsUtf8 valid =
    (valid [] ≡ true)
    × ((a b : Bytes) → valid a ≡ true → valid b ≡ true → valid (a ++ b) ≡ true)
    × ((a b : Bytes) → valid a ≡ true → valid (a ++ b) ≡ true → valid b ≡ true)

module _ {C : Type 0} (m : Markup C) where
  -- What a chunk leads to, where the text held back and the chunk make up `t`: nothing is lost, and
  -- either no marker stands in what is let through, whatever follows, or the capture begins at the
  -- first marker; and what is held back is valid UTF-8.
  abbrev pub Fate : StreamState → Bytes → Type 0
  Fate st content =
      ((st.capturing ≡ false)
        × (st.capture_buff ≡ [])
        × ((rest : Bytes) → NoStart (low content) (low st.pending ++ rest))
        × IsClear (low st.pending)
        × (m.valid_utf8 st.pending ≡ true))
      ⊎ ((st.capturing ≡ true)
          × (st.pending ≡ [])
          × NoStart (low content) (low st.capture_buff)
          × (starts start_markers (low st.capture_buff) ≡ true))

  abbrev pub IsPassed : Bytes → Next m → Type 0
  IsPassed t none = ⊥
  IsPassed t (some (st, r)) = (r.content ++ (st.capture_buff ++ st.pending) ≡ t) × Fate st r.content

  back_to_valid-le : (s : Bytes) (i : ℕ) → back_to_valid m.valid_utf8 s i ≤ i
  unfolding back_to_valid
  back_to_valid-le s zero = omega arith
  back_to_valid-le s (suc i) = ground (arith, back_to_valid-le s i)

  split-le : (s : Bytes) (i : ℕ) → i < length s → safe_utf8_split_index m.valid_utf8 s i ≤ i
  unfolding safe_utf8_split_index
  split-le s i below = ground (arith, back_to_valid-le s i)

  -- The place at which a text is cut has valid UTF-8 before it.
  back_to_valid-valid :
      (s : Bytes) (i : ℕ)
      → m.valid_utf8 [] ≡ true
      → m.valid_utf8 (take (back_to_valid m.valid_utf8 s i) s) ≡ true
  unfolding back_to_valid
  back_to_valid-valid s zero empty = empty
  back_to_valid-valid s (suc i) empty =
      if-cases (λ at. m.valid_utf8 (take at s) ≡ true) (m.valid_utf8 (take (suc i) s)) _ _ (λ e. e)
        (λ _. back_to_valid-valid s i empty)

  split-valid :
      (s : Bytes) (i : ℕ)
      → IsUtf8 m.valid_utf8
      → i < length s
      → m.valid_utf8 s ≡ true
      → m.valid_utf8 (drop (safe_utf8_split_index m.valid_utf8 s i) s) ≡ true
  unfolding safe_utf8_split_index
  split-valid s i laws below valid =
      if-cases (λ at. m.valid_utf8 (drop at s) ≡ true) (leb (length s) i) _ _
        (λ beyond. absurd (ground arith))
        (λ _.
          let at = back_to_valid m.valid_utf8 s i in
          laws.2 (take at s) (drop at s) (back_to_valid-valid s i laws.0)
            (ap m.valid_utf8 (take-drop at s) ∙ valid))

  -- A text that ends with the beginning of a marker is cut before it, or further on.
  cut-Fate :
      (t : Bytes) (at : ℕ)
      → at ≤ length t
      → IsClear (low t)
      → longest_from start_markers (low t) 0 ≤ length t - at
      → m.valid_utf8 (drop at t) ≡ true
      → Fate (record { pending = drop at t; capturing = false; capture_buff = [] }) (take at t)
  cut-Fate t at below clear enough valid = inl (
    refl,
    refl,
    λ rest.
        safe-NoStart (low t) (low (drop at t)) clear
          (omega (arith, enough, length-low (drop at t), length-drop at t)) (low (take at t)) rest
          (ap low (sym (take-drop at t)) ∙ low-append (take at t) (drop at t)),
    subst IsClear (drop-low at t) (drop-IsClear at (low t) clear),
    valid,
  )

  all-Fate :
      (t : Bytes)
      → IsClear (low t)
      → longest_from start_markers (low t) 0 ≤ 0
      → m.valid_utf8 [] ≡ true
      → Fate new_stream_state t
  all-Fate t clear enough valid = inl (
    refl,
    refl,
    λ rest. safe-NoStart (low t) [] clear enough (low t) rest (sym (append_nil (low t))),
    refl,
    valid,
  )

  hold_from-IsPassed :
      (t : Bytes) (at : ℕ)
      → at ≤ length t
      → IsClear (low t)
      → longest_from start_markers (low t) 0 ≤ length t - at
      → m.valid_utf8 (drop at t) ≡ true
      → IsPassed t (hold_from m [] (slice_to at t) (slice_from at t))
  hold_from-IsPassed t at below clear enough valid =
      rw (le→leb at (length t) below) (take-drop at t, cut-Fate t at below clear enough valid)

  longest-lower :
      (t : Bytes)
      → m.lower t ≡ low t
      → longest_marker_prefix_suffix m t ≡ longest_from start_markers (low t) 0
  unfolding longest_marker_prefix_suffix
  longest-lower [] bytewise = sym longest_nil
  longest-lower (c ∷ t) bytewise =
      let some_length : eqb (suc (length t)) 0 ≡ false = ground arith in
      rw some_length (ap (λ s. longest_from start_markers s 0) bytewise)

  pass_chunk-IsPassed :
      (t : Bytes) (o : Option ℕ)
      → IsUtf8 m.valid_utf8
      → m.valid_utf8 t ≡ true
      → m.lower t ≡ low t
      → first_start start_markers (low t) ≡ o
      → IsPassed t (pass_chunk m [] t o)
  pass_chunk-IsPassed t (some j) laws valid bytewise found =
      let (below, clear, here) = first_start-IsFirst (low t) j found in
      let fits : leb j (length t) ≡ true = le→leb j (length t) (omega (arith, length-low t)) in
      rw fits (
        ap (λ s. take j t ++ s) (append_nil (drop j t)) ∙ take-drop j t,
        inr (
          refl,
          refl,
          subst (λ s. NoStart s (low (drop j t))) (take-low j t)
              (subst (NoStart (take j (low t))) (drop-low j t) clear),
          ap (starts start_markers) (sym (drop-low j t)) ∙ here,
        ),
      )
  pass_chunk-IsPassed t none laws valid bytewise found =
      let l = longest_marker_prefix_suffix m t in
      let at = safe_utf8_split_index m.valid_utf8 t (length t - l) in
      let same = longest-lower t bytewise in
      if-cases (IsPassed t) (eqb l 0) _ _
        (λ e. (append_nil t, all-Fate t found (ground (arith, same)) laws.0))
        (λ e.
          if-cases (IsPassed t) (ltb l (length t)) _ _
            (λ shorter.
              let small = split-le t (length t - l) (ground arith) in
              hold_from-IsPassed t at (ground (arith, small)) found (ground (arith, small, same))
                (split-valid t (length t - l) laws (ground arith) valid))
            (λ longer. (
              refl,
              cut-Fate t 0 (omega arith) found
                  (omega
                    (arith, length-low t, longest_from-le start_markers (low t) 0 (omega arith)))
                  valid,
            )))

  -- A chunk that comes outside of a tool call.
  pub process_stream_chunk-IsPassed :
      (st : StreamState) (chunk : Bytes)
      → st.capturing ≡ false
      → st.capture_buff ≡ []
      → IsUtf8 m.valid_utf8
      → m.valid_utf8 (st.pending ++ chunk) ≡ true
      → m.lower (st.pending ++ chunk) ≡ low (st.pending ++ chunk)
      → IsPassed (st.pending ++ chunk) (process_stream_chunk m st chunk)
  unfolding process_stream_chunk first_marker_index
  process_stream_chunk-IsPassed st chunk free empty laws valid bytewise =
      let t = st.pending ++ chunk in
      rw free (
        subst (λ buff. IsPassed t (pass_chunk m buff t (first_marker_index m t))) (sym empty)
          (pass_chunk-IsPassed t (first_marker_index m t) laws valid bytewise (
            sym (
              ap (λ s. first_from start_markers s none) bytewise
              ∙ first_from-first_start (low t)))))
