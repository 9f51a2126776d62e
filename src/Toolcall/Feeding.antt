-- ===== src/Toolcall/Feeding.antt =====
-- However the model's output is cut into chunks, the sieve finds its first tool call: internal/toolcall/
-- toolcall.go, ProcessStreamChunk.
use qwen2api_go.Prelude.{
  ◌≡◌, refl, sym, ap, subst, ◌∙◌, ◌⊎◌, inl, inr, true, false, Option, none, some, List, [], ◌∷◌,
  ◌++◌, length, All, if◌then◌else◌,
}
use qwen2api_go.Toolcall.Markers.{Bytes, start_markers}
use qwen2api_go.Toolcall.Sieve.{StreamState, new_stream_state, Markup, Next, process_stream_chunk}
use qwen2api_go.Toolcall.Starts.{first_start}
use qwen2api_go.Toolcall.Held.{NoStart, NoStart-append, append_assoc, first_start_at}
use qwen2api_go.Toolcall.Passing.{
  low, low-append, length-low, append_nil, IsClear, append-IsClear, IsUtf8, IsPassed,
  process_stream_chunk-IsPassed,
}

abbrev pub concat : List Bytes → Bytes
concat [] = []
concat (chunk ∷ chunks) = chunk ++ concat chunks

-- The text let through, the state, and the chunks that are left when a capture begins.
abbrev pub Fed : Type 0
Fed = Option (Bytes × StreamState × List Bytes)

abbrev after : Bytes → Fed → Fed
after content none = none
after content (some (out, st, rest)) = some (content ++ out, st, rest)

low_split : (a b rest : Bytes) → low a ++ (low b ++ rest) ≡ low (a ++ b) ++ rest
low_split a b rest =
    sym (append_assoc (low a) (low b) rest) ∙ ap (λ s. s ++ rest) (sym (low-append a b))

regroup :
    (content x pending chunk rest : Bytes)
    → content ++ x ≡ pending ++ chunk
    → low pending ++ (low chunk ++ rest) ≡ low content ++ (low x ++ rest)
regroup content x pending chunk rest split =
    low_split pending chunk rest
    ∙ ap (λ s. low s ++ rest) (sym split)
    ∙ sym (low_split content x rest)

whole_split :
    (before content x pending chunk rest : Bytes)
    → content ++ x ≡ pending ++ chunk
    → (before ++ content) ++ (x ++ rest) ≡ before ++ (pending ++ (chunk ++ rest))
whole_split before content x pending chunk rest split =
    append_assoc before content (x ++ rest)
    ∙ ap (λ s. before ++ s)
        (sym (append_assoc content x rest)
          ∙ ap (λ s. s ++ rest) split
          ∙ append_assoc pending chunk rest)

-- What is let through stays clear when more is let through.
extended :
    (before content x pending chunk rest : Bytes)
    → content ++ x ≡ pending ++ chunk
    → ((more : Bytes) → NoStart (low before) (low pending ++ more))
    → NoStart (low content) (low x ++ rest)
    → NoStart (low (before ++ content)) (low x ++ rest)
extended before content x pending chunk rest split clear safe =
    subst (λ s. NoStart s (low x ++ rest)) (sym (low-append before content))
      (NoStart-append (low before) (low content) (low x ++ rest)
        (subst (NoStart (low before)) (regroup content x pending chunk rest split)
          (clear (low chunk ++ rest)))
        safe)

module _ {C : Type 0} (m : Markup C) where
  abbrev continue : List Bytes → (StreamState → Fed) → Next m → Fed
  continue chunks go none = none
  continue chunks go (some (st, r)) =
      if st.capturing then some (r.content, st, chunks) else after r.content (go st)

  -- The chunks one after the other, up to the one with which a capture begins.
  unfoldable pub feed : List Bytes → StreamState → Fed
  unfolding process_stream_chunk
  feed [] st = some ([], st, [])
  feed (chunk ∷ chunks) st = continue chunks (feed chunks) (process_stream_chunk m st chunk)

  -- What `out` says of all text so far: it is clear of markers, or the capture begins at the first.
  abbrev pub IsSieved : Bytes → StreamState → List Bytes → Type 0
  IsSieved out st rest =
      ((st.capturing ≡ false)
        × (rest ≡ [])
        × IsClear (low (out ++ (st.capture_buff ++ st.pending))))
      ⊎ ((st.capturing ≡ true)
          × (first_start start_markers (low (out ++ (st.capture_buff ++ st.pending)))
              ≡ some (length out)))

  -- `before` has been let through, and `whole` is all text.
  abbrev pub IsFed : Bytes → Bytes → Fed → Type 0
  IsFed before whole none = ⊥
  IsFed before whole (some (out, st, rest)) =
      ((before ++ out) ++ ((st.capture_buff ++ st.pending) ++ concat rest) ≡ whole)
      × IsSieved (before ++ out) st rest

  after-IsFed :
      (before content whole : Bytes) (o : Fed)
      → IsFed (before ++ content) whole o
      → IsFed before whole (after content o)
  after-IsFed before content whole none h = h
  after-IsFed before content whole (some (out, st, rest)) h =
      subst
        (λ s. (s ++ ((st.capture_buff ++ st.pending) ++ concat rest) ≡ whole) × IsSieved s st rest)
        (append_assoc before content out) h

  -- What holds of the text let through and the text held back.
  abbrev IsHeld : Bytes → StreamState → Type 0
  IsHeld before st =
      (st.capturing ≡ false)
      × (st.capture_buff ≡ [])
      × ((rest : Bytes) → NoStart (low before) (low st.pending ++ rest))
      × IsClear (low st.pending)
      × (m.valid_utf8 st.pending ≡ true)

  -- The letters of all parts of a text that are valid UTF-8 change case byte by byte.
  abbrev pub IsBytewise : Bytes → Type 0
  IsBytewise whole =
      (a s b : Bytes) → a ++ (s ++ b) ≡ whole → m.valid_utf8 s ≡ true → m.lower s ≡ low s

  abbrev pub AreValid : List Bytes → Type 0
  AreValid chunks = All (λ chunk. m.valid_utf8 chunk ≡ true) chunks

  continue-IsFed :
      (before pending chunk : Bytes) (chunks : List Bytes) (go : StreamState → Fed) (o : Next m)
      → ((rest : Bytes) → NoStart (low before) (low pending ++ rest))
      → IsPassed m (pending ++ chunk) o
      → ((content : Bytes) (st : StreamState)
          → content ++ (st.capture_buff ++ st.pending) ≡ pending ++ chunk
          → IsHeld (before ++ content) st
          → IsFed (before ++ content) (before ++ (pending ++ (chunk ++ concat chunks))) (go st))
      → IsFed before (before ++ (pending ++ (chunk ++ concat chunks))) (continue chunks go o)
  continue-IsFed before pending chunk chunks go none clear passed later = passed
  continue-IsFed before pending chunk chunks go (some (st, r)) clear
        (split, inl (free, empty, safe, rest_clear, fit)) later =
      let whole = before ++ (pending ++ (chunk ++ concat chunks)) in
      let split' = ap (λ s. r.content ++ (s ++ st.pending)) (sym empty) ∙ split in
      subst
        (λ b.
          IsFed before whole (if b then some (r.content, st, chunks) else after r.content (go st)))
        (sym free)
        (after-IsFed before r.content whole (go st) (
          later r.content st split (
            free,
            empty,
            λ rest.
                extended before r.content st.pending pending chunk rest split' clear (safe rest),
            rest_clear,
            fit,
          )))
  continue-IsFed before pending chunk chunks go (some (st, r)) clear
        (split, inr (on, gone, safe, here)) later =
      let whole = before ++ (pending ++ (chunk ++ concat chunks)) in
      let buff = st.capture_buff in
      let all : buff ++ st.pending ≡ buff = ap (λ s. buff ++ s) gone ∙ append_nil buff in
      let split' = ap (λ s. r.content ++ s) (sym all) ∙ split in
      let out = before ++ r.content in
      let clear' : NoStart (low out) (low buff) =
        subst (NoStart (low out)) (append_nil (low buff)) (
          extended before r.content buff pending chunk [] split' clear
            (subst (NoStart (low r.content)) (sym (append_nil (low buff))) safe)) in
      let first : first_start start_markers (low (out ++ (buff ++ st.pending)))
          ≡ some (length out) =
        ap (first_start start_markers) (ap (λ s. low (out ++ s)) all ∙ low-append out buff)
        ∙ first_start_at (low out) (low buff) clear' here
        ∙ ap some (length-low out) in
      subst
        (λ b.
          IsFed before whole (if b then some (r.content, st, chunks) else after r.content (go st)))
        (sym on)
        (
          whole_split before r.content (buff ++ st.pending) pending chunk (concat chunks) split,
          inr (on, first),
        )

  feed-IsFed :
      (chunks : List Bytes) (before : Bytes) (st : StreamState)
      → IsUtf8 m.valid_utf8
      → AreValid chunks
      → IsHeld before st
      → IsBytewise (before ++ (st.pending ++ concat chunks))
      → IsFed before (before ++ (st.pending ++ concat chunks)) (feed chunks st)
  unfolding feed
  feed-IsFed [] before st laws valid (free, empty, clear, rest_clear, fit) bytewise =
      let none_after : before ++ [] ≡ before = append_nil before in
      let no_buff : st.capture_buff ++ st.pending ≡ st.pending = ap (λ b. b ++ st.pending) empty in
      let all_clear =
        append-IsClear (low before) (low st.pending)
          (subst (NoStart (low before)) (append_nil (low st.pending)) (clear [])) rest_clear in
      (
        ap (λ s. s ++ ((st.capture_buff ++ st.pending) ++ [])) none_after
            ∙ ap (λ s. before ++ (s ++ [])) no_buff,
        inl (
          free,
          refl,
          ap (first_start start_markers) (
                ap (λ s. low (s ++ (st.capture_buff ++ st.pending))) none_after
                ∙ ap (λ s. low (before ++ s)) no_buff
                ∙ low-append before st.pending)
              ∙ all_clear,
        ),
      )
  feed-IsFed (chunk ∷ chunks) before st laws (valid, all_valid)
        (free, empty, clear, rest_clear, fit) bytewise =
      let whole_valid = laws.1 st.pending chunk fit valid in
      continue-IsFed before st.pending chunk chunks (feed chunks) (process_stream_chunk m st chunk)
        clear
        (process_stream_chunk-IsPassed m st chunk free empty laws whole_valid (
          bytewise before (st.pending ++ chunk) (concat chunks)
            (ap (λ s. before ++ s) (append_assoc st.pending chunk (concat chunks))) whole_valid))
        (λ content st' split held.
          let split' = ap (λ s. content ++ (s ++ st'.pending)) (sym held.1) ∙ split in
          let same =
            whole_split before content st'.pending st.pending chunk (concat chunks) split' in
          subst (λ whole. IsFed (before ++ content) whole (feed chunks st')) same
            (feed-IsFed chunks (before ++ content) st' laws all_valid held
              (λ a s b e. bytewise a s b (e ∙ same))))

  -- However a text is cut into chunks of valid UTF-8, a new stream does not panic on it, and loses
  -- nothing of it: the text let through, the text held back and the chunks that are left make up the
  -- whole. If no capture begins then no marker stands in the whole text; if one begins, then the text let
  -- through ends exactly where the first marker starts. The conditions are that the test for valid UTF-8
  -- agrees with putting texts together, and that strings.ToLower changes letters byte by byte in all parts
  -- of the text that are valid UTF-8, as for a text whose only letters with a case are those of ASCII.
  pub feed_finds :
      (chunks : List Bytes)
      → IsUtf8 m.valid_utf8
      → AreValid chunks
      → IsBytewise (concat chunks)
      → IsFed [] (concat chunks) (feed chunks new_stream_state)
  feed_finds chunks laws valid bytewise =
      feed-IsFed chunks [] new_stream_state laws valid (refl, refl, (λ rest. tt), refl, laws.0)
        bytewise
