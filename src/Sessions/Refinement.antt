-- ===== src/Sessions/Refinement.antt =====
-- ConversationSessionService over a store that keeps its promise does what the map of sessions does:
-- internal/openai/conversation_sessions.go.
use qwen2api_go.Prelude.{
  ℕ, ◌≡◌, refl, sym, ap, subst, ◌∙◌, ◌↔◌, inl, inr, Bool, true, false, ◌&&◌, Option, none, some,
  List, [], ◌∷◌, any, In, All, any_of-In, any-index, get_elem?-In, All_of, Bool-cases, Option-cases,
  if-cases, if◌then◌else◌, arith,
}
use qwen2api_go.Text.{Text, text_eq, text_beq, text_beq→eq, text_beq_iff, trim_space, is_blank}
use qwen2api_go.Storage.{ConversationSession, ConversationStore, Result, ok}
use qwen2api_go.Sessions.Service.{
  is_expired, is_stale, delete_expired, delete_listed, cleanup_expired, unless_stale, get,
}
use qwen2api_go.Sessions.Spec.{
  Sessions, IsKeyed, IsListing, keep_unless, without, swept, fresh, spec_get,
}

-- Two maps that agree at each hash are shown by the same stores.
abbrev same_sessions : {f g : Sessions} → ((hash : Text) → f hash ≡ g hash) → f ≡ g
same_sessions agree = λ i. λ hash. agree hash i

pub keep_unless-some :
    (gone : ConversationSession → Bool) (o : Option ConversationSession) {x : ConversationSession}
    → keep_unless gone o ≡ some x
    → (o ≡ some x) × (gone x ≡ false)
keep_unless-some gone none h = cc
keep_unless-some gone (some y) h = elim (Bool-cases (gone y)) [
  | inl e ↦ cc (rw e at h)
  | inr e ↦ (rw e at h, ap gone (sym (some-eq (rw e at h))) ∙ e)
]
  where
    some-eq : {y x : ConversationSession} → some y ≡ some x → y ≡ x
    some-eq h = cc

pub swept-IsKeyed : (now : ℕ) (f : Sessions) → IsKeyed f → IsKeyed (swept now f)
swept-IsKeyed now f keyed hash session shown =
    keyed hash session (keep_unless-some (is_expired now) (f hash) shown).0

-- What is taken away at a hash by the deletion of some of the sessions of a list.
abbrev pub is_taken : (ConversationSession → Bool) → List ConversationSession → Text → Bool
is_taken gone sessions hash = any (λ x. gone x && text_beq x.context_hash hash) sessions

abbrev pub taken : (ConversationSession → Bool) → List ConversationSession → Sessions → Sessions
taken gone sessions f hash = if is_taken gone sessions hash then none else f hash

taken_hit :
    (gone : ConversationSession → Bool) (x : ConversationSession) (xs : List ConversationSession)
    (f : Sessions) (hash : Text)
    → gone x ≡ true
    → trim_space x.context_hash ≡ x.context_hash
    → taken gone xs (without (trim_space x.context_hash) f) hash ≡ taken gone (x ∷ xs) f hash
taken_hit gone x xs f hash e trimmed = rw (e, trimmed) (ground arith)

taken_miss :
    (gone : ConversationSession → Bool) (x : ConversationSession) (xs : List ConversationSession)
    (f : Sessions) (hash : Text)
    → gone x ≡ false
    → taken gone xs f hash ≡ taken gone (x ∷ xs) f hash
taken_miss gone x xs f hash e = rw e refl

module _ {S : Type 0} (store : ConversationStore S) (Ready : Sessions → S → Type 0)
    (promise : IsListing store Ready) where
  pub ready_same :
      (f g : Sessions) (s : S) → ((hash : Text) → f hash ≡ g hash) → Ready f s → Ready g s
  ready_same f g s agree ready = subst (λ h. Ready h s) (same_sessions agree) ready

  delete_expired-Ready :
      (now : ℕ) (sessions : List ConversationSession) (f : Sessions) (s : S)
      → Ready f s
      → All (λ (x : ConversationSession). trim_space x.context_hash ≡ x.context_hash) sessions
      → Ready (taken (is_expired now) sessions f) (delete_expired store now sessions s)
  unfolding delete_expired
  delete_expired-Ready now [] f s ready trimmed = ready
  delete_expired-Ready now (x ∷ xs) f s ready (trimmed, all_trimmed) =
      if-cases (λ s'. Ready (taken (is_expired now) (x ∷ xs) f) (delete_expired store now xs s'))
        (is_expired now x) _ _
        (λ e.
          ready_same (taken (is_expired now) xs (without (trim_space x.context_hash) f)) _ _
            (λ hash. taken_hit (is_expired now) x xs f hash e trimmed)
            (delete_expired-Ready now xs _ _ (promise.deleted f s x.context_hash ready)
              all_trimmed))
        (λ e.
          ready_same (taken (is_expired now) xs f) _ _
            (λ hash. taken_miss (is_expired now) x xs f hash e)
            (delete_expired-Ready now xs f s ready all_trimmed))

  module _ (gone : ConversationSession → Bool) (f : Sessions) (sessions : List ConversationSession)
      (keyed : IsKeyed f)
      (lists : (x : ConversationSession) → In x sessions ↔ (f x.context_hash ≡ some x))
      (hash : Text) where
    taken-shown :
        (x : ConversationSession)
        → f hash ≡ some x
        → gone x ≡ true
        → is_taken gone sessions hash ≡ true
    taken-shown x shown chosen =
        any_of-In (λ y. gone y && text_beq y.context_hash hash) x sessions
          ((lists x).1 (ap f (keyed hash x shown).0 ∙ shown))
          (rw chosen ((text_beq_iff x.context_hash hash).1 (keyed hash x shown).0))

    shown-taken :
        (x : ConversationSession)
        → f hash ≡ some x
        → is_taken gone sessions hash ≡ true
        → gone x ≡ true
    shown-taken x shown there =
        let (i, y, below, at, holds) =
          any-index (λ y. gone y && text_beq y.context_hash hash) sessions there in
        let here : y.context_hash ≡ hash = text_beq→eq y.context_hash hash (ground arith) in
        let same : some y ≡ some x =
          sym ((lists y).0 (get_elem?-In y sessions i at)) ∙ ap f here ∙ shown in
        let chosen : gone y ≡ true = ground arith in subst (λ z. gone z ≡ true) (cc (same)) chosen

    -- What is taken of the sessions listed is what is taken of those shown.
    pub taken-keep_unless : taken gone sessions f hash ≡ keep_unless gone (f hash)
    taken-keep_unless = elim (Option-cases (f hash)) [
      | inl e ↦ rw e (ground arith)
      | inr (x, e) ↦ ground (arith, e, taken-shown x e, shown-taken x e)
    ]

  -- The answers are the same, and the store that is left shows the sessions that are left.
  abbrev pub Implements : {A : Type 0} → S × A → Sessions × A → Type 0
  Implements r q = (r.1 ≡ q.1) × Ready q.0 r.0

  pub cleanup_expired-Ready :
      (now : ℕ) (f : Sessions) (s : S)
      → IsKeyed f
      → Ready f s
      → ((cleanup_expired store now s).1 ≡ none)
        × Ready (swept now f) (cleanup_expired store now s).0
  unfolding cleanup_expired
  cleanup_expired-Ready now f s keyed ready =
      let (sessions, e, lists) = promise.listed f s ready in
      subst
        (λ (r : S × Result (List ConversationSession)).
          ((delete_listed store now r).1 ≡ none)
          × Ready (swept now f) (delete_listed store now r).0)
        (sym e)
        (
          refl,
          ready_same _ _ _ (taken-keep_unless (is_expired now) f sessions keyed lists) (
              delete_expired-Ready now sessions f s ready
                (All_of _ sessions (λ x member. (keyed x.context_hash x ((lists x).0 member)).1))),
        )

  unless_stale-Implements :
      (now : ℕ) (hash : Text) (f : Sessions) (s : S) (o : Option ConversationSession)
      → Ready f s
      → Implements (unless_stale store now hash (s, ok o)) (fresh now (trim_space hash) f o)
  unless_stale-Implements now hash f s none ready = (refl, ready)
  unless_stale-Implements now hash f s (some x) ready = elim (Bool-cases (is_stale now x)) [
    | inl e ↦ rw e (refl, promise.deleted f s hash ready)
    | inr e ↦ rw e (refl, ready)
  ]

  pub get-Implements :
      (sweep now : ℕ) (hash : Text) (f : Sessions) (s : S)
      → IsKeyed f
      → Ready f s
      → Implements (get store sweep now hash s) (spec_get sweep now hash f)
  unfolding get
  get-Implements sweep now hash f s keyed ready =
      let after = (cleanup_expired-Ready sweep f s keyed ready).1 in
      elim (Bool-cases (is_blank hash)) [
        | inl e ↦ rw e (refl, ready)
        | inr e ↦ rw e (
            subst
              (λ r.
                Implements (unless_stale store now hash r)
                  (fresh now (trim_space hash) (swept sweep f) (swept sweep f (trim_space hash))))
              (sym (promise.shows _ _ after hash))
              (unless_stale-Implements now hash (swept sweep f) _ (swept sweep f (trim_space hash))
                after))
      ]
