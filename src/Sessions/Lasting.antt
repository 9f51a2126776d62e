-- ===== src/Sessions/Lasting.antt =====
-- How long a session lasts: internal/openai/conversation_sessions.go, over a store that keeps its promise.
use qwen2api_go.Prelude.{
  ℕ, ◌+◌, ◌*◌, ◌/◌, ◌≤◌, ◌≡◌, refl, sym, ap, subst, ◌∙◌, inl, inr, Bool, false, ltb, ◌&&◌, suc,
  Option, none, some, Bool-cases, arith,
}
use qwen2api_go.Prelude.Int.{ℤ, pos, ltb_ℤ, pos_part}
use qwen2api_go.Text.{Text, text_eq, trim_space, is_blank}
use qwen2api_go.Clock.{unix_epoch}
use qwen2api_go.Storage.{ConversationSession, ConversationStore, ok}
use qwen2api_go.Sessions.Messages.{Exchange}
use qwen2api_go.Sessions.Aliases.{cache_context_hash}
use qwen2api_go.Sessions.Service.{
  Codec, session_ttl, cutoff, is_expired, is_stale, session_to_save, get,
}
use qwen2api_go.Sessions.Spec.{Sessions, IsKeyed, IsListing, swept, fresh, spec_get}
use qwen2api_go.Sessions.Refinement.{keep_unless-some, get-Implements}
use qwen2api_go.Sessions.Saving.{IsHex}

fresh_session :
    (later : ℕ) (hash : Text) (f : Sessions) (x : ConversationSession)
    → is_stale later x ≡ false
    → (fresh later hash f (some x)).1 ≡ some x
fresh_session later hash f x e = rw e refl

swept_session :
    (sweep : ℕ) (f : Sessions) (hash : Text) (x : ConversationSession)
    → f hash ≡ some x
    → is_expired sweep x ≡ false
    → swept sweep f hash ≡ some x
swept_session sweep f hash x shown e = rw (shown) (rw e refl)

pub spec_get-some :
    (sweep later : ℕ) (hash : Text) (f : Sessions) (x : ConversationSession)
    → is_blank hash ≡ false
    → f (trim_space hash) ≡ some x
    → is_expired sweep x ≡ false
    → is_stale later x ≡ false
    → (spec_get sweep later hash f).1 ≡ some x
spec_get-some sweep later hash f x named shown lasts young = rw named (
    ap (λ o. (fresh later (trim_space hash) (swept sweep f) o).1)
      (swept_session sweep f (trim_space hash) x shown lasts)
    ∙ fresh_session later (trim_space hash) (swept sweep f) x young)

module _ {S : Type 0} (store : ConversationStore S) (Ready : Sessions → S → Type 0)
    (promise : IsListing store Ready) (codec : Codec) (is_hex : IsHex codec.sha256_hex)
    (now built : ℕ) (context_hash account_email chat_id model chat_type : Text)
    (exchange : Option Exchange) where
  abbrev at_hash : Text
  at_hash = cache_context_hash codec.sha256_hex context_hash chat_id

  abbrev saved_session : Sessions → ConversationSession
  saved_session f =
      session_to_save codec now built at_hash account_email chat_id model chat_type exchange
        (ok (f at_hash))

fresh-young :
    (later : ℕ) (hash : Text) (f : Sessions) (o : Option ConversationSession)
    (x : ConversationSession)
    → (fresh later hash f o).1 ≡ some x
    → (o ≡ some x) × (is_stale later x ≡ false)
fresh-young later hash f none x h = cc
fresh-young later hash f (some y) x h = elim (Bool-cases (is_stale later y)) [
  | inl e ↦ cc (rw e at h)
  | inr e ↦ (rw e at h, ap (is_stale later) (sym (some_eq (rw e at h))) ∙ e)
]
  where
    some_eq : {x y : ConversationSession} → some x ≡ some y → x ≡ y
    some_eq h = cc

spec_get-young :
    (sweep later : ℕ) (hash : Text) (f : Sessions) (x : ConversationSession)
    → (spec_get sweep later hash f).1 ≡ some x
    → (f (trim_space hash) ≡ some x) × (is_expired sweep x ≡ false) × (is_stale later x ≡ false)
spec_get-young sweep later hash f x h = elim (Bool-cases (is_blank hash)) [
  | inl e ↦ cc (rw e at h)
  | inr e ↦
      let (there, young) = fresh-young later (trim_space hash) (swept sweep f) _ x (rw e at h) in
      let (shown, lasts) = keep_unless-some (is_expired sweep) (f (trim_space hash)) there in
      (shown, lasts, young)
]

abbrev is_expired_at : ℕ → ℤ → Bool
is_expired_at sweep u = ltb_ℤ (pos 0) u && ltb_ℤ u (cutoff sweep)

abbrev is_stale_at : ℕ → ℤ → Bool
is_stale_at later u =
    ltb_ℤ (pos 0) u && ltb ((pos_part u + unix_epoch * 1000) * 1000000 + session_ttl) later

-- The two ages, in milliseconds at the cleanup and in nanoseconds at the look.
young_ages :
    (sweep later n : ℕ) (x : ConversationSession)
    → x.updated_at ≡ pos (suc n)
    → is_expired sweep x ≡ false
    → is_stale later x ≡ false
    → (sweep / 1000000 ≤ suc n + 62135596800000 + 86400000)
      × (later ≤ (suc n + 62135596800000) * 1000000 + 86400000000000)
unfolding is_expired is_stale
young_ages sweep later n x stamped lasts young =
    let lasts' : is_expired_at sweep (pos (suc n)) ≡ false =
      subst (λ u. is_expired_at sweep u ≡ false) stamped lasts in
    let young' : is_stale_at later (pos (suc n)) ≡ false =
      subst (λ u. is_stale_at later u ≡ false) stamped young in
    (ground (arith, lasts'), ground (arith, young'))

-- What Get answers with is the session of before under its hash. If its time of update is after 1970,
-- then it is not older than 24 hours: at the time of the look to the nanosecond, and at the time of the
-- cleanup as counted in milliseconds.
pub get_young :
    {S : Type 0} (store : ConversationStore S) (Ready : Sessions → S → Type 0)
    → IsListing store Ready
    → (f : Sessions) (s : S) (sweep later n : ℕ) (hash : Text) (x : ConversationSession) → IsKeyed f
    → Ready f s
    → (get store sweep later hash s).1 ≡ some x
    → x.updated_at ≡ pos (suc n)
    → (f (trim_space hash) ≡ some x)
      × (sweep / 1000000 ≤ suc n + 62135596800000 + 86400000)
      × (later ≤ (suc n + 62135596800000) * 1000000 + 86400000000000)
get_young store Ready promise f s sweep later n hash x keyed ready found stamped =
    let (shown, lasts, young) =
      spec_get-young sweep later hash f x
        (sym (get-Implements store Ready promise sweep later hash f s keyed ready).0 ∙ found) in
    let ages = young_ages sweep later n x stamped lasts young in (shown, ages.0, ages.1)
