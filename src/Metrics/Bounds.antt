-- ===== src/Metrics/Bounds.antt =====
-- What prune leaves: internal/metrics/stats.go.
use qwen2api_go.Prelude.{
  ℕ, zero, suc, ◌-◌, ◌*◌, ◌≤◌, ◌<◌, ◌≡◌, Bool, true, not, List, [], ◌∷◌, ◌++◌, ltb, length, keep,
  drop, length-drop, All, arith, if◌then◌else◌, if-cases, Bool-cases, inl, inr, ltb→lt,
}
use qwen2api_go.Text.{text_beq, trim_space}
use qwen2api_go.Clock.{hour}
use qwen2api_go.Metrics.{
  MinuteBucket, DashboardStats, is_admin, max_request_samples, max_minute_buckets, minute_window,
  newest_samples, minute_key_of, prune, record_request, record_usage, record_model_usage, snapshot,
}
use qwen2api_go.Metrics.Consistency.{Call, requests, usages, model_usages, snapshots, step}

-- At most 6000 requests are remembered, all of them of the last hour, and only the minutes of the
-- last three hours.
pub record IsBounded (now : ℕ) (d : DashboardStats) : Type 0 where
  pub few : length d.request_events ≤ max_request_samples
  pub recent : All (λ t. now - hour < t) d.request_events
  pub young :
      All
        (λ (bucket : ℕ × MinuteBucket).
          minute_key_of (now - max_minute_buckets * minute_window) ≤ bucket.0)
        d.minutes

newest_samples-few : (events : List ℕ) → length (newest_samples events) ≤ max_request_samples
newest_samples-few events = ground (arith, length-drop (length events - max_request_samples) events)

All-keep :
    {A : Type 0} (P : A → Type 0) (p : A → Bool) (xs : List A)
    → ((x : A) → p x ≡ true → P x)
    → All P (keep p xs)
All-keep P p [] h = tt
All-keep P p (x ∷ xs) h = elim (Bool-cases (p x)) [
  | inl e ↦ rw e (h x e, All-keep P p xs h)
  | inr e ↦ rw e (All-keep P p xs h)
]

All-drop : {A : Type 0} (P : A → Type 0) (n : ℕ) (xs : List A) → All P xs → All P (drop n xs)
All-drop P zero xs h = h
All-drop P (suc n) [] h = tt
All-drop P (suc n) (x ∷ xs) h = All-drop P n xs h.1

newest_samples-All :
    (P : ℕ → Type 0) (events : List ℕ) → All P events → All P (newest_samples events)
newest_samples-All P events h =
    if-cases (All P) (ltb max_request_samples (length events)) _ _ (λ _. All-drop P _ events h)
      (λ _. h)

not-ltb : (a b : ℕ) → not (ltb a b) ≡ true → b ≤ a
not-ltb a b h = ground arith

prune-IsBounded : (now : ℕ) (d : DashboardStats) → IsBounded now (prune now d)
unfolding prune
prune-IsBounded now d = record {
  few = newest_samples-few (keep (ltb (now - hour)) d.request_events);
  recent =
      newest_samples-All (λ t. now - hour < t) _
        (All-keep (λ t. now - hour < t) (ltb (now - hour)) d.request_events (ltb→lt (now - hour)));
  young = All-keep _ _ d.minutes (λ bucket. not-ltb bucket.0 _);
}

abbrev pub time_of : Call → ℕ
time_of (requests now kind status_code) = now
time_of (usages now prompt completion total) = now
time_of (model_usages now model prompt completion total) = now
time_of (snapshots now) = now

record_usage-IsBounded :
    (now prompt completion total : ℕ) (d : DashboardStats)
    → IsBounded now (record_usage now prompt completion total d)
unfolding record_usage
record_usage-IsBounded now prompt completion total d =
    prune-IsBounded now (record d { totals = _; minutes = _ })

-- After each call the samples of requests are at most 6000, all younger than an hour at the time of the
-- call, and no minute is kept that lies more than 180 minutes before it.
step-IsBounded : (d : DashboardStats) (c : Call) → IsBounded (time_of c) (step d c)
unfolding step record_request record_model_usage snapshot
step-IsBounded d (requests now kind status_code) = prune-IsBounded now (record d {
  totals = _;
  minutes = _;
  request_events = if is_admin kind then d.request_events else d.request_events ++ now ∷ [];
})
step-IsBounded d (usages now prompt completion total) =
    record_usage-IsBounded now prompt completion total d
step-IsBounded d (model_usages now model prompt completion total) =
    let v = record_usage-IsBounded now prompt completion total d in
    if-cases (IsBounded now) (text_beq (trim_space model) []) _ _ (λ _. v)
      (λ _. record { few = v.few; recent = v.recent; young = v.young })
step-IsBounded d (snapshots now) = prune-IsBounded now d
