-- ===== src/Metrics/Consistency.antt =====
-- The counters over any sequence of calls: internal/metrics/stats.go.
use qwen2api_go.Prelude.{
  ℕ, ◌+◌, ◌≤◌, ◌≡◌, refl, true, false, List, [], ◌∷◌, nat_eq, arith, if-cases,
}
use qwen2api_go.Text.{Text, codes, text_beq_iff, text_eq, text_beq, trim_space}
use qwen2api_go.Dict.{Dict, Values, keep-Values, put-Values, get_or-Values}
use qwen2api_go.Metrics.{
  MinuteBucket, DashboardStats, new_bucket, change_bucket, prune, is_admin, count_kind,
  count_request, record_request, add_tokens, record_usage, record_model_usage, snapshot,
}

-- A call, with the time at which it is made.
pub data Call : Type 0 where
  requests : ℕ → Text → ℕ → Call
  usages : ℕ → ℕ → ℕ → ℕ → Call
  model_usages : ℕ → Text → ℕ → ℕ → ℕ → Call
  snapshots : ℕ → Call

unfoldable pub step : DashboardStats → Call → DashboardStats
step d (requests now kind status_code) = record_request now kind status_code d
step d (usages now prompt completion total) = record_usage now prompt completion total d
step d (model_usages now model prompt completion total) =
    record_model_usage now model prompt completion total d
step d (snapshots now) = (snapshot now d).0

unfoldable pub run : DashboardStats → List Call → DashboardStats
unfolding step
run d [] = d
run d (c ∷ calls) = run (step d c) calls

-- The kinds share out the requests, and no more requests fail than are made.
abbrev pub IsSplit : MinuteBucket → Type 0
IsSplit b =
    (b.chat + b.models + b.image + b.video + b.upload ≡ b.requests) × (b.errors ≤ b.requests)

pub models_not_admin : (kind : Text) → text_beq kind (codes "models") ≡ true → is_admin kind ≡ false
unfolding text_beq
models_not_admin kind h = rw ((text_beq_iff kind (codes "models")).0 h) refl

count_request-IsSplit :
    (kind : Text) (status_code : ℕ) (b : MinuteBucket)
    → IsSplit b
    → IsSplit (count_request kind status_code b)
unfolding count_request count_kind
count_request-IsSplit kind status_code b h = ground (arith, models_not_admin kind)

pub record IsConsistent (d : DashboardStats) : Type 0 where
  pub in_total : IsSplit d.totals
  pub by_minute : Values IsSplit d.minutes

change_bucket-IsSplit :
    (key : ℕ) (f : MinuteBucket → MinuteBucket) (minutes : Dict ℕ MinuteBucket)
    → ((b : MinuteBucket) → IsSplit b → IsSplit (f b))
    → Values IsSplit minutes
    → Values IsSplit (change_bucket key f minutes)
unfolding change_bucket
change_bucket-IsSplit key f minutes keeps h =
    put-Values IsSplit key _ minutes
      (keeps _ (get_or-Values IsSplit (new_bucket key) key minutes (refl, omega arith) h)) h

record_request-IsConsistent :
    (now : ℕ) (kind : Text) (status_code : ℕ) (d : DashboardStats)
    → IsConsistent d
    → IsConsistent (record_request now kind status_code d)
unfolding record_request prune
record_request-IsConsistent now kind status_code d v = record {
  in_total = count_request-IsSplit kind status_code d.totals v.in_total;
  by_minute = keep-Values IsSplit _ _ (
      change_bucket-IsSplit _ (count_request kind status_code) d.minutes
        (count_request-IsSplit kind status_code) v.by_minute);
}

add_tokens-IsSplit :
    (prompt completion total : ℕ) (b : MinuteBucket)
    → IsSplit b
    → IsSplit (add_tokens prompt completion total b)
unfolding add_tokens
add_tokens-IsSplit prompt completion total b h = h

record_usage-IsConsistent :
    (now prompt completion total : ℕ) (d : DashboardStats)
    → IsConsistent d
    → IsConsistent (record_usage now prompt completion total d)
unfolding record_usage prune
record_usage-IsConsistent now prompt completion total d v = record {
  in_total = add_tokens-IsSplit prompt completion total d.totals v.in_total;
  by_minute = keep-Values IsSplit _ _ (
      change_bucket-IsSplit _ (add_tokens prompt completion total) d.minutes
        (add_tokens-IsSplit prompt completion total) v.by_minute);
}

step-IsConsistent : (d : DashboardStats) (c : Call) → IsConsistent d → IsConsistent (step d c)
unfolding step record_model_usage snapshot prune
step-IsConsistent d (requests now kind status_code) v =
    record_request-IsConsistent now kind status_code d v
step-IsConsistent d (usages now prompt completion total) v =
    record_usage-IsConsistent now prompt completion total d v
step-IsConsistent d (model_usages now model prompt completion total) v =
    let w = record_usage-IsConsistent now prompt completion total d v in
    if-cases IsConsistent (text_beq (trim_space model) []) _ _ (λ _. w)
      (λ _. record { in_total = w.in_total; by_minute = w.by_minute })
step-IsConsistent d (snapshots now) v = record {
  in_total = v.in_total;
  by_minute = keep-Values IsSplit _ d.minutes v.by_minute;
}

-- After any calls, in the totals and in each minute, the requests of the five kinds other than admin
-- add up to the requests, and the errors are no more than the requests, if that was so before.
pub run-IsConsistent :
    (calls : List Call) (d : DashboardStats) → IsConsistent d → IsConsistent (run d calls)
unfolding run
run-IsConsistent [] d v = v
run-IsConsistent (c ∷ calls) d v = run-IsConsistent calls (step d c) (step-IsConsistent d c v)
