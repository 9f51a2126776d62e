-- ===== src/Metrics/Counts.antt =====
-- What the counters count: internal/metrics/stats.go, RecordRequest, RecordUsage and
-- RecordModelUsage over any sequence of calls.
use qwen2api_go.Prelude.{
  ℕ, ◌+◌, ◌≡◌, refl, not, ◌&&◌, List, [], ◌∷◌, leb, arith, if◌then◌else◌, if-cases,
}
use qwen2api_go.Text.{Text, text_eq, text_beq, trim_space}
use qwen2api_go.Dict.{Dict, put, get_or, sum_by, sum_by-put}
use qwen2api_go.Metrics.{
  MinuteBucket, ModelUsage, DashboardStats, no_usage, prune, is_admin, count_kind, count_request,
  record_request, add_tokens, record_usage, add_usage, record_model_usage, snapshot,
}
use qwen2api_go.Metrics.Consistency.{
  Call, requests, usages, model_usages, snapshots, step, run, models_not_admin,
}

abbrev pub sum_calls : (Call → ℕ) → List Call → ℕ
sum_calls f [] = 0
sum_calls f (c ∷ calls) = f c + sum_calls f calls

-- What a call adds: a request that is none of the administrator's, one that is, a request that
-- fails, the tokens of a usage, and those that are booked on a model.
abbrev pub serves : Call → ℕ
serves (requests now kind status_code) = if is_admin kind then 0 else 1
serves _ = 0

abbrev pub administers : Call → ℕ
administers (requests now kind status_code) = if is_admin kind then 1 else 0
administers _ = 0

abbrev pub fails : Call → ℕ
fails (requests now kind status_code) = if not (is_admin kind) && leb 400 status_code then 1 else 0
fails _ = 0

abbrev pub spends : Call → ℕ
spends (usages now prompt completion total) = total
spends (model_usages now model prompt completion total) = total
spends _ = 0

abbrev pub books : Call → ℕ
books (model_usages now model prompt completion total) =
    if text_beq (trim_space model) [] then 0 else total
books _ = 0

abbrev pub booked : DashboardStats → ℕ
booked d = sum_by (λ (usage : ModelUsage). usage.total_tokens) d.model_usage

-- `e` has counted what `d` has and the calls have added.
pub record Counts (d : DashboardStats) (calls : List Call) (e : DashboardStats) : Type 0 where
  pub served : e.totals.requests ≡ d.totals.requests + sum_calls serves calls
  pub administered : e.totals.admin ≡ d.totals.admin + sum_calls administers calls
  pub failed : e.totals.errors ≡ d.totals.errors + sum_calls fails calls
  pub spent : e.totals.total_tokens ≡ d.totals.total_tokens + sum_calls spends calls
  pub on_models : booked e ≡ booked d + sum_calls books calls

count_request-counts :
    (kind : Text) (status_code : ℕ) (b : MinuteBucket)
    → let c = count_request kind status_code b in
      (c.requests ≡ b.requests + (if is_admin kind then 0 else 1))
      × (c.admin ≡ b.admin + (if is_admin kind then 1 else 0))
      × (c.errors ≡ b.errors + (if not (is_admin kind) && leb 400 status_code then 1 else 0))
      × (c.total_tokens ≡ b.total_tokens)
unfolding count_request count_kind
count_request-counts kind status_code b = ground (arith, models_not_admin kind)

booked-put :
    (name : Text) (prompt completion total : ℕ) (m : Dict Text ModelUsage)
    → sum_by
        (λ (usage : ModelUsage). usage.total_tokens)
        (put name (add_usage prompt completion total (get_or no_usage name m)) m)
      ≡ sum_by (λ (usage : ModelUsage). usage.total_tokens) m + total
unfolding add_usage
booked-put name prompt completion total m =
    let sum =
      sum_by-put (λ (usage : ModelUsage). usage.total_tokens) no_usage name
        (add_usage prompt completion total (get_or no_usage name m)) m refl in
    omega (arith, sum)

abbrev Adds : DashboardStats → Call → DashboardStats → Type 0
Adds d c = Counts d (c ∷ [])

step-Counts : (d : DashboardStats) (c : Call) → Adds d c (step d c)
unfolding step record_request record_usage record_model_usage snapshot prune add_tokens
step-Counts d (requests now kind status_code) =
    let (served, administered, failed, spent) = count_request-counts kind status_code d.totals in
    record {
      served = omega (arith, served);
      administered = omega (arith, administered);
      failed = omega (arith, failed);
      spent = omega (arith, spent);
      on_models = omega arith;
    }
step-Counts d (usages now prompt completion total) = record {
  served = omega arith;
  administered = omega arith;
  failed = omega arith;
  spent = omega arith;
  on_models = omega arith;
}
step-Counts d (model_usages now model prompt completion total) =
    if-cases (Adds d (model_usages now model prompt completion total))
      (text_beq (trim_space model) []) _ _
      (λ blank. record {
        served = omega arith;
        administered = omega arith;
        failed = omega arith;
        spent = omega arith;
        on_models = ground (arith, blank);
      })
      (λ named. record {
        served = omega arith;
        administered = omega arith;
        failed = omega arith;
        spent = omega arith;
        on_models =
            ground
              (arith, named, booked-put (trim_space model) prompt completion total d.model_usage);
      })
step-Counts d (snapshots now) = record {
  served = omega arith;
  administered = omega arith;
  failed = omega arith;
  spent = omega arith;
  on_models = omega arith;
}

-- After any calls the totals have grown by exactly what the calls add: the requests by those that
-- are not the administrator's, `admin` by those that are, the errors by the former with a status of
-- 400 or more, the total tokens by those of the usages; and the total tokens over all models by
-- those that are recorded for a model whose name is not blank.
pub run-Counts : (calls : List Call) (d : DashboardStats) → Counts d calls (run d calls)
unfolding run
run-Counts [] d = record {
  served = omega arith;
  administered = omega arith;
  failed = omega arith;
  spent = omega arith;
  on_models = omega arith;
}
run-Counts (c ∷ calls) d =
    let one = step-Counts d c in
    let rest = run-Counts calls (step d c) in
    record {
      served = omega (arith, one.served, rest.served);
      administered = omega (arith, one.administered, rest.administered);
      failed = omega (arith, one.failed, rest.failed);
      spent = omega (arith, one.spent, rest.spent);
      on_models = omega (arith, one.on_models, rest.on_models);
    }
