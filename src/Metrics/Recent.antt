-- ===== src/Metrics/Recent.antt =====
-- The requests of the last half hour against all requests: internal/metrics/stats.go, Snapshot.
use qwen2api_go.Prelude.{
  ℕ, zero, suc, ◌+◌, ◌-◌, ◌≤◌, ◌≡◌, refl, ◌∙◌, List, [], ◌∷◌, leb, eqb, nat_eq, arith,
  if◌then◌else◌, if-cases,
}
use qwen2api_go.Text.{Text, text_beq, trim_space}
use qwen2api_go.Dict.{Dict, get_or, lookup, sum_by, sum_by-put, sum_by-keep}
use qwen2api_go.Metrics.{
  MinuteBucket, DashboardStats, Window, empty_window, new_bucket, is_admin, count_kind,
  count_request, add_tokens, change_bucket, minute_key_of, add_minute, window, prune,
  record_request, record_usage, record_model_usage, snapshot,
}
use qwen2api_go.Metrics.Consistency.{
  Call, requests, usages, model_usages, snapshots, step, run, models_not_admin,
}

abbrev pub stored : Dict ℕ MinuteBucket → ℕ
stored minutes = sum_by (λ (b : MinuteBucket). b.requests) minutes

abbrev read_at : ℕ → Dict ℕ MinuteBucket → ℕ
read_at key minutes = (get_or (new_bucket key) key minutes).requests

-- What the loop reads: the requests of the minutes from `current` back.
read_back : ℕ → ℕ → Dict ℕ MinuteBucket → ℕ
read_back zero current minutes = 0
read_back (suc offset) current minutes =
    read_at (current - offset) minutes + read_back offset current minutes

window-read_back :
    (rounds current : ℕ) (minutes : Dict ℕ MinuteBucket) (w : Window)
    → (window rounds current minutes w).requests30 ≡ w.requests30 + read_back rounds current minutes
unfolding window add_minute read_back
window-read_back zero current minutes w = omega arith
window-read_back (suc offset) current minutes w =
    window-read_back offset current minutes _ ∙ omega arith

read_at-cons :
    (key j : ℕ) (b : MinuteBucket) (m : Dict ℕ MinuteBucket)
    → read_at key ((j, b) ∷ m) ≡ (if eqb j key then b.requests else read_at key m)
unfolding get_or lookup
read_at-cons key j b m = ground arith

-- The minutes that are read are different ones, so that an entry counts once at most.
read_back-cons :
    (rounds current j : ℕ) (b : MinuteBucket) (m : Dict ℕ MinuteBucket)
    → rounds ≤ current + 1
    → read_back rounds current ((j, b) ∷ m)
      ≤ (if leb (current + 1) (j + rounds) then b.requests else 0) + read_back rounds current m
unfolding read_back
read_back-cons zero current j b m h = omega arith
read_back-cons (suc offset) current j b m h =
    let ih : read_back offset current ((j, b) ∷ m)
        ≤ (if leb (current + 1) (j + offset) then b.requests else 0) + read_back offset current m =
      read_back-cons offset current j b m (omega (arith, h)) in
    ground (arith, ih, read_at-cons (current - offset) j b m)

read_back-nil : (rounds current : ℕ) → read_back rounds current [] ≡ 0
unfolding read_back get_or lookup
read_back-nil zero current = refl
read_back-nil (suc offset) current = omega (arith, read_back-nil offset current)

read_back-stored :
    (rounds current : ℕ) (m : Dict ℕ MinuteBucket)
    → rounds ≤ current + 1
    → read_back rounds current m ≤ stored m
read_back-stored rounds current [] h = omega (arith, read_back-nil rounds current)
read_back-stored rounds current ((j, b) ∷ m) h =
    ground (arith, read_back-cons rounds current j b m h, read_back-stored rounds current m h)

-- The minutes that are kept hold no more requests than there have been.
abbrev pub IsCovered : DashboardStats → Type 0
IsCovered d = stored d.minutes ≤ d.totals.requests

-- In the half hour before any time after the thirtieth minute of the Unix epoch, no more requests
-- are reported than in total, if the stored minutes hold no more than the total.
pub snapshot-recent :
    (now : ℕ) (d : DashboardStats)
    → 29 ≤ minute_key_of now
    → IsCovered d
    → (snapshot now d).1.recent.requests30 ≤ d.totals.requests
unfolding snapshot prune
snapshot-recent now d late v = omega (
  arith,
  v,
  window-read_back 30 (minute_key_of now) (prune now d).minutes empty_window,
  read_back-stored 30 (minute_key_of now) (prune now d).minutes (omega (arith, late)),
  sum_by-keep {K = ℕ} (λ (b : MinuteBucket). b.requests) _ d.minutes,
)

count_request-requests :
    (kind : Text) (status_code : ℕ) (b : MinuteBucket)
    → (count_request kind status_code b).requests ≡ b.requests + (if is_admin kind then 0 else 1)
unfolding count_request count_kind
count_request-requests kind status_code b = ground (arith, models_not_admin kind)

change_bucket-stored :
    (key n : ℕ) (f : MinuteBucket → MinuteBucket) (m : Dict ℕ MinuteBucket)
    → ((b : MinuteBucket) → (f b).requests ≡ b.requests + n)
    → stored (change_bucket key f m) ≡ stored m + n
unfolding change_bucket
change_bucket-stored key n f m h =
    let old = get_or (new_bucket key) key m in
    omega (
      arith,
      h old,
      sum_by-put (λ (b : MinuteBucket). b.requests) (new_bucket key) key (f old) m refl,
    )

record_usage-IsCovered :
    (now prompt completion total : ℕ) (d : DashboardStats)
    → IsCovered d
    → IsCovered (record_usage now prompt completion total d)
unfolding record_usage prune add_tokens
record_usage-IsCovered now prompt completion total d v = omega (
  arith,
  v,
  change_bucket-stored (minute_key_of now) 0 (add_tokens prompt completion total) d.minutes
      (λ b. omega arith),
  sum_by-keep {K = ℕ} (λ (b : MinuteBucket). b.requests) _
      (change_bucket (minute_key_of now) (add_tokens prompt completion total) d.minutes),
)

step-IsCovered : (d : DashboardStats) (c : Call) → IsCovered d → IsCovered (step d c)
unfolding step record_request record_model_usage snapshot prune
step-IsCovered d (requests now kind status_code) v = omega (
  arith,
  v,
  count_request-requests kind status_code d.totals,
  change_bucket-stored (minute_key_of now) (if is_admin kind then 0 else 1)
      (count_request kind status_code) d.minutes (count_request-requests kind status_code),
  sum_by-keep {K = ℕ} (λ (b : MinuteBucket). b.requests) _
      (change_bucket (minute_key_of now) (count_request kind status_code) d.minutes),
)
step-IsCovered d (usages now prompt completion total) v =
    record_usage-IsCovered now prompt completion total d v
step-IsCovered d (model_usages now model prompt completion total) v =
    let w = record_usage-IsCovered now prompt completion total d v in
    if-cases IsCovered (text_beq (trim_space model) []) _ _ (λ _. w) (λ _. w)
step-IsCovered d (snapshots now) v =
    omega (arith, v, sum_by-keep {K = ℕ} (λ (b : MinuteBucket). b.requests) _ d.minutes)

-- After any calls, a report shows no more requests in the half hour before it than in total, if that
-- held of the stored minutes at first, as it does of a new dashboard, and the report is made after
-- the thirtieth minute of the Unix epoch.
pub run-recent :
    (calls : List Call) (now : ℕ) (d : DashboardStats)
    → 29 ≤ minute_key_of now
    → IsCovered d
    → (snapshot now (run d calls)).1.recent.requests30 ≤ (run d calls).totals.requests
unfolding run
run-recent [] now d late v = snapshot-recent now d late v
run-recent (c ∷ calls) now d late v = run-recent calls now (step d c) late (step-IsCovered d c v)
