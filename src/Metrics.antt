-- ===== src/Metrics.antt =====
-- internal/metrics/stats.go: the counters behind the dashboard, in total, by minute and by model. A
-- time is a number of nanoseconds since Go's zero time and an argument of each call; the clock
-- stands after the Unix epoch. Counts are numbers without a bound, and token counts not negative.
-- A bucket that the code changes through a pointer is written back into the map.
pub mod Consistency
pub mod Bounds
pub mod Counts
pub mod Report
pub mod Recent
mod Tests
use qwen2api_go.Prelude.{
  ℕ, zero, suc, ◌+◌, ◌-◌, ◌*◌, ◌/◌, Bool, true, false, not, List, [], ◌∷◌, ◌++◌, ltb, leb, keep,
  drop, length, nat_eq, if◌then◌else◌,
}
use qwen2api_go.Text.{Text, codes, text_eq, text_beq, trim_space}
use qwen2api_go.Dict.{Dict, put, get_or}
use qwen2api_go.Clock.{second, hour, unix_epoch}

pub record MinuteBucket : Type 0 where
  pub minute_key : ℕ
  pub requests : ℕ
  pub admin : ℕ
  pub chat : ℕ
  pub models : ℕ
  pub image : ℕ
  pub video : ℕ
  pub upload : ℕ
  pub errors : ℕ
  pub prompt_tokens : ℕ
  pub completion_tokens : ℕ
  pub total_tokens : ℕ

pub record ModelUsage : Type 0 where
  pub prompt_tokens : ℕ
  pub completion_tokens : ℕ
  pub total_tokens : ℕ

pub record DashboardStats : Type 0 where
  pub started_at : ℕ
  pub totals : MinuteBucket
  pub request_events : List ℕ
  pub minutes : Dict ℕ MinuteBucket
  pub model_usage : Dict Text ModelUsage

-- time.Minute, maxMinuteBuckets and maxRequestSamples
abbrev pub minute_window : ℕ
minute_window = 60000000000

abbrev pub max_minute_buckets : ℕ
max_minute_buckets = 180

abbrev pub max_request_samples : ℕ
max_request_samples = 6000

abbrev pub new_bucket : ℕ → MinuteBucket
new_bucket key = record {
  minute_key = key;
  requests = 0;
  admin = 0;
  chat = 0;
  models = 0;
  image = 0;
  video = 0;
  upload = 0;
  errors = 0;
  prompt_tokens = 0;
  completion_tokens = 0;
  total_tokens = 0;
}

abbrev pub no_usage : ModelUsage
no_usage = record { prompt_tokens = 0; completion_tokens = 0; total_tokens = 0 }

pub new_dashboard_stats : ℕ → DashboardStats
new_dashboard_stats now = record {
  started_at = now;
  totals = new_bucket 0;
  request_events = [];
  minutes = [];
  model_usage = [];
}

pub minute_key_of : ℕ → ℕ
minute_key_of t = (t / second - unix_epoch) / 60

-- The bucket of a time, made if it is not there, and changed by `f`.
pub change_bucket : ℕ → (MinuteBucket → MinuteBucket) → Dict ℕ MinuteBucket → Dict ℕ MinuteBucket
change_bucket key f minutes = put key (f (get_or (new_bucket key) key minutes)) minutes

abbrev pub newest_samples : List ℕ → List ℕ
newest_samples events =
    if ltb max_request_samples (length events)
    then drop (length events - max_request_samples) events
    else events

pub prune : ℕ → DashboardStats → DashboardStats
unfolding minute_key_of
prune now d =
    let threshold = minute_key_of (now - max_minute_buckets * minute_window) in
    record d {
      minutes = keep (λ (bucket : ℕ × MinuteBucket). not (ltb bucket.0 threshold)) d.minutes;
      request_events = newest_samples (keep (ltb (now - hour)) d.request_events);
    }

abbrev pub is_admin : Text → Bool
is_admin kind = text_beq kind (codes "admin")

-- The switch of RecordRequest over the kind of a request.
pub count_kind : Text → MinuteBucket → MinuteBucket
count_kind kind b =
    if text_beq kind (codes "models")
    then record b { models = b.models + 1 }
    else if is_admin kind
    then record b { admin = b.admin + 1 }
    else if text_beq kind (codes "upload")
    then record b { upload = b.upload + 1 }
    else if text_beq kind (codes "image")
    then record b { image = b.image + 1 }
    else if text_beq kind (codes "video")
    then record b { video = b.video + 1 }
    else record b { chat = b.chat + 1 }

pub count_request : Text → ℕ → MinuteBucket → MinuteBucket
unfolding count_kind
count_request kind status_code b =
    if is_admin kind then count_kind kind b else record (count_kind kind b) {
      requests = b.requests + 1;
      errors = if leb 400 status_code then b.errors + 1 else b.errors;
    }

pub record_request : ℕ → Text → ℕ → DashboardStats → DashboardStats
unfolding minute_key_of change_bucket prune count_request
record_request now kind status_code d = prune now (record d {
  totals = count_request kind status_code d.totals;
  minutes = change_bucket (minute_key_of now) (count_request kind status_code) d.minutes;
  request_events = if is_admin kind then d.request_events else d.request_events ++ now ∷ [];
})

pub add_tokens : ℕ → ℕ → ℕ → MinuteBucket → MinuteBucket
add_tokens prompt completion total b = record b {
  prompt_tokens = b.prompt_tokens + prompt;
  completion_tokens = b.completion_tokens + completion;
  total_tokens = b.total_tokens + total;
}

pub record_usage : ℕ → ℕ → ℕ → ℕ → DashboardStats → DashboardStats
unfolding minute_key_of change_bucket prune add_tokens
record_usage now prompt completion total d = prune now (record d {
  totals = add_tokens prompt completion total d.totals;
  minutes = change_bucket (minute_key_of now) (add_tokens prompt completion total) d.minutes;
})

pub add_usage : ℕ → ℕ → ℕ → ModelUsage → ModelUsage
add_usage prompt completion total usage = record {
  prompt_tokens = usage.prompt_tokens + prompt;
  completion_tokens = usage.completion_tokens + completion;
  total_tokens = usage.total_tokens + total;
}

pub record_model_usage : ℕ → Text → ℕ → ℕ → ℕ → DashboardStats → DashboardStats
unfolding record_usage add_usage
record_model_usage now model prompt completion total d =
    let counted = record_usage now prompt completion total d in
    let name = trim_space model in
    let usage = add_usage prompt completion total (get_or no_usage name counted.model_usage) in
    if text_beq name []
    then counted
    else record counted { model_usage = put name usage counted.model_usage }

-- The sums, the peaks and the series of the last minutes.
pub record Window : Type 0 where
  pub requests30 : ℕ
  pub admin30 : ℕ
  pub tokens30 : ℕ
  pub peak_requests : ℕ
  pub peak_tokens : ℕ
  pub series : List MinuteBucket

abbrev pub empty_window : Window
empty_window = record {
  requests30 = 0;
  admin30 = 0;
  tokens30 = 0;
  peak_requests = 0;
  peak_tokens = 0;
  series = [];
}

abbrev pub max_of : ℕ → ℕ → ℕ
max_of value peak = if ltb peak value then value else peak

pub add_minute : MinuteBucket → Window → Window
add_minute b w = record {
  requests30 = w.requests30 + b.requests;
  admin30 = w.admin30 + b.admin;
  tokens30 = w.tokens30 + b.total_tokens;
  peak_requests = max_of b.requests w.peak_requests;
  peak_tokens = max_of b.total_tokens w.peak_tokens;
  series = w.series ++ b ∷ [];
}

-- The loop of Snapshot, with the number of rounds left; its offset is one less.
pub window : ℕ → ℕ → Dict ℕ MinuteBucket → Window → Window
unfolding add_minute
window zero current minutes w = w
window (suc offset) current minutes w =
    let key = current - offset in
    window offset current minutes (add_minute (get_or (new_bucket key) key minutes) w)

-- The numbers of Snapshot's answer. The success rate, in percent, is a fraction; the average rate is
-- `requests30` over 30; the texts of times and the labels are left out.
pub record Snapshot : Type 0 where
  pub uptime_seconds : ℕ
  pub rpm : ℕ
  pub recent : Window
  pub success_rate : ℕ × ℕ
  pub totals : MinuteBucket

pub snapshot : ℕ → DashboardStats → DashboardStats × Snapshot
unfolding minute_key_of prune window
snapshot now d =
    let pruned = prune now d in
    (
      pruned,
      record {
        uptime_seconds = (now - d.started_at) / second;
        rpm = length (keep (ltb (now - minute_window)) pruned.request_events);
        recent = window 30 (minute_key_of now) pruned.minutes empty_window;
        success_rate =
            if ltb 0 pruned.totals.requests
            then ((pruned.totals.requests - pruned.totals.errors) * 100, pruned.totals.requests)
            else (100, 1);
        totals = pruned.totals;
      },
    )
