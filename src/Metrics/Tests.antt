-- ===== src/Metrics/Tests.antt =====
-- The theorems on the dashboard's counters at a concrete sequence of calls.
use qwen2api_go.Prelude.{ℕ, ◌+◌, ◌≤◌, ◌≡◌, refl, arith, List, [], ◌∷◌, length}
use qwen2api_go.Text.{codes, text_beq, trim_space}
use qwen2api_go.Clock.{at_unix}
use qwen2api_go.Metrics.{
  DashboardStats, new_dashboard_stats, record_request, snapshot, minute_key_of, count_request,
  count_kind, add_tokens, prune, record_usage, record_model_usage,
}
use qwen2api_go.Metrics.Consistency.{
  Call, requests, usages, model_usages, step, run, IsConsistent, run-IsConsistent,
}
use qwen2api_go.Metrics.Counts.{Counts, run-Counts}
use qwen2api_go.Metrics.Report.{IsSummary, snapshot-IsSummary}
use qwen2api_go.Metrics.Recent.{run-recent}

-- Two hours after the Unix epoch.
abbrev start : ℕ
start = at_unix 7200

abbrev dashboard : DashboardStats
dashboard = new_dashboard_stats start

abbrev calls : List Call
calls =
    requests start (codes "chat") 200
    ∷ requests (start + 60000000000) (codes "image") 500
    ∷ requests (start + 60000000000) (codes "admin") 404
    ∷ model_usages (start + 60000000001) (codes " qwen ") 3 4 7
    ∷ usages (start + 60000000002) 1 1 2
    ∷ []

two_requests_one_error :
    let d = run dashboard calls in
    (d.totals.requests ≡ 2) × (d.totals.errors ≡ 1) × (d.totals.total_tokens ≡ 9)
unfolding run step record_request record_model_usage record_usage count_request count_kind
    add_tokens prune new_dashboard_stats text_beq trim_space
two_requests_one_error = (refl, refl, refl)

run-IsConsistent_example : IsConsistent (run dashboard calls)
unfolding new_dashboard_stats
run-IsConsistent_example =
    run-IsConsistent calls dashboard (record { in_total = (refl, omega arith); by_minute = tt })

run-Counts_example : Counts dashboard calls (run dashboard calls)
run-Counts_example = run-Counts calls dashboard

snapshot-IsSummary_example :
    let recent = (snapshot start dashboard).1.recent in
    IsSummary recent × (length recent.series ≡ 30)
snapshot-IsSummary_example = snapshot-IsSummary start dashboard

run-recent_example :
    (snapshot start (run dashboard calls)).1.recent.requests30
    ≤ (run dashboard calls).totals.requests
unfolding new_dashboard_stats minute_key_of
run-recent_example = run-recent calls start dashboard (omega arith) (omega arith)
