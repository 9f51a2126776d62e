-- ===== src/Metrics/Report.antt =====
-- The report of internal/metrics/stats.go, Snapshot: its figures agree with its series.
use qwen2api_go.Prelude.{
  ℕ, zero, suc, ◌+◌, ◌*◌, ◌≤◌, ◌<◌, ◌≡◌, refl, ◌∙◌, ◌⊎◌, List, [], ◌∷◌, ◌++◌, ltb, length,
  length-append, All, arith, if◌then◌else◌, if-cases, inl, inr,
}
use qwen2api_go.Dict.{Dict}
use qwen2api_go.Metrics.{
  MinuteBucket, DashboardStats, Window, empty_window, minute_key_of, max_of, add_minute, window,
  prune, snapshot,
}
use qwen2api_go.Metrics.Consistency.{IsSplit}

abbrev pub sum_of : (MinuteBucket → ℕ) → List MinuteBucket → ℕ
sum_of f [] = 0
sum_of f (b ∷ bs) = f b + sum_of f bs

-- Some bucket of the list has this count.
abbrev pub Reaches : (MinuteBucket → ℕ) → ℕ → List MinuteBucket → Type 0
Reaches f n [] = ⊥
Reaches f n (b ∷ bs) = (f b ≡ n) ⊎ Reaches f n bs

-- `peak` is the largest count in the list, or 0 if there is none.
abbrev pub IsPeak : (MinuteBucket → ℕ) → ℕ → List MinuteBucket → Type 0
IsPeak f peak bs = All (λ b. f b ≤ peak) bs × ((peak ≡ 0) ⊎ Reaches f peak bs)

pub record IsSummary (w : Window) : Type 0 where
  pub requests_sum : w.requests30 ≡ sum_of (λ b. b.requests) w.series
  pub admin_sum : w.admin30 ≡ sum_of (λ b. b.admin) w.series
  pub tokens_sum : w.tokens30 ≡ sum_of (λ b. b.total_tokens) w.series
  pub requests_peak : IsPeak (λ b. b.requests) w.peak_requests w.series
  pub tokens_peak : IsPeak (λ b. b.total_tokens) w.peak_tokens w.series

sum_of-append :
    (f : MinuteBucket → ℕ) (b : MinuteBucket) (bs : List MinuteBucket)
    → sum_of f (bs ++ b ∷ []) ≡ sum_of f bs + f b
sum_of-append f b [] = omega arith
sum_of-append f b (c ∷ bs) = omega (arith, sum_of-append f b bs)

All-append_le :
    (f : MinuteBucket → ℕ) (low high : ℕ) (b : MinuteBucket) (bs : List MinuteBucket)
    → low ≤ high
    → f b ≤ high
    → All (λ c. f c ≤ low) bs
    → All (λ c. f c ≤ high) (bs ++ b ∷ [])
All-append_le f low high b [] le last h = (last, tt)
All-append_le f low high b (c ∷ bs) le last h =
    (omega (arith, le, h.0), All-append_le f low high b bs le last h.1)

Reaches-last :
    (f : MinuteBucket → ℕ) (b : MinuteBucket) (bs : List MinuteBucket)
    → Reaches f (f b) (bs ++ b ∷ [])
Reaches-last f b [] = inl refl
Reaches-last f b (c ∷ bs) = inr (Reaches-last f b bs)

Reaches-append :
    (f : MinuteBucket → ℕ) (n : ℕ) (b : MinuteBucket) (bs : List MinuteBucket)
    → Reaches f n bs
    → Reaches f n (bs ++ b ∷ [])
Reaches-append f n b [] h = absurd h
Reaches-append f n b (c ∷ bs) (inl e) = inl e
Reaches-append f n b (c ∷ bs) (inr h) = inr (Reaches-append f n b bs h)

le_max : (value peak : ℕ) → (value ≤ max_of value peak) × (peak ≤ max_of value peak)
le_max value peak = ground arith

max_of-IsPeak :
    (f : MinuteBucket → ℕ) (peak : ℕ) (b : MinuteBucket) (bs : List MinuteBucket)
    → IsPeak f peak bs
    → IsPeak f (max_of (f b) peak) (bs ++ b ∷ [])
max_of-IsPeak f peak b bs (below, reached) = (
  All-append_le f peak (max_of (f b) peak) b bs (le_max (f b) peak).1 (le_max (f b) peak).0 below,
  if-cases (λ n. (n ≡ 0) ⊎ Reaches f n (bs ++ b ∷ [])) (ltb peak (f b)) (f b) peak
      (λ _. inr (Reaches-last f b bs)) (λ _. still reached),
)
  where
    still : (peak ≡ 0) ⊎ Reaches f peak bs → (peak ≡ 0) ⊎ Reaches f peak (bs ++ b ∷ [])
    still (inl e) = inl e
    still (inr h) = inr (Reaches-append f peak b bs h)

add_minute-IsSummary : (b : MinuteBucket) (w : Window) → IsSummary w → IsSummary (add_minute b w)
unfolding add_minute
add_minute-IsSummary b w v = record {
  requests_sum = omega (arith, v.requests_sum, sum_of-append (λ b. b.requests) b w.series);
  admin_sum = omega (arith, v.admin_sum, sum_of-append (λ b. b.admin) b w.series);
  tokens_sum = omega (arith, v.tokens_sum, sum_of-append (λ b. b.total_tokens) b w.series);
  requests_peak = max_of-IsPeak (λ b. b.requests) w.peak_requests b w.series v.requests_peak;
  tokens_peak = max_of-IsPeak (λ b. b.total_tokens) w.peak_tokens b w.series v.tokens_peak;
}

window-IsSummary :
    (rounds current : ℕ) (minutes : Dict ℕ MinuteBucket) (w : Window)
    → IsSummary w
    → IsSummary (window rounds current minutes w)
unfolding window
window-IsSummary zero current minutes w v = v
window-IsSummary (suc offset) current minutes w v =
    window-IsSummary offset current minutes _ (add_minute-IsSummary _ w v)

window-length :
    (rounds current : ℕ) (minutes : Dict ℕ MinuteBucket) (w : Window)
    → length (window rounds current minutes w).series ≡ length w.series + rounds
unfolding window add_minute
window-length zero current minutes w = omega arith
window-length (suc offset) current minutes w =
    window-length offset current minutes _ ∙ omega (arith, length-append w.series (_ ∷ []))

-- The series of a report has thirty minutes, and its sums and peaks are those of the series.
pub snapshot-IsSummary :
    (now : ℕ) (d : DashboardStats)
    → let recent = (snapshot now d).1.recent in IsSummary recent × (length recent.series ≡ 30)
unfolding snapshot
snapshot-IsSummary now d = (
  window-IsSummary 30 (minute_key_of now) (prune now d).minutes empty_window (record {
    requests_sum = refl;
    admin_sum = refl;
    tokens_sum = refl;
    requests_peak = (tt, inl refl);
    tokens_peak = (tt, inl refl);
  }),
  window-length 30 (minute_key_of now) (prune now d).minutes empty_window,
)

-- The success rate is a proper fraction of a hundred per cent, if the errors are no more than the
-- requests, as they are after any calls.
snapshot-success_rate :
    (now : ℕ) (d : DashboardStats)
    → IsSplit d.totals
    → let rate = (snapshot now d).1.success_rate in
      (0 < rate.1)
      × (rate.0 ≤ 100 * rate.1)
      × (rate.0 + 100 * (if ltb 0 d.totals.requests then d.totals.errors else 0) ≡ 100 * rate.1)
unfolding snapshot prune
snapshot-success_rate now d h = ground arith
