-- ===== src/Clock.antt =====
-- Package time, as far as the program uses it. A time is the number of nanoseconds since Go's zero
-- time, the first of January of year 1, so that IsZero is a test for 0.
use qwen2api_go.Prelude.{ℕ, ◌+◌, ◌*◌, ◌/◌}
use qwen2api_go.Prelude.Int.{ℤ, sub_ℕ}

-- Seconds from Go's zero time to the Unix epoch, and units in nanoseconds.
abbrev pub unix_epoch : ℕ
unix_epoch = 62135596800

abbrev pub second : ℕ
second = 1000000000

abbrev pub hour : ℕ
hour = 3600000000000

abbrev pub max_duration : ℕ
max_duration = 9223372036854775807

-- time.Unix(seconds, 0)
abbrev pub at_unix : ℕ → ℕ
at_unix seconds = (seconds + unix_epoch) * second

-- time.Time.UnixMilli
abbrev pub unix_milli : ℕ → ℤ
unix_milli t = sub_ℕ (t / 1000000) (unix_epoch * 1000)
