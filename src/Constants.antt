-- ===== src/Constants.antt =====
-- internal/constants/constants.go. Durations are nanoseconds.
use tunneld.Prelude.{ℕ, ◌*◌, ◌^◌, String, ℤ, pos}

abbrev pub second : ℕ
second = 10 ^ 9

abbrev pub default_listen_address : String
default_listen_address = "127.0.0.1"

abbrev pub default_startup_timeout : ℤ
default_startup_timeout = pos (30 * second)

abbrev pub default_health_interval : ℤ
default_health_interval = pos (2 * second)

abbrev pub default_health_timeout : ℤ
default_health_timeout = pos (2 * second)

abbrev pub default_wait_timeout : ℤ
default_wait_timeout = pos (30 * second)
