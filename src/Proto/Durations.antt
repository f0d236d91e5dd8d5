-- ===== src/Proto/Durations.antt =====
-- google.protobuf.Duration with durationpb.New and AsDuration, by their documentation: AsDuration
-- gives the closest time.Duration where the message is out of the range of an int64.
use tunneld.Prelude.{
  ℕ, suc, ◌+◌, ◌*◌, ◌-◌, ◌/◌, ◌%◌, ◌^◌, ◌<◌, ◌≡◌, ℤ, pos, negsuc, ltb, Option, none, some,
  if◌then◌else◌, arith,
}

-- A signed number of seconds, and of nanoseconds.
pub record Duration : Type 0 where
  pub seconds : ℤ
  pub nanos : ℤ

-- s seconds and n nanoseconds, in nanoseconds.
unfoldable pub nanoseconds : ℤ → ℤ → ℤ
nanoseconds (pos s) (pos n) = pos (s * 10 ^ 9 + n)
nanoseconds (negsuc s) (negsuc n) = negsuc (suc s * 10 ^ 9 + n)
nanoseconds (pos s) (negsuc n) =
    if ltb n (s * 10 ^ 9) then pos (s * 10 ^ 9 - suc n) else negsuc (n - s * 10 ^ 9)
nanoseconds (negsuc s) (pos n) =
    if ltb n (suc s * 10 ^ 9) then negsuc (suc s * 10 ^ 9 - suc n) else pos (n - suc s * 10 ^ 9)

-- The int64 that is closest.
unfoldable pub saturate : ℤ → ℤ
saturate (pos n) = if ltb n (2 ^ 63) then pos n else pos (2 ^ 63 - 1)
saturate (negsuc n) = if ltb n (2 ^ 63) then negsuc n else negsuc (2 ^ 63 - 1)

-- d.AsDuration(), which is 0 for nil
unfoldable pub as_duration : Option Duration → ℤ
unfolding saturate nanoseconds
as_duration none = pos 0
as_duration (some d) = saturate (nanoseconds d.seconds d.nanos)

-- -n
abbrev negative : ℕ → ℤ
negative n = if ltb 0 n then negsuc (n - 1) else pos 0

-- durationpb.New(d), whose division is that of Go, towards 0
unfoldable pub new_duration : ℤ → Option Duration
new_duration (pos n) = some (record { seconds = pos (n / 10 ^ 9); nanos = pos (n % 10 ^ 9) })
new_duration (negsuc n) =
    some (record { seconds = negative (suc n / 10 ^ 9); nanos = negative (suc n % 10 ^ 9) })

-- A time.Duration is an int64.
abbrev pub IsInt64 : ℤ → Type 0
IsInt64 (pos n) = n < 2 ^ 63
IsInt64 (negsuc n) = n < 2 ^ 63

pub as_duration-new : (z : ℤ) → IsInt64 z → as_duration (new_duration z) ≡ z
unfolding as_duration new_duration
as_duration-new (pos n) h = ground arith
as_duration-new (negsuc n) h = ground arith

-- Less than a second of nanoseconds, with the sign of the seconds.
abbrev pub IsNormal : ℤ → ℤ → Type 0
IsNormal (pos s) (pos n) = n < 10 ^ 9
IsNormal (pos s) (negsuc n) = (s ≡ 0) × suc n < 10 ^ 9
IsNormal (negsuc s) (pos n) = n ≡ 0
IsNormal (negsuc s) (negsuc n) = suc n < 10 ^ 9

new-nanoseconds :
    (s n : ℤ)
    → IsNormal s n
    → new_duration (nanoseconds s n) ≡ some (record { seconds = s; nanos = n })
unfolding nanoseconds new_duration
new-nanoseconds (pos s) (pos n) h = ground (arith, h)
new-nanoseconds (pos s) (negsuc n) h = ground (arith, h)
new-nanoseconds (negsuc s) (pos n) h = ground (arith, h)
new-nanoseconds (negsuc s) (negsuc n) h = ground (arith, h)

saturate-eq : (z : ℤ) → IsInt64 z → saturate z ≡ z
unfolding saturate
saturate-eq (pos n) h = ground arith
saturate-eq (negsuc n) h = ground arith

-- The message that New makes of what AsDuration makes of a message is that message, if it is
-- normal and in range.
new-as_duration :
    (d : Duration)
    → IsNormal d.seconds d.nanos
    → IsInt64 (nanoseconds d.seconds d.nanos)
    → new_duration (as_duration (some d)) ≡ some d
unfolding as_duration
new-as_duration d n i =
    rw (saturate-eq (nanoseconds d.seconds d.nanos) i) (new-nanoseconds d.seconds d.nanos n)

-- A message that is there, normal and in range.
abbrev pub IsExact : Option Duration → Type 0
IsExact none = ⊥
IsExact (some d) = IsNormal d.seconds d.nanos × IsInt64 (nanoseconds d.seconds d.nanos)

pub new-as_duration-IsExact : (d : Option Duration) → IsExact d → new_duration (as_duration d) ≡ d
new-as_duration-IsExact none h = absurd h
new-as_duration-IsExact (some d) (n, i) = new-as_duration d n i
