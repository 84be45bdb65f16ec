-- ===== src/Domain/Time.antt =====
-- Instants and durations, both counted in microseconds, the resolution at which the database holds
-- them. An instant counts from Go's zero time, the first of January of year 1.
use stripe_payment_service.Prelude.{
  ℕ, suc, ◌+◌, ◌-◌, ◌*◌, Bool, Option, none, some, ltb, nat_eq, if◌then◌else◌,
}
use stripe_payment_service.Prelude.Int.{ℤ, pos, negsuc, is_positive}

abbrev pub Time : Type 0
Time = ℕ

abbrev pub Duration : Type 0
Duration = ℕ

abbrev pub second : Duration
second = 1_000_000

abbrev pub minute : Duration
minute = 60 * second

abbrev pub hour : Duration
hour = 60 * minute

-- 1970-01-01T00:00:00Z, in seconds of year 1.
abbrev pub unix_epoch : ℕ
unix_epoch = 62_135_596_800

-- time.Unix(sec, 0). Instants before year 1 are taken to be the zero time.
unfoldable pub unix : ℤ → Time
unix (pos n) = (unix_epoch + n) * second
unix (negsuc n) = (unix_epoch - suc n) * second

-- unixPtr of internal/service/webhook_service.go: nil unless the seconds are positive.
unfoldable pub unix_ptr : ℤ → Option Time
unix_ptr sec = if is_positive sec then some (unix sec) else none

-- t.Before(u), t.After(u), t.IsZero()
abbrev pub before : Time → Time → Bool
before t u = ltb t u

abbrev pub after : Time → Time → Bool
after t u = ltb u t

abbrev pub is_zero : Time → Bool
is_zero t = nat_eq t 0
