-- ===== src/Std/Time.antt =====
-- What the program uses of time: Now, Until, Seconds. Times and durations are in nanoseconds.
use tenant_deck.Base.{ℕ, ◌-◌, ◌/◌, suc, min, ℤ, pos, negsuc, leb, if◌then◌else◌}
use tenant_deck.Std.Strconv.{negate}

-- The clock of the machine.
pub record Clock (W : Type 0) : Type 0 where
  pub now : W → ℕ × W

abbrev pub second : ℕ
second = 1000000000

abbrev max_duration : ℕ
max_duration = 9223372036854775807

-- time.Until(t) at the time `now`, which saturates at the limits of int64.
unfoldable pub until : ℕ → ℕ → ℤ
until t now =
    if leb now t then pos (min (t - now) max_duration) else negsuc (min (now - t - 1) max_duration)

-- int(d.Seconds()): whole seconds, towards zero.
unfoldable pub whole_seconds : ℤ → ℤ
whole_seconds (pos n) = pos (n / second)
whole_seconds (negsuc n) = negate (suc n / second)
