-- ===== src/Clock.antt =====
-- The package time: instants and durations in nanoseconds. An instant counts from one day before
-- the first of January of the year 0, so that every instant that an RFC 3339 text denotes is a
-- number. Time zones change only how an instant is printed, so that UTC() is the identity.
use quantum_control.Prelude.{
  ℕ, suc, ◌+◌, ◌-◌, ◌*◌, min, ◌≡◌, ◌↔◌, Bool, true, ltb, leb, eqb, eqb_iff, eqb_refl, if◌then◌else◌,
}
use quantum_control.Prelude.Int.{ℤ, pos, negsuc}

abbrev pub Time : Type 0
Time = ℕ

abbrev pub Duration : Type 0
Duration = ℤ

-- Durations that the source writes as constants.
abbrev pub second : ℕ
second = 1000000000

abbrev pub minute : ℕ
minute = 60 * second

-- The first of January of the year 1, which is the zero value.
unfoldable pub zero_time : Time
zero_time = 367 * 86400 * 1000000000

unfoldable pub is_zero : Time → Bool
is_zero t = eqb t zero_time

-- t.After(u)
abbrev pub after : Time → Time → Bool
after t u = ltb u t

-- t.Add(d)
abbrev pub add : Time → Duration → Time
add t (pos n) = t + n
add t (negsuc n) = t - suc n

-- The longest duration: 2^63 - 1 nanoseconds.
abbrev pub max_duration : ℕ
max_duration = 9223372036854775807

-- t.Sub(u), which saturates.
abbrev pub sub : Time → Time → Duration
sub t u = if leb u t then pos (min (t - u) max_duration) else negsuc (min (u - t - 1) max_duration)

pub is_zero_zero : is_zero zero_time ≡ true
unfolding is_zero
is_zero_zero = eqb_refl zero_time

pub is_zero_iff : (t : Time) → (is_zero t ≡ true) ↔ (t ≡ zero_time)
unfolding is_zero
is_zero_iff t = eqb_iff t zero_time
