-- ===== src/Prelude/Integers.antt =====
-- Signed integers on the native numbers, and Go's `time.Duration`, an int64 of nanoseconds.
use Prim.Native.Nat.{ℕ, zero, suc, ◌+◌, ◌-◌, ◌*◌, ◌/◌, ◌%◌, ◌^◌}
use mathlib.Core.Bool.{Bool, false}
use openshift_update_experie.Prelude.Tests.{if◌then◌else◌, ltb, leb}

pub data ℤ : Type 0 where
  pos negsuc : ℕ → ℤ

-- `-n`.
abbrev pub negated : ℕ → ℤ
negated zero = pos 0
negated (suc n) = negsuc n

-- The value of the bit pattern `r` of an integer with `m` bit patterns, in two's complement.
abbrev pub signed : ℕ → ℕ → ℤ
signed m r = if ltb (2 * r) m then pos r else negated (m - r)

-- What an int64 holds of an integer.
abbrev pub int64_of : ℤ → ℤ
int64_of (pos n) = signed (2 ^ 64) (n % 2 ^ 64)
int64_of (negsuc n) = signed (2 ^ 64) ((2 ^ 64 - suc n % 2 ^ 64) % 2 ^ 64)

-- The product with a constant, which wraps around.
abbrev pub times : ℤ → ℕ → ℤ
times (pos n) k = int64_of (pos (n * k))
times (negsuc n) k = int64_of (negated (suc n * k))

-- `/` and `%` of Go, which round towards zero.
abbrev pub quotient : ℤ → ℕ → ℤ
quotient (pos n) k = pos (n / k)
quotient (negsuc n) k = negated (suc n / k)

abbrev pub remainder : ℤ → ℕ → ℤ
remainder (pos n) k = pos (n % k)
remainder (negsuc n) k = negated (suc n % k)

-- `d > n`.
abbrev pub exceeds : ℤ → ℕ → Bool
exceeds (pos d) n = ltb n d
exceeds (negsuc d) n = false

-- `new.Sub(old)` of two instants, held within the int64.
unfoldable pub sub_times : ℕ → ℕ → ℤ
sub_times new old =
    if leb old new
    then pos (if ltb (new - old) (2 ^ 63) then new - old else 2 ^ 63 - 1)
    else negated (if ltb (2 ^ 63) (old - new) then 2 ^ 63 else old - new)

-- `t.Add(d)`. An instant before the zero time is taken for the zero time; no clock that shows a year
-- after 293 gives one.
unfoldable pub add_duration : ℕ → ℤ → ℕ
add_duration t (pos d) = t + d
add_duration t (negsuc d) = t - suc d

-- The nearest multiple of `m`, halves away from zero, and at most `most`.
abbrev pub nearest : ℕ → ℕ → ℕ → ℕ
nearest most m n =
    let rounded = if ltb (2 * (n % m)) m then n - n % m else n + (m - n % m) in
    if ltb most rounded then most else rounded

-- `d.Round(m)`, for a positive `m`.
unfoldable pub round_duration : ℤ → ℕ → ℤ
round_duration (pos n) m = pos (nearest (2 ^ 63 - 1) m n)
round_duration (negsuc n) m = negated (nearest (2 ^ 63) m (suc n))
