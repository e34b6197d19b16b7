-- ===== src/Prelude/Word.antt =====
-- Machine words: casts to the fixed widths, shifts, and `char` on the platforms of the
-- repository, where it is a signed type of 8 bits (types.h names it i8).
use Prim.Native.Nat.{ℕ, ◌+◌, ◌-◌, ◌%◌, ◌^◌, ◌<◌}
use inc.Prelude.Tests.{ltb, if◌then◌else◌}

abbrev pub u8 : ℕ → ℕ
u8 n = n % 2 ^ 8

abbrev pub u16 : ℕ → ℕ
u16 n = n % 2 ^ 16

abbrev pub u32 : ℕ → ℕ
u32 n = n % 2 ^ 32

abbrev pub u64 : ℕ → ℕ
u64 n = n % 2 ^ 64

-- A `char` is kept as its byte `b`; this is its value after a cast to an unsigned type of `w`
-- bits, which extends the sign.
abbrev pub of_char : ℕ → ℕ → ℕ
of_char w b = if ltb b 128 then b else 2 ^ w - 256 + b

abbrev pub IsByte : ℕ → Type 0
IsByte b = b < 256
