-- ===== src/Mp4box.antt =====
-- stream/mp4box.hpp: the boxes of an MP4 file and the tracks that are written in them.
-- The host is little-endian, as the code's use of `HTOBE32` has it, and a packed struct is the
-- bytes of its members in order. The members that no code assigns are the zeros that the structs
-- are initialised with; they are written out in the bytes and are no fields of the records.
pub mod Endian
pub mod Tables
pub mod Entries
pub mod Boxes
pub mod Config
pub mod Track
mod Tests
use inc.Prelude.{ℕ, ◌*◌, ◌/◌, ◌%◌, ◌^◌, List, [], ◌∷◌, bit_and, bit_or}
use inc.Prelude.Word.{u32, of_char}

-- `HTOBE32`.
unfoldable pub htobe32 : ℕ → ℕ
htobe32 v =
    bit_or
      (bit_or (bit_or (u32 (bit_and v 0xFF * 2 ^ 24)) (u32 (bit_and v 0xFF00 * 2 ^ 8)))
        (bit_and (v / 2 ^ 8) 0xFF00))
      (bit_and (v / 2 ^ 24) 0xFF)

-- `LE32TYPE` on the four chars of a literal.
unfoldable pub le32type : ℕ → ℕ → ℕ → ℕ → ℕ
le32type b0 b1 b2 b3 =
    bit_or
      (bit_or (bit_or (of_char 32 b0) (u32 (of_char 32 b1 * 2 ^ 8))) (u32 (of_char 32 b2 * 2 ^ 16)))
      (u32 (of_char 32 b3 * 2 ^ 24))

-- The bytes of a `u16` and of a `u32` in memory.
abbrev pub le16 : ℕ → List ℕ
le16 v = v % 256 ∷ v / 256 % 256 ∷ []

abbrev pub le32 : ℕ → List ℕ
le32 v = v % 256 ∷ v / 256 % 256 ∷ v / 65536 % 256 ∷ v / 16777216 % 256 ∷ []

-- `Matrix`: the nine words, on zeros.
abbrev pub matrix : List ℕ
matrix = htobe32 0x00010000 ∷ 0 ∷ 0 ∷ 0 ∷ htobe32 0x00010000 ∷ 0 ∷ 0 ∷ 0 ∷ htobe32 0x40000000 ∷ []
