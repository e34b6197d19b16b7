-- ===== src/Mp4box/Config.antt =====
-- stream/mp4box.hpp: `AvccMarshal` and `HvccMarshal`, which write the decoder's configuration
-- into a buffer. An access out of the buffer or of a unit's bytes is `none`.
pub mod Avcc
pub mod Size
use inc.Prelude.{
  ℕ, zero, suc, ◌+◌, ◌*◌, ◌/◌, ◌%◌, ◌^◌, List, [], ◌∷◌, ◌++◌, Option, none, some, ◌>>=◌, bit_and,
  bit_or, get_elem?, length, ltb, leb, if◌then◌else◌, take,
}
use inc.Prelude.Word.{u8, u32}
use inc.Byte.{store_all}
use inc.Nalu.{NalUnit}
use inc.Mp4box.{htobe32, le32type, le16, le32}

-- `buf` with the index `i`.
abbrev pub Cursor : Type 0
Cursor = List ℕ × ℕ

-- `buf[i++] = b0; buf[i++] = b1; …`
unfoldable pub emit : Cursor → List ℕ → Option Cursor
emit (buf, i) bs = do m ← store_all buf i bs; some (m, i + length bs)

-- `memcpy(&buf[i], unit.data, unit.size); i += unit.size`
unfoldable pub copy : Cursor → NalUnit → Option Cursor
copy c v = if leb v.size (length (v.bytes)) then emit c (take v.size v.bytes) else none

-- `unit.size > k ? unit.data[k] : 0`
pub byte_or_zero : NalUnit → ℕ → Option ℕ
byte_or_zero v k = if ltb k v.size then get_elem? v.bytes k else some 0

-- The arrays of H.264: `(size << 8) & 0xff` is written as the high byte of the length.
unfoldable pub avcc_units : Cursor → NalUnit → NalUnit → Option Cursor
avcc_units c sps pps = do
  c1 ←
      emit c
        (u8 (bit_or (0x7 * 2 ^ 5) 1) ∷ bit_and (sps.size * 2 ^ 8) 0xff ∷ bit_and sps.size 0xff ∷ [])
  c2 ← copy c1 sps
  c3 ← emit c2 (1 ∷ bit_and (pps.size * 2 ^ 8) 0xff ∷ bit_and pps.size 0xff ∷ [])
  copy c3 pps

unfoldable pub avcc_marshal : List ℕ → List NalUnit → Option (List ℕ × ℕ)
avcc_marshal buf units = do
  sps ← get_elem? units 0
  pps ← get_elem? units 1
  avc_profile ← byte_or_zero sps 1
  profile_compat ← byte_or_zero sps 2
  avc_level ← byte_or_zero sps 3
  m ←
      store_all buf 4
        (le32 (le32type 97 118 99 67) ++ (1 ∷ avc_profile ∷ profile_compat ∷ avc_level ∷ 0xFF ∷ []))
  c ← avcc_units (m, 13) sps pps
  r ← store_all (c.0) 0 (le32 (htobe32 (u32 (c.1))))
  some (r, c.1)

-- One array of H.265: its type, the number 1, the length and the unit.
unfoldable pub hvcc_unit : Cursor → ℕ → NalUnit → Option Cursor
hvcc_unit c type v = do
  c1 ← emit c (type ∷ 0x00 ∷ 0x01 ∷ bit_and (v.size / 2 ^ 8) 0xff ∷ bit_and v.size 0xff ∷ [])
  copy c1 v

abbrev pub sizeof_hvcc : ℕ
sizeof_hvcc = 31

-- The members that are assigned, on a buffer of zeros: the two bit fields of the profile and of
-- the layers are the bytes 1 and 3, and the frame rate between them stays.
unfoldable pub hvcc_marshal : List ℕ → List NalUnit → Option (List ℕ × ℕ)
hvcc_marshal buf units = do
  sps ← get_elem? units 0
  pps ← get_elem? units 1
  vps ← get_elem? units 2
  m ← store_all buf 4 (
      le32 (le32type 104 118 99 67)
      ++ (1 ∷ 1 ∷ [])
      ++ le32 0x60
      ++ le32 0
      ++ le16 0
      ++ (0 ∷ [])
      ++ le16 0
      ++ (0 ∷ 0 ∷ 0 ∷ 0 ∷ []))
  m' ← store_all m 29 (3 ∷ 3 ∷ [])
  c1 ← hvcc_unit (m', sizeof_hvcc) 32 vps
  c2 ← hvcc_unit c1 33 sps
  c3 ← hvcc_unit c2 34 pps
  r ← store_all (c3.0) 0 (le32 (htobe32 (u32 (c3.1))))
  some (r, c3.1)
