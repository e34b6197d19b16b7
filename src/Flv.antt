-- ===== src/Flv.antt =====
-- stream/flv.hpp: `libflv::Packet`, which puts media data behind a gap of `offset_` bytes in a
-- buffer and the FLV tag's header in the gap. An access out of a block is `none`.
pub mod Pack
pub mod Sets
mod Tests
use inc.Prelude.{
  ℕ, zero, suc, ◌+◌, ◌-◌, ◌*◌, ◌/◌, ◌^◌, List, [], ◌∷◌, ◌++◌, Bool, true, Option, none, some, ◌>>=◌,
  bit_and, ltb, leb, ◌==◌, if◌then◌else◌, get_elem?, length, take, replicate,
}
use inc.Prelude.Word.{u32}
use inc.Byte.{Slice, make_slice, offset, store_all, put_u8, put_le_u32}
use inc.Buffer.{Buffer, reset}
use inc.Nalu.{NalUnit, sort}
use inc.Mp4box.Config.{Cursor, emit, copy}

pub record Packet : Type 0 where
  pub is264 : Bool
  pub gap : ℕ
  pub buf : Buffer

abbrev pub make_packet : ℕ → Packet
make_packet off = record { is264 = true; gap = off; buf = record { cap = 0; v = [] } }

-- The length of a unit, high byte first.
abbrev pub size_bytes : NalUnit → List ℕ
size_bytes v = bit_and (v.size / 2 ^ 8) 0xff ∷ bit_and v.size 0xff ∷ []

-- `i += k`.
abbrev pub advance : Cursor → ℕ → Cursor
advance c k = (c.0, c.1 + k)

-- The AVCDecoderConfigurationRecord, on a block of zeros.
pub avc_sets : Cursor → List NalUnit → Option Cursor
avc_sets c units = do
  sps ← get_elem? units 0
  pps ← get_elem? units 1
  d1 ← get_elem? sps.bytes 1
  d2 ← get_elem? sps.bytes 2
  d3 ← get_elem? sps.bytes 3
  c1 ← emit c (0x17 ∷ [])
  c2 ← emit (advance c1 4) (0x01 ∷ d1 ∷ d2 ∷ d3 ∷ 0xff ∷ 0xe1 ∷ size_bytes sps)
  c3 ← copy c2 sps
  c4 ← emit c3 (0x01 ∷ size_bytes pps)
  copy c4 pps

-- One array of H.265.
pub hevc_set : Cursor → ℕ → NalUnit → Option Cursor
hevc_set c type v = do c1 ← emit c (type ∷ 0 ∷ 1 ∷ size_bytes v); copy c1 v

-- `units[0].data[1]` to `units[0].data[12]`.
pub profile_bytes : NalUnit → Option (List ℕ)
profile_bytes v =
    if leb 13 (length v.bytes)
    then elim v.bytes [ [] ↦ none | x ∷ xs ↦ some (take 12 xs) ]
    else none

pub hevc_sets : Cursor → List NalUnit → Option Cursor
hevc_sets c units = do
  sps ← get_elem? units 0
  pps ← get_elem? units 1
  c1 ← emit c (0x1C ∷ [])
  profile ← profile_bytes sps
  c2 ← emit (advance c1 5) profile
  c3 ← emit (advance c2 9) (0x03 ∷ [])
  vps ← get_elem? units 3
  c4 ← hevc_set c3 0x20 vps
  c5 ← hevc_set c4 0x21 sps
  hevc_set c5 0x22 pps

-- `Marshal(units)`: the end, where `out` is copied behind the gap, then from the sorted units on,
-- then the whole.
pub store_sets : Packet → Bool → Cursor → Option Packet
store_sets p avc c = do
  let b = reset (reset (p.buf) 0) (c.1 + p.gap)
  m ← store_all (b.v) (p.gap) (take (c.1) (c.0))
  some (record p { is264 = avc; buf = record b { v = m } })

pub continue_sets : Packet → List NalUnit → Option Packet
continue_sets p units = do
  let avc = length units == 2
  let out : Cursor = (replicate 512 0, 0)
  c ← (if avc then avc_sets out units else hevc_sets out units)
  store_sets p avc c

pub marshal_sets : Packet → List NalUnit → Option Packet
marshal_sets p nalus = do units ← sort nalus; continue_sets p units

-- `Marshal(data, len, key)`: the three bytes behind the second are left as they are.
pub marshal_frame : Packet → List ℕ → Bool → Option Packet
marshal_frame p body key = do
  let len = length body
  let b = reset (p.buf) (p.gap + 9 + len)
  let first = if p.is264 then (if key then 0x17 else 0x27) else (if key then 0x1C else 0x2C)
  m ← store_all (b.v) (p.gap) (first ∷ 0x01 ∷ [])
  m' ← store_all m (p.gap + 5) (
      bit_and (len / 2 ^ 24) 0xff
      ∷ bit_and (len / 2 ^ 16) 0xff
      ∷ bit_and (len / 2 ^ 8) 0xff
      ∷ bit_and len 0xff
      ∷ [])
  m'' ← store_all m' (p.gap + 9) body
  some (record p { buf = record b { v = m'' } })

-- `Marshal(data, len)`.
pub marshal_audio : Packet → List ℕ → Option Packet
marshal_audio p body = do
  let b = reset (p.buf) (p.gap + 2 + length body)
  m ← store_all (b.v) (p.gap) (0xAF ∷ (if length body == 2 then 0x00 else 0x01) ∷ body)
  some (record p { buf = record b { v = m } })

-- `Marshal(s)`.
pub marshal_audio_info : Packet → List ℕ → Option Packet
marshal_audio_info p s = do
  let b = reset (p.buf) (p.gap + 2 + length s)
  m ← store_all (b.v) (p.gap) (0xAF ∷ 0x00 ∷ s)
  some (record p { buf = record b { v = m } })

-- `Pack(tag, ts)`: the packet and the slice that is returned. The gap holds 11 bytes or more.
pub pack : Packet → ℕ → ℕ → Option (Packet × Slice)
pack p tag ts = do
  let size = length (p.buf.v)
  let dlen = size - p.gap + 11
  let s = offset (make_slice (p.buf.v) 0) (p.gap - 11)
  s0 ← put_u8 s tag
  s1 ← put_u8 (s0.0) (dlen / 2 ^ 16)
  s2 ← put_u8 (s1.0) (dlen / 2 ^ 8)
  s3 ← put_u8 (s2.0) dlen
  s4 ← put_u8 (s3.0) (ts / 2 ^ 16)
  s5 ← put_u8 (s4.0) (ts / 2 ^ 8)
  s6 ← put_u8 (s5.0) ts
  s7 ← put_u8 (s6.0) (ts / 2 ^ 24)
  s8 ← put_u8 (s7.0) 0x00
  s9 ← put_u8 (s8.0) 0x00
  s10 ← put_u8 (s9.0) 0x00
  r ← put_le_u32 (s10.0) (u32 size)
  some (record p { buf = record (p.buf) { v = r.0.mem } }, r.0)
