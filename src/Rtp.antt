-- ===== src/Rtp.antt =====
-- stream/rtp.hpp: `librtp::Packet`, which takes the payload of RTP packets out and joins the
-- fragments of a unit in a buffer.
-- A pointer is the list of the bytes from there to the end of the packet's memory; an access out
-- of it, and a length that has become negative, is `none`.
pub mod Fragments
mod Tests
use inc.Prelude.{
  ℕ, zero, suc, ◌+◌, ◌-◌, ◌*◌, ◌/◌, ◌%◌, ◌^◌, List, [], ◌∷◌, ◌++◌, Bool, true, false, ◌&&◌, ◌||◌,
  Option, none, some, ◌>>=◌, bit_and, bit_or, ltb, leb, ◌==◌, not, if◌then◌else◌, get_elem?, length,
  take, drop,
}
use inc.Prelude.Word.{u8, u16, u32}
use inc.Buffer.{Buffer, write, write_byte, empty}

-- `Uint16` and `Uint32` at the pointer; the second byte of `Uint32` is the first again.
unfoldable pub uint16 : List ℕ → Option ℕ
uint16 b = do b0 ← get_elem? b 0; b1 ← get_elem? b 1; some (u16 (bit_or (b0 * 2 ^ 8) b1))

unfoldable pub uint32 : List ℕ → Option ℕ
uint32 b = do
  b0 ← get_elem? b 0
  b2 ← get_elem? b 2
  b3 ← get_elem? b 3
  some (bit_or (bit_or (bit_or (u32 (b0 * 2 ^ 24)) (u32 (b0 * 2 ^ 16))) (b2 * 2 ^ 8)) b3)

pub record Header : Type 0 where
  pub csrc_len : ℕ
  pub extension : ℕ
  pub padding : ℕ
  pub version : ℕ
  pub payload_type : ℕ
  pub marker : ℕ
  pub seq : ℕ
  pub timestamp : ℕ
  pub ssrc : ℕ

pub record Packet : Type 0 where
  pub hr : Header
  pub payload : List ℕ
  pub size : ℕ

abbrev pub header_size : ℕ
header_size = 12

unfoldable pub unmarshal : List ℕ → ℕ → Option Packet
unmarshal b len = do
  b0 ← get_elem? b 0
  b1 ← get_elem? b 1
  seq ← uint16 (drop 2 b)
  timestamp ← uint32 (drop 4 b)
  ssrc ← uint32 (drop 8 b)
  if ltb len header_size
      then none
      else some (record {
        hr = record {
          csrc_len = b0 / 2 ^ 4;
          extension = bit_and (b0 / 2 ^ 3) 0x01;
          padding = bit_and (b0 / 2 ^ 2) 0x01;
          version = bit_and b0 0x03;
          payload_type = bit_and b1 0x7F;
          marker = b1 / 2 ^ 7;
          seq = seq;
          timestamp = timestamp;
          ssrc = ssrc;
        };
        payload = drop header_size b;
        size = len - header_size;
      })

-- `b.Write(p, n)`, of which the count is not used.
pub append : Buffer → List ℕ → Option Buffer
append b p = do r ← write true b p; some (r.0)

pub append_byte : Buffer → ℕ → Option Buffer
append_byte b x = do r ← write_byte b x; some (r.0)

-- `data += k; size -= k`.
pub skip : Packet → ℕ → Option Packet
skip p k =
    if ltb (p.size) k
    then none
    else some (record p { payload = drop k (p.payload); size = p.size - k })

-- `b.Write((char *)data, size)`.
pub append_payload : Buffer → Packet → Option Buffer
append_payload b p =
    if leb (p.size) (length (p.payload)) then append b (take (p.size) (p.payload)) else none

abbrev pub nalu_header : List ℕ
nalu_header = 0x00 ∷ 0x00 ∷ 0x00 ∷ 0x01 ∷ []

-- The two flags of a fragment.
abbrev pub flags_of : ℕ → ℕ
flags_of n = bit_or (bit_and n 0x80) (bit_and n 0x40)

abbrev pub append_when : Bool → Buffer → List ℕ → Option Buffer
append_when c b p = if c then append b p else some b

-- The start code and the header of a unit whose first fragment this is.
pub begin_avc : List ℕ → Buffer → ℕ → Option Buffer
begin_avc e b ntype = do
  b1 ← append_when (ntype == 5 && empty b) b e
  b2 ← append b1 nalu_header
  append_byte b2 (bit_or ntype 0x60)

-- `UnmarshalAVC`: what is returned, the packet and the buffer.
pub unmarshal_avc : Packet → List ℕ → Buffer → Option (ℕ × (Packet × Buffer))
unmarshal_avc p e b = do
  d0 ← get_elem? (p.payload) 0
  d1 ← get_elem? (p.payload) 1
  let fragment = bit_and d0 0x1f == 28
  let sflag = flags_of d1
  p' ← (if fragment then skip p 2 else some p)
  let ntype = bit_and (if fragment then d1 - sflag else d0) 0x1F
  b1 ← append_when (not fragment) b nalu_header
  b2 ← (if fragment && ltb 0 (bit_and sflag 0x80) then begin_avc e b1 ntype else some b1)
  b3 ← append_payload b2 p'
  some (if p.hr.marker == 1 && (ntype == 1 || ntype == 5) then ntype else 0, (p', b3))

pub begin_hvc : List ℕ → Buffer → ℕ → Option Buffer
begin_hvc e b ntype = do
  b1 ← append_when (bit_and ntype 0x7e / 2 == 19 && empty b) b e
  b2 ← append b1 nalu_header
  b3 ← append_byte b2 ntype
  append_byte b3 0x01

-- `UnmarshalHVC`; the last value of `ntype` is used only where it is returned.
pub unmarshal_hvc : Packet → List ℕ → Buffer → Option (ℕ × (Packet × Buffer))
unmarshal_hvc p e b = do
  d0 ← get_elem? (p.payload) 0
  let fragment = d0 / 2 == 49
  d2 ← (if fragment then get_elem? (p.payload) 2 else some 0)
  let sflag = if fragment then flags_of d2 else 0
  p' ← (if fragment then skip p 3 else some p)
  b1 ← append_when (not fragment) b nalu_header
  b2 ←
      (if fragment && ltb 0 (bit_and sflag 0x80)
        then begin_hvc e b1 (u8 ((d2 - sflag) * 2))
        else some b1)
  b3 ← append_payload b2 p'
  if p.hr.marker == 1 && ltb 0 (bit_and sflag 0x40)
      then (do first ← get_elem? (b3.v) 4; some (bit_and first 0x7e / 2, (p', b3)))
      else some (0, (p', b3))

pub decode : Packet → List ℕ → Buffer → Bool → Option (ℕ × (Packet × Buffer))
decode p e b hevc = if hevc then unmarshal_hvc p e b else unmarshal_avc p e b
