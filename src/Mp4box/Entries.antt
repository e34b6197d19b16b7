-- ===== src/Mp4box/Entries.antt =====
-- stream/mp4box.hpp: `stsdv` and `stsda`, the sample descriptions of a video and an audio track.
use inc.Prelude.{ℕ, ◌+◌, ◌*◌, ◌/◌, ◌^◌, List, [], ◌∷◌, ◌++◌, replicate}
use inc.Prelude.Word.{u16, u32}
use inc.Mp4box.{htobe32, le32type, le16, le32}

abbrev pub sizeof_avc1 : ℕ
sizeof_avc1 = 86

abbrev pub sizeof_stsdv : ℕ
sizeof_stsdv = 102

-- The members of `avc1` that the code assigns.
pub record Avc1 : Type 0 where
  pub size : ℕ
  pub type : ℕ
  pub data_refidx : ℕ
  pub width : ℕ
  pub height : ℕ
  pub horiz_res : ℕ
  pub vert_res : ℕ
  pub frame_count : ℕ
  pub depth : ℕ
  pub predefined : ℕ

pub record Stsdv : Type 0 where
  pub size : ℕ
  pub type : ℕ
  pub entry_count : ℕ
  pub avc1 : Avc1

abbrev pub zeros : ℕ → List ℕ
zeros n = replicate n 0

abbrev pub avc1_bytes : Avc1 → List ℕ
avc1_bytes a =
    le32 (a.size)
    ++ le32 (a.type)
    ++ zeros 6
    ++ le16 (a.data_refidx)
    ++ zeros 16
    ++ le16 (a.width)
    ++ le16 (a.height)
    ++ le32 (a.horiz_res)
    ++ le32 (a.vert_res)
    ++ zeros 4
    ++ le16 (a.frame_count)
    ++ zeros 32
    ++ le16 (a.depth)
    ++ le16 (a.predefined)

abbrev pub stsdv_bytes : Stsdv → List ℕ
stsdv_bytes b =
    le32 (b.size) ++ le32 (b.type) ++ zeros 4 ++ le32 (b.entry_count) ++ avc1_bytes (b.avc1)

-- `u16(HTOBE32(v) >> 16)`.
abbrev pub high16 : ℕ → ℕ
high16 v = u16 (htobe32 v / 2 ^ 16)

-- `Marshal(n)`, on the type, the width and the height that were assigned outside.
unfoldable pub stsdv_marshal : ℕ → ℕ → ℕ → ℕ → Stsdv
stsdv_marshal type width height n = record {
  size = htobe32 (u32 (n + sizeof_stsdv));
  type = le32type 115 116 115 100;
  entry_count = htobe32 1;
  avc1 = record {
    size = htobe32 (u32 (n + sizeof_avc1));
    type = type;
    data_refidx = high16 1;
    width = high16 width;
    height = high16 height;
    horiz_res = htobe32 0x480000;
    vert_res = htobe32 0x480000;
    frame_count = high16 1;
    depth = high16 24;
    predefined = 0xFFFF;
  };
}

abbrev pub sizeof_esds : ℕ
sizeof_esds = 39

abbrev pub sizeof_mp4a : ℕ
sizeof_mp4a = 75

abbrev pub sizeof_stsda : ℕ
sizeof_stsda = 91

-- The descriptors, with the buffer size and the bit rates left at 0.
unfoldable pub esds_bytes : List ℕ
esds_bytes =
    le32 (htobe32 sizeof_esds)
    ++ le32 (le32type 101 115 100 115)
    ++ zeros 4
    ++ (0x03 ∷ 25 ∷ [])
    ++ le16 0x0200
    ++ (0x00 ∷ 0x04 ∷ 17 ∷ 0x40 ∷ 0x15 ∷ [])
    ++ zeros 11
    ++ (0x05 ∷ 2 ∷ [])
    ++ le16 0x9015
    ++ (0x06 ∷ 1 ∷ 0x02 ∷ [])

unfoldable pub mp4a_bytes : List ℕ
mp4a_bytes =
    le32 (htobe32 sizeof_mp4a)
    ++ le32 (le32type 109 112 52 97)
    ++ zeros 6
    ++ le16 (high16 1)
    ++ zeros 8
    ++ le16 (high16 1)
    ++ le16 (high16 16)
    ++ zeros 4
    ++ le32 (htobe32 (u32 (8000 * 2 ^ 16)))
    ++ esds_bytes

-- `stsda::Marshal` on a zero struct.
unfoldable pub stsda_bytes : List ℕ
stsda_bytes =
    le32 (htobe32 sizeof_stsda)
    ++ le32 (le32type 115 116 115 100)
    ++ zeros 4
    ++ le32 (htobe32 1)
    ++ mp4a_bytes
