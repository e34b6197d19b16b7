-- ===== src/Mp4box/Boxes.antt =====
-- stream/mp4box.hpp: `ftyp`, `trak` with what it holds, and `moov`.
use inc.Prelude.{ℕ, ◌+◌, ◌*◌, ◌^◌, List, [], ◌∷◌, ◌++◌, ltb, ◌==◌, if◌then◌else◌}
use inc.Prelude.Word.{u16, u32}
use inc.Mp4box.{htobe32, le32type, le16, le32, matrix}
use inc.Mp4box.Entries.{zeros}

abbrev pub sizeof_ftyp : ℕ
sizeof_ftyp = 28

-- `ftyp::Marshal`, every member of which is assigned.
unfoldable pub ftyp_bytes : List ℕ
ftyp_bytes =
    le32 (htobe32 sizeof_ftyp)
    ++ le32 (le32type 102 116 121 112)
    ++ le32 (le32type 105 115 111 109)
    ++ le32 (htobe32 512)
    ++ le32 (le32type 105 115 111 109)
    ++ le32 (le32type 105 115 111 50)
    ++ le32 (le32type 109 112 52 49)

abbrev pub sizeof_tkhd : ℕ
sizeof_tkhd = 92

abbrev pub sizeof_mdhd : ℕ
sizeof_mdhd = 32

abbrev pub sizeof_hdlr : ℕ
sizeof_hdlr = 48

abbrev pub sizeof_vmhd : ℕ
sizeof_vmhd = 20

abbrev pub sizeof_url : ℕ
sizeof_url = 12

abbrev pub sizeof_dref : ℕ
sizeof_dref = 28

abbrev pub sizeof_dinf : ℕ
sizeof_dinf = 36

abbrev pub sizeof_stbl : ℕ
sizeof_stbl = 8

abbrev pub sizeof_minf : ℕ
sizeof_minf = 72

abbrev pub sizeof_mdia : ℕ
sizeof_mdia = 160

abbrev pub sizeof_trak : ℕ
sizeof_trak = 260

abbrev pub words : List ℕ → List ℕ
words [] = []
words (w ∷ ws) = le32 w ++ words ws

-- The members of `trak` that code outside of `trak::Marshal` sets: the size of the picture, which
-- `Marshal` turns in place, and the two durations.
pub record TrakBox : Type 0 where
  pub width : ℕ
  pub height : ℕ
  pub duration : ℕ
  pub media_duration : ℕ

unfoldable pub trak_marshal : TrakBox → TrakBox
trak_marshal t = record t {
  width = htobe32 (u32 (t.width * 2 ^ 16));
  height = htobe32 (u32 (t.height * 2 ^ 16));
}

unfoldable pub tkhd_bytes : TrakBox → ℕ → List ℕ
tkhd_bytes t id =
    le32 (htobe32 sizeof_tkhd)
    ++ le32 (le32type 116 107 104 100)
    ++ (0 ∷ 0 ∷ 0 ∷ 0xF ∷ [])
    ++ zeros 8
    ++ le32 (htobe32 id)
    ++ zeros 4
    ++ le32 (t.duration)
    ++ zeros 16
    ++ words matrix
    ++ le32 (t.width)
    ++ le32 (t.height)

unfoldable pub mdhd_bytes : TrakBox → List ℕ
mdhd_bytes t =
    le32 (htobe32 sizeof_mdhd)
    ++ le32 (le32type 109 100 104 100)
    ++ zeros 12
    ++ le32 (htobe32 1000)
    ++ le32 (t.media_duration)
    ++ le16 0xc455
    ++ zeros 2

-- The handler's type and name: "VideoHandler" or "SoundHandler", ended by zeros.
unfoldable pub hdlr_bytes : ℕ → List ℕ
hdlr_bytes id =
    le32 (htobe32 sizeof_hdlr)
    ++ le32 (le32type 104 100 108 114)
    ++ zeros 8
    ++ (if id == 1
        then le32 (le32type 118 105 100 101)
          ++ zeros 12
          ++ (86 ∷ 105 ∷ 100 ∷ 101 ∷ 111 ∷ 72 ∷ 97 ∷ 110 ∷ 100 ∷ 108 ∷ 101 ∷ 114 ∷ [])
        else le32 (le32type 115 111 117 110)
          ++ zeros 12
          ++ (83 ∷ 111 ∷ 117 ∷ 110 ∷ 100 ∷ 72 ∷ 97 ∷ 110 ∷ 100 ∷ 108 ∷ 101 ∷ 114 ∷ []))
    ++ zeros 4

unfoldable pub vmhd_bytes : ℕ → List ℕ
vmhd_bytes id =
    le32 (htobe32 sizeof_vmhd)
    ++ le32 (if id == 1 then le32type 118 109 104 100 else le32type 115 109 104 100)
    ++ (0 ∷ 0 ∷ 0 ∷ 1 ∷ [])
    ++ zeros 8

unfoldable pub dinf_bytes : List ℕ
dinf_bytes =
    le32 (htobe32 sizeof_dinf)
    ++ le32 (le32type 100 105 110 102)
    ++ le32 (htobe32 sizeof_dref)
    ++ le32 (le32type 100 114 101 102)
    ++ zeros 4
    ++ le32 (htobe32 1)
    ++ le32 (htobe32 sizeof_url)
    ++ le32 (le32type 117 114 108 32)
    ++ (0 ∷ 0 ∷ 0 ∷ 1 ∷ [])

-- The header of a box that holds others; `length` is that of the sample table behind it.
abbrev pub header : ℕ → ℕ → ℕ → List ℕ
header own length type = le32 (htobe32 (u32 (own + length))) ++ le32 type

-- The bytes of a `trak` that was marshalled for a table of `length` bytes.
unfoldable pub trak_bytes : TrakBox → ℕ → ℕ → List ℕ
trak_bytes t id length =
    header sizeof_trak length (le32type 116 114 97 107)
    ++ (tkhd_bytes t id
        ++ (header sizeof_mdia length (le32type 109 100 105 97)
            ++ (mdhd_bytes t
                ++ (hdlr_bytes id
                    ++ (header sizeof_minf length (le32type 109 105 110 102)
                        ++ (vmhd_bytes id
                            ++ (dinf_bytes
                                ++ header sizeof_stbl length (le32type 115 116 98 108))))))))

abbrev pub sizeof_mvhd : ℕ
sizeof_mvhd = 108

abbrev pub sizeof_moov : ℕ
sizeof_moov = 116

-- `moov::Marshal` at the time `now`; the duration is set outside.
unfoldable pub moov_bytes : ℕ → ℕ → ℕ → ℕ → List ℕ
moov_bytes now duration len1 len2 =
    le32 (htobe32 (u32 (sizeof_moov + len1 + len2)))
    ++ le32 (le32type 109 111 111 118)
    ++ le32 (htobe32 sizeof_mvhd)
    ++ le32 (le32type 109 118 104 100)
    ++ zeros 4
    ++ le32 (htobe32 (u32 now))
    ++ le32 (htobe32 (u32 now))
    ++ le32 (htobe32 1000)
    ++ le32 duration
    ++ le32 (htobe32 0x00010000)
    ++ le16 (u16 (htobe32 1))
    ++ zeros 10
    ++ words matrix
    ++ zeros 24
    ++ le32 (if ltb 0 len2 then htobe32 3 else htobe32 2)
