-- ===== src/Mp4box/Track.antt =====
-- stream/mp4box.hpp, class `Trak`: the samples of a track, and the `trak` box that describes them.
-- Times are 64-bit words and a subtraction of two wraps.
pub mod Samples
pub mod Layout
pub mod Video
pub mod Moov
use inc.Prelude.{
  ℕ, zero, suc, ◌+◌, ◌-◌, ◌*◌, ◌/◌, ◌^◌, List, [], ◌∷◌, ◌++◌, Bool, true, false, Option, none, some,
  ◌>>=◌, length, get_elem?, ◌==◌, if◌then◌else◌, take,
}
use inc.Prelude.Word.{u16, u32}
use inc.Prelude.Int.{pos}
use inc.Sps.{Info}
use inc.Sps.Choice.{unit_decode_sps}
use inc.Nalu.{NalUnit, sort}
use inc.Mp4box.{htobe32, le32type}
use inc.Mp4box.Tables.{
  Stts, stts_bytes, stts_marshal, Table, table_bytes, stss_marshal, stco_marshal, stsz_marshal,
  stsz_bytes, stsc_bytes, stsc_marshal,
}
use inc.Mp4box.Entries.{zeros, stsdv_bytes, stsdv_marshal, stsda_bytes}
use inc.Mp4box.Boxes.{TrakBox, trak_marshal, trak_bytes, sizeof_trak, words}
use inc.Mp4box.Config.{avcc_marshal, hvcc_marshal}

-- `value[0]`, `value[1]` and `value[2]` are `sizes`, `offsets` and `keys`.
pub record Trak : Type 0 where
  pub id : ℕ
  pub box : TrakBox
  pub stts : Stts
  pub firts : ℕ
  pub lsts : ℕ
  pub stsdv : List ℕ
  pub sizes : List ℕ
  pub offsets : List ℕ
  pub keys : List ℕ

abbrev pub make_trak : Trak
make_trak = record {
  id = 0;
  box = record { width = 0; height = 0; duration = 0; media_duration = 0 };
  stts = record { size = 0; type = 0; count = 0; sample_counts = 0; sample_deltas = 0 };
  firts = 0;
  lsts = 0;
  stsdv = [];
  sizes = [];
  offsets = [];
  keys = [];
}

-- The track and the offset that is given by reference.
unfoldable pub append_sample : Trak → ℕ → ℕ → ℕ → Bool → Trak × ℕ
append_sample t ts offset length' key =
    let sizes' = t.sizes ++ (htobe32 length' ∷ []) in
    (
      record t {
        lsts = ts;
        firts = if t.firts == 0 then ts else t.firts;
        sizes = sizes';
        offsets = t.offsets ++ (htobe32 offset ∷ []);
        keys = if key then t.keys ++ (htobe32 (u32 (length sizes')) ∷ []) else t.keys;
      },
      u32 (offset + length'),
    )

-- `rdur`, and the sample table behind the descriptions.
abbrev pub rdur : Trak → ℕ
rdur t = u32 (t.lsts + 2 ^ 64 - t.firts)

unfoldable pub table_of : Trak → List ℕ
table_of t =
    let count = length (t.sizes) in
    stts_bytes (stts_marshal (t.stts) count (rdur t))
    ++ (stsc_bytes stsc_marshal
        ++ (stsz_bytes (stsz_marshal count)
            ++ (words (t.sizes)
                ++ (table_bytes (stco_marshal count)
                    ++ (words (t.offsets)
                        ++ (if t.id == 1
                            then table_bytes (stss_marshal (length (t.keys))) ++ words (t.keys)
                            else []))))))

-- `Trak::Marshal`: the track, the number returned and what is stored at `dur`.
unfoldable pub marshal : Trak → Trak × (ℕ × ℕ)
marshal t =
    let str = table_of t in
    let size = u32 (length (t.stsdv) + length str) in
    let box =
      trak_marshal
        (record (t.box) { duration = htobe32 (rdur t); media_duration = htobe32 (rdur t) }) in
    (
      record t {
        box = box;
        stts = stts_marshal (t.stts) (length (t.sizes)) (rdur t);
        stsdv = trak_bytes box (t.id) size ++ (t.stsdv ++ str);
      },
      (size + sizeof_trak, htobe32 (rdur t)),
    )

-- The decoder's configuration in a buffer of 256 bytes, and its length.
unfoldable pub configuration : List NalUnit → Option (List ℕ × ℕ)
configuration units =
    if length units == 2 then avcc_marshal (zeros 256) units else hvcc_marshal (zeros 256) units

-- `MakeVideo`: the parameter sets of the units, the size of the picture from the first of them, and
-- the description with the decoder's configuration behind it. A refused set leaves the size alone.
unfoldable pub make_video : Trak → List NalUnit → Option Trak
make_video t nalus = do
  units ← sort nalus
  sps ← get_elem? units 0
  info ← unit_decode_sps sps (t.box.width) (t.box.height) (pos 0)
  c ← configuration units
  let type = if length units == 2 then le32type 97 118 99 49 else le32type 104 118 99 49
  some (record t {
    id = 1;
    box = record (t.box) { width = info.width; height = info.height };
    stsdv =
        stsdv_bytes (stsdv_marshal type (u16 (info.width)) (u16 (info.height)) (c.1))
        ++ take (c.1) (c.0);
  })

-- `MakeAudio`.
unfoldable pub make_audio : Trak → Trak
make_audio t = record t { id = 2; stsdv = t.stsdv ++ stsda_bytes }
