-- ===== src/Fmp4.antt =====
-- stream/fmp4.hpp, `libfile::FMp4`: a file of ftyp, moov, and a moof and an mdat for each frame.
pub mod Fragments
pub mod Running
pub mod Head
pub mod Starting
pub mod Closing
pub mod ZeroTime
mod Tests
use inc.Prelude.{
  ℕ, ◌+◌, ◌-◌, ◌*◌, ◌^◌, List, [], ◌∷◌, ◌++◌, Bool, true, false, ◌&&◌, Option, none, some, ◌>>=◌,
  bit_or, ltb, ◌==◌, if◌then◌else◌,
}
use inc.Prelude.Int.{ℤ, pos, negsuc}
use inc.Prelude.Word.{u32}
use inc.Nalu.{NalUnit}
use inc.Mp4box.{htobe32, le32, le32type}
use inc.Mp4box.Boxes.{ftyp_bytes, moov_bytes, words}
use inc.Mp4box.Track.{Trak, make_trak, make_video, make_audio, marshal}
use inc.Output.{
  File, new_file, fwrite, fseek, written, bytes_at, box_at, mdat_type, Cut, frame_data,
}

-- `_version_flag`.
unfoldable pub version_flag : ℕ → ℕ → ℕ
version_flag v f = bit_or (u32 (v * 2 ^ 24)) f

-- `trex` of a track with the members that `Marshal` assigns, and three that stay zero.
unfoldable pub trex_bytes : ℕ → List ℕ
unfolding version_flag
trex_bytes id = words (
    htobe32 32
    ∷ le32type 116 114 101 120
    ∷ htobe32 (version_flag 0 0)
    ∷ htobe32 id
    ∷ htobe32 1
    ∷ 0
    ∷ 0
    ∷ 0
    ∷ [])

-- `mvex::Marshal`.
unfoldable pub mvex_bytes : List ℕ
unfolding trex_bytes
mvex_bytes = words (htobe32 72 ∷ le32type 109 118 101 120 ∷ []) ++ (trex_bytes 1 ++ trex_bytes 2)

abbrev pub sizeof_mvex : ℕ
sizeof_mvex = 72

-- `moof` with the header of mdat, all members in order.
pub record Moof : Type 0 where
  pub size : ℕ
  pub type : ℕ
  pub mfhd_size : ℕ
  pub mfhd_type : ℕ
  pub mfhd_verflags : ℕ
  pub sequence_number : ℕ
  pub traf_size : ℕ
  pub traf_type : ℕ
  pub tfhd_size : ℕ
  pub tfhd_type : ℕ
  pub tfhd_verflags : ℕ
  pub track_id : ℕ
  pub tfdt_size : ℕ
  pub tfdt_type : ℕ
  pub tfdt_verflags : ℕ
  pub decode_time : ℕ
  pub trun_size : ℕ
  pub trun_type : ℕ
  pub trun_verflags : ℕ
  pub sample_count : ℕ
  pub data_offset : ℕ
  pub duration : ℕ
  pub sample_size : ℕ
  pub flags : ℕ
  pub time_offset : ℕ
  pub mdat_size : ℕ
  pub mdat : ℕ

abbrev pub new_moof : Moof
new_moof = record {
  size = 0;
  type = 0;
  mfhd_size = 0;
  mfhd_type = 0;
  mfhd_verflags = 0;
  sequence_number = 0;
  traf_size = 0;
  traf_type = 0;
  tfhd_size = 0;
  tfhd_type = 0;
  tfhd_verflags = 0;
  track_id = 0;
  tfdt_size = 0;
  tfdt_type = 0;
  tfdt_verflags = 0;
  decode_time = 0;
  trun_size = 0;
  trun_type = 0;
  trun_verflags = 0;
  sample_count = 0;
  data_offset = 0;
  duration = 0;
  sample_size = 0;
  flags = 0;
  time_offset = 0;
  mdat_size = 0;
  mdat = 0;
}

-- `moof::Marshal`: the members that are the same for every frame.
unfoldable pub moof_marshal : Moof → Moof
unfolding version_flag
moof_marshal m = record m {
  size = htobe32 100;
  type = le32type 109 111 111 102;
  mfhd_size = htobe32 16;
  mfhd_type = le32type 109 102 104 100;
  mfhd_verflags = htobe32 (version_flag 0 0);
  traf_size = htobe32 76;
  traf_type = le32type 116 114 97 102;
  tfhd_size = htobe32 16;
  tfhd_type = le32type 116 102 104 100;
  tfhd_verflags = htobe32 (version_flag 0 0x020000);
  tfdt_size = htobe32 16;
  tfdt_type = le32type 116 102 100 116;
  tfdt_verflags = htobe32 (version_flag 0 0);
  trun_size = htobe32 36;
  trun_type = le32type 116 114 117 110;
  trun_verflags = htobe32 (version_flag 1 0xf01);
  data_offset = htobe32 108;
  sample_count = htobe32 1;
  time_offset = 0;
  mdat = mdat_type;
}

-- The struct in memory.
abbrev pub moof_bytes : Moof → List ℕ
moof_bytes m = words (
    m.size ∷ m.type ∷ m.mfhd_size ∷ m.mfhd_type ∷ m.mfhd_verflags ∷ m.sequence_number ∷ m.traf_size
    ∷ m.traf_type ∷ m.tfhd_size ∷ m.tfhd_type ∷ m.tfhd_verflags ∷ m.track_id ∷ m.tfdt_size
    ∷ m.tfdt_type ∷ m.tfdt_verflags ∷ m.decode_time ∷ m.trun_size ∷ m.trun_type ∷ m.trun_verflags
    ∷ m.sample_count ∷ m.data_offset ∷ m.duration ∷ m.sample_size ∷ m.flags ∷ m.time_offset
    ∷ m.mdat_size ∷ m.mdat ∷ [])

-- What a writer has besides the file. Times are 64-bit words.
pub record Movie : Type 0 where
  pub firts : ℕ
  pub lsts : ℕ
  pub seq : ℕ
  pub moof : Moof

abbrev pub new_movie : Movie
new_movie = record { firts = 0; lsts = 0; seq = 0; moof = new_moof }

pub record Fmp4 : Type 0 where
  pub file : Option File
  pub movie : Movie

abbrev pub new_fmp4 : Fmp4
new_fmp4 = record { file = none; movie = new_movie }

-- `Open`, by whether `fopen` succeeds.
unfoldable pub open_file : Bool → Fmp4 → Fmp4 × Bool
open_file ok m = (record m { file = if ok then some new_file else none }, ok)

-- The difference of two times, as the 32 bits that are written.
abbrev pub since : ℕ → ℕ → ℕ
since ts before = htobe32 (u32 (ts + 2 ^ 64 - before))

-- `WriteFtypMoov` at the time `now`.
unfoldable pub write_ftyp_moov : ℕ → List NalUnit → File → Option File
write_ftyp_moov now us f = do
  t ← make_video make_trak us
  let (tv, (vlen, _)) = marshal t
  let (ta, (alen, _)) = marshal (make_audio make_trak)
  video ← box_at tv.stsdv vlen
  audio ← box_at ta.stsdv alen
  let moov = fwrite (moov_bytes now 0 (vlen + sizeof_mvex) alen) (fwrite ftyp_bytes f)
  some (fwrite audio (fwrite video (fwrite mvex_bytes moov)))

-- The first key frame begins the file.
unfoldable pub begin_file : ℕ → ℕ → ℕ → List NalUnit → File → Movie → Option (File × Movie)
begin_file now ts ftype us f v =
    if v.firts == 0 && ftype == 1
    then (write_ftyp_moov now us f >>= λ g.
        some (g, record v { moof = moof_marshal v.moof; firts = ts; lsts = ts }))
    else some (f, v)

-- The members of `moof_` that belong to one frame.
unfoldable pub set_frame : ℕ → ℕ → ℕ → Movie → Moof
set_frame ts ftype len v =
    let m : Moof = record (v.moof) {
      sequence_number = htobe32 v.seq;
      decode_time = since ts v.firts;
      duration = since ts v.lsts;
    } in
    if ltb ftype 3
    then record m {
      sample_size = htobe32 (u32 (len + 4));
      mdat_size = htobe32 (u32 (len + 8 + 4));
      flags = htobe32 (if ftype == 1 then 0x02000000 else 0x00010000);
      track_id = htobe32 1;
    }
    else record m {
      sample_size = htobe32 (u32 len);
      mdat_size = htobe32 (u32 (len + 8));
      track_id = htobe32 2;
      flags = 0;
    }

-- The rest of `WriteFrame`, in an open file.
unfoldable pub add_frame : ℕ → ℕ → Cut → File → Movie → Option ((File × Movie) × ℤ)
add_frame ts ftype c f v = do
  let m = set_frame ts ftype c.size v
  let headed = fwrite (moof_bytes m) f
  let prefixed = if ftype == 3 then headed else fwrite (le32 (htobe32 (u32 c.size))) headed
  bs ← bytes_at c.bytes c.size
  some (
    (fwrite bs prefixed, record v { seq = u32 (v.seq + 1); lsts = ts; moof = m }),
    written c.size,
  )

unfoldable pub write_on : ℕ → ℕ → ℕ → List ℕ → ℕ → File → Movie → Option ((File × Movie) × ℤ)
write_on now ts ftype p len f v = do
  c ← frame_data ftype p len
  s ← begin_file now ts ftype c.units f v
  if s.1.firts == 0 then some (s, pos 0) else add_frame ts ftype c s.0 s.1

abbrev pub store : (File × Movie) × ℤ → Fmp4 × ℤ
store ((f, v), r) = (record { file = some f; movie = v }, r)

-- `WriteFrame` of `len` bytes at `p`, at the time `now`.
unfoldable pub write_frame : ℕ → ℕ → ℕ → List ℕ → ℕ → Fmp4 → Option (Fmp4 × ℤ)
write_frame now ts ftype p len m = elim m.file [
  | none ↦ some (m, negsuc 0)
  | some f ↦ write_on now ts ftype p len f m.movie >>= λ s. some (store s)
]

-- `Close`, with what is then in the file that was open: the duration is written over.
unfoldable pub close : Fmp4 → Fmp4 × Option (List ℕ)
close m = elim m.file [
  | none ↦ (m, none)
  | some f ↦ (
    record m { file = none },
    some (fwrite (le32 (since m.movie.lsts m.movie.firts)) (fseek 60 f)).content,
  )
]
