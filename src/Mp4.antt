-- ===== src/Mp4.antt =====
-- stream/mp4.hpp, `libfile::Mp4`: a file of ftyp, mdat with the frames as they come, and moov,
-- which is written when the file is closed.
pub mod Recording
pub mod Running
pub mod Reading
pub mod Closing
pub mod Boxes
pub mod Listing
mod Tests
use inc.Prelude.{
  ℕ, ◌+◌, ◌-◌, ◌^◌, List, [], ◌++◌, Bool, true, false, ◌&&◌, Option, none, some, ◌>>=◌, ◌==◌,
  if◌then◌else◌,
}
use inc.Prelude.Int.{ℤ, pos, negsuc}
use inc.Prelude.Word.{u32}
use inc.Nalu.{NalUnit}
use inc.Mp4box.{htobe32, le32}
use inc.Mp4box.Boxes.{ftyp_bytes, sizeof_ftyp, moov_bytes}
use inc.Mp4box.Track.{Trak, make_trak, make_video, make_audio, append_sample, marshal}
use inc.Output.{
  File, new_file, fwrite, fseek, written, bytes_at, box_at, mdat_type, mdat_bytes, sizeof_mdat, Cut,
  frame_data,
}

-- `mdat_` and the tracks.
pub record Movie : Type 0 where
  pub size : ℕ
  pub type : ℕ
  pub trakv : Trak
  pub traka : Trak

abbrev pub new_movie : Movie
new_movie = record { size = 0; type = 0; trakv = make_trak; traka = make_trak }

-- `file_`, which is null until a file is open, and the rest.
pub record Mp4 : Type 0 where
  pub file : Option File
  pub movie : Movie

abbrev pub new_mp4 : Mp4
new_mp4 = record { file = none; movie = new_movie }

-- `Open`, by whether `fopen` succeeds.
unfoldable pub open_file : Bool → Mp4 → Mp4 × Bool
open_file ok m = (record m { file = if ok then some new_file else none }, ok)

-- `WriteFtyp`.
unfoldable pub write_ftyp : File → Movie → File × Movie
write_ftyp f v =
    let size = sizeof_ftyp + sizeof_mdat in
    (
      fwrite (mdat_bytes size mdat_type) (fwrite ftyp_bytes f),
      record v { size = size; type = mdat_type },
    )

-- The first key frame gives the video track its description and begins the file.
unfoldable pub begin_file : ℕ → List NalUnit → File → Movie → Option (File × Movie)
begin_file ftype us f v =
    if v.type == 0 && ftype == 1
    then (make_video v.trakv us >>= λ t. some (write_ftyp f (record v { trakv = t })))
    else some (f, v)

-- An audio frame, as it is.
unfoldable pub add_audio : ℕ → Cut → File → Movie → Option ((File × Movie) × ℤ)
add_audio ts c f v = do
  bs ← bytes_at c.bytes c.size
  let (t, size) = append_sample v.traka ts v.size (u32 c.size) false
  some ((fwrite bs f, record v { traka = t; size = size }), written c.size)

-- Any other frame, behind its length.
unfoldable pub add_video : ℕ → ℕ → Cut → File → Movie → Option ((File × Movie) × ℤ)
add_video ts ftype c f v = do
  bs ← bytes_at c.bytes c.size
  let (t, size) = append_sample v.trakv ts v.size (u32 (c.size + 4)) (ftype == 1)
  let prefixed = fwrite (le32 (htobe32 (u32 c.size))) f
  some ((fwrite bs prefixed, record v { trakv = t; size = size }), written c.size)

-- What `WriteFrame` does with the frame in an open file.
unfoldable pub add_frame : ℕ → ℕ → Cut → File → Movie → Option ((File × Movie) × ℤ)
add_frame ts ftype c f v =
    if v.type == 0
    then some ((f, v), pos 0)
    else if ftype == 3
    then add_audio ts c f v
    else add_video ts ftype c f v

unfoldable pub write_on : ℕ → ℕ → List ℕ → ℕ → File → Movie → Option ((File × Movie) × ℤ)
write_on ts ftype p len f v = do
  c ← frame_data ftype p len
  s ← begin_file ftype c.units f v
  add_frame ts ftype c s.0 s.1

abbrev pub store : (File × Movie) × ℤ → Mp4 × ℤ
store ((f, v), r) = (record { file = some f; movie = v }, r)

-- `WriteFrame` of `len` bytes at `p`.
unfoldable pub write_frame : ℕ → ℕ → List ℕ → ℕ → Mp4 → Option (Mp4 × ℤ)
write_frame ts ftype p len m = elim m.file [
  | none ↦ some (m, negsuc 0)
  | some f ↦ write_on ts ftype p len f m.movie >>= λ s. some (store s)
]

-- `WriteMoov` at the time `now`; then the size of mdat is known.
unfoldable pub write_moov : ℕ → File → Movie → Option (File × Movie)
write_moov now f v = do
  let (tv, (len, duration)) = marshal v.trakv
  let (ta, (len1, _)) = marshal (make_audio v.traka)
  video ← box_at tv.stsdv len
  audio ← box_at ta.stsdv len1
  let boxes = fwrite audio (fwrite video (fwrite (moov_bytes now duration len len1) f))
  let size = htobe32 (u32 (v.size + 2 ^ 32 - sizeof_ftyp))
  some (
    fwrite (mdat_bytes size v.type) (fseek sizeof_ftyp boxes),
    record v { trakv = tv; traka = ta; size = size },
  )

-- `Close`, with what is then in the file that was open.
unfoldable pub close : ℕ → Mp4 → Option (Mp4 × Option (List ℕ))
close now m = elim m.file [
  | none ↦ some (m, none)
  | some f ↦
      write_moov now f m.movie >>= λ s. some (record { file = none; movie = s.1 }, some s.0.content)
]
