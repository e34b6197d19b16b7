-- ===== src/Output.antt =====
-- What the two writers of files, stream/mp4.hpp and stream/fmp4.hpp, share: the `FILE` that they
-- write to, and the frame that they take from the caller by `nalu::Split`.
-- A stream takes every byte that is written to it; what is behind its end is filled by zeros.
pub mod Stream
pub mod Film
use inc.Prelude.{
  ◌≡◌, refl, Bool, false, ◌||◌, ℕ, suc, ◌+◌, ◌^◌, List, [], ◌∷◌, ◌++◌, Option, none, some, ltb, leb,
  ◌==◌, if◌then◌else◌, length, take, drop,
}
use inc.Prelude.Int.{ℤ, pos}
use inc.Prelude.Word.{u32}
use inc.Nalu.{NalUnit, Outcome, rest, null, split}
use inc.Mp4box.{htobe32, le32, le32type}
use inc.Mp4box.Endian.{be32}
use inc.Mp4box.Entries.{zeros}

-- The bytes of the file and the place where the next are written.
pub record File : Type 0 where
  pub content : List ℕ
  pub pos : ℕ

-- `fopen` with "wb+" leaves an empty file.
abbrev pub new_file : File
new_file = record { content = []; pos = 0 }

unfoldable pub fwrite : List ℕ → File → File
fwrite [] f = f
fwrite (b ∷ bs) f = record {
  content =
      take f.pos (f.content ++ zeros f.pos)
      ++ ((b ∷ bs) ++ drop (f.pos + length (b ∷ bs)) f.content);
  pos = f.pos + length (b ∷ bs);
}

-- `fseek` from the start of the file.
abbrev pub fseek : ℕ → File → File
fseek offset f = record f { pos = offset }

-- What `fwrite` of one item of `n` bytes returns.
abbrev pub written : ℕ → ℤ
written n = if n == 0 then pos 0 else pos 1

-- The `n` bytes at a pointer, which end inside its block. A null pointer has no block.
unfoldable pub bytes_at : List ℕ → ℕ → Option (List ℕ)
bytes_at p n = if leb n (length p) then some (take n p) else none

-- The `len` bytes of a box, where the code keeps `len` in an `int`.
unfoldable pub box_at : List ℕ → ℕ → Option (List ℕ)
unfolding bytes_at
box_at p len = let n = u32 len in if ltb n (2 ^ 31) then bytes_at p n else none

-- `mdat` in memory.
abbrev pub mdat_type : ℕ
mdat_type = le32type 109 100 97 116

abbrev pub mdat_bytes : ℕ → ℕ → List ℕ
mdat_bytes size type = le32 size ++ le32 type

abbrev pub sizeof_mdat : ℕ
sizeof_mdat = 8

-- What a writer goes on with: a pointer, the length from there, and the units before it.
pub record Cut : Type 0 where
  pub bytes : List ℕ
  pub size : ℕ
  pub units : List NalUnit

abbrev pub of_outcome : Outcome → Option Cut
of_outcome (rest p n us) = some (record { bytes = p; size = n; units = us })
of_outcome (null n us) = some (record { bytes = []; size = n; units = us })
of_outcome _ = none

-- `ftype` below 3 is video, whose frame is cut; the data is otherwise taken as it is.
unfoldable pub frame_data : ℕ → List ℕ → ℕ → Option Cut
frame_data ftype p len =
    if ltb ftype 3
    then of_outcome (split (suc (length p)) p len [])
    else some (record { bytes = p; size = len; units = [] })

-- What a caller gives to `WriteFrame`.
pub record Frame : Type 0 where
  pub ts : ℕ
  pub ftype : ℕ
  pub block : List ℕ
  pub len : ℕ

-- The bytes that stand for a frame: audio as it is, video behind its length, the highest byte first.
abbrev pub cut_payload : ℕ → Cut → List ℕ
cut_payload ftype c = if ftype == 3 then take c.size c.bytes else be32 c.size ++ take c.size c.bytes

abbrev pub data_payload : ℕ → Option Cut → List ℕ
data_payload ftype none = []
data_payload ftype (some c) = cut_payload ftype c

abbrev pub payload : Frame → List ℕ
payload x = data_payload x.ftype (frame_data x.ftype x.block x.len)

abbrev pub payloads : List Frame → List ℕ
payloads [] = []
payloads (x ∷ xs) = payload x ++ payloads xs

-- The frames from the first key frame on, and whether there is one.
abbrev pub from_key : List Frame → List Frame
from_key [] = []
from_key (x ∷ xs) = if x.ftype == 1 then x ∷ xs else from_key xs

abbrev pub has_key : List Frame → Bool
has_key [] = false
has_key (x ∷ xs) = (x.ftype == 1) || has_key xs

pub mdat_type-eq-zero : (mdat_type == 0) ≡ false
unfolding le32type
mdat_type-eq-zero = refl
