-- ===== src/Mp4/Boxes.antt =====
-- The closed file is three boxes, each of which begins with its own length.
use inc.Prelude.{
  ℕ, ◌+◌, ◌-◌, ◌^◌, ◌<◌, ◌≡◌, sym, ap, ap₂, ◌∙◌, List, [], ◌∷◌, ◌++◌, true, some, arith, length,
  append_assoc, append-nil, All,
}
use mathlib.Core.Path.{subst}
use inc.Prelude.Word.{u32}
use inc.Mp4box.{le32}
use inc.Mp4box.Endian.{be32, le32-htobe32}
use inc.Mp4box.Boxes.{ftyp_bytes}
use inc.Mp4box.Track.{marshal, make_audio}
use inc.Mp4box.Track.Layout.{IsBox, join}
use inc.Output.{File, mdat_type, mdat_bytes, Frame, payloads, has_key, from_key}
use inc.Mp4box.Track.Moov.{IsSmall, marshal_size, track_length, moov-IsBox}
use inc.Output.Stream.{box_at_all}
use inc.Mp4.{Movie, Mp4, new_mp4, open_file, close}
use inc.Mp4.Recording.{write_frames}
use inc.Mp4.Running.{write_frames-begun}
use inc.Mp4.Closing.{Closed, video_box, audio_box, moov_head, mdat_size, close-Closed}

-- mdat around the frames, and moov around the tracks.
abbrev pub mdat_box : List Frame → List ℕ
mdat_box xs = be32 (8 + length (payloads xs)) ++ (le32 mdat_type ++ payloads xs)

abbrev pub moov_box : ℕ → Movie → List ℕ
moov_box now v = moov_head now v ++ (video_box v ++ audio_box v)

-- The three boxes are the file, and each begins with its length.
abbrev pub IsFile : ℕ → List Frame → List ℕ → Movie → Type 0
IsFile now xs content v =
    (content ≡ join (ftyp_bytes ∷ mdat_box xs ∷ moov_box now v ∷ []))
    × All IsBox (ftyp_bytes ∷ mdat_box xs ∷ moov_box now v ∷ [])

head_of_mdat :
    (n : ℕ) (v : Movie)
    → v.size ≡ u32 (36 + n)
    → 36 + n < 2 ^ 32
    → le32 (mdat_size v) ≡ be32 (8 + n)
head_of_mdat n v h small = le32-htobe32 (u32 (v.size + 2 ^ 32 - 28)) ∙ ap be32 (omega (arith, h))

Closed-IsFile :
    (now : ℕ) (ys : List Frame) (v : Movie) (f : File) (v' : Movie)
    → Closed now (payloads ys) v f v'
    → v.type ≡ mdat_type
    → v.size ≡ u32 (36 + length (payloads ys))
    → 36 + length (payloads ys) < 2 ^ 32
    → IsSmall v.trakv
    → IsSmall (make_audio v.traka)
    → IsFile now ys f.content v
unfolding ftyp_bytes
Closed-IsFile now ys v f v' closed typed sized_v small video audio =
    let head : le32 (mdat_size v) ++ le32 v.type
        ≡ be32 (8 + length (payloads ys)) ++ le32 mdat_type =
      ap₂ (λ a b. a ++ b) (head_of_mdat (length (payloads ys)) v sized_v small) (ap le32 typed) in
    let bv : closed.video ≡ video_box v =
      box_at_all (video_box v) (marshal v.trakv).1.0 (track_length v.trakv video)
        (omega (arith, marshal_size v.trakv video)) closed.some_video in
    let ba : closed.audio ≡ audio_box v =
      box_at_all (audio_box v) (marshal (make_audio v.traka)).1.0
        (track_length (make_audio v.traka) audio)
        (omega (arith, marshal_size (make_audio v.traka) audio)) closed.some_audio in
    (
      closed.content
          ∙ append_assoc ftyp_bytes (mdat_bytes (mdat_size v) v.type) _
          ∙ ap₂ (λ h r. ftyp_bytes ++ (h ++ (payloads ys ++ r))) head
              (ap₂ (λ a b. moov_head now v ++ (a ++ b)) bv ba ∙ sym (append-nil (moov_box now v))),
      (
        le32-htobe32 28,
        (
          ap be32 (omega arith),
          (
            moov-IsBox now _ _ _ (video_box v) (audio_box v) (track_length v.trakv video)
                (track_length (make_audio v.traka) audio)
                (omega (arith, marshal_size v.trakv video))
                (marshal_size (make_audio v.traka) audio),
            tt,
          ),
        ),
      ),
    )

-- Frames that a new writer took, a key frame among them, and that end before 2 ^ 32, with tables that
-- leave room below 2 ^ 31: the closed file is ftyp, mdat around the frames from the first key frame
-- on, and moov around the two tracks, and each of the three begins with its own length.
pub closed-IsFile :
    (xs : List Frame) (now : ℕ) {m m' : Mp4} {content : List ℕ}
    → has_key xs ≡ true
    → write_frames xs (open_file true new_mp4).0 ≡ some m
    → close now m ≡ some (m', some content)
    → 36 + length (payloads (from_key xs)) < 2 ^ 32
    → IsSmall m.movie.trakv
    → IsSmall (make_audio m.movie.traka)
    → IsFile now (from_key xs) content m.movie
unfolding open_file ftyp_bytes
closed-IsFile xs now {m} {m'} {content} has e closes small video audio =
    let (t, o, s, ran) = write_frames-begun xs has e in
    let ys : List Frame = from_key xs in
    let (f, same, closed) = close-Closed now (payloads ys) ran.movie m m' ran.file closes in
    let movie : m.movie ≡ ran.movie = ap (λ (q : Mp4). q.movie) ran.file in
    let file : IsFile now ys f.content ran.movie =
      Closed-IsFile now ys ran.movie f m'.movie closed ran.type (ran.size ∙ ap u32 (omega arith))
        small (subst (λ (w : Movie). IsSmall w.trakv) movie video)
        (subst (λ (w : Movie). IsSmall (make_audio w.traka)) movie audio) in
    subst (λ c. IsFile now ys c m.movie) same
      (subst (λ w. IsFile now ys f.content w) (sym movie) file)
