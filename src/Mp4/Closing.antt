-- ===== src/Mp4/Closing.antt =====
-- The file that `Close` leaves: ftyp, mdat with its length, moov with the two tracks, and every
-- frame where the tracks say that it is.
use inc.Prelude.{
  ℕ, ◌+◌, ◌-◌, ◌^◌, ◌<◌, ◌≡◌, refl, sym, ap, ◌∙◌, List, [], ◌++◌, map, Bool, true, false, Option,
  none, some, >>=-eq-some, length, append_assoc,
}
use mathlib.Core.Path.{subst}
use inc.Prelude.Word.{u32}
use inc.Mp4box.{htobe32}
use inc.Mp4box.Boxes.{ftyp_bytes, moov_bytes}
use inc.Mp4box.Track.{Trak, marshal, make_audio}
use inc.Output.{
  File, fwrite, fseek, box_at, mdat_type, mdat_bytes, Frame, payloads, has_key, from_key,
}
use inc.Output.Stream.{at_end, fwrite-at_end, fwrite_over}
use inc.Mp4.{Movie, Mp4, new_mp4, open_file, write_moov, close}
use inc.Mp4.Recording.{write_frames, places, track, offset_of, size_of}
use inc.Mp4.Running.{opened, file_head, begun, Ran, write_frames-begun, kept}
use inc.Mp4.Reading.{pieces, side_payloads, pieces-payloads}

-- The boxes of the two tracks as `WriteMoov` writes them.
abbrev pub video_box : Movie → List ℕ
video_box v = (marshal v.trakv).0.stsdv

abbrev pub audio_box : Movie → List ℕ
audio_box v = (marshal (make_audio v.traka)).0.stsdv

abbrev pub moov_head : ℕ → Movie → List ℕ
moov_head now v =
    moov_bytes now (marshal v.trakv).1.1 (marshal v.trakv).1.0 (marshal (make_audio v.traka)).1.0

abbrev pub mdat_size : Movie → ℕ
mdat_size v = htobe32 (u32 (v.size + 2 ^ 32 - 28))

-- What `WriteMoov` leaves of a file that begins with the first form of ftyp and mdat.
pub record Closed (now : ℕ) (body : List ℕ) (v : Movie) (f : File) (v' : Movie) : Type 0 where
  pub video : List ℕ
  pub audio : List ℕ
  pub some_video : box_at (video_box v) (marshal v.trakv).1.0 ≡ some video
  pub some_audio : box_at (audio_box v) (marshal (make_audio v.traka)).1.0 ≡ some audio
  pub content :
      f.content
      ≡ (ftyp_bytes ++ mdat_bytes (mdat_size v) v.type)
        ++ (body ++ (moov_head now v ++ (video ++ audio)))
  pub trakv : v'.trakv ≡ (marshal v.trakv).0
  pub traka : v'.traka ≡ (marshal (make_audio v.traka)).0

regroup :
    (a h b m v u : List ℕ) → ((((a ++ h) ++ b) ++ m) ++ v) ++ u ≡ a ++ (h ++ (b ++ (m ++ (v ++ u))))
regroup a h b m v u = simp append_assoc

-- Three writes at the end and one over the header of mdat.
rewritten :
    (body moov video audio : List ℕ) (size type : ℕ)
    → (fwrite
        (mdat_bytes size type)
        (fseek 28 (fwrite audio (fwrite video (fwrite moov (at_end (file_head ++ body))))))).content
      ≡ (ftyp_bytes ++ mdat_bytes size type) ++ (body ++ (moov ++ (video ++ audio)))
unfolding ftyp_bytes
rewritten body moov video audio size type =
    ap (λ f. (fwrite (mdat_bytes size type) (fseek 28 f)).content)
      (ap (fwrite audio) (
          ap (fwrite video) (fwrite-at_end moov (file_head ++ body))
          ∙ fwrite-at_end video ((file_head ++ body) ++ moov))
        ∙ fwrite-at_end audio (((file_head ++ body) ++ moov) ++ video))
    ∙ ap (λ c. (fwrite (mdat_bytes size type) (record { content = c; pos = 28 })).content)
        (regroup ftyp_bytes (mdat_bytes 36 mdat_type) body moov video audio)
    ∙ fwrite_over ftyp_bytes (mdat_bytes size type) (mdat_bytes 36 mdat_type)
        (body ++ (moov ++ (video ++ audio))) 28 refl refl

write_moov-Closed :
    (now : ℕ) (body : List ℕ) (v : Movie) {f : File} {v' : Movie}
    → write_moov now (at_end (file_head ++ body)) v ≡ some (f, v')
    → Closed now body v f v'
unfolding write_moov
write_moov-Closed now body v {f} {v'} e =
    let (video, some_video, e1) = >>=-eq-some (box_at (video_box v) (marshal v.trakv).1.0) _ e in
    let (audio, some_audio, e2) =
      >>=-eq-some (box_at (audio_box v) (marshal (make_audio v.traka)).1.0) _ e1 in
    let both = kept e2 in
    record {
      video = video;
      audio = audio;
      some_video = some_video;
      some_audio = some_audio;
      content =
          ap (λ q. q.0.content) (sym both)
          ∙ rewritten body (moov_head now v) video audio (mdat_size v) v.type;
      trakv = ap (λ q. q.1.trakv) (sym both);
      traka = ap (λ q. q.1.traka) (sym both);
    }

pub close-Closed :
    (now : ℕ) (body : List ℕ) (v : Movie) (m m' : Mp4) {content : List ℕ}
    → m ≡ opened (at_end (file_head ++ body)) v
    → close now m ≡ some (m', some content)
    → (f : File) × (f.content ≡ content) × Closed now body v f m'.movie
unfolding close
close-Closed now body v m m' {content} h e =
    let ((f, v'), moov, same) =
      >>=-eq-some (write_moov now (at_end (file_head ++ body)) v) _ (ap (close now) (sym h) ∙ e) in
    let closed = write_moov-Closed now body v moov in
    let both : Path (Mp4 × Option (List ℕ)) (record { file = none; movie = v' }, some f.content)
        (m', some content) =
      kept same in
    (
      f,
      kept (ap (λ q. q.1) both),
      subst (λ w. Closed now body v f w) (ap (λ q. q.0.movie) both) closed,
    )

-- The tables of both tracks list the frames, and closing leaves them.
tables_kept :
    (side : Bool) (now : ℕ) (ys : List Frame) (t : Trak) (m : Mp4) (f : File) (w : Movie)
    → (t.offsets ≡ []) × (t.sizes ≡ [])
    → (ran : Ran file_head (begun t) ys m) → Closed now (payloads ys) ran.movie f w
    → ((track side w).offsets ≡ map offset_of (places side 36 ys))
      × ((track side w).sizes ≡ map size_of (places side 36 ys))
unfolding marshal make_audio ftyp_bytes
tables_kept true now ys t m f w (o, s) ran c = (
  ap (λ (q : Trak). q.offsets) c.trakv
      ∙ ran.video.0
      ∙ ap (λ r. r ++ map offset_of (places true 36 ys)) o,
  ap (λ (q : Trak). q.sizes) c.trakv
      ∙ ran.video.1
      ∙ ap (λ r. r ++ map size_of (places true 36 ys)) s,
)
tables_kept false now ys t m f w e ran c = (
  ap (λ (q : Trak). q.offsets) c.traka ∙ ran.audio.0,
  ap (λ (q : Trak). q.sizes) c.traka ∙ ran.audio.1,
)

-- Frames that a new writer took, a key frame among them, and that end before 2 ^ 32: in the closed
-- file each table of sizes and places gives the frames of its track, from the first key frame on, in
-- order: an audio frame as it was, any other as the last unit of its data behind its length.
pub closed-pieces :
    (xs : List Frame) (now : ℕ) (side : Bool) {m m' : Mp4} {content : List ℕ}
    → has_key xs ≡ true
    → write_frames xs (open_file true new_mp4).0 ≡ some m
    → close now m ≡ some (m', some content)
    → 36 + length (payloads (from_key xs)) < 2 ^ 32
    → pieces content (track side m'.movie).offsets (track side m'.movie).sizes
      ≡ side_payloads side (from_key xs)
unfolding open_file ftyp_bytes
closed-pieces xs now side {m} {m'} {content} has e closes small =
    let (t, o, s, ran) = write_frames-begun xs has e in
    let ys : List Frame = from_key xs in
    let (f, same, closed) = close-Closed now (payloads ys) ran.movie m m' ran.file closes in
    let (offsets, sizes) = tables_kept side now ys t m f m'.movie (o, s) ran closed in
    rw (offsets, sizes)
      (ap (λ c. pieces c (map offset_of (places side 36 ys)) (map size_of (places side 36 ys)))
          (sym same ∙ closed.content)
        ∙ pieces-payloads side (ftyp_bytes ++ mdat_bytes (mdat_size ran.movie) ran.movie.type) ys _
            small)
