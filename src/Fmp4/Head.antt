-- ===== src/Fmp4/Head.antt =====
-- What the first key frame puts before its own boxes: ftyp, and moov with mvex and the two tracks.
use inc.Prelude.{
  ℕ, ◌+◌, ◌≤◌, ◌≡◌, refl, sym, ap, ap₂, ◌∙◌, List, ◌++◌, some, >>=-eq-some, arith, length,
  length-append, append_assoc,
}
use mathlib.Core.Option.{some-injective}
use inc.Nalu.{NalUnit}
use inc.Mp4box.Boxes.{ftyp_bytes, moov_bytes}
use inc.Mp4box.Entries.{stsda_bytes, mp4a_bytes, esds_bytes}
use inc.Mp4box.Track.{Trak, make_trak, make_video, make_audio, marshal}
use inc.Mp4box.Track.Layout.{IsBox}
use inc.Mp4box.Track.Moov.{IsSmall, marshal_size, track_length, moov-IsBox}
use inc.Mp4box.Track.Video.{make_video_lem, length-table_of}
use inc.Output.{File, fwrite, box_at}
use inc.Output.Stream.{at_end, fwrite-at_end, box_at_all}
use inc.Fmp4.{write_ftyp_moov, mvex_bytes, sizeof_mvex}

abbrev pub audio_trak : Trak
audio_trak = make_audio make_trak

-- moov with the duration `dur` and the video track `t`.
abbrev pub moov_tail : Trak → List ℕ
moov_tail t = (mvex_bytes ++ (marshal t).0.stsdv) ++ (marshal audio_trak).0.stsdv

abbrev pub moov_head : ℕ → ℕ → Trak → List ℕ
moov_head now dur t = moov_bytes now dur ((marshal t).1.0 + sizeof_mvex) (marshal audio_trak).1.0

abbrev pub moov_box : ℕ → ℕ → Trak → List ℕ
moov_box now dur t = moov_head now dur t ++ moov_tail t

abbrev pub head : ℕ → ℕ → Trak → List ℕ
head now dur t = ftyp_bytes ++ moov_box now dur t

length-mvex_bytes : length mvex_bytes ≡ 72
unfolding mvex_bytes
length-mvex_bytes = refl

length-stsda_bytes : length stsda_bytes ≤ 1000
unfolding stsda_bytes mp4a_bytes esds_bytes
length-stsda_bytes = omega arith

audio_trak-IsSmall : IsSmall audio_trak
unfolding make_audio
audio_trak-IsSmall = omega (arith, length-stsda_bytes, length-table_of audio_trak)

pub video-IsSmall : (us : List NalUnit) {t : Trak} → make_video make_trak us ≡ some t → IsSmall t
video-IsSmall us {t} e =
    let (offsets, sizes, keys, described) = make_video_lem make_trak us e in
    omega (arith, described, length-table_of t, ap length offsets, ap length sizes, ap length keys)

five_writes :
    (c a m x v u : List ℕ)
    → fwrite u (fwrite v (fwrite x (fwrite m (fwrite a (at_end c)))))
      ≡ at_end (c ++ (a ++ (m ++ ((x ++ v) ++ u))))
five_writes c a m x v u =
    ap (λ f. fwrite u (fwrite v (fwrite x (fwrite m f)))) (fwrite-at_end a c)
    ∙ ap (λ f. fwrite u (fwrite v (fwrite x f))) (fwrite-at_end m (c ++ a))
    ∙ ap (λ f. fwrite u (fwrite v f)) (fwrite-at_end x ((c ++ a) ++ m))
    ∙ ap (fwrite u) (fwrite-at_end v (((c ++ a) ++ m) ++ x))
    ∙ fwrite-at_end u ((((c ++ a) ++ m) ++ x) ++ v)
    ∙ ap at_end (simp append_assoc)

-- The head of a new file.
pub write_ftyp_moov-head :
    (now : ℕ) (us : List NalUnit) (c : List ℕ) {f : File}
    → write_ftyp_moov now us (at_end c) ≡ some f
    → (t : Trak) × (make_video make_trak us ≡ some t) × (f ≡ at_end (c ++ head now 0 t))
unfolding write_ftyp_moov
write_ftyp_moov-head now us c {f} e =
    let (t, made, e1) = >>=-eq-some (make_video make_trak us) _ e in
    let (video, some_video, e2) = >>=-eq-some (box_at (marshal t).0.stsdv (marshal t).1.0) _ e1 in
    let (audio, some_audio, e3) =
      >>=-eq-some (box_at (marshal audio_trak).0.stsdv (marshal audio_trak).1.0) _ e2 in
    let small : IsSmall t = video-IsSmall us made in
    let bv : video ≡ (marshal t).0.stsdv =
      box_at_all _ _ (track_length t small) (omega (arith, marshal_size t small)) some_video in
    let ba : audio ≡ (marshal audio_trak).0.stsdv =
      box_at_all _ _ (track_length audio_trak audio_trak-IsSmall)
        (omega (arith, marshal_size audio_trak audio_trak-IsSmall)) some_audio in
    (
      t,
      made,
      some-injective _ _ (sym e3)
          ∙ ap₂
              (λ v u. fwrite u (
                fwrite v (
                  fwrite mvex_bytes (
                    fwrite
                      (moov_bytes now 0 ((marshal t).1.0 + sizeof_mvex) (marshal audio_trak).1.0)
                      (fwrite ftyp_bytes (at_end c))))))
              bv ba
          ∙ five_writes c ftyp_bytes
              (moov_bytes now 0 ((marshal t).1.0 + sizeof_mvex) (marshal audio_trak).1.0) mvex_bytes
              (marshal t).0.stsdv (marshal audio_trak).0.stsdv,
    )

-- moov begins with its length.
pub moov_box-IsBox :
    (now dur : ℕ) (us : List NalUnit) {t : Trak}
    → make_video make_trak us ≡ some t
    → IsBox (moov_box now dur t)
moov_box-IsBox now dur us {t} made =
    let small : IsSmall t = video-IsSmall us made in
    moov-IsBox now dur ((marshal t).1.0 + sizeof_mvex) (marshal audio_trak).1.0
      (mvex_bytes ++ (marshal t).0.stsdv) (marshal audio_trak).0.stsdv
      (omega (
        arith,
        track_length t small,
        length-mvex_bytes,
        length-append mvex_bytes (marshal t).0.stsdv,
      ))
      (track_length audio_trak audio_trak-IsSmall) (omega (arith, marshal_size t small))
      (marshal_size audio_trak audio_trak-IsSmall)
