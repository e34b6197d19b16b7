-- ===== src/Fmp4/Closing.antt =====
-- The file of a writer that was closed: ftyp, moov with the duration, and two boxes for every frame.
use inc.Prelude.{
  ℕ, ◌+◌, ◌≡◌, refl, sym, ap, ap₂, ◌∙◌, List, [], ◌∷◌, ◌++◌, true, false, some, arith, append_assoc,
  All, ◌==◌, take, drop,
}
use mathlib.Core.Option.{some-injective}
use inc.Mp4box.{le32}
use inc.Mp4box.Endian.{be32, le32-htobe32}
use inc.Mp4box.Boxes.{ftyp_bytes, moov_bytes}
use inc.Mp4box.Track.{Trak, make_trak, make_video, marshal}
use inc.Mp4box.Track.Layout.{IsBox, join}
use inc.Output.{fwrite, Frame, payload, from_key, has_key}
use inc.Output.Stream.{at_end, fwrite_over}
use inc.Fmp4.{Movie, Fmp4, new_fmp4, open_file, close, since, sizeof_mvex}
use inc.Fmp4.Fragments.{frame_moof, mdat_box}
use inc.Fmp4.Head.{head, audio_trak, moov_head, moov_tail, moov_box, moov_box-IsBox}
use inc.Fmp4.Running.{write_frames, opened, fragments, last_time, IsKnown}
use inc.Fmp4.Starting.{first_time, first_units, Begun, write_frames-Begun}

-- The boxes of the frames, apart.
abbrev pub boxes : ℕ → ℕ → ℕ → List Frame → List (List ℕ)
boxes n first last [] = []
boxes n first last (x ∷ xs) =
    frame_moof n first last x.ts x.ftype (payload x)
    ∷ mdat_box (payload x)
    ∷ boxes (n + 1) first x.ts xs

-- All boxes of the file with the video track `t`.
abbrev pub film : ℕ → List Frame → Trak → List (List ℕ)
film now ys t =
    ftyp_bytes
    ∷ moov_box now (since (last_time (first_time ys) ys) (first_time ys)) t
    ∷ boxes 0 (first_time ys) (first_time ys) ys

join-boxes :
    (n first last : ℕ) (xs : List Frame) → fragments n first last xs ≡ join (boxes n first last xs)
join-boxes n first last [] = refl
join-boxes n first last (x ∷ xs) =
    append_assoc (frame_moof n first last x.ts x.ftype (payload x)) (mdat_box (payload x)) _
    ∙ ap (λ r. frame_moof n first last x.ts x.ftype (payload x) ++ (mdat_box (payload x) ++ r))
        (join-boxes (n + 1) first x.ts xs)

boxes-IsBox : (n first last : ℕ) (xs : List Frame) → All IsBox (boxes n first last xs)
boxes-IsBox n first last [] = tt
boxes-IsBox n first last (x ∷ xs) =
    (refl, (ap be32 (omega arith), boxes-IsBox (n + 1) first x.ts xs))

-- The four bytes at 60 are the duration in moov.
patched :
    (now d len1 len2 : ℕ) (rest : List ℕ)
    → (fwrite
        (le32 d)
        (record { content = ftyp_bytes ++ (moov_bytes now 0 len1 len2 ++ rest); pos = 60 })).content
      ≡ ftyp_bytes ++ (moov_bytes now d len1 len2 ++ rest)
unfolding ftyp_bytes moov_bytes
patched now d len1 len2 rest =
    fwrite_over (take 60 (ftyp_bytes ++ moov_bytes now 0 len1 len2)) (le32 d) (le32 0)
      (drop 36 (moov_bytes now 0 len1 len2) ++ rest) 60 refl refl

close_lem :
    (m m' : Fmp4) (c : List ℕ) (v : Movie) {content : List ℕ}
    → m ≡ opened (at_end c) v
    → close m ≡ (m', some content)
    → content ≡ (fwrite (le32 (since v.lsts v.firts)) (record { content = c; pos = 60 })).content
unfolding close
close_lem m m' c v h e = some-injective _ _ (ap (λ q. q.1) (sym e ∙ ap close h))

-- Frames of the kinds 0 to 3 that a new writer took, a key frame among them, of which the first is not
-- at the time 0: the closed file is ftyp, moov with the time from that frame to the last, as it is
-- with the track that `MakeVideo` made of the first frame's units, and for every frame from there on a
-- moof with its number, track, times, size and flags and an mdat with its bytes; and each of these
-- boxes begins with its own length.
pub closed-film :
    (now : ℕ) (xs : List Frame) {m m' : Fmp4} {content : List ℕ}
    → has_key xs ≡ true
    → All IsKnown (from_key xs)
    → (first_time (from_key xs) == 0) ≡ false
    → write_frames now xs (open_file true new_fmp4).0 ≡ some m
    → close m ≡ (m', some content)
    → (t : Trak) × (make_video make_trak (first_units (from_key xs)) ≡ some t)
      × (content ≡ join (film now (from_key xs) t))
      × All IsBox (film now (from_key xs) t)
unfolding open_file ftyp_bytes
closed-film now xs {m} {m'} {content} has known later e closes =
    let ys : List Frame = from_key xs in
    let b : Begun now ys m = write_frames-Begun now xs has known later e in
    let t : Trak = b.trak in
    let first : ℕ = first_time ys in
    let dur : ℕ = since (last_time first ys) first in
    let own : List ℕ = fragments 0 first first ys in
    (
      t,
      b.made,
      close_lem m m' (head now 0 t ++ own) b.ran.movie b.ran.file closes
          ∙ ap₂
              (λ last from.
                (fwrite (le32 (since last from))
                  (record { content = head now 0 t ++ own; pos = 60 })).content)
              b.ran.lsts b.ran.firts
          ∙ ap (λ c. (fwrite (le32 dur) (record { content = c; pos = 60 })).content)
              (append_assoc ftyp_bytes (moov_box now 0 t) own
                ∙ ap (λ c. ftyp_bytes ++ c) (append_assoc (moov_head now 0 t) (moov_tail t) own))
          ∙ patched now dur ((marshal t).1.0 + sizeof_mvex) (marshal audio_trak).1.0
              (moov_tail t ++ own)
          ∙ ap (λ c. ftyp_bytes ++ c)
              (sym (append_assoc (moov_head now dur t) (moov_tail t) own)
                ∙ ap (λ c. moov_box now dur t ++ c) (join-boxes 0 first first ys)),
      (
        le32-htobe32 28,
        (moov_box-IsBox now dur (first_units ys) b.made, boxes-IsBox 0 first first ys),
      ),
    )
