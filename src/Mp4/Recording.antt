-- ===== src/Mp4/Recording.antt =====
-- The frames that `WriteFrame` puts into the file, and what the tracks say of them.
use inc.Prelude.{
  ℕ, ◌+◌, ◌≡◌, refl, sym, ap, ◌∙◌, List, [], ◌∷◌, ◌++◌, map, Bool, true, false, not, Option, some,
  ◌>>=◌, >>=-eq-some, arith, length, take, append_assoc, append-nil, length-append, ◌==◌,
  if◌then◌else◌,
}
use mathlib.Core.List.{map-append}
use inc.Prelude.Int.{ℤ}
use inc.Prelude.Word.{u32}
use inc.Mp4box.{htobe32, le32}
use inc.Mp4box.Endian.{be32, be32-u32, le32-htobe32}
use inc.Mp4box.Track.{Trak, append_sample}
use inc.Output.{File, fwrite, bytes_at, Cut, Frame, cut_payload, payload}
use inc.Output.Stream.{at_end, fwrite-at_end, bytes_at-some}
use inc.Mp4.{Movie, Mp4, add_audio, add_video, write_frame}

-- `WriteFrame` for one frame after another.
abbrev pub write_frames : List Frame → Mp4 → Option Mp4
write_frames [] m = some m
write_frames (x ∷ xs) m = write_frame x.ts x.ftype x.block x.len m >>= λ r. write_frames xs r.0

-- The frames of the video track, or those of the other.
abbrev pub on_side : Bool → ℕ → Bool
on_side true ftype = not (ftype == 3)
on_side false ftype = ftype == 3

-- The frames of a track with the places where they begin, the first of all being at `n`.
abbrev pub places : Bool → ℕ → List Frame → List (ℕ × List ℕ)
places side n [] = []
places side n (x ∷ xs) =
    (if on_side side x.ftype then (n, payload x) ∷ [] else [])
    ++ places side (n + length (payload x)) xs

abbrev pub track : Bool → Movie → Trak
track true v = v.trakv
track false v = v.traka

abbrev pub offset_of : ℕ × List ℕ → ℕ
offset_of e = htobe32 (u32 e.0)

abbrev pub size_of : ℕ × List ℕ → ℕ
size_of e = htobe32 (u32 (length e.1))

-- The second track lists the samples `es` behind those of the first.
abbrev pub Adds : Trak → Trak → List (ℕ × List ℕ) → Type 0
Adds t t' es = (t'.offsets ≡ t.offsets ++ map offset_of es) × (t'.sizes ≡ t.sizes ++ map size_of es)

pub Adds-nil : (t : Trak) → Adds t t []
Adds-nil t = (sym (append-nil t.offsets), sym (append-nil t.sizes))

joined :
    (f : ℕ × List ℕ → ℕ) (a b c : List ℕ) (es fs : List (ℕ × List ℕ))
    → b ≡ a ++ map f es
    → c ≡ b ++ map f fs
    → c ≡ a ++ map f (es ++ fs)
joined f a b c es fs h k =
    k
    ∙ ap (λ r. r ++ map f fs) h
    ∙ append_assoc a (map f es) (map f fs)
    ∙ ap (λ r. a ++ r) (sym (map-append f es fs))

pub Adds-append :
    (t t' t'' : Trak) (es fs : List (ℕ × List ℕ))
    → Adds t t' es
    → Adds t' t'' fs
    → Adds t t'' (es ++ fs)
Adds-append t t' t'' es fs h k =
    (joined offset_of _ _ _ es fs h.0 k.0, joined size_of _ _ _ es fs h.1 k.1)

-- The places that one frame adds.
abbrev pub place : Bool → ℕ → ℕ → List ℕ → List (ℕ × List ℕ)
place side ftype n bs = if on_side side ftype then (n, bs) ∷ [] else []

-- What a writer that has begun is after a frame: the bytes are behind the others, and the frame is
-- listed in its track with the place where it begins.
pub record After (c : List ℕ) (v : Movie) (bs : List ℕ)
    (video_places audio_places : List (ℕ × List ℕ)) (f : File) (v' : Movie) : Type 0 where
  pub content : f ≡ at_end (c ++ bs)
  pub type : v'.type ≡ v.type
  pub size : v'.size ≡ u32 (length (c ++ bs))
  pub video : Adds v.trakv v'.trakv video_places
  pub audio : Adds v.traka v'.traka audio_places

module _ (c : List ℕ) (v : Movie) (sized : v.size ≡ u32 (length c)) where
  sample-Adds :
      (t : Trak) (ts n l : ℕ) (key : Bool) (bs : List ℕ)
      → u32 n ≡ u32 (length bs)
      → l ≡ u32 n
      → Adds t (append_sample t ts v.size l key).0 ((length c, bs) ∷ [])
  unfolding append_sample
  sample-Adds t ts n l key bs h k = (
    ap (λ (o : ℕ). t.offsets ++ (htobe32 o ∷ [])) sized,
    ap (λ (o : ℕ). t.sizes ++ (htobe32 o ∷ [])) (k ∙ h),
  )

  moved : (l : ℕ) (bs : List ℕ) → l ≡ u32 (length bs) → u32 (v.size + l) ≡ u32 (length (c ++ bs))
  moved l bs h = omega (arith, sized, h, length-append c bs)

  audio-After :
      (ts n : ℕ) (bs : List ℕ)
      → u32 n ≡ u32 (length bs)
      → After c v bs [] ((length c, bs) ∷ []) (fwrite bs (at_end c)) (record v {
        traka = (append_sample v.traka ts v.size (u32 n) false).0;
        size = (append_sample v.traka ts v.size (u32 n) false).1;
      })
  unfolding append_sample
  audio-After ts n bs h = record {
    content = fwrite-at_end bs c;
    type = refl;
    size = moved (u32 n) bs h;
    video = Adds-nil v.trakv;
    audio = sample-Adds v.traka ts n (u32 n) false bs h refl;
  }

  video-After :
      (ts n : ℕ) (key : Bool) (bs : List ℕ)
      → n ≡ length bs
      → After c v
          (be32 n ++ bs)
          ((length c, be32 n ++ bs) ∷ [])
          []
          (fwrite bs (fwrite (le32 (htobe32 (u32 n))) (at_end c)))
          (record v {
            trakv = (append_sample v.trakv ts v.size (u32 (n + 4)) key).0;
            size = (append_sample v.trakv ts v.size (u32 (n + 4)) key).1;
          })
  unfolding append_sample
  video-After ts n key bs h = record {
    content =
        ap (λ r. fwrite bs (fwrite r (at_end c))) (le32-htobe32 (u32 n) ∙ be32-u32 n)
        ∙ ap (fwrite bs) (fwrite-at_end (be32 n) c)
        ∙ fwrite-at_end bs (c ++ be32 n)
        ∙ ap at_end (append_assoc c (be32 n) bs);
    type = refl;
    size = moved (u32 (n + 4)) (be32 n ++ bs) (omega (arith, h));
    video = sample-Adds v.trakv ts (n + 4) (u32 (n + 4)) key (be32 n ++ bs) (omega (arith, h)) refl;
    audio = Adds-nil v.traka;
  }

  pub add_audio-After :
      (ts ftype : ℕ) (k : Cut) {f : File} {v' : Movie} {r : ℤ}
      → (ftype == 3) ≡ true
      → add_audio ts k (at_end c) v ≡ some ((f, v'), r)
      → After c v
          (cut_payload ftype k)
          (place true ftype (length c) (cut_payload ftype k))
          (place false ftype (length c) (cut_payload ftype k))
          f
          v'
  unfolding add_audio
  add_audio-After ts ftype k {f} {v'} audio e =
      let (bs, b, h) = >>=-eq-some (bytes_at k.bytes k.size) _ e in
      let (bytes, sized') = bytes_at-some k.bytes k.size b in
      let at : f ≡ fwrite (take k.size k.bytes) (at_end c) = rw (← bytes) (cc) in
      let kept : v' ≡ record v {
        traka = (append_sample v.traka ts v.size (u32 k.size) false).0;
        size = (append_sample v.traka ts v.size (u32 k.size) false).1;
      } =
        cc in
      rw (at, kept, audio)
        (audio-After ts k.size (take k.size k.bytes) (ap u32 (sym sized' ∙ ap length bytes)))

  pub add_video-After :
      (ts ftype : ℕ) (k : Cut) {f : File} {v' : Movie} {r : ℤ}
      → (ftype == 3) ≡ false
      → add_video ts ftype k (at_end c) v ≡ some ((f, v'), r)
      → After c v
          (cut_payload ftype k)
          (place true ftype (length c) (cut_payload ftype k))
          (place false ftype (length c) (cut_payload ftype k))
          f
          v'
  unfolding add_video
  add_video-After ts ftype k {f} {v'} video e =
      let (bs, b, h) = >>=-eq-some (bytes_at k.bytes k.size) _ e in
      let (bytes, sized') = bytes_at-some k.bytes k.size b in
      let at : f ≡ fwrite (take k.size k.bytes) (fwrite (le32 (htobe32 (u32 k.size))) (at_end c)) =
        rw (← bytes) (cc) in
      let kept : v' ≡ record v {
        trakv = (append_sample v.trakv ts v.size (u32 (k.size + 4)) (ftype == 1)).0;
        size = (append_sample v.trakv ts v.size (u32 (k.size + 4)) (ftype == 1)).1;
      } =
        cc in
      rw (at, kept, video)
        (video-After ts k.size (ftype == 1) (take k.size k.bytes) (sym sized' ∙ ap length bytes))
