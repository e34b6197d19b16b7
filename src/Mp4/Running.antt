-- ===== src/Mp4/Running.antt =====
-- A sequence of frames: nothing happens before the first key frame, and from there on every frame
-- is in the file and in its track.
use inc.Prelude.{
  ℕ, ◌+◌, ◌≡◌, refl, sym, ap, ◌∙◌, List, [], ◌∷◌, ◌++◌, Bool, true, false, Option, some, ◌>>=◌,
  >>=-eq-some, length, append_assoc, append-nil, length-append, ◌==◌, Bool-cases, inl, inr,
}
use inc.Prelude.Int.{ℤ, pos}
use inc.Prelude.Word.{u32}
use inc.Mp4box.Boxes.{ftyp_bytes}
use inc.Mp4box.Track.{Trak, make_trak, make_video}
use inc.Mp4box.Track.Video.{make_video_lem}
use inc.Output.{
  File, fwrite, mdat_type, mdat_bytes, mdat_type-eq-zero, Cut, frame_data, new_file, Frame,
  cut_payload, payload, payloads, from_key, has_key,
}
use inc.Output.Stream.{at_end, fwrite-at_end}
use inc.Mp4.{Movie, new_movie, Mp4, begin_file, write_ftyp, add_frame, write_on, write_frame, store}
use inc.Mp4.Recording.{
  write_frames, places, place, After, Adds, Adds-nil, Adds-append, add_audio-After, add_video-After,
}

abbrev pub opened : File → Movie → Mp4
opened f v = record { file = some f; movie = v }

add_frame-After :
    (c : List ℕ) (v : Movie) (ts ftype : ℕ) (k : Cut) {f : File} {v' : Movie} {r : ℤ}
    → v.size ≡ u32 (length c)
    → (v.type == 0) ≡ false
    → add_frame ts ftype k (at_end c) v ≡ some ((f, v'), r)
    → After c v
        (cut_payload ftype k)
        (place true ftype (length c) (cut_payload ftype k))
        (place false ftype (length c) (cut_payload ftype k))
        f
        v'
unfolding add_frame
add_frame-After c v ts ftype k {r = r} sized begun e = elim (Bool-cases (ftype == 3)) [
  | inl a ↦ add_audio-After c v sized ts ftype k {r = r} a (rw (begun, a, add_frame) at e)
  | inr b ↦ add_video-After c v sized ts ftype k {r = r} b (rw (begun, b, add_frame) at e)
]

-- A frame for a writer that has begun.
write_on-After :
    (c : List ℕ) (v : Movie) (x : Frame) {f : File} {v' : Movie} {r : ℤ}
    → v.size ≡ u32 (length c)
    → (v.type == 0) ≡ false
    → write_on x.ts x.ftype x.block x.len (at_end c) v ≡ some ((f, v'), r)
    → After c v
        (payload x)
        (place true x.ftype (length c) (payload x))
        (place false x.ftype (length c) (payload x))
        f
        v'
unfolding write_on begin_file
write_on-After c v x {r = r} sized begun e =
    let (k, cut, h) = >>=-eq-some (frame_data x.ftype x.block x.len) _ e in
    rw cut (add_frame-After c v x.ts x.ftype k {r = r} sized begun (rw (begun, begin_file) at h))

-- What a sequence of frames leaves of a writer that has begun with the bytes `c`.
pub record Ran (c : List ℕ) (v : Movie) (xs : List Frame) (m : Mp4) : Type 0 where
  pub movie : Movie
  pub file : m ≡ opened (at_end (c ++ payloads xs)) movie
  pub type : movie.type ≡ v.type
  pub size : movie.size ≡ u32 (length (c ++ payloads xs))
  pub video : Adds v.trakv movie.trakv (places true (length c) xs)
  pub audio : Adds v.traka movie.traka (places false (length c) xs)

pub kept {ℓ} : {A : Type ℓ} {a b : A} → Path (Option A) (some a) (some b) → a ≡ b
kept e = cc

shifted :
    (side : Bool) (c : List ℕ) (x : Frame) (xs : List Frame) (t t' : Trak)
    → Adds t t' (places side (length (c ++ payload x)) xs)
    → Adds t t' (places side (length c + length (payload x)) xs)
shifted side c x xs t t' h = rw (length-append c (payload x)) at h

pub write_frames-Ran :
    (c : List ℕ) (v : Movie) (xs : List Frame) {m : Mp4}
    → v.size ≡ u32 (length c)
    → (v.type == 0) ≡ false
    → write_frames xs (opened (at_end c) v) ≡ some m
    → Ran c v xs m
unfolding write_frame
write_frames-Ran c v [] {m} sized begun e = record {
  movie = v;
  file = sym (kept e) ∙ ap (λ r. opened (at_end r) v) (sym (append-nil c));
  type = refl;
  size = sized ∙ ap (λ r. u32 (length r)) (sym (append-nil c));
  video = Adds-nil v.trakv;
  audio = Adds-nil v.traka;
}
write_frames-Ran c v (x ∷ xs) {m} sized begun e =
    let (r, one, others) =
      >>=-eq-some (write_frame x.ts x.ftype x.block x.len (opened (at_end c) v)) _ e in
    let (((f, v'), z), on, stored) =
      >>=-eq-some (write_on x.ts x.ftype x.block x.len (at_end c) v) _ one in
    let a : After c v (payload x) (place true x.ftype (length c) (payload x))
        (place false x.ftype (length c) (payload x)) f v' =
      write_on-After c v x {r = z} sized begun on in
    let state : opened (at_end (c ++ payload x)) v' ≡ r.0 =
      ap (λ g. opened g v') (sym a.content) ∙ ap (λ q. q.0) (kept stored) in
    let ran : Ran (c ++ payload x) v' xs m =
      write_frames-Ran (c ++ payload x) v' xs a.size (ap (λ n. n == 0) a.type ∙ begun)
        (ap (write_frames xs) state ∙ others) in
    record {
      movie = ran.movie;
      file =
          ran.file
          ∙ ap (λ b. opened (at_end b) ran.movie) (append_assoc c (payload x) (payloads xs));
      type = ran.type ∙ a.type;
      size = ran.size ∙ ap (λ b. u32 (length b)) (append_assoc c (payload x) (payloads xs));
      video =
          Adds-append v.trakv v'.trakv ran.movie.trakv _ _ a.video
            (shifted true c x xs v'.trakv ran.movie.trakv ran.video);
      audio =
          Adds-append v.traka v'.traka ran.movie.traka _ _ a.audio
            (shifted false c x xs v'.traka ran.movie.traka ran.audio);
    }

-- ftyp and the header of mdat, as they are first written.
abbrev pub file_head : List ℕ
file_head = ftyp_bytes ++ mdat_bytes 36 mdat_type

-- The writer that has written them, with a video track.
abbrev pub begun : Trak → Movie
begun t = record { size = 36; type = mdat_type; trakv = t; traka = make_trak }

begun_lem :
    (x : Frame) (k : Cut) (t : Trak) {r : (File × Movie) × ℤ}
    → frame_data x.ftype x.block x.len ≡ some k
    → add_frame x.ts x.ftype k (at_end file_head) (begun t) ≡ some r
    → write_on x.ts x.ftype x.block x.len (at_end file_head) (begun t) ≡ some r
unfolding write_on begin_file
begun_lem x k t cut h = rw (cut, mdat_type-eq-zero) h

-- The first key frame is written as one behind the head.
start_lem :
    (x : Frame) {r : (File × Movie) × ℤ}
    → (x.ftype == 1) ≡ true
    → write_on x.ts x.ftype x.block x.len new_file new_movie ≡ some r
    → (t : Trak) × (t.offsets ≡ [])
      × (t.sizes ≡ [])
      × (write_on x.ts x.ftype x.block x.len (at_end file_head) (begun t) ≡ some r)
unfolding write_on begin_file write_ftyp
start_lem x {r} key e =
    let (k, cut, h) = >>=-eq-some (frame_data x.ftype x.block x.len) _ e in
    let begins : begin_file x.ftype k.units new_file new_movie ≡ (
        make_video make_trak k.units >>= λ t.
        some (write_ftyp new_file (record new_movie { trakv = t }))) =
      rw (key, begin_file) refl in
    let (s, start, h1) = >>=-eq-some (begin_file x.ftype k.units new_file new_movie) _ h in
    let (t, made, h2) = >>=-eq-some (make_video make_trak k.units) _ (sym begins ∙ start) in
    let (offsets, sizes, _, _) = make_video_lem make_trak k.units made in
    let head : write_ftyp new_file (record new_movie { trakv = t }) ≡ (at_end file_head, begun t) =
      ap (λ f. (f, begun t))
        (ap (fwrite (mdat_bytes 36 mdat_type)) (fwrite-at_end ftyp_bytes [])
          ∙ fwrite-at_end (mdat_bytes 36 mdat_type) ftyp_bytes) in
    let state : s ≡ (at_end file_head, begun t) = sym (kept h2) ∙ head in
    (
      t,
      offsets,
      sizes,
      begun_lem x k t cut (ap (λ q. add_frame x.ts x.ftype k q.0 q.1) (sym state) ∙ h1),
    )

-- A frame before the first key frame changes nothing.
idle_lem :
    (x : Frame) {r : (File × Movie) × ℤ}
    → (x.ftype == 1) ≡ false
    → write_on x.ts x.ftype x.block x.len new_file new_movie ≡ some r
    → r ≡ ((new_file, new_movie), pos 0)
unfolding write_on begin_file add_frame
idle_lem x {r} other e =
    let (k, cut, h) = >>=-eq-some (frame_data x.ftype x.block x.len) _ e in
    let same : begin_file x.ftype k.units new_file new_movie ≡ some (new_file, new_movie) =
      rw (other, begin_file) refl in
    sym (kept (ap (λ o. o >>= λ s. add_frame x.ts x.ftype k s.0 s.1) (sym same) ∙ h))

-- The frames of a new writer, when a key frame is among them.
pub write_frames-begun :
    (xs : List Frame) {m : Mp4}
    → has_key xs ≡ true
    → write_frames xs (opened new_file new_movie) ≡ some m
    → (t : Trak) × (t.offsets ≡ []) × (t.sizes ≡ []) × Ran file_head (begun t) (from_key xs) m
unfolding write_frame ftyp_bytes
write_frames-begun [] has e = cc
write_frames-begun (x ∷ xs) {m} has e =
    let (r, one, others) =
      >>=-eq-some (write_frame x.ts x.ftype x.block x.len (opened new_file new_movie)) _ e in
    let (q, on, stored) =
      >>=-eq-some (write_on x.ts x.ftype x.block x.len new_file new_movie) _ one in
    elim (Bool-cases (x.ftype == 1)) [
      | inl key ↦
          let (t, offsets, sizes, again) = start_lem x key on in
          rw key (
            t,
            offsets,
            sizes,
            write_frames-Ran file_head (begun t) (x ∷ xs) refl mdat_type-eq-zero (
                ap (λ o. (o >>= λ s. some (store s)) >>= λ p. write_frames xs p.0) (again ∙ sym on)
                ∙ e),
          )
      | inr other ↦ rw other (
          write_frames-begun xs (rw other at has) (
            sym (ap (λ s. write_frames xs (store s).0) (idle_lem x other on))
            ∙ ap (λ p. write_frames xs p.0) (kept stored)
            ∙ others))
    ]
