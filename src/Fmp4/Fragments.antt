-- ===== src/Fmp4/Fragments.antt =====
-- The two boxes that `WriteFrame` puts behind the others, stated apart from the code.
use inc.Prelude.{
  ℕ, ◌+◌, ◌-◌, ◌^◌, ◌<◌, ◌≡◌, refl, sym, ap, ◌∙◌, List, [], ◌∷◌, ◌++◌, some, >>=-eq-some, arith,
  length, take, append_assoc, ltb, ltb-true, ltb-false, ◌==◌, if◌then◌else◌, Bool-cases, inl, inr,
}
use mathlib.Core.Option.{some-injective}
use mathlib.Core.Path.{subst}
use inc.Prelude.Int.{ℤ}
use inc.Prelude.Word.{u32}
use inc.Mp4box.{htobe32, le32, le32type}
use inc.Mp4box.Endian.{be32, be32-u32, le32-htobe32}
use inc.Output.{File, fwrite, bytes_at, Cut, cut_payload}
use inc.Output.Stream.{at_end, fwrite-at_end, bytes_at-some}
use inc.Fmp4.{Moof, moof_bytes, moof_marshal, version_flag, Movie, set_frame, since, add_frame}

abbrev mfhd : List ℕ → List ℕ
mfhd seq = be32 16 ++ ((109 ∷ 102 ∷ 104 ∷ 100 ∷ []) ++ (be32 0 ++ seq))

abbrev tfhd : List ℕ → List ℕ
tfhd track = be32 16 ++ ((116 ∷ 102 ∷ 104 ∷ 100 ∷ []) ++ (be32 0x020000 ++ track))

abbrev tfdt : List ℕ → List ℕ
tfdt decode_time = be32 16 ++ ((116 ∷ 102 ∷ 100 ∷ 116 ∷ []) ++ (be32 0 ++ decode_time))

-- One sample, whose data begins 108 bytes behind the start of moof.
abbrev trun : List ℕ → List ℕ → List ℕ → List ℕ
trun duration size flags =
    be32 36
    ++ ((116 ∷ 114 ∷ 117 ∷ 110 ∷ [])
        ++ (be32 0x01000f01 ++ (be32 1 ++ (be32 108 ++ (duration ++ (size ++ (flags ++ be32 0)))))))

-- moof around these, from its members' bytes.
abbrev moof_with : List ℕ → List ℕ → List ℕ → List ℕ → List ℕ → List ℕ → List ℕ
moof_with seq track decode_time duration size flags =
    be32 100
    ++ ((109 ∷ 111 ∷ 111 ∷ 102 ∷ [])
        ++ (mfhd seq
            ++ (be32 76
                ++ ((116 ∷ 114 ∷ 97 ∷ 102 ∷ [])
                    ++ (tfhd track ++ (tfdt decode_time ++ trun duration size flags))))))

abbrev pub moof_box : ℕ → ℕ → ℕ → ℕ → ℕ → ℕ → List ℕ
moof_box seq track decode_time duration size flags =
    moof_with (be32 seq) (be32 track) (be32 decode_time) (be32 duration) (be32 size) (be32 flags)

abbrev pub mdat_box : List ℕ → List ℕ
mdat_box bs = be32 (8 + length bs) ++ ((109 ∷ 100 ∷ 97 ∷ 116 ∷ []) ++ bs)

-- Video is track 1, where only a key frame does not depend on others, and audio track 2.
abbrev pub track_of : ℕ → ℕ
track_of ftype = if ltb ftype 3 then 1 else 2

abbrev pub flags_of : ℕ → ℕ
flags_of ftype = if ltb ftype 3 then (if ftype == 1 then 0x02000000 else 0x00010000) else 0

-- The moof of the frame `bs` with the number `n` at the time `ts`; the times are taken from the first
-- frame and from the last one.
abbrev pub frame_moof : ℕ → ℕ → ℕ → ℕ → ℕ → List ℕ → List ℕ
frame_moof n first last ts ftype bs =
    moof_box n (track_of ftype) (ts + 2 ^ 64 - first) (ts + 2 ^ 64 - last) (length bs)
      (flags_of ftype)

abbrev pub fragment : ℕ → ℕ → ℕ → ℕ → ℕ → List ℕ → List ℕ
fragment n first last ts ftype bs = frame_moof n first last ts ftype bs ++ mdat_box bs

-- The members that are the same for every frame are set.
abbrev pub IsMarshalled : Moof → Type 0
IsMarshalled m = m ≡ moof_marshal m

word : (n : ℕ) → le32 (htobe32 (u32 n)) ≡ be32 n
word n = le32-htobe32 (u32 n) ∙ be32-u32 n

-- moof and the header of mdat, with seven members as the words that are written.
headed :
    (seq track decode_time duration size flags mdat : ℕ) (m : Moof)
    → moof_bytes (record (moof_marshal m) {
      sequence_number = seq;
      track_id = track;
      decode_time = decode_time;
      duration = duration;
      sample_size = size;
      flags = flags;
      mdat_size = mdat;
    })
      ≡ moof_with
          (le32 seq)
          (le32 track)
          (le32 decode_time)
          (le32 duration)
          (le32 size)
          (le32 flags)
        ++ (le32 mdat ++ (109 ∷ 100 ∷ 97 ∷ 116 ∷ []))
unfolding moof_marshal version_flag le32type htobe32
headed seq track decode_time duration size flags mdat m = refl

-- The words that a frame sets, with the size of its data.
with_frame :
    (ts ftype size mdat n : ℕ) (v : Movie) (bs : List ℕ)
    → v.seq ≡ u32 n
    → size ≡ length bs
    → mdat ≡ 8 + length bs
    → moof_bytes (record (moof_marshal v.moof) {
      sequence_number = htobe32 v.seq;
      track_id = htobe32 (track_of ftype);
      decode_time = since ts v.firts;
      duration = since ts v.lsts;
      sample_size = htobe32 (u32 size);
      flags = htobe32 (flags_of ftype);
      mdat_size = htobe32 (u32 mdat);
    })
      ≡ frame_moof n v.firts v.lsts ts ftype bs
        ++ (be32 (8 + length bs) ++ (109 ∷ 100 ∷ 97 ∷ 116 ∷ []))
with_frame ts ftype size mdat n v bs numbered sized boxed =
    let seq : le32 (htobe32 v.seq) ≡ be32 n = le32-htobe32 v.seq ∙ ap be32 numbered ∙ be32-u32 n in
    let first = word (ts + 2 ^ 64 - v.firts) in
    let last = word (ts + 2 ^ 64 - v.lsts) in
    let data_size : le32 (htobe32 (u32 size)) ≡ be32 (length bs) = word size ∙ ap be32 sized in
    let box_size : le32 (htobe32 (u32 mdat)) ≡ be32 (8 + length bs) = word mdat ∙ ap be32 boxed in
    headed (htobe32 v.seq) (htobe32 (track_of ftype)) (since ts v.firts) (since ts v.lsts)
      (htobe32 (u32 size)) (htobe32 (flags_of ftype)) (htobe32 (u32 mdat)) v.moof
    ∙ λ i.
        moof_with (seq i) (le32-htobe32 (track_of ftype) i) (first i) (last i) (data_size i)
          (le32-htobe32 (flags_of ftype) i)
        ++ (box_size i ++ (109 ∷ 100 ∷ 97 ∷ 116 ∷ []))

htobe32-zero : htobe32 0 ≡ 0
unfolding htobe32
htobe32-zero = refl

abbrev sized_for : ℕ → ℕ → ℕ
sized_for ftype len = if ltb ftype 3 then len + 4 else len

abbrev boxed_for : ℕ → ℕ → ℕ
boxed_for ftype len = if ltb ftype 3 then len + 8 + 4 else len + 8

set_frame-eq :
    (ts ftype len : ℕ) (v : Movie) (m : Moof)
    → set_frame ts ftype len (record v { moof = m }) ≡ record m {
      sequence_number = htobe32 v.seq;
      track_id = htobe32 (track_of ftype);
      decode_time = since ts v.firts;
      duration = since ts v.lsts;
      sample_size = htobe32 (u32 (sized_for ftype len));
      flags = htobe32 (flags_of ftype);
      mdat_size = htobe32 (u32 (boxed_for ftype len));
    }
unfolding set_frame
set_frame-eq ts ftype len v m = elim (Bool-cases (ltb ftype 3)) [
  | inl e ↦ rw e refl
  | inr e ↦ rw (e, htobe32-zero) refl
]

boxed_for-eq : (ftype len n : ℕ) → n ≡ sized_for ftype len → boxed_for ftype len ≡ 8 + n
boxed_for-eq ftype len n h = elim (Bool-cases (ltb ftype 3)) [
  | inl e ↦ rw e (omega (arith, rw e at h))
  | inr e ↦ rw e (omega (arith, rw e at h))
]

-- A frame of the data `bs`, with its length in front if it is video.
set_frame_bytes :
    (ts ftype len n : ℕ) (v : Movie) (bs : List ℕ)
    → v.seq ≡ u32 n
    → length bs ≡ sized_for ftype len
    → IsMarshalled v.moof
    → moof_bytes (set_frame ts ftype len v)
      ≡ frame_moof n v.firts v.lsts ts ftype bs
        ++ (be32 (8 + length bs) ++ (109 ∷ 100 ∷ 97 ∷ 116 ∷ []))
set_frame_bytes ts ftype len n v bs numbered sized marshalled =
    ap (λ (m : Moof). moof_bytes (set_frame ts ftype len (record v { moof = m }))) marshalled
    ∙ ap moof_bytes (set_frame-eq ts ftype len v (moof_marshal v.moof))
    ∙ with_frame ts ftype (sized_for ftype len) (boxed_for ftype len) n v bs numbered (sym sized)
        (boxed_for-eq ftype len (length bs) sized)

-- What a writer that has begun is after a frame.
pub record After (c : List ℕ) (v : Movie) (n ts ftype : ℕ) (bs : List ℕ) (f : File) (v' : Movie)
    : Type 0 where
  pub content : f ≡ at_end (c ++ fragment n v.firts v.lsts ts ftype bs)
  pub firts : v'.firts ≡ v.firts
  pub lsts : v'.lsts ≡ ts
  pub seq : v'.seq ≡ u32 (n + 1)
  pub moof : IsMarshalled v'.moof

set_frame-IsMarshalled :
    (ts ftype len : ℕ) (v : Movie) → IsMarshalled v.moof → IsMarshalled (set_frame ts ftype len v)
unfolding moof_marshal
set_frame-IsMarshalled ts ftype len v h =
    let fixed : set_frame ts ftype len v ≡ _ =
      ap (λ (m : Moof). set_frame ts ftype len (record v { moof = m })) h
      ∙ set_frame-eq ts ftype len v (moof_marshal v.moof) in
    fixed ∙ ap moof_marshal (sym fixed)

payload_length :
    (ftype : ℕ) (k : Cut)
    → ftype < 4
    → length (take k.size k.bytes) ≡ k.size
    → length (cut_payload ftype k) ≡ sized_for ftype k.size
payload_length ftype k known h = elim (Bool-cases (ftype == 3)) [
  | inl e ↦ rw (e, ltb-false ftype 3 (ground arith)) h
  | inr e ↦ rw (e, ltb-true ftype 3 (ground arith)) (omega (arith, h))
]

frame_writes :
    (ftype : ℕ) (c m : List ℕ) (k : Cut)
    → fwrite (take k.size k.bytes) (
        if ftype == 3
        then fwrite m (at_end c)
        else fwrite (le32 (htobe32 (u32 k.size))) (fwrite m (at_end c)))
      ≡ at_end (c ++ (m ++ cut_payload ftype k))
frame_writes ftype c m k =
    let bs = take k.size k.bytes in
    elim (Bool-cases (ftype == 3)) [
      | inl e ↦ rw e (
          ap (fwrite bs) (fwrite-at_end m c)
          ∙ fwrite-at_end bs (c ++ m)
          ∙ ap at_end (append_assoc c m bs))
      | inr e ↦ rw e (
          ap (fwrite bs) (
            ap (fwrite (le32 (htobe32 (u32 k.size)))) (fwrite-at_end m c)
            ∙ fwrite-at_end (le32 (htobe32 (u32 k.size))) (c ++ m)
            ∙ ap (λ w. at_end ((c ++ m) ++ w)) (word k.size))
          ∙ fwrite-at_end bs ((c ++ m) ++ be32 k.size)
          ∙ ap at_end
              (append_assoc (c ++ m) (be32 k.size) bs ∙ append_assoc c m (be32 k.size ++ bs)))
    ]

-- One writer of a frame: moof, the length for video, and the data.
pub add_frame-After :
    (c : List ℕ) (v : Movie) (n ts ftype : ℕ) (k : Cut) {f : File} {v' : Movie} {r : ℤ}
    → ftype < 4
    → v.seq ≡ u32 n
    → IsMarshalled v.moof
    → add_frame ts ftype k (at_end c) v ≡ some ((f, v'), r)
    → After c v n ts ftype (cut_payload ftype k) f v'
unfolding add_frame
add_frame-After c v n ts ftype k {f} {v'} known numbered marshalled e =
    let (bs, b, h) = >>=-eq-some (bytes_at k.bytes k.size) _ e in
    let (bytes, sized) = bytes_at-some k.bytes k.size b in
    let payload = cut_payload ftype k in
    let long : length payload ≡ sized_for ftype k.size =
      payload_length ftype k known (sym (ap length bytes) ∙ sized) in
    let m = set_frame ts ftype k.size v in
    let both = some-injective _ _ h in
    record {
      content =
          ap (λ q. q.0.0) (sym both)
          ∙ ap
              (λ d. fwrite d (
                if ftype == 3
                then fwrite (moof_bytes m) (at_end c)
                else fwrite (le32 (htobe32 (u32 k.size))) (fwrite (moof_bytes m) (at_end c))))
              bytes
          ∙ frame_writes ftype c (moof_bytes m) k
          ∙ ap (λ w. at_end (c ++ (w ++ payload)))
              (set_frame_bytes ts ftype k.size n v payload numbered long marshalled)
          ∙ ap (λ w. at_end (c ++ w))
              (append_assoc (frame_moof n v.firts v.lsts ts ftype payload)
                (be32 (8 + length payload) ++ (109 ∷ 100 ∷ 97 ∷ 116 ∷ [])) payload);
      firts = ap (λ q. q.0.1.firts) (sym both);
      lsts = ap (λ q. q.0.1.lsts) (sym both);
      seq = ap (λ q. q.0.1.seq) (sym both) ∙ omega (arith, numbered);
      moof =
          subst IsMarshalled (ap (λ q. q.0.1.moof) both)
            (set_frame-IsMarshalled ts ftype k.size v marshalled);
    }
