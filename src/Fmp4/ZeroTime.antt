-- ===== src/Fmp4/ZeroTime.antt =====
-- A time of 0 stands for "nothing written yet": what the writer does with frames of that time.
use inc.Prelude.{
  ℕ, ◌≡◌, refl, sym, ap, ◌∙◌, List, [], ◌∷◌, ◌++◌, true, false, Option, none, some, ◌>>=◌,
  >>=-eq-some, append_assoc, append-nil, All, ◌==◌, if◌then◌else◌, Bool-cases, inl, inr,
}
use mathlib.Core.Option.{some-injective}
use inc.Prelude.Int.{ℤ, pos}
use inc.Nalu.{NalUnit}
use inc.Mp4box.Track.{Trak, make_trak, make_video}
use inc.Output.{File, Cut, frame_data, Frame}
use inc.Output.Stream.{at_end}
use inc.Fmp4.{
  Movie, new_movie, Fmp4, new_fmp4, open_file, begin_file, write_ftyp_moov, write_on, write_frame,
  moof_marshal,
}
use inc.Fmp4.Head.{head, write_ftyp_moov-head}
use inc.Fmp4.Running.{write_frames, opened}
use inc.Fmp4.Starting.{frame_units, units_of, finish}

-- The head that a key frame causes.
abbrev pub head_of : ℕ → Option Trak → List ℕ
head_of now none = []
head_of now (some t) = head now 0 t

abbrev pub own_head : ℕ → Frame → List ℕ
own_head now x = if x.ftype == 1 then head_of now (make_video make_trak (frame_units x)) else []

abbrev pub heads : ℕ → List Frame → List ℕ
heads now [] = []
heads now (x ∷ xs) = own_head now x ++ heads now xs

abbrev pub IsAtZero : Frame → Type 0
IsAtZero x = (x.ts == 0) ≡ true

-- Nothing but heads is behind the bytes `c`, and the writer is as if it had not begun.
record Idle (c : List ℕ) (bs : List ℕ) (f : File) (v : Movie) : Type 0 where
  pub content : f ≡ at_end (c ++ bs)
  pub firts : (v.firts == 0) ≡ true
  pub seq : v.seq ≡ 0

-- What `WriteFrame` sets with the head.
abbrev reset : Frame → Movie → Movie
reset x v = record v { moof = moof_marshal v.moof; firts = x.ts; lsts = x.ts }

begins_again :
    (now ts ftype : ℕ) (us : List NalUnit) (f : File) (v : Movie)
    → (v.firts == 0) ≡ true
    → (ftype == 1) ≡ true
    → begin_file now ts ftype us f v ≡ (
        write_ftyp_moov now us f >>= λ g.
        some (g, record v { moof = moof_marshal v.moof; firts = ts; lsts = ts }))
unfolding begin_file
begins_again now ts ftype us f v zero key = rw (zero, key) refl

begins_not :
    (now ts ftype : ℕ) (us : List NalUnit) (f : File) (v : Movie)
    → (v.firts == 0) ≡ true
    → (ftype == 1) ≡ false
    → begin_file now ts ftype us f v ≡ some (f, v)
unfolding begin_file
begins_not now ts ftype us f v zero other = rw (zero, other) refl

stops :
    (ts ftype : ℕ) (k : Cut) (f : File) (v : Movie)
    → (v.firts == 0) ≡ true
    → finish ts ftype k (f, v) ≡ some ((f, v), pos 0)
stops ts ftype k f v zero = rw zero refl

write_on-Idle :
    (now : ℕ) (x : Frame) (c : List ℕ) (v : Movie) {q : (File × Movie) × ℤ}
    → (v.firts == 0) ≡ true
    → v.seq ≡ 0
    → IsAtZero x
    → write_on now x.ts x.ftype x.block x.len (at_end c) v ≡ some q
    → Idle c (own_head now x) q.0.0 q.0.1
unfolding write_on
write_on-Idle now x c v {q} zero numbered at e =
    let (k, cut, h) = >>=-eq-some (frame_data x.ftype x.block x.len) _ e in
    elim (Bool-cases (x.ftype == 1)) [
      | inl key ↦
          let (s, start, h1) =
            >>=-eq-some (write_ftyp_moov now k.units (at_end c) >>= λ g. some (g, reset x v))
              (finish x.ts x.ftype k)
              (ap (λ o. o >>= finish x.ts x.ftype k)
                  (sym (begins_again now x.ts x.ftype k.units (at_end c) v zero key))
                ∙ h) in
          let (g, moov, same) = >>=-eq-some (write_ftyp_moov now k.units (at_end c)) _ start in
          let (t, made, file) = write_ftyp_moov-head now k.units c moov in
          let all : ((g, reset x v), pos 0) ≡ q = some-injective _ _ (
            sym (stops x.ts x.ftype k g (reset x v) at)
            ∙ ap (finish x.ts x.ftype k) (some-injective _ _ same)
            ∙ h1) in
          let own : head_of now (make_video make_trak (frame_units x)) ≡ head now 0 t =
            ap (λ o. head_of now (make_video make_trak (units_of o))) cut ∙ ap (head_of now) made in
          rw key (record {
            content = ap (λ p. p.0.0) (sym all) ∙ file ∙ ap (λ b. at_end (c ++ b)) (sym own);
            firts = ap (λ p. p.0.1.firts == 0) (sym all) ∙ at;
            seq = ap (λ p. p.0.1.seq) (sym all) ∙ numbered;
          })
      | inr other ↦
          let same : ((at_end c, v), pos 0) ≡ q = some-injective _ _ (
            sym (stops x.ts x.ftype k (at_end c) v zero)
            ∙ ap (λ o. o >>= finish x.ts x.ftype k)
                (sym (begins_not now x.ts x.ftype k.units (at_end c) v zero other))
            ∙ h) in
          rw other (record {
            content = ap (λ p. p.0.0) (sym same) ∙ ap at_end (sym (append-nil c));
            firts = ap (λ p. p.0.1.firts == 0) (sym same) ∙ zero;
            seq = ap (λ p. p.0.1.seq) (sym same) ∙ numbered;
          })
    ]

heads_from :
    (now : ℕ) (xs : List Frame) (c : List ℕ) (v : Movie) {m : Fmp4}
    → (v.firts == 0) ≡ true
    → v.seq ≡ 0
    → All IsAtZero xs
    → write_frames now xs (opened (at_end c) v) ≡ some m
    → (w : Movie) × (m ≡ opened (at_end (c ++ heads now xs)) w) × (w.seq ≡ 0)
unfolding write_frame
heads_from now [] c v zero numbered at e =
    (v, some-injective _ _ (sym e) ∙ ap (λ r. opened (at_end r) v) (sym (append-nil c)), numbered)
heads_from now (x ∷ xs) c v {m} zero numbered at e =
    let (r, one, others) =
      >>=-eq-some (write_frame now x.ts x.ftype x.block x.len (opened (at_end c) v)) _ e in
    let (q, on, stored) =
      >>=-eq-some (write_on now x.ts x.ftype x.block x.len (at_end c) v) _ one in
    let idle : Idle c (own_head now x) q.0.0 q.0.1 =
      write_on-Idle now x c v zero numbered at.0 on in
    let state : opened (at_end (c ++ own_head now x)) q.0.1 ≡ r.0 =
      ap (λ g. opened g q.0.1) (sym idle.content) ∙ ap (λ p. p.0) (some-injective _ _ stored) in
    let (w, file, seq) =
      heads_from now xs (c ++ own_head now x) q.0.1 idle.firts idle.seq at.1
        (ap (write_frames now xs) state ∙ others) in
    (w, file ∙ ap (λ b. opened (at_end b) w) (append_assoc c (own_head now x) (heads now xs)), seq)

-- Frames of the time 0 alone: whatever they are, the open file of a new writer is one head after the
-- other, one for every key frame, with nothing of any frame, and no frame was numbered.
pub write_frames-heads :
    (now : ℕ) (xs : List Frame) {m : Fmp4}
    → All IsAtZero xs
    → write_frames now xs (open_file true new_fmp4).0 ≡ some m
    → (w : Movie) × (m ≡ opened (at_end (heads now xs)) w) × (w.seq ≡ 0)
unfolding open_file
write_frames-heads now xs at e = heads_from now xs [] new_movie refl refl at e
