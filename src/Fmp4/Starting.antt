-- ===== src/Fmp4/Starting.antt =====
-- The frames of a new writer: the head at the first key frame, and the boxes of every frame from it on.
use inc.Prelude.{
  ℕ, ◌≡◌, refl, sym, ap, ◌∙◌, List, [], ◌∷◌, true, false, Option, none, some, ◌>>=◌, >>=-eq-some,
  All, ◌==◌, if◌then◌else◌, Bool-cases, inl, inr,
}
use mathlib.Core.Option.{some-injective}
use inc.Prelude.Int.{ℤ, pos}
use inc.Nalu.{NalUnit}
use inc.Mp4box.Track.{Trak, make_trak, make_video}
use inc.Output.{File, new_file, Cut, frame_data, Frame, from_key, has_key}
use inc.Output.Stream.{at_end}
use inc.Fmp4.{
  Movie, new_movie, Fmp4, begin_file, write_ftyp_moov, add_frame, write_on, write_frame, store,
  moof_marshal, new_moof,
}
use inc.Fmp4.Head.{head, write_ftyp_moov-head}
use inc.Fmp4.Running.{write_frames, opened, IsKnown, Ran, write_frames-Ran, goes_on}

-- The units that are cut from a frame.
abbrev pub units_of : Option Cut → List NalUnit
units_of none = []
units_of (some k) = k.units

abbrev pub frame_units : Frame → List NalUnit
frame_units x = units_of (frame_data x.ftype x.block x.len)

-- The writer behind the head that a key frame of the time `first` caused.
abbrev pub begun : ℕ → Movie
begun first = record { firts = first; lsts = first; seq = 0; moof = moof_marshal new_moof }

abbrev pub finish : ℕ → ℕ → Cut → File × Movie → Option ((File × Movie) × ℤ)
finish ts ftype k s = if s.1.firts == 0 then some (s, pos 0) else add_frame ts ftype k s.0 s.1

begins :
    (now ts ftype : ℕ) (us : List NalUnit) (f : File)
    → (ftype == 1) ≡ true
    → begin_file now ts ftype us f new_movie
      ≡ (write_ftyp_moov now us f >>= λ g. some (g, begun ts))
unfolding begin_file
begins now ts ftype us f key = rw key refl

begun_lem :
    (now : ℕ) (x : Frame) (k : Cut) (c : List ℕ) {r : (File × Movie) × ℤ}
    → frame_data x.ftype x.block x.len ≡ some k
    → (x.ts == 0) ≡ false
    → add_frame x.ts x.ftype k (at_end c) (begun x.ts) ≡ some r
    → write_on now x.ts x.ftype x.block x.len (at_end c) (begun x.ts) ≡ some r
unfolding write_on
begun_lem now x k c cut later h =
    rw cut (goes_on now x.ts x.ftype k (at_end c) (begun x.ts) later ∙ h)

not_first :
    (ts ftype : ℕ) (k : Cut) (f : File)
    → (ts == 0) ≡ false
    → finish ts ftype k (f, begun ts) ≡ add_frame ts ftype k f (begun ts)
not_first ts ftype k f later = rw later refl

-- A key frame of a time that is not 0 is written as one behind the head.
start_lem :
    (now : ℕ) (x : Frame) {r : (File × Movie) × ℤ}
    → (x.ftype == 1) ≡ true
    → (x.ts == 0) ≡ false
    → write_on now x.ts x.ftype x.block x.len new_file new_movie ≡ some r
    → (t : Trak) × (make_video make_trak (frame_units x) ≡ some t)
      × (write_on now x.ts x.ftype x.block x.len (at_end (head now 0 t)) (begun x.ts) ≡ some r)
unfolding write_on
start_lem now x {r} key later e =
    let (k, cut, h) = >>=-eq-some (frame_data x.ftype x.block x.len) _ e in
    let (s, start, h1) =
      >>=-eq-some (write_ftyp_moov now k.units new_file >>= λ g. some (g, begun x.ts))
        (finish x.ts x.ftype k)
        (ap (λ o. o >>= finish x.ts x.ftype k) (sym (begins now x.ts x.ftype k.units new_file key))
          ∙ h) in
    let (g, moov, same) = >>=-eq-some (write_ftyp_moov now k.units new_file) _ start in
    let (t, made, file) = write_ftyp_moov-head now k.units [] moov in
    (
      t,
      ap (λ o. make_video make_trak (units_of o)) cut ∙ made,
      begun_lem now x k (head now 0 t) cut later (
          ap (λ f. add_frame x.ts x.ftype k f (begun x.ts)) (sym file)
          ∙ sym (not_first x.ts x.ftype k g later)
          ∙ ap (finish x.ts x.ftype k) (some-injective _ _ same)
          ∙ h1),
    )

-- A frame before the first key frame changes nothing.
idle_lem :
    (now : ℕ) (x : Frame) {r : (File × Movie) × ℤ}
    → (x.ftype == 1) ≡ false
    → write_on now x.ts x.ftype x.block x.len new_file new_movie ≡ some r
    → r ≡ ((new_file, new_movie), pos 0)
unfolding write_on begin_file
idle_lem now x {r} other e =
    let (k, cut, h) = >>=-eq-some (frame_data x.ftype x.block x.len) _ e in
    let same : begin_file now x.ts x.ftype k.units new_file new_movie ≡ some (new_file, new_movie) =
      rw (other, begin_file) refl in
    some-injective _ _ (sym (ap (λ o. o >>= finish x.ts x.ftype k) (sym same) ∙ h))

-- The time and the units of the first of them.
abbrev pub first_time : List Frame → ℕ
first_time [] = 0
first_time (x ∷ xs) = x.ts

abbrev pub first_units : List Frame → List NalUnit
first_units [] = []
first_units (x ∷ xs) = frame_units x

-- The writer after the frames `ys`, of which the first was a key frame.
pub record Begun (now : ℕ) (ys : List Frame) (m : Fmp4) : Type 0 where
  pub trak : Trak
  pub made : make_video make_trak (first_units ys) ≡ some trak
  pub ran : Ran (head now 0 trak) (begun (first_time ys)) 0 ys m

pub write_frames-Begun :
    (now : ℕ) (xs : List Frame) {m : Fmp4}
    → has_key xs ≡ true
    → All IsKnown (from_key xs)
    → (first_time (from_key xs) == 0) ≡ false
    → write_frames now xs (opened new_file new_movie) ≡ some m
    → Begun now (from_key xs) m
unfolding write_frame moof_marshal
write_frames-Begun now [] has known later e = cc
write_frames-Begun now (x ∷ xs) {m} has known later e =
    let (r, one, others) =
      >>=-eq-some (write_frame now x.ts x.ftype x.block x.len (opened new_file new_movie)) _ e in
    let (q, on, stored) =
      >>=-eq-some (write_on now x.ts x.ftype x.block x.len new_file new_movie) _ one in
    elim (Bool-cases (x.ftype == 1)) [
      | inl key ↦
          let (t, made, again) = start_lem now x key (rw key at later) on in
          rw key (record {
            trak = t;
            made = made;
            ran =
                write_frames-Ran now (head now 0 t) (begun x.ts) 0 (x ∷ xs) (rw key at known) refl
                  refl (rw key at later)
                  (ap (λ o. (o >>= λ s. some (store s)) >>= λ p. write_frames now xs p.0)
                      (again ∙ sym on)
                    ∙ e);
          })
      | inr other ↦ rw other (
          write_frames-Begun now xs (rw other at has) (rw other at known) (rw other at later) (
            sym (ap (λ s. write_frames now xs (store s).0) (idle_lem now x other on))
            ∙ ap (λ p. write_frames now xs p.0) (some-injective _ _ stored)
            ∙ others))
    ]
