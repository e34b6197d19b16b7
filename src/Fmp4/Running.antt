-- ===== src/Fmp4/Running.antt =====
-- A sequence of frames: nothing is written before the first key frame, and from there on every frame
-- has its two boxes.
use inc.Prelude.{
  ℕ, ◌+◌, ◌<◌, ◌≡◌, refl, sym, ap, ap₂, ◌∙◌, List, [], ◌∷◌, ◌++◌, false, Option, some, ◌>>=◌,
  >>=-eq-some, append_assoc, append-nil, All, ◌==◌, if◌then◌else◌,
}
use mathlib.Core.Option.{some-injective}
use inc.Prelude.Int.{ℤ, pos}
use inc.Prelude.Word.{u32}
use inc.Output.{File, Cut, frame_data, Frame, payload}
use inc.Output.Stream.{at_end}
use inc.Fmp4.{Movie, Fmp4, begin_file, add_frame, write_on, write_frame}
use inc.Fmp4.Fragments.{After, fragment, add_frame-After, IsMarshalled}

-- `WriteFrame` for one frame after another.
abbrev pub write_frames : ℕ → List Frame → Fmp4 → Option Fmp4
write_frames now [] m = some m
write_frames now (x ∷ xs) m =
    write_frame now x.ts x.ftype x.block x.len m >>= λ r. write_frames now xs r.0

abbrev pub opened : File → Movie → Fmp4
opened f v = record { file = some f; movie = v }

-- The boxes of the frames, numbered from `n`, when the one before was at the time `last`.
abbrev pub fragments : ℕ → ℕ → ℕ → List Frame → List ℕ
fragments n first last [] = []
fragments n first last (x ∷ xs) =
    fragment n first last x.ts x.ftype (payload x) ++ fragments (n + 1) first x.ts xs

abbrev pub last_time : ℕ → List Frame → ℕ
last_time last [] = last
last_time last (x ∷ xs) = last_time x.ts xs

-- The kinds of frames that the code knows.
abbrev pub IsKnown : Frame → Type 0
IsKnown x = x.ftype < 4

pub record Ran (c : List ℕ) (v : Movie) (n : ℕ) (xs : List Frame) (m : Fmp4) : Type 0 where
  pub movie : Movie
  pub file : m ≡ opened (at_end (c ++ fragments n v.firts v.lsts xs)) movie
  pub firts : movie.firts ≡ v.firts
  pub lsts : movie.lsts ≡ last_time v.lsts xs

pub goes_on :
    (now ts ftype : ℕ) (k : Cut) (f : File) (v : Movie)
    → (v.firts == 0) ≡ false
    → (begin_file now ts ftype k.units f v >>= λ s.
        if s.1.firts == 0 then some (s, pos 0) else add_frame ts ftype k s.0 s.1)
      ≡ add_frame ts ftype k f v
unfolding begin_file
goes_on now ts ftype k f v begun = rw begun (rw begun refl)

write_on-After :
    (now : ℕ) (c : List ℕ) (v : Movie) (n : ℕ) (x : Frame) {f : File} {v' : Movie} {r : ℤ}
    → IsKnown x
    → v.seq ≡ u32 n
    → IsMarshalled v.moof
    → (v.firts == 0) ≡ false
    → write_on now x.ts x.ftype x.block x.len (at_end c) v ≡ some ((f, v'), r)
    → After c v n x.ts x.ftype (payload x) f v'
unfolding write_on
write_on-After now c v n x {r = r} known numbered marshalled begun e =
    let (k, cut, h) = >>=-eq-some (frame_data x.ftype x.block x.len) _ e in
    rw cut (
      add_frame-After c v n x.ts x.ftype k {r = r} known numbered marshalled
        (sym (goes_on now x.ts x.ftype k (at_end c) v begun) ∙ h))

pub write_frames-Ran :
    (now : ℕ) (c : List ℕ) (v : Movie) (n : ℕ) (xs : List Frame) {m : Fmp4}
    → All IsKnown xs
    → v.seq ≡ u32 n
    → IsMarshalled v.moof
    → (v.firts == 0) ≡ false
    → write_frames now xs (opened (at_end c) v) ≡ some m
    → Ran c v n xs m
unfolding write_frame
write_frames-Ran now c v n [] {m} known numbered marshalled begun e = record {
  movie = v;
  file = some-injective _ _ (sym e) ∙ ap (λ r. opened (at_end r) v) (sym (append-nil c));
  firts = refl;
  lsts = refl;
}
write_frames-Ran now c v n (x ∷ xs) {m} known numbered marshalled begun e =
    let (r, one, others) =
      >>=-eq-some (write_frame now x.ts x.ftype x.block x.len (opened (at_end c) v)) _ e in
    let (((f, v'), z), on, stored) =
      >>=-eq-some (write_on now x.ts x.ftype x.block x.len (at_end c) v) _ one in
    let a : After c v n x.ts x.ftype (payload x) f v' =
      write_on-After now c v n x {r = z} known.0 numbered marshalled begun on in
    let own : List ℕ = fragment n v.firts v.lsts x.ts x.ftype (payload x) in
    let state : opened (at_end (c ++ own)) v' ≡ r.0 =
      ap (λ g. opened g v') (sym a.content) ∙ ap (λ q. q.0) (some-injective _ _ stored) in
    let ran : Ran (c ++ own) v' (n + 1) xs m =
      write_frames-Ran now (c ++ own) v' (n + 1) xs known.1 a.seq a.moof
        (ap (λ t. t == 0) a.firts ∙ begun) (ap (write_frames now xs) state ∙ others) in
    record {
      movie = ran.movie;
      file =
          ran.file
          ∙ ap (λ b. opened (at_end b) ran.movie)
              (append_assoc c own (fragments (n + 1) v'.firts v'.lsts xs)
                ∙ ap₂ (λ first last. c ++ (own ++ fragments (n + 1) first last xs)) a.firts a.lsts);
      firts = ran.firts ∙ a.firts;
      lsts = ran.lsts ∙ ap (λ last. last_time last xs) a.lsts;
    }
