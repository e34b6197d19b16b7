-- ===== src/Frames/Reading.antt =====
-- The frames that `Read` gives are the file, cut before start codes.
use inc.Prelude.{
  ℕ, zero, suc, ◌+◌, ◌-◌, ◌≤◌, ◌<◌, ◌≡◌, ◌∙◌, refl, sym, ap, List, [], ◌∷◌, ◌++◌, Bool, true, false,
  Option, none, some, arith, Bool-cases, inl, inr, ◌⊎◌, ◌||◌, ◌&&◌, not, ◌==◌, length, take, drop,
  take-append-drop, append_assoc, drop-drop, take-take, take-nil, length-take,
}
use inc.Text.{is_prefix}
use inc.Frames.{File, is_slice, scan, read_264_frame, read, start_code, read_buf_siz, found}

scan_lt :
    (k : ℕ) (ok : Bool) (i j : ℕ) (b : List ℕ) → scan k ok i b ≡ some j → (i ≤ j) × (j < i + k)
unfolding scan
scan_lt zero ok i j b e = ground arith
scan_lt (suc k) ok i j b e =
    ground (arith, scan_lt k (ok || (is_prefix start_code b && is_slice b)) (suc i) j (drop 1 b))

scan_start :
    (k : ℕ) (ok : Bool) (i j : ℕ) (b : List ℕ)
    → scan k ok i b ≡ some j
    → is_prefix start_code (drop (j - i) b) ≡ true
unfolding scan
scan_start zero ok i j b e = ground arith
scan_start (suc k) ok i j b e =
    let ok' = ok || (is_prefix start_code b && is_slice b) in
    elim (Bool-cases (is_prefix start_code b && ok)) [
      | inl hit ↦ let same : j - i ≡ 0 = ground arith in rw same (ground arith)
      | inr miss ↦
          let on : scan k ok' (suc i) (drop 1 b) ≡ some j = rw miss at e in
          let (l, _) = scan_lt k ok' (suc i) j (drop 1 b) on in
          let one : 1 + (j - suc i) ≡ j - i = omega arith in
          ap (is_prefix start_code) (ap (λ n. drop n b) (sym one) ∙ sym (drop-drop (j - suc i) 1 b))
          ∙ scan_start k ok' (suc i) j (drop 1 b) on
    ]

is_prefix-take : (p s : List ℕ) (n : ℕ) → is_prefix p (take n s) ≡ true → is_prefix p s ≡ true
unfolding is_prefix
is_prefix-take [] s n e = refl
is_prefix-take (a ∷ p) [] zero e = ground arith
is_prefix-take (a ∷ p) [] (suc n) e = ground arith
is_prefix-take (a ∷ p) (x ∷ s) zero e = ground arith
is_prefix-take (a ∷ p) (x ∷ s) (suc n) e = ground (arith, is_prefix-take p s n)

drop-take : (m n : ℕ) (xs : List ℕ) → drop m (take n xs) ≡ take (n - m) (drop m xs)
drop-take zero n xs = ap (λ k. take k xs) {y = n - 0} (omega arith)
drop-take (suc m) zero [] = ap (λ k. take k []) {x = 0} {y = 0 - suc m} (omega arith)
drop-take (suc m) zero (x ∷ xs) = ap (λ k. take k (drop m xs)) {x = 0} {y = 0 - suc m} (omega arith)
drop-take (suc m) (suc n) [] = sym (take-nil [] (suc n - suc m) refl)
drop-take (suc m) (suc n) (x ∷ xs) =
    drop-take m n xs ∙ ap (λ k. take k (drop m xs)) {x = n - m} (omega arith)

-- The rest of the file.
abbrev pub rest : File → List ℕ
rest f = drop f.pos f.content

-- One frame: what is read and the rest are the file from the old position on, and the rest begins
-- with a start code.
abbrev pub IsCut : File → List ℕ → File → Type 0
IsCut f frame f' =
    (frame ++ rest f' ≡ rest f)
    × (is_prefix start_code (rest f') ≡ true)
    × (f'.opened ≡ f.opened)
    × (f'.content ≡ f.content)
    × (f.pos ≤ f'.pos)

no_frame :
    {f f' : File} {frame : List ℕ} {ftype : ℕ}
    → ◌≡◌ {A = Option (List ℕ × ℕ) × File} (none, f) (some (frame, ftype), f')
    → ⊥
no_frame e = ground arith

found_cuts :
    (f f' : File) (frame : List ℕ) (ftype n j : ℕ)
    → j ≤ n
    → is_prefix start_code (drop j (take n (rest f))) ≡ true
    → found (some j) (take n (rest f)) f ≡ (some (frame, ftype), f')
    → IsCut f frame f'
found_cuts f f' frame ftype n j short start e =
    let cut : take j (take n (rest f)) ≡ frame = ground arith in
    let moved : f' ≡ record f { pos = f.pos + j } = ground arith in
    let front : take j (rest f) ≡ frame = sym (take-take j n (rest f) short) ∙ cut in
    let behind = drop-drop j f.pos f.content in
    let starts : is_prefix start_code (drop j (rest f)) ≡ true =
      is_prefix-take start_code (drop j (rest f)) (n - j)
        (ap (is_prefix start_code) (sym (drop-take j n (rest f))) ∙ start) in
    rw (moved) (
      ap (λ r. frame ++ r) (sym behind)
          ∙ ap (λ r. r ++ drop j (rest f)) (sym front)
          ∙ take-append-drop j (rest f),
      ap (is_prefix start_code) (sym behind) ∙ starts,
      refl,
      refl,
      omega arith,
    )

scanned_cuts :
    (f f' : File) (frame : List ℕ) (ftype n : ℕ) (o : Option ℕ)
    → scan (length (take n (rest f)) - 5) false 0 (take n (rest f)) ≡ o
    → found o (take n (rest f)) f ≡ (some (frame, ftype), f')
    → IsCut f frame f'
scanned_cuts f f' frame ftype n none s e = absurd (no_frame e)
scanned_cuts f f' frame ftype n (some j) s e =
    let block = take n (rest f) in
    let k = length block - 5 in
    let (_, bound) = scan_lt k false 0 j block s in
    let short = length-take n (rest f) in
    let whole : j - 0 ≡ j = omega arith in
    found_cuts f f' frame ftype n j (omega arith) (rw whole at (scan_start k false 0 j block s)) e

read_cuts :
    (f f' : File) (frame : List ℕ) (ftype : ℕ)
    → read f ≡ (some (frame, ftype), f')
    → IsCut f frame f'
unfolding read read_264_frame
read_cuts f f' frame ftype e =
    let block = take read_buf_siz (rest f) in
    elim (Bool-cases (not f.opened || (length block == 0))) [
      | inl stop ↦ absurd (no_frame (rw stop at e))
      | inr go ↦
          scanned_cuts f f' frame ftype read_buf_siz (scan (length block - 5) false 0 block) refl
            (rw go at e)
    ]

abbrev after : Option (List ℕ × ℕ) → List (List ℕ) × File → File → List (List ℕ) × File
after none more f = ([], f)
after (some r) more f = (r.0 ∷ more.0, more.1)

-- At most so many calls of `Read`, up to the first that gives no frame: the frames, and the file
-- before that call.
unfoldable pub read_all : ℕ → File → List (List ℕ) × File
read_all zero f = ([], f)
read_all (suc k) f = after (read f).0 (read_all k (read f).1) f

abbrev pub joined : List (List ℕ) → List ℕ
joined [] = []
joined (frame ∷ frames) = frame ++ joined frames

abbrev pub IsWhole : ℕ → File → List (List ℕ) × File → Type 0
IsWhole k f (frames, f') =
    (joined frames ++ rest f' ≡ rest f)
    × (((frames ≡ []) × (f' ≡ f)) ⊎ (is_prefix start_code (rest f') ≡ true))
    × ((length frames ≡ k) ⊎ ((read f').0 ≡ none))

after-IsWhole :
    (k : ℕ) (f f1 : File) (o : Option (List ℕ × ℕ)) (more : List (List ℕ) × File)
    → read f ≡ (o, f1)
    → IsWhole k f1 more
    → IsWhole (suc k) f (after o more f)
after-IsWhole k f f1 none more e h = (refl, inl (refl, refl), inr (ap (λ r. r.0) e))
after-IsWhole k f f1 (some (frame, ftype)) (frames, f') e h =
    let c = read_cuts f f1 frame ftype e in
    (
      append_assoc frame (joined frames) (rest f') ∙ ap (λ s. frame ++ s) h.0 ∙ c.0,
      inr (elim h.1 [ inl q ↦ ap (λ g. is_prefix start_code (rest g)) q.1 ∙ c.1 | inr p ↦ p ]),
      elim h.2 [ inl n ↦ inl (ap suc n) | inr stop ↦ inr stop ],
    )

-- Calls of `Read`, at most `k` and up to the first that gives no frame: the frames that they give one
-- after the other, followed by the file from the position before that call, or behind the last frame
-- where every call gave one, are the file from the position where the calls began: between frames
-- nothing is left out, repeated or changed. With a frame at all, that rest begins with a start code;
-- with none, it is from the position of the beginning. Where there are fewer frames than `k`, the next
-- `Read` from there gives none.
pub read_all-IsWhole : (k : ℕ) (f : File) → IsWhole k f (read_all k f)
unfolding read_all
read_all-IsWhole zero f = (refl, inl (refl, refl), inl refl)
read_all-IsWhole (suc k) f =
    after-IsWhole k f (read f).1 (read f).0 (read_all k (read f).1) refl
      (read_all-IsWhole k (read f).1)
