-- ===== src/Frames/First.antt =====
-- The frame that `Read` gives: up to the first start code behind a slice at the front.
use inc.Prelude.{
  ℕ, zero, suc, ◌+◌, ◌-◌, ◌%◌, ◌^◌, ◌<◌, ◌≡◌, ◌∙◌, refl, ap, ap₂, List, [], ◌∷◌, true, false, some,
  arith, ◌==◌, if◌then◌else◌, length, take, drop, drop-nil, get_or,
}
use inc.Text.{is_prefix}
use inc.Frames.{File, is_slice, scan, read_264_frame, read, start_code, read_buf_siz}

-- No start code begins at one of the first `m` indices.
abbrev pub Plain : ℕ → List ℕ → Type 0
Plain m b = (i : ℕ) → i < m → is_prefix start_code (drop i b) ≡ false

drop_one : (m : ℕ) (b : List ℕ) → drop m (drop 1 b) ≡ drop (suc m) b
drop_one m [] = drop-nil [] m refl
drop_one m (x ∷ b) = refl

scan_skip :
    (m k : ℕ) (i : ℕ) (b : List ℕ)
    → Plain m b
    → scan (m + k) true i b ≡ scan k true (i + m) (drop m b)
unfolding scan
scan_skip zero k i b h = ap₂ (λ r n. scan r true n b) (omega arith) (omega arith)
scan_skip (suc m) k i b h =
    let rounds : suc m + k ≡ suc (m + k) = omega arith in
    let here : is_prefix start_code b ≡ false = h 0 (omega arith) in
    rw (rounds, scan, here)
      (scan_skip m k (suc i) (drop 1 b)
          (λ n l. ap (is_prefix start_code) (drop_one n b) ∙ h (suc n) (omega arith))
        ∙ ap₂ (λ n r. scan k true n r) (omega arith) (drop_one m b))

scan_hit : (k i : ℕ) (b : List ℕ) → is_prefix start_code b ≡ true → scan (suc k) true i b ≡ some i
unfolding scan
scan_hit k i b h = rw h refl

scan_slice :
    (k : ℕ) (b : List ℕ)
    → is_prefix start_code b ≡ true
    → is_slice b ≡ true
    → scan (suc k) false 0 b ≡ scan k true 1 (drop 1 b)
unfolding scan
scan_slice k b h s = rw (scan, h, s) refl

unequal : (n : ℕ) → 0 < n → (n == 0) ≡ false
unequal n h = ground arith

-- Where a slice stands at the front of the memory, and the next start code at index `suc m`, inside
-- `len`, `read264frame` gives that index.
read_264_frame_lem :
    (m len : ℕ) (b : List ℕ)
    → is_prefix start_code b ≡ true
    → is_slice b ≡ true
    → Plain m (drop 1 b)
    → is_prefix start_code (drop (suc m) b) ≡ true
    → suc m < len
    → read_264_frame b len ≡ some (suc m)
unfolding read_264_frame
read_264_frame_lem m len b front slice plain next inside =
    let left = len - suc (suc m) in
    let rounds : len ≡ suc (m + suc left) = omega arith in
    let skip = scan_skip m (suc left) 1 (drop 1 b) plain in
    let there = drop_one m b in
    ap (λ n. scan n false 0 b) rounds
    ∙ scan_slice (m + suc left) b front slice
    ∙ skip
    ∙ scan_hit left (1 + m) (drop m (drop 1 b)) (ap (is_prefix start_code) there ∙ next)
    ∙ ap some (omega arith)

-- `Read` of an open file, at whose position a slice begins and whose next start code stands `suc m`
-- bytes behind it, with more than five bytes from there to the end of the file or of
-- the buffer: it returns the slice, type 2 for a slice of type 1 and type 1 for one of type 5, and
-- moves the position to the start code.
pub read_slice :
    (m : ℕ) (f : File)
    → let b = take read_buf_siz (drop f.pos f.content) in
      f.opened ≡ true
      → is_prefix start_code b ≡ true
      → is_slice b ≡ true
      → Plain m (drop 1 b)
      → is_prefix start_code (drop (suc m) b) ≡ true
      → suc m + 5 < length b
      → read f ≡ (
        some (take (suc m) b, if get_or b 4 0 % 2 ^ 5 == 1 then 2 else 1),
        record f { pos = f.pos + suc m },
      )
unfolding read
read_slice m f ready front slice plain next inside =
    let b = take read_buf_siz (drop f.pos f.content) in
    let some_bytes : (length b == 0) ≡ false = unequal (length b) (omega arith) in
    let cut = read_264_frame_lem m (length b - 5) b front slice plain next (omega arith) in
    rw (ready, some_bytes, cut) refl
