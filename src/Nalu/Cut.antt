-- ===== src/Nalu/Cut.antt =====
-- `Split` on a well-formed frame: it ends, and finds each unit.
use inc.Prelude.{
  ℕ, zero, suc, ◌+◌, ◌-◌, ◌^◌, ◌≤◌, ◌<◌, ◌≡◌, refl, ap, ap₂, ◌∙◌, List, [], ◌∷◌, ◌++◌, true, false,
  some, arith, ltb, get_or, length, append_assoc, append-nil, drop_append, All,
}
use inc.Prelude.Word.{u64}
use inc.Nalu.{int_size, NalUnit, start, at_start, scan, Outcome, rest, split, after_scan}
use inc.Nalu.Join.{split-suc, behind}

-- The units `ps`, then `last`, each behind a start code, and the bytes behind the frame.
abbrev pub frame : List (List ℕ) → List ℕ → List ℕ → List ℕ
frame [] last slack = start ++ (last ++ slack)
frame (p ∷ ps) last slack = start ++ (p ++ frame ps last slack)

abbrev pub frame_size : List (List ℕ) → List ℕ → ℕ
frame_size [] last = 4 + length last
frame_size (p ∷ ps) last = 4 + (length p + frame_size ps last)

abbrev pub unit : List ℕ → List ℕ → NalUnit
unit p q = record { type = get_or (p ++ q) 0 0; size = length p; bytes = p ++ q }

abbrev pub units : List (List ℕ) → List ℕ → List ℕ → List NalUnit
units [] last slack = []
units (p ∷ ps) last slack = unit p (frame ps last slack) ∷ units ps last slack

-- No start code begins inside `u` where `q` follows, and every comparison there can be made.
abbrev pub IsClear : List ℕ → List ℕ → Type 0
IsClear [] q = Unit
IsClear (x ∷ u) q = (at_start (x ∷ (u ++ q)) ≡ some false) × IsClear u q

abbrev pub IsFrame : List (List ℕ) → List ℕ → List ℕ → Type 0
IsFrame [] last slack = IsClear last slack
IsFrame (p ∷ ps) last slack = IsClear p (frame ps last slack) × IsFrame ps last slack

scan-clear :
    (u q : List ℕ) (m i : ℕ)
    → IsClear u q
    → scan (length u + m) (u ++ q) i ≡ scan m q (i + length u)
unfolding scan
scan-clear [] q m i h = ap₂ (λ a b. scan a q b) (omega arith) (omega arith)
scan-clear (x ∷ u) q m i h =
    ap (λ n. scan n (x ∷ (u ++ q)) i) {y = suc (length u + m)} (omega arith)
    ∙ one
    ∙ scan-clear u q m (i + 1) h.1
    ∙ ap (scan m q) (omega arith)
  where
    one : scan (suc (length u + m)) (x ∷ (u ++ q)) i ≡ scan (length u + m) (u ++ q) (i + 1)
    one = rw (h.0, scan)

at_start-frame :
    (ps : List (List ℕ)) (last slack : List ℕ) → at_start (frame ps last slack) ≡ some true
unfolding at_start
at_start-frame [] last slack = refl
at_start-frame (p ∷ ps) last slack = refl

frame_size-pos : (ps : List (List ℕ)) (last : List ℕ) → 4 ≤ frame_size ps last
frame_size-pos [] last = omega arith
frame_size-pos (p ∷ ps) last = omega arith

scan-start : (n : ℕ) (q : List ℕ) (i : ℕ) → 0 < n → at_start q ≡ some true → scan n q i ≡ some i
unfolding scan
scan-start zero q i h e = absurd (omega arith)
scan-start (suc n) q i h e = rw (e, scan)

scan-piece :
    (p : List ℕ) (ps : List (List ℕ)) (last slack : List ℕ)
    → IsClear p (frame ps last slack)
    → scan (length p + frame_size ps last) (p ++ frame ps last slack) 0 ≡ some (length p)
scan-piece p ps last slack h =
    scan-clear p (frame ps last slack) (frame_size ps last) 0 h
    ∙ scan-start (frame_size ps last) (frame ps last slack) (0 + length p)
        (omega (arith, frame_size-pos ps last)) (at_start-frame ps last slack)
    ∙ ap some (omega arith)

scan-last :
    (last slack : List ℕ)
    → IsClear last slack
    → scan (length last) (last ++ slack) 0 ≡ some (length last)
unfolding scan
scan-last last slack h =
    ap (λ n. scan n (last ++ slack) 0) (omega arith)
    ∙ scan-clear last slack 0 0 h
    ∙ ap some (omega arith)

behind_size : (n : ℕ) → 4 + n < 2 ^ 64 → behind (4 + n) ≡ n
behind_size n h = omega arith

less_piece : (n m : ℕ) → n + m < 2 ^ 64 → u64 (n + m + 2 ^ 64 - n) ≡ m
less_piece n m h = omega arith

pub int_size-small : (n : ℕ) → n < 2 ^ 31 → int_size n ≡ n
int_size-small n h = ground arith

-- What happens behind a start code, by where the loop ended.
after_scan-stop :
    (f : List ℕ → ℕ → List NalUnit → Outcome) (p : List ℕ) (n : ℕ) (us : List NalUnit)
    → after_scan f p n us (some n) ≡ rest p n us
after_scan-stop f p n us = let e : ltb n n ≡ false = ground arith in rw e

after_scan-more :
    (f : List ℕ → ℕ → List NalUnit → Outcome) (p q : List ℕ) (m : ℕ) (us : List NalUnit)
    → 0 < m
    → length p < 2 ^ 31
    → length p + m < 2 ^ 64
    → after_scan f (p ++ q) (length p + m) us (some (length p)) ≡ f q m (us ++ (unit p q ∷ []))
after_scan-more f p q m us h short fits =
    let e : ltb (length p) (length p + m) ≡ true = ground arith in
    rw (
      e,
      drop_append p q (length p) refl,
      less_piece (length p) m fits,
      int_size-small (length p) short,
    )

-- Each unit but the last is shorter than 2 ^ 31 bytes.
abbrev pub AreShort : List (List ℕ) → Type 0
AreShort ps = All (λ p. length p < 2 ^ 31) ps

-- On a frame shorter than 2 ^ 64 bytes of units in none of which a start code begins, those before
-- the last shorter than 2 ^ 31, with the bytes behind the frame that
-- the comparisons read, `Split` ends: it returns the last unit with its length and adds one entry
-- for each unit before it, with the unit's first byte, its size and a pointer to it.
pub split-frame :
    (ps : List (List ℕ)) (last slack : List ℕ) (us : List NalUnit) (fuel : ℕ)
    → IsFrame ps last slack
    → AreShort ps
    → frame_size ps last < 2 ^ 64
    → length ps < fuel
    → split fuel (frame ps last slack) (frame_size ps last) us
      ≡ rest (last ++ slack) (length last) (us ++ units ps last slack)
split-frame ps last slack us zero h short fits enough = absurd (omega arith)
split-frame [] last slack us (suc fuel) h short fits enough =
    split-suc fuel (frame [] last slack) (4 + length last) us (at_start-frame [] last slack)
    ∙ rw (behind_size (length last) fits, scan-last last slack h, append-nil us)
        (after_scan-stop (split fuel) (last ++ slack) (length last) us)
split-frame (p ∷ ps) last slack us (suc fuel) h short fits enough =
    let q = frame ps last slack in
    let m = frame_size ps last in
    split-suc fuel (frame (p ∷ ps) last slack) (4 + (length p + m)) us
      (at_start-frame (p ∷ ps) last slack)
    ∙ rw (behind_size (length p + m) fits, scan-piece p ps last slack h.0)
        (after_scan-more (split fuel) p q m us (omega (arith, frame_size-pos ps last)) short.0
          (omega arith))
    ∙ split-frame ps last slack (us ++ (unit p q ∷ [])) fuel h.1 short.1 (omega arith) (omega arith)
    ∙ ap (rest (last ++ slack) (length last))
        (append_assoc us (unit p q ∷ []) (units ps last slack))
