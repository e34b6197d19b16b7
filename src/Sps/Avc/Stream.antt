-- ===== src/Sps/Avc/Stream.antt =====
-- `avc::decode_sps` on the bytes of a unit as a stream holds them.
use inc.Prelude.{
  ℕ, zero, suc, ◌+◌, ◌*◌, ◌^◌, ◌≤◌, ◌<◌, ◌≡◌, refl, ap, ◌∙◌, List, [], ◌∷◌, ◌++◌, true, some, arith,
  length, All, get_elem?, get_elem?-append_lt,
}
use inc.Prelude.Word.{IsByte}
use mathlib.Core.Path.{subst}
use inc.Sps.{de_emulation_prevention, c_str}
use inc.Sps.Bits.{bits, bits_of_byte, BitsAt}
use inc.Sps.Protect.{protect, quiet, de_emulation_prevention-protect}
use inc.Sps.Avc.{decode_sps}
use inc.Sps.Avc.Encode.{ParameterSet, encode, IsParameterSet}
use inc.Sps.Avc.RoundTrip.{info_of, decode_bits-encode}

bits-append : (xs ys : List ℕ) → bits (xs ++ ys) ≡ bits xs ++ bits ys
bits-append [] ys = refl
bits-append (x ∷ xs) ys = ap (λ r. bits_of_byte x ++ r) (bits-append xs ys)

get_elem?-some : (xs : List ℕ) (i b : ℕ) → get_elem? xs i ≡ some b → i < length xs
get_elem?-some [] i b e = ground (arith, e)
get_elem?-some (x ∷ xs) zero b e = omega arith
get_elem?-some (x ∷ xs) (suc i) b e = omega (arith, get_elem?-some xs i b e)

length-bits : (xs : List ℕ) → length (bits xs) ≡ length xs * 8
length-bits [] = refl
length-bits (x ∷ xs) = omega (arith, length-bits xs)

BitsAt-longer : (xs ys : List ℕ) (k : ℕ) (bs : List ℕ) → BitsAt xs k bs → BitsAt (xs ++ ys) k bs
BitsAt-longer xs ys k [] h = tt
BitsAt-longer xs ys k (b ∷ bs) h = (
  rw (bits-append xs ys)
      (get_elem?-append_lt (bits xs) (bits ys) k (get_elem?-some (bits xs) k b (h.0)) ∙ h.0),
  BitsAt-longer xs ys (k + 1) bs (h.1),
)

BitsAt-inside :
    (xs : List ℕ) (k : ℕ) (bs : List ℕ)
    → BitsAt xs k bs
    → k ≤ length xs * 8
    → k + length bs ≤ length xs * 8
BitsAt-inside xs k [] h start = omega arith
BitsAt-inside xs k (b ∷ bs) h start =
    let here : k < length (bits xs) = get_elem?-some (bits xs) k b (h.0) in
    omega (arith, length-bits xs, BitsAt-inside xs (k + 1) bs (h.1) (omega (arith, length-bits xs)))

All-append : (xs ys : List ℕ) → All IsByte xs → All IsByte ys → All IsByte (xs ++ ys)
All-append [] ys h g = g
All-append (x ∷ xs) ys h g = (h.0, All-append xs ys (h.1) g)

decode_sps-unit :
    (s unit junk : List ℕ) (p : ParameterSet) (width height : ℕ)
    → de_emulation_prevention (c_str s) (length s) ≡ some (unit ++ junk, length unit)
    → All IsByte (unit ++ junk)
    → IsParameterSet p
    → BitsAt unit 0 (encode p)
    → decode_sps s width height ≡ some (info_of p)
unfolding decode_sps
decode_sps-unit s unit junk p width height e h ok at =
    rw (e, decode_sps)
      (rw
        (decode_bits-encode (unit ++ junk) (length unit) p width height 0 h ok
          (BitsAt-longer unit junk 0 (encode p) at)
          (BitsAt-inside unit 0 (encode p) at (omega arith)))
        refl)

-- A unit that begins with the bits of a parameter set whose fields are in range, in which no 3
-- stands behind three zeros, and which the emulation prevention of the standard was applied to,
-- is decoded: the decoder succeeds with 16 times the macroblocks in a row as the width and 16 times the
-- map units in a column as the height, for cropped sets and sets of fields too, and with the frame
-- rate, 25 for a rate of 0. The profile is one for which the code and the standard agree on the chroma
-- fields, and there is no scaling matrix.
pub decode_sps-protect :
    (a b : ℕ) (t : List ℕ) (p : ParameterSet) (width height : ℕ)
    → All IsByte (a ∷ b ∷ t)
    → quiet 1 a b t ≡ true
    → length (protect a b t) + 2 < 2 ^ 32
    → IsParameterSet p
    → BitsAt (a ∷ b ∷ t) 0 (encode p)
    → decode_sps (a ∷ b ∷ protect a b t) width height ≡ some (info_of p)
decode_sps-protect a b t p width height h calm small ok at =
    let (junk, (e, bytes)) = de_emulation_prevention-protect a b t h calm small in
    let same : length (protect a b t) + 2 ≡ length (a ∷ b ∷ protect a b t) = omega arith in
    decode_sps-unit (a ∷ b ∷ protect a b t) (a ∷ b ∷ t) junk p width height
      (subst
        (λ (n : ℕ).
          de_emulation_prevention (c_str (a ∷ b ∷ protect a b t)) n
          ≡ some ((a ∷ b ∷ t) ++ junk, length (a ∷ b ∷ t)))
        same e)
      (All-append (a ∷ b ∷ t) junk h bytes) ok at
