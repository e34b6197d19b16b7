-- ===== src/Byte/Vars.antt =====
-- byte.hpp, the macros GETVAR_8 to GETAVR_BE64 that compile, on a pointer `p` to unsigned bytes: the list of the
-- bytes from there on. They give the number and move `p` behind it. GETVAR_BE32, whose
-- last line lacks its semicolon, compiles nowhere and is left out. Where a shifted byte stays inside its word no cut is written.
use inc.Prelude.{
  ℕ, ◌+◌, ◌-◌, ◌*◌, ◌^◌, ◌<◌, ◌≡◌, ◌∙◌, ap, bit_or, List, [], ◌∷◌, Option, none, some, arith, ltb,
  if◌then◌else◌, All,
}
use inc.Prelude.Bits.{or_cut, or_fields, zero_or, or_ones, or_comm}
use inc.Prelude.Word.{IsByte}

abbrev pub getvar_8 : List ℕ → Option (ℕ × List ℕ)
getvar_8 (a ∷ p) = some (a, p)
getvar_8 _ = none

abbrev pub getvar_le16 : List ℕ → Option (ℕ × List ℕ)
getvar_le16 (a ∷ b ∷ p) = some (bit_or a (b * 2 ^ 8), p)
getvar_le16 _ = none

abbrev pub getvar_be16 : List ℕ → Option (ℕ × List ℕ)
getvar_be16 (a ∷ b ∷ p) = some (bit_or (a * 2 ^ 8) b, p)
getvar_be16 _ = none

-- `a | b << 8 | c << 16 | d << 24`, from the left.
abbrev pub le4 : ℕ → ℕ → ℕ → ℕ → ℕ
le4 a b c d = bit_or (bit_or (bit_or a (b * 2 ^ 8)) (c * 2 ^ 16)) (d * 2 ^ 24)

abbrev pub getvar_le32 : List ℕ → Option (ℕ × List ℕ)
getvar_le32 (a ∷ b ∷ c ∷ d ∷ p) = some (le4 a b c d, p)
getvar_le32 _ = none

abbrev pub getvar_le64 : List ℕ → Option (ℕ × List ℕ)
getvar_le64 (a ∷ b ∷ c ∷ d ∷ e ∷ f ∷ g ∷ h ∷ p) = some (
  bit_or (bit_or (bit_or (bit_or (le4 a b c d) (e * 2 ^ 32)) (f * 2 ^ 40)) (g * 2 ^ 48))
      (h * 2 ^ 56),
  p,
)
getvar_le64 _ = none

-- `(u8)(p)[4] << 24` is an `int`, which is negative from 128 on, and as 64 bits is extended by ones.
abbrev pub top_int : ℕ → ℕ
top_int e = if ltb e 128 then e * 2 ^ 24 else (2 ^ 32 - 1) * 2 ^ 32 + e * 2 ^ 24

unfoldable pub getavr_be64 : List ℕ → Option (ℕ × List ℕ)
getavr_be64 (a ∷ b ∷ c ∷ d ∷ e ∷ f ∷ g ∷ h ∷ p) =
    let high = bit_or (bit_or (bit_or (a * 2 ^ 56) (b * 2 ^ 48)) (c * 2 ^ 40)) (d * 2 ^ 32) in
    some (bit_or (bit_or (bit_or (bit_or high (top_int e)) (f * 2 ^ 16)) (g * 2 ^ 8)) h, p)
getavr_be64 _ = none

or_above : (k v c : ℕ) → v < 2 ^ k → bit_or v (c * 2 ^ k) ≡ c * 2 ^ k + v
or_above k v c h = or_comm v (c * 2 ^ k) ∙ or_fields k c v h

-- The number that four bytes are, the high end first.
abbrev pub number4 : ℕ → ℕ → ℕ → ℕ → ℕ
number4 a b c d = a * 2 ^ 24 + b * 2 ^ 16 + c * 2 ^ 8 + d

high_lem :
    (a b c d : ℕ)
    → IsByte b
    → IsByte c
    → IsByte d
    → bit_or (bit_or (bit_or (a * 2 ^ 56) (b * 2 ^ 48)) (c * 2 ^ 40)) (d * 2 ^ 32)
      ≡ number4 a b c d * 2 ^ 32
high_lem a b c d hb hc hd =
    let e1 : bit_or (a * 2 ^ 56) (b * 2 ^ 48) ≡ (a * 256 + b) * 2 ^ 48 =
      or_fields 56 a (b * 2 ^ 48) (omega arith) ∙ omega arith in
    let e2 : bit_or ((a * 256 + b) * 2 ^ 48) (c * 2 ^ 40) ≡ (a * 65536 + b * 256 + c) * 2 ^ 40 =
      or_fields 48 (a * 256 + b) (c * 2 ^ 40) (omega arith) ∙ omega arith in
    ap (λ x. bit_or (bit_or x (c * 2 ^ 40)) (d * 2 ^ 32)) e1
    ∙ ap (λ x. bit_or x (d * 2 ^ 32)) e2
    ∙ or_fields 40 (a * 65536 + b * 256 + c) (d * 2 ^ 32) (omega arith)
    ∙ omega arith

top_lem :
    (v e : ℕ)
    → IsByte e
    → v < 2 ^ 32
    → bit_or (v * 2 ^ 32) (top_int e) ≡ (if ltb e 128 then v else 2 ^ 32 - 1) * 2 ^ 32 + e * 2 ^ 24
top_lem v e he hv = ground (
  arith,
  or_fields 32 v (e * 2 ^ 24),
  or_cut 32 v (2 ^ 32 - 1) 0 (e * 2 ^ 24),
  or_comm v (2 ^ 32 - 1),
  or_ones 32 v hv,
  zero_or (e * 2 ^ 24),
)

low_lem :
    (v e f g h : ℕ)
    → IsByte e
    → IsByte f
    → IsByte g
    → IsByte h
    → bit_or (bit_or (bit_or (v * 2 ^ 32 + e * 2 ^ 24) (f * 2 ^ 16)) (g * 2 ^ 8)) h
      ≡ v * 2 ^ 32 + number4 e f g h
low_lem v e f g h he hf hg hh =
    let e1 : bit_or (v * 2 ^ 32 + e * 2 ^ 24) (f * 2 ^ 16) ≡ (v * 65536 + e * 256 + f) * 2 ^ 16 =
      ap (λ x. bit_or x (f * 2 ^ 16)) (omega arith)
      ∙ or_fields 24 (v * 256 + e) (f * 2 ^ 16) (omega arith)
      ∙ omega arith in
    let e2 : bit_or ((v * 65536 + e * 256 + f) * 2 ^ 16) (g * 2 ^ 8)
        ≡ (v * 2 ^ 24 + e * 65536 + f * 256 + g) * 2 ^ 8 =
      or_fields 16 (v * 65536 + e * 256 + f) (g * 2 ^ 8) (omega arith) ∙ omega arith in
    ap (λ x. bit_or (bit_or x (g * 2 ^ 8)) h) e1
    ∙ ap (λ x. bit_or x h) e2
    ∙ or_fields 8 (v * 2 ^ 24 + e * 65536 + f * 256 + g) h (omega arith)
    ∙ omega arith

-- GETAVR_BE64 on eight bytes gives their number, the high end first, when the fifth is below 128;
-- from 128 on it gives the low four bytes under 32 ones, whatever the high four are.
pub getavr_be64_lem :
    (a b c d e f g h : ℕ) (p : List ℕ)
    → All IsByte (a ∷ b ∷ c ∷ d ∷ e ∷ f ∷ g ∷ h ∷ [])
    → getavr_be64 (a ∷ b ∷ c ∷ d ∷ e ∷ f ∷ g ∷ h ∷ p)
      ≡ some ((if ltb e 128 then number4 a b c d else 2 ^ 32 - 1) * 2 ^ 32 + number4 e f g h, p)
unfolding getavr_be64
getavr_be64_lem a b c d e f g h p (ha, (hb, (hc, (hd, (he, (hf, (hg, (hh, _)))))))) =
    ap (λ r. some (r, p))
      (ap (λ x. bit_or (bit_or (bit_or (bit_or x (top_int e)) (f * 2 ^ 16)) (g * 2 ^ 8)) h)
          (high_lem a b c d hb hc hd)
        ∙ ap (λ x. bit_or (bit_or (bit_or x (f * 2 ^ 16)) (g * 2 ^ 8)) h)
            (top_lem (number4 a b c d) e he (omega arith))
        ∙ low_lem (if ltb e 128 then number4 a b c d else 2 ^ 32 - 1) e f g h he hf hg hh)

le4_lem : (a b c d : ℕ) → IsByte a → IsByte b → IsByte c → le4 a b c d ≡ number4 d c b a
le4_lem a b c d ha hb hc =
    ap (λ x. bit_or (bit_or x (c * 2 ^ 16)) (d * 2 ^ 24)) (or_above 8 a b ha)
    ∙ ap (λ x. bit_or x (d * 2 ^ 24)) (or_above 16 (b * 2 ^ 8 + a) c (omega arith))
    ∙ or_above 24 (c * 2 ^ 16 + (b * 2 ^ 8 + a)) d (omega arith)
    ∙ omega arith

le8_lem :
    (v e f g h : ℕ)
    → IsByte e
    → IsByte f
    → IsByte g
    → v < 2 ^ 32
    → bit_or (bit_or (bit_or (bit_or v (e * 2 ^ 32)) (f * 2 ^ 40)) (g * 2 ^ 48)) (h * 2 ^ 56)
      ≡ number4 h g f e * 2 ^ 32 + v
le8_lem v e f g h he hf hg hv =
    ap (λ x. bit_or (bit_or (bit_or x (f * 2 ^ 40)) (g * 2 ^ 48)) (h * 2 ^ 56)) (or_above 32 v e hv)
    ∙ ap (λ x. bit_or (bit_or x (g * 2 ^ 48)) (h * 2 ^ 56))
        (or_above 40 (e * 2 ^ 32 + v) f (omega arith))
    ∙ ap (λ x. bit_or x (h * 2 ^ 56)) (or_above 48 (f * 2 ^ 40 + (e * 2 ^ 32 + v)) g (omega arith))
    ∙ or_above 56 (g * 2 ^ 48 + (f * 2 ^ 40 + (e * 2 ^ 32 + v))) h (omega arith)
    ∙ omega arith

-- On bytes, GETVAR_BE16 gives the number of two bytes, the high end first, and GETVAR_LE16, GETVAR_LE32 and GETVAR_LE64 that of two, four and eight bytes that stand
-- the low end first; each moves behind the bytes that it took.
pub getvar_lem :
    (a b c d e f g h : ℕ) (p : List ℕ)
    → All IsByte (a ∷ b ∷ c ∷ d ∷ e ∷ f ∷ g ∷ h ∷ [])
    → (getvar_be16 (a ∷ b ∷ p) ≡ some (a * 2 ^ 8 + b, p))
      × (getvar_le16 (b ∷ a ∷ p) ≡ some (a * 2 ^ 8 + b, p))
      × (getvar_le32 (d ∷ c ∷ b ∷ a ∷ p) ≡ some (number4 a b c d, p))
      × (getvar_le64 (h ∷ g ∷ f ∷ e ∷ d ∷ c ∷ b ∷ a ∷ p)
          ≡ some (number4 a b c d * 2 ^ 32 + number4 e f g h, p))
getvar_lem a b c d e f g h p (ha, (hb, (hc, (hd, (he, (hf, (hg, (hh, _)))))))) = (
  ap (λ r. some (r, p)) (or_fields 8 a b hb),
  ap (λ r. some (r, p)) (or_above 8 b a hb),
  ap (λ r. some (r, p)) (le4_lem d c b a hd hc hb),
  ap (λ r. some (r, p))
      (ap
          (λ x.
            bit_or (bit_or (bit_or (bit_or x (d * 2 ^ 32)) (c * 2 ^ 40)) (b * 2 ^ 48)) (a * 2 ^ 56))
          (le4_lem h g f e hh hg hf)
        ∙ le8_lem (number4 e f g h) d c b a hd hc hb (omega arith)),
)
