-- ===== src/Byte/Join32.antt =====
-- The expressions of the 16- and 32-bit readers, as the runs of chars that they stand for.
use inc.Prelude.{ℕ, ◌*◌, ◌%◌, ◌^◌, ◌<◌, ◌≡◌, refl, ap, ◌∙◌, [], ◌∷◌, arith, bit_or}
use inc.Prelude.Bits.{or_comm, or_mod}
use inc.Prelude.Word.{IsByte, of_char, u16, u32}
use inc.Byte.{shl}
use inc.Byte.Char.{extended, smeared, smeared_down, above-lt, extended_or, le_or, be_or}

extends_32 : (c : ℕ) → IsByte c → of_char 32 c ≡ extended 24 c
extends_32 c h = ground arith

shl_32_8 : (c : ℕ) → IsByte c → shl u32 32 c 8 ≡ extended 16 c * 2 ^ 8
shl_32_8 c h = ground arith

shl_32_16 : (c : ℕ) → IsByte c → shl u32 32 c 16 ≡ extended 8 c * 2 ^ 16
shl_32_16 c h = ground arith

shl_32_24 : (c : ℕ) → IsByte c → shl u32 32 c 24 ≡ extended 0 c * 2 ^ 24
shl_32_24 c h = ground arith

module _ (c0 c1 c2 c3 : ℕ) (h0 : IsByte c0) (h1 : IsByte c1) (h2 : IsByte c2) (h3 : IsByte c3) where
  pub le_32 :
      bit_or
        (bit_or (bit_or (of_char 32 c0) (shl u32 32 c1 8)) (shl u32 32 c2 16))
        (shl u32 32 c3 24)
      ≡ smeared (c0 ∷ c1 ∷ c2 ∷ c3 ∷ [])
  le_32 =
      let v3 : ℕ = smeared (c3 ∷ []) in
      let b3 : v3 < 2 ^ 8 = above-lt 0 c3 0 h3 (omega arith) in
      let v2 : ℕ = smeared (c2 ∷ c3 ∷ []) in
      let b2 : v2 < 2 ^ 16 = above-lt 8 c2 v3 h2 b3 in
      let v1 : ℕ = smeared (c1 ∷ c2 ∷ c3 ∷ []) in
      let b1 : v1 < 2 ^ 24 = above-lt 16 c1 v2 h1 b2 in
      rw (extends_32 c0 h0, shl_32_8 c1 h1, shl_32_16 c2 h2, shl_32_24 c3 h3)
        (le_or 16 8 c2 v3 (2 ^ 24) h2 b3 refl (bit_or (extended 24 c0) (extended 16 c1 * 2 ^ 8))
          ∙ le_or 8 16 c1 v2 (2 ^ 16) h1 b2 refl (extended 24 c0)
          ∙ extended_or 24 c0 v1 h0 b1)

  pub be_32 :
      bit_or
        (bit_or (bit_or (shl u32 32 c0 24) (shl u32 32 c1 16)) (shl u32 32 c2 8))
        (of_char 32 c3)
      ≡ smeared_down 0 0 (c0 ∷ c1 ∷ c2 ∷ c3 ∷ [])
  be_32 =
      let v0 : ℕ = smeared_down 0 0 (c0 ∷ []) in
      let b0 : v0 < 2 ^ 8 = above-lt 0 c0 0 h0 (omega arith) in
      let v1 : ℕ = smeared_down 0 0 (c0 ∷ c1 ∷ []) in
      let b1 : v1 < 2 ^ 16 = above-lt 8 c1 v0 h1 b0 in
      let v2 : ℕ = smeared_down 0 0 (c0 ∷ c1 ∷ c2 ∷ []) in
      let b2 : v2 < 2 ^ 24 = above-lt 16 c2 v1 h2 b1 in
      rw (shl_32_24 c0 h0, shl_32_16 c1 h1, shl_32_8 c2 h2, extends_32 c3 h3)
        (ap (λ x. bit_or (bit_or (x) (extended 16 c2 * 2 ^ 8)) (extended 24 c3))
            (be_or 16 8 c1 v0 (2 ^ 24) h1 b0 refl)
          ∙ ap (λ x. bit_or (x) (extended 24 c3)) (be_or 8 16 c2 v1 (2 ^ 16) h2 b1 refl)
          ∙ (or_comm (v2 * 256) (extended 24 c3) ∙ extended_or 24 c3 v2 h3 b2))

module _ (c0 c1 : ℕ) (h0 : IsByte c0) (h1 : IsByte c1) where
  pub le_16 : u16 (bit_or (of_char 16 c0) (of_char 16 c1 * 2 ^ 8)) ≡ smeared (c0 ∷ c1 ∷ [])
  le_16 =
      let low : of_char 16 c0 % 2 ^ 16 ≡ extended 8 c0 = ground arith in
      let high : of_char 16 c1 * 2 ^ 8 % 2 ^ 16 ≡ smeared (c1 ∷ []) * 256 = ground arith in
      or_mod 16 (of_char 16 c0) (of_char 16 c1 * 2 ^ 8)
      ∙ rw (low, high) (extended_or 8 c0 (smeared (c1 ∷ [])) h0 (above-lt 0 c1 0 h1 (omega arith)))

  pub be_16 : bit_or (shl u16 16 c0 8) (of_char 16 c1) ≡ smeared_down 0 0 (c0 ∷ c1 ∷ [])
  be_16 =
      let high : shl u16 16 c0 8 ≡ smeared (c0 ∷ []) * 256 = ground arith in
      let low : of_char 16 c1 ≡ extended 8 c1 = ground arith in
      rw (high, low)
        (or_comm (smeared (c0 ∷ []) * 256) (extended 8 c1)
          ∙ extended_or 8 c1 (smeared (c0 ∷ [])) h1 (above-lt 0 c0 0 h0 (omega arith)))
