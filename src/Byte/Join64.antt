-- ===== src/Byte/Join64.antt =====
-- The expressions of the 64-bit readers, as the runs of chars that they stand for.
use inc.Prelude.{ℕ, ◌*◌, ◌^◌, ◌<◌, ◌≡◌, refl, ap, ◌∙◌, [], ◌∷◌, arith, bit_or}
use inc.Prelude.Bits.{or_comm}
use inc.Prelude.Word.{IsByte, of_char, u64}
use inc.Byte.{shl}
use inc.Byte.Char.{extended, smeared, smeared_down, above-lt, extended_or, le_or, be_or}

extends_64 : (c : ℕ) → IsByte c → of_char 64 c ≡ extended 56 c
extends_64 c h = ground arith

shl_64_8 : (c : ℕ) → IsByte c → shl u64 64 c 8 ≡ extended 48 c * 2 ^ 8
shl_64_8 c h = ground arith

shl_64_16 : (c : ℕ) → IsByte c → shl u64 64 c 16 ≡ extended 40 c * 2 ^ 16
shl_64_16 c h = ground arith

shl_64_24 : (c : ℕ) → IsByte c → shl u64 64 c 24 ≡ extended 32 c * 2 ^ 24
shl_64_24 c h = ground arith

shl_64_32 : (c : ℕ) → IsByte c → shl u64 64 c 32 ≡ extended 24 c * 2 ^ 32
shl_64_32 c h = ground arith

shl_64_40 : (c : ℕ) → IsByte c → shl u64 64 c 40 ≡ extended 16 c * 2 ^ 40
shl_64_40 c h = ground arith

shl_64_48 : (c : ℕ) → IsByte c → shl u64 64 c 48 ≡ extended 8 c * 2 ^ 48
shl_64_48 c h = ground arith

shl_64_56 : (c : ℕ) → IsByte c → shl u64 64 c 56 ≡ extended 0 c * 2 ^ 56
shl_64_56 c h = ground arith

module _ (c0 c1 c2 c3 c4 c5 c6 c7 : ℕ) (h0 : IsByte c0) (h1 : IsByte c1) (h2 : IsByte c2)
    (h3 : IsByte c3) (h4 : IsByte c4) (h5 : IsByte c5) (h6 : IsByte c6) (h7 : IsByte c7) where
  pub le_64 :
      bit_or
        (bit_or
          (bit_or
            (bit_or
              (bit_or
                (bit_or (bit_or (of_char 64 c0) (shl u64 64 c1 8)) (shl u64 64 c2 16))
                (shl u64 64 c3 24))
              (shl u64 64 c4 32))
            (shl u64 64 c5 40))
          (shl u64 64 c6 48))
        (shl u64 64 c7 56)
      ≡ smeared (c0 ∷ c1 ∷ c2 ∷ c3 ∷ c4 ∷ c5 ∷ c6 ∷ c7 ∷ [])
  le_64 =
      let v7 : ℕ = smeared (c7 ∷ []) in
      let b7 : v7 < 2 ^ 8 = above-lt 0 c7 0 h7 (omega arith) in
      let v6 : ℕ = smeared (c6 ∷ c7 ∷ []) in
      let b6 : v6 < 2 ^ 16 = above-lt 8 c6 v7 h6 b7 in
      let v5 : ℕ = smeared (c5 ∷ c6 ∷ c7 ∷ []) in
      let b5 : v5 < 2 ^ 24 = above-lt 16 c5 v6 h5 b6 in
      let v4 : ℕ = smeared (c4 ∷ c5 ∷ c6 ∷ c7 ∷ []) in
      let b4 : v4 < 2 ^ 32 = above-lt 24 c4 v5 h4 b5 in
      let v3 : ℕ = smeared (c3 ∷ c4 ∷ c5 ∷ c6 ∷ c7 ∷ []) in
      let b3 : v3 < 2 ^ 40 = above-lt 32 c3 v4 h3 b4 in
      let v2 : ℕ = smeared (c2 ∷ c3 ∷ c4 ∷ c5 ∷ c6 ∷ c7 ∷ []) in
      let b2 : v2 < 2 ^ 48 = above-lt 40 c2 v3 h2 b3 in
      let v1 : ℕ = smeared (c1 ∷ c2 ∷ c3 ∷ c4 ∷ c5 ∷ c6 ∷ c7 ∷ []) in
      let b1 : v1 < 2 ^ 56 = above-lt 48 c1 v2 h1 b2 in
      rw
        (
          extends_64 c0 h0,
          shl_64_8 c1 h1,
          shl_64_16 c2 h2,
          shl_64_24 c3 h3,
          shl_64_32 c4 h4,
          shl_64_40 c5 h5,
          shl_64_48 c6 h6,
          shl_64_56 c7 h7,
        )
        (le_or 48 8 c6 v7 (2 ^ 56) h6 b7 refl (
            bit_or
              (bit_or
                (bit_or
                  (bit_or (bit_or (extended 56 c0) (extended 48 c1 * 2 ^ 8))
                    (extended 40 c2 * 2 ^ 16))
                  (extended 32 c3 * 2 ^ 24))
                (extended 24 c4 * 2 ^ 32))
              (extended 16 c5 * 2 ^ 40))
          ∙ le_or 40 16 c5 v6 (2 ^ 48) h5 b6 refl (
              bit_or
                (bit_or
                  (bit_or (bit_or (extended 56 c0) (extended 48 c1 * 2 ^ 8))
                    (extended 40 c2 * 2 ^ 16))
                  (extended 32 c3 * 2 ^ 24))
                (extended 24 c4 * 2 ^ 32))
          ∙ le_or 32 24 c4 v5 (2 ^ 40) h4 b5 refl (
              bit_or
                (bit_or (bit_or (extended 56 c0) (extended 48 c1 * 2 ^ 8))
                  (extended 40 c2 * 2 ^ 16))
                (extended 32 c3 * 2 ^ 24))
          ∙ le_or 24 32 c3 v4 (2 ^ 32) h3 b4 refl
              (bit_or (bit_or (extended 56 c0) (extended 48 c1 * 2 ^ 8)) (extended 40 c2 * 2 ^ 16))
          ∙ le_or 16 40 c2 v3 (2 ^ 24) h2 b3 refl (bit_or (extended 56 c0) (extended 48 c1 * 2 ^ 8))
          ∙ le_or 8 48 c1 v2 (2 ^ 16) h1 b2 refl (extended 56 c0)
          ∙ extended_or 56 c0 v1 h0 b1)

  pub be_64 :
      bit_or
        (bit_or
          (bit_or
            (bit_or
              (bit_or
                (bit_or (bit_or (shl u64 64 c0 56) (shl u64 64 c1 48)) (shl u64 64 c2 40))
                (shl u64 64 c3 32))
              (shl u64 64 c4 24))
            (shl u64 64 c5 16))
          (shl u64 64 c6 8))
        (of_char 64 c7)
      ≡ smeared_down 0 0 (c0 ∷ c1 ∷ c2 ∷ c3 ∷ c4 ∷ c5 ∷ c6 ∷ c7 ∷ [])
  be_64 =
      let v0 : ℕ = smeared_down 0 0 (c0 ∷ []) in
      let b0 : v0 < 2 ^ 8 = above-lt 0 c0 0 h0 (omega arith) in
      let v1 : ℕ = smeared_down 0 0 (c0 ∷ c1 ∷ []) in
      let b1 : v1 < 2 ^ 16 = above-lt 8 c1 v0 h1 b0 in
      let v2 : ℕ = smeared_down 0 0 (c0 ∷ c1 ∷ c2 ∷ []) in
      let b2 : v2 < 2 ^ 24 = above-lt 16 c2 v1 h2 b1 in
      let v3 : ℕ = smeared_down 0 0 (c0 ∷ c1 ∷ c2 ∷ c3 ∷ []) in
      let b3 : v3 < 2 ^ 32 = above-lt 24 c3 v2 h3 b2 in
      let v4 : ℕ = smeared_down 0 0 (c0 ∷ c1 ∷ c2 ∷ c3 ∷ c4 ∷ []) in
      let b4 : v4 < 2 ^ 40 = above-lt 32 c4 v3 h4 b3 in
      let v5 : ℕ = smeared_down 0 0 (c0 ∷ c1 ∷ c2 ∷ c3 ∷ c4 ∷ c5 ∷ []) in
      let b5 : v5 < 2 ^ 48 = above-lt 40 c5 v4 h5 b4 in
      let v6 : ℕ = smeared_down 0 0 (c0 ∷ c1 ∷ c2 ∷ c3 ∷ c4 ∷ c5 ∷ c6 ∷ []) in
      let b6 : v6 < 2 ^ 56 = above-lt 48 c6 v5 h6 b5 in
      rw
        (
          shl_64_56 c0 h0,
          shl_64_48 c1 h1,
          shl_64_40 c2 h2,
          shl_64_32 c3 h3,
          shl_64_24 c4 h4,
          shl_64_16 c5 h5,
          shl_64_8 c6 h6,
          extends_64 c7 h7,
        )
        (ap
            (λ x.
              bit_or
                (bit_or
                  (bit_or
                    (bit_or
                      (bit_or (bit_or (x) (extended 16 c2 * 2 ^ 40)) (extended 24 c3 * 2 ^ 32))
                      (extended 32 c4 * 2 ^ 24))
                    (extended 40 c5 * 2 ^ 16))
                  (extended 48 c6 * 2 ^ 8))
                (extended 56 c7))
            (be_or 48 8 c1 v0 (2 ^ 56) h1 b0 refl)
          ∙ ap
              (λ x.
                bit_or
                  (bit_or
                    (bit_or
                      (bit_or (bit_or (x) (extended 24 c3 * 2 ^ 32)) (extended 32 c4 * 2 ^ 24))
                      (extended 40 c5 * 2 ^ 16))
                    (extended 48 c6 * 2 ^ 8))
                  (extended 56 c7))
              (be_or 40 16 c2 v1 (2 ^ 48) h2 b1 refl)
          ∙ ap
              (λ x.
                bit_or
                  (bit_or (bit_or (bit_or (x) (extended 32 c4 * 2 ^ 24)) (extended 40 c5 * 2 ^ 16))
                    (extended 48 c6 * 2 ^ 8))
                  (extended 56 c7))
              (be_or 32 24 c3 v2 (2 ^ 40) h3 b2 refl)
          ∙ ap
              (λ x.
                bit_or (bit_or (bit_or (x) (extended 40 c5 * 2 ^ 16)) (extended 48 c6 * 2 ^ 8))
                  (extended 56 c7))
              (be_or 24 32 c4 v3 (2 ^ 32) h4 b3 refl)
          ∙ ap (λ x. bit_or (bit_or (x) (extended 48 c6 * 2 ^ 8)) (extended 56 c7))
              (be_or 16 40 c5 v4 (2 ^ 24) h5 b4 refl)
          ∙ ap (λ x. bit_or (x) (extended 56 c7)) (be_or 8 48 c6 v5 (2 ^ 16) h6 b5 refl)
          ∙ (or_comm (v6 * 256) (extended 56 c7) ∙ extended_or 56 c7 v6 h7 b6))
