-- ===== src/Mp4box/Endian.antt =====
-- `HTOBE32` turns the bytes of a word around.
use inc.Prelude.{
  ℕ, ◌+◌, ◌*◌, ◌/◌, ◌%◌, ◌^◌, ◌<◌, ◌≡◌, refl, ap, ap₂, ◌∙◌, List, [], ◌∷◌, bit_and, bit_or, arith,
}
use inc.Prelude.Bits.{and_cut, and_mask, or_fields}
use inc.Prelude.Word.{u32}
use inc.Mp4box.{htobe32, le32}

-- The bytes of a number with the highest first.
abbrev pub be32 : ℕ → List ℕ
be32 v = v / 16777216 % 256 ∷ v / 65536 % 256 ∷ v / 256 % 256 ∷ v % 256 ∷ []

abbrev turned : ℕ → ℕ
turned v =
    v % 256 * 2 ^ 24 + (v / 256 % 256 * 2 ^ 16 + (v / 65536 % 256 * 2 ^ 8 + v / 16777216 % 256))

mask_low : (v : ℕ) → bit_and v 0xFF ≡ v % 256
mask_low v = and_mask 8 v

mask_high : (v : ℕ) → bit_and v 0xFF00 ≡ v / 256 % 256 * 256
mask_high v =
    ap (λ (x : ℕ). bit_and x 0xFF00) {y = v / 256 * 2 ^ 8 + v % 256} (omega arith)
    ∙ and_cut 8 (v / 256) 255 (v % 256) 0 (omega arith) (omega arith)
    ∙ ap₂ (λ (x y : ℕ). x * 2 ^ 8 + y) (and_mask 8 (v / 256)) (and_mask 0 (v % 256))
    ∙ omega arith

or_bytes :
    (a b c d : ℕ)
    → a < 256
    → b < 256
    → c < 256
    → d < 256
    → bit_or (bit_or (bit_or (a * 2 ^ 24) (b * 2 ^ 16)) (c * 2 ^ 8)) d
      ≡ a * 2 ^ 24 + (b * 2 ^ 16 + (c * 2 ^ 8 + d))
or_bytes a b c d ha hb hc hd =
    let e1 : bit_or (a * 2 ^ 24) (b * 2 ^ 16) ≡ (a * 256 + b) * 2 ^ 16 =
      or_fields 24 a (b * 2 ^ 16) (omega arith) ∙ omega arith in
    let e2 : bit_or ((a * 256 + b) * 2 ^ 16) (c * 2 ^ 8) ≡ ((a * 256 + b) * 256 + c) * 2 ^ 8 =
      or_fields 16 (a * 256 + b) (c * 2 ^ 8) (omega arith) ∙ omega arith in
    ap (λ (x : ℕ). bit_or (bit_or x (c * 2 ^ 8)) d) e1
    ∙ ap (λ (x : ℕ). bit_or x d) e2
    ∙ or_fields 8 ((a * 256 + b) * 256 + c) d hd
    ∙ omega arith

htobe32_lem : (v : ℕ) → htobe32 v ≡ turned v
unfolding htobe32
htobe32_lem v =
    let a : u32 (bit_and v 0xFF * 2 ^ 24) ≡ v % 256 * 2 ^ 24 = omega (arith, mask_low v) in
    let b : u32 (bit_and v 0xFF00 * 2 ^ 8) ≡ v / 256 % 256 * 2 ^ 16 = omega (arith, mask_high v) in
    let c : bit_and (v / 2 ^ 8) 0xFF00 ≡ v / 65536 % 256 * 2 ^ 8 =
      mask_high (v / 256) ∙ omega arith in
    let d : bit_and (v / 2 ^ 24) 0xFF ≡ v / 16777216 % 256 = mask_low (v / 16777216) in
    ap₂ bit_or (ap₂ bit_or (ap₂ bit_or a b) c) d
    ∙ or_bytes (v % 256) (v / 256 % 256) (v / 65536 % 256) (v / 16777216 % 256) (omega arith)
        (omega arith) (omega arith) (omega arith)

list4 :
    (a b c d a' b' c' d' : ℕ)
    → a ≡ a'
    → b ≡ b'
    → c ≡ c'
    → d ≡ d'
    → Path (List ℕ) (a ∷ b ∷ c ∷ d ∷ []) (a' ∷ b' ∷ c' ∷ d' ∷ [])
list4 a b c d a' b' c' d' e1 e2 e3 e4 = rw (e1, e2, e3, e4) refl

-- In memory a turned word is the number with the highest byte first.
pub le32-htobe32 : (v : ℕ) → le32 (htobe32 v) ≡ be32 v
le32-htobe32 v =
    let e : htobe32 v ≡ turned v = htobe32_lem v in
    list4 _ _ _ _ _ _ _ _ (omega (arith, e)) (omega (arith, e)) (omega (arith, e))
      (omega (arith, e))

-- Turning a word of 32 bits twice gives it back.
pub htobe32-htobe32 : (v : ℕ) → v < 2 ^ 32 → htobe32 (htobe32 v) ≡ v
htobe32-htobe32 v h = htobe32_lem (htobe32 v) ∙ omega (arith, htobe32_lem v)

-- Only the low 32 bits are in a word.
pub be32-u32 : (v : ℕ) → be32 (u32 v) ≡ be32 v
be32-u32 v = list4 _ _ _ _ _ _ _ _ (omega arith) (omega arith) (omega arith) (omega arith)
