-- ===== src/Byte/Char.antt =====
-- What or-ing sign-extended chars amounts to.
use inc.Prelude.{
  ℕ, ◌+◌, ◌-◌, ◌*◌, ◌^◌, ◌<◌, ◌≡◌, bit_or, ◌∙◌, ap, arith, List, [], ◌∷◌, length, ltb,
  if◌then◌else◌,
}
use inc.Prelude.Bits.{or_cut, or_zero, zero_or, or_ones, or_comm, or_assoc}
use inc.Prelude.Word.{IsByte}
use native.Mathlib.Nat.{one-le-pow}

-- The char `b` below a word `v` of `j` bits: a negative char turns all of `v` into ones.
abbrev pub above : ℕ → ℕ → ℕ → ℕ
above j b v = (if ltb b 128 then v else 2 ^ j - 1) * 256 + b

-- The char itself, extended over `j` more bits.
abbrev pub extended : ℕ → ℕ → ℕ
extended j b = above j b 0

pub extended_or : (j b v : ℕ) → IsByte b → v < 2 ^ j → bit_or (extended j b) (v * 256) ≡ above j b v
extended_or j b v hb hv = ground (
  arith,
  or_cut 8 0 v b 0 hb (omega arith),
  or_cut 8 (2 ^ j - 1) v b 0 hb (omega arith),
  or_zero b,
  zero_or v,
  or_ones j v hv,
)

pub above-lt : (j b v : ℕ) → IsByte b → v < 2 ^ j → above j b v < 256 * 2 ^ j
above-lt j b v hb hv = ground arith

or_shifted : (k p q : ℕ) → bit_or (p * 2 ^ k) (q * 2 ^ k) ≡ bit_or p q * 2 ^ k
or_shifted k p q =
    let pos : 0 < 2 ^ k = one-le-pow k 2 (omega arith) in ground (arith, or_cut k p q 0 0 pos pos)

module _ (k j b v m : ℕ) (hb : IsByte b) (hv : v < 2 ^ j) (hm : m ≡ 256 * 2 ^ k) where
  v_at : v * m ≡ v * 256 * 2 ^ k
  v_at = rw hm (omega arith)

  joined : bit_or (extended j b * 2 ^ k) (v * m) ≡ above j b v * 2 ^ k
  joined = rw (v_at, or_shifted k, extended_or j b v hb hv)

  -- One step of a reader of the big end first.
  pub be_or : bit_or (v * m) (extended j b * 2 ^ k) ≡ above j b v * 2 ^ k
  be_or = or_comm (v * m) (extended j b * 2 ^ k) ∙ joined

  -- One step of a reader of the little end first, `a` being what was read before.
  pub le_or :
      (a : ℕ) → bit_or (bit_or a (extended j b * 2 ^ k)) (v * m) ≡ bit_or a (above j b v * 2 ^ k)
  le_or a = or_assoc a _ _ ∙ ap (bit_or a) joined

-- The value of a run of chars, the low end first, as the readers see it: a negative char turns
-- every bit above itself into ones.
abbrev pub smeared : List ℕ → ℕ
smeared [] = 0
smeared (b ∷ bs) = above (8 * length bs) b (smeared bs)

-- The chars behind `v`, which stands for `j` bits, the high end first.
abbrev pub smeared_down : ℕ → ℕ → List ℕ → ℕ
smeared_down j v [] = v
smeared_down j v (b ∷ bs) = smeared_down (j + 8) (above j b v) bs
