-- ===== src/Nalu/Ends.antt =====
-- `Split` ends, with a level for each byte of the block and one more.
use inc.Prelude.{
  ℕ, zero, suc, ◌+◌, ◌-◌, ◌<◌, ◌^◌, ◌≡◌, ◌≢◌, ap, List, arith, Option, none, some, true, length,
  length-append, drop, length-drop, ltb, Bool-cases, inl, inr,
}
use inc.Prelude.Word.{u64}
use inc.Nalu.{NalUnit, start, split, at_start, stuck, after_scan, Outcome}
use inc.Nalu.Join.{at_start-cases, at_start-true}

after_scan-ne-stuck :
    (again : List ℕ → ℕ → List NalUnit → Outcome)
    → (p : List ℕ) (len : ℕ) (us : List NalUnit) (o : Option ℕ)
    → ((i : ℕ) (us' : List NalUnit) → again (drop i p) (u64 (len + 2 ^ 64 - i)) us' ≢ stuck)
    → after_scan again p len us o ≢ stuck
after_scan-ne-stuck again p len us none h e = cc
after_scan-ne-stuck again p len us (some i) h e = elim (Bool-cases (ltb i len)) [
  | inl t ↦ h i _ (rw t at e)
  | inr f ↦ cc (rw f at e)
]

shorter :
    (p : List ℕ) (i : ℕ) {fuel : ℕ}
    → at_start p ≡ some true
    → length p < suc fuel
    → length (drop i (drop 4 p)) < fuel
shorter p i t h =
    omega (
      arith,
      ap length (at_start-true p t),
      length-append start (drop 4 p),
      length-drop i (drop 4 p),
    )

-- `Split` with more fuel than the block has bytes ends, whatever length it is given: each level
-- passes a start code.
pub split-ne-stuck :
    (fuel : ℕ) (p : List ℕ) (len : ℕ) (us : List NalUnit)
    → length p < fuel
    → split fuel p len us ≢ stuck
unfolding split
split-ne-stuck zero p len us h e = absurd (omega arith)
split-ne-stuck (suc fuel) p len us h e = elim (at_start-cases p) [
  | inl n ↦ cc (rw (n, split) at e)
  | inr (inr f) ↦ cc (rw (f, split) at e)
  | inr (inl t) ↦
      after_scan-ne-stuck (split fuel) (drop 4 p) (u64 (len + 2 ^ 64 - 4)) us _
        (λ i us'. split-ne-stuck fuel (drop i (drop 4 p)) _ us' (shorter p i t h))
        (rw (t, split) at e)
]
