-- ===== src/Nalu/Join.antt =====
-- `Split` loses nothing: the units and the rest, each behind its start code, are the frame.
use inc.Prelude.{
  ℕ, zero, suc, ◌+◌, ◌-◌, ◌^◌, ◌≤◌, ◌<◌, ◌≡◌, refl, sym, ap, ◌∙◌, List, [], ◌∷◌, ◌++◌, true, false,
  Option, none, some, arith, ltb, get_or, take, drop, append_assoc, append-nil, take-append-drop,
  Bool-cases, Option-cases, length, length-drop, inl, inr, ◌⊎◌,
}
use mathlib.Core.Path.{subst}
use inc.Prelude.Word.{u64}
use inc.Nalu.{int_size, NalUnit, start, at_start, scan, Outcome, rest, after_scan, split}

pub at_start-true : (p : List ℕ) → at_start p ≡ some true → p ≡ start ++ drop 4 p
unfolding at_start
at_start-true [] e = cc
at_start-true (a ∷ []) e = cc
at_start-true (a ∷ b ∷ []) e = cc
at_start-true (a ∷ b ∷ c ∷ []) e = cc
at_start-true (a ∷ b ∷ c ∷ d ∷ p) e = ground arith

-- The units and then `p`, each behind a start code.
abbrev pub join : List NalUnit → List ℕ → List ℕ
join [] p = start ++ p
join (u ∷ us) p = start ++ (take u.size u.bytes ++ join us p)

-- The bytes from each unit's pointer on are the unit and what is joined behind it.
abbrev pub Points : List NalUnit → List ℕ → Type 0
Points [] p = Unit
Points (u ∷ us) p = (u.bytes ≡ take u.size u.bytes ++ join us p) × Points us p

pub at_start-cases :
    (p : List ℕ) → (at_start p ≡ none) ⊎ (at_start p ≡ some true) ⊎ (at_start p ≡ some false)
at_start-cases p = elim (Option-cases (at_start p)) [
  | inl e ↦ inl e
  | inr (b, e) ↦ elim (Bool-cases b) [
    | inl t ↦ inr (inl (rw t at e))
    | inr f ↦ inr (inr (rw f at e))
  ]
]

drop-suc : (x : ℕ) (p : List ℕ) (i j : ℕ) → i + 1 ≤ j → drop (j - i) (x ∷ p) ≡ drop (j - (i + 1)) p
drop-suc x p i j h = ap (λ k. drop k (x ∷ p)) {y = suc (j - (i + 1))} (omega arith)

-- Where the loop stops before its end there is a start code.
pub scan-at_start :
    (left : ℕ) (p : List ℕ) (i j : ℕ)
    → scan left p i ≡ some j
    → (i ≤ j) × (j ≤ i + left) × (j < i + left → at_start (drop (j - i) p) ≡ some true)
unfolding scan
scan-at_start zero p i j e =
    let same : i ≡ j = ground arith in (omega arith, omega arith, λ h. absurd (omega arith))
scan-at_start (suc left) [] i j e = unfold at_start in cc
scan-at_start (suc left) (x ∷ p) i j e = elim (at_start-cases (x ∷ p)) [
  | inl e1 ↦ absurd (ground (arith, e1))
  | inr (inl e1) ↦
      let same : i ≡ j = ground (arith, e1) in
      (
        omega arith,
        omega arith,
        λ h. ap (λ k. at_start (drop k (x ∷ p))) {y = 0} (omega arith) ∙ e1,
      )
  | inr (inr e1) ↦
      let (lo, hi, at) = scan-at_start left p (i + 1) j (ground (arith, e1)) in
      (omega arith, omega arith, λ h. ap at_start (drop-suc x p i j lo) ∙ at (omega arith))
]

abbrev pub behind : ℕ → ℕ
behind len = u64 (len + 2 ^ 64 - 4)

pub split-suc :
    (fuel : ℕ) (p : List ℕ) (len : ℕ) (us : List NalUnit)
    → at_start p ≡ some true
    → split (suc fuel) p len us
      ≡ after_scan (split fuel) (drop 4 p) (behind len) us (scan (behind len) (drop 4 p) 0)
unfolding split
split-suc fuel p len us e = rw (e, split)

-- A start code is inside the block.
pub at_start-inside : (p : List ℕ) (i : ℕ) → at_start (drop i p) ≡ some true → i < length p
unfolding at_start
at_start-inside [] zero e = cc
at_start-inside [] (suc i) e = cc
at_start-inside (x ∷ p) zero e = omega arith
at_start-inside (x ∷ p) (suc i) e = omega (arith, at_start-inside p i e)

-- Where the loop stops before its end, a number that an `int` holds.
scan-short :
    (p : List ℕ) (n : ℕ)
    → length p < 2 ^ 31
    → (i : ℕ) → scan n p 0 ≡ some i
    → i < n
    → int_size i ≡ i
scan-short p n short i e h =
    let (lo, hi, at) = scan-at_start n p 0 i e in
    let same : i - 0 ≡ i = omega arith in
    let inside =
      at_start-inside p i (ap (λ k. at_start (drop k p)) (sym same) ∙ at (omega arith)) in
    let small : i < 2 ^ 31 = omega arith in ground arith

-- One unit more in front.
Joins : List ℕ → List NalUnit → List ℕ → List NalUnit → Type 0
Joins p us q out = (new : List NalUnit) × (out ≡ us ++ new) × (p ≡ join new q) × Points new q

Joins-cons :
    (p : List ℕ) (j t : ℕ) (us : List NalUnit) (q : List ℕ) (out : List NalUnit)
    → Joins (drop j p) (us ++ (record { type = t; size = j; bytes = p } ∷ [])) q out
    → Joins (start ++ p) us q out
unfolding Joins
Joins-cons p j t us q out (new, e, f, g) =
    let whole : p ≡ take j p ++ join new q =
      sym (take-append-drop j p) ∙ ap (λ r. take j p ++ r) f in
    (
      record { type = t; size = j; bytes = p } ∷ new,
      e ∙ append_assoc us (record { type = t; size = j; bytes = p } ∷ []) new,
      ap (λ r. start ++ r) whole,
      (whole, g),
    )

Joins-after_scan :
    (f : List ℕ → ℕ → List NalUnit → Outcome) (q : List ℕ) (l : ℕ) (out : List NalUnit)
    → (p : List ℕ)
    → ((j len : ℕ) (us : List NalUnit)
        → f (drop j p) len us ≡ rest q l out
        → Joins (drop j p) us q out)
    → (n : ℕ) (us : List NalUnit) (o : Option ℕ) → ((i : ℕ) → o ≡ some i → i < n → int_size i ≡ i)
    → after_scan f p n us o ≡ rest q l out
    → Joins (start ++ p) us q out
Joins-after_scan f q l out p ih n us none short e = cc
Joins-after_scan f q l out p ih n us (some j) short e = elim (Bool-cases (ltb j n)) [
  | inl t ↦
      Joins-cons p j (get_or p 0 0) us q out
        (ih j (u64 (n + 2 ^ 64 - j)) _ (rw (t, short j refl (ground (arith, t))) at e))
  | inr t ↦
      let stop : rest p n us ≡ rest q l out = rw t at e in
      let same_p : p ≡ q = cc in
      let same_us : us ≡ out = cc in
      unfold Joins in ([], sym same_us ∙ sym (append-nil us), ap (λ r. start ++ r) same_p, tt)
]

-- In a block of fewer than 2 ^ 31 bytes, enough fuel or not, if `Split` returns a pointer then the units that it added and the rest
-- make up the frame, and each unit's pointer is at the unit's place in it.
pub split-join :
    (fuel : ℕ) (p : List ℕ) (len : ℕ) (us : List NalUnit) (q : List ℕ) (l : ℕ) (out : List NalUnit)
    → length p < 2 ^ 31
    → split fuel p len us ≡ rest q l out
    → (new : List NalUnit) × (out ≡ us ++ new) × (p ≡ join new q) × Points new q
unfolding Joins
split-join zero p len us q l out small e = unfold split in cc
split-join (suc fuel) p len us q l out small e = elim (at_start-cases p) [
  | inl e1 ↦ unfold split in absurd (ground (arith, e1))
  | inr (inr e1) ↦ unfold split in absurd (ground (arith, e1))
  | inr (inl e1) ↦
      subst (λ r. Joins r us q out) (sym (at_start-true p e1))
        (Joins-after_scan (split fuel) q l out (drop 4 p)
          (λ j len' us' e'.
            split-join fuel (drop j (drop 4 p)) len' us' q l out
              (omega (arith, length-drop j (drop 4 p), length-drop 4 p)) e')
          (behind len) us (scan (behind len) (drop 4 p) 0)
          (scan-short (drop 4 p) (behind len) (omega (arith, length-drop 4 p)))
          (sym (split-suc fuel p len us e1) ∙ e))
]
