-- ===== src/Sps/Protect.antt =====
-- The emulation prevention of 7.4.1 of H.264, and `de_emulation_prevention` after it.
use inc.Prelude.{
  ℕ, suc, ◌+◌, ◌^◌, ◌<◌, ◌≡◌, refl, sym, ap, ◌∙◌, List, [], ◌∷◌, Bool, true, false, ◌&&◌, not,
  arith, leb, ◌==◌, length, All, Bool-cases, inl, inr, ==_iff,
}
use inc.Prelude.Word.{IsByte}
use mathlib.Core.Path.{subst}
use inc.Sps.{de_emulation_prevention, c_str}
use inc.Sps.Emulation.{Leaves, de_emulation_prevention_lem, strip, three, strip-three, strip-other}

-- The bytes of a unit behind two that were written: a 3 goes before every byte up to 3 that two
-- zeros stand before.
abbrev pub protect : ℕ → ℕ → List ℕ → List ℕ
protect a b [] = []
protect a b (c ∷ t) = elim (a == 0 && b == 0 && leb c 3) [
  | true ↦ 3 ∷ c ∷ protect 3 c t
  | false ↦ c ∷ protect b c t
]

-- No 3 stands behind three zeros; `x`, `y` and `z` are the bytes before.
abbrev pub quiet : ℕ → ℕ → ℕ → List ℕ → Bool
quiet x y z [] = true
quiet x y z (c ∷ t) = not (x == 0 && y == 0 && z == 0 && c == 3) && quiet y z c t

three-leb : (a b c : ℕ) → (a == 0 && b == 0 && leb c 3) ≡ false → three a b c ≡ false
three-leb a b c e = ground (arith, e)

protect-hit :
    (a b c : ℕ) (t : List ℕ)
    → (a == 0 && b == 0 && leb c 3) ≡ true
    → protect a b (c ∷ t) ≡ 3 ∷ c ∷ protect 3 c t
protect-hit a b c t e = rw (e, protect) refl

protect-miss :
    (a b c : ℕ) (t : List ℕ)
    → (a == 0 && b == 0 && leb c 3) ≡ false
    → protect a b (c ∷ t) ≡ c ∷ protect b c t
protect-miss a b c t e = rw (e, protect) refl

strip-drop :
    (a b c : ℕ) (t : List ℕ)
    → (a == 0 && b == 0) ≡ true
    → strip false a b (3 ∷ c ∷ t) ≡ c ∷ strip false b c t
strip-drop a b c t e = strip-three a b 3 (c ∷ t) (ground (arith, e))

mutual
  strip_inserted : (c : ℕ) (t : List ℕ) → quiet 0 0 c t ≡ true → strip false 0 c (protect 3 c t) ≡ t
  strip_inserted c [] h = refl
  strip_inserted c (d ∷ t) h =
      let none_here : three 0 c d ≡ false = ground (arith, h) in
      strip-other 0 c d (protect c d t) none_here
      ∙ ap (λ r. d ∷ r) (strip-protect 0 c d t (ground (arith, h)))

  strip-protect :
      (x a b : ℕ) (t : List ℕ) → quiet x a b t ≡ true → strip false a b (protect a b t) ≡ t
  strip-protect x a b [] h = refl
  strip-protect x a b (c ∷ t) h = elim (Bool-cases (a == 0 && b == 0 && leb c 3)) [
    | inl e ↦
        (let zeros : (a == 0 && b == 0) ≡ true = ground (arith, e) in
          let last : b ≡ 0 = (==_iff b 0).0 (ground (arith, e)) in
          let later : quiet 0 0 c t ≡ true = ground (arith, e, h) in
          ap (strip false a b) (protect-hit a b c t e)
          ∙ strip-drop a b c (protect 3 c t) zeros
          ∙ ap (λ (y : ℕ). c ∷ strip false y c (protect 3 c t)) last
          ∙ ap (λ r. c ∷ r) (strip_inserted c t later))
    | inr e ↦
        ap (strip false a b) (protect-miss a b c t e)
        ∙ strip-other a b c (protect b c t) (three-leb a b c e)
        ∙ ap (λ r. c ∷ r) (strip-protect a b c t (ground (arith, h)))
  ]

All-protect : (a b : ℕ) (t : List ℕ) → All IsByte t → All IsByte (protect a b t)
All-protect a b [] h = tt
All-protect a b (c ∷ t) h = elim (Bool-cases (a == 0 && b == 0 && leb c 3)) [
  | inl e ↦
      subst (All IsByte) (sym (protect-hit a b c t e)) (omega arith, (h.0, All-protect 3 c t (h.1)))
  | inr e ↦ subst (All IsByte) (sym (protect-miss a b c t e)) (h.0, All-protect b c t (h.1))
]

-- A unit of two bytes or more in which no 3 stands behind three zeros comes back from its
-- protected form, at the front of the memory, with its size.
pub de_emulation_prevention-protect :
    (a b : ℕ) (t : List ℕ)
    → All IsByte (a ∷ b ∷ t)
    → quiet 1 a b t ≡ true
    → length (protect a b t) + 2 < 2 ^ 32
    → Leaves
        (de_emulation_prevention (c_str (a ∷ b ∷ protect a b t)) (length (protect a b t) + 2))
        (a ∷ b ∷ t)
        (length (a ∷ b ∷ t))
de_emulation_prevention-protect a b t h calm small =
    let same : length (protect a b t) + 2 ≡ suc (suc (length (protect a b t))) = omega arith in
    let run =
      de_emulation_prevention_lem a b (protect a b t) (h.0, (h.1.0, All-protect a b t (h.1.1)))
        (omega arith) in
    rw same (
      subst
        (λ (kept : List ℕ).
          Leaves
            (de_emulation_prevention (c_str (a ∷ b ∷ protect a b t))
              (suc (suc (length (protect a b t)))))
            (a ∷ b ∷ kept) (length (a ∷ b ∷ kept)))
        (strip-protect 1 a b t calm) run)
