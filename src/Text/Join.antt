-- ===== src/Text/Join.antt =====
-- The pieces of `Split` and the string.
use inc.Prelude.{
  ℕ, zero, suc, ◌+◌, ◌≤◌, ◌<◌, ◌≡◌, refl, ap, ap₂, ◌∙◌, List, [], ◌∷◌, ◌++◌, true, some, arith,
  ==_iff, length, take, drop, length-append, Option-cases, inl, inr,
}
use inc.Text.{is_prefix, find, split}

-- The pieces with `p` between them.
abbrev pub join : List ℕ → List (List ℕ) → List ℕ
join p [] = []
join p (v ∷ vs) = elim vs [ [] ↦ v | _ ∷ _ ↦ v ++ (p ++ join p vs) ]

is_prefix-drop : (p s : List ℕ) → is_prefix p s ≡ true → p ++ drop (length p) s ≡ s
unfolding is_prefix
is_prefix-drop [] s e = refl
is_prefix-drop (a ∷ p) [] e = absurd (ground (arith, e))
is_prefix-drop (a ∷ p) (x ∷ s) e =
    ap₂ (λ y r. y ∷ r) ((==_iff a x).0 (ground (arith, e))) (is_prefix-drop p s (ground (arith, e)))

find-zero : (p s : List ℕ) → find p s ≡ some 0 → is_prefix p s ≡ true
unfolding find
find-zero p [] e = ground (arith, e)
find-zero p (x ∷ s) e = elim (Option-cases (find p s)) [
  | inl e1 ↦ ground (arith, e, e1)
  | inr (i, e1) ↦ ground (arith, e, e1)
]

find-suc : (p s : List ℕ) (x i : ℕ) → find p (x ∷ s) ≡ some (suc i) → find p s ≡ some i
unfolding find
find-suc p s x i e = elim (Option-cases (find p s)) [
  | inl e1 ↦ absurd (ground (arith, e, e1))
  | inr (j, e1) ↦ ground (arith, e, e1)
]

find-empty : (p : List ℕ) (i : ℕ) → find p [] ≡ some (suc i) → ⊥
unfolding find
find-empty p i e = ground (arith, e)

find-drop :
    (p s : List ℕ) (i : ℕ) → find p s ≡ some i → take i s ++ (p ++ drop (i + length p) s) ≡ s
find-drop p s zero e =
    ap (λ (n : ℕ). p ++ drop n s) {y = length p} (omega arith)
    ∙ is_prefix-drop p s (find-zero p s e)
find-drop p [] (suc i) e = absurd (find-empty p i e)
find-drop p (x ∷ s) (suc i) e =
    ap (λ (n : ℕ). x ∷ (take i s ++ (p ++ drop n (x ∷ s)))) {y = suc (i + length p)} (omega arith)
    ∙ ap (λ r. x ∷ r) (find-drop p s i (find-suc p s x i e))

shorter :
    (p s : List ℕ) (i fuel : ℕ)
    → find p s ≡ some i
    → 1 ≤ length p
    → length s < suc fuel
    → length (drop (i + length p) s) < fuel
shorter p s i fuel e some_p enough = omega (
  arith,
  ap length (find-drop p s i e),
  length-append (take i s) (p ++ drop (i + length p) s),
  length-append p (drop (i + length p) s),
)

-- `Split` at a string that is not empty ends, with more fuel than the string has bytes, in one
-- piece or more, and the pieces with that string between them are the string again.
pub join-split :
    (fuel : ℕ) (s p : List ℕ)
    → 1 ≤ length p
    → length s < fuel
    → (v : List ℕ) × (vs : List (List ℕ)) × (split fuel s p ≡ some (v ∷ vs)) × (join p (v ∷ vs) ≡ s)
unfolding split
join-split zero s p some_p enough = absurd (omega arith)
join-split (suc fuel) s p some_p enough = elim (Option-cases (find p s)) [
  | inl e ↦ (s, [], rw (e, split) refl, refl)
  | inr (i, e) ↦
      let (v, vs, e', h) =
        join-split fuel (drop (i + length p) s) p some_p (shorter p s i fuel e some_p enough) in
      (
        take i s,
        v ∷ vs,
        rw (e, split) (rw e' refl),
        ap (λ r. take i s ++ (p ++ r)) h ∙ find-drop p s i e,
      )
]

pub is_prefix-append : (p s : List ℕ) → is_prefix p (p ++ s) ≡ true
unfolding is_prefix
is_prefix-append [] s = refl
is_prefix-append (x ∷ p) s = ground (arith, is_prefix-append p s)

pub find_le : (p s : List ℕ) (i : ℕ) → find p s ≡ some i → i ≤ length s
find_le p s zero e = omega arith
find_le p [] (suc i) e = absurd (find-empty p i e)
find_le p (x ∷ s) (suc i) e = omega (arith, find_le p s i (find-suc p s x i e))
