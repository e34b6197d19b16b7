-- ===== src/Text.antt =====
-- string.hpp: `libstring::Split`. A string is the list of its bytes.
pub mod Join
mod Tests
use inc.Prelude.{
  ℕ, zero, suc, ◌+◌, List, [], ◌∷◌, Bool, true, false, ◌&&◌, Option, none, some, ◌==◌,
  if◌then◌else◌, length, take, drop,
}

unfoldable pub is_prefix : List ℕ → List ℕ → Bool
is_prefix [] s = true
is_prefix (a ∷ p) [] = false
is_prefix (a ∷ p) (x ∷ s) = (a == x) && is_prefix p s

-- `s.find(p, pos)`, from `pos` on: the distance of the first place where `p` stands.
unfoldable pub find : List ℕ → List ℕ → Option ℕ
find p [] = if is_prefix p [] then some 0 else none
find p (x ∷ s) =
    if is_prefix p (x ∷ s) then some 0 else elim (find p s) [ none ↦ none | some i ↦ some (suc i) ]

-- The loop of `Split` on the string from `pos` on; the fuel bounds its rounds.
pub split : ℕ → List ℕ → List ℕ → Option (List (List ℕ))
split zero s p = none
split (suc fuel) s p = elim (find p s) [
  | none ↦ some (s ∷ [])
  | some i ↦ elim (split fuel (drop (i + length p) s) p) [
    | none ↦ none
    | some v ↦ some (take i s ∷ v)
  ]
]
