-- ===== src/Text/Tests.antt =====
-- `Split` on a concrete string.
use inc.Prelude.{ℕ, ◌≡◌, List, [], ◌∷◌, some, arith}
use inc.Text.{split}
use inc.Text.Join.{join-split, join}

-- "a, b, " at ", ".
join-split_example :
    (v : List ℕ) × (vs : List (List ℕ)) × (split 7 (97 ∷ 44 ∷ 32 ∷ 98 ∷ 44 ∷ 32 ∷ []) (44 ∷ 32 ∷ [])
      ≡ some (v ∷ vs))
    × (join (44 ∷ 32 ∷ []) (v ∷ vs) ≡ 97 ∷ 44 ∷ 32 ∷ 98 ∷ 44 ∷ 32 ∷ [])
join-split_example =
    join-split 7 (97 ∷ 44 ∷ 32 ∷ 98 ∷ 44 ∷ 32 ∷ []) (44 ∷ 32 ∷ []) (omega arith) (omega arith)
