-- ===== src/Output/Film.antt =====
-- A film of three frames for the tests of the writers.
use inc.Prelude.{ℕ, List, [], ◌∷◌, ◌++◌}
use inc.Nalu.{start}
use inc.Output.{Frame}

-- Three parameter sets of H.265, a slice, and three bytes behind the frame.
abbrev pub key_block : List ℕ
key_block =
    start
    ++ (64 ∷ 1 ∷ [])
    ++ start
    ++ (66 ∷ 1 ∷ 5 ∷ [])
    ++ start
    ++ (68 ∷ 1 ∷ [])
    ++ start
    ++ (38 ∷ 1 ∷ 9 ∷ 7 ∷ 7 ∷ 7 ∷ [])

abbrev pub film : List Frame
film =
    record { ts = 40; ftype = 1; block = key_block; len = 26 }
    ∷ record { ts = 50; ftype = 3; block = 1 ∷ 2 ∷ []; len = 2 }
    ∷ record { ts = 80; ftype = 2; block = start ++ (2 ∷ 1 ∷ 0 ∷ 0 ∷ 0 ∷ []); len = 6 }
    ∷ []
