-- ===== src/Rtp/Tests.antt =====
-- A key unit in three fragments.
use inc.Prelude.{ℕ, ◌≡◌, refl, List, [], ◌∷◌, ◌++◌, some, arith, inl, inr}
use inc.Buffer.{Buffer}
use inc.Rtp.{Header}
use inc.Rtp.Fragments.{Fragment, receive, receive-chunks, lead}

abbrev header_of : ℕ → Header
header_of marker = record {
  csrc_len = 8;
  extension = 0;
  padding = 0;
  version = 0;
  payload_type = 96;
  marker = marker;
  seq = 1;
  timestamp = 0;
  ssrc = 0;
}

abbrev begin : Fragment
begin = record { hr = header_of 0; nri = 3; flags = 128; chunk = 1 ∷ 2 ∷ [] }

abbrev rest : List Fragment
rest =
    record { hr = header_of 0; nri = 3; flags = 0; chunk = 3 ∷ [] }
    ∷ record { hr = header_of 1; nri = 3; flags = 64; chunk = 4 ∷ 5 ∷ [] }
    ∷ []

abbrev nothing : Buffer
nothing = record { cap = 0; v = [] }

receive-chunks_example :
    (b' : Buffer) × (receive 5 (9 ∷ []) nothing 0 (begin ∷ rest) ≡ some (5, b'))
    × (b'.v ≡ lead (9 ∷ []) nothing 5 ++ (1 ∷ 2 ∷ 3 ∷ 4 ∷ 5 ∷ []))
receive-chunks_example =
    receive-chunks 5 begin rest (9 ∷ []) nothing (omega arith) refl (inl refl, (inr refl, tt))
