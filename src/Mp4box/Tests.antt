-- ===== src/Mp4box/Tests.antt =====
-- The boxes on concrete tracks and parameter sets.
use inc.Prelude.{◌≡◌, refl, [], ◌∷◌, length}
use inc.Mp4box.{htobe32}
use inc.Mp4box.Track.{Trak, make_trak, table_of}

-- A video track of two samples.
abbrev filled : Trak
filled = record make_trak {
  id = 1;
  firts = 40;
  lsts = 80;
  sizes = htobe32 100 ∷ htobe32 50 ∷ [];
  offsets = htobe32 36 ∷ htobe32 136 ∷ [];
  keys = htobe32 1 ∷ [];
}

length-table_of-filled : length (table_of filled) ≡ 124
unfolding table_of
length-table_of-filled = refl
