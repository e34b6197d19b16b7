-- ===== src/Flv/Tests.antt =====
-- Packets of concrete data.
use inc.Prelude.{◌≡◌, refl, [], ◌∷◌, ◌++◌, some, true, arith, replicate}
use inc.Flv.{Packet, pack}
use inc.Flv.Pack.{pack_lem}

-- Five bytes of data behind a gap of eleven.
abbrev ready : Packet
ready = record {
  is264 = true;
  gap = 11;
  buf = record { cap = 16; v = replicate 11 0 ++ (1 ∷ 2 ∷ 3 ∷ 4 ∷ 5 ∷ []) };
}

-- The tag holds 16 where the data has 5 bytes, and four of them are gone.
pack_lem_example :
    pack ready 9 0x01020304
    ≡ some (
      record ready {
        buf = record {
          cap = 16;
          v = 9 ∷ 0 ∷ 0 ∷ 16 ∷ 2 ∷ 3 ∷ 4 ∷ 1 ∷ 0 ∷ 0 ∷ 0 ∷ 16 ∷ 0 ∷ 0 ∷ 0 ∷ 5 ∷ [];
        };
      },
      record {
        mem = 9 ∷ 0 ∷ 0 ∷ 16 ∷ 2 ∷ 3 ∷ 4 ∷ 1 ∷ 0 ∷ 0 ∷ 0 ∷ 16 ∷ 0 ∷ 0 ∷ 0 ∷ 5 ∷ [];
        pos = 15;
      },
    )
pack_lem_example =
    pack_lem ready 9 0x01020304 [] (replicate 11 0) (1 ∷ 2 ∷ 3 ∷ 4 ∷ []) (5 ∷ []) refl refl refl
      refl (omega arith)
