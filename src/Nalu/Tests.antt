-- ===== src/Nalu/Tests.antt =====
-- Runs of `Split` and `Sort`, and the theorems at concrete inputs.
use inc.Prelude.{ℕ, ◌≡◌, refl, List, [], ◌∷◌, ◌++◌, some, arith}
use inc.Nalu.{
  NalUnit, no_unit, is_h264, start, at_start, scan, rest, null, fault, split, sort_step, sort_loop,
  sets_list, sort,
}
use inc.Nalu.Join.{join, Points, split-join}
use inc.Nalu.Cut.{frame, units, IsFrame, split-frame}
use inc.Nalu.Sorted.{is_sps, is_pps, is_vps, find_last, value_or, sort_lem}

abbrev sps : List ℕ
sps = 0x67 ∷ 1 ∷ 2 ∷ []

abbrev pps : List ℕ
pps = 0x68 ∷ 9 ∷ []

abbrev idr : List ℕ
idr = 0x65 ∷ 0 ∷ 0 ∷ []

abbrev slack : List ℕ
slack = 7 ∷ 7 ∷ 7 ∷ []

abbrev movie : List ℕ
movie = frame (sps ∷ pps ∷ []) idr slack

abbrev key_units : List NalUnit
key_units = units (sps ∷ pps ∷ []) idr slack

splits : split 3 movie 20 [] ≡ rest (idr ++ slack) 3 key_units
unfolding split scan at_start
splits = refl

not_a_frame : split 3 sps 3 [] ≡ fault
unfolding split at_start
not_a_frame = refl

no_start : split 3 (sps ++ slack) 3 [] ≡ null 3 []
unfolding split at_start
no_start = refl

-- Without the bytes behind the frame the search for a start code leaves the block.
reads_behind : split 3 (start ++ idr) 7 [] ≡ fault
unfolding split scan at_start
reads_behind = refl

movie-IsFrame : IsFrame (sps ∷ pps ∷ []) idr slack
unfolding at_start
movie-IsFrame = ((refl, (refl, (refl, tt))), ((refl, (refl, tt)), (refl, (refl, (refl, tt)))))

split-frame_example : split 3 movie 20 [] ≡ rest (idr ++ slack) 3 key_units
split-frame_example =
    split-frame (sps ∷ pps ∷ []) idr slack [] 3 movie-IsFrame (omega arith, (omega arith, tt))
      (omega arith) (omega arith)

split-join_example :
    (new : List NalUnit) × (key_units ≡ [] ++ new)
    × (movie ≡ join new (idr ++ slack))
    × Points new (idr ++ slack)
split-join_example = split-join 3 movie 20 [] (idr ++ slack) 3 key_units (omega arith) splits

abbrev vps_unit : NalUnit
vps_unit = record { type = 0x40; size = 1; bytes = 0x40 ∷ [] }

abbrev sps_unit : NalUnit
sps_unit = record { type = 0x42; size = 1; bytes = 0x42 ∷ [] }

sorts : sort (vps_unit ∷ sps_unit ∷ []) ≡ some (sps_unit ∷ no_unit ∷ vps_unit ∷ [])
unfolding sort sort_loop sort_step is_h264
sorts = refl

sort_lem_example :
    sort (vps_unit ∷ sps_unit ∷ [])
    ≡ some (
        sets_list (record {
          sps = value_or (find_last (is_sps (is_h264 0x40)) (vps_unit ∷ sps_unit ∷ [])) no_unit;
          pps = value_or (find_last (is_pps (is_h264 0x40)) (vps_unit ∷ sps_unit ∷ [])) no_unit;
          vps = find_last (is_vps (is_h264 0x40)) (vps_unit ∷ sps_unit ∷ []);
        }))
sort_lem_example = sort_lem vps_unit (sps_unit ∷ [])
