-- ===== src/Sps/Choice.antt =====
-- stream/sps.hpp, `nalu::Unit::decode_sps`: the decoder for the codec of a unit.
use inc.Prelude.{ℕ, Option, none, leb, if◌then◌else◌, length, take}
use inc.Prelude.Int.{ℤ}
use inc.Nalu.{NalUnit, is_h264}
use inc.Sps.{Info}
use inc.Sps.Avc
use inc.Sps.Hevc

-- `std::string sps(data, size)` and its decoder.
unfoldable pub unit_decode_sps : NalUnit → ℕ → ℕ → ℤ → Option Info
unit_decode_sps v width height fps =
    if leb (v.size) (length (v.bytes))
    then (if is_h264 (v.type)
        then Avc.decode_sps (take (v.size) (v.bytes)) width height
        else Hevc.decode_sps (take (v.size) (v.bytes)) width height fps)
    else none
