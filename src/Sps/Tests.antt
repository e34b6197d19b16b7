-- ===== src/Sps/Tests.antt =====
-- The readers and the decoders of stream/sps.hpp on concrete memory.
use inc.Prelude.{
  ℕ, ◌≡◌, refl, List, [], ◌∷◌, Bool, true, false, ◌&&◌, none, some, arith, ltb, length, All, drop,
}
use inc.Prelude.Word.{IsByte}
use inc.Prelude.Int.{pos}
use inc.Sps.{de_emulation_prevention, c_str}
use inc.Sps.Bits.{BitsAt-prefix, bits}
use inc.Sps.Emulation.{Leaves, strip, de_emulation_prevention_lem}
use inc.Sps.Protect.{de_emulation_prevention-protect, protect}
use inc.Sps.Avc.Fields.{by_lsb, plain}
use inc.Sps.Avc.Encode.{ParameterSet, encode, IsParameterSet}
use inc.Sps.Avc.RoundTrip.{info_of, decode_bits-encode}
use inc.Sps.Avc.Stream.{decode_sps-protect}
use inc.Sps.Avc

all_bytes : List ℕ → Bool
all_bytes [] = true
all_bytes (x ∷ xs) = ltb x 256 && all_bytes xs

bytes_lem : (xs : List ℕ) → all_bytes xs ≡ true → All IsByte xs
unfolding all_bytes
bytes_lem [] e = tt
bytes_lem (x ∷ xs) e = (ground (arith, e), bytes_lem xs (ground (arith, e)))

-- 640 × 480 at 30 frames a second.
abbrev camera : ParameterSet
camera = record {
  ref_idc = 3;
  profile = plain 66;
  constraints = (0, (0, (0, (0, 0))));
  level = 30;
  id = 0;
  log2_max_frame_num = 0;
  order = by_lsb 2;
  num_ref_frames = 1;
  gaps_allowed = 0;
  width_in_mbs_minus1 = 39;
  height_in_map_units_minus1 = 29;
  fields = none;
  direct_inference = 1;
  crop = none;
  vui = some (record {
    aspect = none;
    overscan = none;
    signal = none;
    chroma_loc = none;
    timing = some (1, 60);
  });
}

abbrev camera_tail : List ℕ
camera_tail = 0 ∷ 30 ∷ 237 ∷ 1 ∷ 64 ∷ 123 ∷ 66 ∷ 0 ∷ 0 ∷ 0 ∷ 2 ∷ 0 ∷ 0 ∷ 0 ∷ 120 ∷ []

abbrev camera_bytes : List ℕ
camera_bytes = 103 ∷ 66 ∷ camera_tail

camera-IsByte : All IsByte camera_bytes
unfolding all_bytes
camera-IsByte = bytes_lem camera_bytes refl

camera-IsParameterSet : IsParameterSet camera
camera-IsParameterSet = (
  (
    omega arith,
    (omega arith, refl, refl),
    (omega arith, omega arith, omega arith, omega arith, omega arith),
    omega arith,
    omega arith,
  ),
  (omega arith, omega arith, omega arith, omega arith, omega arith, omega arith),
  (tt, omega arith, tt, (tt, tt, tt, tt, (omega arith, omega arith, omega arith))),
)

decode_bits-encode_example :
    Avc.decode_bits camera_bytes 17 0 0 0 ≡ some (info_of camera, length (encode camera))
decode_bits-encode_example =
    decode_bits-encode camera_bytes 17 camera 0 0 0 camera-IsByte camera-IsParameterSet
      (BitsAt-prefix camera_bytes [] (encode camera) (drop 135 (bits camera_bytes)) refl)
      (omega arith)

decode_sps-protect_example :
    Avc.decode_sps (103 ∷ 66 ∷ protect 103 66 camera_tail) 0 0
    ≡ some (record { ok = true; width = 640; height = 480; fps = pos 30 })
decode_sps-protect_example =
    decode_sps-protect 103 66 camera_tail camera 0 0 camera-IsByte refl (omega arith)
      camera-IsParameterSet
      (BitsAt-prefix camera_bytes [] (encode camera) (drop 135 (bits camera_bytes)) refl)

de_emulation_prevention_lem_example :
    Leaves
      (de_emulation_prevention (c_str (1 ∷ 0 ∷ 0 ∷ 3 ∷ 1 ∷ [])) 5)
      (1 ∷ 0 ∷ strip false 1 0 (0 ∷ 3 ∷ 1 ∷ []))
      4
unfolding all_bytes
de_emulation_prevention_lem_example =
    de_emulation_prevention_lem 1 0 (0 ∷ 3 ∷ 1 ∷ []) (bytes_lem (1 ∷ 0 ∷ 0 ∷ 3 ∷ 1 ∷ []) refl)
      (omega arith)

de_emulation_prevention-protect_example :
    Leaves
      (de_emulation_prevention (c_str (103 ∷ 66 ∷ protect 103 66 camera_tail)) 19)
      camera_bytes
      17
de_emulation_prevention-protect_example =
    de_emulation_prevention-protect 103 66 camera_tail camera-IsByte refl (omega arith)
