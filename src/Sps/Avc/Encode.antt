-- ===== src/Sps/Avc/Encode.antt =====
-- The syntax of the sequence parameter set, 7.3.2.1.1 of H.264, up to the frame rate: what
-- `avc::decode_sps` is given. The sets have no scaling matrix, and their
-- profiles are those for which the code reads what the standard has.
use inc.Prelude.{ℕ, ◌+◌, ◌*◌, ◌^◌, ◌<◌, List, ◌++◌, Option}
use inc.Sps.Bits.{binary}
use inc.Sps.Avc.Fields.{
  IsCode, optional, Holds, PicOrder, pic_order_bits, IsPicOrder, Vui, vui_bits, IsVui, Profile,
  profile_idc, profile_bits, IsProfile, Crop, crop_bits, IsCrop, frame_bits,
}
use inc.Sps.Grammar.{exp_golomb}

pub record ParameterSet : Type 0 where
  pub ref_idc : ℕ
  pub profile : Profile
  pub constraints : ℕ × (ℕ × (ℕ × (ℕ × ℕ)))
  pub level : ℕ
  pub id : ℕ
  pub log2_max_frame_num : ℕ
  pub order : PicOrder
  pub num_ref_frames : ℕ
  pub gaps_allowed : ℕ
  pub width_in_mbs_minus1 : ℕ
  pub height_in_map_units_minus1 : ℕ
  pub fields : Option ℕ
  pub direct_inference : ℕ
  pub crop : Option Crop
  pub vui : Option Vui

abbrev pub tail_bits : ParameterSet → List ℕ
tail_bits p =
    frame_bits (p.fields)
    ++ (binary 1 (p.direct_inference) ++ (optional crop_bits (p.crop) ++ optional vui_bits (p.vui)))

abbrev pub size_bits : ParameterSet → List ℕ
size_bits p =
    exp_golomb (p.log2_max_frame_num)
    ++ (pic_order_bits (p.order)
        ++ (exp_golomb (p.num_ref_frames)
            ++ (binary 1 (p.gaps_allowed)
                ++ (exp_golomb (p.width_in_mbs_minus1)
                    ++ (exp_golomb (p.height_in_map_units_minus1) ++ tail_bits p)))))

abbrev pub body_bits : ParameterSet → List ℕ
body_bits p =
    let c = p.constraints in
    binary 1 (c.0)
    ++ (binary 1 (c.1.0)
        ++ (binary 1 (c.1.1.0)
            ++ (binary 1 (c.1.1.1.0)
                ++ (binary 4 (c.1.1.1.1)
                    ++ (binary 8 (p.level)
                        ++ (exp_golomb (p.id) ++ (profile_bits (p.profile) ++ size_bits p)))))))

-- The unit: forbidden_zero_bit, nal_ref_idc, nal_unit_type 7, then the set.
abbrev pub encode : ParameterSet → List ℕ
encode p =
    binary 1 0
    ++ (binary 2 (p.ref_idc) ++ (binary 5 7 ++ (binary 8 (profile_idc (p.profile)) ++ body_bits p)))

abbrev pub IsTail : ParameterSet → Type 0
IsTail p =
    Holds (λ f. f < 2) (p.fields)
    × (p.direct_inference < 2)
    × Holds IsCrop (p.crop)
    × Holds IsVui (p.vui)

abbrev pub IsSized : ParameterSet → Type 0
IsSized p =
    IsCode (p.log2_max_frame_num)
    × IsPicOrder (p.order)
    × IsCode (p.num_ref_frames)
    × (p.gaps_allowed < 2)
    × ((p.width_in_mbs_minus1 + 1) * 16 < 2 ^ 31)
    × ((p.height_in_map_units_minus1 + 1) * 16 < 2 ^ 31)

abbrev pub IsFlags : ℕ × (ℕ × (ℕ × (ℕ × ℕ))) → Type 0
IsFlags c = (c.0 < 2) × (c.1.0 < 2) × (c.1.1.0 < 2) × (c.1.1.1.0 < 2) × (c.1.1.1.1 < 16)

-- The fields are in the ranges of their codes.
abbrev pub IsParameterSet : ParameterSet → Type 0
IsParameterSet p =
    ((p.ref_idc < 4)
      × IsProfile (p.profile)
      × IsFlags (p.constraints)
      × (p.level < 256)
      × IsCode (p.id))
    × IsSized p
    × IsTail p
