-- ===== src/Sps/Avc.antt =====
-- stream/sps.hpp, `avc::decode_sps`. Values that the code reads and does not use only move the
-- reader. The memory that `new int[]` takes is not modelled.
pub mod Fields
pub mod Elements
pub mod RoundTrip
pub mod Stream
pub mod Encode
use inc.Prelude.{
  ℕ, zero, suc, ◌+◌, ◌-◌, ◌*◌, ◌/◌, ◌^◌, List, Bool, true, false, ◌&&◌, ◌||◌, Option, none, some,
  ltb, ◌==◌, if◌then◌else◌, length,
}
use inc.Prelude.Word.{u32}
use inc.Prelude.Int.{ℤ, pos, negsuc, neg_of}
use inc.Sps.{
  Reader, ◌>>=◌, ◌>>◌, pure, fault, u, ue, se, de_emulation_prevention, c_str, Info, repeat, when,
}

-- `fps = time_scale / (2 * num_units_in_tick)` on two words that became `int`s: a division by
-- zero and a product out of range are faults, and the quotient is cut towards zero. For the words
-- of 2 ^ 31 and more `num_units_in_tick` is negative.
unfoldable pub frame_rate : ℕ → ℕ → Option ℤ
frame_rate units scale =
    let small = 2 * units in
    let negative = 2 * (2 ^ 32 - units) in
    if units == 0
    then none
    else if ltb units (2 ^ 30)
    then some
        (if ltb scale (2 ^ 31) then pos (scale / small) else neg_of ((2 ^ 32 - scale) / small))
    else if ltb (2 ^ 32 - units) (2 ^ 30 + 1) && ltb units (2 ^ 32)
    then some (
        if ltb scale (2 ^ 31) then neg_of (scale / negative) else pos ((2 ^ 32 - scale) / negative))
    else none

-- `if (fps == 0) fps = 25`.
abbrev pub or_default : ℤ → ℤ
or_default (pos zero) = pos 25
or_default (pos (suc n)) = pos (suc n)
or_default (negsuc n) = negsuc n

module _ (buf : List ℕ) (len : ℕ) where
  -- The fields of the profiles that are tested for.
  pub chroma_fields : Reader (Unit {0})
  chroma_fields = do
    chroma_format_idc ← ue buf len
    when (if chroma_format_idc == 3 then 1 else 0) (u buf 1)
    ue buf len
    ue buf len
    u buf 1
    seq_scaling_matrix_present_flag ← u buf 1
    when seq_scaling_matrix_present_flag (repeat 8 (u buf 1))

  pub cycle_fields : Reader (Unit {0})
  cycle_fields = do
    u buf 1
    se buf len
    se buf len
    num_ref_frames_in_pic_order_cnt_cycle ← ue buf len
    repeat num_ref_frames_in_pic_order_cnt_cycle (se buf len)

  pub pic_order_fields : Reader (Unit {0})
  pic_order_fields = do
    pic_order_cnt_type ← ue buf len
    if pic_order_cnt_type == 0
        then (ue buf len >> pure tt)
        else if pic_order_cnt_type == 1
        then cycle_fields
        else pure tt

  pub timing_fields : Reader ℤ
  timing_fields = do
    num_units_in_tick ← u buf 32
    time_scale ← u buf 32
    elim (frame_rate num_units_in_tick time_scale) [ none ↦ fault | some f ↦ pure f ]

  pub aspect_fields : Reader (Unit {0})
  aspect_fields = do
    aspect_ratio_idc ← u buf 8
    when (if aspect_ratio_idc == 255 then 1 else 0) (u buf 16 >> u buf 16)

  pub video_signal_fields : Reader (Unit {0})
  video_signal_fields = do
    u buf 3
    u buf 1
    colour_description_present_flag ← u buf 1
    when colour_description_present_flag (u buf 8 >> u buf 8 >> u buf 8)

  -- The video usability information, for the frame rate; 0 where it is not given.
  pub vui_fields : Reader ℤ
  vui_fields = do
    aspect_ratio_info_present_flag ← u buf 1
    when aspect_ratio_info_present_flag aspect_fields
    overscan_info_present_flag ← u buf 1
    when overscan_info_present_flag (u buf 1)
    video_signal_type_present_flag ← u buf 1
    when video_signal_type_present_flag video_signal_fields
    chroma_loc_info_present_flag ← u buf 1
    when chroma_loc_info_present_flag (ue buf len >> ue buf len)
    timing_info_present_flag ← u buf 1
    if timing_info_present_flag == 0 then pure (pos 0) else timing_fields

  -- The cropping and the usability information, behind the size of the picture.
  pub tail_fields : Reader ℤ
  tail_fields = do
    frame_mbs_only_flag ← u buf 1
    when (if frame_mbs_only_flag == 0 then 1 else 0) (u buf 1)
    u buf 1
    frame_cropping_flag ← u buf 1
    when frame_cropping_flag (ue buf len >> ue buf len >> ue buf len >> ue buf len)
    vui_parameter_present_flag ← u buf 1
    if vui_parameter_present_flag == 0 then pure (pos 0) else vui_fields

  -- From the frame number's length on: the size as an `int`, then as a `UINT`. An `int` that overflows,
  -- which C++ leaves undefined, wraps here.
  pub size_fields : Reader Info
  size_fields = do
    ue buf len
    pic_order_fields
    ue buf len
    u buf 1
    pic_width_in_mbs_minus1 ← ue buf len
    pic_height_in_map_units_minus1 ← ue buf len
    fps ← tail_fields
    pure (record {
      ok = true;
      width = u32 ((pic_width_in_mbs_minus1 + 1) * 16);
      height = u32 ((pic_height_in_map_units_minus1 + 1) * 16);
      fps = or_default fps;
    })

  -- Behind the profile.
  pub body_fields : ℕ → Reader Info
  body_fields profile_idc = do
    u buf 1
    u buf 1
    u buf 1
    u buf 1
    u buf 4
    u buf 8
    ue buf len
    when
        (if profile_idc == 100 || profile_idc == 110 || profile_idc == 122 || profile_idc == 144
          then 1
          else 0)
        chroma_fields
    size_fields

  -- The decoder on its bits; `width` and `height` are what the variables held before.
  pub decode_bits : ℕ → ℕ → Reader Info
  decode_bits width height = do
    u buf 1
    u buf 2
    nal_unit_type ← u buf 5
    if nal_unit_type == 7
        then (u buf 8 >>= body_fields)
        else pure (record { ok = false; width = width; height = height; fps = pos 0 })

-- `decode_sps` on the bytes of a string.
unfoldable pub decode_sps : List ℕ → ℕ → ℕ → Option Info
decode_sps s width height = elim (de_emulation_prevention (c_str s) (length s)) [
  | none ↦ none
  | some (buf, len) ↦ elim (decode_bits buf len width height 0) [
    | none ↦ none
    | some (info, _) ↦ some info
  ]
]
