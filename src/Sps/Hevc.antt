-- ===== src/Sps/Hevc.antt =====
-- stream/sps.hpp, `hevc::decode_sps`. The frame rate is computed in doubles there: up to 1000 the
-- quotient of two 32-bit words plus a half is exact enough for the integer part to be that of the
-- rational number, and beyond both give the default.
pub mod Rate
mod Tests
use inc.Prelude.{
  ℕ, zero, suc, ◌+◌, ◌-◌, ◌*◌, ◌/◌, ◌^◌, List, [], ◌∷◌, ◌++◌, Bool, true, false, ◌&&◌, ◌||◌, not,
  Option, none, some, ltb, ◌==◌, if◌then◌else◌, length,
}
use Prim.Native.Nat.{min}
use inc.Prelude.Int.{ℤ, pos}
use inc.Sps.{
  Reader, ◌>>=◌, ◌>>◌, pure, u, ue, se, de_emulation_prevention, c_str, Info, repeat, when,
}

-- `(int)(vui_time_scale / (2.0 * vui_num_units_in_tick) + 0.5)`, checked to be sensible; `fps` is
-- what was set before. The conversion of a number that no `int` holds, which C++ leaves undefined, is
-- taken to be out of range.
unfoldable pub frame_rate : ℕ → ℕ → ℕ → ℕ
frame_rate units scale fps =
    let rate = (scale + units) / (2 * units) in
    if ltb 0 units && ltb 0 scale then (if rate == 0 || ltb 1000 rate then 25 else rate) else fps

module _ (buf : List ℕ) (len : ℕ) where
  -- The two flags of each sub-layer.
  pub sub_layer_flags : ℕ → Reader (List (ℕ × ℕ))
  sub_layer_flags zero = pure []
  sub_layer_flags (suc n) = do
    profile_present ← u buf 1
    level_present ← u buf 1
    others ← sub_layer_flags n
    pure ((profile_present, level_present) ∷ others)

  pub sub_layers : List (ℕ × ℕ) → Reader (Unit {0})
  sub_layers [] = pure tt
  sub_layers ((profile_present, level_present) ∷ flags) = do
    when profile_present (u buf 8 >> u buf 32 >> u buf 48)
    when level_present (u buf 8)
    sub_layers flags

  pub profile_tier_level : ℕ → Reader (Unit {0})
  profile_tier_level max_sub_layers_minus1 = do
    u buf 3
    u buf 5
    u buf 32
    u buf 48
    u buf 8
    flags ← sub_layer_flags max_sub_layers_minus1
    when (if ltb 0 max_sub_layers_minus1 then 1 else 0)
        (repeat (8 - max_sub_layers_minus1) (u buf 2))
    sub_layers flags

  pub ordering_info : ℕ → Reader (Unit {0})
  ordering_info max_sub_layers_minus1 = do
    present ← u buf 1
    repeat (if present == 0 then 1 else max_sub_layers_minus1 + 1)
        (ue buf len >> ue buf len >> ue buf len)

  -- One list of `scaling_list_data`.
  pub scaling_matrix : ℕ → Reader (Unit {0})
  scaling_matrix size_id = do
    pred_mode ← u buf 1
    if pred_mode == 0
        then (ue buf len >> pure tt)
        else (when (if ltb 1 size_id then 1 else 0) (se buf len)
            >> repeat (min 64 (2 ^ (4 + 2 * size_id))) (se buf len))

  pub scaling_lists : Reader (Unit {0})
  scaling_lists = do
    repeat 6 (scaling_matrix 0)
    repeat 6 (scaling_matrix 1)
    repeat 6 (scaling_matrix 2)
    repeat 2 (scaling_matrix 3)

  pub pcm_fields : Reader (Unit {0})
  pcm_fields = do u buf 4; u buf 4; ue buf len; ue buf len; u buf 1 >> pure tt

  -- A set that is predicted from another, of which one entry is skipped.
  pub predicted_set : Reader (Unit {0})
  predicted_set = do
    u buf 1
    ue buf len
    used_by_curr_pic_flag ← u buf 1
    when (if used_by_curr_pic_flag == 0 then 1 else 0) (u buf 1)

  pub explicit_set : Reader (Unit {0})
  explicit_set = do
    num_negative_pics ← ue buf len
    num_positive_pics ← ue buf len
    repeat num_negative_pics (ue buf len >> u buf 1)
    repeat num_positive_pics (ue buf len >> u buf 1)

  -- The set with index `i`; `i` never equals the number of sets.
  pub short_term_set : ℕ → Reader (Unit {0})
  short_term_set zero = explicit_set
  short_term_set (suc i) = do
    predicted ← u buf 1
    if predicted == 0 then explicit_set else predicted_set

  pub short_term_sets : ℕ → ℕ → Reader (Unit {0})
  short_term_sets zero i = pure tt
  short_term_sets (suc left) i = do short_term_set i; short_term_sets left (i + 1)

  pub long_term_fields : Reader (Unit {0})
  long_term_fields = do
    num_long_term_ref_pics_sps ← ue buf len
    repeat num_long_term_ref_pics_sps (u buf 16 >> u buf 1)

  -- From the size of the order count to the flag of the usability information.
  pub coding_fields : ℕ → Reader (Unit {0})
  coding_fields max_sub_layers_minus1 = do
    ue buf len
    ordering_info max_sub_layers_minus1
    repeat 6 (ue buf len)
    scaling_list_enabled_flag ← u buf 1
    when scaling_list_enabled_flag (u buf 1 >>= λ present. when present scaling_lists)
    u buf 1
    u buf 1
    pcm_enabled_flag ← u buf 1
    when pcm_enabled_flag pcm_fields
    num_short_term_ref_pic_sets ← ue buf len
    short_term_sets num_short_term_ref_pic_sets 0
    long_term_ref_pics_present_flag ← u buf 1
    when long_term_ref_pics_present_flag long_term_fields
    u buf 1
    u buf 1 >> pure tt

  pub vui_aspect : Reader (Unit {0})
  vui_aspect = do
    vui_aspect_ratio_idc ← u buf 8
    when (if vui_aspect_ratio_idc == 255 then 1 else 0) (u buf 16 >> u buf 16)

  pub vui_signal : Reader (Unit {0})
  vui_signal = do
    u buf 3
    u buf 1
    described ← u buf 1
    when described (u buf 8 >> u buf 8 >> u buf 8)

  pub vui_timing : ℕ → Reader ℕ
  vui_timing fps = do
    vui_num_units_in_tick ← u buf 32
    vui_time_scale ← u buf 32
    pure (frame_rate vui_num_units_in_tick vui_time_scale fps)

  -- The usability information, for the frame rate.
  pub vui_fields : ℕ → Reader ℕ
  vui_fields fps = do
    aspect ← u buf 1
    when aspect vui_aspect
    overscan ← u buf 1
    when overscan (u buf 1)
    signal ← u buf 1
    when signal vui_signal
    chroma_loc ← u buf 1
    when chroma_loc (ue buf len >> ue buf len)
    u buf 1
    u buf 1
    u buf 1
    window ← u buf 1
    when window (repeat 4 (ue buf len))
    timing ← u buf 1
    if timing == 0 then pure fps else vui_timing fps

  -- From the bit depths on, with the size known.
  pub depth_fields : ℕ → ℕ → ℕ → Reader Info
  depth_fields max_sub_layers_minus1 width height = do
    bit_depth_luma_minus8 ← ue buf len
    bit_depth_chroma_minus8 ← ue buf len
    if not (bit_depth_luma_minus8 == bit_depth_chroma_minus8)
        then pure (record { ok = false; width = width; height = height; fps = pos 25 })
        else (do
          coding_fields max_sub_layers_minus1
          vui_parameters_present_flag ← u buf 1
          fps ← (if vui_parameters_present_flag == 0 then pure 25 else vui_fields 25)
          pure (record { ok = true; width = width; height = height; fps = pos fps }))

  pub size_fields : ℕ → ℕ → Reader Info
  size_fields max_sub_layers_minus1 chroma_format_idc = do
    when (if chroma_format_idc == 3 then 1 else 0) (u buf 1)
    width ← ue buf len
    height ← ue buf len
    conformance_window ← u buf 1
    when conformance_window (repeat 4 (ue buf len))
    depth_fields max_sub_layers_minus1 width height

  -- The second test is on the identifier again.
  pub id_fields : ℕ → ℕ → ℕ → Reader Info
  id_fields max_sub_layers_minus1 width height = do
    sps_seq_parameter_set_id ← ue buf len
    if ltb 15 sps_seq_parameter_set_id
        then pure (record { ok = false; width = width; height = height; fps = pos 0 })
        else (do
          chroma_format_idc ← ue buf len
          if ltb 3 sps_seq_parameter_set_id
              then pure (record { ok = false; width = width; height = height; fps = pos 0 })
              else size_fields max_sub_layers_minus1 chroma_format_idc)

  -- The decoder on its bits; `width` and `height` are what the variables held before.
  pub decode_bits : ℕ → ℕ → Reader Info
  decode_bits width height = do
    u buf 4
    sps_max_sub_layers_minus1 ← u buf 3
    if ltb 6 sps_max_sub_layers_minus1
        then pure (record { ok = false; width = width; height = height; fps = pos 0 })
        else (do
          u buf 1
          profile_tier_level sps_max_sub_layers_minus1
          id_fields sps_max_sub_layers_minus1 width height)

-- `decode_sps` on the bytes of a string; below 20 bytes `fps` is left alone.
unfoldable pub decode_sps : List ℕ → ℕ → ℕ → ℤ → Option Info
decode_sps s width height fps =
    if ltb (length s) 20
    then some (record { ok = false; width = width; height = height; fps = fps })
    else elim (de_emulation_prevention (c_str s) (length s)) [
      | none ↦ none
      | some (buf, len) ↦ elim (decode_bits buf len width height 0) [
        | none ↦ none
        | some (info, _) ↦ some info
      ]
    ]
