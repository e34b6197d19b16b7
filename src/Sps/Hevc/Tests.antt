-- ===== src/Sps/Hevc/Tests.antt =====
-- `hevc::decode_sps` on a concrete set.
use inc.Prelude.{◌≡◌, ◌≤◌, refl, ℕ, List, [], ◌∷◌, true, some}
use inc.Prelude.Int.{pos}
use inc.Sps.{
  u, ue, kick, shift, zeros, bits_loop, peek_bit, next_bit, repeat, de_emulation_prevention,
}
use inc.Sps.Hevc.{
  sub_layer_flags, sub_layers, profile_tier_level, ordering_info, scaling_matrix, scaling_lists,
  pcm_fields, predicted_set, explicit_set, short_term_set, short_term_sets, long_term_fields,
  coding_fields, vui_aspect, vui_signal, vui_timing, vui_fields, depth_fields, size_fields,
  id_fields, decode_bits, decode_sps, frame_rate,
}
use inc.Sps.Hevc.Rate.{decode_sps-InRange}

-- 1920 × 1080 at 30 frames a second.
abbrev screen : List ℕ
screen =
    0 ∷ 1 ∷ 255 ∷ 255 ∷ 255 ∷ 255 ∷ 255 ∷ 255 ∷ 255 ∷ 255 ∷ 255 ∷ 255 ∷ 93 ∷ 160 ∷ 3 ∷ 192 ∷ 128
    ∷ 16 ∷ 229 ∷ 255 ∷ 240 ∷ 136 ∷ 4 ∷ 0 ∷ 0 ∷ 0 ∷ 4 ∷ 0 ∷ 0 ∷ 0 ∷ 240 ∷ 0 ∷ 0 ∷ 0 ∷ []

screen_run :
    decode_sps screen 0 0 (pos 0)
    ≡ some (record { ok = true; width = 1920; height = 1080; fps = pos 30 })
unfolding u ue kick shift zeros bits_loop peek_bit next_bit repeat de_emulation_prevention
    sub_layer_flags sub_layers profile_tier_level ordering_info scaling_matrix scaling_lists
    pcm_fields predicted_set explicit_set short_term_set short_term_sets long_term_fields
    coding_fields vui_aspect vui_signal vui_timing vui_fields depth_fields size_fields id_fields
    decode_bits decode_sps frame_rate
screen_run = refl

decode_sps-InRange_example : (rate : ℕ) × ((pos 30 ≡ pos rate) × ((1 ≤ rate) × (rate ≤ 1000)))
decode_sps-InRange_example =
    decode_sps-InRange screen 0 0 (pos 0)
      (record { ok = true; width = 1920; height = 1080; fps = pos 30 }) screen_run refl
