-- ===== src/Sps/Avc/RoundTrip.antt =====
-- `avc::decode_sps` on the sets that the syntax describes.
use inc.Prelude.{ℕ, ◌+◌, ◌*◌, ◌^◌, ◌≤◌, ◌<◌, ◌≡◌, ap₂, List, true, some, arith, length, All}
use mathlib.Core.Path.{subst}
use inc.Prelude.Word.{IsByte, u32}
use inc.Prelude.Int.{pos}
use inc.Sps.{Reader, Info}
use inc.Sps.Bits.{BitsAt}
use inc.Sps.Grammar.{Gives, seq, done, u-Gives, ue-Gives}
use inc.Sps.Avc.{tail_fields, size_fields, body_fields, decode_bits, or_default}
use inc.Sps.Avc.Elements.{
  vui_rate, bit, byte, group, interlaced, vui_end, crop_gives, order_gives, profile_gives,
}
use inc.Sps.Avc.Fields.{Profile, profile_idc, IsProfile, plain, high}
use inc.Sps.Avc.Encode.{
  ParameterSet, tail_bits, size_bits, body_bits, encode, IsTail, IsSized, IsParameterSet,
}

-- What the decoder leaves, and 25 for a rate of 0: the width is 16 times PicWidthInMbs and the height 16
-- times PicHeightInMapUnits of 7.4.2.1.1. That is the size of the picture only where the set has frames
-- alone and no cropping; else the code leaves the crop on, and the height is that of one field.
abbrev pub info_of : ParameterSet → Info
info_of p = record {
  ok = true;
  width = (p.width_in_mbs_minus1 + 1) * 16;
  height = (p.height_in_map_units_minus1 + 1) * 16;
  fps = or_default (pos (vui_rate (p.vui)));
}

profile-byte : (p : Profile) → IsProfile p → profile_idc p < 256
profile-byte (plain p) ok = ok.0
profile-byte (high p c) ok = ok.0

whole_size :
    (p : ParameterSet)
    → (p.width_in_mbs_minus1 + 1) * 16 < 2 ^ 31
    → (p.height_in_map_units_minus1 + 1) * 16 < 2 ^ 31
    → record {
      ok = true;
      width = u32 ((p.width_in_mbs_minus1 + 1) * 16);
      height = u32 ((p.height_in_map_units_minus1 + 1) * 16);
      fps = or_default (pos (vui_rate (p.vui)));
    }
      ≡ info_of p
whole_size p hw hh =
    ap₂
      (λ (w h : ℕ). record {
        ok = true;
        width = w;
        height = h;
        fps = or_default (pos (vui_rate (p.vui)));
      })
      (omega arith) (omega arith)

module _ (buf : List ℕ) (len : ℕ) (h : All IsByte buf) where
  abbrev Reads : {A : Type 0} → Reader A → List ℕ → A → Type 0
  Reads m bs a = Gives buf len h m bs a

  tail_gives :
      (p : ParameterSet)
      → IsTail p
      → Reads (tail_fields buf len) (tail_bits p) (pos (vui_rate (p.vui)))
  unfolding tail_fields
  tail_gives p (hf, hd, hc, hv) = interlaced buf len h (p.fields) hf (
      seq _ _ _ (bit buf len h (p.direct_inference) hd) (
        group buf len h _ _ _ _ _ _ _ (p.crop) (crop_gives buf len h) hc
          (vui_end buf len h (p.vui) hv)))

  -- From the frame number's length on.
  size_gives :
      (p : ParameterSet)
      → IsSized p
      → IsTail p
      → Reads (size_fields buf len) (size_bits p) (info_of p)
  unfolding size_fields
  size_gives p (hm, ho, hn, hg, hw, hh) ht =
      subst (λ (i : Info). Reads (size_fields buf len) (size_bits p) i) (whole_size p hw hh)
        (seq _ _ _ (ue-Gives (p.log2_max_frame_num) hm) (
          seq _ _ _ (order_gives buf len h (p.order) ho) (
            seq _ _ _ (ue-Gives (p.num_ref_frames) hn) (
              seq _ _ _ (bit buf len h (p.gaps_allowed) hg) (
                seq _ _ _ (ue-Gives (p.width_in_mbs_minus1) (omega arith)) (
                  seq _ _ _ (ue-Gives (p.height_in_map_units_minus1) (omega arith))
                    (done _ (tail_gives p ht))))))))

  body_gives :
      (p : ParameterSet)
      → IsParameterSet p
      → Reads (body_fields buf len (profile_idc (p.profile))) (body_bits p) (info_of p)
  unfolding body_fields
  body_gives p ((hr, hp, (f0, f1, f2, f3, f4), hl, hi), (hm, ho, hn, hg, hw, hh), ht) =
      let c = p.constraints in
      seq _ _ _ (bit buf len h (c.0) f0) (
        seq _ _ _ (bit buf len h (c.1.0) f1) (
          seq _ _ _ (bit buf len h (c.1.1.0) f2) (
            seq _ _ _ (bit buf len h (c.1.1.1.0) f3) (
              seq _ _ _ (u-Gives 4 (c.1.1.1.1) (omega arith) f4) (
                seq _ _ _ (byte buf len h (p.level) hl) (
                  seq _ _ _ (ue-Gives (p.id) hi) (
                    seq _ _ _ (profile_gives buf len h (p.profile) hp)
                      (size_gives p (hm, ho, hn, hg, hw, hh) ht))))))))

  unit_gives :
      (p : ParameterSet) (width height : ℕ)
      → IsParameterSet p
      → Reads (decode_bits buf len width height) (encode p) (info_of p)
  unfolding decode_bits
  unit_gives p width height ok = seq _ _ _ (bit buf len h 0 (omega arith)) (
      seq _ _ _ (u-Gives 2 (p.ref_idc) (omega arith) (ok.0.0)) (
        seq _ _ _ (u-Gives 5 7 (omega arith) (omega arith)) (
          seq _ _ _ (byte buf len h (profile_idc (p.profile)) (profile-byte (p.profile) (ok.0.1)))
            (body_gives p ok))))

-- Where the memory holds the bits of a parameter set whose fields are in range at `StartBit`,
-- inside the `len` bytes, the decoder succeeds with 16 times the macroblocks in a row as the width and
-- 16 times the map units in a column as the height, for cropped sets and sets of fields too, and with
-- the frame rate, 25 for a rate of 0, and stops behind the bits. The profile is one for which the
-- code and the standard agree on the chroma fields, and there is no scaling matrix.
pub decode_bits-encode :
    (buf : List ℕ) (len : ℕ) (p : ParameterSet) (width height k : ℕ)
    → All IsByte buf
    → IsParameterSet p
    → BitsAt buf k (encode p)
    → k + length (encode p) ≤ len * 8
    → decode_bits buf len width height k ≡ some (info_of p, k + length (encode p))
decode_bits-encode buf len p width height k h ok at inside =
    (unit_gives buf len h p width height ok).gives k at inside
