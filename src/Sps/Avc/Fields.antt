-- ===== src/Sps/Avc/Fields.antt =====
-- The parts of the sequence parameter set of H.264 that flags and identifiers announce, as
-- `avc::decode_sps` reads them. There is no scaling matrix.
use inc.Prelude.{
  ℕ, ◌+◌, ◌^◌, ◌≤◌, ◌<◌, ◌≡◌, List, [], ◌∷◌, ◌++◌, Bool, true, false, ◌||◌, Option, none, some,
  ◌==◌, if◌then◌else◌, length, All,
}
use inc.Prelude.Int.{ℤ}
use inc.Sps.Bits.{binary}
use inc.Sps.Grammar.{exp_golomb, code_number}

-- A `ue(v)` and an `se(v)` of at most 30 leading zeros.
abbrev pub IsCode : ℕ → Type 0
IsCode v = v + 1 < 2 ^ 31

abbrev pub signed_code : ℤ → List ℕ
signed_code z = exp_golomb (code_number z)

-- A field that a flag announces.
abbrev pub optional : {A : Type 0} → (A → List ℕ) → Option A → List ℕ
optional f none = binary 1 0
optional f (some a) = binary 1 1 ++ f a

abbrev pub Holds : {A : Type 0} → (A → Type 0) → Option A → Type 0
Holds P none = Unit
Holds P (some a) = P a

pub record Chroma : Type 0 where
  pub format : ℕ
  pub colour_transform : ℕ
  pub luma_depth : ℕ
  pub chroma_depth : ℕ
  pub bypass : ℕ

abbrev pub chroma_format_bits : ℕ → ℕ → List ℕ
chroma_format_bits format transform = if format == 3 then binary 1 transform else []

abbrev pub chroma_bits : Chroma → List ℕ
chroma_bits c =
    exp_golomb (c.format)
    ++ (chroma_format_bits (c.format) (c.colour_transform)
        ++ (exp_golomb (c.luma_depth)
            ++ (exp_golomb (c.chroma_depth) ++ (binary 1 (c.bypass) ++ binary 1 0))))

abbrev pub IsChroma : Chroma → Type 0
IsChroma c =
    (c.format ≤ 3)
    × (c.colour_transform < 2)
    × IsCode (c.luma_depth)
    × IsCode (c.chroma_depth)
    × (c.bypass < 2)

pub data PicOrder : Type 0 where
  by_lsb : ℕ → PicOrder
  by_cycle : ℕ → ℤ → ℤ → List ℤ → PicOrder
  by_decoding : PicOrder

abbrev pub offset_bits : List ℤ → List ℕ
offset_bits [] = []
offset_bits (z ∷ zs) = signed_code z ++ offset_bits zs

abbrev pub pic_order_bits : PicOrder → List ℕ
pic_order_bits (by_lsb v) = exp_golomb 0 ++ exp_golomb v
pic_order_bits (by_cycle always_zero non_ref top_bottom offsets) =
    exp_golomb 1
    ++ (binary 1 always_zero
        ++ (signed_code non_ref
            ++ (signed_code top_bottom ++ (exp_golomb (length offsets) ++ offset_bits offsets))))
pic_order_bits by_decoding = exp_golomb 2

abbrev pub IsPicOrder : PicOrder → Type 0
IsPicOrder (by_lsb v) = IsCode v
IsPicOrder (by_cycle always_zero non_ref top_bottom offsets) =
    (always_zero < 2)
    × IsCode (code_number non_ref)
    × IsCode (code_number top_bottom)
    × IsCode (length offsets)
    × All (λ z. IsCode (code_number z)) offsets
IsPicOrder by_decoding = Unit

pub data Aspect : Type 0 where
  ratio : ℕ → Aspect
  extended : ℕ → ℕ → Aspect

abbrev pub aspect_bits : Aspect → List ℕ
aspect_bits (ratio idc) = binary 8 idc
aspect_bits (extended w h) = binary 8 255 ++ (binary 16 w ++ binary 16 h)

abbrev pub IsAspect : Aspect → Type 0
IsAspect (ratio idc) = idc < 255
IsAspect (extended w h) = (w < 2 ^ 16) × (h < 2 ^ 16)

pub record Signal : Type 0 where
  pub format : ℕ
  pub full_range : ℕ
  pub colour : Option (ℕ × (ℕ × ℕ))

abbrev pub colour_bits : ℕ × (ℕ × ℕ) → List ℕ
colour_bits c = binary 8 (c.0) ++ (binary 8 (c.1.0) ++ binary 8 (c.1.1))

abbrev pub signal_bits : Signal → List ℕ
signal_bits s = binary 3 (s.format) ++ (binary 1 (s.full_range) ++ optional colour_bits (s.colour))

abbrev pub IsSignal : Signal → Type 0
IsSignal s =
    (s.format < 8)
    × (s.full_range < 2)
    × Holds (λ c. (c.0 < 256) × (c.1.0 < 256) × (c.1.1 < 256)) (s.colour)

-- The usability information up to the timing, which is (num_units_in_tick, time_scale).
pub record Vui : Type 0 where
  pub aspect : Option Aspect
  pub overscan : Option ℕ
  pub signal : Option Signal
  pub chroma_loc : Option (ℕ × ℕ)
  pub timing : Option (ℕ × ℕ)

abbrev pub loc_bits : ℕ × ℕ → List ℕ
loc_bits l = exp_golomb (l.0) ++ exp_golomb (l.1)

abbrev pub timing_bits : ℕ × ℕ → List ℕ
timing_bits t = binary 32 (t.0) ++ binary 32 (t.1)

abbrev pub vui_bits : Vui → List ℕ
vui_bits v =
    optional aspect_bits (v.aspect)
    ++ (optional (binary 1) (v.overscan)
        ++ (optional signal_bits (v.signal)
            ++ (optional loc_bits (v.chroma_loc) ++ optional timing_bits (v.timing))))

-- A tick is a positive number of units, and both words are below 2 ^ 30.
abbrev pub IsTiming : ℕ × ℕ → Type 0
IsTiming t = (0 < t.0) × (t.0 < 2 ^ 30) × (t.1 < 2 ^ 30)

abbrev pub IsVui : Vui → Type 0
IsVui v =
    Holds IsAspect (v.aspect)
    × Holds (λ o. o < 2) (v.overscan)
    × Holds IsSignal (v.signal)
    × Holds (λ l. IsCode (l.0) × IsCode (l.1)) (v.chroma_loc)
    × Holds IsTiming (v.timing)

pub data Profile : Type 0 where
  plain : ℕ → Profile
  high : ℕ → Chroma → Profile

abbrev pub is_high : ℕ → Bool
is_high p = p == 100 || p == 110 || p == 122 || p == 144

-- The profiles for which the standard has the chroma fields, of which the code knows the first three.
abbrev pub has_chroma : ℕ → Bool
has_chroma p =
    p == 100
    || p == 110
    || p == 122
    || p == 244
    || p == 44
    || p == 83
    || p == 86
    || p == 118
    || p == 128
    || p == 138
    || p == 139
    || p == 134
    || p == 135

abbrev pub profile_idc : Profile → ℕ
profile_idc (plain p) = p
profile_idc (high p c) = p

abbrev pub profile_bits : Profile → List ℕ
profile_bits (plain p) = []
profile_bits (high p c) = chroma_bits c

-- The chroma fields are there by the standard and by the code, or by neither.
abbrev pub IsProfile : Profile → Type 0
IsProfile (plain p) = (p < 256) × (is_high p ≡ false) × (has_chroma p ≡ false)
IsProfile (high p c) = (p < 256) × (is_high p ≡ true) × IsChroma c × (has_chroma p ≡ true)

pub record Crop : Type 0 where
  pub left : ℕ
  pub right : ℕ
  pub top : ℕ
  pub bottom : ℕ

abbrev pub crop_bits : Crop → List ℕ
crop_bits c =
    ((exp_golomb (c.left) ++ exp_golomb (c.right)) ++ exp_golomb (c.top)) ++ exp_golomb (c.bottom)

abbrev pub IsCrop : Crop → Type 0
IsCrop c = IsCode (c.left) × IsCode (c.right) × IsCode (c.top) × IsCode (c.bottom)

-- Either `frame_mbs_only_flag`, or not with the flag `mb_adaptive_frame_field_flag`.
abbrev pub frame_bits : Option ℕ → List ℕ
frame_bits none = binary 1 1
frame_bits (some adaptive) = binary 1 0 ++ binary 1 adaptive
