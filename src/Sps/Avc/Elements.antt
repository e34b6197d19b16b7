-- ===== src/Sps/Avc/Elements.antt =====
-- The readers of `avc::decode_sps` on the parts of a set.
use inc.Prelude.{
  ℕ, ◌*◌, ◌/◌, ◌^◌, ◌<◌, ◌≡◌, List, [], ◌∷◌, ◌++◌, false, Option, none, some, arith, ◌==◌,
  if◌then◌else◌, Bool-cases, inl, inr, length, All,
}
use inc.Prelude.Word.{IsByte}
use inc.Prelude.Int.{ℤ, pos}
use inc.Sps.{Reader, ◌>>=◌, ◌>>◌, pure, u, ue, se, repeat, when}
use inc.Sps.Bits.{binary}
use inc.Sps.Grammar.{Gives, seq, done, pure-Gives, code_number, u-Gives, ue-Gives, se-Gives}
use inc.Sps.Avc.{
  chroma_fields, cycle_fields, pic_order_fields, timing_fields, aspect_fields, video_signal_fields,
  vui_fields, frame_rate,
}
use inc.Sps.Avc.Fields.{
  IsCode, optional, Holds, Chroma, chroma_format_bits, chroma_bits, IsChroma, PicOrder, offset_bits,
  pic_order_bits, IsPicOrder, Aspect, aspect_bits, IsAspect, Signal, colour_bits, signal_bits,
  IsSignal, Vui, loc_bits, timing_bits, vui_bits, IsTiming, IsVui, Profile, is_high, profile_idc,
  profile_bits, IsProfile, Crop, crop_bits, IsCrop, frame_bits, by_lsb, by_cycle, by_decoding,
  ratio, extended, plain, high,
}

frame_rate-small :
    (units scale : ℕ)
    → 0 < units
    → units < 2 ^ 30
    → scale < 2 ^ 30
    → frame_rate units scale ≡ some (pos (scale / (2 * units)))
unfolding frame_rate
frame_rate-small units scale h0 h1 h2 = ground arith

-- Frames a second from the timing, rounded down; 0 without one.
abbrev pub rate_of : Option (ℕ × ℕ) → ℕ
rate_of none = 0
rate_of (some t) = t.1 / (2 * t.0)

abbrev pub vui_rate : Option Vui → ℕ
vui_rate none = 0
vui_rate (some v) = rate_of (v.timing)

module _ (buf : List ℕ) (len : ℕ) (h : All IsByte buf) where
  abbrev Reads : {A : Type 0} → Reader A → List ℕ → A → Type 0
  Reads m bs a = Gives buf len h m bs a

  pub bit : (x : ℕ) → x < 2 → Reads (u buf 1) (binary 1 x) x
  bit x hx = u-Gives 1 x (omega arith) hx

  aspect_gives : (a : Aspect) → IsAspect a → Reads (aspect_fields buf len) (aspect_bits a) tt
  unfolding aspect_fields
  aspect_gives (ratio idc) ok =
      let no : (idc == 255) ≡ false = ground arith in
      seq _ _ _ (u-Gives 8 idc (omega arith) (omega arith)) (rw no (pure-Gives tt))
  aspect_gives (extended w x) ok =
      seq _ _ _ (u-Gives 8 255 (omega arith) (omega arith))
        (done _ (seq _ _ _ (u-Gives 16 w (omega arith) (ok.0)) (u-Gives 16 x (omega arith) (ok.1))))

  pub byte : (x : ℕ) → x < 256 → Reads (u buf 8) (binary 8 x) x
  byte x hx = u-Gives 8 x (omega arith) hx

  -- A field that a flag announces, and what follows.
  pub group :
      {A B C : Type 0} (m : Reader B) (f : A → List ℕ) (value : A → B) (P : A → Type 0)
      (rest : Reader C) (ys : List ℕ) (c : C) (o : Option A)
      → ((a : A) → P a → Reads m (f a) (value a))
      → Holds P o
      → Reads rest ys c
      → Reads (u buf 1 >>= λ flag. when flag m >>= λ _. rest) (optional f o ++ ys) c
  group m f value P rest ys c none given ok later =
      seq _ _ _ (bit 0 (omega arith)) (seq (λ _. rest) [] _ (pure-Gives tt) later)
  group m f value P rest ys c (some a) given ok later =
      seq _ _ _ (bit 1 (omega arith)) (seq _ _ _ (done _ (given a ok)) later)

  -- The same at the end.
  last_group :
      {A B : Type 0} (m : Reader B) (f : A → List ℕ) (value : A → B) (P : A → Type 0) (o : Option A)
      → ((a : A) → P a → Reads m (f a) (value a))
      → Holds P o
      → Reads (u buf 1 >>= λ flag. when flag m) (optional f o) tt
  last_group m f value P none given ok = seq _ _ _ (bit 0 (omega arith)) (pure-Gives tt)
  last_group m f value P (some a) given ok = seq _ _ _ (bit 1 (omega arith)) (done _ (given a ok))

  colour_gives :
      (c : ℕ × (ℕ × ℕ))
      → (c.0 < 256) × (c.1.0 < 256) × (c.1.1 < 256)
      → Reads (u buf 8 >> u buf 8 >> u buf 8) (colour_bits c) (c.1.1)
  colour_gives (p, (t, m)) (hp, ht, hm) = seq _ _ _ (seq _ _ _ (byte p hp) (byte t ht)) (byte m hm)

  signal_gives : (s : Signal) → IsSignal s → Reads (video_signal_fields buf len) (signal_bits s) tt
  unfolding video_signal_fields
  signal_gives s (hf, hr, hc) =
      seq _ _ _ (u-Gives 3 (s.format) (omega arith) hf)
        (seq _ _ _ (bit (s.full_range) hr) (last_group _ _ _ _ (s.colour) colour_gives hc))

  timing_gives :
      (t : ℕ × ℕ)
      → IsTiming t
      → Reads (timing_fields buf len) (timing_bits t) (pos (t.1 / (2 * t.0)))
  unfolding timing_fields
  timing_gives t (h0, h1, h2) =
      let rate : frame_rate (t.0) (t.1) ≡ some (pos (t.1 / (2 * t.0))) =
        frame_rate-small (t.0) (t.1) h0 h1 h2 in
      seq _ _ _ (u-Gives 32 (t.0) (omega arith) (omega arith))
        (seq _ _ _ (u-Gives 32 (t.1) (omega arith) (omega arith)) (rw rate (pure-Gives _)))

  loc_gives :
      (l : ℕ × ℕ)
      → IsCode (l.0) × IsCode (l.1)
      → Reads (ue buf len >> ue buf len) (loc_bits l) (l.1)
  loc_gives l (h0, h1) = seq _ _ _ (ue-Gives (l.0) h0) (ue-Gives (l.1) h1)

  -- The rate of a set's timing, 0 without one.
  timing_end :
      (o : Option (ℕ × ℕ))
      → Holds IsTiming o
      → Reads
          (u buf 1 >>= λ flag. if flag == 0 then pure (pos 0) else timing_fields buf len)
          (optional timing_bits o)
          (pos (rate_of o))
  timing_end none ok = seq _ _ _ (bit 0 (omega arith)) (pure-Gives _)
  timing_end (some t) ok = seq _ _ _ (bit 1 (omega arith)) (timing_gives t ok)

  vui_gives :
      (v : Vui) → IsVui v → Reads (vui_fields buf len) (vui_bits v) (pos (rate_of (v.timing)))
  unfolding vui_fields
  vui_gives v (ha, ho, hs, hl, ht) = group _ _ _ _ _ _ _ (v.aspect) aspect_gives ha (
      group _ _ _ _ _ _ _ (v.overscan) bit ho (
        group _ _ _ _ _ _ _ (v.signal) signal_gives hs
          (group _ _ _ _ _ _ _ (v.chroma_loc) loc_gives hl (timing_end (v.timing) ht))))

  pub crop_gives :
      (c : Crop)
      → IsCrop c
      → Reads (ue buf len >> ue buf len >> ue buf len >> ue buf len) (crop_bits c) (c.bottom)
  crop_gives c (hl, hr, ht, hb) =
      seq _ _ _
        (seq _ _ _ (seq _ _ _ (ue-Gives (c.left) hl) (ue-Gives (c.right) hr)) (ue-Gives (c.top) ht))
        (ue-Gives (c.bottom) hb)

  -- The two forms of the frame flags, and what follows.
  pub interlaced :
      {C : Type 0} {rest : Reader C} {ys : List ℕ} {c : C} (o : Option ℕ)
      → Holds (λ f. f < 2) o
      → Reads rest ys c
      → Reads
          (u buf 1 >>= λ flag. when (if flag == 0 then 1 else 0) (u buf 1) >>= λ _. rest)
          (frame_bits o ++ ys)
          c
  interlaced {C} {rest} none ok later =
      seq _ _ _ (bit 1 (omega arith)) (seq (λ _. rest) [] _ (pure-Gives tt) later)
  interlaced {C} {rest} (some adaptive) ok later =
      seq _ _ _ (bit 0 (omega arith)) (seq (λ _. rest) _ _ (done _ (bit adaptive ok)) later)

  pub vui_end :
      (o : Option Vui)
      → Holds IsVui o
      → Reads
          (u buf 1 >>= λ flag. if flag == 0 then pure (pos 0) else vui_fields buf len)
          (optional vui_bits o)
          (pos (vui_rate o))
  vui_end none ok = seq _ _ _ (bit 0 (omega arith)) (pure-Gives _)
  vui_end (some v) ok = seq _ _ _ (bit 1 (omega arith)) (vui_gives v ok)

  offsets_give :
      (zs : List ℤ)
      → All (λ z. IsCode (code_number z)) zs
      → Reads (repeat (length zs) (se buf len)) (offset_bits zs) tt
  unfolding repeat
  offsets_give [] ok = pure-Gives tt
  offsets_give (z ∷ zs) (hz, hzs) =
      seq (λ _. repeat (length zs) (se buf len)) _ _ (se-Gives z hz) (offsets_give zs hzs)

  pub order_gives :
      (o : PicOrder) → IsPicOrder o → Reads (pic_order_fields buf len) (pic_order_bits o) tt
  unfolding pic_order_fields cycle_fields
  order_gives (by_lsb v) ok = seq _ _ _ (ue-Gives 0 (omega arith)) (done _ (ue-Gives v ok))
  order_gives (by_cycle a x y zs) (ha, hx, hy, hn, hzs) = seq _ _ _ (ue-Gives 1 (omega arith)) (
      seq _ _ _ (bit a ha) (
        seq _ _ _ (se-Gives x hx)
          (seq _ _ _ (se-Gives y hy) (seq _ _ _ (ue-Gives (length zs) hn) (offsets_give zs hzs)))))
  order_gives by_decoding ok = seq _ _ [] (ue-Gives 2 (omega arith)) (pure-Gives tt)

  transform :
      (format x : ℕ)
      → x < 2
      → Reads (when (if format == 3 then 1 else 0) (u buf 1)) (chroma_format_bits format x) tt
  transform format x hx = elim (Bool-cases (format == 3)) [
    | inl e ↦ rw e (done _ (bit x hx))
    | inr e ↦ rw e (pure-Gives tt)
  ]

  chroma_gives : (c : Chroma) → IsChroma c → Reads (chroma_fields buf len) (chroma_bits c) tt
  unfolding chroma_fields
  chroma_gives c (hf, ht, hl, hc, hb) = seq _ _ _ (ue-Gives (c.format) (omega arith)) (
      seq _ _ _ (transform (c.format) (c.colour_transform) ht) (
        seq _ _ _ (ue-Gives (c.luma_depth) hl) (
          seq _ _ _ (ue-Gives (c.chroma_depth) hc)
            (seq _ _ _ (bit (c.bypass) hb) (seq _ _ _ (bit 0 (omega arith)) (pure-Gives tt))))))

  pub profile_gives :
      (p : Profile)
      → IsProfile p
      → Reads
          (when (if is_high (profile_idc p) then 1 else 0) (chroma_fields buf len))
          (profile_bits p)
          tt
  profile_gives (plain p) (hp, e, _) = rw e (pure-Gives tt)
  profile_gives (high p c) (hp, e, hc, _) = rw e (done _ (chroma_gives c hc))
