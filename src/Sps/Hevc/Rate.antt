-- ===== src/Sps/Hevc/Rate.antt =====
-- The frame rate that `hevc::decode_sps` leaves.
use inc.Prelude.{
  ℕ, ◌≤◌, ◌≡◌, inl, inr, refl, sym, ap, ◌∙◌, List, Bool, true, false, not, Option, none, some,
  arith, ltb, ◌==◌, if◌then◌else◌, length, Option-cases,
}
use mathlib.Core.Path.{subst}
use inc.Prelude.Int.{ℤ, pos}
use inc.Sps.{Reader, ◌>>=◌, ◌>>◌, repeat, pure, u, ue, Info, when, de_emulation_prevention, c_str}
use inc.Sps.Hevc.{
  frame_rate, vui_timing, vui_fields, vui_aspect, vui_signal, depth_fields, size_fields, id_fields,
  decode_bits, decode_sps, coding_fields, profile_tier_level,
}

-- What every result of a reader has.
record Yields {A : Type 0} (P : A → Type 0) (m : Reader A) : Type 0 where
  yields : (k k' : ℕ) (a : A) → m k ≡ some (a, k') → P a

bind_of :
    {A B : Type 0} (Q : A → Type 0) (P : B → Type 0) (m : Reader A) (f : A → Reader B)
    → Yields Q m
    → ((a : A) → Q a → Yields P (f a))
    → (k k' : ℕ) (b : B) → (m >>= f) k ≡ some (b, k')
    → P b
bind_of Q P m f first later k k' b e = elim (Option-cases (m k)) [
  | inl e1 ↦ absurd (ground (arith, e, e1))
  | inr ((a, k1), e1) ↦
      (later a (first.yields k k1 a e1)).yields k1 k' b
        (sym (ap (λ r. elim r [ none ↦ none | some (a, j) ↦ f a j ]) e1) ∙ e)
]

behind_of :
    {A B : Type 0} (Q : A → Type 0) (P : B → Type 0) (m : Reader A) (f : A → Reader B)
    → Yields Q m
    → ((a : A) → Q a → Yields P (f a))
    → Yields P (m >>= f)
behind_of Q P m f first later = record { yields = bind_of Q P m f first later }

behind :
    {A B : Type 0} (P : B → Type 0) (m : Reader A) (f : A → Reader B)
    → ((a : A) → Yields P (f a))
    → Yields P (m >>= f)
behind P m f later =
    behind_of (λ _. Unit {0}) P m f (record { yields = λ k k' a e. tt }) (λ a h. later a)

Yields-pure : {A : Type 0} (P : A → Type 0) (a : A) → P a → Yields P (pure a)
Yields-pure P a h = record {
  yields = λ k k' b e. subst P (ap (λ o. elim o [ none ↦ a | some p ↦ p.0 ]) e) h;
}

abbrev InRange : ℕ → Type 0
InRange fps = (1 ≤ fps) × (fps ≤ 1000)

frame_rate-InRange : (units scale fps : ℕ) → InRange fps → InRange (frame_rate units scale fps)
unfolding frame_rate
frame_rate-InRange units scale fps h = ground arith

-- A result that says it is right has a rate in the range.
abbrev IsSane : Info → Type 0
IsSane i = i.ok ≡ true → (fps : ℕ) × ((i.fps ≡ pos fps) × InRange fps)

refused :
    (width height : ℕ) (fps : ℤ)
    → IsSane (record { ok = false; width = width; height = height; fps = fps })
refused width height fps e = absurd (ground (arith, e))

choice :
    {A : Type 0} (b : Bool) (P : A → Type 0) (m n : Reader A)
    → Yields P m
    → Yields P n
    → Yields P (if b then m else n)
choice true P m n hm hn = hm
choice false P m n hm hn = hn

module _ (buf : List ℕ) (len : ℕ) where
  timing_yields : (fps : ℕ) → InRange fps → Yields InRange (vui_timing buf len fps)
  unfolding vui_timing
  timing_yields fps h = behind InRange (u buf 32) _ (λ units. behind InRange (u buf 32) _ (λ scale.
      Yields-pure InRange (frame_rate units scale fps) (frame_rate-InRange units scale fps h)))

  vui_yields : (fps : ℕ) → InRange fps → Yields InRange (vui_fields buf len fps)
  unfolding vui_fields
  vui_yields fps h = behind InRange (u buf 1) _ (λ aspect.
      behind InRange (when aspect (vui_aspect buf len)) _ (λ a.
        behind InRange (u buf 1) _ (λ overscan. behind InRange (when overscan (u buf 1)) _ (λ o.
          behind InRange (u buf 1) _ (λ signal.
            behind InRange (when signal (vui_signal buf len)) _ (λ s.
              behind InRange (u buf 1) _ (λ loc.
                behind InRange (when loc (ue buf len >> ue buf len)) _ (λ l.
                  behind InRange (u buf 1) _ (λ x. behind InRange (u buf 1) _ (λ y.
                    behind InRange (u buf 1) _ (λ z. behind InRange (u buf 1) _ (λ window.
                      behind InRange (when window (repeat 4 (ue buf len))) _ (λ w.
                        behind InRange (u buf 1) _ (λ timing.
                          choice (timing == 0) InRange _ _ (Yields-pure InRange fps h)
                            (timing_yields fps h)))))))))))))))

  sane :
      (width height fps : ℕ)
      → InRange fps
      → IsSane (record { ok = true; width = width; height = height; fps = pos fps })
  sane width height fps h e = (fps, (refl, h))

  rate_yields : (flag : ℕ) → Yields InRange (if flag == 0 then pure 25 else vui_fields buf len 25)
  rate_yields flag =
      choice (flag == 0) InRange _ _ (Yields-pure InRange 25 (omega arith, omega arith))
        (vui_yields 25 (omega arith, omega arith))

  depth_yields : (sub width height : ℕ) → Yields IsSane (depth_fields buf len sub width height)
  unfolding depth_fields
  depth_yields sub width height = behind IsSane (ue buf len) _ (λ luma.
      behind IsSane (ue buf len) _ (λ chroma.
        choice (not (luma == chroma)) IsSane _ _
          (Yields-pure IsSane _ (refused width height (pos 25)))
          (behind IsSane (coding_fields buf len sub) _ (λ coding. behind IsSane (u buf 1) _ (λ flag.
            behind_of InRange IsSane (if flag == 0 then pure 25 else vui_fields buf len 25) _
              (rate_yields flag) (λ fps h. Yields-pure IsSane _ (sane width height fps h)))))))

  size_yields : (sub format width height : ℕ) → Yields IsSane (size_fields buf len sub format)
  unfolding size_fields
  size_yields sub format w h = behind IsSane (when (if format == 3 then 1 else 0) (u buf 1)) _ (λ x.
      behind IsSane (ue buf len) _ (λ width. behind IsSane (ue buf len) _ (λ height.
        behind IsSane (u buf 1) _ (λ window.
          behind IsSane (when window (repeat 4 (ue buf len))) _
            (λ y. depth_yields sub width height)))))

  id_yields : (sub width height : ℕ) → Yields IsSane (id_fields buf len sub width height)
  unfolding id_fields
  id_yields sub width height = behind IsSane (ue buf len) _ (λ id.
      choice (ltb 15 id) IsSane _ _ (Yields-pure IsSane _ (refused width height (pos 0))) (
        behind IsSane (ue buf len) _ (λ format.
          choice (ltb 3 id) IsSane _ _ (Yields-pure IsSane _ (refused width height (pos 0)))
            (size_yields sub format width height))))

  bits_yield : (width height : ℕ) → Yields IsSane (decode_bits buf len width height)
  unfolding decode_bits
  bits_yield width height = behind IsSane (u buf 4) _ (λ vps. behind IsSane (u buf 3) _ (λ sub.
      choice (ltb 6 sub) IsSane _ _ (Yields-pure IsSane _ (refused width height (pos 0))) (
        behind IsSane (u buf 1) _ (λ x.
          behind IsSane (profile_tier_level buf len sub) _ (λ y. id_yields sub width height)))))

-- The part of the decoder behind the removal of the emulation prevention.
finish : Option (List ℕ × ℕ) → ℕ → ℕ → Option Info
finish r width height = elim r [
  | none ↦ none
  | some (buf, len) ↦ elim (decode_bits buf len width height 0) [
    | none ↦ none
    | some (info, _) ↦ some info
  ]
]

finish-IsSane :
    (r : Option (List ℕ × ℕ)) (width height : ℕ) (i : Info)
    → finish r width height ≡ some i
    → IsSane i
unfolding finish
finish-IsSane none width height i e = absurd (ground (arith, e))
finish-IsSane (some (buf, len)) width height i e =
    elim (Option-cases (decode_bits buf len width height 0)) [
      | inl e1 ↦ absurd (ground (arith, e, e1))
      | inr ((info, k'), e1) ↦
          subst IsSane
            (ap (λ o. elim o [ none ↦ info | some x ↦ x ])
              (sym (ap (λ r. elim r [ none ↦ none | some (x, _) ↦ some x ]) e1) ∙ e))
            ((bits_yield buf len width height).yields 0 k' info e1)
    ]

short_or_finish :
    (b : Bool) (x i : Info) (r : Option Info)
    → IsSane x
    → (r ≡ some i → IsSane i)
    → (if b then some x else r) ≡ some i
    → IsSane i
short_or_finish true x i r hx hr e = subst IsSane (ap (λ o. elim o [ none ↦ x | some y ↦ y ]) e) hx
short_or_finish false x i r hx hr e = hr e

-- Whatever bytes it is given, a set that the decoder accepts is given a frame rate from 1 to 1000.
pub decode_sps-InRange :
    (s : List ℕ) (width height : ℕ) (fps : ℤ) (i : Info)
    → decode_sps s width height fps ≡ some i
    → i.ok ≡ true
    → (rate : ℕ) × ((i.fps ≡ pos rate) × InRange rate)
unfolding decode_sps finish
decode_sps-InRange s width height fps i e =
    short_or_finish (ltb (length s) 20) _ i
      (finish (de_emulation_prevention (c_str s) (length s)) width height)
      (refused width height fps)
      (finish-IsSane (de_emulation_prevention (c_str s) (length s)) width height i) e
