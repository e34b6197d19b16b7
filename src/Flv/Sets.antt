-- ===== src/Flv/Sets.antt =====
-- The parameter sets of an H.265 stream.
use inc.Prelude.{
  ◌≡◌, refl, ap, ◌∙◌, List, [], ◌∷◌, Bool, false, replicate, Option, none, some, ◌>>=◌,
}
use inc.Nalu.{NalUnit, is_h264, no_unit, sort, sets_list}
use inc.Nalu.Sorted.{sort_lem, find_last, is_vps, is_sps, is_pps, value_or}
use inc.Flv.{Packet, hevc_sets, continue_sets, store_sets, marshal_sets, profile_bytes, advance}
use inc.Mp4box.Config.{Cursor, emit}

bind_none :
    {A B : Type 0} (m : Option A) (f : A → Option B) → ((a : A) → f a ≡ none) → (m >>= f) ≡ none
bind_none none f h = refl
bind_none (some a) f h = h a

hevc_sets-none : (c : Cursor) (a b v : NalUnit) → hevc_sets c (a ∷ b ∷ v ∷ []) ≡ none
unfolding hevc_sets
hevc_sets-none c a b v = bind_none (emit c (0x1C ∷ [])) _ (λ c1.
    bind_none (profile_bytes a) _ (λ profile.
      bind_none (emit (advance c1 5) profile) _
        (λ c2. bind_none (emit (advance c2 9) (0x03 ∷ [])) _ (λ c3. refl))))

-- `Sort` returns three units.
three_sets :
    (u : NalUnit) (us : List NalUnit) (v : NalUnit)
    → is_h264 u.type ≡ false
    → find_last (is_vps false) (u ∷ us) ≡ some v
    → (a : NalUnit) × (b : NalUnit) × (sort (u ∷ us) ≡ some (a ∷ b ∷ v ∷ []))
three_sets u us v e has =
    let a : NalUnit = value_or (find_last (is_sps (is_h264 u.type)) (u ∷ us)) no_unit in
    let b : NalUnit = value_or (find_last (is_pps (is_h264 u.type)) (u ∷ us)) no_unit in
    (
      a,
      b,
      sort_lem u us
          ∙ ap (λ (o : Option NalUnit). some (sets_list (record { sps = a; pps = b; vps = o })))
              (ap (λ (h : Bool). find_last (is_vps h) (u ∷ us)) e ∙ has),
    )

-- On the units of an H.265 stream with a video parameter set `Marshal` reads a unit that is not
-- there: the fourth of the three that `Sort` returns.
pub marshal_sets-none :
    (p : Packet) (u : NalUnit) (us : List NalUnit) (v : NalUnit)
    → is_h264 u.type ≡ false
    → find_last (is_vps false) (u ∷ us) ≡ some v
    → marshal_sets p (u ∷ us) ≡ none
unfolding marshal_sets continue_sets
marshal_sets-none p u us v e has =
    let (a, b, three) = three_sets u us v e has in
    ap (λ m. m >>= continue_sets p) three
    ∙ ap (λ m. m >>= store_sets p false) (hevc_sets-none (replicate 512 0, 0) a b v)
