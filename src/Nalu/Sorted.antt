-- ===== src/Nalu/Sorted.antt =====
-- What `Sort` picks: the last unit of each kind.
use inc.Prelude.{
  ◌/◌, ◌≡◌, refl, ap, ◌∙◌, List, [], ◌∷◌, Bool, true, false, Option, none, some, arith, bit_and,
  ◌==◌, if◌then◌else◌,
}
use inc.Nalu.{NalUnit, no_unit, is_h264, Sets, sort_step, sort_loop, sets_list, sort}

-- The unit types by codec: H.264 if the flag is set, else H.265.
abbrev pub is_sps : Bool → NalUnit → Bool
is_sps true v = bit_and v.type 0x1f == 7
is_sps false v = bit_and v.type 0x7e / 2 == 33

abbrev pub is_pps : Bool → NalUnit → Bool
is_pps true v = bit_and v.type 0x1f == 8
is_pps false v = bit_and v.type 0x7e / 2 == 34

abbrev pub is_vps : Bool → NalUnit → Bool
is_vps true v = false
is_vps false v = bit_and v.type 0x7e / 2 == 32

abbrev pub or_else {ℓ} : {A : Type ℓ} → Option A → Option A → Option A
or_else (some a) d = some a
or_else none d = d

or_else-none {ℓ} : {A : Type ℓ} (o : Option A) → or_else o none ≡ o
or_else-none (some a) = refl
or_else-none none = refl

abbrev pub value_or : Option NalUnit → NalUnit → NalUnit
value_or (some a) d = a
value_or none d = d

-- The last unit that passes a test, searched from the back.
unfoldable pub find_last : (NalUnit → Bool) → List NalUnit → Option NalUnit
find_last test [] = none
find_last test (u ∷ us) = or_else (find_last test us) (if test u then some u else none)

abbrev stepped : Bool → Sets → NalUnit → Sets
stepped b r v = record {
  sps = if is_sps b v then v else r.sps;
  pps = if is_pps b v then v else r.pps;
  vps = if is_vps b v then some v else r.vps;
}

sort_step_lem : (b : Bool) (r : Sets) (v : NalUnit) → sort_step b r v ≡ stepped b r v
unfolding sort_step
sort_step_lem true r v = ground arith
sort_step_lem false r v = ground arith

abbrev picked : Bool → Sets → List NalUnit → Sets
picked b r us = record {
  sps = value_or (find_last (is_sps b) us) r.sps;
  pps = value_or (find_last (is_pps b) us) r.pps;
  vps = or_else (find_last (is_vps b) us) r.vps;
}

sort_loop_lem : (b : Bool) (r : Sets) (us : List NalUnit) → sort_loop b r us ≡ picked b r us
unfolding sort_loop find_last
sort_loop_lem b r [] = refl
sort_loop_lem b r (v ∷ vs) =
    ap (λ x. sort_loop b x vs) (sort_step_lem b r v) ∙ sort_loop_lem b (stepped b r v) vs ∙ later
  where
    value :
        (o : Option NalUnit) (t : Bool) (d : NalUnit)
        → value_or o (if t then v else d) ≡ value_or (or_else o (if t then some v else none)) d
    value o t d = ground arith

    other :
        (o : Option NalUnit) (t : Bool) (d : Option NalUnit)
        → or_else o (if t then some v else d) ≡ or_else (or_else o (if t then some v else none)) d
    other o t d = ground arith

    later : picked b (stepped b r v) vs ≡ picked b r (v ∷ vs)
    later = λ i. record {
      sps = value (find_last (is_sps b) vs) (is_sps b v) r.sps i;
      pps = value (find_last (is_pps b) vs) (is_pps b v) r.pps i;
      vps = other (find_last (is_vps b) vs) (is_vps b v) r.vps i;
    }

-- On a frame with at least one unit `Sort` takes the codec from the first unit, and returns the
-- last sequence set and the last picture set (a null unit where there is none), followed, for
-- H.265 only, by the last video set if there is one.
pub sort_lem :
    (u : NalUnit) (us : List NalUnit)
    → sort (u ∷ us)
      ≡ some (
          sets_list (record {
            sps = value_or (find_last (is_sps (is_h264 u.type)) (u ∷ us)) no_unit;
            pps = value_or (find_last (is_pps (is_h264 u.type)) (u ∷ us)) no_unit;
            vps = find_last (is_vps (is_h264 u.type)) (u ∷ us);
          }))
unfolding sort
sort_lem u us =
    let b = is_h264 u.type in
    let none_set : Sets = record { sps = no_unit; pps = no_unit; vps = none } in
    ap (λ r. some (sets_list r)) (sort_loop_lem b none_set (u ∷ us))
    ∙ ap
        (λ v. some (
          sets_list (record {
            sps = value_or (find_last (is_sps b) (u ∷ us)) no_unit;
            pps = value_or (find_last (is_pps b) (u ∷ us)) no_unit;
            vps = v;
          })))
        (or_else-none (find_last (is_vps b) (u ∷ us)))
