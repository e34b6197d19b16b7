-- ===== src/Mp4box/Track/Video.antt =====
-- What `MakeVideo` leaves of a track, and the length of its description and of the sample table.
use inc.Prelude.{
  ℕ, ◌+◌, ◌*◌, ◌≤◌, ◌≡◌, sym, ap, List, [], ◌++◌, Bool, true, false, some, >>=-eq-some, arith,
  length, length-append, get_elem?, ◌==◌, if◌then◌else◌, Bool-cases, inl, inr, take,
  length-take_all,
}
use mathlib.Core.Option.{some-injective}
use inc.Prelude.Word.{u16}
use inc.Prelude.Int.{pos}
use inc.Nalu.{NalUnit, sort}
use inc.Sps.Choice.{unit_decode_sps}
use inc.Mp4box.{le32type}
use inc.Mp4box.Entries.{zeros, Stsdv, stsdv_bytes, stsdv_marshal}
use inc.Mp4box.Config.Size.{avcc_marshal_size, hvcc_marshal_size}
use inc.Mp4box.Tables.{Table, table_bytes, stss_marshal, stco_marshal}
use inc.Mp4box.Boxes.{words}
use inc.Mp4box.Track.{Trak, make_video, configuration, table_of}
use inc.Mp4box.Track.Layout.{length-words}

configuration_size :
    (units : List NalUnit) {c : List ℕ × ℕ} → configuration units ≡ some c → length c.0 ≡ 256
unfolding configuration
configuration_size units e = elim (Bool-cases (length units == 2)) [
  | inl t ↦ avcc_marshal_size (zeros 256) units (rw (t, configuration) at e)
  | inr f ↦ hvcc_marshal_size (zeros 256) units (rw (f, configuration) at e)
]

length-description :
    (b : Stsdv) (n : ℕ) (c : List ℕ) → length (stsdv_bytes b ++ take n c) ≤ 102 + length c
length-description b n c = omega (arith, length-take_all n c)

-- The tables stay, and the description has 358 bytes at most.
pub make_video_lem :
    (t : Trak) (us : List NalUnit) {t' : Trak}
    → make_video t us ≡ some t'
    → (t'.offsets ≡ t.offsets) × (t'.sizes ≡ t.sizes) × (t'.keys ≡ t.keys) × (length t'.stsdv ≤ 358)
unfolding make_video
make_video_lem t us {t'} e =
    let (units, a, e1) = >>=-eq-some (sort us) _ e in
    let (sps, b, e2) = >>=-eq-some (get_elem? units 0) _ e1 in
    let (info, c, e3) = >>=-eq-some (unit_decode_sps sps t.box.width t.box.height (pos 0)) _ e2 in
    let (config, d, e4) = >>=-eq-some (configuration units) _ e3 in
    let same = sym (some-injective _ _ e4) in
    (
      ap (λ (q : Trak). q.offsets) same,
      ap (λ (q : Trak). q.sizes) same,
      ap (λ (q : Trak). q.keys) same,
      omega (
        arith,
        ap (λ (q : Trak). length q.stsdv) same,
        length-description
            (stsdv_marshal
              (if length units == 2 then le32type 97 118 99 49 else le32type 104 118 99 49)
              (u16 info.width) (u16 info.height) config.1)
            config.1 config.0,
        configuration_size units d,
      ),
    )

keys_length :
    (b : Bool) (t : Table) (ws : List ℕ)
    → length (if b then table_bytes t ++ words ws else []) ≤ 16 + length ws * 4
keys_length true t ws = omega (arith, length-words ws)
keys_length false t ws = omega arith

-- The sample table has five boxes of 104 bytes in all and a word for every entry.
pub length-table_of :
    (t : Trak) → length (table_of t) ≤ 104 + (length t.sizes + length t.offsets + length t.keys) * 4
unfolding table_of
length-table_of t =
    let marked : List ℕ =
      if t.id == 1 then table_bytes (stss_marshal (length t.keys)) ++ words t.keys else [] in
    omega (
      arith,
      length-append (words t.sizes)
          (table_bytes (stco_marshal (length t.sizes)) ++ (words t.offsets ++ marked)),
      length-append (words t.offsets) marked,
      length-words t.sizes,
      length-words t.offsets,
      keys_length (t.id == 1) (stss_marshal (length t.keys)) t.keys,
    )
