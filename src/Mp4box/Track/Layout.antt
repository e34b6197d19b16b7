-- ===== src/Mp4box/Track/Layout.antt =====
-- The boxes that `Trak::Marshal` leaves and the sizes that they give.
use inc.Prelude.{
  ℕ, ◌+◌, ◌*◌, ◌^◌, ◌<◌, ◌≡◌, refl, sym, ap, ◌∙◌, List, [], ◌∷◌, ◌++◌, Bool, true, false, ◌==◌,
  arith, length, if◌then◌else◌, append-nil, length-append, Bool-cases, inl, inr, All, take,
}
use inc.Prelude.Word.{u32}
use inc.Mp4box.{htobe32, le32, le32type}
use inc.Mp4box.Endian.{be32, le32-htobe32}
use inc.Mp4box.Tables.{
  stts_bytes, stts_marshal, table_bytes, stss_marshal, stco_marshal, stsz_marshal, stsz_bytes,
  stsc_bytes, stsc_marshal,
}
use inc.Mp4box.Boxes.{
  TrakBox, trak_marshal, trak_bytes, tkhd_bytes, mdhd_bytes, hdlr_bytes, vmhd_bytes, dinf_bytes,
  sizeof_minf, sizeof_stbl, header, words,
}
use inc.Mp4box.Track.{Trak, table_of, marshal, rdur}

-- A box begins with its own length, the highest byte first.
abbrev pub IsBox : List ℕ → Type 0
IsBox bs = take 4 bs ≡ be32 (length bs)

abbrev pub join : List (List ℕ) → List ℕ
join [] = []
join (b ∷ bs) = b ++ join bs

-- The boxes of the sample table.
abbrev pub table_boxes : Trak → List (List ℕ)
table_boxes t =
    let count = length (t.sizes) in
    stts_bytes (stts_marshal (t.stts) count (rdur t))
    ∷ stsc_bytes stsc_marshal
    ∷ (stsz_bytes (stsz_marshal count) ++ words (t.sizes))
    ∷ (table_bytes (stco_marshal count) ++ words (t.offsets))
    ∷ (if t.id == 1
        then (table_bytes (stss_marshal (length (t.keys))) ++ words (t.keys)) ∷ []
        else [])

pub length-words : (ws : List ℕ) → length (words ws) ≡ length ws * 4
length-words [] = refl
length-words (w ∷ ws) = omega (arith, length-words ws)

pub sized : (n m : ℕ) → n < 2 ^ 32 → n ≡ m → le32 (htobe32 (u32 n)) ≡ be32 m
sized n m small e = le32-htobe32 (u32 n) ∙ ap be32 (omega arith)

stsz-IsBox :
    (ws : List ℕ)
    → length ws * 4 + 20 < 2 ^ 32
    → IsBox (stsz_bytes (stsz_marshal (length ws)) ++ words ws)
unfolding stsz_marshal
stsz-IsBox ws h = sized (20 + length ws * 4) _ (omega arith) (omega (arith, length-words ws))

stco-IsBox :
    (ws : List ℕ) (n : ℕ)
    → n ≡ length ws
    → length ws * 4 + 20 < 2 ^ 32
    → IsBox (table_bytes (stco_marshal n) ++ words ws)
unfolding stco_marshal
stco-IsBox ws n e h = sized (16 + n * 4) _ (omega arith) (omega (arith, length-words ws))

stss-IsBox :
    (ws : List ℕ)
    → length ws * 4 + 20 < 2 ^ 32
    → IsBox (table_bytes (stss_marshal (length ws)) ++ words ws)
unfolding stss_marshal
stss-IsBox ws h = sized (16 + length ws * 4) _ (omega arith) (omega (arith, length-words ws))

keys_boxes :
    (b : Bool) (ws : List ℕ)
    → length ws * 4 + 20 < 2 ^ 32
    → All IsBox (if b then (table_bytes (stss_marshal (length ws)) ++ words ws) ∷ [] else [])
keys_boxes true ws h = (stss-IsBox ws h, tt)
keys_boxes false ws h = tt

keys_join : (b : Bool) (bs : List ℕ) → (if b then bs else []) ≡ join (if b then bs ∷ [] else [])
keys_join true bs = sym (append-nil bs)
keys_join false bs = refl

-- The table up to its last box.
abbrev front : Trak → List ℕ → List ℕ
front t rest =
    let count = length (t.sizes) in
    stts_bytes (stts_marshal (t.stts) count (rdur t))
    ++ (stsc_bytes stsc_marshal
        ++ (stsz_bytes (stsz_marshal count)
            ++ (words (t.sizes)
                ++ (table_bytes (stco_marshal count) ++ (words (t.offsets) ++ rest)))))

-- Every box of the sample table begins with its own length, where the track has as many offsets
-- as sizes and the tables stay below 2 ^ 32 bytes.
pub table_of-IsBox :
    (t : Trak)
    → length (t.offsets) ≡ length (t.sizes)
    → length (t.sizes) * 4 + 20 < 2 ^ 32
    → length (t.keys) * 4 + 20 < 2 ^ 32
    → (table_of t ≡ join (table_boxes t)) × All IsBox (table_boxes t)
unfolding table_of stts_marshal stsc_marshal
table_of-IsBox t e hs hk = (
  ap (front t)
      (keys_join (t.id == 1) (table_bytes (stss_marshal (length (t.keys))) ++ words (t.keys))),
  (
    le32-htobe32 24,
    (
      le32-htobe32 28,
      (
        stsz-IsBox (t.sizes) hs,
        (
          stco-IsBox (t.offsets) (length (t.sizes)) (sym e) (omega arith),
          keys_boxes (t.id == 1) (t.keys) hk,
        ),
      ),
    ),
  ),
)

length-hdlr_bytes : (id : ℕ) → length (hdlr_bytes id) ≡ 48
unfolding hdlr_bytes
length-hdlr_bytes id = elim (Bool-cases (id == 1)) [
  | inl e ↦ rw (e, hdlr_bytes) refl
  | inr e ↦ rw (e, hdlr_bytes) refl
]

length-trak_bytes : (t : TrakBox) (id n : ℕ) → length (trak_bytes t id n) ≡ 260
unfolding trak_bytes tkhd_bytes mdhd_bytes vmhd_bytes dinf_bytes
length-trak_bytes t id n =
    let back : List ℕ =
      header sizeof_minf n (le32type 109 105 110 102)
      ++ (vmhd_bytes id ++ (dinf_bytes ++ header sizeof_stbl n (le32type 115 116 98 108))) in
    omega (arith, length-append (hdlr_bytes id) back, length-hdlr_bytes id)

whole_length :
    (t : TrakBox) (id n : ℕ) (rest : List ℕ)
    → length rest ≡ n
    → 260 + n ≡ length (trak_bytes t id n ++ rest)
whole_length t id n rest e =
    omega (arith, length-append (trak_bytes t id n) rest, length-trak_bytes t id n)

whole-IsBox :
    (t : TrakBox) (id n : ℕ) (rest : List ℕ)
    → length rest ≡ n
    → n < 2 ^ 31
    → IsBox (trak_bytes t id n ++ rest)
unfolding trak_bytes
whole-IsBox t id n rest e small = sized (260 + n) _ (omega arith) (whole_length t id n rest e)

-- The box that `Marshal` leaves begins with its own length, and that length is what it returns,
-- where the descriptions and the table stay below 2 ^ 31 bytes.
pub marshal-IsBox :
    (t : Trak)
    → length (t.stsdv) + length (table_of t) < 2 ^ 31
    → IsBox ((marshal t).0.stsdv) × ((marshal t).1.0 ≡ length ((marshal t).0.stsdv))
unfolding marshal
marshal-IsBox t h =
    let size : length (t.stsdv ++ table_of t) ≡ u32 (length (t.stsdv) + length (table_of t)) =
      omega (arith, length-append (t.stsdv) (table_of t)) in
    (
      whole-IsBox _ (t.id) _ (t.stsdv ++ table_of t) size (omega arith),
      omega (
        arith,
        whole_length
            (trak_marshal
              (record (t.box) { duration = htobe32 (rdur t); media_duration = htobe32 (rdur t) }))
            (t.id) _ (t.stsdv ++ table_of t) size,
      ),
    )
