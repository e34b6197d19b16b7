-- ===== src/Mp4box/Config/Avcc.antt =====
-- The configuration that `AvccMarshal` writes.
use inc.Prelude.{
  ℕ, ◌+◌, ◌*◌, ◌/◌, ◌%◌, ◌^◌, ◌≤◌, ◌<◌, ◌≡◌, refl, sym, ap, ap₂, ◌∙◌, List, [], ◌∷◌, ◌++◌, Option,
  some, ◌>>=◌, arith, bit_and, get_or, get_elem?-get_or, length, ltb, leb, true, take, drop,
  append_assoc, length-append, take-append-drop, length-take_le, length-drop,
}
use inc.Prelude.Bits.{and_mask}
use inc.Prelude.Word.{u32}
use inc.Byte.{store_all}
use inc.Byte.Memory.{store_all-append, store_all_lem}
use inc.Nalu.{NalUnit}
use inc.Mp4box.{htobe32, le32type, le32}
use inc.Mp4box.Endian.{be32, le32-htobe32}
use inc.Mp4box.Config.{Cursor, emit, copy, byte_or_zero, avcc_units, avcc_marshal}

abbrev pub be16 : ℕ → List ℕ
be16 n = n / 256 % 256 ∷ n % 256 ∷ []

-- The parts of the record behind its size: the type and the version with the profile, the array
-- of sequence sets and the array of picture sets.
abbrev pub avcc_head : NalUnit → List ℕ
avcc_head sps =
    97
    ∷ 118
    ∷ 99
    ∷ 67
    ∷ 1
    ∷ get_or (sps.bytes) 1 0
    ∷ get_or (sps.bytes) 2 0
    ∷ get_or (sps.bytes) 3 0
    ∷ 0xFF
    ∷ []

abbrev pub unit_bytes : NalUnit → List ℕ
unit_bytes v = take (v.size) (v.bytes)

abbrev pub avcc_tail : NalUnit → NalUnit → List ℕ
avcc_tail sps pps =
    (((0xE1 ∷ be16 (sps.size)) ++ unit_bytes sps) ++ (1 ∷ be16 (pps.size))) ++ unit_bytes pps

abbrev pub avcc_length : NalUnit → NalUnit → ℕ
avcc_length sps pps = 19 + (sps.size + pps.size)

emit_lem :
    (w r bs : List ℕ) (i : ℕ)
    → i ≡ length w
    → length bs ≤ length r
    → emit (w ++ r, i) bs ≡ some ((w ++ bs) ++ drop (length bs) r, i + length bs)
unfolding emit
emit_lem w r bs i e room =
    let stored : store_all (w ++ r) i bs ≡ some ((w ++ bs) ++ drop (length bs) r) =
      ap (λ m. store_all (w ++ m) i bs) (sym (take-append-drop (length bs) r))
      ∙ store_all-append bs (take (length bs) r) w (drop (length bs) r) i e
          (length-take_le (length bs) r room)
      ∙ ap (λ m. some m) (sym (append_assoc w bs (drop (length bs) r))) in
    rw stored refl

copy_lem :
    (w r : List ℕ) (v : NalUnit) (i : ℕ)
    → i ≡ length w
    → v.size ≤ length (v.bytes)
    → v.size ≤ length r
    → copy (w ++ r, i) v ≡ some ((w ++ unit_bytes v) ++ drop (v.size) r, i + v.size)
unfolding copy
copy_lem w r v i e whole room =
    let fits : leb (v.size) (length (v.bytes)) ≡ true = ground arith in
    let size : length (unit_bytes v) ≡ v.size = length-take_le (v.size) (v.bytes) whole in
    rw fits (
      emit_lem w r (unit_bytes v) i e (omega (arith, size))
      ∙ ap (λ (n : ℕ). some ((w ++ unit_bytes v) ++ drop n r, i + n)) size)

low_byte : (n : ℕ) → n < 256 → bit_and n 0xff ≡ n % 256
low_byte n h = and_mask 8 n

high_byte : (n : ℕ) → n < 256 → bit_and (n * 2 ^ 8) 0xff ≡ n / 256 % 256
high_byte n h = and_mask 8 (n * 2 ^ 8) ∙ omega arith

-- A step of a chain that is known to succeed.
chain :
    {A B : Type 0} {m : Option A} (f : A → Option B) {a : A} {z : Option B}
    → m ≡ some a
    → f a ≡ z
    → (m >>= f) ≡ z
chain f e h = ap (λ x. x >>= f) e ∙ h

array_head :
    (b n : ℕ)
    → n < 256
    → Path (List ℕ) (b ∷ bit_and (n * 2 ^ 8) 0xff ∷ bit_and n 0xff ∷ []) (b ∷ be16 n)
array_head b n h = ap₂ (λ x y. b ∷ x ∷ y ∷ []) (high_byte n h) (low_byte n h)

head_lem :
    (w r : List ℕ) (v : NalUnit) (b i : ℕ)
    → i ≡ length w
    → v.size < 256
    → 3 ≤ length r
    → emit (w ++ r, i) (b ∷ bit_and (v.size * 2 ^ 8) 0xff ∷ bit_and (v.size) 0xff ∷ [])
      ≡ some ((w ++ (b ∷ be16 (v.size))) ++ drop 3 r, i + 3)
head_lem w r v b i e small room =
    ap (emit (w ++ r, i)) (array_head b (v.size) small)
    ∙ emit_lem w r (b ∷ be16 (v.size)) i e (omega arith)

-- One array: its head, then the unit, and what follows.
array_lem :
    (w r : List ℕ) (v : NalUnit) (b i : ℕ) (f : Cursor → Option Cursor) (z : Option Cursor)
    → i ≡ length w
    → v.size ≤ length (v.bytes)
    → v.size < 256
    → 3 + v.size ≤ length r
    → f (((w ++ (b ∷ be16 (v.size))) ++ unit_bytes v) ++ drop (v.size) (drop 3 r), i + 3 + v.size)
      ≡ z
    → (emit (w ++ r, i) (b ∷ bit_and (v.size * 2 ^ 8) 0xff ∷ bit_and (v.size) 0xff ∷ []) >>= λ c.
        copy c v >>= f)
      ≡ z
array_lem w r v b i f z e whole small room later =
    chain (λ c. copy c v >>= f) (head_lem w r v b i e small (omega arith))
      (chain f
        (copy_lem (w ++ (b ∷ be16 (v.size))) (drop 3 r) v (i + 3)
          (omega (arith, length-append w (b ∷ be16 (v.size)))) whole
          (omega (arith, length-drop 3 r)))
        later)

array_length :
    (w : List ℕ) (v : NalUnit) (b i : ℕ)
    → i ≡ length w
    → v.size ≤ length (v.bytes)
    → i + 3 + v.size ≡ length ((w ++ (b ∷ be16 (v.size))) ++ unit_bytes v)
array_length w v b i e whole = omega (
  arith,
  length-append (w ++ (b ∷ be16 (v.size))) (unit_bytes v),
  length-append w (b ∷ be16 (v.size)),
  length-take_le (v.size) (v.bytes) whole,
)

units_lem :
    (w r : List ℕ) (sps pps : NalUnit) (i : ℕ)
    → i ≡ length w
    → sps.size ≤ length (sps.bytes)
    → pps.size ≤ length (pps.bytes)
    → sps.size < 256
    → pps.size < 256
    → 6 + (sps.size + pps.size) ≤ length r
    → avcc_units (w ++ r, i) sps pps
      ≡ some (
        ((((w ++ (0xE1 ∷ be16 (sps.size))) ++ unit_bytes sps) ++ (1 ∷ be16 (pps.size)))
              ++ unit_bytes pps)
            ++ drop (pps.size) (drop 3 (drop (sps.size) (drop 3 r))),
        i + 3 + sps.size + 3 + pps.size,
      )
unfolding avcc_units
units_lem w r sps pps i e hs hp ss ps room =
    let w' : List ℕ = (w ++ (0xE1 ∷ be16 (sps.size))) ++ unit_bytes sps in
    let r' : List ℕ = drop (sps.size) (drop 3 r) in
    let left : 3 + pps.size ≤ length r' =
      omega (arith, length-drop (sps.size) (drop 3 r), length-drop 3 r) in
    let e' : i + 3 + sps.size ≡ length w' = array_length w sps 0xE1 i e hs in
    array_lem w r sps 0xE1 i _ _ e hs ss (omega arith) (
      chain (λ c. copy c pps) (head_lem w' r' pps 1 (i + 3 + sps.size) e' ps (omega arith))
        (copy_lem (w' ++ (1 ∷ be16 (pps.size))) (drop 3 r') pps (i + 3 + sps.size + 3)
          (omega (arith, e', length-append w' (1 ∷ be16 (pps.size)))) hp
          (omega (arith, length-drop 3 r'))))

head_byte :
    (v : NalUnit) (k : ℕ)
    → v.size ≤ length (v.bytes)
    → k < v.size
    → byte_or_zero v k ≡ some (get_or (v.bytes) k 0)
unfolding byte_or_zero
head_byte v k whole h =
    let inside : ltb k (v.size) ≡ true = ground arith in
    rw inside (get_elem?-get_or (v.bytes) k 0 (omega arith))

type_bytes : le32 (le32type 97 118 99 67) ≡ 97 ∷ 118 ∷ 99 ∷ 67 ∷ []
unfolding le32type
type_bytes = refl

regroup4 : (x c d e f : List ℕ) → (((x ++ c) ++ d) ++ e) ++ f ≡ x ++ (((c ++ d) ++ e) ++ f)
regroup4 x c d e f =
    ap (λ y. y ++ f) (ap (λ y. y ++ e) (append_assoc x c d) ∙ append_assoc x (c ++ d) e)
    ∙ append_assoc x ((c ++ d) ++ e) f

abbrev with_index : ℕ → List ℕ → Option Cursor
with_index i m = some (m, i)

-- The size at last, over the four bytes in front.
size_lem :
    (old head tail rest : List ℕ) (i n : ℕ)
    → length old ≡ 4
    → n < 2 ^ 32
    → i ≡ n
    → (store_all (((old ++ head) ++ tail) ++ rest) 0 (le32 (htobe32 (u32 i))) >>= with_index i)
      ≡ some (be32 n ++ (head ++ (tail ++ rest)), n)
size_lem old head tail rest i n e small same =
    let parts : ((old ++ head) ++ tail) ++ rest ≡ old ++ (head ++ (tail ++ rest)) =
      append_assoc (old ++ head) tail rest ∙ append_assoc old head (tail ++ rest) in
    let bytes : le32 (htobe32 (u32 i)) ≡ be32 n = le32-htobe32 (u32 i) ∙ ap be32 (omega arith) in
    chain (with_index i)
      (ap₂ (λ m bs. store_all m 0 bs) parts bytes
        ∙ store_all-append (be32 n) old [] (head ++ (tail ++ rest)) 0 refl e)
      (ap (λ (k : ℕ). some (be32 n ++ (head ++ (tail ++ rest)), k)) same)

-- With a buffer that has room for the record, and two units whose bytes are in memory, of which
-- the first has four bytes or more and neither has 256, the record, with its length in front, the profile from the first unit and each
-- unit behind its length, stands at the beginning of the buffer, and its length is returned.
pub avcc_marshal_lem :
    (buf : List ℕ) (sps pps : NalUnit) (others : List NalUnit)
    → 4 ≤ sps.size
    → sps.size ≤ length (sps.bytes)
    → pps.size ≤ length (pps.bytes)
    → sps.size < 256
    → pps.size < 256
    → avcc_length sps pps ≤ length buf
    → (rest : List ℕ) × (avcc_marshal buf (sps ∷ pps ∷ others)
        ≡ some (
          be32 (avcc_length sps pps) ++ (avcc_head sps ++ (avcc_tail sps pps ++ rest)),
          avcc_length sps pps,
        ))
unfolding avcc_marshal
avcc_marshal_lem buf sps pps others h4 hs hp ss ps room =
    let old : List ℕ = take 4 buf in
    let r : List ℕ = drop 9 (drop 4 buf) in
    let four : length old ≡ 4 = length-take_le 4 buf (omega arith) in
    let front : store_all buf 4 (
          le32 (le32type 97 118 99 67)
          ++ (1
              ∷ get_or (sps.bytes) 1 0
              ∷ get_or (sps.bytes) 2 0
              ∷ get_or (sps.bytes) 3 0
              ∷ 0xFF
              ∷ []))
        ≡ some ((old ++ avcc_head sps) ++ r) =
      ap
        (λ (bs : List ℕ). store_all buf 4 (
          bs
          ++ (1
              ∷ get_or (sps.bytes) 1 0
              ∷ get_or (sps.bytes) 2 0
              ∷ get_or (sps.bytes) 3 0
              ∷ 0xFF
              ∷ [])))
        type_bytes
      ∙ (store_all_lem buf (avcc_head sps) 4 (omega arith)
          ∙ ap (λ m. some m) (sym (append_assoc old (avcc_head sps) r))) in
    let room' : 6 + (sps.size + pps.size) ≤ length r =
      omega (arith, length-drop 9 (drop 4 buf), length-drop 4 buf) in
    let rest : List ℕ = drop (pps.size) (drop 3 (drop (sps.size) (drop 3 r))) in
    let units =
      units_lem (old ++ avcc_head sps) r sps pps 13
        (omega (arith, four, length-append old (avcc_head sps))) hs hp ss ps room' in
    let joined =
      regroup4 (old ++ avcc_head sps) (0xE1 ∷ be16 (sps.size)) (unit_bytes sps)
        (1 ∷ be16 (pps.size)) (unit_bytes pps) in
    (
      rest,
      chain _ (head_byte sps 1 hs (omega arith)) (
          chain _ (head_byte sps 2 hs (omega arith)) (
            chain _ (head_byte sps 3 hs (omega arith)) (
              chain _ front (
                chain _
                  (units
                    ∙ ap (λ (m : List ℕ). some (m ++ rest, 13 + 3 + sps.size + 3 + pps.size))
                        joined)
                  (size_lem old (avcc_head sps) (avcc_tail sps pps) rest
                    (13 + 3 + sps.size + 3 + pps.size) (avcc_length sps pps) four (omega arith)
                    (omega arith)))))),
    )
