-- ===== src/Mp4box/Config/Size.antt =====
-- The configuration records are written inside their buffer, whose size stays.
use inc.Prelude.{
  ℕ, ◌≡◌, sym, ap, ◌∙◌, List, some, >>=-eq-some, arith, length, get_elem?, leb, Bool-cases, inl,
  inr, take,
}
use mathlib.Core.Option.{some-injective}
use inc.Byte.{store_all}
use inc.Byte.Memory.{length-store_all}
use inc.Nalu.{NalUnit}
use inc.Mp4box.Config.{
  Cursor, emit, copy, byte_or_zero, avcc_units, avcc_marshal, hvcc_unit, hvcc_marshal, sizeof_hvcc,
}

emit_size : (c : Cursor) (bs : List ℕ) {d : Cursor} → emit c bs ≡ some d → length d.0 ≡ length c.0
unfolding emit
emit_size (buf, i) bs e =
    let (m, stored, rest) = >>=-eq-some (store_all buf i bs) _ e in
    ap (λ o. length o.0) (sym (some-injective _ _ rest)) ∙ length-store_all bs buf i stored

copy_size : (c : Cursor) (v : NalUnit) {d : Cursor} → copy c v ≡ some d → length d.0 ≡ length c.0
unfolding copy
copy_size c v e = elim (Bool-cases (leb v.size (length v.bytes))) [
  | inl fits ↦ emit_size c (take v.size v.bytes) (rw (fits, copy) at e)
  | inr out ↦ absurd (ground arith)
]

avcc_units_size :
    (c : Cursor) (sps pps : NalUnit) {d : Cursor}
    → avcc_units c sps pps ≡ some d
    → length d.0 ≡ length c.0
unfolding avcc_units
avcc_units_size c sps pps e =
    let (c1, a, e1) = >>=-eq-some (emit c _) _ e in
    let (c2, b, e2) = >>=-eq-some (copy c1 sps) _ e1 in
    let (c3, d, e3) = >>=-eq-some (emit c2 _) _ e2 in
    copy_size c3 pps e3 ∙ emit_size c2 _ d ∙ copy_size c1 sps b ∙ emit_size c _ a

pub avcc_marshal_size :
    (buf : List ℕ) (units : List NalUnit) {c : Cursor}
    → avcc_marshal buf units ≡ some c
    → length c.0 ≡ length buf
unfolding avcc_marshal
avcc_marshal_size buf units e =
    let (sps, a, e1) = >>=-eq-some (get_elem? units 0) _ e in
    let (pps, b, e2) = >>=-eq-some (get_elem? units 1) _ e1 in
    let (p1, c, e3) = >>=-eq-some (byte_or_zero sps 1) _ e2 in
    let (p2, d, e4) = >>=-eq-some (byte_or_zero sps 2) _ e3 in
    let (p3, f, e5) = >>=-eq-some (byte_or_zero sps 3) _ e4 in
    let (m, g, e6) = >>=-eq-some (store_all buf 4 _) _ e5 in
    let (k, h, e7) = >>=-eq-some (avcc_units (m, 13) sps pps) _ e6 in
    let (r, i, e8) = >>=-eq-some (store_all k.0 0 _) _ e7 in
    ap (λ o. length o.0) (sym (some-injective _ _ e8))
    ∙ length-store_all _ k.0 0 i
    ∙ avcc_units_size (m, 13) sps pps h
    ∙ length-store_all _ buf 4 g

hvcc_unit_size :
    (c : Cursor) (type : ℕ) (v : NalUnit) {d : Cursor}
    → hvcc_unit c type v ≡ some d
    → length d.0 ≡ length c.0
unfolding hvcc_unit
hvcc_unit_size c type v e =
    let (c1, a, e1) = >>=-eq-some (emit c _) _ e in copy_size c1 v e1 ∙ emit_size c _ a

pub hvcc_marshal_size :
    (buf : List ℕ) (units : List NalUnit) {c : Cursor}
    → hvcc_marshal buf units ≡ some c
    → length c.0 ≡ length buf
unfolding hvcc_marshal
hvcc_marshal_size buf units e =
    let (sps, a, e1) = >>=-eq-some (get_elem? units 0) _ e in
    let (pps, b, e2) = >>=-eq-some (get_elem? units 1) _ e1 in
    let (vps, c, e3) = >>=-eq-some (get_elem? units 2) _ e2 in
    let (m, d, e4) = >>=-eq-some (store_all buf 4 _) _ e3 in
    let (m', f, e5) = >>=-eq-some (store_all m 29 _) _ e4 in
    let (c1, g, e6) = >>=-eq-some (hvcc_unit (m', sizeof_hvcc) 32 vps) _ e5 in
    let (c2, h, e7) = >>=-eq-some (hvcc_unit c1 33 sps) _ e6 in
    let (c3, i, e8) = >>=-eq-some (hvcc_unit c2 34 pps) _ e7 in
    let (r, j, e9) = >>=-eq-some (store_all c3.0 0 _) _ e8 in
    ap (λ o. length o.0) (sym (some-injective _ _ e9))
    ∙ length-store_all _ c3.0 0 j
    ∙ hvcc_unit_size c2 34 pps i
    ∙ hvcc_unit_size c1 33 sps h
    ∙ hvcc_unit_size (m', sizeof_hvcc) 32 vps g
    ∙ length-store_all _ m 29 f
    ∙ length-store_all _ buf 4 d
