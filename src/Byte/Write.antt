-- ===== src/Byte/Write.antt =====
-- What the writers of `Slice` leave in memory.
use inc.Prelude.{
  ℕ, zero, suc, ◌+◌, ◌/◌, ◌%◌, ◌^◌, ◌≤◌, ◌≡◌, ap, ◌∙◌, List, [], ◌∷◌, ◌++◌, Option, some, arith,
  length, take, drop, ◌>>=◌, append_assoc, sym, refl,
}
use inc.Prelude.Bits.{and_mask}
use inc.Byte.{
  Slice, octet, store_all, put, put_u8, put_le_u16, put_be_u16, put_le_u32, put_be_u32, put_le_u64,
  put_be_u64,
}
use inc.Byte.Memory.{store_all_lem, store_all-append}

-- The `w` low bytes of `n`, the low end first and the big end first.
abbrev pub le_bytes : ℕ → ℕ → List ℕ
le_bytes zero n = []
le_bytes (suc w) n = n % 256 ∷ le_bytes w (n / 256)

abbrev pub be_bytes : ℕ → ℕ → List ℕ
be_bytes zero n = []
be_bytes (suc w) n = be_bytes w (n / 256) ++ (n % 256 ∷ [])

-- The slice after `bs` was written at its cursor, with the pointer that is returned.
abbrev pub written : Slice → List ℕ → Slice × ℕ
written s bs = (
  record {
    mem = take s.pos s.mem ++ (bs ++ drop (length bs) (drop s.pos s.mem));
    pos = s.pos + length bs;
  },
  s.pos + length bs,
)

pub put_lem :
    (s : Slice) (bs : List ℕ)
    → s.pos + length bs ≤ length s.mem
    → put s (length bs) bs ≡ some (written s bs)
unfolding put
put_lem s bs h = rw (store_all_lem s.mem bs s.pos h)

octet_lem : (n k : ℕ) → octet n k ≡ n / 2 ^ k % 256
octet_lem n k = and_mask 8 (n / 2 ^ k)

-- The writers by byte order and width.
pub data Endian : Type 0 where
  le be : Endian

pub data Width : Type 0 where
  w8 w16 w32 w64 : Width

abbrev pub size : Width → ℕ
size w8 = 1
size w16 = 2
size w32 = 4
size w64 = 8

abbrev pub bytes : Endian → ℕ → ℕ → List ℕ
bytes le w n = le_bytes w n
bytes be w n = be_bytes w n

abbrev pub writer : Endian → Width → Slice → ℕ → Option (Slice × ℕ)
writer le w8 = put_u8
writer be w8 = put_u8
writer le w16 = put_le_u16
writer le w32 = put_le_u32
writer le w64 = put_le_u64
writer be w16 = put_be_u16
writer be w32 = put_be_u32
writer be w64 = put_be_u64

written_as :
    (s : Slice) (bs cs : List ℕ)
    → bs ≡ cs
    → s.pos + length cs ≤ length s.mem
    → put s (length cs) bs ≡ some (written s cs)
written_as s bs cs e h = ap (put s (length cs)) e ∙ put_lem s cs h

-- Every writer, called with room for its width, puts the bytes of the number in its order at the
-- cursor, leaves the rest of the block, moves the cursor behind them and returns that place.
pub put-written :
    (o : Endian) (w : Width) (s : Slice) (n : ℕ)
    → s.pos + size w ≤ length s.mem
    → writer o w s n ≡ some (written s (bytes o (size w) n))
put-written le w8 s n h = unfold put_u8 in put_lem s (n % 256 ∷ []) h
put-written be w8 s n h = unfold put_u8 in put_lem s (n % 256 ∷ []) h
put-written le w16 s n h =
    unfold put_le_u16 in
    written_as s _ (bytes le 2 n) (ground (arith, octet_lem n 0, octet_lem n 8)) h
put-written le w32 s n h =
    unfold put_le_u32 in
    written_as s _ (bytes le 4 n)
      (ground (arith, octet_lem n 0, octet_lem n 8, octet_lem n 16, octet_lem n 24)) h
put-written le w64 s n h =
    unfold put_le_u64 in
    written_as s _ (bytes le 8 n)
      (ground (
        arith,
        octet_lem n 0,
        octet_lem n 8,
        octet_lem n 16,
        octet_lem n 24,
        octet_lem n 32,
        octet_lem n 40,
        octet_lem n 48,
        octet_lem n 56,
      ))
      h
put-written be w16 s n h =
    unfold put_be_u16 in
    written_as s _ (bytes be 2 n) (ground (arith, octet_lem n 0, octet_lem n 8)) h
put-written be w32 s n h =
    unfold put_be_u32 in
    written_as s _ (bytes be 4 n)
      (ground (arith, octet_lem n 0, octet_lem n 8, octet_lem n 16, octet_lem n 24)) h
put-written be w64 s n h =
    unfold put_be_u64 in
    written_as s _ (bytes be 8 n)
      (ground (
        arith,
        octet_lem n 0,
        octet_lem n 8,
        octet_lem n 16,
        octet_lem n 24,
        octet_lem n 32,
        octet_lem n 40,
        octet_lem n 48,
        octet_lem n 56,
      ))
      h

-- Two writers over bytes that are there.
pub put_u8-append :
    (w r : List ℕ) (x n i : ℕ)
    → i ≡ length w
    → put_u8 (record { mem = w ++ (x ∷ r); pos = i }) n
      ≡ some (record { mem = (w ++ (n % 256 ∷ [])) ++ r; pos = i + 1 }, i + 1)
unfolding put_u8 put
put_u8-append w r x n i e =
    ap (λ m. m >>= λ m'. some (record { mem = m'; pos = i + 1 }, i + 1))
      (store_all-append (n % 256 ∷ []) (x ∷ []) w r i e refl
        ∙ ap (λ m. some m) (sym (append_assoc w (n % 256 ∷ []) r)))

pub put_le_u32-append :
    (w r old : List ℕ) (n i : ℕ)
    → i ≡ length w
    → length old ≡ 4
    → put_le_u32 (record { mem = w ++ (old ++ r); pos = i }) n
      ≡ some (record { mem = w ++ (bytes le 4 n ++ r); pos = i + 4 }, i + 4)
unfolding put_le_u32 put
put_le_u32-append w r old n i e four =
    let same : (octet n 0 ∷ octet n 8 ∷ octet n 16 ∷ octet n 24 ∷ []) ≡ bytes le 4 n =
      ground (arith, octet_lem n 0, octet_lem n 8, octet_lem n 16, octet_lem n 24) in
    ap (λ m. m >>= λ m'. some (record { mem = m'; pos = i + 4 }, i + 4))
      (ap (λ bs. store_all (w ++ (old ++ r)) i bs) same
        ∙ store_all-append (bytes le 4 n) old w r i e four)
