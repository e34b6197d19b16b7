-- ===== src/Byte.antt =====
-- byte.hpp: `libyte::Slice`, a cursor over a block of memory with the writers and readers of
-- unsigned integers in both byte orders.
-- The block that `data` points into is the list `mem`, `pos` is the cursor, and an access out of
-- the block, which C++ leaves undefined, is `none`. A writer returns the pointer behind what it
-- wrote as an index into the block.
pub mod Memory
pub mod Char
pub mod Write
pub mod Join32
pub mod Join64
pub mod Read
pub mod RoundTrip
pub mod Vars
mod Tests
use inc.Prelude.{
  ℕ, zero, suc, ◌+◌, ◌*◌, ◌/◌, ◌^◌, bit_and, bit_or, List, [], ◌∷◌, Option, none, some, ◌>>=◌,
  get_elem?,
}
use inc.Prelude.Word.{u8, u16, u32, u64, of_char}

pub record Slice : Type 0 where
  pub mem : List ℕ
  pub pos : ℕ

-- `dest[i] = b` in the block.
unfoldable pub store : List ℕ → ℕ → ℕ → Option (List ℕ)
store [] i b = none
store (x ∷ xs) zero b = some (b ∷ xs)
store (x ∷ xs) (suc i) b = do r ← store xs i b; some (x ∷ r)

-- The assignments `dest[0] = b0; dest[1] = b1; …` from index `i` on.
unfoldable pub store_all : List ℕ → ℕ → List ℕ → Option (List ℕ)
store_all mem i [] = some mem
store_all mem i (b ∷ bs) = do m ← store mem i b; store_all m (i + 1) bs

unfoldable pub make_slice : List ℕ → ℕ → Slice
make_slice mem off = record { mem = mem; pos = off }

unfoldable pub offset : Slice → ℕ → Slice
offset s off = record s { pos = off }

-- `(n >> k) & 0xff`
abbrev pub octet : ℕ → ℕ → ℕ
octet n k = bit_and (n / 2 ^ k) 0xff

-- The common shape of the writers: `width` bytes at the cursor, which then stands behind them.
pub put : Slice → ℕ → List ℕ → Option (Slice × ℕ)
put s width bs = do
  m ← store_all s.mem s.pos bs
  some (record { mem = m; pos = s.pos + width }, s.pos + width)

pub put_u8 : Slice → ℕ → Option (Slice × ℕ)
put_u8 s n = put s 1 (u8 n ∷ [])

pub put_le_u16 : Slice → ℕ → Option (Slice × ℕ)
put_le_u16 s n = put s 2 (octet n 0 ∷ octet n 8 ∷ [])

pub put_be_u16 : Slice → ℕ → Option (Slice × ℕ)
put_be_u16 s n = put s 2 (octet n 8 ∷ octet n 0 ∷ [])

pub put_le_u32 : Slice → ℕ → Option (Slice × ℕ)
put_le_u32 s n = put s 4 (octet n 0 ∷ octet n 8 ∷ octet n 16 ∷ octet n 24 ∷ [])

pub put_be_u32 : Slice → ℕ → Option (Slice × ℕ)
put_be_u32 s n = put s 4 (octet n 24 ∷ octet n 16 ∷ octet n 8 ∷ octet n 0 ∷ [])

pub put_le_u64 : Slice → ℕ → Option (Slice × ℕ)
put_le_u64 s n = put s 8 (
    octet n 0
    ∷ octet n 8
    ∷ octet n 16
    ∷ octet n 24
    ∷ octet n 32
    ∷ octet n 40
    ∷ octet n 48
    ∷ octet n 56
    ∷ [])

pub put_be_u64 : Slice → ℕ → Option (Slice × ℕ)
put_be_u64 s n = put s 8 (
    octet n 56
    ∷ octet n 48
    ∷ octet n 40
    ∷ octet n 32
    ∷ octet n 24
    ∷ octet n 16
    ∷ octet n 8
    ∷ octet n 0
    ∷ [])

-- `data[pos++]`, a `char`, as its byte.
pub next : Slice → Option (ℕ × Slice)
next s = do c ← get_elem? s.mem s.pos; some (c, record s { pos = s.pos + 1 })

-- `uW(data[pos++]) << k` of a char `c`, in W bits; for W = 16 the shift is done in `int`.
abbrev pub shl : (ℕ → ℕ) → ℕ → ℕ → ℕ → ℕ
shl cast w c k = cast (of_char w c * 2 ^ k)

pub get_u8 : Slice → Option (ℕ × Slice)
unfolding next
get_u8 s = do (c, s1) ← next s; some (of_char 8 c, s1)

pub get_le_u16 : Slice → Option (ℕ × Slice)
unfolding next
get_le_u16 s = do
  (c0, s1) ← next s
  let r = of_char 16 c0
  (c1, s2) ← next s1
  let r1 = u16 (bit_or r (of_char 16 c1 * 2 ^ 8))
  some (r1, s2)

pub get_be_u16 : Slice → Option (ℕ × Slice)
unfolding next
get_be_u16 s = do
  (c0, s1) ← next s
  let r = shl u16 16 c0 8
  (c1, s2) ← next s1
  let r1 = bit_or r (of_char 16 c1)
  some (r1, s2)

pub get_le_u32 : Slice → Option (ℕ × Slice)
unfolding next
get_le_u32 s = do
  (c0, s1) ← next s
  let r = of_char 32 c0
  (c1, s2) ← next s1
  let r1 = bit_or r (shl u32 32 c1 8)
  (c2, s3) ← next s2
  let r2 = bit_or r1 (shl u32 32 c2 16)
  (c3, s4) ← next s3
  let r3 = bit_or r2 (shl u32 32 c3 24)
  some (r3, s4)

pub get_be_u32 : Slice → Option (ℕ × Slice)
unfolding next
get_be_u32 s = do
  (c0, s1) ← next s
  let r = shl u32 32 c0 24
  (c1, s2) ← next s1
  let r1 = bit_or r (shl u32 32 c1 16)
  (c2, s3) ← next s2
  let r2 = bit_or r1 (shl u32 32 c2 8)
  (c3, s4) ← next s3
  let r3 = bit_or r2 (of_char 32 c3)
  some (r3, s4)

pub get_le_u64 : Slice → Option (ℕ × Slice)
unfolding next
get_le_u64 s = do
  (c0, s1) ← next s
  let r = of_char 64 c0
  (c1, s2) ← next s1
  let r1 = bit_or r (shl u64 64 c1 8)
  (c2, s3) ← next s2
  let r2 = bit_or r1 (shl u64 64 c2 16)
  (c3, s4) ← next s3
  let r3 = bit_or r2 (shl u64 64 c3 24)
  (c4, s5) ← next s4
  let r4 = bit_or r3 (shl u64 64 c4 32)
  (c5, s6) ← next s5
  let r5 = bit_or r4 (shl u64 64 c5 40)
  (c6, s7) ← next s6
  let r6 = bit_or r5 (shl u64 64 c6 48)
  (c7, s8) ← next s7
  let r7 = bit_or r6 (shl u64 64 c7 56)
  some (r7, s8)

pub get_be_u64 : Slice → Option (ℕ × Slice)
unfolding next
get_be_u64 s = do
  (c0, s1) ← next s
  let r = shl u64 64 c0 56
  (c1, s2) ← next s1
  let r1 = bit_or r (shl u64 64 c1 48)
  (c2, s3) ← next s2
  let r2 = bit_or r1 (shl u64 64 c2 40)
  (c3, s4) ← next s3
  let r3 = bit_or r2 (shl u64 64 c3 32)
  (c4, s5) ← next s4
  let r4 = bit_or r3 (shl u64 64 c4 24)
  (c5, s6) ← next s5
  let r5 = bit_or r4 (shl u64 64 c5 16)
  (c6, s7) ← next s6
  let r6 = bit_or r5 (shl u64 64 c6 8)
  (c7, s8) ← next s7
  let r7 = bit_or r6 (of_char 64 c7)
  some (r7, s8)
