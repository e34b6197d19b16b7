-- ===== src/Sps.antt =====
-- stream/sps.hpp: the bit reader, the removal of emulation prevention bytes, and the decoders
-- of the H.264 and H.265 sequence parameter sets.
-- `buf` is the memory that a `BYTE *` points to; `StartBit` is the state of the reader, and a
-- read out of the memory is `none`. `DWORD` has 64 bits. No size reaches 2 ^ 28, so that a bit
-- index, an `unsigned int`, leaves the memory before it wraps.
pub mod Bits
pub mod Golomb
pub mod Grammar
pub mod Emulation
pub mod Protect
pub mod Avc
pub mod Hevc
pub mod Choice
mod Tests
use inc.Prelude.{
  ℕ, zero, suc, ◌+◌, ◌-◌, ◌*◌, ◌/◌, ◌%◌, ◌^◌, List, [], ◌∷◌, ◌++◌, Bool, Option, none, some,
  bit_and, bit_xor, ltb, ◌==◌, if◌then◌else◌, get_elem?, length,
}
use inc.Prelude.Word.{u32, u64}
use inc.Prelude.Int.{ℤ, pos, neg_of}

-- A function that moves `StartBit`.
abbrev pub Reader : Type 0 → Type 0
Reader A = ℕ → Option (A × ℕ)

infixl 5 ◌>>=◌ ◌>>◌
abbrev pub ◌>>=◌ : {A B : Type 0} → Reader A → (A → Reader B) → Reader B
◌>>=◌ m f k = elim (m k) [ none ↦ none | some (a, k') ↦ f a k' ]

abbrev pub ◌>>◌ : {A B : Type 0} → Reader A → Reader B → Reader B
m >> n = m >>= λ _. n

abbrev pub pure : {A : Type 0} → A → Reader A
pure a k = some (a, k)

abbrev pub fault : {A : Type 0} → Reader A
fault k = none

module _ (buf : List ℕ) where
  -- `pBuff[nStartBit / 8] & (0x80 >> (nStartBit % 8))`, as 0 or 1; the bit index does not move.
  pub peek_bit : Reader ℕ
  peek_bit k = elim (get_elem? buf (k / 8)) [
    | none ↦ none
    | some b ↦ some (if bit_and b (0x80 / 2 ^ (k % 8)) == 0 then 0 else 1, k)
  ]

  pub next_bit : Reader ℕ
  next_bit k = elim (peek_bit k) [ none ↦ none | some (b, k') ↦ some (b, k' + 1) ]

  -- The loop of `u`, and the second loop of `Ue`: `dwRet` with the rounds that are left.
  pub bits_loop : ℕ → ℕ → Reader ℕ
  bits_loop zero ret k = some (ret, k)
  bits_loop (suc left) ret k = elim (next_bit k) [
    | none ↦ none
    | some (b, k') ↦ bits_loop left (u64 (ret * 2) + b) k'
  ]

  pub u : ℕ → Reader ℕ
  u n = bits_loop n 0

  -- The first loop of `Ue`, with `nLen * 8 - nStartBit` rounds left: the zeros counted.
  pub zeros : ℕ → ℕ → Reader ℕ
  zeros zero n k = some (n, k)
  zeros (suc left) n k = elim (peek_bit k) [
    | none ↦ none
    | some (b, _) ↦ elim b [ zero ↦ zeros left (n + 1) (k + 1) | suc _ ↦ some (n, k) ]
  ]

  -- `1 << nZeroNum` overflows an `int` from 31 zeros on.
  pub ue : ℕ → Reader ℕ
  ue len k = elim (zeros (len * 8 - k) 0 k) [
    | none ↦ none
    | some (n, k') ↦ elim (bits_loop n 0 (k' + 1)) [
      | none ↦ none
      | some (ret, k'') ↦ if ltb n 31 then some (u32 (2 ^ n - 1 + ret), k'') else none
    ]
  ]

  -- `ceil(k / 2)` of the code number, negative for an even one.
  pub se : ℕ → Reader ℤ
  se len k = elim (ue len k) [
    | none ↦ none
    | some (v, k') ↦ some (if v % 2 == 0 then neg_of ((v + 1) / 2) else pos ((v + 1) / 2), k')
  ]

-- `for (j = i + 2; j < tmp_buf_size - 1; j++) tmp_ptr[j] = tmp_ptr[j + 1]`, from `tmp_ptr + j`.
pub shift : ℕ → List ℕ → List ℕ
shift (suc left) (x ∷ y ∷ p) = y ∷ shift left (y ∷ p)
shift _ p = p

-- The outer loop, at `tmp_ptr + i` and with `tmp_buf_size - 2 - i` rounds left: the bytes from
-- there on and `*buf_size`.
pub kick : ℕ → List ℕ → ℕ → Option (List ℕ × ℕ)
kick zero p size = some (p, size)
kick (suc left) (a ∷ b ∷ c ∷ p) size =
    let found = bit_xor a 0 + bit_xor b 0 + bit_xor c 3 == 0 in
    let p' = if found then shift left (c ∷ p) else c ∷ p in
    let size' = if found then size - 1 else size in
    elim (kick left (b ∷ p') size') [ none ↦ none | some (q, n) ↦ some (a ∷ q, n) ]
kick (suc left) _ size = none

-- `tmp_buf_size - 2` is an unsigned difference.
pub de_emulation_prevention : List ℕ → ℕ → Option (List ℕ × ℕ)
de_emulation_prevention buf size = kick (u32 (size + 2 ^ 32 - 2)) buf size

-- The memory of a `std::string`: its bytes and the terminating zero.
abbrev pub c_str : List ℕ → List ℕ
c_str s = s ++ (0 ∷ [])

-- What a decoder leaves: its result, and the three variables that it is given to set.
pub record Info : Type 0 where
  pub ok : Bool
  pub width : ℕ
  pub height : ℕ
  pub fps : ℤ

-- `for (i = 0; i < n; i++) m`, where `m` only moves the reader.
pub repeat : {A : Type 0} → ℕ → Reader A → Reader (Unit {0})
repeat zero m k = some (tt, k)
repeat (suc n) m k = elim (m k) [ none ↦ none | some (_, k') ↦ repeat n m k' ]

-- `if (flag) m`.
abbrev pub when : {A : Type 0} → ℕ → Reader A → Reader (Unit {0})
when zero m = pure tt
when (suc _) m = m >> pure tt
