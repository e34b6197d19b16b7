-- ===== src/Buffer.antt =====
-- buffer.hpp: `libyte::Buffer`, a growing byte buffer that is written at the end and read at the
-- front. `v` holds the bytes of the vector `v_` and `cap` is its capacity. A failed `assert` is
-- `none`. The mutex only makes each operation one step. `reserve` and the growth of `resize`
-- are those of libstdc++, and no sum of sizes reaches 2 ^ 64.
pub mod Invariant
pub mod Stream
mod Tests
use inc.Prelude.{
  ℕ, zero, suc, ◌+◌, ◌-◌, ◌*◌, List, [], ◌∷◌, ◌++◌, Bool, true, false, ◌&&◌, ◌||◌, Option, none,
  some, length, take, drop, replicate, ltb, leb, if◌then◌else◌,
}
use Prim.Native.Nat.{max}
use inc.Prelude.Word.{u8}
use inc.Byte.Write.{le_bytes}

pub record Buffer : Type 0 where
  pub cap : ℕ
  pub v : List ℕ

-- `std::vector::reserve` and `std::vector::resize`, the new elements being `x`.
unfoldable pub reserve : Buffer → ℕ → Buffer
reserve b n = if ltb b.cap n then record b { cap = n } else b

unfoldable pub resize : Buffer → ℕ → ℕ → Buffer
resize b n x =
    let size = length b.v in
    if leb n size then record b { v = take n b.v } else record {
      cap = if leb n b.cap then b.cap else size + max size (n - size);
      v = b.v ++ replicate (n - size) x;
    }

unfoldable pub make : Buffer
make = record { cap = 0; v = [] }

pub make_sized : ℕ → Buffer
unfolding reserve
make_sized n = reserve make n

unfoldable pub empty : Buffer → Bool
empty b = leb (length b.v) 0

pub cap : Buffer → ℕ
cap b = b.cap

pub len : Buffer → ℕ
len b = length b.v

unfoldable pub bytes : Buffer → List ℕ
bytes b = b.v

-- `insert` at the end does not reallocate: the capacity has been seen to.
unfoldable pub try_write : Buffer → List ℕ → Buffer × ℕ
unfolding reserve
try_write b p =
    let n = length p in
    let b' = if ltb b.cap (length b.v + n) then reserve b (b.cap + 2 * n) else b in
    (record b' { v = b'.v ++ p }, n)

-- `Write(p, n)`; `given` is `NULL != p`, and `p` holds the `n` bytes. A null pointer fails the
-- assertion when `n` is 0, and bytes are copied from it, which is undefined, when `n` is more.
pub write : Bool → Buffer → List ℕ → Option (Buffer × ℕ)
write given b p = if given then some (try_write b p) else none

pub write_byte : Buffer → ℕ → Option (Buffer × ℕ)
write_byte b x = write true b (u8 x ∷ [])

-- `Write(T b)` for an unsigned integer of `w` bytes, which lies in memory low end first.
pub write_value : ℕ → Buffer → ℕ → Option (Buffer × ℕ)
write_value w b x = write true b (le_bytes w x)

-- The pointer of an empty vector may be null, so an empty source may fail the assertion; `given`
-- says whether it is not.
pub write_buffer : Bool → Buffer → Buffer → Option (Buffer × ℕ)
write_buffer given b src = write given b (bytes src)

-- What is copied to `p`, the new buffer and the count; `memcpy` and `erase`.
pub try_read : Buffer → ℕ → List ℕ × Buffer × ℕ
try_read b n =
    let k = if ltb (length b.v) n then length b.v else n in
    if ltb 0 k then (take k b.v, record b { v = drop k b.v }, k) else ([], b, k)

pub read : Bool → Buffer → ℕ → Option (List ℕ × Buffer × ℕ)
read given b n = if given && ltb 0 n then some (try_read b n) else none

unfoldable pub reset : Buffer → ℕ → Buffer
reset b off = resize b off 0

unfoldable pub remove : Buffer → ℕ → Buffer × ℕ
remove b n =
    let k = if ltb (length b.v) n then length b.v else n in (record b { v = drop k b.v }, k)

pub realloc : Buffer → ℕ → Bool → Buffer
realloc b n force = resize (if force || ltb b.cap n then reserve b n else b) 0 0
