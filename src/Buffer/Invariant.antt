-- ===== src/Buffer/Invariant.antt =====
-- The capacity of a `Buffer` covers its bytes after every operation, and never shrinks.
use inc.Prelude.{
  ℕ, ◌-◌, ◌≤◌, ◌≡◌, List, [], ◌∷◌, Bool, Option, ◌>>=◌, some, arith, length, replicate,
  length-append, length-replicate, length-take_le, length-drop,
}
use inc.Prelude.Word.{u8}
use inc.Byte.Write.{le_bytes}
use inc.Buffer.{
  Buffer, bytes, reserve, resize, try_write, write, write_byte, write_value, write_buffer, try_read,
  read, reset, remove, realloc,
}

abbrev pub IsValid : Buffer → Type 0
IsValid b = length b.v ≤ b.cap

-- The operations that change a buffer.
pub data Op : Type 0 where
  do_write : Bool → List ℕ → Op
  do_write_byte : ℕ → Op
  do_write_value : ℕ → ℕ → Op
  do_write_buffer : Bool → Buffer → Op
  do_read : Bool → ℕ → Op
  do_reset : ℕ → Op
  do_remove : ℕ → Op
  do_realloc : ℕ → Bool → Op

-- One operation: the new buffer, and the bytes that it hands out.
unfoldable pub step : Op → Buffer → Option (Buffer × List ℕ)
step (do_write given p) b = do (b', n) ← write given b p; some (b', [])
step (do_write_byte x) b = do (b', n) ← write_byte b x; some (b', [])
step (do_write_value w x) b = do (b', n) ← write_value w b x; some (b', [])
step (do_write_buffer given src) b = do (b', n) ← write_buffer given b src; some (b', [])
step (do_read given n) b = do (out, b', k) ← read given b n; some (b', out)
step (do_reset off) b = some (reset b off, [])
step (do_remove n) b = some ((remove b n).0, [])
step (do_realloc n force) b = some (realloc b n force, [])

resize-IsValid :
    (b : Buffer) (n x : ℕ) → IsValid b → IsValid (resize b n x) × (b.cap ≤ (resize b n x).cap)
unfolding resize
resize-IsValid b n x h = ground (
  arith,
  length-take_le n b.v,
  length-append b.v (replicate (n - length b.v) x),
  length-replicate (n - length b.v) x,
)

reserve-IsValid :
    (b : Buffer) (n : ℕ) → IsValid b → IsValid (reserve b n) × (b.cap ≤ (reserve b n).cap)
unfolding reserve
reserve-IsValid b n h = ground arith

try_write-IsValid :
    (b : Buffer) (p : List ℕ)
    → IsValid b
    → IsValid (try_write b p).0 × (b.cap ≤ (try_write b p).0.cap)
unfolding try_write
try_write-IsValid b p h = ground (arith, length-append b.v p)

try_read-IsValid :
    (b : Buffer) (n : ℕ) → IsValid b → IsValid (try_read b n).1 × (b.cap ≤ (try_read b n).1.cap)
unfolding try_read
try_read-IsValid b n h = ground (arith, length-drop n b.v, length-drop (length b.v) b.v)

-- Whatever operation runs without failing its assertion, the capacity still covers the bytes
-- and is no smaller than before.
pub step-IsValid :
    (op : Op) (b b' : Buffer) (out : List ℕ)
    → step op b ≡ some (b', out)
    → IsValid b
    → IsValid b' × (b.cap ≤ b'.cap)
unfolding step write write_byte write_value write_buffer read
step-IsValid (do_write given p) b b' out e h = ground (arith, try_write-IsValid b p h)
step-IsValid (do_write_byte x) b b' out e h = ground (arith, try_write-IsValid b (u8 x ∷ []) h)
step-IsValid (do_write_value w x) b b' out e h =
    ground (arith, try_write-IsValid b (le_bytes w x) h)
step-IsValid (do_write_buffer given src) b b' out e h =
    ground (arith, try_write-IsValid b (bytes src) h)
step-IsValid (do_read given n) b b' out e h = ground (arith, try_read-IsValid b n h)
step-IsValid (do_reset off) b b' out e h = unfold reset in ground (arith, resize-IsValid b off 0 h)
step-IsValid (do_remove n) b b' out e h =
    unfold remove in ground (arith, length-drop n b.v, length-drop (length b.v) b.v)
step-IsValid (do_realloc n force) b b' out e h =
    unfold realloc in
    ground (
      arith,
      resize-IsValid b 0 0 h,
      reserve-IsValid b n h,
      resize-IsValid (reserve b n) 0 0 (reserve-IsValid b n h).0,
    )
