-- ===== src/Buffer/Stream.antt =====
-- A `Buffer` is a stream: what goes in comes out at the front, in order and once.
use inc.Prelude.{
  ℕ, ◌≡◌, refl, sym, ap, ◌∙◌, List, [], ◌∷◌, ◌++◌, true, Option, some, ◌>>=◌, arith, length, All,
  drop, drop_all, take-append-drop, append_assoc, append-nil, ltb, ◌&&◌,
}
use inc.Prelude.Word.{u8}
use inc.Byte.Write.{le_bytes}
use inc.Buffer.{
  Buffer, bytes, reset, remove, try_write, write, write_byte, write_value, write_buffer, try_read,
  read,
}
use inc.Buffer.Invariant.{
  Op, step, do_write, do_write_byte, do_write_value, do_write_buffer, do_read, do_reset, do_remove,
  do_realloc,
}

-- The operations in order; the bytes that they hand out, joined.
unfoldable pub run : List Op → Buffer → Option (Buffer × List ℕ)
run [] b = some (b, [])
run (op ∷ ops) b = do (b', out) ← step op b; (b'', more) ← run ops b'; some (b'', out ++ more)

-- The bytes that an operation puts in.
abbrev pub given : Op → List ℕ
given (do_write p bs) = bs
given (do_write_byte x) = u8 x ∷ []
given (do_write_value w x) = le_bytes w x
given (do_write_buffer p src) = src.v
given _ = []

abbrev pub all_given : List Op → List ℕ
all_given [] = []
all_given (op ∷ ops) = given op ++ all_given ops

-- Writes from a pointer that is not null, and reads of one byte or more to such a pointer; the others
-- throw bytes away.
abbrev pub IsStream : Op → Type 0
IsStream (do_write p bs) = p ≡ true
IsStream (do_write_byte x) = Unit
IsStream (do_write_value w x) = Unit
IsStream (do_write_buffer p src) = p ≡ true
IsStream (do_read p n) = (p && ltb 0 n) ≡ true
IsStream (do_reset off) = ⊥
IsStream (do_remove n) = ⊥
IsStream (do_realloc n force) = ⊥

pub v-try_write : (b : Buffer) (p : List ℕ) → (try_write b p).0.v ≡ b.v ++ p
unfolding try_write inc.Buffer.reserve
v-try_write b p = ground arith

v-try_read : (b : Buffer) (n : ℕ) → (try_read b n).0 ++ (try_read b n).1.v ≡ b.v
unfolding try_read
v-try_read b n = ground (arith, take-append-drop n b.v, take-append-drop (length b.v) b.v)

-- Such an operation runs, and what it hands out with what is left is what was there with what
-- it put in.
pub step_stream :
    (op : Op) (b : Buffer)
    → IsStream op
    → (b' : Buffer) × (out : List ℕ) × (step op b ≡ some (b', out))
      × (out ++ b'.v ≡ b.v ++ given op)
unfolding step write write_byte write_value write_buffer read bytes
step_stream (do_write p bs) b h = ((try_write b bs).0, [], rw h, v-try_write b bs)
step_stream (do_write_byte x) b h = ((try_write b _).0, [], refl, v-try_write b (u8 x ∷ []))
step_stream (do_write_value w x) b h = ((try_write b _).0, [], refl, v-try_write b (le_bytes w x))
step_stream (do_write_buffer p src) b h = ((try_write b src.v).0, [], rw h, v-try_write b src.v)
step_stream (do_read p n) b h =
    ((try_read b n).1, (try_read b n).0, rw h, v-try_read b n ∙ sym (append-nil b.v))
step_stream (do_reset off) b h = absurd h
step_stream (do_remove n) b h = absurd h
step_stream (do_realloc n force) b h = absurd h

-- Any sequence of writes from and reads to pointers that are not null, each read of one byte or more, runs to its end, and the bytes read,
-- followed by those still in the buffer, are the bytes that were in it followed by those written.
pub run_stream :
    (ops : List Op) (b : Buffer)
    → All IsStream ops
    → (b' : Buffer) × (out : List ℕ) × (run ops b ≡ some (b', out))
      × (out ++ b'.v ≡ b.v ++ all_given ops)
unfolding run
run_stream [] b h = (b, [], refl, sym (append-nil b.v))
run_stream (op ∷ ops) b h =
    let (b1, out, e, q) = step_stream op b h.0 in
    let (b2, more, e', q') = run_stream ops b1 h.1 in
    (b2, out ++ more, rw (e, e'), chain b1 b2 out more q q')
  where
    chain :
        (b1 b2 : Buffer) (out more : List ℕ)
        → out ++ b1.v ≡ b.v ++ given op
        → more ++ b2.v ≡ b1.v ++ all_given ops
        → (out ++ more) ++ b2.v ≡ b.v ++ (given op ++ all_given ops)
    chain b1 b2 out more q q' =
        append_assoc out more b2.v
        ∙ ap (λ r. out ++ r) q'
        ∙ sym (append_assoc out b1.v (all_given ops))
        ∙ ap (λ r. r ++ all_given ops) q
        ∙ append_assoc b.v (given op) (all_given ops)

-- A write at the end, by its bytes.
pub write-bytes :
    (b : Buffer) (p : List ℕ)
    → (b' : Buffer) × (n : ℕ) × (write true b p ≡ some (b', n)) × (b'.v ≡ b.v ++ p)
unfolding write
write-bytes b p = ((try_write b p).0, (try_write b p).1, refl, v-try_write b p)

pub write_byte-bytes :
    (b : Buffer) (x : ℕ)
    → (b' : Buffer) × (n : ℕ) × (write_byte b x ≡ some (b', n)) × (b'.v ≡ b.v ++ (u8 x ∷ []))
unfolding write_byte
write_byte-bytes b x = write-bytes b (u8 x ∷ [])

-- `Reset` with no offset leaves nothing, and `Remove` takes from the front.
pub v-reset : (b : Buffer) → (reset b 0).v ≡ []
unfolding reset inc.Buffer.resize
v-reset b = ground arith

pub v-remove : (b : Buffer) (n : ℕ) → (remove b n).0.v ≡ drop n b.v
unfolding remove
v-remove b n = ground (arith, drop_all b.v n, drop_all b.v (length b.v))
