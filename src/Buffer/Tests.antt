-- ===== src/Buffer/Tests.antt =====
-- Runs of the buffer, and the theorems at concrete inputs.
use inc.Prelude.{ℕ, ◌≡◌, refl, List, [], ◌∷◌, ◌++◌, true, false, none, some}
use inc.Buffer.{
  Buffer, make, make_sized, reserve, resize, empty, cap, len, bytes, try_write, write, write_byte,
  try_read, read, reset, remove, realloc,
}
use inc.Buffer.Invariant.{Op, step, do_write, do_write_byte, do_read}
use inc.Buffer.Stream.{run, all_given, run_stream}

abbrev abc : List ℕ
abc = b'a' ∷ b'b' ∷ b'c' ∷ []

abbrev ops : List Op
ops = do_write true abc ∷ do_read true 2 ∷ do_write_byte 0x17a ∷ []

runs : run ops make ≡ some (record { cap = 6; v = b'c' ∷ b'z' ∷ [] }, b'a' ∷ b'b' ∷ [])
unfolding run step write write_byte read try_write try_read reserve make
runs = refl

null_write : (write false make [] ≡ none) × (write false make abc ≡ none)
unfolding write
null_write = (refl, refl)

sizes :
    (make_sized 5 ≡ record { cap = 5; v = [] })
    × (reset (record { cap = 2; v = 1 ∷ [] }) 4 ≡ record { cap = 4; v = 1 ∷ 0 ∷ 0 ∷ 0 ∷ [] })
    × (remove (record { cap = 3; v = abc }) 9 ≡ (record { cap = 3; v = [] }, 3))
    × (realloc (record { cap = 3; v = abc }) 8 false ≡ record { cap = 8; v = [] })
unfolding make_sized make reserve reset resize remove realloc
sizes = (refl, refl, refl, refl)

views :
    (empty (record { cap = 3; v = abc }) ≡ false)
    × (len (record { cap = 4; v = abc }) ≡ 3)
    × (cap (record { cap = 4; v = abc }) ≡ 4)
    × (bytes (record { cap = 4; v = abc }) ≡ abc)
unfolding empty len cap bytes
views = (refl, refl, refl, refl)

run_stream_example :
    (b' : Buffer) × (out : List ℕ) × (run ops make ≡ some (b', out))
    × (out ++ b'.v ≡ make.v ++ all_given ops)
run_stream_example = run_stream ops make (refl, (refl, (tt, tt)))
