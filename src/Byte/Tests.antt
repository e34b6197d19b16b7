-- ===== src/Byte/Tests.antt =====
-- Runs of the writers and readers, and the theorems at concrete inputs.
use inc.Prelude.{All, ℕ, ◌≡◌, ◌≢◌, refl, List, [], ◌∷◌, none, some, arith}
use inc.Prelude.Word.{IsByte}
use inc.Byte.Vars.{
  getvar_be16, getvar_le16, getvar_le32, getvar_le64, getavr_be64, getavr_be64_lem, getvar_lem,
}
use inc.Byte.{
  Slice, make_slice, store, store_all, put, put_le_u32, put_be_u16, next, get_le_u16, get_be_u32,
}
use inc.Byte.Write.{le, be, w16, w32, written, bytes}
use inc.Byte.Read.{found}
use inc.Byte.RoundTrip.{write_read, write_read-plain, write_read_sign}

abbrev block : List ℕ
block = 9 ∷ 9 ∷ 9 ∷ 9 ∷ 9 ∷ 9 ∷ []

abbrev at_one : Slice
at_one = record { mem = block; pos = 1 }

made : make_slice block 1 ≡ at_one
unfolding make_slice
made = refl

put_runs :
    put_le_u32 at_one 0x01020384 ≡ some (record { mem = 9 ∷ 0x84 ∷ 3 ∷ 2 ∷ 1 ∷ 9 ∷ []; pos = 5 }, 5)
unfolding put_le_u32 put store_all store
put_runs = refl

put_out : put_be_u16 (record { mem = block; pos = 5 }) 1 ≡ none
unfolding put_be_u16 put store_all store
put_out = refl

get_runs : get_be_u32 at_one ≡ some (0x09090909, record { mem = block; pos = 5 })
unfolding get_be_u32 next
get_runs = refl

get_signed :
    get_le_u16 (record { mem = 0x84 ∷ 3 ∷ []; pos = 0 })
    ≡ some (0xff84, record { mem = 0x84 ∷ 3 ∷ []; pos = 2 })
unfolding get_le_u16 next
get_signed = refl

write_read-plain_example :
    write_read be w32 at_one 0xff010203
    ≡ found (written at_one (bytes be 4 0xff010203)).0.mem 0xff010203 5
write_read-plain_example = write_read-plain be w32 at_one 0xff010203 (omega arith) (omega arith)

write_read_sign_example :
    (write_read le w16 at_one 0x0384 ≡ found (written at_one (bytes le 2 0x0384)).0.mem 0xff84 3)
    × ◌≢◌ {A = ℕ} 0xff84 0x0384
write_read_sign_example =
    write_read_sign le at_one 0x0384 (omega arith) (omega arith) (omega arith) (omega arith)

abbrev eight : List ℕ
eight = 1 ∷ 2 ∷ 3 ∷ 4 ∷ 128 ∷ 6 ∷ 7 ∷ 255 ∷ []

eight-IsByte : All IsByte eight
eight-IsByte = (
  omega arith,
  (
    omega arith,
    (omega arith, (omega arith, (omega arith, (omega arith, (omega arith, (omega arith, tt)))))),
  ),
)

getavr_be64_lem_example :
    getavr_be64 (1 ∷ 2 ∷ 3 ∷ 4 ∷ 128 ∷ 6 ∷ 7 ∷ 255 ∷ 9 ∷ []) ≡ some (0xffffffff800607ff, 9 ∷ [])
getavr_be64_lem_example = getavr_be64_lem 1 2 3 4 128 6 7 255 (9 ∷ []) eight-IsByte

getvar_lem_example :
    (getvar_be16 (1 ∷ 2 ∷ []) ≡ some (0x0102, []))
    × (getvar_le16 (2 ∷ 1 ∷ []) ≡ some (0x0102, []))
    × (getvar_le32 (4 ∷ 3 ∷ 2 ∷ 1 ∷ []) ≡ some (0x01020304, []))
    × (getvar_le64 (255 ∷ 7 ∷ 6 ∷ 128 ∷ 4 ∷ 3 ∷ 2 ∷ 1 ∷ []) ≡ some (0x01020304800607ff, []))
getvar_lem_example = getvar_lem 1 2 3 4 128 6 7 255 [] eight-IsByte
