-- ===== src/Frames.antt =====
-- stream/frame.hpp: `read264frame` and `libframe::File`, which cuts a file into frames of H.264. A
-- file is its bytes and the position in them; `Read` copies them into a buffer that it has
-- cleared, so a byte that the list does not have is zero.
pub mod First
pub mod Reading
mod Tests
use inc.Prelude.{
  ℕ, zero, suc, ◌+◌, ◌-◌, ◌%◌, ◌^◌, List, [], ◌∷◌, Bool, true, false, ◌||◌, ◌&&◌, not, Option, none,
  some, ◌==◌, ltb, if◌then◌else◌, get_or, length, take, drop,
}
use inc.Text.{is_prefix}

abbrev pub start_code : List ℕ
start_code = 0 ∷ 0 ∷ 0 ∷ 1 ∷ []

-- The type in the low five bits of the byte behind a start code is 1 or 5.
abbrev pub is_slice : List ℕ → Bool
is_slice b = let type = get_or b 4 0 % 2 ^ 5 in (type == 1) || (type == 5)

-- The loop of `read264frame` from index `i` on, with so many rounds left; `b` is the memory from there.
pub scan : ℕ → Bool → ℕ → List ℕ → Option ℕ
scan zero ok i b = none
scan (suc k) ok i b =
    let on = scan k (ok || (is_prefix start_code b && is_slice b)) (suc i) (drop 1 b) in
    if is_prefix start_code b && ok then some i else on

-- `read264frame`, where -1 is `none`.
pub read_264_frame : List ℕ → ℕ → Option ℕ
read_264_frame b len = scan len false 0 b

abbrev pub read_buf_siz : ℕ
read_buf_siz = 500000

pub record File : Type 0 where
  pub opened : Bool
  pub content : List ℕ
  pub pos : ℕ

-- `Open`, by what `fopen` gives.
pub open_file : Option (List ℕ) → File → File × Bool
open_file none f = (record f { opened = false }, false)
open_file (some content) f = (record { opened = true; content = content; pos = 0 }, true)

-- The bytes of the frame and `ftype`, and the file with its new position.
abbrev pub found : Option ℕ → List ℕ → File → Option (List ℕ × ℕ) × File
found none block f = (none, record f { pos = f.pos + length block })
found (some offset) block f = (
  some (take offset block, if get_or block 4 0 % 2 ^ 5 == 1 then 2 else 1),
  record f { pos = f.pos + offset },
)

-- `Read`, where `NULL` is `none`.
pub read : File → Option (List ℕ × ℕ) × File
read f =
    let block = take read_buf_siz (drop f.pos f.content) in
    if not f.opened || (length block == 0)
    then (none, f)
    else found (read_264_frame block (length block - 5)) block f
