-- ===== src/Nalu.antt =====
-- stream/sps.hpp, namespace `nalu`: cutting a frame at its start codes, and picking the
-- parameter sets out of the units.
-- A pointer into the frame is the list of the bytes from there to the end of the memory block,
-- which may reach behind the frame. A comparison that reads behind the block is `fault`.
pub mod Join
pub mod Cut
pub mod Sorted
pub mod Ends
mod Tests
use inc.Prelude.{
  ℕ, zero, suc, ◌+◌, ◌-◌, ◌/◌, ◌^◌, ◌%◌, List, [], ◌∷◌, ◌++◌, Bool, true, false, ◌&&◌, Option, none,
  some, ◌>>=◌, bit_and, ltb, ◌==◌, if◌then◌else◌, drop, get_or,
}
use inc.Prelude.Word.{u64}

-- `size` is an `int`. It is kept as the `size_t` that it becomes where it is used, so that a
-- negative one is larger than any block.
abbrev pub int_size : ℕ → ℕ
int_size n = if ltb (n % 2 ^ 32) (2 ^ 31) then n % 2 ^ 32 else n % 2 ^ 32 + (2 ^ 64 - 2 ^ 32)

pub record NalUnit : Type 0 where
  pub type : ℕ
  pub size : ℕ
  pub bytes : List ℕ

-- A value-initialised `Unit`, with a null pointer.
abbrev pub no_unit : NalUnit
no_unit = record { type = 0; size = 0; bytes = [] }

unfoldable pub is_h264 : ℕ → Bool
is_h264 b = bit_and b 0xf0 == 0x60

abbrev pub start : List ℕ
start = 0 ∷ 0 ∷ 0 ∷ 1 ∷ []

-- `memcmp(p, START, sizeof(START)) == 0`, which needs four bytes to read.
unfoldable pub at_start : List ℕ → Option Bool
at_start (a ∷ b ∷ c ∷ d ∷ p) = some (a == 0 && b == 0 && c == 0 && d == 1)
at_start _ = none

-- The `while` loop: from index `i`, with `length - i` rounds left and `p` at `data + i`.
unfoldable pub scan : ℕ → List ℕ → ℕ → Option ℕ
scan zero p i = some i
scan (suc left) p i = elim (at_start p) [
  | none ↦ none
  | some true ↦ some i
  | some false ↦ scan left (drop 1 p) (i + 1)
]

-- What `Split` leaves: the pointer that it returns with the new `length` and the units found,
-- a null pointer with the same, a read out of the block, or the fuel used up.
pub data Outcome : Type 0 where
  rest : List ℕ → ℕ → List NalUnit → Outcome
  null : ℕ → List NalUnit → Outcome
  fault : Outcome
  stuck : Outcome

-- Behind a start code: `data` and `length` are moved behind it, and `i` is where the loop ended.
abbrev pub after_scan :
    (List ℕ → ℕ → List NalUnit → Outcome) → List ℕ → ℕ → List NalUnit → Option ℕ → Outcome
after_scan again p len units none = fault
after_scan again p len units (some i) =
    let head : NalUnit = record { type = get_or p 0 0; size = int_size i; bytes = p } in
    let further = again (drop i p) (u64 (len + 2 ^ 64 - i)) (units ++ (head ∷ [])) in
    if ltb i len then further else rest p len units

-- The fuel bounds the depth of the recursion.
unfoldable pub split : ℕ → List ℕ → ℕ → List NalUnit → Outcome
split zero p len units = stuck
split (suc fuel) p len units = elim (at_start p) [
  | none ↦ fault
  | some false ↦ null len units
  | some true ↦
      let p' = drop 4 p in
      let len' = u64 (len + 2 ^ 64 - 4) in after_scan (split fuel) p' len' units (scan len' p' 0)
]

-- The choice that `Sort` makes at one unit: the two sets that it keeps and the video set.
pub record Sets : Type 0 where
  pub sps : NalUnit
  pub pps : NalUnit
  pub vps : Option NalUnit

unfoldable pub sort_step : Bool → Sets → NalUnit → Sets
sort_step true r v =
    let t = bit_and v.type 0x1f in
    if t == 7 then record r { sps = v } else if t == 8 then record r { pps = v } else r
sort_step false r v =
    let t = bit_and v.type 0x7e / 2 in
    if t == 33
    then record r { sps = v }
    else if t == 34
    then record r { pps = v }
    else if t == 32
    then record r { vps = some v }
    else r

unfoldable pub sort_loop : Bool → Sets → List NalUnit → Sets
sort_loop b264 r [] = r
sort_loop b264 r (v ∷ vs) = sort_loop b264 (sort_step b264 r v) vs

-- `vps` is pushed behind the two others.
abbrev pub sets_list : Sets → List NalUnit
sets_list r = elim r.vps [ none ↦ r.sps ∷ r.pps ∷ [] | some v ↦ r.sps ∷ r.pps ∷ v ∷ [] ]

-- `nalus[0]` of an empty vector is out of range.
unfoldable pub sort : List NalUnit → Option (List NalUnit)
sort [] = none
sort (u ∷ us) = some (
    sets_list
      (sort_loop (is_h264 u.type) (record { sps = no_unit; pps = no_unit; vps = none }) (u ∷ us)))
