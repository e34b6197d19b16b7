-- ===== src/Byte/Read.antt =====
-- What the readers of `Slice` make of the bytes at the cursor.
use inc.Prelude.{
  ℕ, zero, suc, ◌+◌, ◌≤◌, ◌<◌, ◌≡◌, refl, List, [], ◌∷◌, Option, some, arith, length,
  get_elem?-get_or, get_or, All,
}
use inc.Prelude.Word.{IsByte}
use inc.Byte.{
  Slice, next, get_u8, get_le_u16, get_be_u16, get_le_u32, get_be_u32, get_le_u64, get_be_u64,
}
use inc.Byte.Char.{smeared, smeared_down}
use inc.Byte.Join32.{le_16, be_16, le_32, be_32}
use inc.Byte.Join64.{le_64, be_64}
use inc.Byte.Write.{Endian, Width, size}

-- The `w` bytes of the block from `p` on.
abbrev pub window : List ℕ → ℕ → ℕ → List ℕ
window mem p zero = []
window mem p (suc w) = get_or mem p 0 ∷ window mem (p + 1) w

-- The number that a run of chars is read as.
abbrev pub value : Endian → List ℕ → ℕ
value Endian.le cs = smeared cs
value Endian.be cs = smeared_down 0 0 cs

abbrev pub reader : Endian → Width → Slice → Option (ℕ × Slice)
reader Endian.le Width.w8 = get_u8
reader Endian.be Width.w8 = get_u8
reader Endian.le Width.w16 = get_le_u16
reader Endian.le Width.w32 = get_le_u32
reader Endian.le Width.w64 = get_le_u64
reader Endian.be Width.w16 = get_be_u16
reader Endian.be Width.w32 = get_be_u32
reader Endian.be Width.w64 = get_be_u64

pub next_lem :
    (mem : List ℕ) (p : ℕ)
    → p < length mem
    → next (record { mem = mem; pos = p })
      ≡ some (get_or mem p 0, record { mem = mem; pos = p + 1 })
unfolding next
next_lem mem p h = rw (get_elem?-get_or mem p 0 h)

abbrev pub found : List ℕ → ℕ → ℕ → Option (ℕ × Slice)
found mem v q = some (v, record { mem = mem; pos = q })

found_eq : (mem : List ℕ) (v v' q q' : ℕ) → v ≡ v' → q ≡ q' → found mem v q ≡ found mem v' q'
found_eq mem v v' q q' e e' = rw (e, e')

-- Every reader, called with the bytes of its width behind the cursor, returns the number that
-- they are read as (`value`: a byte of 128 or more turns all the bits above it into ones, since
-- `data` holds signed chars) and moves the cursor behind them.
pub reader-value :
    (o : Endian) (w : Width) (mem : List ℕ) (p : ℕ)
    → p + size w ≤ length mem
    → All IsByte (window mem p (size w))
    → reader o w (record { mem = mem; pos = p })
      ≡ found mem (value o (window mem p (size w))) (p + size w)
reader-value Endian.le Width.w8 mem p h (h0, _) =
    unfold get_u8 in rw (next_lem mem p (omega arith)) (found_eq mem _ _ _ _ (ground arith) refl)
reader-value Endian.le Width.w16 mem p h (h0, (h1, _)) =
    unfold get_le_u16 in
    rw (next_lem mem (p) (omega arith), next_lem mem (p + 1) (omega arith))
      (found_eq mem _ _ _ _ (le_16 (get_or mem (p) 0) (get_or mem (p + 1) 0) h0 h1) (omega arith))
reader-value Endian.le Width.w32 mem p h (h0, (h1, (h2, (h3, _)))) =
    unfold get_le_u32 in
    rw
      (
        next_lem mem (p) (omega arith),
        next_lem mem (p + 1) (omega arith),
        next_lem mem (p + 1 + 1) (omega arith),
        next_lem mem (p + 1 + 1 + 1) (omega arith),
      )
      (found_eq mem _ _ _ _
        (le_32 (get_or mem (p) 0) (get_or mem (p + 1) 0) (get_or mem (p + 1 + 1) 0)
          (get_or mem (p + 1 + 1 + 1) 0) h0 h1 h2 h3)
        (omega arith))
reader-value Endian.le Width.w64 mem p h (h0, (h1, (h2, (h3, (h4, (h5, (h6, (h7, _)))))))) =
    unfold get_le_u64 in
    rw
      (
        next_lem mem (p) (omega arith),
        next_lem mem (p + 1) (omega arith),
        next_lem mem (p + 1 + 1) (omega arith),
        next_lem mem (p + 1 + 1 + 1) (omega arith),
        next_lem mem (p + 1 + 1 + 1 + 1) (omega arith),
        next_lem mem (p + 1 + 1 + 1 + 1 + 1) (omega arith),
        next_lem mem (p + 1 + 1 + 1 + 1 + 1 + 1) (omega arith),
        next_lem mem (p + 1 + 1 + 1 + 1 + 1 + 1 + 1) (omega arith),
      )
      (found_eq mem _ _ _ _
        (le_64 (get_or mem (p) 0) (get_or mem (p + 1) 0) (get_or mem (p + 1 + 1) 0)
          (get_or mem (p + 1 + 1 + 1) 0) (get_or mem (p + 1 + 1 + 1 + 1) 0)
          (get_or mem (p + 1 + 1 + 1 + 1 + 1) 0) (get_or mem (p + 1 + 1 + 1 + 1 + 1 + 1) 0)
          (get_or mem (p + 1 + 1 + 1 + 1 + 1 + 1 + 1) 0) h0 h1 h2 h3 h4 h5 h6 h7)
        (omega arith))
reader-value Endian.be Width.w8 mem p h (h0, _) =
    unfold get_u8 in rw (next_lem mem p (omega arith)) (found_eq mem _ _ _ _ (ground arith) refl)
reader-value Endian.be Width.w16 mem p h (h0, (h1, _)) =
    unfold get_be_u16 in
    rw (next_lem mem (p) (omega arith), next_lem mem (p + 1) (omega arith))
      (found_eq mem _ _ _ _ (be_16 (get_or mem (p) 0) (get_or mem (p + 1) 0) h0 h1) (omega arith))
reader-value Endian.be Width.w32 mem p h (h0, (h1, (h2, (h3, _)))) =
    unfold get_be_u32 in
    rw
      (
        next_lem mem (p) (omega arith),
        next_lem mem (p + 1) (omega arith),
        next_lem mem (p + 1 + 1) (omega arith),
        next_lem mem (p + 1 + 1 + 1) (omega arith),
      )
      (found_eq mem _ _ _ _
        (be_32 (get_or mem (p) 0) (get_or mem (p + 1) 0) (get_or mem (p + 1 + 1) 0)
          (get_or mem (p + 1 + 1 + 1) 0) h0 h1 h2 h3)
        (omega arith))
reader-value Endian.be Width.w64 mem p h (h0, (h1, (h2, (h3, (h4, (h5, (h6, (h7, _)))))))) =
    unfold get_be_u64 in
    rw
      (
        next_lem mem (p) (omega arith),
        next_lem mem (p + 1) (omega arith),
        next_lem mem (p + 1 + 1) (omega arith),
        next_lem mem (p + 1 + 1 + 1) (omega arith),
        next_lem mem (p + 1 + 1 + 1 + 1) (omega arith),
        next_lem mem (p + 1 + 1 + 1 + 1 + 1) (omega arith),
        next_lem mem (p + 1 + 1 + 1 + 1 + 1 + 1) (omega arith),
        next_lem mem (p + 1 + 1 + 1 + 1 + 1 + 1 + 1) (omega arith),
      )
      (found_eq mem _ _ _ _
        (be_64 (get_or mem (p) 0) (get_or mem (p + 1) 0) (get_or mem (p + 1 + 1) 0)
          (get_or mem (p + 1 + 1 + 1) 0) (get_or mem (p + 1 + 1 + 1 + 1) 0)
          (get_or mem (p + 1 + 1 + 1 + 1 + 1) 0) (get_or mem (p + 1 + 1 + 1 + 1 + 1 + 1) 0)
          (get_or mem (p + 1 + 1 + 1 + 1 + 1 + 1 + 1) 0) h0 h1 h2 h3 h4 h5 h6 h7)
        (omega arith))
