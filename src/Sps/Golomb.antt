-- ===== src/Sps/Golomb.antt =====
-- `Ue` against the Exp-Golomb code.
use inc.Prelude.{
  ℕ, zero, suc, ◌+◌, ◌-◌, ◌*◌, ◌^◌, ◌≤◌, ◌<◌, ◌≡◌, ap, ap₂, ◌∙◌, List, [], ◌∷◌, ◌++◌, some, arith,
  ltb, get_elem?, length, All, replicate, length-replicate, true,
}
use native.Mathlib.Nat.{pow-suc, one-le-pow, pow-le-pow_right}
use inc.Prelude.Word.{IsByte, u32}
use mathlib.Core.Path.{subst}
use inc.Sps.{bits_loop, zeros, ue}
use inc.Sps.Bits.{bits, binary, BitsAt, peek_bit_lem, bits_loop_zero}

-- The code of `v` with `n` leading zeros: the zeros, then the `n + 1` bits of `v + 1`.
abbrev pub golomb : ℕ → ℕ → List ℕ
golomb n v = replicate n 0 ++ (1 ∷ binary n (v + 1 - 2 ^ n))

pub BitsAt-append :
    (buf : List ℕ) (k : ℕ) (xs ys : List ℕ)
    → BitsAt buf k (xs ++ ys)
    → BitsAt buf k xs × BitsAt buf (k + length xs) ys
BitsAt-append buf k [] ys h = (tt, subst (λ j. BitsAt buf j ys) {y = k + 0} (omega arith) h)
BitsAt-append buf k (x ∷ xs) ys h =
    let (a, b) = BitsAt-append buf (k + 1) xs ys h.1 in
    ((h.0, a), subst (λ j. BitsAt buf j ys) (omega arith) b)

zeros_lem :
    (buf : List ℕ) (n left m k : ℕ)
    → All IsByte buf
    → BitsAt buf k (replicate n 0)
    → get_elem? (bits buf) (k + n) ≡ some 1
    → n < left
    → zeros buf left m k ≡ some (m + n, k + n)
unfolding zeros
zeros_lem buf n zero m k h at one enough = absurd (omega arith)
zeros_lem buf zero (suc left) m k h at one enough =
    let one' : get_elem? (bits buf) k ≡ some 1 =
      subst (λ j. get_elem? (bits buf) j ≡ some 1) {x = k + 0} (omega arith) one in
    rw (peek_bit_lem buf k 1 h one', zeros) (ap₂ (λ a b. some (a, b)) (omega arith) (omega arith))
zeros_lem buf (suc n) (suc left) m k h at one enough =
    let one' : get_elem? (bits buf) (k + 1 + n) ≡ some 1 =
      subst (λ j. get_elem? (bits buf) j ≡ some 1) {x = k + suc n} (omega arith) one in
    rw (peek_bit_lem buf k 0 h at.0, zeros)
      (zeros_lem buf n left (m + 1) (k + 1) h at.1 one' (omega arith)
        ∙ ap₂ (λ a b. some (a, b)) (omega arith) (omega arith))

ue_steps :
    (buf : List ℕ) (len n k k' w k'' : ℕ)
    → zeros buf (len * 8 - k) 0 k ≡ some (n, k')
    → bits_loop buf n 0 (k' + 1) ≡ some (w, k'')
    → n < 31
    → ue buf len k ≡ some (u32 (2 ^ n - 1 + w), k'')
unfolding ue
ue_steps buf len n k k' w k'' e f hn =
    let small : ltb n 31 ≡ true = ground arith in ground (arith, e, f)

-- Where the memory holds the Exp-Golomb code of `v` at `StartBit`, inside the `len` bytes, `Ue`
-- returns `v` and moves behind the code. The code has at most 30 leading zeros.
pub ue_lem :
    (buf : List ℕ) (len n v k : ℕ)
    → All IsByte buf
    → n < 31
    → 2 ^ n ≤ v + 1
    → v + 1 < 2 ^ suc n
    → BitsAt buf k (golomb n v)
    → k + n < len * 8
    → ue buf len k ≡ some (v, k + (2 * n + 1))
ue_lem buf len n v k h hn lo hi at inside =
    ue_steps buf len n k (k + n) w (k + n + 1 + n) first second hn
    ∙ ap₂ (λ a b. some (a, b)) (omega (arith, bound, one-le-pow n 2 (omega arith))) (omega arith)
  where
    w : ℕ
    w = v + 1 - 2 ^ n

    bound : 2 ^ suc n ≤ 2 ^ 31
    bound = pow-le-pow_right {n = 2} (omega arith) {i = suc n} {j = 31} hn

    parts :
        BitsAt buf k (replicate n 0)
        × BitsAt buf (k + length {A = ℕ} (replicate n 0)) (1 ∷ binary n w)
    parts = BitsAt-append buf k (replicate n 0) (1 ∷ binary n w) at

    there : k + length {A = ℕ} (replicate n 0) ≡ k + n
    there = ap (λ j. k + j) (length-replicate {A = ℕ} n 0)

    one : get_elem? (bits buf) (k + n) ≡ some 1
    one = subst (λ j. get_elem? (bits buf) j ≡ some 1) there parts.1.0

    low : BitsAt buf (k + n + 1) (binary n w)
    low = subst (λ j. BitsAt buf (j + 1) (binary n w)) there parts.1.1

    first : zeros buf (len * 8 - k) 0 k ≡ some (n, k + n)
    first =
        zeros_lem buf n (len * 8 - k) 0 k h parts.0 one (omega arith)
        ∙ ap (λ a. some (a, k + n)) (omega arith)

    second : bits_loop buf n 0 (k + n + 1) ≡ some (w, k + n + 1 + n)
    second = bits_loop_zero buf n w (k + n + 1) h (omega arith) (omega (arith, pow-suc 2 n)) low
