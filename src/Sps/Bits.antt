-- ===== src/Sps/Bits.antt =====
-- The reader against the bits of the memory.
use inc.Prelude.{
  ℕ, zero, suc, ◌+◌, ◌-◌, ◌*◌, ◌/◌, ◌%◌, ◌^◌, ◌≤◌, ◌<◌, ◌≡◌, refl, sym, ap, ap₂, ◌∙◌, List, [], ◌∷◌,
  ◌++◌, Bool, true, ◌&&◌, Option, none, some, arith, bit_and, ◌==◌, if◌then◌else◌, get_elem?,
  get_or, get_elem?-append, get_elem?-append_lt, get_elem?-get_or, ==_iff, length, All,
  append_assoc, length-append, Option-cases, inl, inr,
}
use native.Mathlib.Decide.{dec_lt}
use native.Mathlib.Nat.{pow-suc, one-le-pow, mod-lt, mod-eq_of_lt, pow-le-pow_right}
use mathlib.Core.Path.{subst}
use inc.Prelude.Bits.{cut_mod, join_cut}
use inc.Prelude.Word.{IsByte, u64}
use inc.Sps.{peek_bit, next_bit, bits_loop, u}

-- The eight bits of a byte, the highest first.
abbrev pub bits_of_byte : ℕ → List ℕ
bits_of_byte b =
    b / 128 ∷ b / 64 % 2 ∷ b / 32 % 2 ∷ b / 16 % 2 ∷ b / 8 % 2 ∷ b / 4 % 2 ∷ b / 2 % 2 ∷ b % 2 ∷ []

abbrev pub bits : List ℕ → List ℕ
bits [] = []
bits (b ∷ bs) = bits_of_byte b ++ bits bs

-- A test of all numbers below a bound.
abbrev pub all_below : ℕ → (ℕ → Bool) → Bool
all_below zero p = true
all_below (suc n) p = p n && all_below n p

pub all_below-true : (n : ℕ) (p : ℕ → Bool) (x : ℕ) → all_below n p ≡ true → x < n → p x ≡ true
all_below-true zero p x h lt = absurd (omega arith)
all_below-true (suc n) p x h lt = ground (arith, all_below-true n p x)

-- What the mask of each bit gives, over all bytes.
abbrev masked : ℕ → ℕ → ℕ
masked b i = if bit_and b (0x80 / 2 ^ i) == 0 then 0 else 1

mask_table :
    all_below 8 (λ i. all_below 256 (λ b. masked b i == get_or (bits_of_byte b) i 0)) ≡ true
mask_table = refl

masked_at : (i b : ℕ) → i < 8 → IsByte b → masked b i ≡ get_or (bits_of_byte b) i 0
masked_at i b hi hb =
    let row =
      all_below-true 8 (λ i. all_below 256 (λ b. masked b i == get_or (bits_of_byte b) i 0)) i
        mask_table hi in
    (==_iff _ _).0 (all_below-true 256 (λ b. masked b i == get_or (bits_of_byte b) i 0) b row hb)

abbrev bit_of : List ℕ → ℕ → ℕ → Option ℕ
bit_of buf q r = elim (get_elem? buf q) [ none ↦ none | some b ↦ some (masked b r) ]

abbrev bit_at : List ℕ → ℕ → Option ℕ
bit_at buf k = bit_of buf (k / 8) (k % 8)

bit_at-first :
    (b : ℕ) (bs : List ℕ) (k : ℕ)
    → k < 8
    → IsByte b
    → bit_at (b ∷ bs) k ≡ get_elem? (bits (b ∷ bs)) k
bit_at-first b bs k h hb =
    ap₂ (bit_of (b ∷ bs)) {y = 0} (omega arith) (omega arith)
    ∙ ap some (masked_at k b h hb)
    ∙ sym (get_elem?-get_or (bits_of_byte b) k 0 h)
    ∙ sym (get_elem?-append_lt (bits_of_byte b) (bits bs) k h)

bit_at-later : (b : ℕ) (bs : List ℕ) (k : ℕ) → bit_at (b ∷ bs) (8 + k) ≡ bit_at bs k
bit_at-later b bs k =
    ap₂ (bit_of (b ∷ bs)) {x = (8 + k) / 8} {y = suc (k / 8)} {u = (8 + k) % 8} {v = k % 8}
      (omega arith) (omega arith)

bit_at_lem : (buf : List ℕ) (k : ℕ) → All IsByte buf → bit_at buf k ≡ get_elem? (bits buf) k
bit_at_lem [] k h = refl
bit_at_lem (b ∷ bs) k h = elim (dec_lt k 8) [
  | yes p ↦ bit_at-first b bs k p h.0
  | no p ↦
      let e : k ≡ 8 + (k - 8) = omega arith in
      ap (bit_at (b ∷ bs)) e
      ∙ bit_at-later b bs (k - 8)
      ∙ bit_at_lem bs (k - 8) h.1
      ∙ sym (get_elem?-append (bits_of_byte b) (bits bs) k (k - 8) e)
]

-- A bit of the reader is the bit of the memory.
pub peek_bit_lem :
    (buf : List ℕ) (k b : ℕ)
    → All IsByte buf
    → get_elem? (bits buf) k ≡ some b
    → peek_bit buf k ≡ some (b, k)
unfolding peek_bit
peek_bit_lem buf k b h e = elim (Option-cases (get_elem? buf (k / 8))) [
  | inl e1 ↦ absurd (ground (arith, e1, bit_at_lem buf k h))
  | inr (x, e1) ↦ ground (arith, e1, bit_at_lem buf k h)
]

pub next_bit_lem :
    (buf : List ℕ) (k b : ℕ)
    → All IsByte buf
    → get_elem? (bits buf) k ≡ some b
    → next_bit buf k ≡ some (b, k + 1)
unfolding next_bit
next_bit_lem buf k b h e = rw (peek_bit_lem buf k b h e, next_bit)

-- The `n` low bits of a number, the highest first.
abbrev pub binary : ℕ → ℕ → List ℕ
binary zero x = []
binary (suc n) x = x / 2 ^ n % 2 ∷ binary n x

pub length-binary : (n x : ℕ) → length (binary n x) ≡ n
length-binary zero x = refl
length-binary (suc n) x = ap suc (length-binary n x)

-- The bits from index `k` on begin with `bs`.
abbrev pub BitsAt : List ℕ → ℕ → List ℕ → Type 0
BitsAt buf k [] = Unit
BitsAt buf k (b ∷ bs) = (get_elem? (bits buf) k ≡ some b) × BitsAt buf (k + 1) bs

double_pow : (n : ℕ) → 2 ^ suc n ≡ 2 * 2 ^ n
double_pow n = omega (arith, pow-suc 2 n)

add_below : (b n r : ℕ) → b < 2 → r < n → b * n + r < 2 * n
add_below zero n r hb hr = omega arith
add_below (suc zero) n r hb hr = omega arith
add_below (suc (suc b)) n r hb hr = absurd (omega arith)

regroup : (q n r : ℕ) → q / 2 * (2 * n) + (q % 2 * n + r) ≡ q * n + r
regroup q n r =
    let e : q ≡ q / 2 * 2 + q % 2 = omega arith in omega (arith, ap (λ (t : ℕ). t * n) e)

mod_double : (n x : ℕ) → x % 2 ^ suc n ≡ x / 2 ^ n % 2 * 2 ^ n + x % 2 ^ n
mod_double n x =
    let pos : 0 < 2 ^ n = one-le-pow n 2 (omega arith) in
    let low : x % 2 ^ n < 2 ^ n = mod-lt x pos in
    let q : ℕ = x / 2 ^ n in
    let small : q % 2 * 2 ^ n + x % 2 ^ n < 2 * 2 ^ n =
      add_below (q % 2) (2 ^ n) _ (omega arith) low in
    let whole : q / 2 * (2 * 2 ^ n) + (q % 2 * 2 ^ n + x % 2 ^ n) ≡ x =
      regroup q (2 ^ n) (x % 2 ^ n) ∙ join_cut (2 ^ n) x in
    rw (double_pow n) (rw whole at (cut_mod (q / 2) (2 * 2 ^ n) _ small))

doubled : (n ret : ℕ) → (ret + 1) * 2 ^ suc n ≤ 2 ^ 64 → u64 (ret * 2) ≡ ret * 2
doubled n ret h =
    let p : 1 ≤ 2 ^ n = one-le-pow n 2 (omega arith) in
    let m : (ret + 1) * 2 * 1 ≤ (ret + 1) * 2 * 2 ^ n = grind arith in
    omega (arith, ap (λ (t : ℕ). (ret + 1) * t) (double_pow n))

room : (n ret b : ℕ) → (ret + 1) * 2 ^ suc n ≤ 2 ^ 64 → b < 2 → (ret * 2 + b + 1) * 2 ^ n ≤ 2 ^ 64
room n ret b h hb =
    let m : (ret * 2 + b + 1) * 2 ^ n ≤ (ret * 2 + 2) * 2 ^ n = grind arith in
    omega (arith, ap (λ (t : ℕ). (ret + 1) * t) (double_pow n))

total :
    (n x ret : ℕ) → (ret * 2 + x / 2 ^ n % 2) * 2 ^ n + x % 2 ^ n ≡ ret * 2 ^ suc n + x % 2 ^ suc n
total n x ret = omega (arith, mod_double n x, ap (λ (t : ℕ). ret * t) (double_pow n))

bits_loop_lem :
    (buf : List ℕ) (n x ret k : ℕ)
    → All IsByte buf
    → BitsAt buf k (binary n x)
    → (ret + 1) * 2 ^ n ≤ 2 ^ 64
    → bits_loop buf n ret k ≡ some (ret * 2 ^ n + x % 2 ^ n, k + n)
unfolding bits_loop
bits_loop_lem buf zero x ret k h at fits =
    ap₂ (λ r q. some (r, q)) {y = ret * 1 + x % 1} (omega arith) (omega arith)
bits_loop_lem buf (suc n) x ret k h at fits =
    let b : ℕ = x / 2 ^ n % 2 in
    let same : u64 (ret * 2) ≡ ret * 2 = doubled n ret fits in
    rw (next_bit_lem buf k b h at.0, bits_loop)
      (rw same (
        bits_loop_lem buf n x (ret * 2 + b) (k + 1) h at.1 (room n ret b fits (omega arith))
        ∙ ap₂ (λ r q. some (r, q)) (total n x ret) (omega arith)))

pub bits_loop_zero :
    (buf : List ℕ) (n x k : ℕ)
    → All IsByte buf
    → n ≤ 64
    → x < 2 ^ n
    → BitsAt buf k (binary n x)
    → bits_loop buf n 0 k ≡ some (x, k + n)
bits_loop_zero buf n x k h hn hx at =
    bits_loop_lem buf n x 0 k h at
      (omega (arith, pow-le-pow_right {n = 2} (omega arith) {i = n} {j = 64} hn))
    ∙ ap (λ r. some (r, k + n)) (omega (arith, mod-eq_of_lt hx))

-- Where the memory holds the `n` bits of a number at `StartBit`, at most 64, `u` returns the
-- number and moves behind them.
pub u_lem :
    (buf : List ℕ) (n x k : ℕ)
    → All IsByte buf
    → n ≤ 64
    → x < 2 ^ n
    → BitsAt buf k (binary n x)
    → u buf n k ≡ some (x, k + n)
unfolding u
u_lem buf n x k h hn hx at = bits_loop_zero buf n x k h hn hx at

prefix_at :
    (bits xs bs ys : List ℕ) (b : ℕ)
    → bits ≡ xs ++ ((b ∷ bs) ++ ys)
    → get_elem? bits (length xs) ≡ some b
prefix_at bits xs bs ys b e =
    ap (λ r. get_elem? r (length xs)) e
    ∙ get_elem?-append xs (b ∷ (bs ++ ys)) (length xs) 0 (omega arith)

-- The bits of a memory, read off.
pub BitsAt-prefix :
    (buf xs bs ys : List ℕ) → bits buf ≡ xs ++ (bs ++ ys) → BitsAt buf (length xs) bs
BitsAt-prefix buf xs [] ys e = tt
BitsAt-prefix buf xs (b ∷ bs) ys e = (
  prefix_at (bits buf) xs bs ys b e,
  subst (λ (k : ℕ). BitsAt buf k bs) (length-append xs (b ∷ []))
      (BitsAt-prefix buf (xs ++ (b ∷ [])) bs ys (e ∙ sym (append_assoc xs (b ∷ []) (bs ++ ys)))),
)
