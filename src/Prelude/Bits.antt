-- ===== src/Prelude/Bits.antt =====
-- Laws of the bitwise operations at variables: each works on the binary digits one by one, so
-- two words that are cut at the same place are combined part by part.
use Prim.Native.Nat.{ℕ, zero, suc, ◌+◌, ◌-◌, ◌*◌, ◌/◌, ◌%◌, ◌^◌, ◌≤◌, ◌<◌, min, max}
use Prim.Native.Nat.{bit_and, bit_or, digits, bit_and-bitwise, bit_or-bitwise}
use mathlib.Core.Path.{◌≡◌, refl, ap}
use native.Mathlib.Nat.{pow-suc, one-le-pow}
use native.Mathlib.Omega.{arith}

-- The fuel of the definition behind the native operations does not show once it is enough.
module _ (z : ℕ → ℕ) (f : ℕ → ℕ → ℕ) where
  digits_enough : (n m a b : ℕ) → a ≤ n → a ≤ m → digits z f n a b ≡ digits z f m a b
  digits_enough zero zero a b hn hm = refl
  digits_enough zero (suc m) zero b hn hm = refl
  digits_enough zero (suc m) (suc a) b hn hm = absurd (omega arith)
  digits_enough (suc n) zero zero b hn hm = refl
  digits_enough (suc n) zero (suc a) b hn hm = absurd (omega arith)
  digits_enough (suc n) (suc m) zero b hn hm = refl
  digits_enough (suc n) (suc m) (suc a) b hn hm =
      rw (digits_enough n m (suc a / 2) (b / 2) (omega arith) (omega arith))

or_digit : (a b : ℕ) → bit_or a b ≡ bit_or (a / 2) (b / 2) * 2 + max (a % 2) (b % 2)
or_digit zero b = simp bit_or-bitwise (omega arith)
or_digit (suc a) b = simp bit_or-bitwise (
    omega (
      arith,
      digits_enough (λ y. y) max a (suc a / 2) (suc a / 2) (b / 2) (omega arith) (omega arith),
    ))

and_digit : (a b : ℕ) → bit_and a b ≡ bit_and (a / 2) (b / 2) * 2 + min (a % 2) (b % 2)
and_digit zero b = simp bit_and-bitwise (omega arith)
and_digit (suc a) b = simp bit_and-bitwise (
    omega (
      arith,
      digits_enough (λ y. 0) min a (suc a / 2) (suc a / 2) (b / 2) (omega arith) (omega arith),
    ))

double_shift : (q k : ℕ) → q * 2 ^ suc k ≡ 2 * (q * 2 ^ k)
double_shift q k = omega (arith, ap (λ (t : ℕ). q * t) (pow-suc 2 k))

-- An operation that is given digit by digit, with `f 0 0` equal to 0.
module _ (op : ℕ → ℕ → ℕ) (f : ℕ → ℕ → ℕ)
    (digit : (a b : ℕ) → op a b ≡ op (a / 2) (b / 2) * 2 + f (a % 2) (b % 2))
    (op_zero : op 0 0 ≡ 0) where
  op_cut :
      (k p q r s : ℕ)
      → r < 2 ^ k
      → s < 2 ^ k
      → op (p * 2 ^ k + r) (q * 2 ^ k + s) ≡ op p q * 2 ^ k + op r s
  op_cut zero p q zero zero hr hs = ap₃ (omega arith) (omega arith)
    where
      ap₃ : p * 1 + 0 ≡ p → q * 1 + 0 ≡ q → op (p * 1 + 0) (q * 1 + 0) ≡ op p q * 1 + op 0 0
      ap₃ e e' = rw (e, e', op_zero) (omega arith)
  op_cut zero p q zero (suc s) hr hs = absurd (omega arith)
  op_cut zero p q (suc r) s hr hs = absurd (omega arith)
  op_cut (suc k) p q r s hr hs = ground (
    arith,
    digit (p * 2 ^ suc k + r) (q * 2 ^ suc k + s),
    digit r s,
    double_shift p k,
    double_shift q k,
    double_shift (op p q) k,
    op_cut k p q (r / 2) (s / 2) (omega (arith, pow-suc 2 k)) (omega (arith, pow-suc 2 k)),
  )

pub or_cut :
    (k p q r s : ℕ)
    → r < 2 ^ k
    → s < 2 ^ k
    → bit_or (p * 2 ^ k + r) (q * 2 ^ k + s) ≡ bit_or p q * 2 ^ k + bit_or r s
or_cut = op_cut bit_or max or_digit refl

pub and_cut :
    (k p q r s : ℕ)
    → r < 2 ^ k
    → s < 2 ^ k
    → bit_and (p * 2 ^ k + r) (q * 2 ^ k + s) ≡ bit_and p q * 2 ^ k + bit_and r s
and_cut = op_cut bit_and min and_digit refl

or_comm_fuel : (n a b : ℕ) → a ≤ n → b ≤ n → bit_or a b ≡ bit_or b a
or_comm_fuel zero zero zero ha hb = refl
or_comm_fuel zero zero (suc b) ha hb = absurd (omega arith)
or_comm_fuel zero (suc a) b ha hb = absurd (omega arith)
or_comm_fuel (suc n) a b ha hb =
    omega (
      arith,
      or_digit a b,
      or_digit b a,
      or_comm_fuel n (a / 2) (b / 2) (omega arith) (omega arith),
    )

pub or_comm : (a b : ℕ) → bit_or a b ≡ bit_or b a
or_comm a b = or_comm_fuel (a + b) a b (omega arith) (omega arith)

pub or_zero : (a : ℕ) → bit_or a 0 ≡ a
or_zero a = or_zero_fuel a a (omega arith)
  where
    or_zero_fuel : (n a : ℕ) → a ≤ n → bit_or a 0 ≡ a
    or_zero_fuel n zero h = refl
    or_zero_fuel zero (suc a) h = absurd (omega arith)
    or_zero_fuel (suc n) (suc a) h =
        omega (arith, or_digit (suc a) 0, or_zero_fuel n (suc a / 2) (omega arith))

pub zero_or : (a : ℕ) → bit_or 0 a ≡ a
zero_or a = omega (arith, or_comm 0 a, or_zero a)

or_assoc_fuel :
    (n a b c : ℕ) → a ≤ n → b ≤ n → c ≤ n → bit_or (bit_or a b) c ≡ bit_or a (bit_or b c)
or_assoc_fuel zero zero zero zero ha hb hc = refl
or_assoc_fuel zero zero zero (suc c) ha hb hc = absurd (omega arith)
or_assoc_fuel zero zero (suc b) c ha hb hc = absurd (omega arith)
or_assoc_fuel zero (suc a) b c ha hb hc = absurd (omega arith)
or_assoc_fuel (suc n) a b c ha hb hc =
    let ab : bit_or a b / 2 ≡ bit_or (a / 2) (b / 2) = omega (arith, or_digit a b) in
    let bc : bit_or b c / 2 ≡ bit_or (b / 2) (c / 2) = omega (arith, or_digit b c) in
    ground (
      arith,
      ab,
      bc,
      or_digit a b,
      or_digit b c,
      or_digit (bit_or a b) c,
      or_digit a (bit_or b c),
      or_assoc_fuel n (a / 2) (b / 2) (c / 2) (omega arith) (omega arith) (omega arith),
    )

pub or_assoc : (a b c : ℕ) → bit_or (bit_or a b) c ≡ bit_or a (bit_or b c)
or_assoc a b c = or_assoc_fuel (a + b + c) a b c (omega arith) (omega arith) (omega arith)

-- `(q << k) | r` is a sum when `r` has `k` bits.
pub or_fields : (k q r : ℕ) → r < 2 ^ k → bit_or (q * 2 ^ k) r ≡ q * 2 ^ k + r
or_fields k q r h = ground (arith, or_cut k q 0 0 r (omega arith), or_zero q, zero_or r)

or_ones_fuel : (j x : ℕ) → x < 2 ^ j → bit_or (2 ^ j - 1) x ≡ 2 ^ j - 1
or_ones_fuel zero zero h = refl
or_ones_fuel zero (suc x) h = absurd (omega arith)
or_ones_fuel (suc j) x h = ground (
  arith,
  pow-suc 2 j,
  or_digit (2 ^ suc j - 1) x,
  or_ones_fuel j (x / 2) (omega (arith, pow-suc 2 j)),
)

-- A word of ones absorbs every word of its width.
pub or_ones : (j x : ℕ) → x < 2 ^ j → bit_or (2 ^ j - 1) x ≡ 2 ^ j - 1
or_ones = or_ones_fuel

-- Words of `k` bits are combined to a word of `k` bits.
pub or_lt : (k r s : ℕ) → r < 2 ^ k → s < 2 ^ k → bit_or r s < 2 ^ k
or_lt zero zero zero hr hs = omega arith
or_lt zero zero (suc s) hr hs = absurd (omega arith)
or_lt zero (suc r) s hr hs = absurd (omega arith)
or_lt (suc k) r s hr hs =
    let half : bit_or (r / 2) (s / 2) < 2 ^ k =
      or_lt k (r / 2) (s / 2) (omega (arith, pow-suc 2 k)) (omega (arith, pow-suc 2 k)) in
    omega (arith, pow-suc 2 k, or_digit r s)

pub cut_mod : (q n r : ℕ) → r < n → (q * n + r) % n ≡ r
cut_mod q n r h = grind arith

pub join_cut : (n a : ℕ) → a / n * n + a % n ≡ a
join_cut n a = grind arith

pub or_mod : (k a b : ℕ) → bit_or a b % 2 ^ k ≡ bit_or (a % 2 ^ k) (b % 2 ^ k)
or_mod k a b =
    let pos : 0 < 2 ^ k = one-le-pow k 2 (omega arith) in
    let ra : a % 2 ^ k < 2 ^ k = grind arith in
    let rb : b % 2 ^ k < 2 ^ k = grind arith in
    let cut = or_cut k (a / 2 ^ k) (b / 2 ^ k) (a % 2 ^ k) (b % 2 ^ k) ra rb in
    let whole = rw (join_cut (2 ^ k) a, join_cut (2 ^ k) b) at cut in
    rw whole (cut_mod _ (2 ^ k) _ (or_lt k _ _ ra rb))

and_zero : (a : ℕ) → bit_and a 0 ≡ 0
and_zero a = and_zero_fuel a a (omega arith)
  where
    and_zero_fuel : (n a : ℕ) → a ≤ n → bit_and a 0 ≡ 0
    and_zero_fuel n zero h = refl
    and_zero_fuel zero (suc a) h = absurd (omega arith)
    and_zero_fuel (suc n) (suc a) h =
        omega (arith, and_digit (suc a) 0, and_zero_fuel n (suc a / 2) (omega arith))

and_ones : (k r : ℕ) → r < 2 ^ k → bit_and r (2 ^ k - 1) ≡ r
and_ones zero zero h = refl
and_ones zero (suc r) h = absurd (omega arith)
and_ones (suc k) r h = ground (
  arith,
  pow-suc 2 k,
  and_digit r (2 ^ suc k - 1),
  and_ones k (r / 2) (omega (arith, pow-suc 2 k)),
)

-- A mask of `k` low bits is the remainder by `2 ^ k`.
pub and_mask : (k a : ℕ) → bit_and a (2 ^ k - 1) ≡ a % 2 ^ k
and_mask k a =
    let pos : 0 < 2 ^ k = one-le-pow k 2 (omega arith) in
    ground (
      arith,
      and_cut k (a / 2 ^ k) 0 (a % 2 ^ k) (2 ^ k - 1),
      and_zero (a / 2 ^ k),
      and_ones k (a % 2 ^ k),
    )
