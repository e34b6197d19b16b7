-- ===== src/Sps/Grammar.antt =====
-- Syntax elements as strings of bits, and the readers that read them.
use inc.Prelude.{
  ℕ, zero, suc, ◌+◌, ◌-◌, ◌*◌, ◌/◌, ◌%◌, ◌^◌, ◌≤◌, ◌<◌, ◌≡◌, refl, sym, ap, ◌∙◌, List, [], ◌∷◌,
  ◌++◌, some, arith, length, All, length-append, length-replicate, ◌==◌, replicate, if◌then◌else◌,
}
use native.Mathlib.Nat.{pow-suc, pow-le-pow_right}
use inc.Prelude.Word.{IsByte}
use inc.Prelude.Int.{ℤ, pos, negsuc, neg_of}
use native.Mathlib.Decide.{dec_lt}
use inc.Sps.{Reader, ◌>>=◌, pure, u, ue, se}
use inc.Sps.Bits.{BitsAt, binary, length-binary, u_lem}
use inc.Sps.Golomb.{golomb, BitsAt-append, ue_lem}

-- The number of digits behind the first one of `x`, of which `x / 2 ^ n` is left to look at.
abbrev pub log2 : ℕ → ℕ → ℕ
log2 zero x = 0
log2 (suc fuel) x = elim (x / 2) [ zero ↦ 0 | suc q ↦ suc (log2 fuel (suc q)) ]

-- The code of `ue(v)`.
abbrev pub exp_golomb : ℕ → List ℕ
exp_golomb v = golomb (log2 32 (v + 1)) v

-- The code number of an `se(v)`.
abbrev pub code_number : ℤ → ℕ
code_number (pos zero) = 0
code_number (pos (suc n)) = 2 * n + 1
code_number (negsuc n) = 2 * n + 2

log2-step :
    (l x q : ℕ)
    → 1 ≤ x
    → x / 2 ≡ suc q
    → 2 ^ l ≤ suc q
    → suc q < 2 ^ suc l
    → (2 ^ suc l ≤ x) × (x < 2 ^ suc (suc l))
log2-step l x q lo e h1 h2 = (omega (arith, pow-suc 2 l), omega (arith, pow-suc 2 (suc l)))

half :
    (fuel x q : ℕ)
    → 1 ≤ x
    → x / 2 ≡ q
    → ((y : ℕ) → 1 ≤ y → y < 2 ^ fuel → (2 ^ log2 fuel y ≤ y) × (y < 2 ^ suc (log2 fuel y)))
    → x < 2 ^ suc fuel
    → (2 ^ (elim q [ zero ↦ 0 | suc q ↦ suc (log2 fuel (suc q)) ]) ≤ x)
      × (x < 2 ^ suc (elim q [ zero ↦ 0 | suc q ↦ suc (log2 fuel (suc q)) ]))
half fuel x zero lo e later hi = (omega arith, omega arith)
half fuel x (suc q) lo e later hi =
    let (h1, h2) = later (suc q) (omega arith) (omega (arith, pow-suc 2 fuel)) in
    log2-step (log2 fuel (suc q)) x q lo e h1 h2

log2-bounds :
    (fuel x : ℕ) → 1 ≤ x → x < 2 ^ fuel → (2 ^ log2 fuel x ≤ x) × (x < 2 ^ suc (log2 fuel x))
log2-bounds zero x lo hi = absurd (omega arith)
log2-bounds (suc fuel) x lo hi = half fuel x (x / 2) lo refl (log2-bounds fuel) hi

log2-small : (l x : ℕ) → 2 ^ l ≤ x → x < 2 ^ 31 → l < 31
log2-small l x lo hi = elim (dec_lt l 31) [
  | yes p ↦ p
  | no p ↦
      absurd (omega (arith, pow-le-pow_right {n = 2} (omega arith) {i = 31} {j = l} (omega arith)))
]

length-golomb : (n v : ℕ) → length (golomb n v) ≡ 2 * n + 1
length-golomb n v =
    length-append (replicate n 0) (1 ∷ binary n (v + 1 - 2 ^ n))
    ∙ omega (arith, length-replicate {A = ℕ} n 0, length-binary n (v + 1 - 2 ^ n))

-- What `Se` makes of a code number.
abbrev signed : ℕ → ℤ
signed v = if v % 2 == 0 then neg_of ((v + 1) / 2) else pos ((v + 1) / 2)

signed-code_number : (z : ℤ) → signed (code_number z) ≡ z
signed-code_number (pos zero) = refl
signed-code_number (pos (suc n)) =
    let odd : (2 * n + 1) % 2 ≡ 1 = omega arith in rw odd (ap pos (omega arith))
signed-code_number (negsuc n) =
    let even : (2 * n + 2) % 2 ≡ 0 = omega arith in
    let r : (2 * n + 3) / 2 ≡ suc n = omega arith in rw even (ap neg_of {y = suc n} (omega arith))

se_steps :
    (buf : List ℕ) (len k v k' : ℕ)
    → ue buf len k ≡ some (v, k')
    → se buf len k ≡ some (signed v, k')
unfolding se
se_steps buf len k v k' e = rw (e, se)

module _ (buf : List ℕ) (len : ℕ) (h : All IsByte buf) where
  -- The reader takes the bits `bs` for `a`, wherever they stand in the `len` bytes.
  pub record Gives {A : Type 0} (m : Reader A) (bs : List ℕ) (a : A) : Type 0 where
    pub gives : (k : ℕ) → BitsAt buf k bs → k + length bs ≤ len * 8 → m k ≡ some (a, k + length bs)

  ue_at :
      (v : ℕ)
      → v + 1 < 2 ^ 31
      → (k : ℕ) → BitsAt buf k (exp_golomb v)
      → k + length (exp_golomb v) ≤ len * 8
      → ue buf len k ≡ some (v, k + length (exp_golomb v))
  ue_at v small k at inside =
      let l : ℕ = log2 32 (v + 1) in
      let (lo, hi) = log2-bounds 32 (v + 1) (omega arith) (omega arith) in
      let size : length (exp_golomb v) ≡ 2 * l + 1 = length-golomb l v in
      ue_lem buf len l v k h (log2-small l (v + 1) lo small) lo hi at (omega arith)
      ∙ ap (λ j. some (v, k + j)) (sym size)

module _ {buf : List ℕ} {len : ℕ} {h : All IsByte buf} where
  seq_at :
      {A B : Type 0} (m : Reader A) (f : A → Reader B) (xs ys : List ℕ) (a : A) (b : B)
      → Gives buf len h m xs a
      → Gives buf len h (f a) ys b
      → (k : ℕ) → BitsAt buf k (xs ++ ys)
      → k + length (xs ++ ys) ≤ len * 8
      → (m >>= f) k ≡ some (b, k + length (xs ++ ys))
  seq_at m f xs ys a b gm gf k at inside =
      let (first, second) = BitsAt-append buf k xs ys at in
      let total : k + length xs + length ys ≡ k + length (xs ++ ys) =
        omega (arith, length-append xs ys) in
      let e : m k ≡ some (a, k + length xs) = gm.gives k first (omega arith) in
      let e' : f a (k + length xs) ≡ some (b, k + length xs + length ys) =
        gf.gives (k + length xs) second (omega arith) in
      rw (e, ◌>>=◌) (rw e' (ap (λ (j : ℕ). some (b, j)) total))

  -- One element behind the other.
  pub seq :
      {A B : Type 0} {m : Reader A} (f : A → Reader B) (xs ys : List ℕ) {a : A} {b : B}
      → Gives buf len h m xs a
      → Gives buf len h (f a) ys b
      → Gives buf len h (m >>= f) (xs ++ ys) b
  seq {A} {B} {m} f xs ys {a} {b} gm gf = record { gives = seq_at m f xs ys a b gm gf }

  -- An element whose value is made into another.
  pub done :
      {A B : Type 0} {m : Reader A} (g : A → B) {xs : List ℕ} {a : A}
      → Gives buf len h m xs a
      → Gives buf len h (m >>= λ a'. pure (g a')) xs (g a)
  done {A} {B} {m} g {xs} {a} gm = record {
    gives = λ k at inside. rw (gm.gives k at inside, ◌>>=◌) refl;
  }

  pub pure-Gives : {A : Type 0} (a : A) → Gives buf len h (pure a) [] a
  pure-Gives a = record { gives = λ k at inside. ap (λ j. some (a, j)) {y = k + 0} (omega arith) }

  pub u-Gives : (n x : ℕ) → n ≤ 64 → x < 2 ^ n → Gives buf len h (u buf n) (binary n x) x
  u-Gives n x hn hx = record {
    gives = λ k at inside.
        u_lem buf n x k h hn hx at ∙ ap (λ j. some (x, k + j)) (sym (length-binary n x));
  }

  pub ue-Gives : (v : ℕ) → v + 1 < 2 ^ 31 → Gives buf len h (ue buf len) (exp_golomb v) v
  ue-Gives v small = record { gives = ue_at buf len h v small }

  pub se-Gives :
      (z : ℤ)
      → code_number z + 1 < 2 ^ 31
      → Gives buf len h (se buf len) (exp_golomb (code_number z)) z
  se-Gives z small = record {
    gives = λ k at inside.
        se_steps buf len k (code_number z) _ (ue_at buf len h (code_number z) small k at inside)
        ∙ ap (λ (y : ℤ). some (y, k + length (exp_golomb (code_number z)))) (signed-code_number z);
  }
