-- ===== src/Sps/Emulation.antt =====
-- What `de_emulation_prevention` leaves of the bytes it is given.
use inc.Prelude.{
  ℕ, zero, suc, ◌+◌, ◌-◌, ◌^◌, ◌≤◌, ◌<◌, ◌≡◌, refl, sym, ap, ◌∙◌, List, [], ◌∷◌, ◌++◌, Bool, true,
  false, ◌&&◌, Option, none, some, arith, bit_xor, ltb, ◌==◌, if◌then◌else◌, length, not, All,
  replicate, Bool-cases, inl, inr,
}
use inc.Prelude.Word.{IsByte, u32}
use mathlib.Core.Path.{subst}
use inc.Sps.Bits.{all_below, all_below-true}
use inc.Sps.{shift, kick, de_emulation_prevention, c_str}

-- The bytes behind the window (a, b) that are kept: a 3 behind two zeros is dropped, and the byte
-- behind it is kept whatever it is.
abbrev pub strip : Bool → ℕ → ℕ → List ℕ → List ℕ
strip keep a b [] = []
strip keep a b (c ∷ t) = elim (not keep && (a == 0 && b == 0 && c == 3)) [
  | true ↦ strip true a b t
  | false ↦ c ∷ strip false b c t
]

last_of : ℕ → List ℕ → ℕ
last_of b [] = b
last_of b (c ∷ t) = last_of c t

-- The test of the code.
abbrev found : ℕ → ℕ → ℕ → Bool
found a b c = bit_xor a 0 + bit_xor b 0 + bit_xor c 3 == 0

abbrev pub three : ℕ → ℕ → ℕ → Bool
three a b c = a == 0 && b == 0 && c == 3

xor_table :
    all_below 256
      (λ x. (bit_xor x 0 == x) && (if x == 3 then bit_xor x 3 == 0 else ltb 0 (bit_xor x 3)))
    ≡ true
xor_table = refl

found_lem : (a b c : ℕ) → IsByte a → IsByte b → IsByte c → found a b c ≡ three a b c
found_lem a b c ha hb hc =
    let ta =
      all_below-true 256
        (λ x. (bit_xor x 0 == x) && (if x == 3 then bit_xor x 3 == 0 else ltb 0 (bit_xor x 3))) a
        xor_table ha in
    let tb =
      all_below-true 256
        (λ x. (bit_xor x 0 == x) && (if x == 3 then bit_xor x 3 == 0 else ltb 0 (bit_xor x 3))) b
        xor_table hb in
    let tc =
      all_below-true 256
        (λ x. (bit_xor x 0 == x) && (if x == 3 then bit_xor x 3 == 0 else ltb 0 (bit_xor x 3))) c
        xor_table hc in
    ground (arith, ta, tb, tc)

shift_run :
    (left j x e : ℕ) (t rest : List ℕ)
    → left ≡ length t + j
    → last_of x t ≡ e
    → shift left (x ∷ (t ++ (replicate j e ++ rest))) ≡ t ++ (replicate (suc j) e ++ rest)
unfolding shift last_of
shift_run zero zero x e [] rest s l = ap (λ y. y ∷ rest) l
shift_run zero (suc j) x e [] rest s l = absurd (omega arith)
shift_run zero j x e (c ∷ t) rest s l = absurd (omega arith)
shift_run (suc left) zero x e [] rest s l = absurd (omega arith)
shift_run (suc left) (suc j) x e [] rest s l =
    ap (λ p. e ∷ p) (shift_run left j e e [] rest (omega arith) refl)
shift_run (suc left) j x e (c ∷ t) rest s l =
    ap (λ p. c ∷ p) (shift_run left j c e t rest (omega arith) l)

-- Behind the bytes stand copies of the last one, in which no 3 follows two zeros.
junk_run :
    (a b n j : ℕ) (rest : List ℕ)
    → IsByte a
    → IsByte b
    → kick j (a ∷ b ∷ (replicate j b ++ rest)) n ≡ some (a ∷ b ∷ (replicate j b ++ rest), n)
unfolding kick
junk_run a b n zero rest ha hb = refl
junk_run a b n (suc j) rest ha hb =
    let not_three : three a b b ≡ false = ground arith in
    rw (found_lem a b b ha hb hb) (rw not_three (rw (junk_run b b n j rest hb hb) refl))

-- What a run of the loop leaves: the bytes that are kept, others, and the size.
abbrev pub Leaves : Option (List ℕ × ℕ) → List ℕ → ℕ → Type 0
Leaves r kept n = (junk : List ℕ) × ((r ≡ some (kept ++ junk, n)) × All IsByte junk)

All-copies :
    (j b : ℕ) (rest : List ℕ) → IsByte b → All IsByte rest → All IsByte (replicate j b ++ rest)
All-copies zero b rest hb h = h
All-copies (suc j) b rest hb h = (hb, All-copies j b rest hb h)

abbrev push : ℕ → Option (List ℕ × ℕ) → Option (List ℕ × ℕ)
push a r = elim r [ none ↦ none | some (q, m) ↦ some (a ∷ q, m) ]

Leaves-push :
    (a : ℕ) (r : Option (List ℕ × ℕ)) (kept : List ℕ) (n : ℕ)
    → Leaves r kept n
    → Leaves (push a r) (a ∷ kept) n
Leaves-push a r kept n (junk, (e, bytes)) = (junk, (ap (push a) e, bytes))

kick_miss :
    (left a b c n : ℕ) (p : List ℕ)
    → found a b c ≡ false
    → kick (suc left) (a ∷ b ∷ c ∷ p) n ≡ push a (kick left (b ∷ c ∷ p) n)
unfolding kick
kick_miss left a b c n p e = rw e refl

kick_hit :
    (left a b c n : ℕ) (p : List ℕ)
    → found a b c ≡ true
    → kick (suc left) (a ∷ b ∷ c ∷ p) n ≡ push a (kick left (b ∷ shift left (c ∷ p)) (n - 1))
unfolding kick
kick_hit left a b c n p e = rw e refl

Leaves-size :
    (r : Option (List ℕ × ℕ)) (kept : List ℕ) (n m : ℕ) → n ≡ m → Leaves r kept n → Leaves r kept m
Leaves-size r kept n m e h = subst (λ (x : ℕ). Leaves r kept x) e h

pub strip-three :
    (a b c : ℕ) (t : List ℕ) → three a b c ≡ true → strip false a b (c ∷ t) ≡ strip true a b t
strip-three a b c t e = rw (e, strip) refl

pub strip-other :
    (a b c : ℕ) (t : List ℕ) → three a b c ≡ false → strip false a b (c ∷ t) ≡ c ∷ strip false b c t
strip-other a b c t e = rw (e, strip) refl

miss_step :
    (left a b c n d : ℕ) (t p : List ℕ)
    → IsByte a
    → IsByte b
    → IsByte c
    → three a b c ≡ false
    → Leaves
        (kick left (b ∷ c ∷ p) n)
        (b ∷ c ∷ strip false b c t)
        (d + 1 + length (strip false b c t))
    → Leaves
        (kick (suc left) (a ∷ b ∷ c ∷ p) n)
        (a ∷ b ∷ strip false a b (c ∷ t))
        (d + length (strip false a b (c ∷ t)))
miss_step left a b c n d t p ha hb hc e h =
    rw (kick_miss left a b c n p (found_lem a b c ha hb hc ∙ e)) (
      subst (λ (x : List ℕ). Leaves (push a (kick left (b ∷ c ∷ p) n)) (a ∷ b ∷ x) (d + length x))
        (sym (strip-other a b c t e))
        (Leaves-size _ (a ∷ b ∷ c ∷ strip false b c t) (d + 1 + length (strip false b c t)) _
          (omega arith) (Leaves-push a _ (b ∷ c ∷ strip false b c t) _ h)))

hit_step :
    (left a b c n d : ℕ) (t p : List ℕ)
    → IsByte a
    → IsByte b
    → IsByte c
    → three a b c ≡ true
    → Leaves
        (kick left (b ∷ shift left (c ∷ p)) (n - 1))
        (b ∷ strip true a b t)
        (d + length (strip true a b t))
    → Leaves
        (kick (suc left) (a ∷ b ∷ c ∷ p) n)
        (a ∷ b ∷ strip false a b (c ∷ t))
        (d + length (strip false a b (c ∷ t)))
hit_step left a b c n d t p ha hb hc e h =
    rw (kick_hit left a b c n p (found_lem a b c ha hb hc ∙ e)) (
      subst
        (λ (x : List ℕ).
          Leaves (push a (kick left (b ∷ shift left (c ∷ p)) (n - 1))) (a ∷ b ∷ x) (d + length x))
        (sym (strip-three a b c t e)) (Leaves-push a _ (b ∷ strip true a b t) _ h))

hit_end :
    (left b e j d n : ℕ) (rest : List ℕ)
    → IsByte b
    → IsByte e
    → All IsByte rest
    → left ≡ j
    → n ≡ d + 1
    → Leaves (kick left (b ∷ e ∷ (replicate j e ++ rest)) (n - 1)) (b ∷ []) (d + 0)
hit_end left b e j d n rest hb he hr same m = (
  e ∷ (replicate j e ++ rest),
  (
    rw same (
        junk_run b e (n - 1) j rest hb he
        ∙ ap (λ (x : ℕ). some (b ∷ e ∷ (replicate j e ++ rest), x)) (omega arith)),
    (he, All-copies j e rest he hr),
  ),
)

kick_run :
    (left a b e j d n : ℕ) (t rest : List ℕ)
    → IsByte a
    → IsByte b
    → All IsByte t
    → All IsByte rest
    → last_of b t ≡ e
    → left ≡ length t + j
    → n ≡ d + length t
    → Leaves
        (kick left (a ∷ b ∷ (t ++ (replicate j e ++ rest))) n)
        (a ∷ b ∷ strip false a b t)
        (d + length (strip false a b t))
unfolding last_of
kick_run left a b e j d n [] rest ha hb ht hr l s m =
    let same : left ≡ j = omega arith in
    let run = junk_run a b n j rest ha hb in
    (
      replicate j b ++ rest,
      (
        rw same (
            subst
              (λ (x : ℕ).
                kick j (a ∷ b ∷ (replicate j x ++ rest)) n
                ≡ some (a ∷ b ∷ (replicate j b ++ rest), d + 0))
              l (run ∙ ap (λ (x : ℕ). some (a ∷ b ∷ (replicate j b ++ rest), x)) (omega arith))),
        All-copies j b rest hb hr,
      ),
    )
kick_run zero a b e j d n (c ∷ t) rest ha hb ht hr l s m = absurd (omega arith)
kick_run (suc left) a b e j d n (c ∷ []) rest ha hb ht hr l s m = elim (Bool-cases (three a b c)) [
  | inl e1 ↦ hit_step left a b c n d [] (replicate j e ++ rest) ha hb (ht.0) e1 (
      rw (shift_run left j c e [] rest (omega arith) l)
        (hit_end left b e j d n rest hb (subst IsByte l (ht.0)) hr (omega arith) (omega arith)))
  | inr e1 ↦
      miss_step left a b c n d [] (replicate j e ++ rest) ha hb (ht.0) e1
        (kick_run left b c e j (d + 1) n [] rest hb (ht.0) tt hr l (omega arith) (omega arith))
]
kick_run (suc left) a b e j d n (c ∷ c' ∷ t) rest ha hb ht hr l s m =
    elim (Bool-cases (three a b c)) [
      | inl e1 ↦
          hit_step left a b c n d (c' ∷ t) (c' ∷ (t ++ (replicate j e ++ rest))) ha hb (ht.0) e1 (
            rw (shift_run left j c e (c' ∷ t) rest (omega arith) l) (
              Leaves-size _ (b ∷ c' ∷ strip false b c' t) (d + 1 + length (strip false b c' t)) _
                (omega arith)
                (kick_run left b c' e (suc j) (d + 1) (n - 1) t rest hb (ht.1.0) (ht.1.1) hr l
                  (omega arith) (omega arith))))
      | inr e1 ↦
          miss_step left a b c n d (c' ∷ t) (c' ∷ (t ++ (replicate j e ++ rest))) ha hb (ht.0) e1 (
            kick_run left b c e j (d + 1) n (c' ∷ t) rest hb (ht.0) (ht.1) hr l (omega arith)
              (omega arith))
    ]

three_less : (n : ℕ) → 2 ≤ n → n < 2 ^ 32 → u32 (n + 2 ^ 32 - 2) ≡ n - 2
three_less n lo hi = omega arith

-- On a string of two bytes or more the loop keeps the bytes that `strip` keeps, at the front of
-- the memory, and the size is their number.
pub de_emulation_prevention_lem :
    (a b : ℕ) (t : List ℕ)
    → All IsByte (a ∷ b ∷ t)
    → length (a ∷ b ∷ t) < 2 ^ 32
    → Leaves
        (de_emulation_prevention (c_str (a ∷ b ∷ t)) (length (a ∷ b ∷ t)))
        (a ∷ b ∷ strip false a b t)
        (length (a ∷ b ∷ strip false a b t))
unfolding de_emulation_prevention
de_emulation_prevention_lem a b t h small =
    rw (three_less (length (a ∷ b ∷ t)) (omega arith) small) (
      Leaves-size _ (a ∷ b ∷ strip false a b t) (2 + length (strip false a b t)) _ (omega arith) (
        kick_run (suc (suc (length t)) - 2) a b (last_of b t) 0 2 (length (a ∷ b ∷ t)) t (0 ∷ [])
          (h.0) (h.1.0) (h.1.1) (omega arith, tt) refl (omega arith) (omega arith)))
