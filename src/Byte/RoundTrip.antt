-- ===== src/Byte/RoundTrip.antt =====
-- Reading back what was written with a `Slice`.
use inc.Prelude.{
  ℕ, zero, suc, ◌+◌, ◌*◌, ◌/◌, ◌%◌, ◌≤◌, ◌<◌, ◌≡◌, ◌≢◌, refl, sym, ap, ◌∙◌, List, [], ◌∷◌, ◌++◌,
  Option, ◌>>=◌, arith, length, take, drop, All, append_assoc, length-append, length-take_le,
  get_or-append, get_or,
}
use inc.Prelude.Word.{IsByte}
use mathlib.Core.Path.{subst}
use inc.Byte.{Slice, offset}
use inc.Byte.Char.{above, smeared_down}
use inc.Byte.Write.{
  Endian, Width, le, be, w16, size, bytes, le_bytes, be_bytes, writer, written, put-written,
}
use inc.Byte.Read.{window, value, reader, found, reader-value}

window-append :
    (bs front back : List ℕ) (p : ℕ)
    → p ≡ length front
    → window (front ++ (bs ++ back)) p (length bs) ≡ bs
window-append [] front back p e = refl
window-append (b ∷ bs) front back p e =
    let head : get_or (front ++ (b ∷ (bs ++ back))) p 0 ≡ b =
      get_or-append front (b ∷ (bs ++ back)) p 0 0 (omega arith) in
    let tail : window ((front ++ (b ∷ [])) ++ (bs ++ back)) (p + 1) (length bs) ≡ bs =
      window-append bs (front ++ (b ∷ [])) back (p + 1)
        (omega (arith, length-append front (b ∷ []))) in
    rw head (ap (λ r. b ∷ r) (rw (append_assoc front (b ∷ []) (bs ++ back)) at tail))

length-le_bytes : (w n : ℕ) → length (le_bytes w n) ≡ w
length-le_bytes zero n = refl
length-le_bytes (suc w) n = ap suc (length-le_bytes w (n / 256))

length-be_bytes : (w n : ℕ) → length (be_bytes w n) ≡ w
length-be_bytes zero n = refl
length-be_bytes (suc w) n =
    omega (arith, length-append (be_bytes w (n / 256)) (n % 256 ∷ []), length-be_bytes w (n / 256))

length-bytes : (o : Endian) (w n : ℕ) → length (bytes o w n) ≡ w
length-bytes le w n = length-le_bytes w n
length-bytes be w n = length-be_bytes w n

All-append {ℓ κ} :
    {A : Type ℓ} (P : A → Type κ) (xs ys : List A) → All P xs → All P ys → All P (xs ++ ys)
All-append P [] ys h k = k
All-append P (x ∷ xs) ys h k = (h.0, All-append P xs ys h.1 k)

bytes-IsByte : (o : Endian) (w n : ℕ) → All IsByte (bytes o w n)
bytes-IsByte le zero n = tt
bytes-IsByte le (suc w) n = (omega arith, bytes-IsByte le w (n / 256))
bytes-IsByte be zero n = tt
bytes-IsByte be (suc w) n =
    All-append IsByte (be_bytes w (n / 256)) (n % 256 ∷ []) (bytes-IsByte be w (n / 256))
      (omega arith, tt)

smeared_down-append :
    (xs : List ℕ) (b j v : ℕ)
    → smeared_down j v (xs ++ (b ∷ [])) ≡ above (j + 8 * length xs) b (smeared_down j v xs)
smeared_down-append [] b j v = ap (λ k. above k b v) (omega arith)
smeared_down-append (x ∷ xs) b j v =
    smeared_down-append xs b (j + 8) (above j x v)
    ∙ ap (λ k. above k b (smeared_down (j + 8) (above j x v) xs)) (omega arith)

-- A number of `w` bytes all of which but the highest are below 128.
abbrev pub IsPlain : ℕ → ℕ → Type 0
IsPlain zero n = n ≡ 0
IsPlain (suc zero) n = n < 256
IsPlain (suc (suc w)) n = (n % 256 < 128) × IsPlain (suc w) (n / 256)

value-bytes : (o : Endian) (w n : ℕ) → IsPlain w n → value o (bytes o w n) ≡ n
value-bytes le zero n h = sym h
value-bytes le (suc zero) n h = ground arith
value-bytes le (suc (suc w)) n h = ground (arith, value-bytes le (suc w) (n / 256) h.1)
value-bytes be zero n h = sym h
value-bytes be (suc zero) n h = ground arith
value-bytes be (suc (suc w)) n h = ground (
  arith,
  value-bytes be (suc w) (n / 256) h.1,
  smeared_down-append (be_bytes (suc w) (n / 256)) (n % 256) 0 0,
)

-- A writer at the cursor, the cursor set back, a reader of the same order and width.
abbrev pub write_read : Endian → Width → Slice → ℕ → Option (ℕ × Slice)
write_read o w s n = do (t, d) ← writer o w s n; reader o w (offset t s.pos)

-- Reading back returns the number that the written bytes are read as.
pub write_read-value :
    (o : Endian) (w : Width) (s : Slice) (n : ℕ)
    → s.pos + size w ≤ length s.mem
    → write_read o w s n
      ≡ found (written s (bytes o (size w) n)).0.mem (value o (bytes o (size w) n)) (s.pos + size w)
unfolding offset
write_read-value o w s n h = rw (put-written o w s n h) (
    reader-value o w mem' s.pos room (rw win (bytes-IsByte o (size w) n))
    ∙ ap (λ bs. found mem' (value o bs) (s.pos + size w)) win)
  where
    new : List ℕ
    new = bytes o (size w) n

    long : length new ≡ size w
    long = length-bytes o (size w) n

    mem' : List ℕ
    mem' = (written s new).0.mem

    win : window mem' s.pos (size w) ≡ new
    win =
        subst (λ k. window mem' s.pos k ≡ new) long
          (window-append new (take s.pos s.mem) (drop (length new) (drop s.pos s.mem)) s.pos
            (sym (length-take_le s.pos s.mem (omega arith))))

    room : s.pos + size w ≤ length mem'
    room = omega (
      arith,
      long,
      length-take_le s.pos s.mem (omega arith),
      length-append (take s.pos s.mem) (new ++ drop (length new) (drop s.pos s.mem)),
      length-append new (drop (length new) (drop s.pos s.mem)),
    )

-- A number all of whose bytes but the highest are below 128 comes back from memory as it was
-- written, with the cursor behind it, in both byte orders and all four widths.
pub write_read-plain :
    (o : Endian) (w : Width) (s : Slice) (n : ℕ)
    → s.pos + size w ≤ length s.mem
    → IsPlain (size w) n
    → write_read o w s n ≡ found (written s (bytes o (size w) n)).0.mem n (s.pos + size w)
write_read-plain o w s n h plain =
    write_read-value o w s n h
    ∙ ap (λ v. found (written s (bytes o (size w) n)).0.mem v (s.pos + size w))
        (value-bytes o (size w) n plain)

-- A 16-bit number whose low byte is 128 or more and whose high byte is not 255 does not come
-- back: the low byte is read with its sign, and the high byte is lost to ones.
pub write_read_sign :
    (o : Endian) (s : Slice) (n : ℕ)
    → s.pos + 2 ≤ length s.mem
    → n < 65536
    → 128 ≤ n % 256
    → n / 256 < 255
    → (write_read o w16 s n ≡ found (written s (bytes o 2 n)).0.mem (65280 + n % 256) (s.pos + 2))
      × (65280 + n % 256 ≢ n)
write_read_sign o s n h top low high = (
  write_read-value o w16 s n h
      ∙ ap (λ v. found (written s (bytes o 2 n)).0.mem v (s.pos + 2)) (lost o),
  omega arith,
)
  where
    lost : (o : Endian) → value o (bytes o 2 n) ≡ 65280 + n % 256
    lost le = ground arith
    lost be = ground arith
