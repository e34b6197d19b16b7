-- ===== src/Flv/Pack.antt =====
-- What `Pack` writes.
use inc.Prelude.{
  ℕ, ◌+◌, ◌-◌, ◌/◌, ◌%◌, ◌^◌, ◌<◌, ◌≡◌, refl, sym, ap, ap₂, ◌∙◌, List, [], ◌∷◌, ◌++◌, Option, some,
  ◌>>=◌, arith, length, map, append_assoc, length-append,
}
use inc.Prelude.Word.{u32}
use inc.Byte.{Slice, make_slice, offset, put_u8, put_le_u32}
use inc.Byte.Write.{le_bytes, put_u8-append, put_le_u32-append}
use inc.Flv.{Packet, pack}

-- `PutU8` for one number after another.
puts : {A : Type 0} → List ℕ → Slice → (Slice → Option A) → Option A
puts [] s k = k s
puts (n ∷ ns) s k = put_u8 s n >>= λ r. puts ns (r.0) k

abbrev low : ℕ → ℕ
low n = n % 256

slice_eq :
    {m m' : List ℕ} {i j : ℕ}
    → m ≡ m'
    → i ≡ j
    → Path Slice (record { mem = m; pos = i }) (record { mem = m'; pos = j })
slice_eq e e' = ap₂ (λ m i. record { mem = m; pos = i }) e e'

puts_run :
    {A : Type 0} (ns old w r : List ℕ) (i : ℕ) (k : Slice → Option A) (z : Option A)
    → i ≡ length w
    → length old ≡ length ns
    → k (record { mem = w ++ (map low ns ++ r); pos = i + length ns }) ≡ z
    → puts ns (record { mem = w ++ (old ++ r); pos = i }) k ≡ z
unfolding puts
puts_run [] [] w r i k z e same h =
    ap (λ (j : ℕ). k (record { mem = w ++ r; pos = j })) {y = i + 0} (omega arith) ∙ h
puts_run [] (x ∷ old) w r i k z e same h = absurd (omega arith)
puts_run (n ∷ ns) [] w r i k z e same h = absurd (omega arith)
puts_run (n ∷ ns) (x ∷ old) w r i k z e same h =
    ap (λ m. m >>= λ r'. puts ns (r'.0) k) (put_u8-append w (old ++ r) x n i e)
    ∙ puts_run ns old (w ++ (low n ∷ [])) r (i + 1) k z
        (omega (arith, length-append w (low n ∷ []))) (omega arith)
        (ap k (slice_eq (append_assoc w (low n ∷ []) (map low ns ++ r)) (omega arith)) ∙ h)

-- The eleven bytes of a tag's header, with `dlen` for the length of its data.
abbrev pub tag_bytes : ℕ → ℕ → ℕ → List ℕ
tag_bytes tag dlen ts = map low (
    tag
    ∷ dlen / 2 ^ 16
    ∷ dlen / 2 ^ 8
    ∷ dlen
    ∷ ts / 2 ^ 16
    ∷ ts / 2 ^ 8
    ∷ ts
    ∷ ts / 2 ^ 24
    ∷ 0
    ∷ 0
    ∷ 0
    ∷ [])

-- The last write of `Pack`, and its result.
finish : Packet → ℕ → Slice → Option (Packet × Slice)
finish p size s = do
  r ← put_le_u32 s size
  some (record p { buf = record (p.buf) { v = r.0.mem } }, r.0)

finish_run :
    (p : Packet) (w old back : List ℕ) (n i : ℕ)
    → i ≡ length w
    → length old ≡ 4
    → n < 2 ^ 32
    → finish p (u32 n) (record { mem = w ++ (old ++ back); pos = i })
      ≡ some (
        record p { buf = record (p.buf) { v = w ++ (le_bytes 4 n ++ back) } },
        record { mem = w ++ (le_bytes 4 n ++ back); pos = i + 4 },
      )
unfolding finish
finish_run p w old back n i e four small =
    let word : u32 n ≡ n = omega arith in
    ap (λ m. m >>= λ r. some (record p { buf = record (p.buf) { v = r.0.mem } }, r.0))
      (ap (put_le_u32 (record { mem = w ++ (old ++ back); pos = i })) word
        ∙ put_le_u32-append w back old n i e four)

-- `Pack` on a buffer of fewer than 2 ^ 32 bytes whose gap has eleven bytes or more and behind
-- whose gap stand four or more: the header is written in the last eleven bytes of the gap, with the length of the data and
-- eleven more, and the length of the buffer is written, low end first, over the first four bytes
-- of the data; all else stays.
pub pack_lem :
    (p : Packet) (tag ts : ℕ) (front gap old back : List ℕ)
    → p.buf.v ≡ front ++ (gap ++ (old ++ back))
    → length gap ≡ 11
    → length old ≡ 4
    → p.gap ≡ length front + 11
    → length (p.buf.v) < 2 ^ 32
    → pack p tag ts
      ≡ some (
        record p {
          buf = record (p.buf) {
            v =
                (front ++ tag_bytes tag (length (p.buf.v) - p.gap + 11) ts)
                ++ (le_bytes 4 (length (p.buf.v)) ++ back);
          };
        },
        record {
          mem =
              (front ++ tag_bytes tag (length (p.buf.v) - p.gap + 11) ts)
              ++ (le_bytes 4 (length (p.buf.v)) ++ back);
          pos = p.gap + 4;
        },
      )
unfolding pack make_slice offset puts finish
pack_lem p tag ts front gap old back e hg ho gap_at small =
    let size : ℕ = length (p.buf.v) in
    let dlen : ℕ = size - p.gap + 11 in
    let values : List ℕ =
      tag
      ∷ dlen / 2 ^ 16
      ∷ dlen / 2 ^ 8
      ∷ dlen
      ∷ ts / 2 ^ 16
      ∷ ts / 2 ^ 8
      ∷ ts
      ∷ ts / 2 ^ 24
      ∷ 0
      ∷ 0
      ∷ 0
      ∷ [] in
    let tail : List ℕ = front ++ tag_bytes tag dlen ts in
    ap (λ s. puts values s (finish p (u32 size))) (slice_eq e (omega arith))
    ∙ puts_run values gap front (old ++ back) (length front) (finish p (u32 size)) _ refl
        (omega arith)
        (ap (finish p (u32 size)) (
            slice_eq {j = p.gap} (sym (append_assoc front (tag_bytes tag dlen ts) (old ++ back)))
              (omega arith))
          ∙ finish_run p tail old back size (p.gap)
              (omega (arith, length-append front (tag_bytes tag dlen ts))) ho small)
