-- ===== src/Mp4box/Track/Samples.antt =====
-- The three lists of a track after a sequence of samples.
use inc.Prelude.{
  ℕ, suc, ◌+◌, ◌^◌, ◌<◌, ◌≡◌, refl, sym, ap, ◌∙◌, List, [], ◌∷◌, ◌++◌, Bool, true, false, arith,
  length, if◌then◌else◌, append_assoc, append-nil, length-append, map,
}
use inc.Prelude.Word.{u32}
use inc.Mp4box.{htobe32}
use inc.Mp4box.Track.{Trak, append_sample}

pub record Sample : Type 0 where
  pub time : ℕ
  pub size : ℕ
  pub key : Bool

-- `AppendSample` for one sample after another, each given the offset that the one before left.
abbrev pub append_samples : Trak → ℕ → List Sample → Trak × ℕ
append_samples t offset [] = (t, offset)
append_samples t offset (s ∷ ss) =
    let (t', offset') = append_sample t (s.time) offset (s.size) (s.key) in
    append_samples t' offset' ss

abbrev pub total : List Sample → ℕ
total [] = 0
total (s ∷ ss) = s.size + total ss

-- Where each sample begins, from `offset` on.
abbrev pub starts : ℕ → List Sample → List ℕ
starts offset [] = []
starts offset (s ∷ ss) = offset ∷ starts (offset + s.size) ss

-- The numbers of the key samples, `n` samples being before.
abbrev pub key_numbers : ℕ → List Sample → List ℕ
key_numbers n [] = []
key_numbers n (s ∷ ss) = if s.key then suc n ∷ key_numbers (suc n) ss else key_numbers (suc n) ss

abbrev pub Lists : Trak × ℕ → List ℕ → List ℕ → List ℕ → ℕ → Type 0
Lists r sizes offsets keys end =
    (r.0.sizes ≡ sizes) × (r.0.offsets ≡ offsets) × (r.0.keys ≡ keys) × (r.1 ≡ end)

keys_step :
    (keys sizes : List ℕ) (x : ℕ) (key : Bool) (ss : List Sample)
    → length sizes + 1 < 2 ^ 32
    → (if key then keys ++ (htobe32 (u32 (length (sizes ++ (x ∷ [])))) ∷ []) else keys)
        ++ map htobe32 (key_numbers (length (sizes ++ (x ∷ []))) ss)
      ≡ keys
        ++ map htobe32 (
            if key
            then suc (length sizes) ∷ key_numbers (suc (length sizes)) ss
            else key_numbers (suc (length sizes)) ss)
keys_step keys sizes x key ss h =
    let e : length (sizes ++ (x ∷ [])) ≡ suc (length sizes) =
      omega (arith, length-append sizes (x ∷ [])) in
    rw e (go key)
  where
    small : u32 (suc (length sizes)) ≡ suc (length sizes)
    small = omega arith

    go :
        (key : Bool)
        → (if key then keys ++ (htobe32 (u32 (suc (length sizes))) ∷ []) else keys)
            ++ map htobe32 (key_numbers (suc (length sizes)) ss)
          ≡ keys
            ++ map htobe32 (
                if key
                then suc (length sizes) ∷ key_numbers (suc (length sizes)) ss
                else key_numbers (suc (length sizes)) ss)
    go true =
        append_assoc keys (htobe32 (u32 (suc (length sizes))) ∷ []) _
        ∙ ap (λ (k : ℕ). keys ++ (htobe32 k ∷ map htobe32 (key_numbers (suc (length sizes)) ss)))
            small
    go false = refl

-- Samples whose bytes end before 2 ^ 32, and that are fewer than 2 ^ 32 with those before, add
-- their sizes, the places where they begin, and the numbers of the key samples among them,
-- counted from 1; and the offset moves behind them.
pub append_samples-Lists :
    (t : Trak) (offset : ℕ) (ss : List Sample)
    → offset + total ss < 2 ^ 32
    → length (t.sizes) + length ss < 2 ^ 32
    → Lists
        (append_samples t offset ss)
        (t.sizes ++ map htobe32 (map (λ s. s.size) ss))
        (t.offsets ++ map htobe32 (starts offset ss))
        (t.keys ++ map htobe32 (key_numbers (length (t.sizes)) ss))
        (offset + total ss)
unfolding append_sample
append_samples-Lists t offset [] h n = (
  sym (append-nil (t.sizes)),
  sym (append-nil (t.offsets)),
  sym (append-nil (t.keys)),
  omega arith,
)
append_samples-Lists t offset (s ∷ ss) h n =
    let moved : u32 (offset + s.size) ≡ offset + s.size = omega arith in
    let (sizes, offsets, keys, end) =
      append_samples-Lists (append_sample t (s.time) offset (s.size) (s.key)).0
        (u32 (offset + s.size)) ss (omega arith)
        (omega (arith, length-append (t.sizes) (htobe32 (s.size) ∷ []))) in
    (
      sizes ∙ append_assoc (t.sizes) (htobe32 (s.size) ∷ []) _,
      offsets
          ∙ append_assoc (t.offsets) (htobe32 offset ∷ []) _
          ∙ ap (λ (o : ℕ). t.offsets ++ (htobe32 offset ∷ map htobe32 (starts o ss))) moved,
      keys ∙ keys_step (t.keys) (t.sizes) (htobe32 (s.size)) (s.key) ss (omega arith),
      end ∙ omega (arith, moved),
    )
