-- ===== src/Output/Stream.antt =====
-- Writing at the end of a file and over a part of it, and the bytes at a pointer.
use inc.Prelude.{
  ℕ, ◌+◌, ◌<◌, ◌^◌, ◌≡◌, refl, sym, ap, ◌∙◌, List, [], ◌∷◌, ◌++◌, arith, some, true, append-nil,
  append_assoc, length, length-append, take, drop, take_append, drop_append, drop_all, drop-drop,
  ltb, inl, inr, length-take_le, le-cases, ltb-true,
}
use inc.Prelude.Word.{u32}
use inc.Output.{File, fwrite, bytes_at, box_at}
use inc.Mp4box.Entries.{zeros}

-- A file whose place is its end.
abbrev pub at_end : List ℕ → File
at_end c = record { content = c; pos = length c }

pub fwrite-at_end : (bs c : List ℕ) → fwrite bs (at_end c) ≡ at_end (c ++ bs)
unfolding fwrite
fwrite-at_end [] c = ap at_end (sym (append-nil c))
fwrite-at_end (b ∷ bs) c = rw (take_append c (zeros (length c)) (length c) refl) (
    rw (drop_all c (length c + length (b ∷ bs)) (omega arith))
      (rw (append-nil (b ∷ bs), length-append c (b ∷ bs)) refl))

drop_over : (a old b : List ℕ) (n : ℕ) → n ≡ length old → drop (length a + n) (a ++ (old ++ b)) ≡ b
drop_over a old b n e =
    sym (drop-drop n (length a) (a ++ (old ++ b)))
    ∙ ap (drop n) (drop_append a (old ++ b) (length a) refl)
    ∙ drop_append old b n e

-- Over as many bytes inside of the file.
pub fwrite_over :
    (a new old b : List ℕ) (n : ℕ)
    → n ≡ length a
    → length new ≡ length old
    → (fwrite new (record { content = a ++ (old ++ b); pos = n })).content ≡ a ++ (new ++ b)
unfolding fwrite
fwrite_over a [] [] b n e h = refl
fwrite_over a [] (y ∷ old) b n e h = absurd (omega arith)
fwrite_over a (x ∷ new) old b n e h = rw e (
    rw (append_assoc a (old ++ b) (zeros (length a))) (
      rw (take_append a ((old ++ b) ++ zeros (length a)) (length a) refl)
        (rw (drop_over a old b (length (x ∷ new)) h) refl)))

pub bytes_at-some :
    (p : List ℕ) (n : ℕ) {bs : List ℕ} → bytes_at p n ≡ some bs → (bs ≡ take n p) × (length bs ≡ n)
unfolding bytes_at
bytes_at-some p n e = elim (le-cases n (length p)) [
  | inl h ↦ (ground arith, ground (arith, length-take_le n p))
  | inr h ↦ absurd (ground arith)
]

pub bytes_at_all :
    (p : List ℕ) (n : ℕ) {bs : List ℕ} → n ≡ length p → bytes_at p n ≡ some bs → bs ≡ p
bytes_at_all p n h e =
    (bytes_at-some p n e).0 ∙ ap (take n) (sym (append-nil p)) ∙ take_append p [] n h

pub box_at_all :
    (p : List ℕ) (n : ℕ) {bs : List ℕ} → n ≡ length p → n < 2 ^ 31 → box_at p n ≡ some bs → bs ≡ p
unfolding box_at
box_at_all p n h small e =
    let word : u32 n ≡ n = omega arith in
    let fits : ltb n (2 ^ 31) ≡ true = ltb-true n (2 ^ 31) small in
    let plain : box_at p n ≡ bytes_at p n = rw (word, fits) refl in
    bytes_at_all p n h (sym plain ∙ e)
