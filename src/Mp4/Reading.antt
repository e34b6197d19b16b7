-- ===== src/Mp4/Reading.antt =====
-- Reading the frames of a track out of the file by its tables of places and sizes.
use inc.Prelude.{
  ℕ, ◌+◌, ◌^◌, ◌<◌, ◌≡◌, refl, sym, ap, ap₂, ◌∙◌, List, [], ◌∷◌, ◌++◌, map, Bool, true, false,
  arith, length, take, drop, take_append, drop_append, append_assoc, length-append, All,
  if◌then◌else◌, Bool-cases, inl, inr,
}
use mathlib.Core.Path.{subst}
use inc.Prelude.Word.{u32}
use inc.Output.{Frame, payload, payloads}
use inc.Mp4box.{htobe32}
use inc.Mp4box.Endian.{htobe32-htobe32}
use inc.Mp4.Recording.{on_side, places, offset_of, size_of}

-- The bytes that two tables stand for, an entry of each for every sample.
abbrev pub pieces : List ℕ → List ℕ → List ℕ → List (List ℕ)
pieces file [] sizes = []
pieces file (o ∷ offsets) [] = []
pieces file (o ∷ offsets) (s ∷ sizes) =
    take (htobe32 s) (drop (htobe32 o) file) ∷ pieces file offsets sizes

-- The frames of one side in order, apart from where they are in the file.
abbrev pub side_payloads : Bool → List Frame → List (List ℕ)
side_payloads side [] = []
side_payloads side (x ∷ xs) =
    if on_side side x.ftype then payload x ∷ side_payloads side xs else side_payloads side xs

-- The bytes stand at their place, which a word can hold.
abbrev At : List ℕ → ℕ × List ℕ → Type 0
At file e = (take (length e.1) (drop e.0 file) ≡ e.1) × (e.0 < 2 ^ 32) × (length e.1 < 2 ^ 32)

read_back : (n : ℕ) → n < 2 ^ 32 → htobe32 (htobe32 (u32 n)) ≡ n
read_back n h = htobe32-htobe32 (u32 n) (omega arith) ∙ omega arith

pieces-places :
    (file : List ℕ) (es : List (ℕ × List ℕ))
    → All (At file) es
    → pieces file (map offset_of es) (map size_of es) ≡ map (λ e. e.1) es
pieces-places file [] h = refl
pieces-places file (e ∷ es) ((at, place, size), h) =
    ap₂ (λ (p : List ℕ) (ps : List (List ℕ)). p ∷ ps)
      (ap₂ (λ (n m : ℕ). take n (drop m file)) (read_back (length e.1) size) (read_back e.0 place)
        ∙ at)
      (pieces-places file es h)

middle : (a p b : List ℕ) (n : ℕ) → n ≡ length a → take (length p) (drop n (a ++ (p ++ b))) ≡ p
middle a p b n h =
    ap (take (length p)) (drop_append a (p ++ b) n h) ∙ take_append p b (length p) refl

All-place :
    (f : List ℕ) (e : ℕ × List ℕ) (es : List (ℕ × List ℕ)) (b : Bool)
    → At f e
    → All (At f) es
    → All (At f) ((if b then e ∷ [] else []) ++ es)
All-place f e es true h hs = (h, hs)
All-place f e es false h hs = hs

places-At :
    (side : Bool) (a : List ℕ) (xs : List Frame) (b : List ℕ) (n : ℕ)
    → n ≡ length a
    → n + length (payloads xs) < 2 ^ 32
    → All (At (a ++ (payloads xs ++ b))) (places side n xs)
places-At side a [] b n h small = tt
places-At side a (x ∷ xs) b n h small =
    let long : length (payload x ++ payloads xs) ≡ length (payload x) + length (payloads xs) =
      length-append (payload x) (payloads xs) in
    let file : (a ++ payload x) ++ (payloads xs ++ b) ≡ a ++ ((payload x ++ payloads xs) ++ b) =
      append_assoc a (payload x) _ ∙ ap (λ r. a ++ r) (sym (append_assoc (payload x) _ b)) in
    let others =
      places-At side (a ++ payload x) xs b (n + length (payload x))
        (omega (arith, h, length-append a (payload x))) (omega (arith, small, long)) in
    All-place (a ++ ((payload x ++ payloads xs) ++ b)) (n, payload x)
      (places side (n + length (payload x)) xs) (on_side side x.ftype)
      (
        ap (λ r. take (length (payload x)) (drop n (a ++ r)))
              (append_assoc (payload x) (payloads xs) b)
            ∙ middle a (payload x) (payloads xs ++ b) n h,
        omega (arith, small),
        omega (arith, small, long),
      )
      (subst (λ f. All (At f) (places side (n + length (payload x)) xs)) file others)

map-places :
    (side : Bool) (n : ℕ) (xs : List Frame)
    → map (λ e. e.1) (places side n xs) ≡ side_payloads side xs
map-places side n [] = refl
map-places side n (x ∷ xs) = elim (Bool-cases (on_side side x.ftype)) [
  | inl e ↦ rw e (ap (λ r. payload x ∷ r) (map-places side (n + length (payload x)) xs))
  | inr e ↦ rw e (map-places side (n + length (payload x)) xs)
]

-- The tables of the frames' places give the frames.
pub pieces-payloads :
    (side : Bool) (a : List ℕ) (xs : List Frame) (b : List ℕ)
    → length a + length (payloads xs) < 2 ^ 32
    → pieces
        (a ++ (payloads xs ++ b))
        (map offset_of (places side (length a) xs))
        (map size_of (places side (length a) xs))
      ≡ side_payloads side xs
pieces-payloads side a xs b small =
    pieces-places (a ++ (payloads xs ++ b)) (places side (length a) xs)
      (places-At side a xs b (length a) refl small)
    ∙ map-places side (length a) xs
