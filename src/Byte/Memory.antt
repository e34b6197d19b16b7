-- ===== src/Byte/Memory.antt =====
-- The effect of the assignments of a writer on the block of memory.
use inc.Prelude.{
  ℕ, zero, suc, ◌+◌, ◌≤◌, ◌<◌, ◌≡◌, refl, sym, ap, ◌∙◌, List, [], ◌∷◌, ◌++◌, none, some, ◌>>=◌,
  >>=-eq-some, arith, length, take, drop, append_assoc, length-append, length-take_le, length-drop,
  take-append-drop, Option-cases, inl, inr,
}
use inc.Byte.{store, store_all}

store-append :
    (front back : List ℕ) (x b i : ℕ)
    → i ≡ length front
    → store (front ++ (x ∷ back)) i b ≡ some (front ++ (b ∷ back))
unfolding store
store-append [] back x b zero e = refl
store-append [] back x b (suc i) e = absurd (omega arith)
store-append (y ∷ front) back x b zero e = absurd (omega arith)
store-append (y ∷ front) back x b (suc i) e =
    ap (λ m. m >>= λ r. some (y ∷ r)) (store-append front back x b i (omega arith))

-- Where the bytes fit they replace as many old ones, and the rest of the block stays.
pub store_all-append :
    (bs old front back : List ℕ) (i : ℕ)
    → i ≡ length front
    → length old ≡ length bs
    → store_all (front ++ (old ++ back)) i bs ≡ some (front ++ (bs ++ back))
unfolding store_all
store_all-append [] [] front back i e h = refl
store_all-append [] (x ∷ old) front back i e h = absurd (omega arith)
store_all-append (b ∷ bs) [] front back i e h = absurd (omega arith)
store_all-append (b ∷ bs) (x ∷ old) front back i e h =
    let later : store_all ((front ++ (b ∷ [])) ++ (old ++ back)) (i + 1) bs
        ≡ some ((front ++ (b ∷ [])) ++ (bs ++ back)) =
      store_all-append bs old (front ++ (b ∷ [])) back (i + 1)
        (omega (arith, length-append front (b ∷ []))) (omega arith) in
    ap (λ m. m >>= λ m'. store_all m' (i + 1) bs) (store-append front (old ++ back) x b i e)
    ∙ rw (append_assoc front (b ∷ []) (old ++ back), append_assoc front (b ∷ []) (bs ++ back)) at
        later

-- The same for any block, cut at the cursor.
pub store_all_lem :
    (mem bs : List ℕ) (i : ℕ)
    → i + length bs ≤ length mem
    → store_all mem i bs ≡ some (take i mem ++ (bs ++ drop (length bs) (drop i mem)))
store_all_lem mem bs i h =
    let rest : List ℕ = drop i mem in
    let long : length bs ≤ length rest = omega (arith, length-drop i mem) in
    ap (λ m. store_all m i bs) (sym whole)
    ∙ store_all-append bs (take (length bs) rest) (take i mem) (drop (length bs) rest) i
        (sym (length-take_le i mem (omega arith))) (length-take_le (length bs) rest long)
  where
    whole : take i mem ++ (take (length bs) (drop i mem) ++ drop (length bs) (drop i mem)) ≡ mem
    whole = rw (take-append-drop (length bs) (drop i mem)) (take-append-drop i mem)

store-out : (mem : List ℕ) (i b : ℕ) → length mem ≤ i → store mem i b ≡ none
unfolding store
store-out [] i b h = refl
store-out (x ∷ mem) zero b h = absurd (omega arith)
store-out (x ∷ mem) (suc i) b h =
    ap (λ m. m >>= λ r. some (x ∷ r)) (store-out mem i b (omega arith))

length-store :
    (mem : List ℕ) (i b : ℕ) (m : List ℕ) → store mem i b ≡ some m → length m ≡ length mem
unfolding store
length-store [] i b m e = cc
length-store (x ∷ mem) zero b m e = ground arith
length-store (x ∷ mem) (suc i) b m e = elim (Option-cases (store mem i b)) [
  | inl none_e ↦ ground (arith, none_e)
  | inr (r, some_e) ↦ ground (arith, some_e, length-store mem i b r some_e)
]

pub length-store_all :
    (bs mem : List ℕ) (i : ℕ) {m : List ℕ} → store_all mem i bs ≡ some m → length m ≡ length mem
unfolding store_all
length-store_all [] mem i e = ground arith
length-store_all (b ∷ bs) mem i e =
    let (m', stored, rest) = >>=-eq-some (store mem i b) _ e in
    length-store_all bs m' (i + 1) rest ∙ length-store mem i b m' stored

-- Bytes that do not fit are a write out of the block.
pub store_all-out :
    (bs mem : List ℕ) (i : ℕ)
    → 0 < length bs
    → length mem < i + length bs
    → store_all mem i bs ≡ none
unfolding store_all
store_all-out [] mem i p h = absurd (omega arith)
store_all-out (b ∷ []) mem i p h = rw (store-out mem i b (omega arith))
store_all-out (b ∷ b' ∷ bs) mem i p h = elim (Option-cases (store mem i b)) [
  | inl none_e ↦ rw none_e
  | inr (m, some_e) ↦ rw some_e (
      store_all-out (b' ∷ bs) m (i + 1) (omega arith)
        (omega (arith, length-store mem i b m some_e)))
]
