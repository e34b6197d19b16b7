-- ===== src/Rtp/Fragments.antt =====
-- A unit that comes in fragments.
use inc.Prelude.{
  ℕ, ◌+◌, ◌-◌, ◌*◌, ◌<◌, ◌≡◌, ◌⊎◌, All, refl, sym, ap, ◌∙◌, List, [], ◌∷◌, ◌++◌, Bool, true, false,
  ◌&&◌, ◌||◌, Option, none, some, ◌>>=◌, arith, bit_and, bit_or, ltb, leb, ◌==◌, if◌then◌else◌,
  length, take, append_assoc, append-nil, ==_iff, inl, inr,
}
use inc.Buffer.{Buffer, empty}
use mathlib.Core.Path.{subst}
use inc.Prelude.Bits.{and_mask}
use inc.Prelude.Word.{u8}
use inc.Buffer.Stream.{write-bytes, write_byte-bytes}
use inc.Rtp.{
  Header, Packet, append, append_byte, skip, append_payload, nalu_header, flags_of, append_when,
  begin_avc, unmarshal_avc, decode,
}
use inc.Sps.Bits.{all_below, all_below-true}

-- A fragment of a unit of type `t`: its marker, the start and end flags, and its bytes; `nri` is
-- the upper part of the unit's header, which the code does not read.
pub record Fragment : Type 0 where
  pub hr : Header
  pub nri : ℕ
  pub flags : ℕ
  pub chunk : List ℕ

-- The packet of a fragment, RFC 6184, 5.8.
abbrev pub packet_of : ℕ → Fragment → Packet
packet_of t f = record {
  hr = f.hr;
  payload = (f.nri * 32 + 28) ∷ (f.flags + t) ∷ f.chunk;
  size = 2 + length (f.chunk);
}

-- A step that puts `p` behind what the buffer holds.
abbrev Adds : Option Buffer → Buffer → List ℕ → Type 0
Adds m b p = (b' : Buffer) × (m ≡ some b') × (b'.v ≡ b.v ++ p)

append_run : (b : Buffer) (p : List ℕ) → Adds (append b p) b p
unfolding append
append_run b p = let (b', n, e, h) = write-bytes b p in (b', ap (λ m. m >>= λ r. some (r.0)) e, h)

append_byte_run : (b : Buffer) (x : ℕ) → Adds (append_byte b x) b (u8 x ∷ [])
unfolding append_byte
append_byte_run b x =
    let (b', n, e, h) = write_byte-bytes b x in (b', ap (λ m. m >>= λ r. some (r.0)) e, h)

chain :
    (m : Option Buffer) (f : Buffer → Option Buffer) (b : Buffer) (p q : List ℕ)
    → Adds m b p
    → ((b' : Buffer) → Adds (f b') b' q)
    → Adds (m >>= f) b (p ++ q)
chain m f b p q (b1, e1, h1) later =
    let (b2, e2, h2) = later b1 in
    (b2, ap (λ x. x >>= f) e1 ∙ e2, h2 ∙ ap (λ x. x ++ q) h1 ∙ append_assoc (b.v) p q)

append_when_run :
    (c : Bool) (b : Buffer) (p : List ℕ) → Adds (append_when c b p) b (if c then p else [])
append_when_run true b p = append_run b p
append_when_run false b p = (b, refl, sym (append-nil (b.v)))

-- What the first fragment of a unit puts in front of it: the given sets, where the unit is a key
-- unit and the buffer is empty, then a start code and a header of
-- the type with both reference bits set, whatever those of the unit are.
abbrev pub lead : List ℕ → Buffer → ℕ → List ℕ
lead e b t = (if t == 5 && empty b then e else []) ++ (nalu_header ++ (u8 (bit_or t 0x60) ∷ []))

begin_run : (e : List ℕ) (b : Buffer) (t : ℕ) → Adds (begin_avc e b t) b (lead e b t)
unfolding begin_avc
begin_run e b t =
    chain _ _ b _ _ (append_when_run (t == 5 && empty b) b e) (λ b1.
      chain _ _ b1 _ _ (append_run b1 nalu_header) (λ b2. append_byte_run b2 (bit_or t 0x60)))

begin_when :
    (start : Bool) (e : List ℕ) (b : Buffer) (t : ℕ)
    → Adds (if start then begin_avc e b t else some b) b (if start then lead e b t else [])
begin_when true e b t = begin_run e b t
begin_when false e b t = (b, refl, sym (append-nil (b.v)))

abbrev opened : ℕ → Fragment → Packet
opened t f = record (packet_of t f) { payload = f.chunk; size = length (f.chunk) }

skip_run : (t : ℕ) (f : Fragment) → skip (packet_of t f) 2 ≡ some (opened t f)
unfolding skip
skip_run t f =
    let enough : ltb (2 + length (f.chunk)) 2 ≡ false = ground arith in
    rw enough
      (ap (λ (n : ℕ). some (record (packet_of t f) { payload = f.chunk; size = n })) (omega arith))

take-all : (xs : List ℕ) → take (length xs) xs ≡ xs
take-all [] = refl
take-all (x ∷ xs) = ap (λ r. x ∷ r) (take-all xs)

payload_run : (t : ℕ) (f : Fragment) (b : Buffer) → Adds (append_payload b (opened t f)) b (f.chunk)
unfolding append_payload
payload_run t f b =
    let whole : leb (length (f.chunk)) (length (f.chunk)) ≡ true = ground arith in
    rw whole (
      subst (λ (p : List ℕ). Adds (append b p) b (f.chunk)) (sym (take-all (f.chunk)))
        (append_run b (f.chunk)))

-- What is returned for a packet of a unit of type `t`.
abbrev pub type_if_last : ℕ → Header → ℕ
type_if_last t hr = if hr.marker == 1 && (t == 1 || t == 5) then t else 0

bind_tail :
    {A B C : Type 0} (m : Option A) (k : A → Option B) (g : B → C) (b : B)
    → (m >>= k) ≡ some b
    → (m >>= λ x. k x >>= λ y. some (g y)) ≡ some (g b)
bind_tail none k g b e = absurd (ground (arith, e))
bind_tail (some x) k g b e = ap (λ r. r >>= λ y. some (g y)) e

fragment_run :
    (t : ℕ) (f : Fragment) (e : List ℕ) (b : Buffer) (start : Bool)
    → t < 32
    → flags_of (f.flags + t) ≡ f.flags
    → ltb 0 (bit_and (f.flags) 0x80) ≡ start
    → (p' : Packet) × (b' : Buffer) × (unmarshal_avc (packet_of t f) e b
        ≡ some (type_if_last t (f.hr), (p', b')))
      × (b'.v ≡ b.v ++ ((if start then lead e b t else []) ++ f.chunk))
unfolding unmarshal_avc
fragment_run t f e b start ht hf hs =
    let d0 : ℕ = f.nri * 32 + 28 in
    let fragment : (bit_and d0 0x1f == 28) ≡ true =
      (==_iff (bit_and d0 0x1f) 28).1 (and_mask 5 d0 ∙ omega arith) in
    let type : bit_and (f.flags + t - f.flags) 0x1F ≡ t =
      and_mask 5 (f.flags + t - f.flags) ∙ omega arith in
    let (b', e', h') =
      chain _ (λ b2. append_payload b2 (opened t f)) b _ _ (begin_when start e b t)
        (λ b2. payload_run t f b2) in
    (
      opened t f,
      b',
      rw (fragment, hf, type, hs, skip_run t f)
          (bind_tail _ (λ b2. append_payload b2 (opened t f))
            (λ b3. (type_if_last t (f.hr), (opened t f, b3))) b' e'),
      h',
    )

-- The fragments of a unit of type `t`, received one after another; `last` is what the packet before
-- returned.
pub receive : ℕ → List ℕ → Buffer → ℕ → List Fragment → Option (ℕ × Buffer)
receive t e b last [] = some (last, b)
receive t e b last (f ∷ fs) = elim (decode (packet_of t f) e b false) [
  | none ↦ none
  | some (r, (_, b')) ↦ receive t e b' r fs
]

abbrev pub chunks : List Fragment → List ℕ
chunks [] = []
chunks (f ∷ fs) = f.chunk ++ chunks fs

abbrev pub last_type : ℕ → ℕ → List Fragment → ℕ
last_type t r [] = r
last_type t r (f ∷ fs) = last_type t (type_if_last t (f.hr)) fs

-- A fragment that is not the first: neither flag, or the end flag.
abbrev pub IsLater : Fragment → Type 0
IsLater f = (f.flags ≡ 0) ⊎ (f.flags ≡ 64)

flags_table :
    all_below 32
      (λ t. flags_of (0 + t) == 0 && flags_of (64 + t) == 64 && flags_of (128 + t) == 128)
    ≡ true
flags_table = refl

flags_row :
    (t : ℕ)
    → t < 32
    → (flags_of (0 + t) == 0 && flags_of (64 + t) == 64 && flags_of (128 + t) == 128) ≡ true
flags_row t h =
    all_below-true 32
      (λ t. flags_of (0 + t) == 0 && flags_of (64 + t) == 64 && flags_of (128 + t) == 128) t
      flags_table h

later_run :
    (t : ℕ) (f : Fragment) (e : List ℕ) (b : Buffer)
    → t < 32
    → IsLater f
    → (p' : Packet) × (b' : Buffer) × (decode (packet_of t f) e b false
        ≡ some (type_if_last t (f.hr), (p', b')))
      × (b'.v ≡ b.v ++ f.chunk)
unfolding decode
later_run t f e b ht (inl h) =
    fragment_run t f e b false ht
      (rw h ((==_iff (flags_of (0 + t)) 0).0 (ground (arith, flags_row t ht)))) (rw h refl)
later_run t f e b ht (inr h) =
    fragment_run t f e b false ht
      (rw h ((==_iff (flags_of (64 + t)) 64).0 (ground (arith, flags_row t ht)))) (rw h refl)

rest_run :
    (t : ℕ) (fs : List Fragment) (e : List ℕ) (b : Buffer) (r : ℕ)
    → t < 32
    → All IsLater fs
    → (b' : Buffer) × (receive t e b r fs ≡ some (last_type t r fs, b')) × (b'.v ≡ b.v ++ chunks fs)
unfolding receive
rest_run t [] e b r ht h = (b, refl, sym (append-nil (b.v)))
rest_run t (f ∷ fs) e b r ht h =
    let (p1, b1, e1, h1) = later_run t f e b ht (h.0) in
    let (b2, e2, h2) = rest_run t fs e b1 (type_if_last t (f.hr)) ht (h.1) in
    (
      b2,
      ap (λ x. elim x [ none ↦ none | some (q, (_, b')) ↦ receive t e b' q fs ]) e1 ∙ e2,
      h2 ∙ ap (λ x. x ++ chunks fs) h1 ∙ append_assoc (b.v) (f.chunk) (chunks fs),
    )

-- A unit of a type below 32 that comes in fragments, the first with the start flag alone and the
-- others with the end flag or none, is put
-- behind what the buffer holds: the given sets (for a key unit in an empty buffer), a start code,
-- one byte with the type and both reference bits set, whatever reference bits the fragments carry,
-- and the bytes of the fragments in order. The last packet returns the
-- type where it has the marker and the type is 1 or 5, and 0 otherwise.
pub receive-chunks :
    (t : ℕ) (f : Fragment) (fs : List Fragment) (e : List ℕ) (b : Buffer)
    → t < 32
    → f.flags ≡ 128
    → All IsLater fs
    → (b' : Buffer) × (receive t e b 0 (f ∷ fs) ≡ some (last_type t 0 (f ∷ fs), b'))
      × (b'.v ≡ b.v ++ (lead e b t ++ chunks (f ∷ fs)))
unfolding receive decode
receive-chunks t f fs e b ht h later =
    let (p1, b1, e1, h1) =
      fragment_run t f e b true ht
        (rw h ((==_iff (flags_of (128 + t)) 128).0 (ground (arith, flags_row t ht)))) (rw h refl) in
    let (b2, e2, h2) = rest_run t fs e b1 (type_if_last t (f.hr)) ht later in
    (
      b2,
      ap (λ x. elim x [ none ↦ none | some (q, (_, b')) ↦ receive t e b' q fs ]) e1 ∙ e2,
      h2
          ∙ ap (λ x. x ++ chunks fs) h1
          ∙ append_assoc (b.v) (lead e b t ++ f.chunk) (chunks fs)
          ∙ ap (λ x. b.v ++ x) (append_assoc (lead e b t) (f.chunk) (chunks fs)),
    )
