-- ===== src/Rtsp/Sdp.antt =====
-- stream/rtsp.hpp: `librtsp::sdp`. The numbers in the lines fit an `int`.
mod Tests
use inc.Prelude.{
  ℕ, zero, suc, ◌+◌, ◌-◌, List, [], ◌∷◌, ◌++◌, Bool, true, false, ◌&&◌, Option, none, some, ltb,
  ◌==◌, if◌then◌else◌, length, take, drop,
}
use inc.Prelude.Int.{ℤ, pos, negsuc, neg_of}
use inc.Text.{find}
use inc.Rtp.{nalu_header}
use inc.Rtsp.{Crypto, codes, contains, find_var, is_digit, is_space, digits}

pub record Media : Type 0 where
  pub format : ℤ
  pub stype : List ℕ
  pub rtpmap : List ℕ
  pub sprops : List ℕ
  pub name : List ℕ
  pub control_id : List ℕ
  pub hevc : Bool

pub record Sdp : Type 0 where
  pub content : List ℕ
  pub session : List ℕ
  pub spsvalue : List ℕ
  pub medias : List Media
  pub formats : List (ℤ × Media)

abbrev pub no_media : Media
no_media = record {
  format = pos 0;
  stype = [];
  rtpmap = [];
  sprops = [];
  name = [];
  control_id = [];
  hevc = false;
}

abbrev pub same_format : ℤ → ℤ → Bool
same_format (pos m) (pos n) = m == n
same_format (negsuc m) (negsuc n) = m == n
same_format _ _ = false

abbrev same_bytes : List ℕ → List ℕ → Bool
same_bytes [] [] = true
same_bytes (x ∷ xs) (z ∷ zs) = (x == z) && same_bytes xs zs
same_bytes _ _ = false

-- What `>>` reads of a stream: spaces are passed over; a number, or the bytes up to a space. The
-- text behind the number, `none` where there is none.
pub skip_space : List ℕ → List ℕ
skip_space [] = []
skip_space (c ∷ s) = let more = skip_space s in if is_space c then more else c ∷ s

pub after_digits : List ℕ → List ℕ
after_digits [] = []
after_digits (c ∷ s) = let more = after_digits s in if is_digit c then more else c ∷ s

pub word : List ℕ → List ℕ
word [] = []
word (c ∷ s) = let more = word s in if is_space c then [] else c ∷ more

abbrev begins_number : List ℕ → Bool
begins_number [] = false
begins_number (c ∷ s) = is_digit c

abbrev number : (ℕ → ℤ) → List ℕ → Option (ℤ × List ℕ)
number sign s = if begins_number s then some (sign (digits 0 s), after_digits s) else none

abbrev signed : List ℕ → Option (ℤ × List ℕ)
signed [] = none
signed (c ∷ s) =
    if c == b'-' then number neg_of s else if c == b'+' then number pos s else number pos (c ∷ s)

-- `sline >> it->format >> it->rtpmap`: where there is no number, 0 is stored and the rest is not read.
abbrev read_format : Option (ℤ × List ℕ) → Media → Media
read_format none m = record m { format = pos 0 }
read_format (some (n, s)) m =
    let w = word (skip_space s) in
    record m { format = n; rtpmap = elim w [ [] ↦ m.rtpmap | c ∷ cs ↦ c ∷ cs ] }

abbrev name_at : Option ℕ → Media → Media
name_at none m = m
name_at (some i) m = record m { name = take i m.rtpmap }

abbrev set_hevc : Media → Media
set_hevc m = record m { hevc = same_bytes m.name (codes "H265") }

-- `find_first_of("/")` is `find` for one byte; `rfind` is the last place.
abbrev last_part : ℕ → List ℕ → List ℕ
last_part zero s = s
last_part (suc k) s = elim (find (codes "/") s) [ none ↦ s | some i ↦ last_part k (drop (suc i) s) ]

pub rtpmap_line : List ℕ → Media → Media
rtpmap_line s m =
    let m' = read_format (signed (skip_space (drop 9 s))) m in
    set_hevc (name_at (find (codes "/") m'.rtpmap) m')

-- A line of the media that `it` points at.
pub media_line : List ℕ → Media → Media
media_line s m = elim (find (codes "a=rtpmap:") s) [
  | some i ↦ rtpmap_line s m
  | none ↦ elim (find (codes "sprop") s) [
    | some i ↦ record m { sprops = drop i s }
    | none ↦ elim (find (codes "a=control:") s) [
      | some i ↦ record m { control_id = last_part (length s) (drop (i + 10) s) }
      | none ↦ m
    ]
  ]
]

-- To the last element, where there is one.
pub on_last : (Media → Media) → List Media → List Media
on_last f [] = []
on_last f (m ∷ ms) = let rest = on_last f ms in elim ms [ [] ↦ f m ∷ [] | _ ∷ _ ↦ m ∷ rest ]

-- The first loop of `Parse`; `seen` says whether `it` has been set.
pub lines_loop : Bool → List (List ℕ) → Sdp → Sdp
lines_loop seen [] p = p
lines_loop seen (s ∷ ss) p = elim (find (codes "Session: ") s) [
  | some i ↦ lines_loop seen ss (record p { session = drop 9 s })
  | none ↦ elim (find (codes "m=") s) [
    | some i ↦
        lines_loop true ss
          (record p { medias = p.medias ++ (record no_media { stype = drop 2 s } ∷ []) })
    | none ↦
        lines_loop seen ss
          (if seen then record p { medias = on_last (media_line s) p.medias } else p)
  ]
]

pub erase_format : ℤ → List (ℤ × Media) → List (ℤ × Media)
erase_format n [] = []
erase_format n ((k, m) ∷ t) =
    let more = erase_format n t in if same_format k n then more else (k, m) ∷ more

module _ (y : Crypto) where
  abbrev part : List ℕ → List ℕ → List ℕ → List ℕ
  part sprops s e = y.base64_decode (find_var sprops s e)

  pub sets_of : Media → List ℕ
  sets_of m =
      if m.hevc
      then nalu_header
        ++ (part m.sprops (codes "sps=") (codes ";")
            ++ (nalu_header
                ++ (part m.sprops (codes "pps=") (codes ";")
                    ++ (nalu_header ++ part m.sprops (codes "vps=") (codes ";")))))
      else nalu_header
        ++ (part m.sprops (codes "sprop-parameter-sets=") (codes ",")
            ++ (nalu_header ++ part m.sprops (codes ",") (codes ",")))

  -- The second loop of `Parse`.
  pub medias_loop : List Media → Sdp → Sdp
  medias_loop [] p = p
  medias_loop (m ∷ ms) p =
      let p' = record p { formats = (m.format, m) ∷ erase_format m.format p.formats } in
      medias_loop ms
        (if contains (codes "video") m.stype then record p' { spsvalue = sets_of m } else p')

  pub parse_sdp : List (List ℕ) → Sdp → Sdp
  parse_sdp ss p = let p' = lines_loop false ss p in medias_loop p'.medias p'
