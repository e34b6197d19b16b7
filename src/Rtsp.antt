-- ===== src/Rtsp.antt =====
-- stream/rtsp.hpp: `findVar` and `librtsp::url`. A string is the list of its bytes, without the
-- zero at its end. `md5::md5_hash_hex` and `base64_encode` are other projects' code and are
-- parameters. Writing behind the 1024 bytes of `tmp` is `none`.
pub mod Sdp
pub mod Play
pub mod Client
pub mod Address
mod Tests
use Prim.Native.Char.{code}
use Prim.Native.String.{String}
use inc.Prelude.{
  ℕ, zero, suc, ◌+◌, ◌-◌, ◌*◌, ◌%◌, List, [], ◌∷◌, ◌++◌, Bool, true, false, not, ◌&&◌, ◌||◌, Option,
  none, some, ltb, leb, ◌==◌, if◌then◌else◌, length, take, drop,
}
use inc.Prelude.Int.{ℤ, pos, neg_of}
use inc.Prelude.Word.{u16}
use inc.Text.{is_prefix, find}

-- The bytes of a literal.
abbrev pub codes : String → List ℕ
codes String.[] = []
codes (String.◌∷◌ c s) = code c ∷ codes s

abbrev pub crlf : List ℕ
crlf = 13 ∷ 10 ∷ []

-- The code of other projects that the client calls.
pub record Crypto : Type 0 where
  pub md5_hash_hex : List ℕ → List ℕ
  pub base64_encode : List ℕ → List ℕ
  pub base64_decode : List ℕ → List ℕ

pub contains : List ℕ → List ℕ → Bool
contains p s = elim (find p s) [ none ↦ false | some i ↦ true ]

abbrev upto : List ℕ → List ℕ → Option ℕ → List ℕ
upto e s none = s
upto e s (some i) = take i s

abbrev var_at : List ℕ → List ℕ → List ℕ → Option ℕ → List ℕ
var_at str s e none = []
var_at str s e (some p0) = let rest = drop (p0 + length s) str in upto e rest (find e rest)

pub find_var : List ℕ → List ℕ → List ℕ → List ℕ
find_var str s e = var_at str s e (find s str)

-- `strchr`: what stands before the first such byte and behind it.
pub cut_at : ℕ → List ℕ → Option (List ℕ × List ℕ)
cut_at c [] = none
cut_at c (x ∷ s) =
    if x == c
    then some ([], s)
    else elim (cut_at c s) [ none ↦ none | some (before, after) ↦ some (x ∷ before, after) ]

-- `atoi`: spaces, a sign, and the digits up to the first byte that is none.
abbrev pub is_digit : ℕ → Bool
is_digit c = leb b'0' c && leb c b'9'

abbrev pub is_space : ℕ → Bool
is_space c = (c == 32) || (leb 9 c && leb c 13)

pub digits : ℕ → List ℕ → ℕ
digits n [] = n
digits n (c ∷ s) = let more = digits (n * 10 + (c - b'0')) s in if is_digit c then more else n

pub atoi : List ℕ → ℤ
atoi [] = pos 0
atoi (c ∷ s) =
    let skipped = atoi s in
    if is_space c
    then skipped
    else if c == b'-'
    then neg_of (digits 0 s)
    else if c == b'+'
    then pos (digits 0 s)
    else pos (digits 0 (c ∷ s))

-- The conversion of an `int` to `unsigned short`.
abbrev pub to_port : ℤ → ℕ
to_port (pos n) = u16 n
to_port (ℤ.negsuc n) = 65535 - u16 n

pub record Url : Type 0 where
  pub path : List ℕ
  pub user : List ℕ
  pub password : List ℕ
  pub ip : List ℕ
  pub port : ℕ
  pub base_auth : List ℕ
  pub digest_hex : List ℕ

abbrev pub scheme : List ℕ
scheme = b'r' ∷ b't' ∷ b's' ∷ b'p' ∷ b':' ∷ b'/' ∷ b'/' ∷ []

-- The part before the `@`.
abbrev set_user : List ℕ → Option (List ℕ × List ℕ) → Url → Url
set_user s none u = record u { user = s }
set_user s (some (name, word)) u = record u { password = word; user = name }

abbrev set_port : List ℕ → Option (List ℕ × List ℕ) → Url → Url
set_port host none u = record u { port = 554; ip = host }
set_port host (some (name, number)) u = record u { port = to_port (atoi number); ip = name }

abbrev before_or_all : List ℕ → Option (List ℕ × List ℕ) → List ℕ
before_or_all s none = s
before_or_all s (some (before, after)) = before

-- The part behind the `@`, where there is one.
pub set_host : List ℕ → Url → Url
set_host s u =
    let host = before_or_all s (cut_at b'/' s) in
    set_port host (cut_at b':' host) (record u { path = scheme ++ s })

abbrev set_parts : List ℕ → Option (List ℕ × List ℕ) → Url → Url
set_parts s none u = set_host s u
set_parts s (some (before, after)) u = set_host after (set_user before (cut_at b':' before) u)

-- `url::Parse`: whether the address is one, and the object after it.
pub parse : List ℕ → Url → Option (Bool × Url)
parse uri u =
    let u' = record u { base_auth = [] } in
    let s = drop 7 uri in
    if not (is_prefix scheme uri)
    then some (false, u')
    else if ltb (length s) 1024
    then some (true, set_parts s (cut_at b'@' s) u')
    else none

module _ (y : Crypto) where
  -- `url::SetAuth`.
  pub set_auth : List ℕ → Url → Url
  set_auth s u =
      let realm = find_var s (codes "realm=\"") (codes "\"") in
      let nonce = find_var s (codes "nonce=\"") (codes "\"") in
      if contains (codes "Basic") s
      then record u {
        base_auth =
            codes "Authorization: Basic "
            ++ (y.base64_encode (u.user ++ (codes ":" ++ u.password)) ++ crlf);
      }
      else if contains (codes "Digest") s
      then record u {
        base_auth =
            codes "Authorization: Digest "
            ++ (codes "username=\""
                ++ (u.user
                    ++ (codes "\", realm=\""
                        ++ (realm
                            ++ (codes "\", nonce=\""
                                ++ (nonce ++ (codes "\", uri=\"" ++ (u.path ++ codes "\""))))))));
        digest_hex =
            y.md5_hash_hex (u.user ++ (codes ":" ++ (realm ++ (codes ":" ++ u.password))))
            ++ (codes ":" ++ (nonce ++ codes ":"));
      }
      else u

  -- `url::GetAuth`.
  pub get_auth : List ℕ → Url → List ℕ
  get_auth type u =
      if contains (codes "Basic") u.base_auth
      then u.base_auth
      else if contains (codes "Digest") u.base_auth
      then u.base_auth
        ++ (codes ", response=\""
            ++ (y.md5_hash_hex (u.digest_hex ++ y.md5_hash_hex (type ++ (codes ":" ++ u.path)))
                ++ (codes "\"" ++ crlf)))
      else []
