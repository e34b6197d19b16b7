-- ===== src/Rtsp/Address.antt =====
-- `url::Parse` takes an address apart into what it was put together from.
use native.Mathlib.Nat.{pow-suc}
use inc.Prelude.{
  ℕ, zero, suc, ◌+◌, ◌-◌, ◌*◌, ◌/◌, ◌%◌, ◌^◌, ◌<◌, ◌≡◌, ◌∙◌, refl, ap, sym, List, [], ◌∷◌, ◌++◌,
  true, false, none, some, arith, All, length, ltb, ◌==◌, if◌then◌else◌, le-cases, ltb-true,
  ltb-false, inl, inr, append_assoc,
}
use inc.Prelude.Int.{pos}
use inc.Prelude.Word.{u16}
use inc.Text.Join.{is_prefix-append}
use inc.Rtsp.{Url, parse, cut_at, digits, atoi, is_digit, is_space, set_host, scheme}

abbrev pub Lacks : ℕ → List ℕ → Type 0
Lacks c xs = All (λ x. (x == c) ≡ false) xs

cut_at-found : (c : ℕ) (xs ys : List ℕ) → Lacks c xs → cut_at c (xs ++ (c ∷ ys)) ≡ some (xs, ys)
unfolding cut_at
cut_at-found c [] ys h = ground arith
cut_at-found c (x ∷ xs) ys h = rw (cut_at, h.0, cut_at-found c xs ys h.1) refl

cut_at-missing : (c : ℕ) (xs : List ℕ) → Lacks c xs → cut_at c xs ≡ none
unfolding cut_at
cut_at-missing c [] h = refl
cut_at-missing c (x ∷ xs) h = rw (cut_at, h.0, cut_at-missing c xs h.1) refl

-- The digits of a number, the high one first; `fuel` is as many digits as may be needed.
abbrev pub decimal : ℕ → ℕ → List ℕ
decimal zero n = []
decimal (suc k) n =
    let more = decimal k (n / 10) in
    if ltb n 10 then (b'0' + n) ∷ [] else more ++ ((b'0' + n % 10) ∷ [])

abbrev AreDigits : List ℕ → Type 0
AreDigits xs = All (λ c. is_digit c ≡ true) xs

digits-last :
    (n d : ℕ) (xs : List ℕ)
    → AreDigits xs
    → is_digit d ≡ true
    → digits n (xs ++ (d ∷ [])) ≡ digits n xs * 10 + (d - b'0')
unfolding digits
digits-last n d [] h e = rw e refl
digits-last n d (c ∷ xs) h e = rw (digits, h.0) (digits-last (n * 10 + (c - b'0')) d xs h.1 e)

AreDigits-last :
    (d : ℕ) (xs : List ℕ) → AreDigits xs → is_digit d ≡ true → AreDigits (xs ++ (d ∷ []))
AreDigits-last d [] h e = (e, tt)
AreDigits-last d (c ∷ xs) h e = (h.0, AreDigits-last d xs h.1 e)

digit-is_digit : (n : ℕ) → n < 10 → is_digit (b'0' + n) ≡ true
digit-is_digit n h = ground arith

decimal_lem : (k n : ℕ) → n < 10 ^ k → AreDigits (decimal k n) × (digits 0 (decimal k n) ≡ n)
unfolding digits
decimal_lem zero n h = (tt, omega arith)
decimal_lem (suc k) n h = elim (le-cases 10 n) [
  | inl big ↦
      let (d, v) = decimal_lem k (n / 10) (omega (arith, pow-suc 10 k)) in
      let last = digit-is_digit (n % 10) (omega arith) in
      rw (ltb-false n 10 big) (
        AreDigits-last (b'0' + n % 10) (decimal k (n / 10)) d last,
        digits-last 0 (b'0' + n % 10) (decimal k (n / 10)) d last ∙ omega (arith, v),
      )
  | inr small ↦
      rw (ltb-true n 10 small)
        ((digit-is_digit n small, tt), rw (digits, digit-is_digit n small) (omega arith))
]

digit_plain :
    (c : ℕ)
    → is_digit c ≡ true
    → (is_space c ≡ false) × ((c == b'-') ≡ false) × ((c == b'+') ≡ false) × ((c == b'/') ≡ false)
digit_plain c h = ground arith

AreDigits-Lacks : (xs : List ℕ) → AreDigits xs → Lacks b'/' xs
AreDigits-Lacks [] h = tt
AreDigits-Lacks (c ∷ xs) h = ((digit_plain c h.0).3, AreDigits-Lacks xs h.1)

atoi-digits : (xs : List ℕ) → AreDigits xs → atoi xs ≡ pos (digits 0 xs)
unfolding atoi digits
atoi-digits [] h = refl
atoi-digits (c ∷ xs) h = let (s, m, p, _) = digit_plain c h.0 in rw (s, m, p, h.0) refl

Lacks-append : (c : ℕ) (xs ys : List ℕ) → Lacks c xs → Lacks c ys → Lacks c (xs ++ ys)
Lacks-append c [] ys h k = k
Lacks-append c (x ∷ xs) ys h k = (h.0, Lacks-append c xs ys h.1 k)

-- What stands behind the `@`: a host, a port and a path.
abbrev pub host_part : List ℕ → ℕ → List ℕ → List ℕ
host_part ip port rest = ip ++ (b':' ∷ (decimal 5 port ++ (b'/' ∷ rest)))

set_host_lem :
    (ip rest : List ℕ) (port : ℕ) (u : Url)
    → Lacks b'/' ip
    → Lacks b':' ip
    → port < 2 ^ 16
    → set_host (host_part ip port rest) u
      ≡ record u { path = scheme ++ host_part ip port rest; port = port; ip = ip }
unfolding set_host
set_host_lem ip rest port u h k small =
    let (d, v) = decimal_lem 5 port (omega arith) in
    let front =
      Lacks-append b'/' ip (b':' ∷ decimal 5 port) h (refl, AreDigits-Lacks (decimal 5 port) d) in
    let slash : cut_at b'/' (host_part ip port rest) ≡ some (ip ++ (b':' ∷ decimal 5 port), rest) =
      ap (cut_at b'/') (sym (append_assoc ip (b':' ∷ decimal 5 port) (b'/' ∷ rest)))
      ∙ cut_at-found b'/' (ip ++ (b':' ∷ decimal 5 port)) rest front in
    let number = atoi-digits (decimal 5 port) d ∙ ap pos v in
    let fits : u16 port ≡ port = omega arith in
    rw (set_host, slash, cut_at-found b':' ip (decimal 5 port) k, number, fits) refl

-- An address with a user and a password.
abbrev pub full_part : List ℕ → List ℕ → List ℕ → List ℕ
full_part user word host = user ++ (b':' ∷ (word ++ (b'@' ∷ host)))

-- `Parse` of rtsp://user:password@ip:port/rest gives back the five parts, with the address without the
-- credentials as the path, when the whole fits the buffer, the port is below 65536 and no
-- part holds a character that the code takes for the next separator: no `@` or `:` in the user, no
-- `@` in the password, no `/` or `:` in the host.
pub parse-full_part :
    (user word ip rest : List ℕ) (port : ℕ) (u : Url)
    → Lacks b'@' user
    → Lacks b':' user
    → Lacks b'@' word
    → Lacks b'/' ip
    → Lacks b':' ip
    → port < 2 ^ 16
    → length (full_part user word (host_part ip port rest)) < 1024
    → parse (scheme ++ full_part user word (host_part ip port rest)) u
      ≡ some (
        true,
        record {
          path = scheme ++ host_part ip port rest;
          user = user;
          password = word;
          ip = ip;
          port = port;
          base_auth = [];
          digest_hex = u.digest_hex;
        },
      )
unfolding parse
parse-full_part user word ip rest port u ua uc wa is ic small fits =
    let host = host_part ip port rest in
    let s = full_part user word host in
    let v = record u { base_auth = [] } in
    let at : cut_at b'@' s ≡ some (user ++ (b':' ∷ word), host) =
      ap (cut_at b'@') (sym (append_assoc user (b':' ∷ word) (b'@' ∷ host)))
      ∙ cut_at-found b'@' (user ++ (b':' ∷ word)) host
          (Lacks-append b'@' user (b':' ∷ word) ua (refl, wa)) in
    let colon = cut_at-found b':' user word uc in
    let set = set_host_lem ip rest port (record v { password = word; user = user }) is ic small in
    rw (parse, is_prefix-append scheme s, ltb-true (length s) 1024 fits, at, colon, set) refl
