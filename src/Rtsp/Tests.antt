-- ===== src/Rtsp/Tests.antt =====
-- Runs of the client's parts, and the theorems at concrete inputs.
use inc.Prelude.{◌≡◌, refl, [], ◌++◌, true, false, some, arith, take}
use inc.Rtsp.{Url, Crypto, codes, crlf, scheme, parse, find_var, set_auth, get_auth, atoi}
use inc.Rtsp.Address.{host_part, full_part, parse-full_part}

abbrev blank : Url
blank = record {
  path = [];
  user = [];
  password = [];
  ip = [];
  port = 0;
  base_auth = [];
  digest_hex = [];
}

abbrev camera : Url
camera = record blank {
  path = codes "rtsp://10.0.0.7:8554/a";
  user = codes "me";
  password = codes "pw";
  ip = codes "10.0.0.7";
  port = 8554;
}

parses : parse (codes "rtsp://me:pw@10.0.0.7:8554/a") blank ≡ some (true, camera)
unfolding parse inc.Text.is_prefix inc.Rtsp.cut_at inc.Rtsp.set_host atoi inc.Rtsp.digits
parses = refl

refuses : parse (codes "http://h") blank ≡ some (false, blank)
unfolding parse inc.Text.is_prefix
refuses = refl

parse-full_part_example :
    parse
      (scheme ++ full_part (codes "me") (codes "pw") (host_part (codes "h") 554 (codes "a")))
      blank
    ≡ some (
      true,
      record {
        path = scheme ++ host_part (codes "h") 554 (codes "a");
        user = codes "me";
        password = codes "pw";
        ip = codes "h";
        port = 554;
        base_auth = [];
        digest_hex = [];
      },
    )
parse-full_part_example =
    parse-full_part (codes "me") (codes "pw") (codes "h") (codes "a") 554 blank (refl, (refl, tt))
      (refl, (refl, tt)) (refl, (refl, tt)) (refl, tt) (refl, tt) (omega arith) (omega arith)

-- Stand-ins for the code of other projects.
abbrev plain : Crypto
plain = record { md5_hash_hex = λ s. take 2 s; base64_encode = λ s. s; base64_decode = λ s. s }

authorizes :
    get_auth plain (codes "PLAY") (set_auth plain (codes "Digest realm=\"r\", nonce=\"n\"") camera)
    ≡ codes
        "Authorization: Digest username=\"me\", realm=\"r\", nonce=\"n\", uri=\"rtsp://10.0.0.7:8554/a\", response=\"me\""
      ++ crlf
unfolding get_auth set_auth find_var inc.Rtsp.contains inc.Text.find inc.Text.is_prefix
authorizes = refl
