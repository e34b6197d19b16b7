-- ===== src/Rtsp/Client/Tests.antt =====
-- Runs of the client, and the theorem at a concrete input.
use inc.Prelude.{ℕ, ◌≡◌, refl, List, [], ◌∷◌, ◌++◌, some, take}
use inc.Prelude.Int.{negsuc}
use inc.Rtsp.{Url, Crypto, codes, crlf, scheme, parse, find_var, set_auth, get_auth, atoi}
use inc.Rtsp.Sdp.{Sdp}
use inc.Rtsp.Client.{
  Client, Command, options, describe, setup, play, teardown, setup_noss, setaudio, Turn, went,
  denied, do_rtsp_parse, stop,
}

abbrev blank : Url
blank = record {
  path = [];
  user = [];
  password = [];
  ip = [];
  port = 0;
  base_auth = [];
  digest_hex = [];
}

abbrev camera : Url
camera = record blank {
  path = codes "rtsp://10.0.0.7:8554/a";
  user = codes "me";
  password = codes "pw";
  ip = codes "10.0.0.7";
  port = 8554;
}

-- Stand-ins for the code of other projects.
abbrev plain : Crypto
plain = record { md5_hash_hex = λ s. take 2 s; base64_encode = λ s. s; base64_decode = λ s. s }

abbrev unknown : Sdp
unknown = record { content = []; session = []; spsvalue = []; medias = []; formats = [] }

abbrev asking : Client
asking = record {
  cmd = options;
  seq = 1;
  atype = negsuc 0;
  url = camera;
  sdp = unknown;
  out = [];
  asked = options ∷ [];
}

abbrev ok : List ℕ
ok = codes "RTSP/1.0 200 OK" ++ (crlf ++ crlf)

abbrev described : Client
described = record asking {
  cmd = describe;
  seq = 2;
  asked = describe ∷ options ∷ [];
  out =
      (codes "DESCRIBE rtsp://10.0.0.7:8554/a RTSP/1.0"
        ++ (crlf
            ++ (codes "CSeq: 1"
                ++ (crlf
                    ++ (codes "User-Agent: github/dontls"
                        ++ (crlf ++ (codes "Accept: application/sdp" ++ (crlf ++ crlf))))))))
      ∷ [];
}

answers : do_rtsp_parse plain [] ok 30 asking ≡ some (went 19 described)
unfolding do_rtsp_parse inc.Rtsp.Client.answer inc.Rtsp.Client.check_authorized
    inc.Rtsp.Client.lines inc.Rtsp.Client.find_line inc.Rtsp.Client.write_cmd inc.Rtsp.Client.print
    inc.Rtsp.Client.format get_auth find_var atoi inc.Rtsp.contains inc.Text.find inc.Text.is_prefix
answers = refl

waits : do_rtsp_parse plain [] (codes "RTSP/1.0 200") 12 asking ≡ some (went 0 asking)
unfolding do_rtsp_parse inc.Text.find inc.Text.is_prefix
waits = refl
