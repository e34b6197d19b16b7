-- ===== src/Rtsp/Play/Tests.antt =====
-- A run of the callback, and the theorem at a concrete input.
use inc.Prelude.{
  ℕ, ◌≤◌, ◌≡◌, refl, List, [], ◌∷◌, ◌++◌, Bool, true, false, some, arith, replicate, take,
}
use inc.Prelude.Int.{pos}
use inc.Buffer.{make}
use inc.Rtsp.{Crypto, codes, crlf}
use inc.Rtsp.Sdp.{no_media}
use inc.Rtsp.Client.{Client, options, describe, make_client, begin_play}
use inc.Rtsp.Client.Handshake.{IsOrdered}
use inc.Rtsp.Play.{Frame, Player, Read, took, on_read}
use inc.Rtsp.Play.Reading.{no_call, play_in_order}

abbrev plain : Crypto
plain = record { md5_hash_hex = λ s. take 2 s; base64_encode = λ s. s; base64_decode = λ s. s }

abbrev quiet : Player ℕ
quiet = record { client = make_client false; dbuf = make; app = 0; forwarded = [] }

-- An interleaved packet of twelve bytes and one byte of the next.
abbrev packet : List ℕ
packet = b'$' ∷ 0 ∷ 0 ∷ 12 ∷ (128 ∷ 96 ∷ replicate 10 0)

abbrev fed : Player ℕ
fed = record quiet {
  forwarded = packet ∷ [];
  client = record (make_client false) {
    sdp = record (make_client false).sdp { formats = (pos 96, no_media) ∷ [] };
  };
}

abbrev watch : ℕ → Frame → ℕ × Bool
watch n frame = (n, false)

reads :
    on_read (some watch) true plain [] false (packet ++ (b'$' ∷ [])) 17 quiet
    ≡ some (took (pos 16) fed)
unfolding on_read inc.Rtsp.Play.give_media inc.Rtsp.Play.media_of inc.Rtp.unmarshal inc.Rtp.uint16
    inc.Rtp.uint32
reads = refl

waits :
    on_read (some watch) true plain [] false (take 15 packet) 15 quiet ≡ some (took (pos 0) quiet)
unfolding on_read inc.Rtp.uint16
waits = refl

abbrev begun : Player ℕ
begun = record quiet {
  client = record (make_client false) {
    url = record (make_client false).url { path = codes "rtsp://h/a"; ip = codes "h"; port = 554 };
    seq = 1;
    asked = options ∷ [];
    out =
        (codes "OPTIONS rtsp://h/a RTSP/1.0"
          ++ (crlf
              ++ (codes "CSeq: 0"
                  ++ (crlf ++ (codes "User-Agent: github/dontls" ++ (crlf ++ crlf))))))
        ∷ [];
  };
}

begins : begin_play plain [] (codes "rtsp://h/a") (make_client false) ≡ some (true, begun.client)
unfolding begin_play inc.Rtsp.Client.write_cmd inc.Rtsp.Client.print inc.Rtsp.Client.format
    inc.Rtsp.parse inc.Rtsp.cut_at inc.Rtsp.set_host inc.Text.is_prefix
begins = refl

abbrev ok : List ℕ
ok = codes "RTSP/1.0 200 OK" ++ (crlf ++ crlf)

abbrev described : Player ℕ
described = record begun {
  client = record begun.client {
    cmd = describe;
    seq = 2;
    asked = describe ∷ options ∷ [];
    out =
        (codes "DESCRIBE rtsp://h/a RTSP/1.0"
          ++ (crlf
              ++ (codes "CSeq: 1"
                  ++ (crlf
                      ++ (codes "User-Agent: github/dontls"
                          ++ (crlf ++ (codes "Accept: application/sdp" ++ (crlf ++ crlf))))))))
        ∷ begun.client.out;
  };
}

describes : on_read (some watch) true plain [] false ok 19 begun ≡ some (took (pos 19) described)
unfolding on_read inc.Rtsp.Play.until_zero inc.Rtsp.Client.do_rtsp_parse inc.Rtsp.Client.answer
    inc.Rtsp.Client.check_authorized inc.Rtsp.Client.lines inc.Rtsp.Client.find_line
    inc.Rtsp.Client.write_cmd inc.Rtsp.Client.print inc.Rtsp.Client.format inc.Rtsp.get_auth
    inc.Rtsp.find_var inc.Rtsp.atoi inc.Rtsp.contains inc.Text.find inc.Text.is_prefix
describes = refl

play_in_order_example : IsOrdered begun.client.asked × (19 ≤ 19)
play_in_order_example =
    play_in_order (some watch) true plain [] (codes "rtsp://h/a") false true begun begun described
      false ok 19 (pos 19) begins no_call (omega arith) describes
