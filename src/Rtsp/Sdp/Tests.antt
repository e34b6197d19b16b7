-- ===== src/Rtsp/Sdp/Tests.antt =====
-- A description of a session, read.
use inc.Prelude.{◌≡◌, refl, [], ◌∷◌, take}
use inc.Prelude.Int.{pos}
use inc.Rtsp.{Url, Crypto, codes, crlf, scheme, parse, find_var, set_auth, get_auth, atoi}
use inc.Rtsp.Sdp.{Media, Sdp, no_media, parse_sdp}

-- Stand-ins for the code of other projects.
abbrev plain : Crypto
plain = record { md5_hash_hex = λ s. take 2 s; base64_encode = λ s. s; base64_decode = λ s. s }

abbrev video : Media
video = record no_media {
  format = pos 96;
  stype = codes "video 0 RTP/AVP 96";
  rtpmap = codes "H264/90000";
  sprops = codes "sprop-parameter-sets=AB,CD";
  name = codes "H264";
  control_id = codes "t1";
}

abbrev unknown : Sdp
unknown = record { content = []; session = []; spsvalue = []; medias = []; formats = [] }

describes :
    parse_sdp plain
      (codes "v=0"
        ∷ codes "m=video 0 RTP/AVP 96"
        ∷ codes "a=rtpmap:96 H264/90000"
        ∷ codes "a=fmtp:96 sprop-parameter-sets=AB,CD"
        ∷ codes "a=control:rtsp://h/t1"
        ∷ [])
      unknown
    ≡ record unknown {
      medias = video ∷ [];
      formats = (pos 96, video) ∷ [];
      spsvalue = 0 ∷ 0 ∷ 0 ∷ 1 ∷ b'A' ∷ b'B' ∷ 0 ∷ 0 ∷ 0 ∷ 1 ∷ b'C' ∷ b'D' ∷ [];
    }
unfolding parse_sdp inc.Rtsp.Sdp.lines_loop inc.Rtsp.Sdp.medias_loop inc.Rtsp.Sdp.sets_of
    inc.Rtsp.Sdp.media_line inc.Rtsp.Sdp.rtpmap_line inc.Rtsp.Sdp.on_last inc.Rtsp.Sdp.skip_space
    inc.Rtsp.Sdp.after_digits inc.Rtsp.Sdp.word inc.Rtsp.Sdp.erase_format inc.Rtsp.digits find_var
    inc.Rtsp.contains inc.Text.find inc.Text.is_prefix
describes = refl
