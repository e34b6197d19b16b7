-- ===== src/Rtsp/Client/Handshake.antt =====
-- `librtsp::Client`: the order of the requests, and what an answer takes of the bytes received.
use inc.Prelude.{
  ℕ, zero, suc, ◌+◌, ◌≤◌, ◌<◌, ◌≡◌, refl, List, [], ◌∷◌, Bool, true, false, Option, none, some,
  ◌>>=◌, arith, Option-cases, le-cases, ltb-true, ◌++◌, take, inl, inr, ◌^◌, if◌then◌else◌, ltb,
  length, drop,
}
use Prim.Native.String.{String}
use inc.Rtsp.{Crypto, Url, codes, set_auth, crlf, parse}
use inc.Prelude.Word.{u64}
use inc.Text.{find}
use inc.Text.Join.{find_le}
use inc.Rtsp.Sdp.{Media, parse_sdp}
use inc.Rtsp.Client.{
  Client, Command, options, describe, setup, play, scale, get_parameter, set_parameter, pause,
  announce, teardown, setup_noss, setaudio, Arg, Turn, went, write_cmd, check_authorized, answer,
  after_setup, write_play, setup_audio, setup_video, bump, take_session, is_empty, write_setup,
  make_client, begin_play, after_options, after_describe, do_rtsp_parse, with_header,
  content_length, lines, keepalive, find_line, find_media, print, format, of_str, of_num, auth_arg,
  written,
}

-- A request of this type has been written; both kinds of SETUP count as one.
abbrev pub has_described : List Command → Bool
has_described [] = false
has_described (describe ∷ log) = true
has_described (_ ∷ log) = has_described log

abbrev pub has_set_up : List Command → Bool
has_set_up [] = false
has_set_up (setup ∷ log) = true
has_set_up (setup_noss ∷ log) = true
has_set_up (_ ∷ log) = has_set_up log

-- Each SETUP comes after a DESCRIBE, and each PLAY after a SETUP.
abbrev pub IsOrdered : List Command → Type 0
IsOrdered [] = Unit
IsOrdered (setup ∷ log) = (has_described log ≡ true) × IsOrdered log
IsOrdered (setup_noss ∷ log) = (has_described log ≡ true) × IsOrdered log
IsOrdered (play ∷ log) = (has_set_up log ≡ true) × IsOrdered log
IsOrdered (_ ∷ log) = IsOrdered log

-- What `cmd_` says of the requests written.
abbrev Due : Command → List Command → Type 0
Due describe log = has_described log ≡ true
Due setup log = (has_described log ≡ true) × (has_set_up log ≡ true)
Due setaudio log = (has_described log ≡ true) × (has_set_up log ≡ true)
Due _ log = Unit

abbrev pub IsSession : Client → Type 0
IsSession c = IsOrdered c.asked × Due c.cmd c.asked

-- What a request needs before it.
abbrev Allowed : Command → List Command → Type 0
Allowed setup log = has_described log ≡ true
Allowed play log = has_set_up log ≡ true
Allowed setup_noss log = ⊥
Allowed setaudio log = ⊥
Allowed _ log = Unit

module _ (y : Crypto) (junk : List ℕ) where
  write_cmd_asked :
      (type : Command) (args : List Arg) (c c' : Client)
      → write_cmd y junk type args c ≡ some c'
      → (c'.asked ≡ written type c.sdp.session ∷ c.asked) × (c'.cmd ≡ type)
  unfolding write_cmd
  write_cmd_asked type args c c' e =
      let type' = written type c.sdp.session in
      elim (Option-cases (print junk (format type') (of_str c.url.path ∷ args))) [
        | inl p ↦ ground arith
        | inr (buf, p) ↦ ground arith
      ]

  written-Due :
      (type : Command) (session : List ℕ) (log : List Command)
      → IsOrdered log
      → Allowed type log
      → IsOrdered (written type session ∷ log) × Due type (written type session ∷ log)
  written-Due setup [] log h a = ((a, h), (a, refl))
  written-Due setup (x ∷ s) log h a = ((a, h), (a, refl))
  written-Due options session log h a = (h, tt)
  written-Due describe session log h a = (h, refl)
  written-Due play session log h a = ((a, h), tt)
  written-Due scale session log h a = (h, tt)
  written-Due get_parameter session log h a = (h, tt)
  written-Due set_parameter session log h a = (h, tt)
  written-Due pause session log h a = (h, tt)
  written-Due announce session log h a = (h, tt)
  written-Due teardown session log h a = (h, tt)
  written-Due setup_noss session log h a = absurd a
  written-Due setaudio session log h a = absurd a

  write_cmd-IsSession :
      (type : Command) (args : List Arg) (c c' : Client)
      → write_cmd y junk type args c ≡ some c'
      → IsOrdered c.asked
      → Allowed type c.asked
      → IsSession c' × (c'.cmd ≡ type)
  write_cmd-IsSession type args c c' e h a =
      let (l, q) = write_cmd_asked type args c c' e in
      let o = written-Due type c.sdp.session c.asked h a in rw (l, q) (o, refl)

  -- A request is written, and `len` bytes are taken.
  taken :
      (w : Option Client) (len n : ℕ) (c' : Client)
      → (do c ← w; some (went len c)) ≡ some (went n c')
      → (w ≡ some c') × (n ≡ len)
  taken none len n c' e = ground arith
  taken (some c) len n c' e = ground arith

  -- One request after which the turn ends.
  turn-IsSession :
      (type : Command) (args : List Arg) (len n : ℕ) (c c' : Client)
      → (do d ← write_cmd y junk type args c; some (went len d)) ≡ some (went n c')
      → IsOrdered c.asked
      → Allowed type c.asked
      → IsSession c' × (n ≡ len)
  turn-IsSession type args len n c c' e h a =
      let (w, q) = taken (write_cmd y junk type args c) len n c' e in
      ((write_cmd-IsSession type args c c' w h a).0, q)

  write_play-IsSession :
      (len n : ℕ) (c c' : Client)
      → write_play y junk len c ≡ some (went n c')
      → IsOrdered c.asked
      → has_set_up c.asked ≡ true
      → IsSession c' × (n ≡ len)
  write_play-IsSession len n c c' e h s = turn-IsSession play _ len n (bump c) c' e h s

  setup_audio-IsSession :
      (o : Option Media) (len n : ℕ) (c c' : Client)
      → setup_audio y junk len o c ≡ some (went n c')
      → IsOrdered c.asked
      → has_described c.asked ≡ true
      → has_set_up c.asked ≡ true
      → IsSession c' × (n ≡ len)
  setup_audio-IsSession none len n c c' e h d s = write_play-IsSession len n c c' e h s
  setup_audio-IsSession (some m) len n c c' e h d s = turn-IsSession setup _ len n _ c' e h d

  setup_video-IsSession :
      (o : Option Media) (len n : ℕ) (c c' : Client)
      → setup_video y junk len o c ≡ some (went n c')
      → IsOrdered c.asked
      → has_described c.asked ≡ true
      → IsSession c' × (n ≡ len)
  setup_video-IsSession none len n c c' e h d = ground arith
  setup_video-IsSession (some m) len n c c' e h d = elim (Option-cases (write_setup y junk m c)) [
    | inl w ↦ ground arith
    | inr (c1, w) ↦
        let (t, q) = write_cmd-IsSession setup _ (bump c) c1 w h d in ground (arith, w, t, q)
  ]

  taken_session_asked : (o : Option (List ℕ)) (c : Client) → (take_session o c).asked ≡ c.asked
  taken_session_asked none c = refl
  taken_session_asked (some s) c = refl

  after_setup-IsSession :
      (res : List (List ℕ)) (len n : ℕ) (c c' : Client)
      → after_setup y junk res len c ≡ some (went n c')
      → IsOrdered c.asked
      → has_described c.asked ≡ true
      → has_set_up c.asked ≡ true
      → IsSession c' × (n ≡ len)
  after_setup-IsSession res len n c c' e h d s =
      let line = find_line (codes "Session: ") res in
      let c1 = if is_empty c.sdp.session then take_session line c else c in
      let same : c1.asked ≡ c.asked = ground (arith, taken_session_asked line c) in
      ground (
        arith,
        same,
        setup_audio-IsSession (find_media (codes "audio") c1.sdp.medias) len n c1 c',
        write_play-IsSession len n c1 c',
      )

  check_authorized-IsSession :
      (res : List (List ℕ)) (type : Command) (name : String) (len n : ℕ) (c c' : Client)
      → (go : Client → Option Turn)
      → check_authorized y junk res type name len c go ≡ some (went n c')
      → IsOrdered c.asked
      → Allowed type c.asked
      → (go c ≡ some (went n c') → IsSession c' × (n ≡ len))
      → IsSession c' × (n ≡ len)
  unfolding check_authorized
  check_authorized-IsSession res type name len n c c' go e h a k =
      elim (Option-cases (find_line (codes "WWW-Authenticate") res)) [
        | inl f ↦ ground arith
        | inr (s, f) ↦
            let d = record c { url = set_auth y s c.url } in
            ground (
              arith,
              turn-IsSession type (of_num d.seq ∷ auth_arg y junk name d ∷ []) len n (bump d) c' _ h
                  a,
            )
      ]

  answer-IsSession :
      (cmd : Command) (hs : List ℕ) (hlen : ℕ) (res : List (List ℕ)) (len n : ℕ) (c c' : Client)
      → c.cmd ≡ cmd
      → answer y junk cmd hs hlen res len c ≡ some (went n c')
      → IsSession c
      → IsSession c' × (n ≡ len)
  unfolding answer
  answer-IsSession options hs hlen res len n c c' q e h =
      check_authorized-IsSession res options "OPTIONS" len n c c' (after_options y junk len) e h.0
        tt (λ g. turn-IsSession describe _ len n (bump c) c' g h.0 tt)
  answer-IsSession describe hs hlen res len n c c' q e h =
      let due : has_described c.asked ≡ true = ground arith in
      check_authorized-IsSession res describe "DESCRIBE" len n c c'
        (after_describe y junk hs hlen res len) e h.0 tt
        (λ g.
          let p = parse_sdp y res (record c.sdp { content = drop hlen hs }) in
          ground (
            arith,
            setup_video-IsSession (find_media (codes "video") p.medias) len n (record c { sdp = p })
                c' _ h.0 due,
          ))
  answer-IsSession setaudio hs hlen res len n c c' q e h =
      let due : (has_described c.asked ≡ true) × (has_set_up c.asked ≡ true) = ground arith in
      after_setup-IsSession res len n c c' e h.0 due.0 due.1
  answer-IsSession setup hs hlen res len n c c' q e h =
      let due : (has_described c.asked ≡ true) × (has_set_up c.asked ≡ true) = ground arith in
      write_play-IsSession len n c c' e h.0 due.1
  answer-IsSession play hs hlen res len n c c' q e h = ground arith
  answer-IsSession scale hs hlen res len n c c' q e h = ground arith
  answer-IsSession get_parameter hs hlen res len n c c' q e h = ground arith
  answer-IsSession set_parameter hs hlen res len n c c' q e h = ground arith
  answer-IsSession pause hs hlen res len n c c' q e h = ground arith
  answer-IsSession announce hs hlen res len n c c' q e h = ground arith
  answer-IsSession teardown hs hlen res len n c c' q e h = ground arith
  answer-IsSession setup_noss hs hlen res len n c c' q e h = ground arith

  bounded :
      (dlen hlen len n : ℕ)
      → hlen < 2 ^ 64
      → u64 (dlen + hlen) ≤ len
      → n ≡ (if ltb 0 dlen then u64 (hlen + dlen) else hlen)
      → n ≤ len
  bounded zero hlen len n h fits q = omega arith
  bounded (suc d) hlen len n h fits q =
      let r : n ≡ u64 (hlen + suc d) = rw (ltb-true 0 (suc d) (omega arith)) at q in omega arith

  with_header-IsSession :
      (b : List ℕ) (hlen len n : ℕ) (c c' : Client)
      → with_header y junk b hlen len c ≡ some (went n c')
      → IsSession c
      → hlen < 2 ^ 64
      → IsSession c' × (n ≤ len)
  with_header-IsSession b hlen len n c c' e h small =
      let dlen = content_length (take hlen b) in
      let len' = if ltb 0 dlen then u64 (hlen + dlen) else hlen in
      let hs = take len' b in
      elim (le-cases (u64 (dlen + hlen)) len) [
        | inl fits ↦
            let f : ltb len (u64 (dlen + hlen)) ≡ false = ground arith in
            let (t, q) =
              answer-IsSession c.cmd hs hlen (lines (length hs) hs) len' n c c' refl (rw f at e)
                h in
            (t, bounded dlen hlen len n small fits q)
        | inr more ↦ ground arith
      ]

  -- Whatever the server answers: when the answer is taken without an exception, no more bytes are taken than
  -- were received, and the order of the requests is kept: every SETUP was written after a DESCRIBE
  -- and every PLAY after a SETUP. The memory has fewer than 2 ^ 31 bytes.
  pub do_rtsp_parse-IsSession :
      (b : List ℕ) (len n : ℕ) (c c' : Client)
      → length b < 2 ^ 31
      → do_rtsp_parse y junk b len c ≡ some (went n c')
      → IsSession c
      → IsSession c' × (n ≤ len)
  unfolding do_rtsp_parse
  do_rtsp_parse-IsSession b len n c c' small e h = elim (Option-cases (find (crlf ++ crlf) b)) [
    | inl f ↦ ground arith
    | inr (i, f) ↦
        let bound = find_le (crlf ++ crlf) b i f in
        ground (arith, with_header-IsSession b (i + 4) len n c c' _ h (omega arith))
  ]

  pub keepalive-IsSession :
      (c c' : Client) → keepalive y junk c ≡ some c' → IsSession c → IsSession c'
  unfolding keepalive
  keepalive-IsSession c c' e h = (write_cmd-IsSession get_parameter _ (bump c) c' e h.0 tt).0

  pub begin_play-IsSession :
      (uri : List ℕ) (wants_audio started : Bool) (c : Client)
      → begin_play y junk uri (make_client wants_audio) ≡ some (started, c)
      → IsSession c
  unfolding begin_play
  begin_play-IsSession uri wants_audio started c e = by_url (parse uri made.url) refl
    where
      made : Client
      made = make_client wants_audio

      by_url : (o : Option (Bool × Url)) → parse uri made.url ≡ o → IsSession c
      by_url none p = ground arith
      by_url (some (false, u)) p = ground arith
      by_url (some (true, u)) p =
          let d = bump (record made { url = u }) in
          elim (Option-cases (write_cmd y junk options (of_num made.seq ∷ of_str [] ∷ []) d)) [
            | inl w ↦ ground arith
            | inr (c1, w) ↦ ground (arith, (write_cmd-IsSession options _ d c1 w tt tt).0)
          ]
