-- ===== src/Rtsp/Client.antt =====
-- stream/rtsp.hpp: `librtsp::Client`, the requests that it writes and what it makes of the answers.
-- `out` are the requests written and `asked` their types, the last first. `none` is undefined
-- behaviour: a request longer than the buffer of `doWriteCmd`, and a description without a video.
-- `denied` and `out_of_range` are the exceptions. The answers hold no zero byte.
mod Tests
pub mod Handshake
use Prim.Native.String.{String}
use inc.Prelude.{
  ℕ, zero, suc, ◌+◌, ◌-◌, ◌*◌, ◌^◌, List, [], ◌∷◌, ◌++◌, Bool, true, false, not, ◌&&◌, Option, none,
  some, ◌>>=◌, ltb, leb, ◌==◌, if◌then◌else◌, length, take, drop, ◌%◌, ◌/◌,
}
use inc.Prelude.Int.{ℤ, pos, negsuc}
use inc.Prelude.Word.{u64}
use inc.Text.{find}
use inc.Rtsp.{Crypto, Url, codes, crlf, contains, find_var, atoi, set_auth, get_auth, parse}
use inc.Rtsp.Sdp.{Media, Sdp, same_format, parse_sdp}

pub data Command : Type 0 where
  options : Command
  describe : Command
  setup : Command
  play : Command
  scale : Command
  get_parameter : Command
  set_parameter : Command
  pause : Command
  announce : Command
  teardown : Command
  setup_noss : Command
  setaudio : Command

-- A template: texts and places, `%s`, `%d` and `%0.3f` or `%0.1f`.
pub data Piece : Type 0 where
  lit : List ℕ → Piece
  str : Piece
  num : Piece
  real : Piece

pub data Arg : Type 0 where
  of_str : List ℕ → Arg
  of_num : ℕ → Arg

abbrev first : String → List Piece
first verb =
    lit (codes verb)
    ∷ lit (codes " ")
    ∷ str
    ∷ lit (codes " RTSP/1.0")
    ∷ lit crlf
    ∷ lit (codes "CSeq: ")
    ∷ num
    ∷ lit crlf
    ∷ []

abbrev session_line : List Piece
session_line = lit (codes "Session: ") ∷ str ∷ lit crlf ∷ []

abbrev agent_line : List Piece
agent_line = lit (codes "User-Agent: github/dontls") ∷ lit crlf ∷ []

abbrev setup_line : List Piece
setup_line =
    lit (codes "SETUP ")
    ∷ str
    ∷ lit (codes "/")
    ∷ str
    ∷ lit (codes " RTSP/1.0")
    ∷ lit crlf
    ∷ lit (codes "CSeq: ")
    ∷ num
    ∷ lit crlf
    ∷ []

abbrev transport : List Piece
transport = lit (codes "Transport: RTP/AVP/TCP;unicast;interleaved=0-1") ∷ lit crlf ∷ lit crlf ∷ []

abbrev end : List Piece
end = lit crlf ∷ []

unfoldable pub format : Command → List Piece
format options = first "OPTIONS" ++ (str ∷ (agent_line ++ end))
format describe =
    first "DESCRIBE"
    ++ (str ∷ (agent_line ++ (lit (codes "Accept: application/sdp") ∷ lit crlf ∷ end)))
format setup = setup_line ++ (session_line ++ (str ∷ (agent_line ++ transport)))
format setup_noss = setup_line ++ (str ∷ str ∷ (agent_line ++ transport))
format play =
    first "PLAY"
    ++ (session_line
        ++ (str
            ∷ (agent_line
                ++ (lit (codes "Range: npt=") ∷ real ∷ lit (codes "-") ∷ lit crlf ∷ end))))
format scale =
    first "PLAY"
    ++ (session_line ++ (str ∷ (agent_line ++ (lit (codes "Scale: ") ∷ real ∷ lit crlf ∷ end))))
format pause = first "PAUSE" ++ (session_line ++ (agent_line ++ (str ∷ str ∷ end)))
format announce =
    lit (codes "ANNOUNCE ")
    ∷ str
    ∷ lit (codes " RTSP/1.0")
    ∷ lit crlf
    ∷ lit (codes "CSeq: ")
    ∷ num
    ∷ lit (codes "/r/n")
    ∷ lit (codes "Content-Type: application/sdp")
    ∷ lit crlf
    ∷ str
    ∷ lit (codes "Content-length: ")
    ∷ num
    ∷ lit crlf
    ∷ lit crlf
    ∷ (agent_line ++ (str ∷ end))
format set_parameter =
    first "SET_PARAMETER"
    ++ (session_line
        ++ (agent_line
            ++ (lit (codes "Content-length: ")
                ∷ num
                ∷ lit crlf
                ∷ lit crlf
                ∷ str
                ∷ lit (codes ": ")
                ∷ str
                ∷ end)))
format get_parameter = first "GET_PARAMETER" ++ (session_line ++ (agent_line ++ (str ∷ end)))
format teardown = first "TEARDOWN" ++ (session_line ++ (agent_line ++ (str ∷ end)))
format setaudio = []

abbrev digits_of : ℕ → ℕ → List ℕ
digits_of zero n = []
digits_of (suc k) n =
    let more = digits_of k (n / 10) in
    if ltb n 10 then (b'0' + n) ∷ [] else more ++ ((b'0' + n % 10) ∷ [])

-- `sprintf`; a place without its argument is undefined. `PLAY` hands an `int` to `%0.3f`, which prints
-- something: `junk`.
unfoldable pub print : List ℕ → List Piece → List Arg → Option (List ℕ)
print junk [] args = some []
print junk (lit t ∷ ps) args = do s ← print junk ps args; some (t ++ s)
print junk (str ∷ ps) (of_str t ∷ args) = do s ← print junk ps args; some (t ++ s)
print junk (num ∷ ps) (of_num n ∷ args) = do s ← print junk ps args; some (digits_of 10 n ++ s)
print junk (real ∷ ps) (a ∷ args) = do s ← print junk ps args; some (junk ++ s)
print junk _ _ = none

pub record Client : Type 0 where
  pub cmd : Command
  pub seq : ℕ
  pub atype : ℤ
  pub url : Url
  pub sdp : Sdp
  pub out : List (List ℕ)
  pub asked : List Command

-- `Client(reqAudio)`.
abbrev pub make_client : Bool → Client
make_client wants_audio = record {
  cmd = options;
  seq = 0;
  atype = if wants_audio then pos 127 else negsuc 0;
  url = record {
    path = [];
    user = [];
    password = [];
    ip = [];
    port = 0;
    base_auth = [];
    digest_hex = [];
  };
  sdp = record { content = []; session = []; spsvalue = []; medias = []; formats = [] };
  out = [];
  asked = [];
}

abbrev pub is_empty : List ℕ → Bool
is_empty [] = true
is_empty (c ∷ s) = false

-- The type that `doWriteCmd` writes.
abbrev pub written : Command → List ℕ → Command
written setup [] = setup_noss
written type session = type

abbrev sent : Command → Option (List ℕ) → Client → Option Client
sent type none c = none
sent type (some buf) c =
    if ltb (length buf) 2048
    then some (record c { out = buf ∷ c.out; asked = type ∷ c.asked })
    else none

-- What an answer leads to: the number of bytes taken, or an exception.
pub data Turn : Type 0 where
  went : ℕ → Client → Turn
  denied : Turn
  out_of_range : Turn

unfoldable pub find_line : List ℕ → List (List ℕ) → Option (List ℕ)
find_line p [] = none
find_line p (s ∷ ss) = let more = find_line p ss in if contains p s then some s else more

pub find_media : List ℕ → List Media → Option Media
find_media p [] = none
find_media p (m ∷ ms) = let more = find_media p ms in if contains p m.stype then some m else more

-- The lines of an answer, each ended by `\r\n`; a round for every two bytes is enough.
unfoldable pub lines : ℕ → List ℕ → List (List ℕ)
lines zero s = []
lines (suc k) s = elim (find crlf s) [ none ↦ [] | some i ↦ take i s ∷ lines k (drop (i + 2) s) ]

-- An `int` as a `size_t`.
abbrev pub to_size : ℤ → ℕ
to_size (pos n) = u64 n
to_size (negsuc n) = 2 ^ 64 - 1 - u64 n

abbrev pub content_length : List ℕ → ℕ
content_length hs = to_size (atoi (find_var hs (codes "Content-Length: ") crlf))

-- `it->substr(9, pos - 9)`, where `pos` may be past the end.
abbrev session_of : List ℕ → Option ℕ → List ℕ
session_of s none = drop 9 s
session_of s (some p) = if ltb p 9 then drop 9 s else take (p - 9) (drop 9 s)

abbrev pub take_session : Option (List ℕ) → Client → Client
take_session none c = c
take_session (some s) c = record c {
  sdp = record c.sdp { session = session_of s (find (codes ";") s) };
}

-- `atype_` is an `int8_t`.
abbrev to_i8 : ℤ → ℤ
to_i8 (pos n) = let r = n % 2 ^ 8 in if ltb r 128 then pos r else negsuc (255 - r)
to_i8 (negsuc n) = let r = n % 2 ^ 8 in if ltb r 128 then negsuc r else pos (255 - r)

-- `seq_++` in the arguments.
abbrev pub bump : Client → Client
bump c = record c { seq = c.seq + 1 }

module _ (y : Crypto) (junk : List ℕ) where
  -- `doWriteCmd`, whose arguments are `args` behind the path.
  unfoldable pub write_cmd : Command → List Arg → Client → Option Client
  write_cmd type args c =
      let type' = written type c.sdp.session in
      sent type' (print junk (format type') (of_str c.url.path ∷ args)) (record c { cmd = type })

  abbrev pub auth_arg : String → Client → Arg
  auth_arg name c = of_str (get_auth y (codes name) c.url)

  pub stop : Client → Option Client
  stop c =
      write_cmd teardown (of_num c.seq ∷ of_str c.sdp.session ∷ auth_arg "TEARDOWN" c ∷ []) (bump c)

  pub keepalive : Client → Option Client
  keepalive c =
      write_cmd get_parameter
        (of_num c.seq ∷ of_str c.sdp.session ∷ auth_arg "GET_PARAMETER" c ∷ []) (bump c)

  -- `checkAuthorized`, and what its caller does when it says yes.
  unfoldable pub check_authorized :
      List (List ℕ) → Command → String → ℕ → Client → (Client → Option Turn) → Option Turn
  check_authorized res type name len c go = elim (find_line (codes "WWW-Authenticate") res) [
    | none ↦ go c
    | some s ↦ if not (is_empty c.url.base_auth) then some denied else do
      let d = record c { url = set_auth y s c.url }
      d' ← write_cmd type (of_num d.seq ∷ auth_arg name d ∷ []) (bump d)
      some (went len d')
  ]

  abbrev pub write_setup : Media → Client → Option Client
  write_setup m c =
      write_cmd setup
        (of_str m.control_id ∷ of_num c.seq ∷ of_str c.sdp.session ∷ auth_arg "SETUP" c ∷ [])
        (bump c)

  abbrev pub write_play : ℕ → Client → Option Turn
  write_play len c = do
    c' ←
        write_cmd play (of_num c.seq ∷ of_str c.sdp.session ∷ auth_arg "PLAY" c ∷ of_num 0 ∷ [])
          (bump c)
    some (went len c')

  abbrev pub after_options : ℕ → Client → Option Turn
  after_options len c = do
    c' ← write_cmd describe (of_num c.seq ∷ auth_arg "DESCRIBE" c ∷ []) (bump c)
    some (went len c')

  abbrev pub setup_video : ℕ → Option Media → Client → Option Turn
  setup_video len none c = none
  setup_video len (some m) c = do
    c' ← write_setup m c
    some (went len (record c' { cmd = setaudio }))

  -- `hs` is the answer and `hlen` the length of its header.
  abbrev pub after_describe : List ℕ → ℕ → List (List ℕ) → ℕ → Client → Option Turn
  after_describe hs hlen res len c =
      if ltb (length hs) hlen
      then some out_of_range
      else let p = parse_sdp y res (record c.sdp { content = drop hlen hs }) in
        setup_video len (find_media (codes "video") p.medias) (record c { sdp = p })

  abbrev pub setup_audio : ℕ → Option Media → Client → Option Turn
  setup_audio len none c = write_play len c
  setup_audio len (some m) c = do
    c' ← write_setup m (record c { atype = to_i8 m.format })
    some (went len c')

  abbrev pub after_setup : List (List ℕ) → ℕ → Client → Option Turn
  after_setup res len c =
      let c' =
        if is_empty c.sdp.session then take_session (find_line (codes "Session: ") res) c else c in
      if same_format c'.atype (pos 127)
      then setup_audio len (find_media (codes "audio") c'.sdp.medias) c'
      else write_play len c'

  -- The `switch` on `cmd_`.
  unfoldable pub answer : Command → List ℕ → ℕ → List (List ℕ) → ℕ → Client → Option Turn
  answer options hs hlen res len c =
      check_authorized res options "OPTIONS" len c (after_options len)
  answer describe hs hlen res len c =
      check_authorized res describe "DESCRIBE" len c (after_describe hs hlen res len)
  answer setaudio hs hlen res len c = after_setup res len c
  answer setup hs hlen res len c = write_play len c
  answer _ hs hlen res len c = some (went len c)

  abbrev pub with_header : List ℕ → ℕ → ℕ → Client → Option Turn
  with_header b hlen len c =
      let dlen = content_length (take hlen b) in
      if ltb len (u64 (dlen + hlen))
      then some (went 0 c)
      else let len' = if ltb 0 dlen then u64 (hlen + dlen) else hlen in
        let hs = take len' b in answer c.cmd hs hlen (lines (length hs) hs) len' c

  -- `doRtspParse`: `b` is the memory up to the first zero byte, `len` the bytes received.
  unfoldable pub do_rtsp_parse : List ℕ → ℕ → Client → Option Turn
  do_rtsp_parse b len c = elim (find (crlf ++ crlf) b) [
    | none ↦ some (went 0 c)
    | some i ↦ with_header b (i + 4) len c
  ]

  -- `Play` up to its loop; the socket is connected by then.
  abbrev opened : Option (Bool × Url) → Client → Option (Bool × Client)
  opened none c = none
  opened (some (false, u)) c = some (false, record c { url = u })
  opened (some (true, u)) c = do
    c' ← write_cmd options (of_num c.seq ∷ of_str [] ∷ []) (bump (record c { url = u }))
    some (true, c')

  unfoldable pub begin_play : List ℕ → Client → Option (Bool × Client)
  begin_play uri c = opened (parse uri c.url) c
