-- ===== src/Rtsp/Play.antt =====
-- stream/rtsp.hpp: what `Client::Play` does with the bytes that it reads. `memory` are the bytes from
-- `data` to the end of its block, `len` of them received. `call_frame` is the callback, a function on
-- a state of the application that says whether the client goes on; `late` says that ten
-- seconds have passed since the last keepalive, and the type and bytes of a frame are a `Frame`.
pub mod Reading
mod Tests
use inc.Prelude.{
  ℕ, zero, suc, ◌+◌, ◌-◌, List, [], ◌∷◌, Bool, true, false, not, Option, none, some, ◌>>=◌, ltb,
  ◌==◌, if◌then◌else◌, get_elem?, take, drop,
}
use inc.Prelude.Int.{ℤ, pos, negsuc}
use inc.Buffer.{Buffer, bytes, reset}
use inc.Rtp.{Packet, uint16, unmarshal, decode}
use inc.Rtsp.{Crypto}
use inc.Rtsp.Sdp.{Media, Sdp, no_media, same_format}
use inc.Rtsp.Client.{Client, Turn, went, denied, out_of_range, do_rtsp_parse, keepalive, is_empty}

pub record Frame : Type 0 where
  pub name : List ℕ
  pub type : ℕ
  pub data_bytes : List ℕ

pub record Player (A : Type 0) : Type 0 where
  pub client : Client
  pub dbuf : Buffer
  pub app : A
  pub forwarded : List (List ℕ)

-- What the callback returns to `LoopRead`: the bytes taken, 0 for more, or -1 to stop.
pub data Read (A : Type 0) : Type 0 where
  took : ℤ → Player A → Read A
  read_denied : Read A
  read_out_of_range : Read A

pub until_zero : List ℕ → List ℕ
until_zero [] = []
until_zero (c ∷ s) = let more = until_zero s in if c == 0 then [] else c ∷ more

-- `formats[n]`, which puts an empty media there when there is none.
pub media_of : ℤ → List (ℤ × Media) → Option Media
media_of n [] = none
media_of n ((k, m) ∷ t) = let more = media_of n t in if same_format k n then some m else more

abbrev pub or_new : ℤ → Option Media → Sdp → Media × Sdp
or_new n (some m) p = (m, p)
or_new n none p = (no_media, record p { formats = (n, no_media) ∷ p.formats })

module _ {A : Type 0} where
  abbrev pub read_turn : Turn → Player A → Read A
  read_turn (went n c) w = took (pos n) (record w { client = c })
  read_turn denied w = read_denied
  read_turn out_of_range w = read_out_of_range

module _ {A : Type 0} (call_frame : A → Frame → A × Bool) where
  -- A frame of the video, where one is complete; `ftype` is what `Decode` returns.
  abbrev pub give_video : Media → ℕ → Buffer → Player A → Player A × Bool
  give_video m ftype b w =
      if ltb 0 ftype
      then (let (app, stops) =
            call_frame w.app (record {
              name = m.name;
              type = if ftype == 1 then 2 else 1;
              data_bytes = bytes b;
            }) in
          (record w { app = app; dbuf = reset b 0 }, stops))
      else (record w { dbuf = b }, false)

  abbrev pub give_audio : Media → Packet → Player A → Player A × Bool
  give_audio m rtp w =
      let (app, stops) =
        call_frame w.app
          (record { name = m.name; type = 3; data_bytes = take rtp.size rtp.payload }) in
      (record w { app = app }, stops)

  -- The player, and whether the callback said to stop; `m` is the media of the packet.
  pub give_media : Packet → Media → Player A → Option (Player A × Bool)
  give_media rtp m w =
      if not (is_empty m.sprops)
      then (do
        (ftype, r) ← decode rtp w.client.sdp.spsvalue w.dbuf m.hevc
        some (give_video m ftype r.1 w))
      else if same_format m.format w.client.atype
      then some (give_audio m rtp w)
      else some (w, false)

  abbrev pub give_frame : Packet → Player A → Option (Player A × Bool)
  give_frame rtp w =
      let n = pos rtp.hr.payload_type in
      let (m, p) = or_new n (media_of n w.client.sdp.formats) w.client.sdp in
      give_media rtp m (record w { client = record w.client { sdp = p } })

module _ {A : Type 0} where
  abbrev pub framed : Option (A → Frame → A × Bool) → Packet → Player A → Option (Player A × Bool)
  framed none rtp w = some (w, false)
  framed (some f) rtp w = give_frame f rtp w

  -- `OnRTPAnyPacket`, where it is set.
  abbrev pub forward : Bool → List ℕ → Player A → Player A
  forward false packet w = w
  forward true packet w = record w { forwarded = packet ∷ w.forwarded }

module _ {A : Type 0} (call_frame : Option (A → Frame → A × Bool)) (forwards : Bool) (y : Crypto)
    (junk : List ℕ) where
  abbrev pub kept_alive : Bool → Player A → Option (Player A)
  kept_alive false w = some w
  kept_alive true w = do c ← keepalive y junk w.client; some (record w { client = c })

  -- A whole interleaved packet, of `dlen` bytes with its header of four.
  abbrev pub take_packet : Bool → List ℕ → ℕ → Player A → Option (Read A)
  take_packet late memory dlen w = do
    rtp ← unmarshal (drop 4 memory) (dlen - 4)
    (w1, stops) ← framed call_frame rtp (forward forwards (take dlen memory) w)
    if stops
        then some (took (negsuc 0) w1)
        else do w2 ← kept_alive late w1; some (took (pos dlen) w2)

  abbrev pub interleaved : Bool → List ℕ → ℕ → ℕ → Player A → Option (Read A)
  interleaved late memory len dlen w =
      if ltb len dlen then some (took (pos 0) w) else take_packet late memory dlen w

  -- The callback that `Play` gives to `LoopRead`.
  pub on_read : Bool → List ℕ → ℕ → Player A → Option (Read A)
  on_read late memory len w = if ltb len 4 then some (took (pos 0) w) else do
    b0 ← get_elem? memory 0
    if b0 == b'$'
        then (do n ← uint16 (drop 2 memory); interleaved late memory len (n + 4) w)
        else (do t ← do_rtsp_parse y junk (until_zero memory) len w.client; some (read_turn t w))
