-- ===== src/Rtsp/Play/Reading.antt =====
-- `Client::Play`: what the callback takes, and the order of the requests.
use inc.Prelude.{
  ℕ, ◌+◌, ◌-◌, ◌^◌, ◌≤◌, ◌<◌, ◌≡◌, ◌⊎◌, refl, List, [], ◌∷◌, Bool, true, false, Option, none, some,
  arith, Option-cases, Bool-cases, le-cases, inl, inr, ltb, ◌==◌, get_elem?, take, drop, length,
}
use inc.Prelude.Int.{ℤ, pos, negsuc}
use inc.Rtp.{Packet, uint16, unmarshal, decode}
use inc.Rtsp.{Crypto}
use inc.Rtsp.Sdp.{Media}
use inc.Rtsp.Client.{
  Turn, went, denied, out_of_range, do_rtsp_parse, keepalive, make_client, begin_play,
}
use inc.Rtsp.Client.Handshake.{
  IsOrdered, IsSession, begin_play-IsSession, do_rtsp_parse-IsSession, keepalive-IsSession,
}
use inc.Rtsp.Play.{
  Frame, Player, took, until_zero, give_media, framed, kept_alive, take_packet, interleaved,
  forward, on_read, read_turn,
}

-- Bytes taken are bytes received; a negative answer takes none.
abbrev pub Within : ℤ → ℕ → Type 0
Within (pos n) len = n ≤ len
Within (negsuc n) len = Unit

length-until_zero : (s : List ℕ) → length (until_zero s) ≤ length s
unfolding until_zero
length-until_zero [] = omega arith
length-until_zero (c ∷ s) = ground (arith, length-until_zero s)

module _ {A : Type 0} where
  -- The client is as it was, but for its table of formats.
  abbrev SameSession : Player A → Player A → Type 0
  SameSession w w' = (w'.client.asked ≡ w.client.asked) × (w'.client.cmd ≡ w.client.cmd)

  give_media_same :
      (f : A → Frame → A × Bool) (rtp : Packet) (m : Media) (w w' : Player A) (stops : Bool)
      → give_media f rtp m w ≡ some (w', stops)
      → SameSession w w'
  unfolding give_media
  give_media_same f rtp m w w' stops e =
      elim (Option-cases (decode rtp w.client.sdp.spsvalue w.dbuf m.hevc)) [
        | inl d ↦ ground arith
        | inr (r, d) ↦ ground arith
      ]

  framed_same :
      (o : Option (A → Frame → A × Bool)) (rtp : Packet) (w w' : Player A) (stops : Bool)
      → framed o rtp w ≡ some (w', stops)
      → SameSession w w'
  framed_same none rtp w w' stops e = ground arith
  framed_same (some f) rtp w w' stops e = give_media_same f rtp _ _ w' stops e

  forward_same : (b : Bool) (packet : List ℕ) (w : Player A) → SameSession w (forward b packet w)
  forward_same false packet w = (refl, refl)
  forward_same true packet w = (refl, refl)

  same-IsSession : (w w' : Player A) → SameSession w w' → IsSession w.client → IsSession w'.client
  same-IsSession w w' s h = rw (s.0, s.1) h

module _ {A : Type 0} (call_frame : Option (A → Frame → A × Bool)) (forwards : Bool) (y : Crypto)
    (junk : List ℕ) where
  kept_alive-IsSession :
      (late : Bool) (w w' : Player A)
      → kept_alive call_frame forwards y junk late w ≡ some w'
      → IsSession w.client
      → IsSession w'.client
  kept_alive-IsSession false w w' e h = ground arith
  kept_alive-IsSession true w w' e h = elim (Option-cases (keepalive y junk w.client)) [
    | inl k ↦ ground arith
    | inr (c, k) ↦ ground (arith, keepalive-IsSession y junk w.client c k h)
  ]

  take_packet-IsSession :
      (late : Bool) (memory : List ℕ) (dlen : ℕ) (z : ℤ) (w w' : Player A)
      → take_packet call_frame forwards y junk late memory dlen w ≡ some (took z w')
      → IsSession w.client
      → IsSession w'.client × ((z ≡ negsuc 0) ⊎ (z ≡ pos dlen))
  take_packet-IsSession late memory dlen z w w' e h =
      let w0 = forward forwards (take dlen memory) w in
      let h0 = same-IsSession w w0 (forward_same forwards (take dlen memory) w) h in
      elim (Option-cases (unmarshal (drop 4 memory) (dlen - 4))) [
        | inl u ↦ ground arith
        | inr (rtp, u) ↦ elim (Option-cases (framed call_frame rtp w0)) [
          | inl f ↦ ground arith
          | inr ((w1, stops), f) ↦
              let h1 = same-IsSession w0 w1 (framed_same call_frame rtp w0 w1 stops f) h0 in
              elim (Option-cases (kept_alive call_frame forwards y junk late w1)) [
                | inl k ↦ ground (arith, u, f, k, h1)
                | inr (w2, k) ↦ ground (arith, u, f, k, h1, kept_alive-IsSession late w1 w2 k h1)
              ]
        ]
      ]

  packet-Within :
      (z : ℤ) (dlen len : ℕ) → dlen ≤ len → (z ≡ negsuc 0) ⊎ (z ≡ pos dlen) → Within z len
  packet-Within z dlen len fits (inl q) = rw q tt
  packet-Within z dlen len fits (inr q) = rw q fits

  interleaved-IsSession :
      (late : Bool) (memory : List ℕ) (len dlen : ℕ) (z : ℤ) (w w' : Player A)
      → interleaved call_frame forwards y junk late memory len dlen w ≡ some (took z w')
      → IsSession w.client
      → IsSession w'.client × Within z len
  interleaved-IsSession late memory len dlen z w w' e h = elim (le-cases dlen len) [
    | inl fits ↦
        let f : ltb len dlen ≡ false = ground arith in
        let (t, q) = take_packet-IsSession late memory dlen z w w' (rw f at e) h in
        (t, packet-Within z dlen len fits q)
    | inr more ↦ ground arith
  ]

  read_turn-IsSession :
      (memory : List ℕ) (len : ℕ) (z : ℤ) (w w' : Player A) (t : Turn)
      → length memory < 2 ^ 31
      → do_rtsp_parse y junk (until_zero memory) len w.client ≡ some t
      → read_turn t w ≡ took z w'
      → IsSession w.client
      → IsSession w'.client × Within z len
  read_turn-IsSession memory len z w w' (went n c) small d e h =
      let short = length-until_zero memory in
      let (t, q) =
        do_rtsp_parse-IsSession y junk (until_zero memory) len n w.client c (omega arith) d h in
      ground (arith, t, q)
  read_turn-IsSession memory len z w w' denied small d e h = ground arith
  read_turn-IsSession memory len z w w' out_of_range small d e h = ground arith

  -- The callback, when it returns without an exception, takes no more bytes than were received,
  -- and keeps the order of the requests. The memory has fewer than 2 ^ 31 bytes.
  pub on_read-IsSession :
      (late : Bool) (memory : List ℕ) (len : ℕ) (z : ℤ) (w w' : Player A)
      → length memory < 2 ^ 31
      → on_read call_frame forwards y junk late memory len w ≡ some (took z w')
      → IsSession w.client
      → IsSession w'.client × Within z len
  unfolding on_read
  on_read-IsSession late memory len z w w' small e h = elim (Option-cases (get_elem? memory 0)) [
    | inl g ↦ ground arith
    | inr (b0, g) ↦ elim (Bool-cases (b0 == b'$')) [
      | inl dollar ↦ elim (Option-cases (uint16 (drop 2 memory))) [
        | inl u ↦ ground arith
        | inr (n, u) ↦ ground (arith, g, u, interleaved-IsSession late memory len (n + 4) z w w')
      ]
      | inr plain ↦ elim (Option-cases (do_rtsp_parse y junk (until_zero memory) len w.client)) [
        | inl d ↦ ground arith
        | inr (t, d) ↦ ground (arith, g, d, read_turn-IsSession memory len z w w' t small d)
      ]
    ]
  ]

-- The calls of the callback by `LoopRead`, one after the other, of which none has thrown.
pub data Calls {A : Type 0} (call_frame : Option (A → Frame → A × Bool)) (forwards : Bool)
    (y : Crypto) (junk : List ℕ) (w : Player A) : Player A → Type 0 where
  no_call : Calls call_frame forwards y junk w w
  one_more :
      (late : Bool) (memory : List ℕ) (len : ℕ) (z : ℤ) {w' w'' : Player A}
      → Calls call_frame forwards y junk w w'
      → length memory < 2 ^ 31
      → on_read call_frame forwards y junk late memory len w' ≡ some (took z w'')
      → Calls call_frame forwards y junk w w''

module _ {A : Type 0} (call_frame : Option (A → Frame → A × Bool)) (forwards : Bool) (y : Crypto)
    (junk : List ℕ) where
  Calls-IsSession :
      (w w' : Player A)
      → Calls call_frame forwards y junk w w'
      → IsSession w.client
      → IsSession w'.client
  Calls-IsSession w w' no_call h = h
  Calls-IsSession w w'' (one_more late memory len z {w'} r small e) h =
      (on_read-IsSession call_frame forwards y junk late memory len z w' w'' small e
        (Calls-IsSession w w' r h)).0

  -- From `Play` of a new client on, whatever the server sends, with every block of memory below
  -- 2 ^ 31 bytes: as long as the callback throws nothing, every SETUP was written after a
  -- DESCRIBE and every PLAY after a SETUP, and a next call of the callback that throws nothing either
  -- takes no more bytes than were received.
  pub play_in_order :
      (uri : List ℕ) (wants_audio started : Bool) (w w' w'' : Player A) (late : Bool)
      (memory : List ℕ) (len : ℕ) (z : ℤ)
      → begin_play y junk uri (make_client wants_audio) ≡ some (started, w.client)
      → Calls call_frame forwards y junk w w'
      → length memory < 2 ^ 31
      → on_read call_frame forwards y junk late memory len w' ≡ some (took z w'')
      → IsOrdered w'.client.asked × Within z len
  play_in_order uri wants_audio started w w' w'' late memory len z b r small e =
      let h =
        Calls-IsSession w w' r (begin_play-IsSession y junk uri wants_audio started w.client b) in
      (h.0, (on_read-IsSession call_frame forwards y junk late memory len z w' w'' small e h).1)
