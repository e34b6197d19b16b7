-- ===== src/Tcp/Conn/Tests.antt =====
-- Runs of a connection, and the theorems at concrete inputs.
use inc.Prelude.{
  ℕ, suc, ◌+◌, ◌≡◌, refl, List, [], ◌∷◌, ◌++◌, true, false, none, some, arith, length,
}
use inc.Prelude.Int.{pos}
use inc.Buffer.{Buffer, make, bytes}
use inc.Tcp.{
  Received, got, recv_failed, Sent, took, send_failed, eagain, eintr, epollin, epollout, epollhup,
  has,
}
use inc.Tcp.Conn.{
  Call, call_send, call_close, Handlers, Reply, Event, watched, unwatched, shut, told_close, asked,
  received, consumed, queued, sent, Conn, start, send, close, handle_event, is_open,
}
use inc.Tcp.Conn.Moves.{sends, event, kernel, Reach, here, next}
use inc.Tcp.Conn.Invariant.{IsSound, fresh, Reach-IsSound}
use inc.Tcp.Conn.Streams.{
  IsFifo, IsDelivered, all_sent, all_queued, Reach-IsFifo, Reach-IsDelivered,
}
use inc.Tcp.Conn.Progress.{IsHonest, handle_event_ends, send_drains}

-- Sends back what comes in, and counts the calls of its handlers.
abbrev echo : ℕ → List ℕ → Reply ℕ
echo n [] = record { app = suc n; calls = []; consumed = pos 0 }
echo n (b ∷ bs) = record {
  app = suc n;
  calls = call_send (b ∷ bs) ∷ [];
  consumed = pos (suc (length bs));
}

abbrev echoing : Handlers ℕ
echoing = record { handler = echo; on_close = some (λ n. n + 100) }

-- Takes everything and answers nothing.
abbrev swallow : ℕ → List ℕ → Reply ℕ
swallow n bs = record { app = suc n; calls = []; consumed = pos (length bs) }

abbrev swallowing : Handlers ℕ
swallowing = record { handler = swallow; on_close = none }

-- Closes the connection at the first message, and still wants a byte at a time.
abbrev hang_up : ℕ → List ℕ → Reply ℕ
hang_up n [] = record { app = n; calls = []; consumed = pos 0 }
hang_up n (b ∷ bs) = record { app = suc n; calls = call_close ∷ []; consumed = pos 1 }

abbrev hanging_up : Handlers ℕ
hanging_up = record { handler = hang_up; on_close = none }

abbrev ab : List ℕ
ab = b'a' ∷ b'b' ∷ []

abbrev talking : Conn ℕ
talking = record (fresh 7 0) {
  recvs = got ab ∷ recv_failed eintr ∷ recv_failed eagain ∷ [];
  sends = took 1 ∷ send_failed eagain ∷ [];
}

abbrev after_talk : Conn ℕ
after_talk = record {
  fd = some 7;
  rbuf = record { cap = 4; v = [] };
  outbox = record { cap = 4; v = b'b' ∷ [] };
  closed = false;
  started = false;
  app = 2;
  recvs = [];
  sends = [];
  log = asked [] ∷ consumed ab ∷ sent (b'a' ∷ []) ∷ queued ab ∷ asked ab ∷ received ab ∷ [];
}

talks : handle_event echoing 3 epollin talking ≡ some after_talk
unfolding handle_event inc.Tcp.Conn.handle_read inc.Tcp.Conn.read_loop
    inc.Tcp.Conn.dispatch_messages inc.Tcp.Conn.ask inc.Tcp.Conn.run_calls inc.Tcp.Conn.run_call
    send inc.Tcp.Conn.handle_write inc.Tcp.Conn.write_loop inc.Tcp.Conn.close_now
    inc.Buffer.try_write inc.Buffer.reserve inc.Buffer.remove inc.Buffer.empty bytes make
talks = refl

-- The handler is asked again about what is left after it has closed the connection.
abbrev hung_up : Conn ℕ
hung_up = record (fresh 7 0) {
  fd = none;
  closed = true;
  app = 2;
  rbuf = record { cap = 4; v = [] };
  log =
      asked []
      ∷ consumed (b'b' ∷ [])
      ∷ asked (b'b' ∷ [])
      ∷ consumed (b'a' ∷ [])
      ∷ shut 7
      ∷ unwatched 7
      ∷ asked ab
      ∷ received ab
      ∷ [];
}

hangs_up :
    handle_event hanging_up 3 epollin (record (fresh 7 0) { recvs = got ab ∷ [] }) ≡ some hung_up
unfolding handle_event inc.Tcp.Conn.handle_read inc.Tcp.Conn.read_loop
    inc.Tcp.Conn.dispatch_messages inc.Tcp.Conn.ask inc.Tcp.Conn.run_calls inc.Tcp.Conn.run_call
    close inc.Tcp.Conn.close_now inc.Buffer.try_write inc.Buffer.reserve inc.Buffer.reset
    inc.Buffer.resize inc.Buffer.remove bytes make
hangs_up = refl

opens : is_open {A = ℕ} (fresh 7 0) ≡ true
unfolding is_open
opens = refl

abbrev started : Conn ℕ
started = record (fresh 7 0) { started = true; log = watched 7 epollin ∷ [] }

starts_it : start true (fresh 7 0) ≡ started
unfolding start
starts_it = refl

reached : Reach echoing (fresh 7 0) after_talk
reached =
    next
      (next here (
        kernel (got ab ∷ recv_failed eintr ∷ recv_failed eagain ∷ [])
          (took 1 ∷ send_failed eagain ∷ []) (fresh 7 0)))
      (event 3 epollin {c = talking} {c' = after_talk} talks)

Reach-IsSound_example : IsSound after_talk
Reach-IsSound_example = Reach-IsSound echoing 7 0 after_talk reached

Reach-IsFifo_example : IsFifo after_talk
Reach-IsFifo_example = Reach-IsFifo echoing 7 0 after_talk reached

Reach-IsDelivered_example : IsDelivered after_talk
Reach-IsDelivered_example = Reach-IsDelivered echoing 7 0 after_talk reached

echo-IsHonest : IsHonest echoing
echo-IsHonest app [] n e = ground arith
echo-IsHonest app (b ∷ bs) n e = ground arith

handle_event_ends_example : (c' : Conn ℕ) × (handle_event echoing 3 epollin talking ≡ some c')
unfolding make
handle_event_ends_example = handle_event_ends echoing 3 epollin talking echo-IsHonest (omega arith)

abbrev waiting : Conn ℕ
waiting = record after_talk { sends = took 2 ∷ took 1 ∷ took 5 ∷ took 1 ∷ [] }

send_drains_example :
    let c' = send echoing ab waiting in
    (c'.closed ≡ false) × (c'.outbox.v ≡ []) × (all_sent c'.log ≡ all_queued waiting.log ++ ab)
send_drains_example =
    send_drains echoing 7 0 ab waiting
      (next reached (kernel [] (took 2 ∷ took 1 ∷ took 5 ∷ took 1 ∷ []) after_talk)) refl
      (omega arith, (omega arith, (omega arith, (omega arith, tt)))) (omega arith)

-- Started, with the second of the two bytes that it was given not taken.
abbrev asked_to_send : Conn ℕ
asked_to_send = record (start true (fresh 7 0)) {
  recvs = [];
  sends = took 1 ∷ send_failed eagain ∷ [];
}

abbrev behind : Conn ℕ
behind = record (send swallowing ab asked_to_send) { recvs = got ab ∷ []; sends = took 9 ∷ [] }

abbrev still_behind : Conn ℕ
still_behind = record (fresh 7 0) {
  started = true;
  outbox = record { cap = 4; v = b'b' ∷ [] };
  sends = took 9 ∷ [];
  app = 2;
  rbuf = record { cap = 4; v = [] };
  log =
      asked []
      ∷ consumed ab
      ∷ asked ab
      ∷ received ab
      ∷ sent (b'a' ∷ [])
      ∷ queued ab
      ∷ watched 7 epollin
      ∷ [];
}
