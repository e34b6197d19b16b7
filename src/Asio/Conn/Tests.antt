-- ===== src/Asio/Conn/Tests.antt =====
-- A connection that echoes, and the theorems at its runs.
use inc.Prelude.{ℕ, suc, ◌+◌, ◌≡◌, refl, List, [], ◌∷◌, true, false, none, some, arith, length}
use inc.Prelude.Int.{pos}
use inc.Buffer.{Buffer, make}
use inc.Asio.Conn.{
  start_task, send_task, close_task, Reply, Handlers, given, written, lost, told_close, Conn, post,
  run_first, read_done, write_done,
}
use inc.Asio.Conn.Invariant.{calls, runs, reads, writes, Reach, here, next, fresh, IsSteady}
use inc.Asio.Conn.Safety.{Reach-IsSteady}
use inc.Asio.Conn.Order.{InOrder, written_of}
use inc.Asio.Conn.Delivery.{Reach-InOrder}
use inc.Asio.Conn.Draining.{succeed, drains}
use inc.Asio.Conn.Ending.{IsHonest, read_done_ends}

-- Sends back what comes in, and counts the calls of its handlers.
abbrev echo : ℕ → List ℕ → Reply ℕ
echo n [] = record { app = suc n; calls = []; consumed = pos 0 }
echo n (b ∷ bs) = record {
  app = suc n;
  calls = send_task (b ∷ bs) ∷ [];
  consumed = pos (suc (length bs));
}

abbrev bye : ℕ → Reply ℕ
bye n = record { app = n + 100; calls = close_task ∷ []; consumed = pos 0 }

abbrev echoing : Handlers ℕ
echoing = record { handler = echo; on_close = some bye }

abbrev ab : List ℕ
ab = b'a' ∷ b'b' ∷ []

abbrev cd : List ℕ
cd = b'c' ∷ b'd' ∷ []

-- Started, given two messages and with the first of them under way.
abbrev started_conn : Conn ℕ
started_conn = run_first echoing (start_task ∷ []) (post start_task (fresh 0))

abbrev given_two : Conn ℕ
given_two = post (send_task cd) (post (send_task ab) started_conn)

abbrev sending : Conn ℕ
sending = record (fresh 0) {
  outbox = ab ∷ cd ∷ [];
  writing = true;
  started = true;
  reading = true;
  pending = some ab;
  log = given cd ∷ given ab ∷ [];
}

-- What came was given back to `Send`, and the write fails.
abbrev echoed : Conn ℕ
echoed = record sending {
  rbuf = record { cap = 4; v = [] };
  app = 2;
  tasks = send_task ab ∷ [];
  log = given ab ∷ given cd ∷ given ab ∷ [];
}

abbrev failed : Conn ℕ
failed = write_done echoing ab true echoed

fails : failed ≡ record echoed {
  up = false;
  outbox = [];
  writing = false;
  closed = true;
  app = 102;
  tasks = send_task ab ∷ close_task ∷ [];
  pending = none;
  log = told_close ∷ lost ab ∷ given ab ∷ given cd ∷ given ab ∷ [];
}
unfolding write_done inc.Asio.Conn.handle_close inc.Asio.Conn.close_now inc.Asio.Conn.tell
    inc.Asio.Conn.post_all post
fails = refl

reach_sending : Reach echoing (fresh 0) sending
unfolding post run_first inc.Asio.Conn.run_task inc.Asio.Conn.start_now inc.Asio.Conn.send_now
    inc.Asio.Conn.do_read inc.Asio.Conn.do_write inc.Asio.Conn.begin_write
reach_sending =
    next
      (next
        (next
          (next (next (next here (calls start_task (fresh 0))) (runs _))
            (calls (send_task ab) started_conn))
          (calls (send_task cd) _))
        (runs given_two))
      (runs _)

reach_echoed : Reach echoing (fresh 0) echoed
unfolding read_done inc.Asio.Conn.dispatch_messages inc.Asio.Conn.ask inc.Asio.Conn.post_all post
    inc.Asio.Conn.do_read inc.Buffer.try_write inc.Buffer.reserve inc.Buffer.remove inc.Buffer.bytes
    inc.Buffer.empty make
reach_echoed = next reach_sending (reads 3 (some ab) refl refl)

reach_failed : Reach echoing (fresh 0) failed
reach_failed = next reach_echoed (writes ab true echoed refl)

Reach-IsSteady_example : IsSteady echoing false failed
Reach-IsSteady_example = Reach-IsSteady echoing 0 reach_failed

Reach-InOrder_example : InOrder echoed
Reach-InOrder_example = Reach-InOrder echoing 0 reach_echoed

drains_example :
    let d = succeed echoing 2 sending in
    (d.outbox ≡ []) × (d.writing ≡ false) × (written_of d.log ≡ ab ∷ cd ∷ [])
drains_example = drains echoing 0 reach_sending refl

echo-IsHonest : IsHonest echoing
echo-IsHonest n [] k e = ground arith
echo-IsHonest n (b ∷ bs) k e = ground arith

read_done_ends_example : (c' : Conn ℕ) × (read_done echoing 5 (some ab) sending ≡ some c')
unfolding make
read_done_ends_example = read_done_ends echoing (some ab) 5 sending echo-IsHonest (omega arith)
