-- ===== src/Tcp/Client/Tests.antt =====
-- Runs of a client, and the theorems at concrete inputs.
use inc.Prelude.{ℕ, zero, suc, ◌≡◌, refl, List, [], ◌∷◌, true, false, none, some, arith, replicate}
use inc.Tcp.Client.{
  Client, Attempt, no_socket, attempt, Answers, Event, Info, opened, shut, watched, unwatched,
  dialled, told_connect, told_close, kept, connection_reset, connection_refused, connect, reconnect,
  close, send, create, context_dial, on_connect_event, on_timer, resolve_thread, conn_closed,
  try_connect_next, drop_attempt, handed,
}
use inc.Tcp.Client.Steps.{reconnects, closes, connects, sends, decides, Reach, here, next}
use inc.Tcp.Client.Dialling.{FirstUsable, try_connect_next_lem}
use inc.Tcp.Client.Invariant.{IsBalanced, Reach-IsBalanced}
use inc.Tcp.Client.Closing.{IsQuiet, close_final, reconnect_stuck, IsHalted, starts}

abbrev sa : ℕ → List ℕ
sa n = 2 ∷ 0 ∷ n ∷ replicate 13 0

-- The first address refuses, the second goes on in the background, the third connects at once.
abbrev tries : ℕ → Attempt
tries zero = attempt 5 (some 111)
tries (suc zero) = attempt 6 (some 115)
tries (suc (suc zero)) = attempt 7 none
tries _ = no_socket

abbrev answers : Answers
answers = record {
  rounds = 9;
  attempts = tries;
  resolved = some (
      record { family = 2; addr = sa 1 }
      ∷ record { family = 10; addr = sa 9 }
      ∷ record { family = 2; addr = sa 2 }
      ∷ record { family = 2; addr = 2 ∷ [] }
      ∷ record { family = 2; addr = sa 3 }
      ∷ []);
  timer = some 40;
}

abbrev home : List ℕ
home = b'h' ∷ []

abbrev dialling : Client
dialling = record (create true true) {
  host = home;
  port = 80;
  connecting = true;
  addrs = sa 1 ∷ sa 2 ∷ sa 3 ∷ [];
  addr_idx = 1;
  connect_fd = some 6;
  log = watched 6 4 ∷ dialled 1 (sa 2) ∷ opened 6 ∷ shut 5 ∷ dialled 0 (sa 1) ∷ opened 5 ∷ [];
}

dials : connect answers home 80 (create true true) ≡ some dialling
unfolding connect inc.Tcp.Client.cancel_timer drop_attempt inc.Tcp.Client.do_resolve_and_connect
    inc.Tcp.Client.usable try_connect_next inc.Tcp.Client.connect_loop
dials = refl

-- The second address fails later, and the third is connected.
abbrev up : Client
up = record dialling {
  connecting = false;
  connected = true;
  addr_idx = 2;
  connect_fd = none;
  conn = some 7;
  conns = 7 ∷ [];
  log =
      told_connect
      ∷ watched 7 1
      ∷ dialled 2 (sa 3)
      ∷ opened 7
      ∷ shut 6
      ∷ unwatched 6
      ∷ dialling.log;
}

comes_up : on_connect_event answers 61 dialling ≡ some up
unfolding on_connect_event drop_attempt try_connect_next inc.Tcp.Client.connect_loop
    inc.Tcp.Client.on_connect_done
comes_up = refl

sends_on : send (1 ∷ []) up ≡ record up { log = handed 7 (1 ∷ []) ∷ up.log }
unfolding send
sends_on = refl

-- `Connect` of a connected client leaves the old connection open, and unnamed.
abbrev away : List ℕ
away = b'x' ∷ []

abbrev up_again : Client
up_again = record up {
  host = away;
  addr_idx = 0;
  conn = some 8;
  conns = 8 ∷ 7 ∷ [];
  log = told_connect ∷ watched 8 1 ∷ dialled 0 (sa 1) ∷ opened 8 ∷ up.log;
}

connects_twice :
    connect (record answers { attempts = λ i. attempt 8 none }) away 80 up ≡ some up_again
unfolding connect inc.Tcp.Client.cancel_timer drop_attempt try_connect_next
    inc.Tcp.Client.connect_loop inc.Tcp.Client.on_connect_done
connects_twice = refl

-- When the old one is closed by the peer, the client takes the new one for closed.
loses_both : conn_closed 7 up_again ≡ record up_again {
  connected = false;
  conn = none;
  conns = 8 ∷ [];
  log = told_close connection_reset ∷ shut 7 ∷ unwatched 7 ∷ up_again.log;
}
unfolding conn_closed
loses_both = refl

dialled_context :
    context_dial true true answers home 80
    ≡ some (record dialling {
      log =
          watched 6 4
          ∷ dialled 1 (sa 2)
          ∷ opened 6
          ∷ shut 5
          ∷ dialled 0 (sa 1)
          ∷ opened 5
          ∷ kept
          ∷ [];
    })
unfolding context_dial connect inc.Tcp.Client.cancel_timer drop_attempt
    inc.Tcp.Client.do_resolve_and_connect inc.Tcp.Client.usable try_connect_next
    inc.Tcp.Client.connect_loop
dialled_context = refl

abbrev waiting : Client
waiting = reconnect answers 1500 (create true true)

waits : (waiting.timerfd ≡ some 40) × (waiting.connecting ≡ true)
unfolding reconnect inc.Tcp.Client.cancel_timer inc.Tcp.Client.schedule_reconnect
waits = (refl, refl)

fires_to_thread : (c : Client) × (on_timer answers waiting ≡ some c) × (c.resolving ≡ 1)
unfolding on_timer reconnect inc.Tcp.Client.cancel_timer inc.Tcp.Client.schedule_reconnect
fires_to_thread = (_, refl, refl)

try_connect_next_lem_example :
    (c' : Client) × (try_connect_next 9 tries dialling ≡ some c')
    × FirstUsable tries (drop_attempt dialling) c'
try_connect_next_lem_example =
    try_connect_next_lem 9 tries dialling refl refl (omega arith) (omega arith)

reached : Reach (create true true) up
reached =
    next (next here (connects answers home 80 {c = create true true} {c' = dialling} dials))
      (decides answers 61 {c = dialling} {c' = up} refl comes_up)

Reach-IsBalanced_example : IsBalanced 0 up
Reach-IsBalanced_example = Reach-IsBalanced true true up reached

close_final_example :
    IsQuiet (send (1 ∷ []) (close up)) × (starts (send (1 ∷ []) (close up)).log ≡ starts up.log)
close_final_example =
    close_final up (send (1 ∷ []) (close up)) (next here (sends (1 ∷ []) (close up))) (tt, tt)

-- A second `Reconnect`, then a third, a `Close` and a fourth.
abbrev dead : Client
dead = reconnect answers 50 (close (reconnect answers 200 (reconnect answers 100 waiting)))

reconnect_stuck_example : IsHalted dead × (starts dead.log ≡ starts waiting.log)
unfolding reconnect inc.Tcp.Client.cancel_timer inc.Tcp.Client.schedule_reconnect
reconnect_stuck_example =
    reconnect_stuck answers 100 waiting dead
      (next
        (next (next here (reconnects answers 200 (reconnect answers 100 waiting)))
          (closes (reconnect answers 200 (reconnect answers 100 waiting))))
        (reconnects answers 50 (close (reconnect answers 200 (reconnect answers 100 waiting)))))
      refl refl refl (((tt, tt), tt), tt)
