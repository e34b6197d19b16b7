-- ===== src/Tcp/Client/Closing.antt =====
-- `Client`: what `Close` puts an end to, and what `Reconnect` and `Connect` then start or do not.
use inc.Prelude.{
  ℕ, zero, suc, ◌+◌, ◌-◌, ◌≡◌, ◌<◌, ◌∙◌, refl, List, [], ◌∷◌, true, false, Option, none, some,
  arith, length,
}
use inc.Tcp.Client.{
  Client, Attempt, no_socket, attempt, Answers, Event, Info, dialled, told_connect, connect_loop,
  on_connect_done, try_connect_next, drop_attempt, cancel_timer, conn_closed, close, send, connect,
  reconnect, resolve_thread, do_resolve_and_connect, usable, dial, shut_fd,
}
use inc.Tcp.Client.Steps.{
  Step, connects, reconnects, sends, closes, fires, resolves, decides, loses, expires, Reach, here,
  next, IsPassive, ArePassive,
}

-- How often an address was dialled, and the connect callback called.
abbrev pub starts : List Event → ℕ
starts [] = 0
starts (dialled i sa ∷ log) = suc (starts log)
starts (told_connect ∷ log) = suc (starts log)
starts (_ ∷ log) = starts log

-- Closed by the application: nothing is held that could start a connection.
abbrev pub IsQuiet : Client → Type 0
IsQuiet c = (c.manual_close ≡ true) × (c.conn ≡ none) × (c.timerfd ≡ none) × (c.connect_fd ≡ none)

abbrev Stays : Client → Client → Type 0
Stays c c' = IsQuiet c' × (starts c'.log ≡ starts c.log)

pub close-IsQuiet : (c : Client) → IsQuiet (close c) × (starts (close c).log ≡ starts c.log)
unfolding close conn_closed cancel_timer drop_attempt
close-IsQuiet c = ground arith

try_connect_next_quiet :
    (k : ℕ) (attempts : ℕ → Attempt) (c c' : Client)
    → try_connect_next k attempts c ≡ some c'
    → IsQuiet c
    → Stays c c'
unfolding try_connect_next connect_loop drop_attempt
try_connect_next_quiet zero attempts c c' e h = ground arith
try_connect_next_quiet (suc k) attempts c c' e h = ground arith

resolve_thread_quiet :
    (a : Answers) (c c' : Client) → resolve_thread a c ≡ some c' → IsQuiet c → Stays c c'
unfolding resolve_thread do_resolve_and_connect
resolve_thread_quiet a c c' e h = by_result a.resolved refl
  where
    by_addrs :
        (infos : List Info)
        → a.resolved ≡ some infos
        → (sas : List (List ℕ)) → usable infos ≡ sas
        → Stays c c'
    by_addrs infos r [] u = ground arith
    by_addrs infos r (sa ∷ sas) u = ground (
      arith,
      try_connect_next_quiet a.rounds a.attempts
          (record c { resolving = c.resolving - 1; addrs = sa ∷ sas; addr_idx = 0 }) c',
    )

    by_result : (r : Option (List Info)) → a.resolved ≡ r → Stays c c'
    by_result none r = ground arith
    by_result (some infos) r = by_addrs infos r (usable infos) refl

Step_quiet : {c c' : Client} → (st : Step c c') → IsPassive st → IsQuiet c → Stays c c'
unfolding send conn_closed
Step_quiet (connects a host port {c} {c'} e) p h = absurd p
Step_quiet (reconnects a ms c) p h = absurd p
Step_quiet (sends bs c) p h = ground arith
Step_quiet (closes c) p h = close-IsQuiet c
Step_quiet (fires a {c} {c'} t e) p h = ground arith
Step_quiet (resolves a {c} {c'} t e) p h = resolve_thread_quiet a c c' e h
Step_quiet (decides a err {c} {c'} t e) p h = ground arith
Step_quiet (loses fd c m) p h = ground arith
Step_quiet (expires c) p h = (h, refl)

-- After `Close`, until the application calls `Connect` or `Reconnect`, whatever else is called and
-- whatever happens, a background thread that ends late included, the client has no connection,
-- no timer and no attempt under way, no address is dialled and the connect callback is not called.
pub close_final :
    (c c' : Client) (r : Reach (close c) c')
    → ArePassive r
    → IsQuiet c' × (starts c'.log ≡ starts c.log)
close_final c c' here p = close-IsQuiet c
close_final c c' (next {c' = d} r st) p =
    let (q, n) = close_final c d r p.0 in let (q', n') = Step_quiet st p.1 q in (q', n' ∙ n)

-- Said to be connecting, with nothing that could bring a connection about.
abbrev pub IsHalted : Client → Type 0
IsHalted c = (c.connecting ≡ true) × (c.timerfd ≡ none) × (c.connect_fd ≡ none) × (c.resolving ≡ 0)

-- No `Connect`.
abbrev pub IsUndialled : {c c' : Client} → Step c c' → Type 0
IsUndialled (connects a host port e) = ⊥
IsUndialled _ = Unit

abbrev pub AreUndialled : {c c' : Client} → Reach c c' → Type 0
AreUndialled here = Unit
AreUndialled (next r st) = AreUndialled r × IsUndialled st

abbrev StaysHalted : Client → Client → Type 0
StaysHalted c c' = IsHalted c' × (starts c'.log ≡ starts c.log)

reconnect_stops :
    (a : Answers) (ms : ℕ) (c : Client)
    → c.connecting ≡ true
    → c.connect_fd ≡ none
    → c.resolving ≡ 0
    → StaysHalted c (reconnect a ms c)
unfolding reconnect cancel_timer
reconnect_stops a ms c busy idle quiet = ground arith

Step_stuck : {c c' : Client} → (st : Step c c') → IsUndialled st → IsHalted c → StaysHalted c c'
unfolding send close conn_closed cancel_timer drop_attempt
Step_stuck (connects a host port {c} {c'} e) p h = absurd p
Step_stuck (reconnects a ms c) p h = reconnect_stops a ms c h.0 h.2 h.3
Step_stuck (sends bs c) p h = ground arith
Step_stuck (closes c) p h = ground arith
Step_stuck (fires a {c} {c'} t e) p h = ground arith
Step_stuck (resolves a {c} {c'} t e) p h = absurd (omega (arith, h.3))
Step_stuck (decides a err {c} {c'} t e) p h = ground arith
Step_stuck (loses fd c m) p h = ground arith
Step_stuck (expires c) p h = (h, refl)

-- After a `Reconnect` of a client that is connecting, with no attempt under way and no thread that
-- resolves, so one that waits for the timer of an earlier `Reconnect` or no longer for anything:
-- until the application calls `Connect`, whatever else is called, `Reconnect` included, and whatever
-- happens, it is still connecting and has no timer, no attempt and no thread, no address is dialled
-- and the connect callback is not called.
pub reconnect_stuck :
    (a : Answers) (ms : ℕ) (c c' : Client) (r : Reach (reconnect a ms c) c')
    → c.connecting ≡ true
    → c.connect_fd ≡ none
    → c.resolving ≡ 0
    → AreUndialled r
    → IsHalted c' × (starts c'.log ≡ starts c.log)
reconnect_stuck a ms c c' here busy idle quiet p = reconnect_stops a ms c busy idle quiet
reconnect_stuck a ms c c' (next {c' = d} r st) busy idle quiet p =
    let (q, n) = reconnect_stuck a ms c d r busy idle quiet p.0 in
    let (q', n') = Step_stuck st p.1 q in (q', n' ∙ n)

connect_loop_same :
    (k : ℕ) (attempts : ℕ → Attempt) (c c' : Client)
    → connect_loop k attempts c ≡ some c'
    → (c'.addrs ≡ c.addrs) × (c'.host ≡ c.host)
unfolding connect_loop on_connect_done
connect_loop_same zero attempts c c' e = ground arith
connect_loop_same (suc k) attempts c c' e =
    by_attempt (λ d. connect_loop_same k attempts d c') (attempts c.addr_idx) refl
  where
    by_attempt :
        ((d : Client)
          → connect_loop k attempts d ≡ some c'
          → (c'.addrs ≡ d.addrs) × (c'.host ≡ d.host))
        → (a : Attempt) → attempts c.addr_idx ≡ a
        → (c'.addrs ≡ c.addrs) × (c'.host ≡ c.host)
    by_attempt again no_socket p = ground (arith, again (record c { addr_idx = c.addr_idx + 1 }))
    by_attempt again (attempt fd none) p = ground arith
    by_attempt again (attempt fd (some x)) p =
        ground (arith, again (record (shut_fd fd (dial fd c)) { addr_idx = c.addr_idx + 1 }))

try_connect_next_same :
    (k : ℕ) (attempts : ℕ → Attempt) (c c' : Client)
    → try_connect_next k attempts c ≡ some c'
    → (c'.addrs ≡ c.addrs) × (c'.host ≡ c.host)
unfolding try_connect_next drop_attempt
try_connect_next_same k attempts c c' e =
    ground (arith, connect_loop_same k attempts (drop_attempt c) c')

stopped_same :
    (c : Client)
    → let d = drop_attempt (cancel_timer c) in
      (d.addrs ≡ c.addrs) × (d.host ≡ c.host) × (d.addr_idx ≡ c.addr_idx)
unfolding drop_attempt cancel_timer
stopped_same c = ground arith

-- `Connect` to any host and port, while an earlier list of addresses has one left at `addr_idx_`, sets
-- `host_` and dials the addresses of that earlier list: the host is not resolved.
pub connect_reuses :
    (a : Answers) (host : List ℕ) (port : ℕ) (c c' : Client)
    → c.alive ≡ true
    → c.addr_idx < length c.addrs
    → connect a host port c ≡ some c'
    → (c'.host ≡ host) × (c'.addrs ≡ c.addrs)
unfolding connect
connect_reuses a host port c c' live l e =
    let c1 = record c { manual_close = false; connecting = true; host = host; port = port } in
    let c2 = drop_attempt (cancel_timer c1) in
    ground (
      arith,
      stopped_same c1,
      try_connect_next_same a.rounds a.attempts (record c2 { addr_idx = 0 }) c',
    )
