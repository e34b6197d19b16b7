-- ===== src/Tcp/Client/Invariant.antt =====
-- `Client`: the flag `connected_` is right, and every descriptor is held once until it is closed.
use inc.Prelude.{
  ℕ, zero, suc, ◌+◌, ◌-◌, ◌≡◌, refl, List, [], ◌∷◌, Bool, true, false, Option, none, some, arith,
  length,
}
use inc.Tcp.Conn.{is_fd}
use inc.Tcp.Client.Steps.{
  Step, connects, reconnects, sends, closes, fires, resolves, decides, loses, expires, Reach, here,
  next, elem,
}
use inc.Tcp.Client.{
  Client, Attempt, no_socket, attempt, Answers, Event, opened, shut, connect_loop, on_connect_done,
  try_connect_next, drop_attempt, cancel_timer, conn_closed, close, send, connect, reconnect,
  schedule_reconnect, on_timer, resolve_thread, on_connect_event, do_resolve_and_connect, without,
  create, Info, usable, unwatched, note, dial, shut_fd,
}

abbrev pub opens : List Event → ℕ
opens [] = 0
opens (opened fd ∷ log) = suc (opens log)
opens (_ ∷ log) = opens log

abbrev pub shuts : List Event → ℕ
shuts [] = 0
shuts (shut fd ∷ log) = suc (shuts log)
shuts (_ ∷ log) = shuts log

abbrev pub one : Option ℕ → ℕ
one none = 0
one (some fd) = 1

abbrev pub IsHeld : Option ℕ → List ℕ → Type 0
IsHeld none conns = Unit
IsHeld (some fd) conns = elem fd conns ≡ true

-- `extra` descriptors are in the hands of the function that runs.
pub record IsBalanced (extra : ℕ) (c : Client) : Type 0 where
  pub flag : c.connected ≡ is_fd c.conn
  pub held : IsHeld c.conn c.conns
  pub balance :
      opens c.log ≡ shuts c.log + one c.connect_fd + one c.timerfd + length c.conns + extra

length-without :
    (fd : ℕ) (xs : List ℕ) → elem fd xs ≡ true → length xs ≡ suc (length (without fd xs))
length-without fd [] h = absurd (ground arith)
length-without fd (x ∷ xs) h = ground (arith, length-without fd xs)

module _ (n : ℕ) (c : Client) (h : IsBalanced n c) where
  pub cancel_timer-IsBalanced : IsBalanced n (cancel_timer c) × ((cancel_timer c).timerfd ≡ none)
  unfolding cancel_timer
  cancel_timer-IsBalanced = ground arith

  pub drop_attempt-IsBalanced : IsBalanced n (drop_attempt c) × ((drop_attempt c).connect_fd ≡ none)
  unfolding drop_attempt
  drop_attempt-IsBalanced = ground arith

  conn_closed-IsBalanced : (fd : ℕ) → elem fd c.conns ≡ true → IsBalanced n (conn_closed fd c)
  unfolding conn_closed
  conn_closed-IsBalanced fd m = ground (arith, length-without fd c.conns m)

on_connect_done-IsBalanced :
    (fd : ℕ) (c : Client) → IsBalanced 1 c → IsBalanced 0 (on_connect_done fd c)
unfolding on_connect_done
on_connect_done-IsBalanced fd c h = ground arith

connect_loop-IsBalanced :
    (k : ℕ) (attempts : ℕ → Attempt) (c c' : Client)
    → connect_loop k attempts c ≡ some c'
    → c.connect_fd ≡ none
    → IsBalanced 0 c
    → IsBalanced 0 c'
unfolding connect_loop
connect_loop-IsBalanced zero attempts c c' e q h = ground arith
connect_loop-IsBalanced (suc k) attempts c c' e q h =
    by_attempt (λ d. connect_loop-IsBalanced k attempts d c') (attempts c.addr_idx) refl
  where
    by_attempt :
        ((d : Client)
          → connect_loop k attempts d ≡ some c'
          → d.connect_fd ≡ none
          → IsBalanced 0 d
          → IsBalanced 0 c')
        → (a : Attempt) → attempts c.addr_idx ≡ a
        → IsBalanced 0 c'
    by_attempt again no_socket p = ground (arith, again (record c { addr_idx = c.addr_idx + 1 }))
    by_attempt again (attempt fd none) p = ground (arith, on_connect_done-IsBalanced fd (dial fd c))
    by_attempt again (attempt fd (some x)) p =
        ground (arith, again (record (shut_fd fd (dial fd c)) { addr_idx = c.addr_idx + 1 }))

try_connect_next-IsBalanced :
    (k : ℕ) (attempts : ℕ → Attempt) (c c' : Client)
    → try_connect_next k attempts c ≡ some c'
    → IsBalanced 0 c
    → IsBalanced 0 c'
unfolding try_connect_next
try_connect_next-IsBalanced k attempts c c' e h =
    let (s, q) = drop_attempt-IsBalanced 0 c h in
    ground (arith, connect_loop-IsBalanced k attempts (drop_attempt c) c' _ q s)

do_resolve_and_connect-IsBalanced :
    (a : Answers) (c c' : Client)
    → do_resolve_and_connect a c ≡ some c'
    → IsBalanced 0 c
    → IsBalanced 0 c'
unfolding do_resolve_and_connect
do_resolve_and_connect-IsBalanced a c c' e h = by_result a.resolved refl
  where
    by_addrs :
        (infos : List Info)
        → a.resolved ≡ some infos
        → (sas : List (List ℕ)) → usable infos ≡ sas
        → IsBalanced 0 c'
    by_addrs infos r [] u = ground arith
    by_addrs infos r (sa ∷ sas) u = ground (
      arith,
      try_connect_next-IsBalanced a.rounds a.attempts (record c { addrs = sa ∷ sas; addr_idx = 0 })
          c',
    )

    by_result : (r : Option (List Info)) → a.resolved ≡ r → IsBalanced 0 c'
    by_result none r = ground arith
    by_result (some infos) r = by_addrs infos r (usable infos) refl

connect-IsBalanced :
    (a : Answers) (host : List ℕ) (port : ℕ) (c c' : Client)
    → connect a host port c ≡ some c'
    → IsBalanced 0 c
    → IsBalanced 0 c'
unfolding connect
connect-IsBalanced a host port c c' e h =
    let c1 = record c { manual_close = false; connecting = true; host = host; port = port } in
    let s1 : IsBalanced 0 c1 = record { flag = h.flag; held = h.held; balance = h.balance } in
    let c2 = drop_attempt (cancel_timer c1) in
    let s2 = (drop_attempt-IsBalanced 0 (cancel_timer c1) (cancel_timer-IsBalanced 0 c1 s1).0).0 in
    ground (
      arith,
      do_resolve_and_connect-IsBalanced a (record c2 { addr_idx = 0 }) c',
      try_connect_next-IsBalanced a.rounds a.attempts (record c2 { addr_idx = 0 }) c',
    )

reconnect-IsBalanced :
    (a : Answers) (ms : ℕ) (c : Client) → IsBalanced 0 c → IsBalanced 0 (reconnect a ms c)
unfolding reconnect schedule_reconnect
reconnect-IsBalanced a ms c h =
    let c1 = record c { manual_close = false } in
    let s1 : IsBalanced 0 c1 = record { flag = h.flag; held = h.held; balance = h.balance } in
    let s2 = cancel_timer-IsBalanced 0 c1 s1 in ground arith

close-IsBalanced : (c : Client) → IsBalanced 0 c → IsBalanced 0 (close c)
unfolding close conn_closed cancel_timer drop_attempt
close-IsBalanced c h = by_conn c.conn refl
  where
    by_conn : (o : Option ℕ) → c.conn ≡ o → IsBalanced 0 (close c)
    by_conn none q = ground arith
    by_conn (some fd) q = ground (arith, length-without fd c.conns)

send-IsBalanced : (bs : List ℕ) (c : Client) → IsBalanced 0 c → IsBalanced 0 (send bs c)
unfolding send
send-IsBalanced bs c h = ground arith

on_timer-IsBalanced :
    (a : Answers) (c c' : Client) → on_timer a c ≡ some c' → IsBalanced 0 c → IsBalanced 0 c'
unfolding on_timer
on_timer-IsBalanced a c c' e h =
    let c1 = record c { connecting = false } in
    let s1 : IsBalanced 0 c1 = record { flag = h.flag; held = h.held; balance = h.balance } in
    let c2 = cancel_timer c1 in
    let s2 = (cancel_timer-IsBalanced 0 c1 s1).0 in
    ground (arith, try_connect_next-IsBalanced a.rounds a.attempts (record c2 { addr_idx = 0 }) c')

resolve_thread-IsBalanced :
    (a : Answers) (c c' : Client) → resolve_thread a c ≡ some c' → IsBalanced 0 c → IsBalanced 0 c'
unfolding resolve_thread
resolve_thread-IsBalanced a c c' e h =
    do_resolve_and_connect-IsBalanced a (record c { resolving = c.resolving - 1 }) c' e
      (record { flag = h.flag; held = h.held; balance = h.balance })

on_connect_event-IsBalanced :
    (a : Answers) (err : ℕ) (c c' : Client)
    → on_connect_event a err c ≡ some c'
    → IsBalanced 0 c
    → IsBalanced 0 c'
unfolding on_connect_event
on_connect_event-IsBalanced a err c c' e h = by_fd c.connect_fd refl
  where
    by_fd : (o : Option ℕ) → c.connect_fd ≡ o → IsBalanced 0 c'
    by_fd none q = ground arith
    by_fd (some fd) q =
        let d = note (unwatched fd) (record c { connect_fd = none }) in
        ground (
          arith,
          on_connect_done-IsBalanced fd d,
          try_connect_next-IsBalanced a.rounds a.attempts
              (record (shut_fd fd d) { addr_idx = d.addr_idx + 1 }) c',
        )

Step-IsBalanced : {c c' : Client} → Step c c' → IsBalanced 0 c → IsBalanced 0 c'
Step-IsBalanced (connects a host port {c} {c'} e) h = connect-IsBalanced a host port c c' e h
Step-IsBalanced (reconnects a ms c) h = reconnect-IsBalanced a ms c h
Step-IsBalanced (sends bs c) h = send-IsBalanced bs c h
Step-IsBalanced (closes c) h = close-IsBalanced c h
Step-IsBalanced (fires a {c} {c'} t e) h = on_timer-IsBalanced a c c' e h
Step-IsBalanced (resolves a {c} {c'} t e) h = resolve_thread-IsBalanced a c c' e h
Step-IsBalanced (decides a err {c} {c'} t e) h = on_connect_event-IsBalanced a err c c' e h
Step-IsBalanced (loses fd c m) h = conn_closed-IsBalanced 0 c h fd m
Step-IsBalanced (expires c) h = record { flag = h.flag; held = h.held; balance = h.balance }

create-IsBalanced : (on_connect on_close : Bool) → IsBalanced 0 (create on_connect on_close)
create-IsBalanced on_connect on_close = ground arith

-- Whatever is called and whatever happens to a new client: `IsConnected` says exactly whether there
-- is a connection, `conn_` is one of the open connections that the client made, and the descriptors
-- opened are those closed, the attempt under way, the timer and the open connections, one each.
pub Reach-IsBalanced :
    (on_connect on_close : Bool) (c : Client)
    → Reach (create on_connect on_close) c
    → IsBalanced 0 c
Reach-IsBalanced on_connect on_close c here = create-IsBalanced on_connect on_close
Reach-IsBalanced on_connect on_close c (next {c' = d} r st) =
    Step-IsBalanced st (Reach-IsBalanced on_connect on_close d r)
