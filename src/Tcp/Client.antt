-- ===== src/Tcp/Client.antt =====
-- net/tcp.hpp: `libtcp::Client`, a connection that is dialled and dialled again. Descriptors are
-- `none` for -1, addresses are their bytes. `alive` says whether the context can be locked.
-- `conn` is the descriptor of `conn_`, and `conns` are those of all open connections that the
-- client made: the context's table keeps a connection alive that `conn_` no longer names.
-- `resolving` counts the background threads that have not resolved yet. Every callback of the
-- application is the last thing that the function calling it does, so what the application
-- does in it is a call that follows: a callback is an entry of `log`, which has the last first.
-- `epoll_ctl` succeeds in adding a descriptor, and the interval of `Reconnect` is not negative.
mod Tests
pub mod Steps
pub mod Invariant
pub mod Closing
pub mod Dialling
use inc.Prelude.{
  ℕ, zero, suc, ◌+◌, ◌-◌, ◌*◌, ◌/◌, ◌%◌, List, [], ◌∷◌, ◌++◌, Bool, true, false, not, ◌&&◌, ◌||◌,
  Option, none, some, ltb, leb, ◌==◌, if◌then◌else◌, length, take, get_or,
}
use inc.Tcp.{einprogress, ewouldblock, epollin, epollout}
use inc.Prelude.Int.{negsuc}
use inc.Tcp.Conn.{Reply, is_fd}

-- `std::errc` as the callback is given it.
pub data Errc : Type 0 where
  host_unreachable : Errc
  operation_canceled : Errc
  connection_refused : Errc
  connection_reset : Errc

pub data Event : Type 0 where
  opened : ℕ → Event
  shut : ℕ → Event
  watched : ℕ → ℕ → Event
  unwatched : ℕ → Event
  timed : ℕ → ℕ → ℕ → Event
  dialled : ℕ → List ℕ → Event
  kept : Event
  dropped : Event
  handed : ℕ → List ℕ → Event
  told_connect : Event
  told_close : Errc → Event

pub record Client : Type 0 where
  pub alive : Bool
  pub conn : Option ℕ
  pub conns : List ℕ
  pub host : List ℕ
  pub port : ℕ
  pub connected : Bool
  pub manual_close : Bool
  pub connecting : Bool
  pub timerfd : Option ℕ
  pub addrs : List (List ℕ)
  pub addr_idx : ℕ
  pub connect_fd : Option ℕ
  pub resolving : ℕ
  pub on_connect : Bool
  pub on_close : Bool
  pub log : List Event

abbrev pub note : Event → Client → Client
note e c = record c { log = e ∷ c.log }

-- `on_close_` and `on_connect_`, where they are set.
abbrev pub tell_close : Errc → Client → Client
tell_close why c = if c.on_close then note (told_close why) c else c

abbrev tell_connect : Client → Client
tell_connect c = if c.on_connect then note told_connect c else c

abbrev pub shut_fd : ℕ → Client → Client
shut_fd fd c = note (shut fd) c

-- `ctx->DelFd`, where the context is there.
abbrev unwatch : ℕ → Client → Client
unwatch fd c = if c.alive then note (unwatched fd) c else c

-- `CancelTimer`, by the descriptor.
abbrev cancel : Option ℕ → Client → Client
cancel none c = c
cancel (some fd) c = record (shut_fd fd (unwatch fd c)) { timerfd = none }

pub cancel_timer : Client → Client
cancel_timer c = cancel c.timerfd c

-- The attempt that is under way is given up.
abbrev give_up : Option ℕ → Client → Client
give_up none c = c
give_up (some fd) c = record (shut_fd fd (unwatch fd c)) { connect_fd = none }

pub drop_attempt : Client → Client
drop_attempt c = give_up c.connect_fd c

-- A descriptor that the client's connections have no longer.
abbrev pub without : ℕ → List ℕ → List ℕ
without fd [] = []
without fd (x ∷ xs) = if fd == x then xs else x ∷ without fd xs

-- The close handler that `OnConnectDone` gives to the connection of `fd`, when `close_now` has
-- closed that descriptor.
pub conn_closed : ℕ → Client → Client
conn_closed fd c =
    let c' = record (note (shut fd) (note (unwatched fd) c)) {
      conns = without fd c.conns;
      connected = false;
      conn = none;
    } in
    if not c.manual_close then tell_close connection_reset c' else c'

abbrev close_conn : Option ℕ → Client → Client
close_conn none c = c
close_conn (some fd) c = conn_closed fd c

pub close : Client → Client
close c =
    let c' = drop_attempt (cancel_timer (record c { manual_close = true })) in
    let c'' = record c' { conn = none } in
    close_conn c.conn (if c.alive then note dropped c'' else c'')

abbrev hand : Option ℕ → List ℕ → Client → Client
hand none bs c = c
hand (some fd) bs c = note (handed fd bs) c

-- `Send`: the bytes go to the `Send` of the connection.
pub send : List ℕ → Client → Client
send bs c = hand c.conn bs c

-- The call of `connect`: no descriptor from `socket`, or a descriptor and 0 or `errno`.
pub data Attempt : Type 0 where
  no_socket : Attempt
  attempt : ℕ → Option ℕ → Attempt

-- The message handler that `OnConnectDone` gives to the connection: without `on_msg_` it refuses.
pub message_handler : {A : Type 0} → Option (A → List ℕ → Reply A) → A → List ℕ → Reply A
message_handler none app bs = record { app = app; calls = []; consumed = negsuc 0 }
message_handler (some on_msg) app bs = on_msg app bs

-- `OnConnectDone`, with the `Start` of the connection.
pub on_connect_done : ℕ → Client → Client
on_connect_done fd c =
    if not c.alive || c.manual_close
    then shut_fd fd (record c { connecting = false })
    else let c' = record c { connecting = false; conn = some fd; conns = fd ∷ c.conns } in
      tell_connect (record (note (watched fd epollin) c') { connected = true })

abbrev pub under_way : ℕ → Client → Client
under_way fd c = note (watched fd epollout) (record c { connect_fd = some fd })

-- `socket` and `connect` of the address at `addr_idx`.
abbrev pub dial : ℕ → Client → Client
dial fd c = note (dialled c.addr_idx (get_or c.addrs c.addr_idx [])) (note (opened fd) c)

-- The loop of `TryConnectNext`. `attempts` are the answers by the index of the address; `none` is a
-- loop that has not come to its end after so many rounds.
pub connect_loop : ℕ → (ℕ → Attempt) → Client → Option Client
connect_loop zero attempts c = none
connect_loop (suc k) attempts c =
    if c.manual_close
    then some c
    else if leb (length c.addrs) c.addr_idx
    then some (tell_close connection_refused (record c { connecting = false }))
    else elim (attempts c.addr_idx) [
      | no_socket ↦ connect_loop k attempts (record c { addr_idx = c.addr_idx + 1 })
      | attempt fd none ↦ some (on_connect_done fd (dial fd c))
      | attempt fd (some e) ↦ elim ((e == einprogress) || (e == ewouldblock)) [
        | true ↦ some (under_way fd (dial fd c))
        | false ↦
            connect_loop k attempts (record (shut_fd fd (dial fd c)) { addr_idx = c.addr_idx + 1 })
      ]
    ]

pub try_connect_next : ℕ → (ℕ → Attempt) → Client → Option Client
try_connect_next k attempts c =
    if c.alive
    then connect_loop k attempts (drop_attempt c)
    else some (tell_close operation_canceled (record c { connecting = false }))

-- One result of `getaddrinfo`.
pub record Info : Type 0 where
  pub family : ℕ
  pub addr : List ℕ

abbrev pub af_inet : ℕ
af_inet = 2

abbrev pub sizeof_sockaddr_in : ℕ
sizeof_sockaddr_in = 16

-- The addresses kept; `ai_addrlen` is the length of `ai_addr`.
pub usable : List Info → List (List ℕ)
usable [] = []
usable (i ∷ infos) =
    if (i.family == af_inet) && leb sizeof_sockaddr_in (length i.addr)
    then take sizeof_sockaddr_in i.addr ∷ usable infos
    else usable infos

-- What the kernel and the resolver answer: `getaddrinfo` fails with `none`.
pub record Answers : Type 0 where
  pub rounds : ℕ
  pub attempts : ℕ → Attempt
  pub resolved : Option (List Info)
  pub timer : Option ℕ

abbrev with_addrs : Answers → List (List ℕ) → Client → Option Client
with_addrs a [] c = some (tell_close host_unreachable c)
with_addrs a (sa ∷ sas) c =
    try_connect_next a.rounds a.attempts (record c { addrs = sa ∷ sas; addr_idx = 0 })

abbrev with_resolved : Answers → Option (List Info) → Client → Option Client
with_resolved a none c = some (tell_close host_unreachable c)
with_resolved a (some infos) c = with_addrs a (usable infos) c

pub do_resolve_and_connect : Answers → Client → Option Client
do_resolve_and_connect a c = with_resolved a a.resolved c

pub connect : Answers → List ℕ → ℕ → Client → Option Client
connect a host port c =
    if not c.alive
    then some c
    else let c' = drop_attempt (
        cancel_timer
          (record c { manual_close = false; connecting = true; host = host; port = port })) in
      if leb (length c'.addrs) c'.addr_idx
      then do_resolve_and_connect a (record c' { addr_idx = 0 })
      else try_connect_next a.rounds a.attempts (record c' { addr_idx = 0 })

-- `timerfd_create` and `timerfd_settime`.
abbrev set_timer : Answers → ℕ → Option ℕ → Client → Client
set_timer a ms none c = c
set_timer a ms (some fd) c =
    let c' =
      note (timed fd (ms / 1000) (ms % 1000 * 1000000))
        (note (opened fd) (record c { timerfd = some fd })) in
    if c.alive then note (watched fd epollin) c' else c'

pub schedule_reconnect : Answers → ℕ → Client → Client
schedule_reconnect a ms c =
    if c.manual_close || c.connected || c.connecting || is_fd c.timerfd
    then c
    else set_timer a ms a.timer (record c { connecting = true })

pub reconnect : Answers → ℕ → Client → Client
reconnect a ms c =
    let c' = cancel_timer (record c { manual_close = false }) in
    if not c'.connected && not c'.connecting then schedule_reconnect a ms c' else c'

pub on_timer : Answers → Client → Option Client
on_timer a c =
    let c' = cancel_timer (record c { connecting = false }) in
    if c'.manual_close
    then some c'
    else if ltb 0 (length c'.addrs)
    then try_connect_next a.rounds a.attempts (record c' { addr_idx = 0 })
    else some (record c' { resolving = c'.resolving + 1 })

-- The background thread of `OnTimer`.
pub resolve_thread : Answers → Client → Option Client
resolve_thread a c = do_resolve_and_connect a (record c { resolving = c.resolving - 1 })

-- `OnConnectEvent`; `err` is the `SO_ERROR` of the descriptor.
abbrev connect_event : Answers → ℕ → Option ℕ → Client → Option Client
connect_event a err none c = some c
connect_event a err (some fd) c =
    let c' = note (unwatched fd) (record c { connect_fd = none }) in
    if c.manual_close
    then some (shut_fd fd (record c' { connecting = false }))
    else if err == 0
    then some (on_connect_done fd c')
    else try_connect_next a.rounds a.attempts
        (record (shut_fd fd c') { addr_idx = c'.addr_idx + 1 })

pub on_connect_event : Answers → ℕ → Client → Option Client
on_connect_event a err c =
    if c.alive then connect_event a err c.connect_fd c else some (record c { connecting = false })

-- `Client::Create`, with the callbacks that are set.
abbrev pub create : Bool → Bool → Client
create on_connect on_close = record {
  alive = true;
  conn = none;
  conns = [];
  host = [];
  port = 0;
  connected = false;
  manual_close = false;
  connecting = false;
  timerfd = none;
  addrs = [];
  addr_idx = 0;
  connect_fd = none;
  resolving = 0;
  on_connect = on_connect;
  on_close = on_close;
  log = [];
}

-- `Context::Dial`.
pub context_dial : Bool → Bool → Answers → List ℕ → ℕ → Option Client
context_dial on_connect on_close a host port =
    connect a host port (note kept (create on_connect on_close))
