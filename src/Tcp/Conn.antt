-- ===== src/Tcp/Conn.antt =====
-- net/tcp.hpp: `libtcp::Conn`, a connection. `fd` is `fd_`, with `none` for -1. The callbacks are
-- functions on a state `app` of the application: the message handler may call `Send` and `Close`,
-- and what it returns comes after those calls. `recvs` and `sends` are the answers that the
-- kernel gives from here on; when they run out, the call would block. `log` is what was done,
-- the last first. A call on the descriptor -1 fails with `EBADF`.
pub mod Streams
mod Tests
pub mod Progress
pub mod Moves
pub mod Invariant
use inc.Prelude.{
  ℕ, zero, suc, List, [], ◌∷◌, Bool, true, false, not, ◌&&◌, ◌||◌, Option, none, some, ◌>>=◌, ltb,
  ◌==◌, if◌then◌else◌, take, bit_or,
}
use inc.Prelude.Int.{ℤ, pos, negsuc}
use inc.Buffer.{Buffer, empty, bytes, try_write, reset, remove}
use inc.Tcp.{
  eintr, would_block, has, epollin, epollout, epollerr, epollhup, Received, got, recv_failed, Sent,
  took, send_failed,
}

pub data Call : Type 0 where
  call_send : List ℕ → Call
  call_close : Call

-- What the message handler does: its calls of the connection, and the number of bytes consumed.
pub record Reply (A : Type 0) : Type 0 where
  pub app : A
  pub calls : List Call
  pub consumed : ℤ

pub record Handlers (A : Type 0) : Type 0 where
  pub handler : A → List ℕ → Reply A
  pub on_close : Option (A → A)

pub data Event : Type 0 where
  watched : ℕ → ℕ → Event
  unwatched : ℕ → Event
  shut : ℕ → Event
  told_close : Event
  asked : List ℕ → Event
  received : List ℕ → Event
  consumed : List ℕ → Event
  queued : List ℕ → Event
  sent : List ℕ → Event

pub record Conn (A : Type 0) : Type 0 where
  pub fd : Option ℕ
  pub rbuf : Buffer
  pub outbox : Buffer
  pub closed : Bool
  pub started : Bool
  pub app : A
  pub recvs : List Received
  pub sends : List Sent
  pub log : List Event

abbrev pub is_fd : Option ℕ → Bool
is_fd none = false
is_fd (some fd) = true

module _ {A : Type 0} where
  abbrev pub note : Event → Conn A → Conn A
  note e c = record c { log = e ∷ c.log }

  pub is_open : Conn A → Bool
  is_open c = is_fd c.fd && not c.closed

  -- `ctx_->AddFd`, with the default `EPOLLIN`, whose result is not looked at; `added` says whether `epoll_ctl` succeeded.
  abbrev watch : Bool → Option ℕ → Conn A → Conn A
  watch true (some fd) c = note (watched fd epollin) c
  watch _ _ c = c

  pub start : Bool → Conn A → Conn A
  start added c = if c.started then c else watch added c.fd (record c { started = true })

  -- `DelFd` when the owner is told, and `detail::CloseFd`.
  abbrev close_fd : Bool → Option ℕ → Conn A → Conn A
  close_fd notify none c = c
  close_fd notify (some fd) c =
      note (shut fd) (record (if notify then note (unwatched fd) c else c) { fd = none })

  -- `outbox_.Write`, from a pointer that is not null.
  abbrev pub queue : List ℕ → Conn A → Conn A
  queue bs c = record c { outbox = (try_write c.outbox bs).0; log = queued bs ∷ c.log }

  -- `outbox_.Remove` after `send` took `n` bytes of the outbox.
  abbrev pub took_bytes : ℕ → Conn A → Conn A
  took_bytes n c = record c {
    outbox = (remove c.outbox n).0;
    log = sent (take n (bytes c.outbox)) ∷ c.log;
  }

  -- `rbuf_.Write`, and `rbuf_.Remove`.
  abbrev pub receive : List ℕ → List Received → Conn A → Conn A
  receive bs answers c = record c {
    recvs = answers;
    rbuf = (try_write c.rbuf bs).0;
    log = received bs ∷ c.log;
  }

  abbrev pub consume : ℕ → Conn A → Conn A
  consume n c = record c {
    rbuf = (remove c.rbuf n).0;
    log = consumed (take n (bytes c.rbuf)) ∷ c.log;
  }

module _ {A : Type 0} (hs : Handlers A) where
  -- The calls that `on_close_` makes of the closed connection do nothing: see `Frozen`.
  abbrev tell : Bool → Option (A → A) → Conn A → Conn A
  tell true (some f) c = note told_close (record c { app = f c.app })
  tell _ _ c = c

  pub close_now : Bool → Conn A → Conn A
  close_now notify c =
      if c.closed
      then c
      else let c' = close_fd notify c.fd (record c { closed = true }) in
        tell notify hs.on_close (record c' { outbox = reset c'.outbox 0 })

  pub close : Conn A → Conn A
  close c = close_now true c

  pub write_loop : List Sent → Conn A → Conn A
  write_loop [] c = record c { sends = [] }
  write_loop (took n ∷ answers) c =
      let more = write_loop answers (took_bytes n c) in
      if empty c.outbox
      then record c { sends = took n ∷ answers }
      else if ltb 0 n
      then more
      else record c { sends = answers }
  write_loop (send_failed e ∷ answers) c =
      if empty c.outbox
      then record c { sends = send_failed e ∷ answers }
      else if would_block e || (e == eintr)
      then record c { sends = answers }
      else close_now true (record c { sends = answers })

  pub handle_write : Conn A → Conn A
  handle_write c = if c.closed || not (is_fd c.fd) then c else write_loop c.sends c

  pub send : List ℕ → Conn A → Conn A
  send bs c = if not c.closed && is_fd c.fd then handle_write (queue bs c) else c

  pub run_call : Call → Conn A → Conn A
  run_call (call_send bs) c = send bs c
  run_call call_close c = close c

  pub run_calls : List Call → Conn A → Conn A
  run_calls [] c = c
  run_calls (call ∷ calls) c = run_calls calls (run_call call c)

  -- One call of the handler, with the calls that it makes.
  pub ask : Conn A → Conn A
  ask c =
      let reply = hs.handler c.app (bytes c.rbuf) in
      run_calls reply.calls (record c { app = reply.app; log = asked (bytes c.rbuf) ∷ c.log })

  abbrev pub answer_of : Conn A → ℤ
  answer_of c = (hs.handler c.app (bytes c.rbuf)).consumed

  -- `DispatchMessages`: `none` is a loop that has not come to its end after so many rounds.
  pub dispatch_messages : ℕ → Conn A → Option (Bool × Conn A)
  dispatch_messages zero c = none
  dispatch_messages (suc k) c = elim (answer_of c) [
    | negsuc n ↦ some (false, close_now true (ask c))
    | pos zero ↦ some (true, ask c)
    | pos (suc n) ↦ dispatch_messages k (consume (suc n) (ask c))
  ]

  pub read_loop : ℕ → List Received → Conn A → Option (Conn A)
  read_loop k [] c = some (if is_fd c.fd then record c { recvs = [] } else close_now true c)
  read_loop k (got [] ∷ answers) c =
      some (close_now true (if is_fd c.fd then record c { recvs = answers } else c))
  read_loop k (got (b ∷ bs) ∷ answers) c = elim (is_fd c.fd) [
    | true ↦ do
      (go, c') ← dispatch_messages k (receive (b ∷ bs) answers c)
      elim go [ true ↦ read_loop k answers c' | false ↦ some c' ]
    | false ↦ some (close_now true c)
  ]
  read_loop k (recv_failed e ∷ answers) c =
      let c' = record c { recvs = answers } in
      elim (is_fd c.fd) [
        | true ↦ elim (e == eintr) [
          | true ↦ read_loop k answers c'
          | false ↦ some (if would_block e then c' else close_now true c')
        ]
        | false ↦ some (close_now true c)
      ]

  pub handle_read : ℕ → Conn A → Option (Conn A)
  handle_read k c = read_loop k c.recvs c

  pub handle_event : ℕ → ℕ → Conn A → Option (Conn A)
  handle_event k ev c = if has ev (bit_or epollerr epollhup) then some (close_now true c) else do
    c' ← if has ev epollin then handle_read k c else some c
    some (if has ev epollout then handle_write c' else c')
