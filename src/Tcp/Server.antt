-- ===== src/Tcp/Server.antt =====
-- net/tcp.hpp: `libtcp::Server`, a listening socket. The connections that it accepts live on in the
-- context's table; `conns` are those, the last first. `greet fd` are the calls that `on_accept_`
-- makes of the new connection, none where it is not set.
pub mod Accepting
mod Tests
use inc.Prelude.{
  ℕ, List, [], ◌∷◌, Bool, true, false, not, ◌&&◌, ◌||◌, Option, none, some, ◌==◌, if◌then◌else◌,
  bit_or,
}
use inc.Tcp.{eintr, has, epollin, epollerr, epollhup}
use inc.Tcp.Conn.{Call, Handlers, Conn, run_calls, start, is_fd}
use inc.Tcp.Conn.Invariant.{fresh}

pub data Event : Type 0 where
  opened : ℕ → Event
  shut : ℕ → Event
  watched : ℕ → Event
  unwatched : ℕ → Event

pub record Server (A : Type 0) : Type 0 where
  pub listen_fd : Option ℕ
  pub started : Bool
  pub conns : List (Conn A)
  pub log : List Event

-- What `accept` returns: a descriptor, or -1 with `errno`.
pub data Accepted : Type 0 where
  accepted : ℕ → Accepted
  accept_failed : ℕ → Accepted

module _ {A : Type 0} where
  abbrev note : Event → Server A → Server A
  note e s = record s { log = e ∷ s.log }

  abbrev bound : ℕ → Bool → Bool → Server A → Server A × Bool
  bound fd bind_ok listen_ok s =
      if bind_ok && listen_ok
      then (record s { listen_fd = some fd }, true)
      else (note (shut fd) s, false)

  -- `Server::Listen`, by the answers of `socket`, `bind` and `listen`.
  pub listen : Option ℕ → Bool → Bool → Server A → Server A × Bool
  listen none bind_ok listen_ok s = (s, false)
  listen (some fd) bind_ok listen_ok s = bound fd bind_ok listen_ok (note (opened fd) s)

  -- `Context::Listen`.
  pub context_listen : Option ℕ → Bool → Bool → Option (Server A)
  context_listen socket bind_ok listen_ok =
      let (s, ok) =
        listen socket bind_ok listen_ok
          (record { listen_fd = none; started = false; conns = []; log = [] }) in
      if ok then some s else none

  abbrev watch : Bool → Option ℕ → Server A → Server A
  watch true (some fd) s = note (watched fd) s
  watch _ _ s = s

  pub start_server : Bool → Server A → Server A
  start_server added s =
      if not (is_fd s.listen_fd) || s.started
      then s
      else watch added s.listen_fd (record s { started = true })

  abbrev stop_listening : Option ℕ → Server A → Server A
  stop_listening none s = s
  stop_listening (some fd) s = record (note (shut fd) (note (unwatched fd) s)) { listen_fd = none }

  pub stop : Server A → Server A
  stop s = stop_listening s.listen_fd s

module _ {A : Type 0} (hs : Handlers A) (app : A) (greet : ℕ → List Call) where
  -- The new connection, after `on_accept_` and `Start`.
  abbrev pub welcome : Bool → ℕ → Conn A
  welcome added fd = start added (run_calls hs (greet fd) (fresh fd app))

  -- The loop of `HandleAccept`; when the answers run out, the call would block.
  pub accept_loop : Bool → List Accepted → Server A → Server A
  accept_loop added [] s = s
  accept_loop added (accepted fd ∷ answers) s =
      accept_loop added answers (record s { conns = welcome added fd ∷ s.conns })
  accept_loop added (accept_failed e ∷ answers) s =
      let more = accept_loop added answers s in if e == eintr then more else s

  -- The callback that `Start` gives to the context.
  pub handle_accept : Bool → List Accepted → ℕ → Server A → Server A
  handle_accept added answers ev s =
      if has ev (bit_or epollerr epollhup)
      then stop s
      else if has ev epollin
      then accept_loop added answers s
      else s
