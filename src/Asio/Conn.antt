-- ===== src/Asio/Conn.antt =====
-- net/asio.hpp, `libtcp::Conn`: the state that the handlers on the strand share. `tasks` are the
-- functions posted and not yet run; `reading` says whether a read was begun and has not ended, and
-- `pending` is the message of the write that was begun and has not ended. The callbacks are functions
-- on a state `app` of the application, with the calls of the connection that they make, which only
-- post. `log` is what was done, the last first.
pub mod Invariant
pub mod Moves
pub mod Safety
pub mod Order
pub mod Delivery
pub mod Draining
pub mod Ending
mod Tests
use inc.Prelude.{
  ℕ, zero, suc, List, [], ◌∷◌, ◌++◌, Bool, true, false, not, ◌&&◌, ◌||◌, Option, none, some, ◌>>=◌,
  if◌then◌else◌,
}
use inc.Prelude.Int.{ℤ, pos, negsuc}
use inc.Buffer.{Buffer, bytes, try_write, remove}

pub data Task : Type 0 where
  start_task : Task
  send_task : List ℕ → Task
  close_task : Task

-- What a callback leaves: its calls of the connection, and the number of bytes consumed.
pub record Reply (A : Type 0) : Type 0 where
  pub app : A
  pub calls : List Task
  pub consumed : ℤ

pub record Handlers (A : Type 0) : Type 0 where
  pub handler : A → List ℕ → Reply A
  pub on_close : Option (A → Reply A)

pub data Event : Type 0 where
  given : List ℕ → Event
  written : List ℕ → Event
  lost : List ℕ → Event
  told_close : Event

pub record Conn (A : Type 0) : Type 0 where
  pub up : Bool
  pub rbuf : Buffer
  pub outbox : List (List ℕ)
  pub writing : Bool
  pub closed : Bool
  pub started : Bool
  pub app : A
  pub tasks : List Task
  pub reading : Bool
  pub pending : Option (List ℕ)
  pub log : List Event

-- What `Send` was given is noted.
abbrev pub note_call : Task → List Event → List Event
note_call (send_task bs) log = given bs ∷ log
note_call _ log = log

abbrev pub rest_of : List (List ℕ) → List (List ℕ)
rest_of [] = []
rest_of (m ∷ ms) = ms

module _ {A : Type 0} where
  -- `Start`, `Send` and `Close`, each of which posts.
  unfoldable pub post : Task → Conn A → Conn A
  post t c = record c { tasks = c.tasks ++ (t ∷ []); log = note_call t c.log }

  unfoldable pub post_all : List Task → Conn A → Conn A
  post_all [] c = c
  post_all (t ∷ ts) c = post_all ts (post t c)

  unfoldable pub do_read : Conn A → Conn A
  do_read c = record c { reading = true }

  -- `DoWrite` on the outbox.
  unfoldable pub begin_write : List (List ℕ) → Conn A → Conn A
  begin_write [] c = record c { writing = false }
  begin_write (m ∷ ms) c =
      if c.closed || not c.up
      then record c { writing = false }
      else record c { writing = true; pending = some m }

  unfoldable pub do_write : Conn A → Conn A
  unfolding begin_write
  do_write c = begin_write c.outbox c

  -- `CloseNow`, where the connection is open.
  unfoldable pub close_now : Conn A → Conn A
  close_now c = if c.closed then c else record c { closed = true; up = false; outbox = [] }

  unfoldable pub start_now : Conn A → Conn A
  start_now c = if c.started || c.closed then c else do_read (record c { started = true })

  unfoldable pub send_now : List ℕ → Conn A → Conn A
  send_now bs c =
      if c.closed || not c.up
      then c
      else let c' : Conn A = record c { outbox = c.outbox ++ (bs ∷ []) } in
        if c.writing then c' else do_write c'

  unfoldable pub tell : Option (A → Reply A) → Conn A → Conn A
  tell none c = c
  tell (some f) c =
      let reply = f c.app in
      post_all reply.calls (record c { app = reply.app; log = told_close ∷ c.log })

module _ {A : Type 0} (hs : Handlers A) where
  -- `HandleClose`.
  unfoldable pub handle_close : Conn A → Conn A
  handle_close c = if c.closed then c else tell hs.on_close (close_now c)

  -- What was posted, run on the strand.
  unfoldable pub run_task : Task → Conn A → Conn A
  run_task start_task c = start_now c
  run_task (send_task bs) c = send_now bs c
  run_task close_task c = handle_close c

  unfoldable pub run_first : List Task → Conn A → Conn A
  run_first [] c = c
  run_first (t ∷ ts) c = run_task t (record c { tasks = ts })

  -- One call of the message handler.
  unfoldable pub ask : Conn A → Conn A
  ask c =
      let reply = hs.handler c.app (bytes c.rbuf) in
      post_all reply.calls (record c { app = reply.app })

  abbrev pub answer_of : Conn A → ℤ
  answer_of c = (hs.handler c.app (bytes c.rbuf)).consumed

  -- `DispatchMessages`: `none` is a loop that has not come to its end after so many rounds.
  unfoldable pub dispatch_messages : ℕ → Conn A → Option (Bool × Conn A)
  dispatch_messages zero c = none
  dispatch_messages (suc k) c = elim (answer_of c) [
    | negsuc n ↦ some (false, handle_close (ask c))
    | pos zero ↦ some (true, ask c)
    | pos (suc n) ↦
        let c' = ask c in dispatch_messages k (record c' { rbuf = (remove c'.rbuf (suc n)).0 })
  ]

  -- The handler of `DoRead`: an error, or the bytes that came.
  unfoldable pub read_done : ℕ → Option (List ℕ) → Conn A → Option (Conn A)
  read_done k none c = some (handle_close (record c { reading = false }))
  read_done k (some bs) c =
      dispatch_messages k (record c { reading = false; rbuf = (try_write c.rbuf bs).0 }) >>= λ r.
      some (if r.0 then do_read r.1 else r.1)

  -- The handler of `DoWrite` for the message `m`, and whether there was an error.
  unfoldable pub write_done : List ℕ → Bool → Conn A → Conn A
  write_done m true c = handle_close (record c {
    outbox = rest_of c.outbox;
    pending = none;
    writing = false;
    log = lost m ∷ c.log;
  })
  write_done m false c =
      let ms = rest_of c.outbox in
      begin_write ms (record c { outbox = ms; pending = none; log = written m ∷ c.log })
