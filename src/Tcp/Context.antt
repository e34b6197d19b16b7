-- ===== src/Tcp/Context.antt =====
-- net/tcp.hpp: `libtcp::Context`, the event loop. A map is a list of its pairs, each key once. `C` is
-- the type of the callbacks and `K` that of the clients; the mutexes make each operation one step.
pub mod Table
mod Tests
use inc.Prelude.{ℕ, List, [], ◌∷◌, Bool, true, false, Option, none, some, ◌==◌, if◌then◌else◌}
use inc.Prelude.Int.{ℤ, pos, negsuc}
use inc.Tcp.{eintr}

abbrev same : ℤ → ℤ → Bool
same (pos m) (pos n) = m == n
same (negsuc m) (negsuc n) = m == n
same _ _ = false

module _ {A : Type 0} where
  -- `find`, `erase` and the assignment of `std::unordered_map`, by descriptor.
  pub find : ℕ → List (ℕ × A) → Option A
  find fd [] = none
  find fd ((k, a) ∷ t) = let more = find fd t in if k == fd then some a else more

  pub erase : ℕ → List (ℕ × A) → List (ℕ × A)
  erase fd [] = []
  erase fd ((k, a) ∷ t) = let more = erase fd t in if k == fd then more else (k, a) ∷ more

  pub assign : ℕ → A → List (ℕ × A) → List (ℕ × A)
  assign fd a t = (fd, a) ∷ erase fd t

  -- The same by the id of a client.
  pub erase_id : ℤ → List (ℤ × A) → List (ℤ × A)
  erase_id id [] = []
  erase_id id ((k, a) ∷ t) = let more = erase_id id t in if same k id then more else (k, a) ∷ more

pub record Context (C K : Type 0) : Type 0 where
  pub running : Bool
  pub fd_handlers : List (ℕ × C)
  pub clients : List (ℤ × K)

module _ {C K : Type 0} where
  -- `added` says whether `epoll_ctl` succeeded.
  pub add_fd : Bool → ℕ → C → Context C K → Context C K × Bool
  add_fd false fd cb x = (x, false)
  add_fd true fd cb x = (record x { fd_handlers = assign fd cb x.fd_handlers }, true)

  pub del_fd : ℕ → Context C K → Context C K
  del_fd fd x = record x { fd_handlers = erase fd x.fd_handlers }

  pub keep_client : ℤ → K → Context C K → Context C K
  keep_client id client x = record x { clients = (id, client) ∷ erase_id id x.clients }

  pub drop_client : ℤ → Context C K → Context C K
  drop_client id x = record x { clients = erase_id id x.clients }

  pub stop : Context C K → Context C K
  stop x = record x { running = false; clients = [] }

-- What `epoll_wait` returns: the descriptors with their events, or -1 with `errno`.
pub data Wait : Type 0 where
  ready : List (ℕ × ℕ) → Wait
  wait_failed : ℕ → Wait

-- A callback may change the context and everything else, which is `S`.
module _ {C K S : Type 0} (call : C → ℕ → Context C K × S → Context C K × S) where
  abbrev call_found : Option C → ℕ → Context C K × S → Context C K × S
  call_found none ev w = w
  call_found (some cb) ev w = call cb ev w

  pub dispatch : List (ℕ × ℕ) → Context C K × S → Context C K × S
  dispatch [] w = w
  dispatch ((fd, ev) ∷ evs) w = dispatch evs (call_found (find fd w.0.fd_handlers) ev w)

  abbrev ended : Context C K × S → Context C K × S
  ended w = (record w.0 { running = false }, w.1)

  -- `while (running_)`; when the answers run out, the loop is still waiting.
  pub wait_loop : List Wait → Context C K × S → Context C K × S
  wait_loop [] w = if w.0.running then w else ended w
  wait_loop (ready evs ∷ waits) w = elim w.0.running [
    | true ↦ wait_loop waits (dispatch evs w)
    | false ↦ ended w
  ]
  wait_loop (wait_failed e ∷ waits) w = elim w.0.running [
    | true ↦ elim (e == eintr) [ true ↦ wait_loop waits w | false ↦ ended w ]
    | false ↦ ended w
  ]

  pub loop : List Wait → Context C K × S → Context C K × S
  loop waits w = wait_loop waits (record w.0 { running = true }, w.1)
