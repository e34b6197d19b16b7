-- ===== src/Tcp/Server/Accepting.antt =====
-- `Server`: the connections that it accepts, and its own descriptor.
use inc.Prelude.{ℕ, ◌≡◌, List, [], ◌∷◌, Bool, true, ◌==◌, if◌then◌else◌, Bool-cases, inl, inr}
use inc.Tcp.{eintr}
use inc.Tcp.Conn.{Call, Handlers, Conn}
use inc.Tcp.Conn.Moves.{starts, Reach, here, next, run_calls_reach, start_started}
use inc.Tcp.Conn.Invariant.{fresh}
use inc.Tcp.Server.{Server, Accepted, accepted, accept_failed, welcome, accept_loop}

-- The descriptors that `accept` returns up to the first error that is not `EINTR`, the last first.
abbrev pub admitted : List Accepted → List ℕ → List ℕ
admitted [] fds = fds
admitted (accepted fd ∷ answers) fds = admitted answers (fd ∷ fds)
admitted (accept_failed e ∷ answers) fds =
    let more = admitted answers fds in if e == eintr then more else fds

module _ {A : Type 0} (hs : Handlers A) (app : A) (greet : ℕ → List Call) where
  -- A connection of the descriptor `fd`, in a state that a new one may come to.
  abbrev pub IsServed : ℕ → Conn A → Type 0
  IsServed fd c = Reach hs (fresh fd app) c × (c.started ≡ true)

  -- The connections are those of the descriptors, in the same order.
  abbrev pub Serve : List ℕ → List (Conn A) → Type 0
  Serve [] [] = Unit
  Serve (fd ∷ fds) (c ∷ cs) = IsServed fd c × Serve fds cs
  Serve _ _ = ⊥

  welcome-IsServed : (added : Bool) (fd : ℕ) → IsServed fd (welcome hs app greet added fd)
  welcome-IsServed added fd = (
    next (run_calls_reach hs (greet fd) (fresh fd app) (fresh fd app) here) (starts added _),
    start_started added _,
  )

  -- `HandleAccept` makes one started connection for each descriptor that `accept` returns before the
  -- first error other than `EINTR`, in order, and each is in a state that a new connection of that
  -- descriptor may come to: what holds of all those holds of it.
  pub accept_loop-Serve :
      (added : Bool) (answers : List Accepted) (fds : List ℕ) (s : Server A)
      → Serve fds s.conns
      → Serve (admitted answers fds) (accept_loop hs app greet added answers s).conns
  unfolding accept_loop
  accept_loop-Serve added [] fds s h = h
  accept_loop-Serve added (accepted fd ∷ answers) fds s h =
      accept_loop-Serve added answers (fd ∷ fds) _ (welcome-IsServed added fd, h)
  accept_loop-Serve added (accept_failed e ∷ answers) fds s h = elim (Bool-cases (e == eintr)) [
    | inl again ↦ rw (accept_loop, again) (accept_loop-Serve added answers fds s h)
    | inr fatal ↦ rw (accept_loop, fatal) h
  ]
