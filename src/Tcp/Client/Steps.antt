-- ===== src/Tcp/Client/Steps.antt =====
-- `Client` as a state machine: what may happen to it, and in what order.
use inc.Prelude.{ℕ, List, [], ◌∷◌, Bool, true, false, ◌||◌, some, ◌≡◌, ◌<◌, ◌==◌}
use inc.Tcp.Conn.{is_fd}
use inc.Tcp.Client.{
  Client, Answers, conn_closed, close, send, connect, reconnect, on_timer, resolve_thread,
  on_connect_event,
}

abbrev pub elem : ℕ → List ℕ → Bool
elem fd [] = false
elem fd (x ∷ xs) = (fd == x) || elem fd xs

-- One step of a client: a call by the application, or something that happens to it: its timer
-- fires, a background thread runs, the attempt under way is decided, a connection that it made is
-- closed, or the context goes away.
pub data Step : Client → Client → Type 0 where
  connects :
      (a : Answers) (host : List ℕ) (port : ℕ) {c c' : Client}
      → connect a host port c ≡ some c'
      → Step c c'
  reconnects : (a : Answers) (ms : ℕ) (c : Client) → Step c (reconnect a ms c)
  sends : (bs : List ℕ) (c : Client) → Step c (send bs c)
  closes : (c : Client) → Step c (close c)
  fires :
      (a : Answers) {c c' : Client} → is_fd c.timerfd ≡ true → on_timer a c ≡ some c' → Step c c'
  resolves :
      (a : Answers) {c c' : Client} → 0 < c.resolving → resolve_thread a c ≡ some c' → Step c c'
  decides :
      (a : Answers) (err : ℕ) {c c' : Client}
      → is_fd c.connect_fd ≡ true
      → on_connect_event a err c ≡ some c'
      → Step c c'
  loses : (fd : ℕ) (c : Client) → elem fd c.conns ≡ true → Step c (conn_closed fd c)
  expires : (c : Client) → Step c (record c { alive = false })

pub data Reach (c : Client) : Client → Type 0 where
  here : Reach c c
  next : {c' c'' : Client} → Reach c c' → Step c' c'' → Reach c c''

-- Neither `Connect` nor `Reconnect`.
abbrev pub IsPassive : {c c' : Client} → Step c c' → Type 0
IsPassive (connects a host port e) = ⊥
IsPassive (reconnects a ms c) = ⊥
IsPassive _ = Unit

abbrev pub ArePassive : {c c' : Client} → Reach c c' → Type 0
ArePassive here = Unit
ArePassive (next r st) = ArePassive r × IsPassive st
