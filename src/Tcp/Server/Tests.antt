-- ===== src/Tcp/Server/Tests.antt =====
-- Runs of a server, and the theorem at a concrete input.
use inc.Prelude.{ℕ, ◌≡◌, refl, List, [], ◌∷◌, true, false, none, some}
use inc.Prelude.Int.{pos}
use inc.Tcp.{eintr, eagain, epollin, epollhup}
use inc.Tcp.Conn.{call_send, Handlers}
use inc.Tcp.Server.{
  Server, opened, shut, unwatched, Accepted, accepted, accept_failed, listen, start_server, stop,
  accept_loop, handle_accept,
}
use inc.Tcp.Server.Accepting.{admitted, Serve, accept_loop-Serve}

abbrev deaf : Handlers ℕ
deaf = record {
  handler = λ n bs. record { app = n; calls = []; consumed = pos 0 };
  on_close = none;
}

abbrev idle : Server ℕ
idle = record { listen_fd = none; started = false; conns = []; log = [] }

abbrev listening : Server ℕ
listening = record { listen_fd = some 3; started = false; conns = []; log = opened 3 ∷ [] }

listens :
    (listen (some 3) true true idle ≡ (listening, true))
    × (listen none true true idle ≡ (idle, false))
    × (listen (some 3) true false idle ≡ (record idle { log = shut 3 ∷ opened 3 ∷ [] }, false))
unfolding listen
listens = (refl, refl, refl)

starts_and_stops : stop (start_server true listening) ≡ record listening {
  listen_fd = none;
  started = true;
  log = shut 3 ∷ unwatched 3 ∷ inc.Tcp.Server.watched 3 ∷ opened 3 ∷ [];
}
unfolding stop start_server
starts_and_stops = refl

hangs_up : handle_accept deaf 0 (λ fd. []) true [] epollhup listening ≡ stop listening
unfolding handle_accept
hangs_up = refl

abbrev answers : List Accepted
answers = accepted 5 ∷ accept_failed eintr ∷ accepted 6 ∷ accept_failed eagain ∷ accepted 7 ∷ []

admits : admitted answers [] ≡ 6 ∷ 5 ∷ []
admits = refl

accept_loop-Serve_example :
    Serve deaf 0
      (λ fd. call_send (1 ∷ []) ∷ [])
      (6 ∷ 5 ∷ [])
      (accept_loop deaf 0 (λ fd. call_send (1 ∷ []) ∷ []) true answers listening).conns
accept_loop-Serve_example =
    accept_loop-Serve deaf 0 (λ fd. call_send (1 ∷ []) ∷ []) true answers [] listening tt
