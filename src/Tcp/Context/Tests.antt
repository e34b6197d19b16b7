-- ===== src/Tcp/Context/Tests.antt =====
-- Runs of the event loop, and the theorem at a concrete input.
use inc.Prelude.{ℕ, ◌≡◌, refl, List, [], ◌∷◌, true, false, ◌==◌, if◌then◌else◌}
use inc.Prelude.Int.{pos, negsuc}
use inc.Tcp.Context.{
  Context, find, add_fd, del_fd, keep_client, drop_client, stop, Wait, ready, wait_failed, loop,
}
use inc.Tcp.Context.Table.{Op, adds, dels, run, latest, find-run}

abbrev nothing : Context ℕ ℕ
nothing = record { running = false; fd_handlers = []; clients = [] }

-- A callback is a number: it is noted with its events; number 9 removes descriptor 4, number 8 stops
-- the loop.
abbrev call : ℕ → ℕ → Context ℕ ℕ × List (ℕ × ℕ) → Context ℕ ℕ × List (ℕ × ℕ)
call cb ev (x, notes) =
    if cb == 9
    then (del_fd 4 x, (9, ev) ∷ notes)
    else if cb == 8
    then (stop x, (8, ev) ∷ notes)
    else (x, (cb, ev) ∷ notes)

abbrev three : Context ℕ ℕ
three = record nothing { fd_handlers = (3, 9) ∷ (4, 1) ∷ (5, 8) ∷ [] }

-- What an earlier event of the same batch removed is not called; the batch in which the loop is
-- stopped is finished, and no other begun.
loops :
    loop call
      (ready ((4, 1) ∷ (3, 1) ∷ (4, 1) ∷ (6, 1) ∷ [])
        ∷ wait_failed 4
        ∷ ready ((5, 4) ∷ (3, 2) ∷ [])
        ∷ ready ((3, 1) ∷ [])
        ∷ [])
      (three, [])
    ≡ (
      record three { running = false; fd_handlers = (3, 9) ∷ (5, 8) ∷ [] },
      (9, 2) ∷ (8, 4) ∷ (9, 1) ∷ (1, 1) ∷ [],
    )
unfolding loop inc.Tcp.Context.wait_loop inc.Tcp.Context.dispatch find del_fd inc.Tcp.Context.erase
    stop
loops = refl

fails : loop call (wait_failed 9 ∷ ready ((3, 1) ∷ []) ∷ []) (three, []) ≡ (three, [])
unfolding loop inc.Tcp.Context.wait_loop
fails = refl

clients :
    drop_client
      (negsuc 0)
      (keep_client (pos 1) 7 (keep_client (negsuc 0) 6 (keep_client (pos 1) 5 nothing)))
    ≡ record nothing { clients = (pos 1, 7) ∷ [] }
unfolding drop_client keep_client inc.Tcp.Context.erase_id
clients = refl

abbrev ops : List (Op ℕ)
ops = adds true 3 1 ∷ dels 4 ∷ adds false 3 2 ∷ adds true 5 3 ∷ []

find-run_example : find 3 (run ops three).fd_handlers ≡ latest ops 3 (find 3 three.fd_handlers)
find-run_example = find-run ops 3 three
