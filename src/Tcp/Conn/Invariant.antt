-- ===== src/Tcp/Conn/Invariant.antt =====
-- `Conn`: the descriptor, the flag `closed_` and the outbox agree, the descriptor is closed once
-- and the owner told at most once, and a closed connection does nothing more.
use inc.Prelude.{
  ℕ, suc, ◌≤◌, ◌≡◌, ◌∙◌, refl, List, [], ◌∷◌, Bool, true, false, Option, none, some, arith,
  drop-nil,
}
use inc.Buffer.{make}
use inc.Buffer.Stream.{v-reset, v-remove}
use inc.Tcp.{Received, got, recv_failed}
use inc.Tcp.Conn.{
  Handlers, Event, shut, told_close, Conn, close_now, close, handle_write, send, read_loop,
  handle_read, handle_event, start, took_bytes,
}
use inc.Tcp.Conn.Moves.{
  Keeps, Step, starts, sends, closes, drops, event, kernel, Reach, here, next, Reach-keeps,
}

-- How often the descriptor was closed, and how often the owner was told.
abbrev pub shuts : List Event → ℕ
shuts [] = 0
shuts (shut fd ∷ log) = suc (shuts log)
shuts (_ ∷ log) = shuts log

abbrev pub tells : List Event → ℕ
tells [] = 0
tells (told_close ∷ log) = suc (tells log)
tells (_ ∷ log) = tells log

abbrev pub Agree : Option ℕ → Bool → List ℕ → ℕ → ℕ → Type 0
Agree (some fd) false out s t = (s ≡ 0) × (t ≡ 0)
Agree none true out s t = (s ≡ 1) × (t ≤ 1) × (out ≡ [])
Agree _ _ _ _ _ = ⊥

-- The descriptor is there until the connection is closed. From then on it was closed once, the
-- owner was told at most once, and the outbox is empty.
abbrev pub IsSound : {A : Type 0} → Conn A → Type 0
IsSound c = Agree c.fd c.closed c.outbox.v (shuts c.log) (tells c.log)

-- `Conn(ctx, fd)` of an open descriptor.
abbrev pub fresh : {A : Type 0} → ℕ → A → Conn A
fresh fd app = record {
  fd = some fd;
  rbuf = make;
  outbox = make;
  closed = false;
  started = false;
  app = app;
  recvs = [];
  sends = [];
  log = [];
}

module _ {A : Type 0} (hs : Handlers A) where
  close_now-IsSound : (notify : Bool) (c : Conn A) → IsSound c → IsSound (close_now hs notify c)
  unfolding close_now
  close_now-IsSound notify c h = ground (arith, v-reset c.outbox)

  start-IsSound : (added : Bool) (c : Conn A) → IsSound c → IsSound (start added c)
  unfolding start
  start-IsSound added c h = ground arith

  took_bytes-IsSound : (n : ℕ) (c : Conn A) → IsSound c → IsSound (took_bytes n c)
  took_bytes-IsSound n c h = ground (arith, v-remove c.outbox n, drop-nil c.outbox.v n)

  IsSound-Keeps : Keeps hs (λ c. IsSound c)
  IsSound-Keeps = record {
    starts = start-IsSound;
    output = record {
      closes = close_now-IsSound;
      answers = λ rs ss c h. h;
      takes = took_bytes-IsSound;
      queues = λ bs c up h. ground arith;
      asks = λ bs a c h. h;
    };
    consumes = λ n c h. h;
    receives = λ bs rs c h. h;
  }

  -- Whatever is done with a new connection of an open descriptor, and whatever the kernel answers,
  -- the descriptor is there exactly while the connection is not closed; afterwards it has been
  -- closed exactly once, the outbox is empty, and the close handler was called at most once.
  pub Reach-IsSound : (fd : ℕ) (app : A) (c : Conn A) → Reach hs (fresh fd app) c → IsSound c
  Reach-IsSound fd app c r =
      Reach-keeps hs (λ c. IsSound c) IsSound-Keeps {c = fresh fd app} {c' = c} (refl, refl) r

  abbrev pub IsClosed : Conn A → Type 0
  IsClosed c = (c.closed ≡ true) × (c.fd ≡ none)

  -- Nothing was done between the two: no system call on a descriptor, and no callback.
  abbrev pub DoesNothing : Conn A → Conn A → Type 0
  DoesNothing c c' = (c'.log ≡ c.log) × (c'.app ≡ c.app) × IsClosed c'

  close_now_idle : (notify : Bool) (c : Conn A) → IsClosed c → close_now hs notify c ≡ c
  unfolding close_now
  close_now_idle notify c h = rw h.0 refl

  read_loop_idle :
      (k : ℕ) (answers : List Received) (c : Conn A)
      → IsClosed c
      → read_loop hs k answers c ≡ some c
  unfolding read_loop
  read_loop_idle k [] c h = ground (arith, close_now_idle true c h)
  read_loop_idle k (got [] ∷ answers) c h = ground (arith, close_now_idle true c h)
  read_loop_idle k (got (b ∷ bs) ∷ answers) c h = ground (arith, close_now_idle true c h)
  read_loop_idle k (recv_failed e ∷ answers) c h = ground (arith, close_now_idle true c h)

  handle_event_idle :
      (k ev : ℕ) (c c' : Conn A) → handle_event hs k ev c ≡ some c' → IsClosed c → DoesNothing c c'
  unfolding handle_event handle_read handle_write
  handle_event_idle k ev c c' e h =
      ground (arith, close_now_idle true c h, read_loop_idle k c.recvs c h)

  Step_idle : {c c' : Conn A} → Step hs c c' → IsClosed c → DoesNothing c c'
  unfolding close send start
  Step_idle (starts added c) h = ground arith
  Step_idle (sends bs c) h = ground arith
  Step_idle (closes c) h = ground (arith, close_now_idle true c h)
  Step_idle (drops c) h = ground (arith, close_now_idle false c h)
  Step_idle (event k ev {c} {c'} e) h = handle_event_idle k ev c c' e h
  Step_idle (kernel rs ss c) h = (refl, refl, h)

  -- Once a connection is closed and its descriptor gone, no sequence of calls, events and kernel
  -- answers makes a system call on a descriptor or calls a handler any more.
  pub closed_idle : {c c' : Conn A} → IsClosed c → Reach hs c c' → DoesNothing c c'
  closed_idle h here = (refl, refl, h)
  closed_idle {c} {c'} h (next {c' = d} r st) =
      let (l, a, q) = closed_idle h r in let (l', a', q') = Step_idle st q in (l' ∙ l, a' ∙ a, q')
