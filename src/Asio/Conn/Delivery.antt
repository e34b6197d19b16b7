-- ===== src/Asio/Conn/Delivery.antt =====
-- What was given and what was written, over any steps of a connection.
use inc.Prelude.{
  ℕ, ◌≡◌, refl, sym, ap, ◌∙◌, List, [], ◌∷◌, ◌++◌, append_assoc, Bool, true, false, not, Option,
  none, some, >>=-eq-some, arith, Bool-cases, inl, inr, if◌then◌else◌,
}
use mathlib.Core.Path.{subst}
use mathlib.Core.Option.{some-injective}
use inc.Buffer.{bytes, try_write}
use inc.Asio.Conn.{
  Task, start_task, send_task, close_task, Handlers, written, lost, Conn, do_read, do_write,
  start_now, send_now, handle_close, run_task, run_first, ask, dispatch_messages, read_done,
  write_done, rest_of,
}
use inc.Asio.Conn.Invariant.{
  Step, calls, runs, reads, writes, Reach, here, next, fresh, IsSteady, send_now-closed,
  send_now-busy, send_now-free, none_pending, out_free,
}
use inc.Asio.Conn.Moves.{
  KeepsInput, dispatch_messages-keeps, handle_close-closed, handle_close-open,
}
use inc.Asio.Conn.Safety.{Reach-IsSteady}
use inc.Asio.Conn.Order.{
  tail_of, retasked, post-InOrder, post_all-InOrder, tell-InOrder, begin_write-InOrder, given_of,
  written_of, sends, InOrder, front,
}

module _ {A : Type 0} (hs : Handlers A) where
  -- A close, whatever the outbox was.
  handle_close-InOrder :
      (c : Conn A) (left : List (List ℕ))
      → written_of c.log ++ left ≡ given_of c.log
      → ((m : List ℕ) → c.pending ≡ some m → left ≡ m ∷ rest_of left)
      → InOrder (handle_close hs c)
  handle_close-InOrder c left whole next_left = elim (Bool-cases c.closed) [
    | inl down ↦
        subst InOrder (sym (handle_close-closed hs c down))
          (record { left = left; whole = whole; open_left = λ open_e. cc; next_left = next_left })
    | inr open_e ↦ subst InOrder (sym (handle_close-open hs c open_e)) (
        tell-InOrder hs.on_close (record c { closed = true; up = false; outbox = [] })
          (record { left = left; whole = whole; open_left = λ e. cc; next_left = next_left }))
  ]

  ask-InOrder : (c : Conn A) → InOrder c → InOrder (ask hs c)
  unfolding ask
  ask-InOrder c h =
      let reply = hs.handler c.app (bytes c.rbuf) in
      post_all-InOrder reply.calls (record c { app = reply.app }) h

  keeps-InOrder : KeepsInput hs InOrder
  keeps-InOrder = record {
    asks = ask-InOrder;
    closes = λ c h. handle_close-InOrder c h.left h.whole h.next_left;
    consumes = λ n c h. h;
  }

  start_now-InOrder : (c : Conn A) → InOrder c → InOrder (start_now c)
  unfolding start_now do_read
  start_now-InOrder c h = ground arith

  send_now-InOrder :
      (bs : List ℕ) (ts : List Task) (c : Conn A)
      → c.tasks ≡ send_task bs ∷ ts
      → IsSteady hs false c
      → InOrder c
      → InOrder (send_now bs (record c { tasks = ts }))
  unfolding do_write
  send_now-InOrder bs ts c first sound h =
      let d : Conn A = record c { tasks = ts } in
      let d' : Conn A = record d { outbox = c.outbox ++ (bs ∷ []) } in
      let h' : InOrder d' = record {
        left = h.left;
        whole = h.whole;
        open_left = λ open_e.
            h.open_left open_e
            ∙ ap (λ ts. c.outbox ++ sends ts) first
            ∙ sym (append_assoc c.outbox (bs ∷ []) (sends ts));
        next_left = h.next_left;
      } in
      elim (Bool-cases c.closed) [
        | inl down ↦ subst InOrder (sym (send_now-closed hs bs d down)) (record {
          left = h.left;
          whole = h.whole;
          open_left = λ open_e. cc;
          next_left = h.next_left;
        })
        | inr open_e ↦ elim (Bool-cases c.writing) [
          | inl busy ↦
              subst InOrder (sym (send_now-busy hs bs d open_e (sound.socket ∙ ap not open_e) busy))
                h'
          | inr free ↦
              let idle =
                none_pending c.pending c.closed c.outbox
                  (out_free c.writing c.closed c.pending c.outbox free sound.output) in
              subst InOrder (sym (send_now-free hs bs d open_e (sound.socket ∙ ap not open_e) free))
                (begin_write-InOrder (c.outbox ++ (bs ∷ [])) d' refl idle.0 h')
        ]
      ]

  run_first-InOrder :
      (ts : List Task) (c : Conn A)
      → c.tasks ≡ ts
      → IsSteady hs false c
      → InOrder c
      → InOrder (run_first hs ts c)
  unfolding run_first run_task
  run_first-InOrder [] c first sound h = h
  run_first-InOrder (send_task bs ∷ ts) c first sound h = send_now-InOrder bs ts c first sound h
  run_first-InOrder (start_task ∷ ts) c first sound h =
      start_now-InOrder (record c { tasks = ts }) (retasked (ap sends first) h)
  run_first-InOrder (close_task ∷ ts) c first sound h =
      keeps-InOrder.closes (record c { tasks = ts }) (retasked (ap sends first) h)

  do_read-InOrder : (go : Bool) (c : Conn A) → InOrder c → InOrder (if go then do_read c else c)
  unfolding do_read
  do_read-InOrder true c h = h
  do_read-InOrder false c h = h

  read_done-InOrder :
      (k : ℕ) (r : Option (List ℕ)) (c c' : Conn A)
      → InOrder c
      → read_done hs k r c ≡ some c'
      → InOrder c'
  unfolding read_done do_read
  read_done-InOrder k none c c' h e =
      subst InOrder (some-injective _ _ e) (keeps-InOrder.closes (record c { reading = false }) h)
  read_done-InOrder k (some bs) c c' h e =
      let read : Conn A = record c { reading = false; rbuf = (try_write c.rbuf bs).0 } in
      let r =
        >>=-eq-some (dispatch_messages hs k read) (λ r. some (if r.0 then do_read r.1 else r.1))
          e in
      let h' = dispatch_messages-keeps hs InOrder keeps-InOrder k read r.0.1 r.0.0 h r.1 in
      subst InOrder (some-injective _ _ r.2) (do_read-InOrder r.0.0 r.0.1 h')

  write_done-InOrder :
      (m : List ℕ) (error : Bool) (c : Conn A)
      → c.pending ≡ some m
      → IsSteady hs false c
      → InOrder c
      → InOrder (write_done hs m error c)
  unfolding write_done
  write_done-InOrder m true c under sound h =
      handle_close-InOrder
        (record c {
          outbox = rest_of c.outbox;
          pending = none;
          writing = false;
          log = lost m ∷ c.log;
        })
        h.left h.whole (λ n e. cc)
  write_done-InOrder m false c under sound h =
      let ms = rest_of c.outbox in
      begin_write-InOrder ms (record c { outbox = ms; pending = none; log = written m ∷ c.log })
        refl refl
        (record {
          left = rest_of h.left;
          whole =
              append_assoc (written_of c.log) (m ∷ []) (rest_of h.left)
              ∙ ap (λ l. written_of c.log ++ l) (sym (h.next_left m under))
              ∙ h.whole;
          open_left = λ open_e.
              tail_of m h.left c.outbox (sends c.tasks) (h.open_left open_e)
                (front m c.writing c.pending c.closed c.outbox under open_e sound.output);
          next_left = λ n e. cc;
        })

  Step-InOrder : {c c' : Conn A} → Step hs c c' → IsSteady hs false c → InOrder c → InOrder c'
  Step-InOrder (calls t c) sound h = post-InOrder t c h
  Step-InOrder (runs c) sound h = run_first-InOrder c.tasks c refl sound h
  Step-InOrder (reads k r {c} {c'} busy e) sound h = read_done-InOrder k r c c' h e
  Step-InOrder (writes m error c under) sound h = write_done-InOrder m error c under sound h

  -- From a new connection, over any steps: what was written is a first part of what `Send` was
  -- given, message for message and in order; while the connection is open the rest is the outbox
  -- followed by the calls of `Send` that have not run; and a write that is under way, also one that
  -- a close left behind, is that of the first message not yet written.
  pub Reach-InOrder : (app : A) {c : Conn A} → Reach hs (fresh app) c → InOrder c
  Reach-InOrder app here = record {
    left = [];
    whole = refl;
    open_left = λ _. refl;
    next_left = λ m e. cc;
  }
  Reach-InOrder app (next r s) = Step-InOrder s (Reach-IsSteady hs app r) (Reach-InOrder app r)
