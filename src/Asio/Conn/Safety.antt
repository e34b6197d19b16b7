-- ===== src/Asio/Conn/Safety.antt =====
-- Closing, the handlers of reads and writes, and every step of a connection.
use inc.Prelude.{
  ℕ, suc, ◌≡◌, refl, sym, ap, ap₂, ◌∙◌, List, [], ◌∷◌, Bool, true, false, not, Option, none, some,
  >>=-eq-some, arith, Bool-cases, inl, inr, if◌then◌else◌,
}
use mathlib.Core.Path.{subst}
use mathlib.Core.Option.{some-injective}
use inc.Buffer.{Buffer, bytes, try_write}
use inc.Asio.Conn.{
  Task, start_task, send_task, close_task, Handlers, Reply, written, lost, told_close, Conn,
  do_read, tell, handle_close, run_task, run_first, ask, dispatch_messages, read_done, write_done,
  rest_of,
}
use inc.Asio.Conn.Invariant.{
  Step, calls, runs, reads, writes, Reach, here, next, fresh, Writing, told, expected, IsSteady,
  post-IsSteady, post_all-IsSteady, start_now-IsSteady, send_now-IsSteady, begin_write-IsSteady,
}
use inc.Asio.Conn.Moves.{
  KeepsInput, dispatch_messages-keeps, dispatch_messages_closes, handle_close-closed,
  handle_close-open, handle_close_closes,
}

-- Whatever is under way, `CloseNow` leaves an empty outbox.
shut :
    (w : Bool) (p : Option (List ℕ)) (closed : Bool) (out : List (List ℕ))
    → Writing w p closed out
    → Writing w p true []
shut false none closed out h = refl
shut false (some m) closed out h = absurd h
shut true none closed out h = absurd h
shut true (some m) closed out h = refl

-- After a close, the outbox of a write under way is empty.
emptied :
    (m : List ℕ) (w : Bool) (p : Option (List ℕ)) (closed : Bool) (out : List (List ℕ))
    → p ≡ some m
    → closed ≡ true
    → Writing w p closed out
    → out ≡ []
emptied m w none closed out under down h = ground arith
emptied m true (some n) true out under down h = h
emptied m true (some n) false out under down h = ground arith
emptied m false (some n) closed out under down h = absurd h

module _ {A : Type 0} (hs : Handlers A) where
  expected-open :
      (f : Option (A → Reply A)) (closed : Bool) → closed ≡ false → expected f closed ≡ 0
  expected-open none closed e = refl
  expected-open (some f) closed e = ap (expected (some f)) e

  -- A connection that was just closed, and then told.
  tell-IsSteady :
      {b : Bool} (f : Option (A → Reply A)) (c : Conn A)
      → hs.on_close ≡ f
      → c.closed ≡ true
      → c.up ≡ false
      → Writing c.writing c.pending true c.outbox
      → told c.log ≡ 0
      → IsSteady hs b (tell f c)
  unfolding tell
  tell-IsSteady none c none_e down up_e output silent = record {
    socket = up_e ∙ sym (ap not down);
    output = subst (λ d. Writing c.writing c.pending d c.outbox) (sym down) output;
    input = cc;
    telling = silent ∙ sym (ap₂ expected none_e down);
  }
  tell-IsSteady (some f) c some_e down up_e output silent =
      let reply = f c.app in
      post_all-IsSteady hs reply.calls (record c { app = reply.app; log = told_close ∷ c.log })
        (record {
          socket = up_e ∙ sym (ap not down);
          output = subst (λ d. Writing c.writing c.pending d c.outbox) (sym down) output;
          input = cc;
          telling = ap suc silent ∙ sym (ap₂ expected some_e down);
        })

  handle_close-IsSteady :
      {b : Bool} (c : Conn A) → IsSteady hs b c → IsSteady hs b (handle_close hs c)
  handle_close-IsSteady {b = b} c h = elim (Bool-cases c.closed) [
    | inl down ↦ subst (IsSteady hs b) (sym (handle_close-closed hs c down)) h
    | inr open_e ↦ subst (IsSteady hs b) (sym (handle_close-open hs c open_e)) (
        tell-IsSteady hs.on_close (record c { closed = true; up = false; outbox = [] }) refl refl
          refl (shut c.writing c.pending c.closed c.outbox h.output)
          (h.telling ∙ expected-open hs.on_close c.closed open_e))
  ]

  run_first-IsSteady :
      (ts : List Task) (c : Conn A) → IsSteady hs false c → IsSteady hs false (run_first hs ts c)
  unfolding run_first run_task
  run_first-IsSteady [] c h = h
  run_first-IsSteady (start_task ∷ ts) c h = start_now-IsSteady hs (record c { tasks = ts }) h
  run_first-IsSteady (send_task bs ∷ ts) c h = send_now-IsSteady hs bs (record c { tasks = ts }) h
  run_first-IsSteady (close_task ∷ ts) c h = handle_close-IsSteady (record c { tasks = ts }) h

  ask-IsSteady : {b : Bool} (c : Conn A) → IsSteady hs b c → IsSteady hs b (ask hs c)
  unfolding ask
  ask-IsSteady c h =
      let reply = hs.handler c.app (bytes c.rbuf) in
      post_all-IsSteady hs reply.calls (record c { app = reply.app }) h

  keeps-IsSteady : (b : Bool) → KeepsInput hs (IsSteady hs b)
  keeps-IsSteady b = record {
    asks = λ c h. ask-IsSteady c h;
    closes = λ c h. handle_close-IsSteady c h;
    consumes = λ n c h. h;
  }

  after_dispatch :
      (go : Bool) (c : Conn A)
      → IsSteady hs true c
      → (go ≡ false → c.closed ≡ true)
      → IsSteady hs false (if go then do_read c else c)
  unfolding do_read
  after_dispatch true c h closes = record {
    socket = h.socket;
    output = h.output;
    input = h.input;
    telling = h.telling;
  }
  after_dispatch false c h closes = record {
    socket = h.socket;
    output = h.output;
    input = λ open_e. cc (closes refl);
    telling = h.telling;
  }

  handling-IsSteady :
      (c : Conn A) (buf : Buffer)
      → c.reading ≡ true
      → IsSteady hs false c
      → IsSteady hs true (record c { reading = false; rbuf = buf })
  handling-IsSteady c buf busy h = record {
    socket = h.socket;
    output = h.output;
    input = λ open_e. sym busy ∙ h.input open_e;
    telling = h.telling;
  }

  read_done-IsSteady :
      (k : ℕ) (r : Option (List ℕ)) (c c' : Conn A)
      → c.reading ≡ true
      → IsSteady hs false c
      → read_done hs k r c ≡ some c'
      → IsSteady hs false c'
  unfolding read_done
  read_done-IsSteady k none c c' busy h e = ground (
    arith,
    after_dispatch false (handle_close hs (record c { reading = false }))
        (handle_close-IsSteady (record c { reading = false }) (handling-IsSteady c c.rbuf busy h)),
    handle_close_closes hs (record c { reading = false }),
  )
  read_done-IsSteady k (some bs) c c' busy h e =
      let read : Conn A = record c { reading = false; rbuf = (try_write c.rbuf bs).0 } in
      let r =
        >>=-eq-some (dispatch_messages hs k read) (λ r. some (if r.0 then do_read r.1 else r.1))
          e in
      subst (IsSteady hs false) (some-injective _ _ r.2) (
        after_dispatch r.0.0 r.0.1
          (dispatch_messages-keeps hs (IsSteady hs true) (keeps-IsSteady true) k read r.0.1 r.0.0
            (handling-IsSteady c read.rbuf busy h) r.1)
          (dispatch_messages_closes hs k read r.0.1 r.0.0 r.1))

  pub write_done-IsSteady :
      (m : List ℕ) (error : Bool) (c : Conn A)
      → c.pending ≡ some m
      → IsSteady hs false c
      → IsSteady hs false (write_done hs m error c)
  unfolding write_done
  write_done-IsSteady m false c under h =
      let ms = rest_of c.outbox in
      begin_write-IsSteady hs ms (record c { outbox = ms; pending = none; log = written m ∷ c.log })
        refl refl
        (λ down. ap rest_of (emptied m c.writing c.pending c.closed c.outbox under down h.output))
        h.socket h.input h.telling
  write_done-IsSteady m true c under h =
      let failed : Conn A = record c {
        outbox = rest_of c.outbox;
        pending = none;
        writing = false;
        log = lost m ∷ c.log;
      } in
      elim (Bool-cases c.closed) [
        | inl down ↦ subst (IsSteady hs false) (sym (handle_close-closed hs failed down)) (record {
          socket = h.socket;
          output = ap rest_of (emptied m c.writing c.pending c.closed c.outbox under down h.output);
          input = h.input;
          telling = h.telling;
        })
        | inr open_e ↦ subst (IsSteady hs false) (sym (handle_close-open hs failed open_e)) (
            tell-IsSteady hs.on_close (record failed { closed = true; up = false; outbox = [] })
              refl refl refl refl (h.telling ∙ expected-open hs.on_close c.closed open_e))
      ]

  Step-IsSteady : {c c' : Conn A} → Step hs c c' → IsSteady hs false c → IsSteady hs false c'
  Step-IsSteady (calls t c) h = post-IsSteady hs t c h
  Step-IsSteady (runs c) h = run_first-IsSteady c.tasks c h
  Step-IsSteady (reads k r {c} {c'} busy e) h = read_done-IsSteady k r c c' busy h e
  Step-IsSteady (writes m error c under) h = write_done-IsSteady m error c under h

  pub fresh-IsSteady : (app : A) → IsSteady hs false (fresh app)
  fresh-IsSteady app = record {
    socket = refl;
    output = refl;
    input = λ _. refl;
    telling = sym (expected-open hs.on_close false refl);
  }

  -- From a new connection, over any steps: the socket is open exactly while `closed_` is not set; a
  -- write is under way exactly when `writing_` says so, that of the first message of the outbox while
  -- the connection is open, and an open connection without one has an empty outbox, as has a closed
  -- one; an open connection that was started always has a read under way; and the close handler, if
  -- there is one, was called once if the connection is closed and never otherwise.
  pub Reach-IsSteady : (app : A) {c : Conn A} → Reach hs (fresh app) c → IsSteady hs false c
  Reach-IsSteady app here = fresh-IsSteady app
  Reach-IsSteady app (next r s) = Step-IsSteady s (Reach-IsSteady app r)
