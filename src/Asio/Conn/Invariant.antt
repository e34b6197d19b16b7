-- ===== src/Asio/Conn/Invariant.antt =====
-- The steps of a connection, in any order, and what is true after each of them.
use inc.Prelude.{
  ℕ, suc, ◌≡◌, refl, sym, ap, ◌∙◌, List, [], ◌∷◌, ◌++◌, Bool, true, false, not, Option, none, some,
  arith, Bool-cases, inl, inr, ◌||◌,
}
use mathlib.Core.Path.{subst}
use inc.Buffer.{make}
use inc.Asio.Conn.{
  Task, start_task, send_task, close_task, Handlers, Reply, Event, told_close, Conn, post, post_all,
  do_read, begin_write, do_write, start_now, send_now, run_first, read_done, write_done, rest_of,
  note_call,
}

-- One step: a call from any thread, a function that was posted, and the end of a read or of a write.
pub data Step {A : Type 0} (hs : Handlers A) : Conn A → Conn A → Type 0 where
  calls : (t : Task) (c : Conn A) → Step hs c (post t c)
  runs : (c : Conn A) → Step hs c (run_first hs c.tasks c)
  reads :
      (k : ℕ) (r : Option (List ℕ)) {c c' : Conn A}
      → c.reading ≡ true
      → read_done hs k r c ≡ some c'
      → Step hs c c'
  writes :
      (m : List ℕ) (error : Bool) (c : Conn A)
      → c.pending ≡ some m
      → Step hs c (write_done hs m error c)

pub data Reach {A : Type 0} (hs : Handlers A) (c : Conn A) : Conn A → Type 0 where
  here : Reach hs c c
  next : {c' c'' : Conn A} → Reach hs c c' → Step hs c' c'' → Reach hs c c''

-- A connection of a socket that is open.
abbrev pub fresh : {A : Type 0} → A → Conn A
fresh app = record {
  up = true;
  rbuf = make;
  outbox = [];
  writing = false;
  closed = false;
  started = false;
  app = app;
  tasks = [];
  reading = false;
  pending = none;
  log = [];
}

-- A write is under way exactly when `writing_` says so, and while the connection is open it is that of
-- the first message of the outbox; with no write under way an open connection has an empty outbox.
abbrev pub Writing : Bool → Option (List ℕ) → Bool → List (List ℕ) → Type 0
Writing false none closed outbox = outbox ≡ []
Writing true (some m) false outbox = outbox ≡ m ∷ rest_of outbox
Writing true (some m) true outbox = outbox ≡ []
Writing _ _ _ _ = ⊥

abbrev pub told : List Event → ℕ
told [] = 0
told (told_close ∷ log) = suc (told log)
told (_ ∷ log) = told log

-- How often the close handler is to be called.
abbrev pub expected : {A : Type 0} → Option (A → Reply A) → Bool → ℕ
expected (some f) true = 1
expected _ _ = 0

-- `handling` says that the bytes of a read are being handled, before the next read is begun.
pub record Steady {A : Type 0} (hs : Handlers A) (handling up closed started reading writing : Bool)
    (pending : Option (List ℕ)) (outbox : List (List ℕ)) (log : List Event) : Type 0 where
  pub socket : up ≡ not closed
  pub output : Writing writing pending closed outbox
  pub input : closed ≡ false → (handling || reading) ≡ started
  pub telling : told log ≡ expected hs.on_close closed

abbrev pub IsSteady : {A : Type 0} → Handlers A → Bool → Conn A → Type 0
IsSteady hs handling c =
    Steady hs handling c.up c.closed c.started c.reading c.writing c.pending c.outbox c.log

more :
    (p : Option (List ℕ)) (out : List (List ℕ)) (bs : List ℕ)
    → Writing true p false out
    → Writing true p false (out ++ (bs ∷ []))
more none out bs h = h
more (some m) [] bs h = cc
more (some m) (x ∷ out) bs h = ground arith

pub none_pending :
    (p : Option (List ℕ)) (closed : Bool) (out : List (List ℕ))
    → Writing false p closed out
    → (p ≡ none) × (out ≡ [])
none_pending none closed out h = (refl, h)
none_pending (some m) closed out h = absurd h

-- `Send` behind a write that is under way.
queued :
    (w closed : Bool) (p : Option (List ℕ)) (out : List (List ℕ)) (bs : List ℕ)
    → w ≡ true
    → closed ≡ false
    → Writing w p closed out
    → Writing w p closed (out ++ (bs ∷ []))
queued true false p out bs under open_e h = more p out bs h
queued true true p out bs under open_e h = cc
queued false closed p out bs under open_e h = cc

pub out_free :
    (w closed : Bool) (p : Option (List ℕ)) (out : List (List ℕ))
    → w ≡ false
    → Writing w p closed out
    → Writing false p closed out
out_free w closed p out free h = subst (λ w. Writing w p closed out) free h

module _ {A : Type 0} (hs : Handlers A) where
  pub told-note : (t : Task) (log : List Event) → told (note_call t log) ≡ told log
  told-note start_task log = refl
  told-note (send_task bs) log = refl
  told-note close_task log = refl

  pub post-IsSteady :
      {b : Bool} (t : Task) (c : Conn A) → IsSteady hs b c → IsSteady hs b (post t c)
  unfolding post
  post-IsSteady t c h = record {
    socket = h.socket;
    output = h.output;
    input = h.input;
    telling = told-note t c.log ∙ h.telling;
  }

  pub post_all-IsSteady :
      {b : Bool} (ts : List Task) (c : Conn A) → IsSteady hs b c → IsSteady hs b (post_all ts c)
  unfolding post_all
  post_all-IsSteady [] c h = h
  post_all-IsSteady (t ∷ ts) c h = post_all-IsSteady ts (post t c) (post-IsSteady t c h)

  pub start_now-IsSteady : (c : Conn A) → IsSteady hs false c → IsSteady hs false (start_now c)
  unfolding start_now do_read
  start_now-IsSteady c h = ground arith

  begin_write-open :
      (m : List ℕ) (ms : List (List ℕ)) (c : Conn A)
      → c.closed ≡ false
      → c.up ≡ true
      → begin_write (m ∷ ms) c ≡ record c { writing = true; pending = some m }
  unfolding begin_write
  begin_write-open m ms c open_e up_e = ground arith

  pub send_now-closed : (bs : List ℕ) (c : Conn A) → c.closed ≡ true → send_now bs c ≡ c
  unfolding send_now
  send_now-closed bs c down = ground arith

  pub send_now-busy :
      (bs : List ℕ) (c : Conn A)
      → c.closed ≡ false
      → c.up ≡ true
      → c.writing ≡ true
      → send_now bs c ≡ record c { outbox = c.outbox ++ (bs ∷ []) }
  unfolding send_now
  send_now-busy bs c open_e up_e busy = ground arith

  pub send_now-free :
      (bs : List ℕ) (c : Conn A)
      → c.closed ≡ false
      → c.up ≡ true
      → c.writing ≡ false
      → send_now bs c ≡ do_write (record c { outbox = c.outbox ++ (bs ∷ []) })
  unfolding send_now
  send_now-free bs c open_e up_e free = ground arith

  -- The outbox without a write under way, and what begins the next one.
  pub begin_write-IsSteady :
      {b : Bool} (ms : List (List ℕ)) (c : Conn A)
      → c.outbox ≡ ms
      → c.pending ≡ none
      → (c.closed ≡ true → ms ≡ [])
      → c.up ≡ not c.closed
      → (c.closed ≡ false → (b || c.reading) ≡ c.started)
      → told c.log ≡ expected hs.on_close c.closed
      → IsSteady hs b (begin_write ms c)
  unfolding begin_write
  begin_write-IsSteady {b = b} [] c out none_e empty socket input telling = record {
    socket = socket;
    output = rw none_e out;
    input = input;
    telling = telling;
  }
  begin_write-IsSteady {b = b} (m ∷ ms) c out none_e empty socket input telling =
      elim (Bool-cases c.closed) [
        | inl down ↦ cc (empty down)
        | inr open_e ↦
            subst (IsSteady hs b) (sym (begin_write-open m ms c open_e (socket ∙ ap not open_e)))
              (record {
                socket = socket;
                output = simp (open_e) (out ∙ ap (λ o. m ∷ rest_of o) (sym out));
                input = input;
                telling = telling;
              })
      ]

  pub send_now-IsSteady :
      {b : Bool} (bs : List ℕ) (c : Conn A) → IsSteady hs b c → IsSteady hs b (send_now bs c)
  unfolding send_now do_write
  send_now-IsSteady {b = b} bs c h = elim (Bool-cases c.closed) [
    | inl down ↦ subst (IsSteady hs b) (sym (send_now-closed bs c down)) h
    | inr open_e ↦ elim (Bool-cases c.writing) [
      | inl under ↦
          subst (IsSteady hs b) (sym (send_now-busy bs c open_e (h.socket ∙ ap not open_e) under))
            (record {
              socket = h.socket;
              output = queued c.writing c.closed c.pending c.outbox bs under open_e h.output;
              input = h.input;
              telling = h.telling;
            })
      | inr free ↦
          let idle =
            none_pending c.pending c.closed c.outbox
              (out_free c.writing c.closed c.pending c.outbox free h.output) in
          subst (IsSteady hs b) (sym (send_now-free bs c open_e (h.socket ∙ ap not open_e) free)) (
            begin_write-IsSteady (c.outbox ++ (bs ∷ []))
              (record c { outbox = c.outbox ++ (bs ∷ []) }) refl idle.0 (λ down. cc) h.socket
              h.input h.telling)
    ]
  ]
