-- ===== src/Asio/Conn/Order.antt =====
-- What `Send` was given, what was written and what is left of it, and the small changes that keep it.
use inc.Prelude.{
  ℕ, ◌≡◌, refl, sym, ap, ◌∙◌, List, [], ◌∷◌, ◌++◌, append-nil, append_assoc, ◌||◌, Bool, true,
  false, not, Option, none, some, arith, Bool-cases, inl, inr,
}
use mathlib.Core.Path.{subst}
use mathlib.Core.Option.{some-injective}
use inc.Asio.Conn.{
  Task, start_task, send_task, close_task, Reply, Event, given, written, told_close, Conn, post,
  post_all, begin_write, tell, rest_of, note_call,
}
use inc.Asio.Conn.Invariant.{Writing}

abbrev pub given_of : List Event → List (List ℕ)
given_of [] = []
given_of (given bs ∷ log) = given_of log ++ (bs ∷ [])
given_of (_ ∷ log) = given_of log

abbrev pub written_of : List Event → List (List ℕ)
written_of [] = []
written_of (written bs ∷ log) = written_of log ++ (bs ∷ [])
written_of (_ ∷ log) = written_of log

-- The messages of the calls of `Send` that were posted and have not run.
abbrev pub sends : List Task → List (List ℕ)
sends [] = []
sends (send_task bs ∷ ts) = bs ∷ sends ts
sends (_ ∷ ts) = sends ts

-- `left` is what was given and is not written. While the connection is open it is the outbox and
-- the calls that have not run; a write under way is that of its first message.
pub record Accounted (closed : Bool) (outbox : List (List ℕ)) (tasks : List Task)
    (pending : Option (List ℕ)) (log : List Event) : Type 0 where
  pub left : List (List ℕ)
  pub whole : written_of log ++ left ≡ given_of log
  pub open_left : closed ≡ false → left ≡ outbox ++ sends tasks
  pub next_left : (m : List ℕ) → pending ≡ some m → left ≡ m ∷ rest_of left

abbrev pub InOrder : {A : Type 0} → Conn A → Type 0
InOrder c = Accounted c.closed c.outbox c.tasks c.pending c.log

sends-append : (ts : List Task) (t : Task) → sends (ts ++ (t ∷ [])) ≡ sends ts ++ sends (t ∷ [])
sends-append [] t = refl
sends-append (send_task bs ∷ ts) t = ap (λ ms. bs ∷ ms) (sends-append ts t)
sends-append (start_task ∷ ts) t = sends-append ts t
sends-append (close_task ∷ ts) t = sends-append ts t

head_stays :
    {m : List ℕ} (left more : List (List ℕ))
    → left ≡ m ∷ rest_of left
    → left ++ more ≡ m ∷ rest_of (left ++ more)
head_stays [] more h = cc
head_stays (x ∷ left) more h = ground arith

given_of-note :
    (t : Task) (log : List Event) → given_of (note_call t log) ≡ given_of log ++ sends (t ∷ [])
given_of-note (send_task bs) log = refl
given_of-note start_task log = sym (append-nil _)
given_of-note close_task log = sym (append-nil _)

written_of-note : (t : Task) (log : List Event) → written_of (note_call t log) ≡ written_of log
written_of-note (send_task bs) log = refl
written_of-note start_task log = refl
written_of-note close_task log = refl

or_false : (a b : Bool) → (a || b) ≡ false → a ≡ false
or_false true b e = cc
or_false false b e = refl

-- An open connection writes the first message of the outbox.
pub front :
    (m : List ℕ) (w : Bool) (p : Option (List ℕ)) (closed : Bool) (out : List (List ℕ))
    → p ≡ some m
    → closed ≡ false
    → Writing w p closed out
    → out ≡ m ∷ rest_of out
front m w none closed out under open_e h = ground arith
front m true (some n) false out under open_e h =
    h ∙ ap (λ n. n ∷ rest_of out) (some-injective _ _ under)
front m true (some n) true out under open_e h = ground arith
front m false (some n) closed out under open_e h = absurd h

pub tail_of :
    (m : List ℕ) (left out more : List (List ℕ))
    → left ≡ out ++ more
    → out ≡ m ∷ rest_of out
    → rest_of left ≡ rest_of out ++ more
tail_of m left [] more h head = cc
tail_of m left (x ∷ out) more h head = ap rest_of h

-- A message at the head of what is left stands there.
heads :
    {m n : List ℕ} (left ms : List (List ℕ))
    → left ≡ m ∷ ms
    → some m ≡ some n
    → left ≡ n ∷ rest_of left
heads left ms h e = ground (arith, some-injective _ _ e)

-- The order is one of the messages, whatever else was posted.
pub retasked :
    {closed : Bool} {outbox : List (List ℕ)} {ts us : List Task} {p : Option (List ℕ)}
    {log : List Event}
    → sends ts ≡ sends us
    → Accounted closed outbox ts p log
    → Accounted closed outbox us p log
retasked {outbox = outbox} same h = record {
  left = h.left;
  whole = h.whole;
  open_left = λ open_e. h.open_left open_e ∙ ap (λ s. outbox ++ s) same;
  next_left = h.next_left;
}

module _ {A : Type 0} where
  pub post-InOrder : (t : Task) (c : Conn A) → InOrder c → InOrder (post t c)
  unfolding post
  post-InOrder t c h = record {
    left = h.left ++ sends (t ∷ []);
    whole =
        ap (λ w. w ++ (h.left ++ sends (t ∷ []))) (written_of-note t c.log)
        ∙ sym (append_assoc (written_of c.log) h.left (sends (t ∷ [])))
        ∙ ap (λ g. g ++ sends (t ∷ [])) h.whole
        ∙ sym (given_of-note t c.log);
    open_left = λ open_e.
        ap (λ l. l ++ sends (t ∷ [])) (h.open_left open_e)
        ∙ append_assoc c.outbox (sends c.tasks) (sends (t ∷ []))
        ∙ ap (λ s. c.outbox ++ s) (sym (sends-append c.tasks t));
    next_left = λ m e. head_stays h.left (sends (t ∷ [])) (h.next_left m e);
  }

  pub post_all-InOrder : (ts : List Task) (c : Conn A) → InOrder c → InOrder (post_all ts c)
  unfolding post_all
  post_all-InOrder [] c h = h
  post_all-InOrder (t ∷ ts) c h = post_all-InOrder ts (post t c) (post-InOrder t c h)

  pub tell-InOrder : (f : Option (A → Reply A)) (c : Conn A) → InOrder c → InOrder (tell f c)
  unfolding tell
  tell-InOrder none c h = h
  tell-InOrder (some f) c h =
      post_all-InOrder (f c.app).calls (record c { app = (f c.app).app; log = told_close ∷ c.log })
        (record {
          left = h.left;
          whole = h.whole;
          open_left = h.open_left;
          next_left = h.next_left;
        })

  begin_write_stops :
      (m : List ℕ) (ms : List (List ℕ)) (c : Conn A)
      → (c.closed || not c.up) ≡ true
      → begin_write (m ∷ ms) c ≡ record c { writing = false }
  unfolding begin_write
  begin_write_stops m ms c shut = ground arith

  begin_write_writes :
      (m : List ℕ) (ms : List (List ℕ)) (c : Conn A)
      → (c.closed || not c.up) ≡ false
      → begin_write (m ∷ ms) c ≡ record c { writing = true; pending = some m }
  unfolding begin_write
  begin_write_writes m ms c free = ground arith

  pub begin_write-InOrder :
      (ms : List (List ℕ)) (c : Conn A)
      → c.outbox ≡ ms
      → c.pending ≡ none
      → InOrder c
      → InOrder (begin_write ms c)
  unfolding begin_write
  begin_write-InOrder [] c out none_e h = h
  begin_write-InOrder (m ∷ ms) c out none_e h = elim (Bool-cases (c.closed || not c.up)) [
    | inl shut ↦ subst InOrder (sym (begin_write_stops m ms c shut)) h
    | inr free ↦
        let open_e = or_false c.closed (not c.up) free in
        subst InOrder (sym (begin_write_writes m ms c free)) (record {
          left = h.left;
          whole = h.whole;
          open_left = h.open_left;
          next_left = λ n e.
              heads h.left (ms ++ sends c.tasks)
                (h.open_left open_e ∙ ap (λ o. o ++ sends c.tasks) out) e;
        })
  ]
