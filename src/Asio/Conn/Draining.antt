-- ===== src/Asio/Conn/Draining.antt =====
-- The ends of writes without an error, one after the other.
use inc.Prelude.{
  ℕ, zero, suc, ◌≡◌, refl, sym, ap, ◌∙◌, List, [], ◌∷◌, ◌++◌, append-nil, append_assoc, length,
  Bool, true, false, Option, none, some, arith,
}
use mathlib.Core.Path.{subst}
use inc.Asio.Conn.{Handlers, Conn, begin_write, write_done, rest_of, written}
use inc.Asio.Conn.Invariant.{Reach, fresh, IsSteady, Writing}
use inc.Asio.Conn.Safety.{Reach-IsSteady, write_done-IsSteady}
use inc.Asio.Conn.Order.{written_of}

-- The write that is under way ends without an error.
abbrev pub end_write : {A : Type 0} → Handlers A → Option (List ℕ) → Conn A → Conn A
end_write hs none c = c
end_write hs (some m) c = write_done hs m false c

-- Up to `k` writes end, each without an error.
unfoldable pub succeed : {A : Type 0} → Handlers A → ℕ → Conn A → Conn A
succeed hs zero c = c
succeed hs (suc k) c = succeed hs k (end_write hs c.pending c)

idle :
    (w : Bool) (p : Option (List ℕ)) (closed : Bool) (out : List (List ℕ))
    → closed ≡ false
    → out ≡ []
    → Writing w p closed out
    → w ≡ false
idle false p closed out open_e empty h = refl
idle true none closed out open_e empty h = absurd h
idle true (some m) false out open_e empty h = cc
idle true (some m) true out open_e empty h = cc

under_way :
    (w : Bool) (p : Option (List ℕ)) (closed : Bool) (m : List ℕ) (ms out : List (List ℕ))
    → closed ≡ false
    → out ≡ m ∷ ms
    → Writing w p closed out
    → p ≡ some m
under_way false none closed m ms out open_e head h = cc
under_way false (some n) closed m ms out open_e head h = absurd h
under_way true none closed m ms out open_e head h = absurd h
under_way true (some n) true m ms out open_e head h = cc
under_way true (some n) false m ms out open_e head h = ground arith

module _ {A : Type 0} where
  -- The next write changes neither the outbox nor the log, and closes nothing.
  begin_write_keeps :
      (ms : List (List ℕ)) (c : Conn A)
      → ((begin_write ms c).outbox ≡ c.outbox)
        × ((begin_write ms c).closed ≡ c.closed)
        × ((begin_write ms c).log ≡ c.log)
  unfolding begin_write
  begin_write_keeps [] c = (refl, refl, refl)
  begin_write_keeps (m ∷ ms) c = ground arith

module _ {A : Type 0} (hs : Handlers A) where
  drain :
      (out : List (List ℕ)) (c : Conn A)
      → c.outbox ≡ out
      → c.closed ≡ false
      → IsSteady hs false c
      → let d = succeed hs (length out) c in
        (d.outbox ≡ []) × (d.writing ≡ false) × (written_of d.log ≡ written_of c.log ++ out)
  unfolding succeed write_done
  drain [] c out_e open_e h =
      (out_e, idle c.writing c.pending c.closed c.outbox open_e out_e h.output, sym (append-nil _))
  drain (m ∷ out) c out_e open_e h =
      let under = under_way c.writing c.pending c.closed m out c.outbox open_e out_e h.output in
      let c' : Conn A = record c {
        outbox = rest_of c.outbox;
        pending = none;
        log = written m ∷ c.log;
      } in
      let keeps = begin_write_keeps (rest_of c.outbox) c' in
      let d =
        drain out (write_done hs m false c) (keeps.0 ∙ ap rest_of out_e) (keeps.1 ∙ open_e)
          (write_done-IsSteady hs m false c under h) in
      subst
        (λ p.
          let d = succeed hs (length out) (end_write hs p c) in
          (d.outbox ≡ [])
          × (d.writing ≡ false)
          × (written_of d.log ≡ written_of c.log ++ (m ∷ out)))
        (sym under)
        (
          d.0,
          d.1,
          d.2
              ∙ ap (λ l. written_of l ++ out) keeps.2
              ∙ append_assoc (written_of c.log) (m ∷ []) out,
        )

  -- From a connection that any steps lead to and that is open, as many writes that end without an
  -- error as the outbox has messages leave an empty outbox and no write under way, and have written
  -- exactly the messages that the outbox had, in its order.
  pub drains :
      (app : A) {c : Conn A}
      → Reach hs (fresh app) c
      → c.closed ≡ false
      → let d = succeed hs (length c.outbox) c in
        (d.outbox ≡ []) × (d.writing ≡ false) × (written_of d.log ≡ written_of c.log ++ c.outbox)
  drains app {c} r open_e = drain c.outbox c refl open_e (Reach-IsSteady hs app r)
