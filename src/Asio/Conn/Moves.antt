-- ===== src/Asio/Conn/Moves.antt =====
-- What the handlers of a read do to a connection, and the predicates that this keeps.
use inc.Prelude.{
  ℕ, zero, suc, ◌≡◌, refl, ap, ◌∙◌, List, [], ◌∷◌, Bool, true, false, Option, none, some, arith,
  Bool-cases, inl, inr,
}
use inc.Prelude.Int.{int_cases}
use inc.Buffer.{remove}
use inc.Asio.Conn.{
  Task, Handlers, Reply, told_close, Conn, post, post_all, close_now, tell, handle_close, ask,
  answer_of, dispatch_messages,
}

pub record KeepsInput {A : Type 0} (hs : Handlers A) (P : Conn A → Type 0) : Type 0 where
  pub asks : (c : Conn A) → P c → P (ask hs c)
  pub closes : (c : Conn A) → P c → P (handle_close hs c)
  pub consumes : (n : ℕ) (c : Conn A) → P c → P (record c { rbuf = (remove c.rbuf n).0 })

module _ {A : Type 0} (hs : Handlers A) where
  pub dispatch_messages-keeps :
      (P : Conn A → Type 0)
      → KeepsInput hs P
      → (k : ℕ) (c c' : Conn A) (go : Bool) → P c
      → dispatch_messages hs k c ≡ some (go, c')
      → P c'
  unfolding dispatch_messages
  dispatch_messages-keeps P kept zero c c' go h e = ground arith
  dispatch_messages-keeps P kept (suc k) c c' go h e = elim (int_cases (answer_of hs c)) [
    | inl z ↦ ground (arith, kept.closes (ask hs c) (kept.asks c h))
    | inr (inl z) ↦ ground (arith, kept.asks c h)
    | inr (inr z) ↦ ground (
      arith,
      dispatch_messages-keeps P kept k
          (record (ask hs c) { rbuf = (remove (ask hs c).rbuf (suc z.0)).0 }) c' go
          (kept.consumes (suc z.0) (ask hs c) (kept.asks c h)),
    )
  ]

  pub post_all_closed : (ts : List Task) (c : Conn A) → (post_all ts c).closed ≡ c.closed
  unfolding post_all post
  post_all_closed [] c = refl
  post_all_closed (t ∷ ts) c = post_all_closed ts (post t c)

  tell_closed : (f : Option (A → Reply A)) (c : Conn A) → (tell f c).closed ≡ c.closed
  unfolding tell
  tell_closed none c = refl
  tell_closed (some f) c =
      post_all_closed (f c.app).calls (record c { app = (f c.app).app; log = told_close ∷ c.log })

  pub handle_close-closed : (c : Conn A) → c.closed ≡ true → handle_close hs c ≡ c
  unfolding handle_close
  handle_close-closed c down = ground arith

  pub handle_close-open :
      (c : Conn A)
      → c.closed ≡ false
      → handle_close hs c ≡ tell hs.on_close (record c { closed = true; up = false; outbox = [] })
  unfolding handle_close close_now
  handle_close-open c open_e = ground arith

  pub handle_close_closes : (c : Conn A) → (handle_close hs c).closed ≡ true
  handle_close_closes c = elim (Bool-cases c.closed) [
    | inl down ↦ ap (λ d. d.closed) (handle_close-closed c down) ∙ down
    | inr open_e ↦
        ap (λ d. d.closed) (handle_close-open c open_e)
        ∙ tell_closed hs.on_close (record c { closed = true; up = false; outbox = [] })
  ]

  -- Where the loop says not to read on, the connection was closed.
  pub dispatch_messages_closes :
      (k : ℕ) (c c' : Conn A) (go : Bool)
      → dispatch_messages hs k c ≡ some (go, c')
      → go ≡ false
      → c'.closed ≡ true
  unfolding dispatch_messages
  dispatch_messages_closes zero c c' go e stop = ground arith
  dispatch_messages_closes (suc k) c c' go e stop = elim (int_cases (answer_of hs c)) [
    | inl z ↦ ground (arith, handle_close_closes (ask hs c))
    | inr (inl z) ↦ ground arith
    | inr (inr z) ↦ ground (
      arith,
      dispatch_messages_closes k (record (ask hs c) { rbuf = (remove (ask hs c).rbuf (suc z.0)).0 })
          c' go,
    )
  ]
