-- ===== src/Asio/Conn/Ending.antt =====
-- The loop of `DispatchMessages` ends, and with it the handler of a read.
use inc.Prelude.{
  ℕ, zero, suc, ◌+◌, ◌-◌, ◌≤◌, ◌<◌, ◌≡◌, ◌∙◌, refl, ap, List, [], ◌∷◌, Bool, true, false, none,
  some, Option, arith, inl, inr, length, length-append, length-drop, if◌then◌else◌, ◌>>=◌,
}
use inc.Prelude.Int.{pos, int_cases}
use inc.Buffer.{bytes, remove, try_write}
use inc.Buffer.Stream.{v-remove, v-try_write}
use inc.Asio.Conn.{
  Task, Handlers, Conn, post, post_all, do_read, handle_close, ask, answer_of, dispatch_messages,
  read_done,
}

-- A handler that consumes no more than it is given.
abbrev pub IsHonest : {A : Type 0} → Handlers A → Type 0
IsHonest {A} hs =
    (app : A) (bs : List ℕ) (n : ℕ) → (hs.handler app bs).consumed ≡ pos n → n ≤ length bs

-- How many bytes a read brought.
abbrev pub incoming : Option (List ℕ) → ℕ
incoming none = 0
incoming (some bs) = length bs

module _ {A : Type 0} (hs : Handlers A) where
  post_all_rbuf : (ts : List Task) (c : Conn A) → (post_all ts c).rbuf ≡ c.rbuf
  unfolding post_all post
  post_all_rbuf [] c = refl
  post_all_rbuf (t ∷ ts) c = post_all_rbuf ts (post t c)

  ask_rbuf : (c : Conn A) → (ask hs c).rbuf ≡ c.rbuf
  unfolding ask
  ask_rbuf c =
      let reply = hs.handler c.app (bytes c.rbuf) in
      post_all_rbuf reply.calls (record c { app = reply.app })

  dispatch_messages_ends :
      (k : ℕ) (c : Conn A)
      → IsHonest hs
      → length c.rbuf.v < k
      → (r : Bool × Conn A) × (dispatch_messages hs k c ≡ some r)
  unfolding dispatch_messages bytes
  dispatch_messages_ends zero c honest h = absurd (omega arith)
  dispatch_messages_ends (suc k) c honest h = elim (int_cases (answer_of hs c)) [
    | inl z ↦ ((false, handle_close hs (ask hs c)), rw (dispatch_messages, z.1) refl)
    | inr (inl z) ↦ ((true, ask hs c), rw (dispatch_messages, z) refl)
    | inr (inr z) ↦
        let d : Conn A = record (ask hs c) { rbuf = (remove (ask hs c).rbuf (suc z.0)).0 } in
        let shorter =
          ap length (v-remove (ask hs c).rbuf (suc z.0))
          ∙ length-drop (suc z.0) (ask hs c).rbuf.v
          ∙ ap (λ b. length b.v - suc z.0) (ask_rbuf c) in
        let fits = honest c.app c.rbuf.v (suc z.0) z.1 in
        let (r, e) = dispatch_messages_ends k d honest (omega (arith, shorter)) in
        (r, rw (dispatch_messages, z.1) e)
  ]

  -- With a message handler that consumes no more than it is given, the handler of a read comes to
  -- its end within one round more than the bytes that are buffered and come, whatever the state.
  pub read_done_ends :
      (r : Option (List ℕ)) (k : ℕ) (c : Conn A)
      → IsHonest hs
      → length c.rbuf.v + incoming r < k
      → (c' : Conn A) × (read_done hs k r c ≡ some c')
  unfolding read_done
  read_done_ends none k c honest enough = (_, refl)
  read_done_ends (some bs) k c honest enough =
      let d : Conn A = record c { reading = false; rbuf = (try_write c.rbuf bs).0 } in
      let l = ap length (v-try_write c.rbuf bs) ∙ length-append c.rbuf.v bs in
      let (r, e) = dispatch_messages_ends k d honest (omega (arith, l, enough)) in
      (_, ap (λ o. o >>= λ r. some (if r.0 then do_read r.1 else r.1)) e)
