-- ===== src/Tcp/Conn/Progress.antt =====
-- `Conn`: the loops end, output gets out while the kernel takes it, and where it stays behind.
use inc.Prelude.{
  ℕ, zero, suc, ◌+◌, ◌-◌, ◌≤◌, ◌<◌, ◌≡◌, ◌∙◌, refl, sym, ap, List, [], ◌∷◌, ◌++◌, Bool, true, false,
  some, arith, Bool-cases, inl, inr, All, length, length-append, length-drop, append-nil, bit_or,
  ◌==◌,
}
use inc.Prelude.Int.{pos, int_cases}
use inc.Buffer.{bytes, empty}
use inc.Buffer.Stream.{v-remove, v-try_write}
use inc.Tcp.{
  Received, got, recv_failed, Sent, took, send_failed, has, epollin, epollerr, epollhup, eintr,
}
use inc.Tcp.Conn.{
  Handlers, Conn, Event, watched, close_now, took_bytes, queue, consume, receive, write_loop,
  handle_write, send, ask, answer_of, dispatch_messages, read_loop, handle_read, handle_event,
  is_fd,
}
use inc.Tcp.Conn.Moves.{KeepsOutput, ask-keeps, Reach, sends, next}
use inc.Tcp.Conn.Invariant.{fresh, IsSound, Reach-IsSound}
use inc.Tcp.Conn.Streams.{open_fifo, all_sent, all_queued, Reach-IsFifo}

-- A handler that consumes no more than it is given.
abbrev pub IsHonest : {A : Type 0} → Handlers A → Type 0
IsHonest {A} hs =
    (app : A) (bs : List ℕ) (n : ℕ) → (hs.handler app bs).consumed ≡ pos n → n ≤ length bs

-- The bytes in the kernel's answers.
abbrev pub incoming : List Received → ℕ
incoming [] = 0
incoming (got bs ∷ answers) = length bs + incoming answers
incoming (recv_failed e ∷ answers) = incoming answers

module _ {A : Type 0} (hs : Handlers A) where
  close_now_rbuf : (notify : Bool) (c : Conn A) → (close_now hs notify c).rbuf ≡ c.rbuf
  unfolding close_now
  close_now_rbuf notify c = ground arith

  ask_rbuf : (c : Conn A) → (ask hs c).rbuf ≡ c.rbuf
  ask_rbuf c = ask-keeps hs (λ d. d.rbuf ≡ c.rbuf) kept c refl
    where
      kept : KeepsOutput hs (λ d. d.rbuf ≡ c.rbuf)
      kept = record {
        closes = λ notify d h. close_now_rbuf notify d ∙ h;
        answers = λ rs ss d h. h;
        takes = λ n d h. h;
        queues = λ bs d up h. h;
        asks = λ bs a d h. h;
      }

  consumed_length :
      (n : ℕ) (c : Conn A) → length (consume n (ask hs c)).rbuf.v ≡ length c.rbuf.v - n
  consumed_length n c =
      ap length (v-remove (ask hs c).rbuf n)
      ∙ length-drop n (ask hs c).rbuf.v
      ∙ ap (λ b. length b.v - n) (ask_rbuf c)

  dispatch_messages_ends :
      (k : ℕ) (c : Conn A)
      → IsHonest hs
      → length c.rbuf.v < k
      → (go : Bool) × (c' : Conn A) × (dispatch_messages hs k c ≡ some (go, c'))
        × (length c'.rbuf.v ≤ length c.rbuf.v)
  unfolding dispatch_messages bytes
  dispatch_messages_ends zero c honest h = absurd (omega arith)
  dispatch_messages_ends (suc k) c honest h =
      let r = ap (λ b. length b.v) (ask_rbuf c) in
      elim (int_cases (answer_of hs c)) [
        | inl z ↦ (
          false,
          close_now hs true (ask hs c),
          rw (dispatch_messages, z.1) refl,
          omega (arith, r, ap (λ b. length b.v) (close_now_rbuf true (ask hs c))),
        )
        | inr (inl z) ↦ (true, ask hs c, rw (dispatch_messages, z) refl, omega (arith, r))
        | inr (inr z) ↦
            let l = honest c.app c.rbuf.v (suc z.0) z.1 in
            let q = consumed_length (suc z.0) c in
            let (go, c', e, s) =
              dispatch_messages_ends k (consume (suc z.0) (ask hs c)) honest (omega (arith, q)) in
            (go, c', rw (dispatch_messages, z.1) e, omega (arith, q))
      ]

  read_loop_ends :
      (k : ℕ) (answers : List Received) (c : Conn A)
      → IsHonest hs
      → length c.rbuf.v + incoming answers < k
      → (c' : Conn A) × (read_loop hs k answers c ≡ some c')
  unfolding read_loop
  read_loop_ends k [] c honest h = (_, refl)
  read_loop_ends k (got [] ∷ answers) c honest h = (_, refl)
  read_loop_ends k (got (b ∷ bs) ∷ answers) c honest h =
      let d = receive (b ∷ bs) answers c in
      let l = ap length (v-try_write c.rbuf (b ∷ bs)) ∙ length-append c.rbuf.v (b ∷ bs) in
      let (go, c', e, s) = dispatch_messages_ends k d honest (omega (arith, l)) in
      elim (Bool-cases (is_fd c.fd)) [
        | inl up ↦ elim (Bool-cases go) [
          | inl on ↦
              let (c'', e') = read_loop_ends k answers c' honest (omega (arith, l, s)) in
              rw (read_loop, up, e, on) (c'', e')
          | inr off ↦ (c', rw (read_loop, up, e, off) refl)
        ]
        | inr down ↦ rw (read_loop, down) (_, refl)
      ]
  read_loop_ends k (recv_failed n ∷ answers) c honest h =
      let (c', e) = read_loop_ends k answers (record c { recvs = answers }) honest h in
      elim (Bool-cases (is_fd c.fd)) [
        | inl up ↦ elim (Bool-cases (n == eintr)) [
          | inl again ↦ rw (read_loop, up, again) (c', e)
          | inr stop ↦ rw (read_loop, up, stop) (_, refl)
        ]
        | inr down ↦ rw (read_loop, down) (_, refl)
      ]

  -- Whatever the kernel answers, `HandleEvent` comes to its end when the message handler never
  -- claims more bytes than it is given: as many rounds of `DispatchMessages` for one `recv` as
  -- there are bytes in the buffer and in the kernel's answers, and one more, are enough.
  pub handle_event_ends :
      (k ev : ℕ) (c : Conn A)
      → IsHonest hs
      → length c.rbuf.v + incoming c.recvs < k
      → (c' : Conn A) × (handle_event hs k ev c ≡ some c')
  unfolding handle_event handle_read
  handle_event_ends k ev c honest h =
      let (c', e) = read_loop_ends k c.recvs c honest h in
      elim (Bool-cases (has ev (bit_or epollerr epollhup))) [
        | inl bad ↦ rw (handle_event, bad) (_, refl)
        | inr fine ↦ elim (Bool-cases (has ev epollin)) [
          | inl readable ↦ rw (handle_event, handle_read, fine, readable, e) (_, refl)
          | inr quiet ↦ rw (handle_event, fine, quiet) (_, refl)
        ]
      ]

open_is_fd : {A : Type 0} (c : Conn A) → c.closed ≡ false → IsSound c → is_fd c.fd ≡ true
open_is_fd c up h = ground arith

-- Every event that `epoll` was asked for is `EPOLLIN`.
abbrev pub OnlyIn : List Event → Type 0
OnlyIn [] = Unit
OnlyIn (watched fd ev ∷ log) = (ev ≡ epollin) × OnlyIn log
OnlyIn (_ ∷ log) = OnlyIn log

-- The kernel takes at least one byte.
abbrev pub IsTaking : Sent → Type 0
IsTaking (took n) = 0 < n
IsTaking (send_failed e) = ⊥

module _ {A : Type 0} (hs : Handlers A) where
  -- The connection stays as it is, but for an outbox that has been emptied.
  abbrev pub Drained : Conn A → Conn A → Type 0
  Drained c c' =
      (c'.outbox.v ≡ [])
      × (c'.closed ≡ c.closed)
      × (c'.fd ≡ c.fd)
      × (all_queued c'.log ≡ all_queued c.log)

  write_loop_drains :
      (answers : List Sent) (c : Conn A)
      → All IsTaking answers
      → length c.outbox.v ≤ length answers
      → Drained c (write_loop hs answers c)
  unfolding write_loop empty
  write_loop_drains [] c t h = ground arith
  write_loop_drains (took n ∷ answers) c t h =
      let l = ap length (v-remove c.outbox n) ∙ length-drop n c.outbox.v in
      ground (arith, write_loop_drains answers (took_bytes n c) t.1 (omega (arith, l, t.0)))
  write_loop_drains (send_failed e ∷ answers) c t h = absurd t.0

  send_queues :
      (bs : List ℕ) (c : Conn A)
      → c.closed ≡ false
      → is_fd c.fd ≡ true
      → send hs bs c ≡ write_loop hs c.sends (queue bs c)
  unfolding send handle_write
  send_queues bs c up there = rw (up, there) refl

  -- When the kernel takes at least one byte each time and is asked often enough, `Send` on an open
  -- connection empties the outbox: everything ever given to `Send` has been sent, in order.
  pub send_drains :
      (fd : ℕ) (app : A) (bs : List ℕ) (c : Conn A)
      → Reach hs (fresh fd app) c
      → c.closed ≡ false
      → All IsTaking c.sends
      → length c.outbox.v + length bs ≤ length c.sends
      → let c' = send hs bs c in
        (c'.closed ≡ false) × (c'.outbox.v ≡ []) × (all_sent c'.log ≡ all_queued c.log ++ bs)
  send_drains fd app bs c r up t h =
      let there = open_is_fd c up (Reach-IsSound hs fd app c r) in
      let l = ap length (v-try_write c.outbox bs) ∙ length-append c.outbox.v bs in
      let (out, same, _, q) = write_loop_drains c.sends (queue bs c) t (omega (arith, l)) in
      let e = send_queues bs c up there in
      let fifo = Reach-IsFifo hs fd app (send hs bs c) (next r (sends bs c)) in
      let open_still = ap (λ d. d.closed) e ∙ same ∙ up in
      let done = ap (λ d. d.outbox.v) e ∙ out in
      let whole = open_fifo (send hs bs c) open_still fifo in
      (
        open_still,
        done,
        sym (append-nil (all_sent (send hs bs c).log))
            ∙ ap (λ r. all_sent (send hs bs c).log ++ r) (sym done)
            ∙ whole
            ∙ ap (λ d. all_queued d.log) e
            ∙ q,
      )

  -- While the connection is open, its outbox and what was sent are as in `c`.
  abbrev Waits : Conn A → Conn A → Type 0
  Waits c d = d.closed ≡ false → (d.outbox ≡ c.outbox) × (all_sent d.log ≡ all_sent c.log)
