-- ===== src/Tcp/Conn/Streams.antt =====
-- `Conn` as two streams: what is sent to the peer and what comes from it, byte for byte.
use inc.Prelude.{
  ℕ, ◌≡◌, ◌∙◌, refl, sym, ap, List, [], ◌∷◌, ◌++◌, Bool, true, false, arith, Bool-cases, inl, inr,
  drop-nil, take-nil, take, drop, take-append-drop, append_assoc, append-nil,
}
use inc.Buffer.{make, bytes}
use inc.Buffer.Stream.{v-reset, v-remove, v-try_write}
use inc.Tcp.{Received}
use inc.Tcp.Conn.{
  Handlers, Event, received, consumed, queued, sent, Conn, close_now, start, took_bytes, queue,
  consume, receive,
}
use inc.Tcp.Conn.Moves.{Keeps, Reach, Reach-keeps}
use inc.Tcp.Conn.Invariant.{fresh}

-- The bytes that `Send` took, that the kernel took, that came in, and that the handler consumed.
abbrev pub all_queued : List Event → List ℕ
all_queued [] = []
all_queued (queued bs ∷ log) = all_queued log ++ bs
all_queued (_ ∷ log) = all_queued log

abbrev pub all_sent : List Event → List ℕ
all_sent [] = []
all_sent (sent bs ∷ log) = all_sent log ++ bs
all_sent (_ ∷ log) = all_sent log

abbrev pub all_received : List Event → List ℕ
all_received [] = []
all_received (received bs ∷ log) = all_received log ++ bs
all_received (_ ∷ log) = all_received log

abbrev pub all_consumed : List Event → List ℕ
all_consumed [] = []
all_consumed (consumed bs ∷ log) = all_consumed log ++ bs
all_consumed (_ ∷ log) = all_consumed log

-- While the connection is open, what was sent and the outbox are what was queued; after it is
-- closed, what was sent is a prefix of it.
abbrev pub Fifo : Bool → List ℕ → List ℕ → List ℕ → Type 0
Fifo false sent_bytes out queued_bytes = sent_bytes ++ out ≡ queued_bytes
Fifo true sent_bytes out queued_bytes =
    (out ≡ []) × (lost : List ℕ) × (sent_bytes ++ lost ≡ queued_bytes)

abbrev pub IsFifo : {A : Type 0} → Conn A → Type 0
IsFifo c = Fifo c.closed (all_sent c.log) c.outbox.v (all_queued c.log)

abbrev pub IsDelivered : {A : Type 0} → Conn A → Type 0
IsDelivered c = all_consumed c.log ++ c.rbuf.v ≡ all_received c.log

pub open_fifo :
    {A : Type 0} (c : Conn A)
    → c.closed ≡ false
    → IsFifo c
    → all_sent c.log ++ c.outbox.v ≡ all_queued c.log
open_fifo c up h = ground arith

module _ {A : Type 0} (hs : Handlers A) where
  start-Streams :
      (added : Bool) (c : Conn A)
      → (IsFifo c → IsFifo (start added c)) × (IsDelivered c → IsDelivered (start added c))
  unfolding start
  start-Streams added c = ground arith

  -- What closing does to the two ends.
  close_now_ends :
      (notify : Bool) (c : Conn A)
      → c.closed ≡ false
      → let c' = close_now hs notify c in
        (c'.closed ≡ true)
        × (c'.outbox.v ≡ [])
        × (all_sent c'.log ≡ all_sent c.log)
        × (all_queued c'.log ≡ all_queued c.log)
  unfolding close_now
  close_now_ends notify c up = ground (arith, v-reset c.outbox)

  close_now-IsFifo : (notify : Bool) (c : Conn A) → IsFifo c → IsFifo (close_now hs notify c)
  close_now-IsFifo notify c h = elim (Bool-cases c.closed) [
    | inl down ↦ unfold close_now in ground arith
    | inr up ↦
        let (e, out, s, q) = close_now_ends notify c up in
        rw (e, out, s, q) (refl, c.outbox.v, open_fifo c up h)
  ]

  close_now-IsDelivered :
      (notify : Bool) (c : Conn A) → IsDelivered c → IsDelivered (close_now hs notify c)
  unfolding close_now
  close_now-IsDelivered notify c h = ground arith

  -- Bytes move from the front of one list to the end of the other.
  moved :
      (done todo all : List ℕ) (n : ℕ)
      → done ++ todo ≡ all
      → (done ++ take n todo) ++ drop n todo ≡ all
  moved done todo all n h =
      append_assoc done (take n todo) (drop n todo)
      ∙ ap (λ r. done ++ r) (take-append-drop n todo)
      ∙ h

  added : (done todo all bs : List ℕ) → done ++ todo ≡ all → done ++ (todo ++ bs) ≡ all ++ bs
  added done todo all bs h = sym (append_assoc done todo bs) ∙ ap (λ r. r ++ bs) h

  took_bytes-IsFifo : (n : ℕ) (c : Conn A) → IsFifo c → IsFifo (took_bytes n c)
  unfolding bytes
  took_bytes-IsFifo n c h = rw (v-remove c.outbox n) (elim (Bool-cases c.closed) [
    | inl down ↦
        ground (arith, drop-nil c.outbox.v n, take-nil c.outbox.v n, append-nil (all_sent c.log))
    | inr up ↦ ground (arith, moved (all_sent c.log) c.outbox.v (all_queued c.log) n)
  ])

  queue-IsFifo : (bs : List ℕ) (c : Conn A) → c.closed ≡ false → IsFifo c → IsFifo (queue bs c)
  queue-IsFifo bs c up h =
      ground
        (arith, v-try_write c.outbox bs, added (all_sent c.log) c.outbox.v (all_queued c.log) bs)

  consume-IsDelivered : (n : ℕ) (c : Conn A) → IsDelivered c → IsDelivered (consume n c)
  unfolding bytes
  consume-IsDelivered n c h =
      rw (v-remove c.rbuf n) (moved (all_consumed c.log) c.rbuf.v (all_received c.log) n h)

  receive-IsDelivered :
      (bs : List ℕ) (rs : List Received) (c : Conn A)
      → IsDelivered c
      → IsDelivered (receive bs rs c)
  receive-IsDelivered bs rs c h =
      rw (v-try_write c.rbuf bs) (added (all_consumed c.log) c.rbuf.v (all_received c.log) bs h)

  IsFifo-Keeps : Keeps hs (λ c. IsFifo c)
  IsFifo-Keeps = record {
    starts = λ added c. (start-Streams added c).0;
    output = record {
      closes = close_now-IsFifo;
      answers = λ rs ss c h. h;
      takes = took_bytes-IsFifo;
      queues = queue-IsFifo;
      asks = λ bs a c h. h;
    };
    consumes = λ n c h. h;
    receives = λ bs rs c h. h;
  }

  IsDelivered-Keeps : Keeps hs (λ c. IsDelivered c)
  IsDelivered-Keeps = record {
    starts = λ added c. (start-Streams added c).1;
    output = record {
      closes = close_now-IsDelivered;
      answers = λ rs ss c h. h;
      takes = λ n c h. h;
      queues = λ bs c up h. h;
      asks = λ bs a c h. h;
    };
    consumes = consume-IsDelivered;
    receives = receive-IsDelivered;
  }

  -- Whatever is done with a new connection and whatever the kernel answers: while the connection is
  -- open, the bytes that `send` took, followed by the outbox, are the bytes given to `Send` of the
  -- open connection, in order; after it is closed, the bytes taken are a prefix of those.
  pub Reach-IsFifo : (fd : ℕ) (app : A) (c : Conn A) → Reach hs (fresh fd app) c → IsFifo c
  unfolding make
  Reach-IsFifo fd app c r =
      Reach-keeps hs (λ c. IsFifo c) IsFifo-Keeps {c = fresh fd app} {c' = c} refl r

  -- Likewise, the bytes that the handler said it consumed, followed by those in the receive
  -- buffer, are at every time the bytes that `recv` returned, in order.
  pub Reach-IsDelivered :
      (fd : ℕ) (app : A) (c : Conn A) → Reach hs (fresh fd app) c → IsDelivered c
  unfolding make
  Reach-IsDelivered fd app c r =
      Reach-keeps hs (λ c. IsDelivered c) IsDelivered-Keeps {c = fresh fd app} {c' = c} refl r
