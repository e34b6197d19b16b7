-- ===== src/Tcp/Conn/Moves.antt =====
-- A predicate on a connection that each small change keeps is kept by every call of it.
use inc.Prelude.{
  ℕ, zero, suc, ◌≡◌, List, [], ◌∷◌, Bool, true, false, some, inl, inr, arith, Bool-cases,
  Option-cases,
}
use inc.Prelude.Int.{int_cases}
use inc.Tcp.{Received, got, recv_failed, Sent, took, send_failed}
use inc.Tcp.Conn.{
  Call, call_send, call_close, Handlers, asked, Conn, close_now, close, write_loop, handle_write,
  send, run_call, run_calls, ask, dispatch_messages, read_loop, handle_read, handle_event, start,
  took_bytes, consume, queue, receive, answer_of, is_fd,
}

-- What the output side does to a connection, and what the input side does.
pub record KeepsOutput {A : Type 0} (hs : Handlers A) (P : Conn A → Type 0) : Type 0 where
  pub closes : (notify : Bool) (c : Conn A) → P c → P (close_now hs notify c)
  pub answers :
      (rs : List Received) (ss : List Sent) (c : Conn A)
      → P c
      → P (record c { recvs = rs; sends = ss })
  pub takes : (n : ℕ) (c : Conn A) → P c → P (took_bytes n c)
  pub queues : (bs : List ℕ) (c : Conn A) → c.closed ≡ false → P c → P (queue bs c)
  pub asks :
      (bs : List ℕ) (a : A) (c : Conn A) → P c → P (record c { app = a; log = asked bs ∷ c.log })

pub record KeepsInput {A : Type 0} (hs : Handlers A) (P : Conn A → Type 0) : Type 0 where
  pub closes : (notify : Bool) (c : Conn A) → P c → P (close_now hs notify c)
  pub answers :
      (rs : List Received) (ss : List Sent) (c : Conn A)
      → P c
      → P (record c { recvs = rs; sends = ss })
  pub replies : (c : Conn A) → P c → P (ask hs c)
  pub consumes : (n : ℕ) (c : Conn A) → P c → P (consume n c)
  pub receives : (bs : List ℕ) (rs : List Received) (c : Conn A) → P c → P (receive bs rs c)

pub record Keeps {A : Type 0} (hs : Handlers A) (P : Conn A → Type 0) : Type 0 where
  pub starts : (added : Bool) (c : Conn A) → P c → P (start added c)
  pub output : KeepsOutput hs P
  pub consumes : (n : ℕ) (c : Conn A) → P c → P (consume n c)
  pub receives : (bs : List ℕ) (rs : List Received) (c : Conn A) → P c → P (receive bs rs c)

module _ {A : Type 0} (hs : Handlers A) (P : Conn A → Type 0) (kept : KeepsOutput hs P) where
  write_loop-keeps : (answers : List Sent) (c : Conn A) → P c → P (write_loop hs answers c)
  unfolding write_loop
  write_loop-keeps [] c h = kept.answers c.recvs [] c h
  write_loop-keeps (took n ∷ answers) c h = ground (
    arith,
    kept.answers c.recvs answers c h,
    kept.answers c.recvs (took n ∷ answers) c h,
    write_loop-keeps answers (took_bytes n c) (kept.takes n c h),
  )
  write_loop-keeps (send_failed e ∷ answers) c h = ground (
    arith,
    kept.answers c.recvs answers c h,
    kept.answers c.recvs (send_failed e ∷ answers) c h,
    kept.closes true (record c { sends = answers }) (kept.answers c.recvs answers c h),
  )

  pub handle_write-keeps : (c : Conn A) → P c → P (handle_write hs c)
  unfolding handle_write
  handle_write-keeps c h = ground (arith, write_loop-keeps c.sends c h)

  pub send-keeps : (bs : List ℕ) (c : Conn A) → P c → P (send hs bs c)
  unfolding send
  send-keeps bs c h = elim (Bool-cases c.closed) [
    | inl shut ↦ ground arith
    | inr up ↦ ground (arith, handle_write-keeps (queue bs c) (kept.queues bs c up h))
  ]

  run_call-keeps : (call : Call) (c : Conn A) → P c → P (run_call hs call c)
  unfolding run_call close
  run_call-keeps (call_send bs) c h = send-keeps bs c h
  run_call-keeps call_close c h = kept.closes true c h

  run_calls-keeps : (calls : List Call) (c : Conn A) → P c → P (run_calls hs calls c)
  unfolding run_calls
  run_calls-keeps [] c h = h
  run_calls-keeps (call ∷ calls) c h =
      run_calls-keeps calls (run_call hs call c) (run_call-keeps call c h)

  pub ask-keeps : (c : Conn A) → P c → P (ask hs c)
  unfolding ask
  ask-keeps c h = run_calls-keeps _ _ (kept.asks _ _ c h)

module _ {A : Type 0} (hs : Handlers A) (P : Conn A → Type 0) (kept : KeepsInput hs P) where
  pub dispatch_messages-keeps :
      (k : ℕ) (c c' : Conn A) (go : Bool) → dispatch_messages hs k c ≡ some (go, c') → P c → P c'
  unfolding dispatch_messages
  dispatch_messages-keeps zero c c' go e h = ground arith
  dispatch_messages-keeps (suc k) c c' go e h = elim (int_cases (answer_of hs c)) [
    | inl z ↦ ground (arith, kept.closes true (ask hs c) (kept.replies c h))
    | inr (inl z) ↦ ground (arith, kept.replies c h)
    | inr (inr z) ↦ ground (
      arith,
      dispatch_messages-keeps k (consume (suc z.0) (ask hs c)) c' go _
          (kept.consumes (suc z.0) (ask hs c) (kept.replies c h)),
    )
  ]

  read_loop-keeps :
      (k : ℕ) (answers : List Received) (c c' : Conn A)
      → read_loop hs k answers c ≡ some c'
      → P c
      → P c'
  unfolding read_loop
  read_loop-keeps k [] c c' e h = ground (arith, kept.answers [] c.sends c h, kept.closes true c h)
  read_loop-keeps k (got [] ∷ answers) c c' e h = ground (
    arith,
    kept.closes true c h,
    kept.closes true (record c { recvs = answers }) (kept.answers answers c.sends c h),
  )
  read_loop-keeps k (got (b ∷ bs) ∷ answers) c c' e h = elim (Bool-cases (is_fd c.fd)) [
    | inl up ↦ elim (Option-cases (dispatch_messages hs k (receive (b ∷ bs) answers c))) [
      | inl d ↦ ground (arith)
      | inr d ↦ ground (
        arith,
        dispatch_messages-keeps k (receive (b ∷ bs) answers c) d.0.1 d.0.0 _
            (kept.receives (b ∷ bs) answers c h),
        read_loop-keeps k answers d.0.1 c',
      )
    ]
    | inr down ↦ ground (arith, kept.closes true c h)
  ]
  read_loop-keeps k (recv_failed n ∷ answers) c c' e h = ground (
    arith,
    kept.answers answers c.sends c h,
    kept.closes true c h,
    kept.closes true (record c { recvs = answers }) (kept.answers answers c.sends c h),
    read_loop-keeps k answers (record c { recvs = answers }) c' _
        (kept.answers answers c.sends c h),
  )

  pub handle_read-keeps : (k : ℕ) (c c' : Conn A) → handle_read hs k c ≡ some c' → P c → P c'
  unfolding handle_read
  handle_read-keeps k c c' e h = read_loop-keeps k c.recvs c c' e h

-- One step of a connection: the application starts it, sends, closes it or lets go of it, an event comes in, or
-- the kernel decides on its answers.
pub data Step {A : Type 0} (hs : Handlers A) : Conn A → Conn A → Type 0 where
  starts : (added : Bool) (c : Conn A) → Step hs c (start added c)
  sends : (bs : List ℕ) (c : Conn A) → Step hs c (send hs bs c)
  closes : (c : Conn A) → Step hs c (close hs c)
  drops : (c : Conn A) → Step hs c (close_now hs false c)
  event : (k ev : ℕ) {c c' : Conn A} → handle_event hs k ev c ≡ some c' → Step hs c c'
  kernel :
      (rs : List Received) (ss : List Sent) (c : Conn A)
      → Step hs c (record c { recvs = rs; sends = ss })

pub data Reach {A : Type 0} (hs : Handlers A) (c : Conn A) : Conn A → Type 0 where
  here : Reach hs c c
  next : {c' c'' : Conn A} → Reach hs c c' → Step hs c' c'' → Reach hs c c''

module _ {A : Type 0} (hs : Handlers A) (P : Conn A → Type 0) (kept : Keeps hs P) where
  input : KeepsInput hs P
  input = record {
    closes = kept.output.closes;
    answers = kept.output.answers;
    replies = ask-keeps hs P kept.output;
    consumes = kept.consumes;
    receives = kept.receives;
  }

  handle_event-keeps : (k ev : ℕ) (c c' : Conn A) → handle_event hs k ev c ≡ some c' → P c → P c'
  unfolding handle_event
  handle_event-keeps k ev c c' e h = elim (Option-cases (handle_read hs k c)) [
    | inl r ↦ ground (arith, kept.output.closes true c h, handle_write-keeps hs P kept.output c h)
    | inr r ↦ ground (
      arith,
      kept.output.closes true c h,
      handle_read-keeps hs P input k c r.0 r.1 h,
      handle_write-keeps hs P kept.output c h,
      handle_write-keeps hs P kept.output r.0,
    )
  ]

  Step-keeps : {c c' : Conn A} → Step hs c c' → P c → P c'
  unfolding close
  Step-keeps (starts added c) h = kept.starts added c h
  Step-keeps (sends bs c) h = send-keeps hs P kept.output bs c h
  Step-keeps (closes c) h = kept.output.closes true c h
  Step-keeps (drops c) h = kept.output.closes false c h
  Step-keeps (event k ev {c} {c'} e) h = handle_event-keeps k ev c c' e h
  Step-keeps (kernel rs ss c) h = kept.output.answers rs ss c h

  pub Reach-keeps : {c c' : Conn A} → P c → Reach hs c c' → P c'
  Reach-keeps h here = h
  Reach-keeps h (next r st) = Step-keeps st (Reach-keeps h r)

pub start_started : {A : Type 0} (added : Bool) (c : Conn A) → (start added c).started ≡ true
unfolding start
start_started added c = ground arith

module _ {A : Type 0} (hs : Handlers A) where
  pub run_calls_reach :
      (calls : List Call) (c d : Conn A) → Reach hs c d → Reach hs c (run_calls hs calls d)
  unfolding run_calls run_call
  run_calls_reach [] c d r = r
  run_calls_reach (call_send bs ∷ calls) c d r = run_calls_reach calls c _ (next r (sends bs d))
  run_calls_reach (call_close ∷ calls) c d r = run_calls_reach calls c _ (next r (closes d))
