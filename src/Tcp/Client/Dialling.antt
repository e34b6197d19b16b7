-- ===== src/Tcp/Client/Dialling.antt =====
-- `Client`: the loop over the addresses ends, and what it settles on.
use inc.Prelude.{
  ℕ, zero, suc, ◌+◌, ◌-◌, ◌≤◌, ◌<◌, ◌≡◌, refl, ap, ◌∙◌, List, [], ◌∷◌, ◌++◌, append-nil,
  append_assoc, sym, get_or, Bool, true, false, none, some, arith, length, ◌==◌, ◌||◌, ◌⊎◌,
  Bool-cases, le-cases, inl, inr,
}
use inc.Tcp.{einprogress, ewouldblock}
use inc.Tcp.Client.{
  Client, Attempt, no_socket, attempt, Event, dialled, told_close, connection_refused, connect_loop,
  on_connect_done, try_connect_next, drop_attempt, shut_fd, dial, tell_close, under_way,
}

-- `connect` goes on in the background.
abbrev pub busy : ℕ → Bool
busy e = (e == einprogress) || (e == ewouldblock)

abbrev pub Fails : Attempt → Type 0
Fails no_socket = Unit
Fails (attempt fd none) = ⊥
Fails (attempt fd (some e)) = busy e ≡ false

-- The addresses that were dialled, with their index, the last first.
abbrev pub dials : List Event → List (ℕ × List ℕ)
dials [] = []
dials (dialled i sa ∷ log) = (i, sa) ∷ dials log
dials (_ ∷ log) = dials log

-- An address is dialled where there is a socket for it.
abbrev pub dialled_one : Attempt → ℕ → List (List ℕ) → List (ℕ × List ℕ)
dialled_one no_socket i addrs = []
dialled_one (attempt fd x) i addrs = (i, get_or addrs i []) ∷ []

-- The `n` addresses from the index `i` on, each once and the last first.
abbrev pub in_turn : (ℕ → Attempt) → List (List ℕ) → ℕ → ℕ → List (ℕ × List ℕ)
in_turn attempts addrs i zero = []
in_turn attempts addrs i (suc n) =
    in_turn attempts addrs (i + 1) n ++ dialled_one (attempts i) i addrs

-- What was dialled between the two is `n` addresses from `addr_idx` on.
abbrev pub Dials : (ℕ → Attempt) → ℕ → Client → Client → Type 0
Dials attempts n c c' = dials c'.log ≡ in_turn attempts c.addrs c.addr_idx n ++ dials c.log

-- The loop has left the connections as they were and gone through the whole list.
abbrev pub Refused : Client → Client → Type 0
Refused c c' =
    (c'.connecting ≡ false)
    × (c'.conn ≡ c.conn)
    × (c'.connect_fd ≡ c.connect_fd)
    × (c.on_close ≡ true → (log : List Event) × (c'.log ≡ told_close connection_refused ∷ log))

abbrev pub Connected : Attempt → Client → Type 0
Connected a c' =
    (fd : ℕ) × (a ≡ attempt fd none)
    × (c'.conn ≡ some fd)
    × (c'.connected ≡ true)
    × (c'.connecting ≡ false)

abbrev pub InProgress : Attempt → Client → Client → Type 0
InProgress a c c' =
    (fd : ℕ) × (e : ℕ) × (a ≡ attempt fd (some e))
    × (busy e ≡ true)
    × (c'.connect_fd ≡ some fd)
    × (c'.conn ≡ c.conn)
    × (c'.connecting ≡ c.connecting)

-- The address `j` is the first that does not fail, or `j` is the end of the list.
abbrev pub Settled : (ℕ → Attempt) → ℕ → Client → Client → Type 0
Settled attempts j c c' =
    (c'.addr_idx ≡ j)
    × (((j ≡ length c.addrs) × Dials attempts (j - c.addr_idx) c c' × Refused c c')
        ⊎ ((j < length c.addrs)
            × Dials attempts (suc (j - c.addr_idx)) c c'
            × (Connected (attempts j) c' ⊎ InProgress (attempts j) c c')))

abbrev Outcome : Attempt → Type 0
Outcome a =
    Fails a
    ⊎ (((fd : ℕ) × (a ≡ attempt fd none))
        ⊎ ((fd : ℕ) × (e : ℕ) × (a ≡ attempt fd (some e)) × (busy e ≡ true)))

outcome : (a : Attempt) → Outcome a
outcome no_socket = inl tt
outcome (attempt fd none) = inr (inl (fd, refl))
outcome (attempt fd (some e)) = elim (Bool-cases (busy e)) [
  | inl b ↦ inr (inr (fd, e, refl, b))
  | inr b ↦ inl b
]

abbrev pub FirstUsable : (ℕ → Attempt) → Client → Client → Type 0
FirstUsable attempts c c' =
    (j : ℕ) × (c.addr_idx ≤ j)
    × ((i : ℕ) → c.addr_idx ≤ i → i < j → Fails (attempts i))
    × Settled attempts j c c'

-- The next round, after the address has failed.
abbrev advanced : Attempt → Client → Client
advanced no_socket c = record c { addr_idx = c.addr_idx + 1 }
advanced (attempt fd x) c = record (shut_fd fd (dial fd c)) { addr_idx = c.addr_idx + 1 }

connect_loop_failed :
    (k : ℕ) (attempts : ℕ → Attempt) (c : Client)
    → c.manual_close ≡ false
    → c.addr_idx < length c.addrs
    → (a : Attempt) → attempts c.addr_idx ≡ a
    → Fails a
    → connect_loop (suc k) attempts c ≡ connect_loop k attempts (advanced a c)
unfolding connect_loop
connect_loop_failed k attempts c up l no_socket e f = ground arith
connect_loop_failed k attempts c up l (attempt fd none) e f = absurd f
connect_loop_failed k attempts c up l (attempt fd (some x)) e f = ground arith

-- The loop stops in this round.
abbrev Stops : ℕ → (ℕ → Attempt) → Client → Type 0
Stops k attempts c =
    (c' : Client) × (connect_loop (suc k) attempts c ≡ some c') × FirstUsable attempts c c'

module _ (k : ℕ) (attempts : ℕ → Attempt) (c : Client) (up : c.manual_close ≡ false) where
  none_before : (i : ℕ) → c.addr_idx ≤ i → i < c.addr_idx → Fails (attempts i)
  none_before i l r = absurd (omega arith)

  -- Nothing was dialled, and the address at `addr_idx` was.
  dials_none :
      (c' : Client) → dials c'.log ≡ dials c.log → Dials attempts (c.addr_idx - c.addr_idx) c c'
  dials_none c' h =
      h
      ∙ ap (λ n. in_turn attempts c.addrs c.addr_idx n ++ dials c.log) {x = 0}
          {y = c.addr_idx - c.addr_idx} (omega arith)

  dials_one :
      (a : Attempt) (c' : Client)
      → attempts c.addr_idx ≡ a
      → dials c'.log ≡ dialled_one a c.addr_idx c.addrs ++ dials c.log
      → Dials attempts (suc (c.addr_idx - c.addr_idx)) c c'
  dials_one a c' e h =
      h
      ∙ ap (λ x. dialled_one x c.addr_idx c.addrs ++ dials c.log) (sym e)
      ∙ ap (λ n. in_turn attempts c.addrs c.addr_idx n ++ dials c.log) {x = 1}
          {y = suc (c.addr_idx - c.addr_idx)} (omega arith)

  refuses : c.addr_idx ≡ length c.addrs → Stops k attempts c
  unfolding connect_loop
  refuses e = (
    tell_close connection_refused (record c { connecting = false }),
    ground arith,
    (
      c.addr_idx,
      omega arith,
      none_before,
      (
        ground arith,
        inl (
          e,
          dials_none (tell_close connection_refused (record c { connecting = false }))
              (ground arith),
          (ground arith, ground arith, ground arith, λ on. (c.log, rw on refl)),
        ),
      ),
    ),
  )

  connects :
      (fd : ℕ)
      → c.alive ≡ true
      → c.addr_idx < length c.addrs
      → attempts c.addr_idx ≡ attempt fd none
      → Stops k attempts c
  unfolding connect_loop on_connect_done
  connects fd live l e = (
    on_connect_done fd (dial fd c),
    ground arith,
    (
      c.addr_idx,
      omega arith,
      none_before,
      (
        ground arith,
        inr (
          l,
          dials_one (attempt fd none) (on_connect_done fd (dial fd c)) e (ground arith),
          inl (fd, e, ground arith, ground arith, ground arith),
        ),
      ),
    ),
  )

  goes_on :
      (fd e : ℕ)
      → c.addr_idx < length c.addrs
      → attempts c.addr_idx ≡ attempt fd (some e)
      → busy e ≡ true
      → Stops k attempts c
  unfolding connect_loop
  goes_on fd e l q b = (
    under_way fd (dial fd c),
    ground arith,
    (
      c.addr_idx,
      omega arith,
      none_before,
      (
        refl,
        inr (
          l,
          dials_one (attempt fd (some e)) (under_way fd (dial fd c)) q refl,
          inr (fd, e, q, b, refl, refl, refl),
        ),
      ),
    ),
  )

module _ (attempts : ℕ → Attempt) (c c' : Client) where
  one_more :
      (j : ℕ)
      → Fails (attempts c.addr_idx)
      → ((i : ℕ) → c.addr_idx + 1 ≤ i → i < j → Fails (attempts i))
      → (i : ℕ) → c.addr_idx ≤ i
      → i < j
      → Fails (attempts i)
  one_more j f g i l r = elim (le-cases (c.addr_idx + 1) i) [
    | inl more ↦ g i more r
    | inr last ↦ let e : i ≡ c.addr_idx = omega arith in rw e f
  ]

  -- The address that has failed is the first of those dialled.
  earlier_one :
      (a : Attempt) (n : ℕ)
      → attempts c.addr_idx ≡ a
      → Fails a
      → Dials attempts n (advanced a c) c'
      → Dials attempts (suc n) c c'
  earlier_one no_socket n e f h =
      let later = in_turn attempts c.addrs (c.addr_idx + 1) n in
      h
      ∙ ap (λ r. r ++ dials c.log)
          (sym (append-nil later) ∙ ap (λ x. later ++ dialled_one x c.addr_idx c.addrs) (sym e))
  earlier_one (attempt fd none) n e f h = absurd f
  earlier_one (attempt fd (some x)) n e f h =
      let later = in_turn attempts c.addrs (c.addr_idx + 1) n in
      h
      ∙ sym
          (append_assoc later (dialled_one (attempt fd (some x)) c.addr_idx c.addrs) (dials c.log))
      ∙ ap (λ y. (later ++ dialled_one y c.addr_idx c.addrs) ++ dials c.log) (sym e)

  same_count : (n m : ℕ) → n ≡ m → Dials attempts n c c' → Dials attempts m c c'
  same_count n m same h = h ∙ ap (λ n. in_turn attempts c.addrs c.addr_idx n ++ dials c.log) same

  carry_back :
      (a : Attempt) (j : ℕ)
      → attempts c.addr_idx ≡ a
      → Fails a
      → c.addr_idx + 1 ≤ j
      → Settled attempts j (advanced a c) c'
      → Settled attempts j c c'
  carry_back no_socket j e f l (at, inl (x, d, r)) =
      let n = j - (c.addr_idx + 1) in
      (
        at,
        inl (
          x,
          same_count (suc n) (j - c.addr_idx) (omega arith) (earlier_one no_socket n e f d),
          r,
        ),
      )
  carry_back no_socket j e f l (at, inr (x, d, r)) =
      let n = suc (j - (c.addr_idx + 1)) in
      (
        at,
        inr (
          x,
          same_count (suc n) (suc (j - c.addr_idx)) (omega arith) (earlier_one no_socket n e f d),
          r,
        ),
      )
  carry_back (attempt fd none) j e f l s = absurd f
  carry_back (attempt fd (some q)) j e f l (at, inl (x, d, r)) =
      let n = j - (c.addr_idx + 1) in
      (
        at,
        inl (
          x,
          same_count (suc n) (j - c.addr_idx) (omega arith)
              (earlier_one (attempt fd (some q)) n e f d),
          r,
        ),
      )
  carry_back (attempt fd (some q)) j e f l (at, inr (x, d, r)) =
      let n = suc (j - (c.addr_idx + 1)) in
      (
        at,
        inr (
          x,
          same_count (suc n) (suc (j - c.addr_idx)) (omega arith)
              (earlier_one (attempt fd (some q)) n e f d),
          r,
        ),
      )

  next_round :
      (a : Attempt)
      → Fails a
      → attempts c.addr_idx ≡ a
      → FirstUsable attempts (advanced a c) c'
      → FirstUsable attempts c c'
  next_round no_socket f e (j, l, g, s) =
      (j, omega arith, one_more j (rw e f) g, carry_back no_socket j e f l s)
  next_round (attempt fd none) f e x = absurd f
  next_round (attempt fd (some x)) f e (j, l, g, s) =
      (j, omega arith, one_more j (rw e f) g, carry_back (attempt fd (some x)) j e f l s)

advanced_same :
    (a : Attempt) (c : Client)
    → Fails a
    → let d = advanced a c in
      (d.alive ≡ c.alive)
      × (d.manual_close ≡ c.manual_close)
      × (d.addrs ≡ c.addrs)
      × (d.addr_idx ≡ c.addr_idx + 1)
advanced_same no_socket c f = (refl, refl, refl, refl)
advanced_same (attempt fd none) c f = absurd f
advanced_same (attempt fd (some e)) c f = (refl, refl, refl, refl)

connect_loop_lem :
    (k : ℕ) (attempts : ℕ → Attempt) (c : Client)
    → c.alive ≡ true
    → c.manual_close ≡ false
    → c.addr_idx ≤ length c.addrs
    → length c.addrs - c.addr_idx < k
    → (c' : Client) × (connect_loop k attempts c ≡ some c') × FirstUsable attempts c c'
connect_loop_lem zero attempts c live up b h = absurd (omega arith)
connect_loop_lem (suc k) attempts c live up b h = elim (le-cases (length c.addrs) c.addr_idx) [
  | inl end ↦ refuses k attempts c up (omega arith)
  | inr more ↦ elim (outcome (attempts c.addr_idx)) [
    | inl f ↦
        let a = attempts c.addr_idx in
        let (l, m, q, i) = advanced_same a c f in
        let n = ap length q in
        let (c', e, found) =
          connect_loop_lem k attempts (advanced a c) (l ∙ live) (m ∙ up) (omega arith)
            (omega arith) in
        (
          c',
          connect_loop_failed k attempts c up (omega arith) a refl f ∙ e,
          next_round attempts c c' a f refl found,
        )
    | inr (inl (fd, e)) ↦ connects k attempts c up fd live (omega arith) e
    | inr (inr (fd, e, q, on)) ↦ goes_on k attempts c up fd e (omega arith) q on
  ]
]

dropped_same :
    (c : Client)
    → let d = drop_attempt c in
      (d.alive ≡ c.alive)
      × (d.manual_close ≡ c.manual_close)
      × (d.addrs ≡ c.addrs)
      × (d.addr_idx ≡ c.addr_idx)
unfolding drop_attempt
dropped_same c = ground arith

pub try_alive :
    (k : ℕ) (attempts : ℕ → Attempt) (c : Client)
    → c.alive ≡ true
    → try_connect_next k attempts c ≡ connect_loop k attempts (drop_attempt c)
unfolding try_connect_next
try_alive k attempts c live = ground arith

-- While the context is there and the client was not closed, `TryConnectNext` ends: more rounds than
-- there are addresses are enough. It goes through the addresses in order from `addr_idx_` on, each
-- once, and dials exactly those for which there is a socket, each at its own index and with its own
-- bytes; it settles on the first that does not fail: the connection is made, or it is under way;
-- when all fail, the client is no longer connecting and the close callback, if there is one, is
-- told that the connection was refused.
pub try_connect_next_lem :
    (k : ℕ) (attempts : ℕ → Attempt) (c : Client)
    → c.alive ≡ true
    → c.manual_close ≡ false
    → c.addr_idx ≤ length c.addrs
    → length c.addrs < k
    → (c' : Client) × (try_connect_next k attempts c ≡ some c')
      × FirstUsable attempts (drop_attempt c) c'
try_connect_next_lem k attempts c live up b h =
    let (l, m, q, i) = dropped_same c in
    let n = ap length q in
    let (c', e, found) =
      connect_loop_lem k attempts (drop_attempt c) (l ∙ live) (m ∙ up) (omega arith)
        (omega arith) in
    (c', try_alive k attempts c live ∙ e, found)
