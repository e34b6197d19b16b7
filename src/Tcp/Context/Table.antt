-- ===== src/Tcp/Context/Table.antt =====
-- `Context`: the table of callbacks is a map from descriptors, and who is called for an event.
use inc.Prelude.{
  ℕ, ◌≡◌, ◌∙◌, refl, ap, List, [], ◌∷◌, Bool, true, false, Option, none, some, ◌==◌, if◌then◌else◌,
  arith,
}
use inc.Tcp.Context.{Context, find, erase, assign, add_fd, del_fd}

-- The calls of the table, in order.
pub data Op (C : Type 0) : Type 0 where
  adds : Bool → ℕ → C → Op C
  dels : ℕ → Op C

module _ {C : Type 0} where
  -- The callback of a descriptor: that of the last call that succeeded for it, if it adds one.
  abbrev pub latest : List (Op C) → ℕ → Option C → Option C
  latest [] fd before = before
  latest (adds true k cb ∷ ops) fd before = latest ops fd (if k == fd then some cb else before)
  latest (adds false k cb ∷ ops) fd before = latest ops fd before
  latest (dels k ∷ ops) fd before = latest ops fd (if k == fd then none else before)

  find-erase :
      (k fd : ℕ) (t : List (ℕ × C)) → find fd (erase k t) ≡ (if k == fd then none else find fd t)
  unfolding find erase
  find-erase k fd [] = ground arith
  find-erase k fd (p ∷ t) = ground (arith, find-erase k fd t)

  find-assign :
      (k fd : ℕ) (cb : C) (t : List (ℕ × C))
      → find fd (assign k cb t) ≡ (if k == fd then some cb else find fd t)
  unfolding find assign
  find-assign k fd cb t = ground (arith, find-erase k fd t)

module _ {C K : Type 0} where
  unfoldable pub run : List (Op C) → Context C K → Context C K
  run [] x = x
  run (adds added fd cb ∷ ops) x = run ops (add_fd added fd cb x).0
  run (dels fd ∷ ops) x = run ops (del_fd fd x)

  -- After any calls of `AddFd` and `DelFd`, the lookup of the loop finds for a descriptor the callback of
  -- the last call for it, when that is an `AddFd` that succeeded, nothing when it is a `DelFd`, and what
  -- was there before when there is none.
  pub find-run :
      (ops : List (Op C)) (fd : ℕ) (x : Context C K)
      → find fd (run ops x).fd_handlers ≡ latest ops fd (find fd x.fd_handlers)
  unfolding run add_fd del_fd
  find-run [] fd x = refl
  find-run (adds true k cb ∷ ops) fd x =
      find-run ops fd _ ∙ ap (latest ops fd) (find-assign k fd cb x.fd_handlers)
  find-run (adds false k cb ∷ ops) fd x = find-run ops fd x
  find-run (dels k ∷ ops) fd x =
      find-run ops fd _ ∙ ap (latest ops fd) (find-erase k fd x.fd_handlers)
