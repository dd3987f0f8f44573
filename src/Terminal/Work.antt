-- ===== src/Terminal/Work.antt =====
-- src/terminal.rs: how many events are still to come.
use aleph_bft.Prelude.{
  ℕ, ◌+◌, ◌≤◌, ◌≡◌, ap, Bool, true, false, not, some, [], ◌∷◌, Eq, count, arith, Exec, ok,
}
use aleph_bft.Prelude.HashMap
use aleph_bft.Prelude.HashMap.{HashMap}
use aleph_bft.Terminal.{
  TerminalUnit, TerminalEvent, parents_reconstructed, parents_in_dag, Terminal,
}
use aleph_bft.Terminal.Events.{is_in_dag}

module _ {K V : Type 0} ⦃e : Eq K⦄ (test : V → Bool) where
  abbrev held : HashMap K V → ℕ
  held m = count (λ q. test q.1) m

  held-remove_le : (k : K) (m : HashMap K V) → held (HashMap.remove k m) ≤ held m
  unfolding HashMap.remove
  held-remove_le k [] = omega arith
  held-remove_le k ((j, v) ∷ m) = ground (arith, held-remove_le k m)

  -- The first value of the key goes.
  held-remove :
      (k : K) (v : V) (m : HashMap K V)
      → HashMap.get k m ≡ some v
      → held (HashMap.remove k m) + count test (v ∷ []) ≤ held m
  unfolding HashMap.get HashMap.remove
  held-remove k v [] found = cc
  held-remove k v ((j, w) ∷ m) found = elim (e.eq? j k) [
    | yes is ↦ let is_v : w ≡ v = ground arith in ground (arith, held-remove_le k m, ap test is_v)
    | no other ↦ ground (arith, held-remove k v m)
  ]

  pub held-insert :
      (k : K) (v v' : V) (m : HashMap K V)
      → HashMap.get k m ≡ some v
      → held (HashMap.insert k v' m) + count test (v ∷ []) ≤ held m + count test (v' ∷ [])
  unfolding HashMap.insert
  held-insert k v v' m found = ground (arith, held-remove k v m found)

module _ {H : Type 0} where
  abbrev pub is_outside : TerminalUnit H → Bool
  is_outside u = not (is_in_dag u.status)

  abbrev pub is_decode : TerminalEvent H → Bool
  is_decode (parents_reconstructed h) = true
  is_decode (parents_in_dag h) = false

  -- How many units are not in the DAG.
  abbrev pub outside : HashMap H (TerminalUnit H) → ℕ
  outside store = count (λ q. is_outside q.1) store

  -- A bound for the events to come: one for each unit outside the DAG, and those of decoded parents.
  abbrev pub work : Terminal H → ℕ
  work s = outside s.unit_store + count is_decode s.event_queue

  abbrev pub Returns : Exec (Terminal H) → (Terminal H → Type 0) → Type 0
  Returns run Post = (s' : Terminal H) × (run ≡ ok s') × Post s'
