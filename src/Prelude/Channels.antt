-- ===== src/Prelude/Channels.antt =====
-- The sending end of an unbounded channel: what was sent, oldest first, and whether the receiver
-- listens.
use mathlib.Core.Bool.{Bool, true}
use mathlib.Core.List.{List, [], ◌∷◌, ◌++◌}
use aleph_bft.Prelude.Tests.{if◌then◌else◌}

pub record Channel (A : Type 0) : Type 0 where
  pub sent : List A
  pub is_open : Bool

-- `unbounded_send`; what is sent to a receiver that is gone is lost.
abbrev pub send : {A : Type 0} → Channel A → A → Channel A
send ch a = record ch { sent = if ch.is_open then ch.sent ++ a ∷ [] else ch.sent }

-- The flag `exiting` after a send that sets it on an error.
abbrev pub exiting_after : {A : Type 0} → Channel A → Bool → Bool
exiting_after ch exiting = if ch.is_open then exiting else true
