-- ===== src/Runway/Message.antt =====
-- src/runway.rs and src/member.rs: what the runway, the consensus and the network tell one another.
use aleph_bft.Prelude.{ℕ, Option, List}
use aleph_bft.Nodes.{NodeIndex}
use aleph_bft.Signed.{KeyBox, Signable, UncheckedSigned}
use aleph_bft.Units.{UnitCoord, PreUnit, ConsensusUnit}
use aleph_bft.Alerts.{UncheckedSignedUnit}
use aleph_bft.Alerts.Alerter.{Recipient}

pub data NotificationIn (H : Type 0) : Type 0 where
  new_units : List (ConsensusUnit H) → NotificationIn H
  unit_parents : H → List H → NotificationIn H

pub data NotificationOut (H : Type 0) : Type 0 where
  created_pre_unit : PreUnit H → List H → NotificationOut H
  missing_units : List UnitCoord → NotificationOut H
  wrong_control_hash : H → NotificationOut H
  added_to_dag : H → List H → NotificationOut H

pub record NewestUnitResponse (H D S : Type 0) : Type 0 where
  pub requester : NodeIndex
  pub responder : NodeIndex
  pub unit : Option (UncheckedSignedUnit H D S)
  pub salt : ℕ

-- What is signed of a response is its encoding, by its responder; the codec is part of the keys.
instance abbrev pub response_signable :
    {H D S : Type 0} → Signable (NewestUnitResponse H D S) (NewestUnitResponse H D S)
response_signable = record { signed_hash = λ r. r; index_of = λ r. r.responder }

-- The user's keys: on the hashes of units, and on the encodings of responses.
pub record Keys (H D S : Type 0) : Type 0 where
  pub units : KeyBox H S
  pub responses : KeyBox (NewestUnitResponse H D S) S

-- `Response` and the notifications have their own type of coordinates, hashes and salts.
pub data Request (H : Type 0) : Type 0 where
  coord : UnitCoord → Request H
  parents : H → Request H
  newest_unit : ℕ → Request H

pub data Response (H D S : Type 0) : Type 0 where
  coord : UncheckedSignedUnit H D S → Response H D S
  parents : H → List (UncheckedSignedUnit H D S) → Response H D S
  newest_unit : UncheckedSigned (NewestUnitResponse H D S) S → Response H D S

pub data RunwayNotificationOut (H D S : Type 0) : Type 0 where
  new_unit : UncheckedSignedUnit H D S → RunwayNotificationOut H D S
  request : Request H → Recipient → RunwayNotificationOut H D S
  response : Response H D S → NodeIndex → RunwayNotificationOut H D S

pub data RunwayNotificationIn (H D S : Type 0) : Type 0 where
  new_unit : UncheckedSignedUnit H D S → RunwayNotificationIn H D S
  request : Request H → NodeIndex → RunwayNotificationIn H D S
  response : Response H D S → RunwayNotificationIn H D S

pub data UnitMessage (H D S : Type 0) : Type 0 where
  new_unit : UncheckedSignedUnit H D S → UnitMessage H D S
  request_coord : NodeIndex → UnitCoord → UnitMessage H D S
  response_coord : UncheckedSignedUnit H D S → UnitMessage H D S
  request_parents : NodeIndex → H → UnitMessage H D S
  response_parents : H → List (UncheckedSignedUnit H D S) → UnitMessage H D S
  request_newest : NodeIndex → ℕ → UnitMessage H D S
  response_newest : UncheckedSigned (NewestUnitResponse H D S) S → UnitMessage H D S

-- `RunwayNotificationIn::try_from`, which never fails.
unfoldable pub try_from : {H D S : Type 0} → UnitMessage H D S → RunwayNotificationIn H D S
try_from (UnitMessage.new_unit u) = RunwayNotificationIn.new_unit u
try_from (request_coord node_id c) = RunwayNotificationIn.request (Request.coord c) node_id
try_from (request_parents node_id u_hash) =
    RunwayNotificationIn.request (Request.parents u_hash) node_id
try_from (response_coord u) = RunwayNotificationIn.response (Response.coord u)
try_from (response_parents u_hash ps) = RunwayNotificationIn.response (Response.parents u_hash ps)
try_from (request_newest node_id salt) =
    RunwayNotificationIn.request (Request.newest_unit salt) node_id
try_from (response_newest r) = RunwayNotificationIn.response (Response.newest_unit r)
