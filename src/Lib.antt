-- ===== src/Lib.antt =====
-- AlephBFT, an asynchronous BFT consensus: the nodes of a committee create units that point to units
-- of other nodes, place them in a DAG, and each node orders its DAG into batches of units.
--
-- How the parts interact. The creator collects units of the other nodes and makes this node's unit of
-- each round from the candidates of the round before. The runway validates the units that the network
-- brings, keeps them in the unit store and hands them to the terminal; it asks for units and parents
-- that are missing, and answers such requests of others. The member sends the requests to the
-- network, and again until they are resolved. The unit store detects forks; the alerter proves them to
-- the other nodes. The terminal keeps a unit until its parents are in the DAG. Units of
-- the DAG go to the extender, which elects a head for each round by the votes of later units and sends
-- the head's new ancestors as a batch, whose data the runway passes to the user.
--
-- Prelude: native numbers and lists, results that may panic (Panic), hash maps as association lists.
-- Nodes: src/nodes.rs. `NodeMap` is a list of optional values, `NodeSubset` a list of bits; an index
--   out of range panics, as in the code. Nodes.Codec: their encodings, with the codec of numbers and
--   of byte vectors, and the bytes of a vector of bits, as the parameter `Codec`.
-- Signed: src/signed.rs, Signed.Multi: multisignatures, Signed.Complete: `DefaultMultiKeychain`.
--   The user's `KeyBox` and `MultiKeychain` are parameters.
-- Units: src/units.rs, and Units.Store: src/units/store.rs. Hashes of encoded data are parameters
--   (`ParentHasher`, `UnitHasher`). `Round` is u16; where the code casts, the model takes `% 2 ^ 16`.
--   Store.Valid is about its two indices, Store.Forks about `is_new_fork`, Store.Commitment
--   about the units that an alert commits to, Store.Marks about marked nodes.
-- Rmc: src/rmc.rs, `ReliableMulticast` with one function for each handler, about which Rmc.Once is. A
--   task that is given to the scheduler is recorded.
-- Alerts: src/alerts.rs, `who_is_forking` and `correct_commitment`; Alerts.Alerter: the state of the
--   alerter and one function for each handler; Claims is about the two checks, Known about
--   handlers, Confirmed about the end of a multicast.
--   A call of `start_rmc` is recorded in the state (`started`).
-- Creation.Creator: src/creation/creator.rs, one function for each method. Creator.Rows has the
--   invariant, Creator.Candidates is about `add_unit`, Creator.Created about `create_unit`.
--   Creation.Run: src/creation/mod.rs, with what `select!` picks as a list of events; Rounds is about
--   its loop.
-- Runway: src/runway.rs. Message has the messages (and those of src/member.rs), State the state and
--   what it sends, Validate `validate_unit`, Receive units and forks, Requests the requests and
--   responses, Process what the consensus reports, Run a turn of the loop for each event. The channels
--   that come in are the arguments of the handlers, and what the user's `DataIO` gives is an argument.
--   Accepted is about the validation, Forks about alerts, Total about messages of the network.
-- Member: src/member.rs, the tasks that send requests and units until they are resolved; Member.Run
--   what is done for each event. The clock and the random peers are readings that a call takes as an
--   argument, one for each turn. Pending and Active are about requests, Turns about the loop.
-- Terminal: src/terminal.rs, its state and what a new unit does; Terminal.Events the queue of events
--   and the responses to a wrong control hash, with the loop `run`. The hooks of `post_insert` are the
--   list `inserted`. Stages has the stages of a unit and the invariant on them; Update, Decode, Arrive,
--   Added, Enter, Tell, Entered, Hang, Inspect, Wrong, Handled and Order follow it through the
--   operations, Work counts the events to come.
-- Network: src/network.rs, the hub between the user's network and the channels of the runway and the
--   alerter, with the data that messages include. Relay is about the loop; Included, Taken and
--   Ordering about the data of messages and the buffer of the unit store.
-- Extender: src/extender.rs. State is the state with `add_unit` and `initialize_round`, Voting
--   `vote_and_decision` and `recompute_votes`, Finalize `finalize_round`, Progress `progress`. Quorum,
--   Tally and Agreement are about decisions, Batch and Finality about batches.
-- Tests: runs of the definitions on small inputs, and the theorems applied to them.
--
-- Errors and bounds. A panic (`unwrap`, an index out of range, `assert!`) is the result `panic`. The
-- loop of `finalize_round` has as much fuel as units are stored, which is enough, as each turn takes
-- a unit out of the store. `progress` and the event loop of the terminal take their fuel as an
-- argument; for the terminal, one for each unit outside the DAG and for each queued event of decoded
-- parents is enough. Additions on rounds wrap, as in a release build; a count of missing parents
-- that would fall below zero is a panic, as with overflow checks. A channel is what was sent on
-- it and whether the receiver listens.
--
-- Not modelled: the times of the scheduler of the multicast; how the loops wait on channels,
-- tasks and logs; encoding, but for indices and subsets. A hash map has no order here: only
-- `newest_unit` iterates over one, and takes one of the units of the highest round.
pub mod Prelude
pub mod Nodes
pub mod Signed
pub mod Units
pub mod Rmc
pub mod Alerts
pub mod Creation
pub mod Runway
pub mod Member
pub mod Network
pub mod Terminal
pub mod Extender
pub mod Tests
