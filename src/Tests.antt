-- ===== src/Tests.antt =====
-- Runs of the models on small inputs, and the theorems at inputs that meet their hypotheses.
mod Search
mod Dag
mod Alerts
mod Multicast
mod Voting
mod Batch
mod Creation
mod Store
mod Codec
mod Runway
mod Member
mod Complete
mod Rounds
mod Terminal
mod Network
