-- ===== src/Marci.antt =====
-- marci/src/main.rs: the arms of the main loop, as actions on the state of the process. An arm that
-- fails at a `?` ends the process: its error comes back beside the state that it left.
pub mod Exec
pub mod Settings
pub mod Start
pub mod Lookup
pub mod Arms
pub mod Refines
pub mod Simulation
pub mod Typed
pub mod Alive
pub mod Spec
pub mod Updates
pub mod OnlineSpec
pub mod Announced
pub mod ReachableSpec
pub mod Witnesses
pub mod Ingest
pub mod Broadcast
pub mod BroadcastSpec
pub mod Status
pub mod Entries
pub mod Tracks
pub mod Seen
pub mod Tracked
pub mod Machine
pub mod Lasting
pub mod Kept
pub mod Redelivery
pub mod Reporters
pub mod Promoted
pub mod Networks
pub mod Announcements
pub mod Published
pub mod Members
pub mod ZeroTimeout
pub mod Swapped
pub mod Confluent
pub mod Names
pub mod Named
pub mod Running
pub mod Process
pub mod Order
pub mod Schedule
pub mod Progress
pub mod Keeps
pub mod Memo
pub mod Delivery
