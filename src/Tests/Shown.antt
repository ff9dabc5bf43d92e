-- ===== src/Tests/Shown.antt =====
-- marci/src/main.rs and exposed/src/main.rs: whether a peer is shown after a history, on a server in memory.
use ckb_discovery.Prelude.{String, ◌≡◌, refl, true, false, some, List, [], ◌∷◌, ◌++◌, arith}
use ckb_discovery.Marci.Arms.{online_event, wait}
use ckb_discovery.Marci.Broadcast.{Input, message, tick, run}
use ckb_discovery.Marci.Status.{steps}
use ckb_discovery.Marci.Entries.{status_in}
use ckb_discovery.Marci.Machine.{waited}
use ckb_discovery.Redis.Reference.{with_member}
use ckb_discovery.Marci.Kept.{IsKept}
use ckb_discovery.Exposed.Peers.{peer_in_map}
use ckb_discovery.Pipeline.Shown.{shown, reader_of}
use ckb_discovery.Pipeline.History
use ckb_discovery.Pipeline.History.{peer_in_map-steps, peer_in_map-forgotten, peer_in_map-seen}
use ckb_discovery.Tests.Doubles.{silent, toy_texts}
use ckb_discovery.Tests.Memory.{Store, memory, memory_scans, memory-IsScan, find}
use ckb_discovery.Tests.Peers.{toy_json}
use ckb_discovery.Tests.Database.{config}
use ckb_discovery.Tests.Pipelines.{
  seen, recorder, recorder-IsConnected, read_endpoint, idle, empty-IsTyped, day, one_day,
}

-- The database after some inputs.
abbrev after : List Input → Store
after es =
    (run memory memory_scans silent toy_texts toy_json recorder read_endpoint config es
      idle).1.world.db

empty-IsKept : (id : String) → IsKept config (status_in (find []) id)
unfolding find
empty-IsKept id = record { online = tt; ex = tt; unknown = tt }

peer_in_map-steps_example :
    shown memory-IsScan
      (after day)
      (History.still memory-IsScan read_endpoint toy_texts toy_json recorder recorder-IsConnected
        config refl refl idle refl empty-IsTyped day)
      one_day
      (λ id. 7)
      (λ id. refl)
      (peer_in_map (reader_of memory_scans) one_day "Qm" (after day)).0
    ≡ some true
unfolding steps find with_member
peer_in_map-steps_example =
    peer_in_map-steps memory-IsScan read_endpoint toy_texts toy_json recorder recorder-IsConnected
      config refl refl idle refl empty-IsTyped day one_day (λ id. 7) (λ id. refl) "Qm" refl

-- Nothing about the peer any more.
abbrev quiet : List Input
quiet = message (wait 40) ∷ tick 70 ∷ message (wait 40) ∷ []

quiet-waited : waited quiet ≡ 80
unfolding waited
quiet-waited = refl

peer_in_map-forgotten_example :
    shown memory-IsScan
      (after (day ++ quiet))
      (History.still memory-IsScan read_endpoint toy_texts toy_json recorder recorder-IsConnected
        config refl refl idle refl empty-IsTyped
        (day ++ quiet))
      one_day
      (λ id. 7)
      (λ id. refl)
      (peer_in_map (reader_of memory_scans) one_day "Qm" (after (day ++ quiet))).0
    ≡ some false
peer_in_map-forgotten_example =
    peer_in_map-forgotten memory-IsScan read_endpoint toy_texts toy_json recorder
      recorder-IsConnected config refl refl idle refl empty-IsTyped day quiet empty-IsKept one_day
      (λ id. 7) (λ id. refl) "Qm" refl (refl, (refl, (refl, tt))) (omega (arith, quiet-waited))
      (omega (arith, quiet-waited))

peer_in_map-seen_example :
    shown memory-IsScan
      (after (
        History.seen_then memory-IsScan read_endpoint toy_texts toy_json recorder
          recorder-IsConnected config refl refl idle refl empty-IsTyped day quiet 24 seen
          empty-IsKept one_day
          (λ id. 7)))
      (History.still memory-IsScan read_endpoint toy_texts toy_json recorder recorder-IsConnected
        config refl refl idle refl empty-IsTyped
        (day ++ message (online_event 24 seen) ∷ quiet))
      one_day
      (λ id. 7)
      (λ id. refl)
      (peer_in_map
        (reader_of memory_scans)
        one_day
        "Qm"
        (after (day ++ message (online_event 24 seen) ∷ quiet))).0
    ≡ some false
unfolding waited
peer_in_map-seen_example =
    peer_in_map-seen memory-IsScan read_endpoint toy_texts toy_json recorder recorder-IsConnected
      config refl refl idle refl empty-IsTyped day quiet 24 seen empty-IsKept one_day (λ id. 7)
      (λ id. refl) refl (refl, (refl, (refl, tt)))
