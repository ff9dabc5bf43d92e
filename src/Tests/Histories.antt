-- ===== src/Tests/Histories.antt =====
-- marci/src/main.rs with the other programs: a history of messages, pauses and ticks, on a server in memory.
use ckb_discovery.Prelude.{
  ◌≡◌, ◌≤◌, refl, ◌∙◌, contains, true, some, List, [], ◌∷◌, ◌++◌, length, leb,
}
use ckb_discovery.Marci.Arms.{online_event, unknown_event, reachable_event, wait}
use ckb_discovery.Marci.Broadcast.{Input, message, tick, run}
use ckb_discovery.Marci.Status.{nothing, steps}
use ckb_discovery.Marci.Entries.{status_in}
use ckb_discovery.Redis.Reference.{with_member}
use ckb_discovery.Marci.Tracked.{run_tracked}
use ckb_discovery.Marci.Redelivery.{run-again}
use ckb_discovery.Marci.Swapped.{run-swap}
use ckb_discovery.Marci.Promoted
use ckb_discovery.Marci.Promoted.{Announcing, run-reporters, run-promoted}
use ckb_discovery.Marci.Reporters.{reporters}
use ckb_discovery.Tests.Doubles.{silent, toy_texts}
use ckb_discovery.Tests.Memory.{Store, memory, memory_scans, memory-IsScan, find}
use ckb_discovery.Tests.Peers.{toy_json}
use ckb_discovery.Tests.Database.{config}
use ckb_discovery.Tests.Pipelines.{
  peer, report, seen, recorder, recorder-IsConnected, read_endpoint, idle, empty-IsTyped, day,
}

-- The database after some inputs.
abbrev after : List Input → Store
after es =
    (run memory memory_scans silent toy_texts toy_json recorder read_endpoint config es
      idle).1.world.db

run_tracked_example :
    status_in (find (after day)) "Qm"
    ≡ record nothing { online = some (record { version = "0.120"; seconds = 60 }) }
unfolding steps find with_member
run_tracked_example =
    run_tracked memory-IsScan read_endpoint toy_texts toy_json recorder recorder-IsConnected config
      refl refl day idle "Qm" refl empty-IsTyped

run-again_example :
    status_in
      (find (
        after (
          day ++ message (unknown_event 30 peer) ∷ message (unknown_event 30 peer) ∷ tick 31 ∷ [])))
      "Qm"
    ≡ status_in (find (after (day ++ message (unknown_event 30 peer) ∷ tick 31 ∷ []))) "Qm"
run-again_example =
    run-again memory-IsScan read_endpoint toy_texts toy_json recorder recorder-IsConnected config
      refl refl idle refl empty-IsTyped "Qm" day (tick 31 ∷ []) (message (unknown_event 30 peer))
      refl

run-swap_example :
    status_in
      (find (
        after (
          day
          ++ message (online_event 30 seen)
            ∷ message (reachable_event 31 31 report)
            ∷ tick 32
            ∷ [])))
      "Qm"
    ≡ status_in
        (find (
          after (
            day
            ++ message (reachable_event 31 31 report)
              ∷ message (online_event 30 seen)
              ∷ tick 32
              ∷ [])))
        "Qm"
run-swap_example =
    run-swap memory-IsScan read_endpoint toy_texts toy_json recorder recorder-IsConnected config
      refl refl idle refl empty-IsTyped "Qm" day (tick 32 ∷ []) (message (online_event 30 seen))
      (message (reachable_event 31 31 report)) refl

empty-nothing : status_in (find []) "Qm" ≡ nothing
unfolding find
empty-nothing = refl

-- Announced twice by one peer and once by another.
abbrev rumours : List Input
rumours =
    message (reachable_event 1 1 report)
    ∷ message (reachable_event 2 2 report)
    ∷ message (wait 5)
    ∷ message (reachable_event 8 8 (record report { from = record peer { peer_id = "Qo" } }))
    ∷ []

abbrev then_failed : List Input
then_failed = rumours ++ message (unknown_event 9 peer) ∷ []

rumours-Announcing : Announcing "Qm" rumours
rumours-Announcing = (refl, (refl, (refl, (refl, tt))))

run-promoted_example :
    Promoted.is_unknown_after memory-IsScan read_endpoint toy_texts toy_json recorder
      recorder-IsConnected config refl refl idle refl empty-IsTyped "Qm" empty-nothing then_failed
    ≡ leb 1 (length (reporters "Qm" rumours []))
run-promoted_example =
    run-promoted memory-IsScan read_endpoint toy_texts toy_json recorder recorder-IsConnected config
      refl refl idle refl empty-IsTyped "Qm" empty-nothing rumours 9 peer refl rumours-Announcing

-- Two peers announced it, one of them twice.
two_reporters : length (reporters "Qm" rumours []) ≡ 2
unfolding reporters with_member contains
two_reporters = refl

becomes_unknown :
    Promoted.is_unknown_after memory-IsScan read_endpoint toy_texts toy_json recorder
      recorder-IsConnected config refl refl idle refl empty-IsTyped "Qm" empty-nothing then_failed
    ≡ true
becomes_unknown =
    run-promoted memory-IsScan read_endpoint toy_texts toy_json recorder recorder-IsConnected config
      refl refl idle refl empty-IsTyped "Qm" empty-nothing rumours 9 peer refl rumours-Announcing
    ∙ rw two_reporters refl

run-reporters_example : 1 ≤ length (reporters "Qm" then_failed [])
run-reporters_example =
    run-reporters memory-IsScan read_endpoint toy_texts toy_json recorder recorder-IsConnected
      config refl refl idle refl empty-IsTyped "Qm" empty-nothing then_failed becomes_unknown
