-- ===== src/Tests/Listings.antt =====
-- marci/src/main.rs and exposed/src/main.rs: what is listed after a history, on a server in memory.
use ckb_discovery.Prelude.{String, ◌≡◌, ◌↔◌, refl, true, ◌∷◌, err, Elem}
use ckb_discovery.Types.{mirana}
use ckb_discovery.Redis.Reference.{failed}
use ckb_discovery.Marci.Exec.{Config}
use ckb_discovery.Marci.Arms.{online_event}
use ckb_discovery.Marci.Broadcast.{message, run}
use ckb_discovery.Marci.ZeroTimeout.{run-err}
use ckb_discovery.Exposed.Peers.{get_peers}
use ckb_discovery.Pipeline.Shown.{reader_of}
use ckb_discovery.Pipeline.Rows
use ckb_discovery.Pipeline.Rows.{run-get_peers-rows}
use ckb_discovery.Tests.Doubles.{silent, toy_texts}
use ckb_discovery.Tests.Memory.{Store, memory, memory_scans, memory-IsServer, memory-IsScan, find}
use ckb_discovery.Tests.Peers.{toy_json}
use ckb_discovery.Tests.Database.{config}
use ckb_discovery.Tests.Pipelines.{
  seen, recorder, recorder-IsConnected, read_endpoint, idle, empty-IsTyped, empty-AreNamed, day,
  day-Dotless, one_day, public_network,
}

abbrev after : Store
after =
    (run memory memory_scans silent toy_texts toy_json recorder read_endpoint config day
      idle).1.world.db

run-get_peers-rows_example :
    ((get_peers (reader_of memory_scans) one_day mirana after).0
      ≡ Rows.rows_for memory-IsScan read_endpoint toy_texts toy_json recorder recorder-IsConnected
          config refl refl day day-Dotless idle refl empty-IsTyped empty-AreNamed mirana
          public_network one_day
          (λ id. 7)
          (λ id. refl)
          (Rows.ids memory-IsScan read_endpoint toy_texts toy_json recorder recorder-IsConnected
            config refl refl day day-Dotless idle refl empty-IsTyped empty-AreNamed mirana
            public_network))
    × ((id : String)
        → Elem id (
            Rows.ids memory-IsScan read_endpoint toy_texts toy_json recorder recorder-IsConnected
              config refl refl day day-Dotless idle refl empty-IsTyped empty-AreNamed mirana
              public_network)
          ↔ (Rows.is_of_network memory-IsScan read_endpoint toy_texts toy_json recorder
                recorder-IsConnected config refl refl day day-Dotless idle refl empty-IsTyped
                empty-AreNamed mirana public_network id
              ≡ true))
run-get_peers-rows_example =
    run-get_peers-rows memory-IsScan read_endpoint toy_texts toy_json recorder recorder-IsConnected
      config refl refl day day-Dotless idle refl empty-IsTyped empty-AreNamed mirana public_network
      one_day (λ id. 7) (λ id. refl)

abbrev zero_config : Config
zero_config = record config { default_timeout = 0 }

run-err_example :
    (run memory memory_scans silent toy_texts toy_json recorder read_endpoint zero_config
      (message (online_event 5 seen) ∷ day)
      idle).0
    ≡ err failed
unfolding find
run-err_example =
    run-err memory-IsServer memory_scans read_endpoint toy_texts toy_json recorder zero_config 5
      seen day idle refl refl refl
