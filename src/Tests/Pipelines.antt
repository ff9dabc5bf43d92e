-- ===== src/Tests/Pipelines.antt =====
-- marci/src/main.rs with exposed/src/main.rs and src/main.rs, on a server in memory.
use ckb_discovery.Prelude.{
  All, ℕ, String, ◌≡◌, ◌≢◌, ◌↔◌, ◌⊎◌, refl, true, false, Option, some, List, [], ◌∷◌, ◌++◌, ok,
}
use ckb_discovery.Types.{mirana, dev, EndpointInfo, NodeMetaInfo, PeerInfo, ReachableInfo}
use ckb_discovery.Keys.{online, key_text}
use ckb_discovery.Redis.Reference.{lasting}
use ckb_discovery.Marci.Exec.{World}
use ckb_discovery.Marci.Arms.{online_event, unknown_event, reachable_event, wait, reachable_arm}
use ckb_discovery.Marci.Broadcast.{Mqtt, Station, Input, message, tick, broadcast, run}
use ckb_discovery.Marci.BroadcastSpec.{
  publish_each, broadcast_lem, Broadcasts, reachable_records, stored_record,
}
use ckb_discovery.Marci.Published.{Log}
use ckb_discovery.Marci.Running.{IsConnected, Runs, run-Runs}
use ckb_discovery.Marci.Typed.{IsTyped}
use ckb_discovery.Marci.Named.{DotlessInput}
use ckb_discovery.Exposed.Exec.{Libraries}
use ckb_discovery.Exposed.Cache.{ServiceData, crashed, peer_handler}
use ckb_discovery.Pipeline.Panics.{peer_handler-panic_iff}
use ckb_discovery.Marci.Names.{AreNamed}
use ckb_discovery.Pipeline.Shown.{reader_of}
use ckb_discovery.Tests.Doubles.{silent, toy_texts}
use ckb_discovery.Tests.Memory.{Store, memory, memory_scans, memory-IsScan, find}
use ckb_discovery.Tests.Peers.{toy_json, endpoint}
use ckb_discovery.Tests.Database.{config}
use ckb_discovery.Tests.Queries.{toy_libraries}

abbrev pub peer : NodeMetaInfo
peer = record { peer_id = "Qm"; addresses = endpoint ∷ []; network = mirana }

abbrev pub report : ReachableInfo
report = record { peer = peer; from = record peer { peer_id = "Qn" } }

abbrev pub seen : PeerInfo
seen = record { info = peer; version = "0.120"; full = true; is_ex = false }

-- The client keeps what is published.
abbrev pub recorder : Mqtt toy_json.Text
recorder = record {
  Client = List (String × toy_json.Text);
  publish = λ topic payload sent. (ok tt, sent ++ (topic, payload) ∷ []);
}

abbrev pub recorder_log : Log recorder
recorder_log = record { sent = λ sent. sent; sent_lem = λ topic payload sent. refl }

pub recorder-IsConnected : IsConnected recorder
recorder-IsConnected = record { publish_lem = λ topic payload sent. refl }

abbrev pub read_endpoint : String → Option EndpointInfo
read_endpoint _ = some endpoint

abbrev pub fresh : World memory silent
fresh = record { db = []; cache = []; service = tt }

abbrev pub idle : Station memory silent recorder
idle = record { world = fresh; client = [] }

pub empty-IsTyped : IsTyped (find [])
unfolding find
empty-IsTyped = record { at = λ k. tt }

abbrev pub day : List Input
day =
    message (reachable_event 1 1 report)
    ∷ tick 2
    ∷ message (unknown_event 3 peer)
    ∷ message (wait 20)
    ∷ tick 23
    ∷ message (online_event 24 seen)
    ∷ []

run-Runs_example :
    Runs memory-IsScan read_endpoint toy_texts toy_json recorder recorder-IsConnected config refl
      refl
      (run memory memory_scans silent toy_texts toy_json recorder read_endpoint config day idle)
run-Runs_example =
    run-Runs memory-IsScan read_endpoint toy_texts toy_json recorder recorder-IsConnected config
      refl refl day idle refl empty-IsTyped

-- A peer was announced.
abbrev announced : Store
announced = (reachable_arm memory silent toy_texts config 1 1 report fresh).1.db

broadcast_lem_example :
    Broadcasts memory-IsScan read_endpoint toy_texts toy_json recorder 2
      (record idle { world = record fresh { db = announced } })
      (publish_each toy_json recorder (reachable_records memory-IsScan read_endpoint announced) [])
      (broadcast memory memory_scans silent toy_texts toy_json recorder read_endpoint 2
        (record idle { world = record fresh { db = announced } }))
broadcast_lem_example =
    broadcast_lem memory-IsScan read_endpoint toy_texts toy_json recorder 2
      (record idle { world = record fresh { db = announced } }) refl

abbrev read_peer : List ℕ → Option NodeMetaInfo
read_peer _ = some (stored_record memory-IsScan read_endpoint announced "Qm")

pub public_network : mirana ≢ dev
public_network = λ h. cc h

-- Every time is that of one day.
abbrev pub one_day : Libraries
one_day = record toy_libraries { date = λ _. some 7 }

-- A peer that is listed as online.
abbrev stored : Store
stored = (key_text (online "Qm"), lasting "0.120" 60) ∷ []

abbrev dev_name : String
dev_name = "ckb_dev"

-- A cache that was never filled.
abbrev unfilled : ServiceData (reader_of memory_scans) one_day
unfilled = record { db = stored; last_cache_update = 0; peers = [] }

peer_handler-panic_iff_example :
    ((peer_handler (reader_of memory_scans) one_day dev_name 5 6 true unfilled).0 ≡ crashed)
    ↔ ((true ≡ true) × ((dev_name ≡ "dev") ⊎ (dev_name ≡ "ckb_dev")))
peer_handler-panic_iff_example =
    peer_handler-panic_iff memory-IsScan one_day unfilled refl (λ id. 7) (λ id. refl) dev_name 5 6
      true

pub empty-AreNamed : AreNamed (find [])
unfolding find
empty-AreNamed = record { at = λ k h. absurd (cc h) }

pub day-Dotless : All DotlessInput day
day-Dotless = ((refl, (refl, tt)), (tt, ((refl, (refl, tt)), (tt, (tt, ((refl, (refl, tt)), tt))))))
