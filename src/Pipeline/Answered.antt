-- ===== src/Pipeline/Answered.antt =====
-- marci/src/main.rs and exposed/src/main.rs: whatever marci has handled, the query service answers.
use ckb_discovery.Redis.Reference.{is_time}
use ckb_discovery.Prelude.{String, ◌≡◌, ◌≢◌, true, Option, some, List, All}
use ckb_discovery.Types.{CkbNetworkType, dev, EndpointInfo}
use ckb_discovery.Redis.{Redis, IsServer}
use ckb_discovery.Redis.Scan.{Scans, IsScan}
use ckb_discovery.Marci.Exec.{Config, IpInfo, Texts}
use ckb_discovery.Marci.Ingest.{Json}
use ckb_discovery.Marci.Broadcast.{Mqtt, Station, Input, run}
use ckb_discovery.Marci.Typed.{IsTyped}
use ckb_discovery.Marci.Names.{AreNamed}
use ckb_discovery.Marci.Named.{DotlessInput, run-KeepsNames}
use ckb_discovery.Marci.Running.{IsConnected, run-Runs}
use ckb_discovery.Exposed.Exec.{Libraries}
use ckb_discovery.Exposed.Peers.{get_peers}
use ckb_discovery.Exposed.Peers.Listing.{details}
use ckb_discovery.Pipeline.Shown.{reader_of, still_of}
use ckb_discovery.Pipeline.Filled.{is_done, get_peers-is_done}

module _ {r : Redis} {s : IsServer r} {sc : Scans r} (x : IsScan s sc)
    (read_endpoint : String → Option EndpointInfo) {i : IpInfo} (t : Texts) (j : Json)
    (q : Mqtt j.Text) (connected : IsConnected q) (cfg : Config)
    (lasts : is_time cfg.default_timeout ≡ true)
    (unknown_lasts : is_time cfg.unknown_default_timeout ≡ true) (es : List Input)
    (dots : All DotlessInput es) (st : Station r i q) (alive : s.alive st.world.db ≡ true)
    (typed : IsTyped (s.view st.world.db)) (named : AreNamed (s.view st.world.db)) where
  abbrev pub db : r.Db
  db = (run r sc i t j q read_endpoint cfg es st).1.world.db

  pub still : s.alive db ≡ true
  still = (run-Runs x read_endpoint t j q connected cfg lasts unknown_lasts es st alive typed).still

  -- With timeouts that Redis takes (`is_time`) and an MQTT client that publishes, on a server that answers, that only
  -- marci writes and whose keys were the program's at the start: after any messages about peers whose
  -- ids have no dot, with pauses and ticks between them, and with dates in range, a request for the
  -- peers of a network other than the development one gets a list, not an error or a panic.
  pub run-get_peers :
      (l : Libraries) (day : String → l.Date) (network : CkbNetworkType)
      → ((id : String) → l.date (details l (still_of x db still) id).timestamp ≡ some (day id))
      → network ≢ dev
      → is_done (get_peers (reader_of sc) l network db).0 ≡ true
  run-get_peers l day network dates h =
      get_peers-is_done x db still
        ((run-Runs x read_endpoint t j q connected cfg lasts unknown_lasts es st alive typed).typed)
        ((run-KeepsNames x read_endpoint t j q cfg es st dots
          (record { named = named; still = alive })).named)
        l day dates network h
