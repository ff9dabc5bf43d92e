-- ===== src/Tests/Schedules.antt =====
-- marci/src/main.rs: the two tasks, with channels of one place.
use ckb_discovery.Prelude.{
  String, ◌≡◌, refl, true, Option, none, some, List, [], ◌∷◌, ◌++◌, ok, is_some,
}
use ckb_discovery.Handler.{Payload, online}
use ckb_discovery.Marci.Exec.{IpDetails}
use ckb_discovery.Marci.Lookup.{cached, lookup_ipinfo}
use ckb_discovery.Marci.Arms.{reachable_event, wait, rest_for}
use ckb_discovery.Marci.Broadcast.{Station, message, tick, handle, run}
use ckb_discovery.Marci.Keeps.{Distinct}
use ckb_discovery.Marci.Memo.{run-lookup_ipinfo}
use ckb_discovery.Marci.Ingest.{to_online, ingest}
use ckb_discovery.Marci.Process.{
  Channel, IsChannel, Channels, Queues, send_online, Process, read, pause, Schedule, start, next,
}
use ckb_discovery.Marci.Order.{AreChannels}
use ckb_discovery.Marci.Schedule.{Handles, Schedule-Handles}
use ckb_discovery.Marci.Progress.{IsBounded, AreBounded, Drains, Schedule-Drains}
use ckb_discovery.Tests.Doubles.{silent, toy_texts}
use ckb_discovery.Tests.Memory.{memory, memory_scans, memory-IsScan}
use ckb_discovery.Tests.Peers.{toy_json}
use ckb_discovery.Tests.Database.{config}
use ckb_discovery.Tests.Pipelines.{
  recorder, recorder-IsConnected, read_endpoint, fresh, idle, seen, report, empty-IsTyped,
}

abbrev put_one : {A : Type 0} → A → Option A → Option (Option A)
put_one a none = some (some a)
put_one a (some _) = none

abbrev take_one : {A : Type 0} → Option A → Option (A × Option A)
take_one none = none
take_one (some a) = some (a, none)

abbrev single : (A : Type 0) → Channel A
single A = record { Queue = Option A; send = put_one; recv = take_one }

abbrev content : {A : Type 0} → Option A → List A
content none = []
content (some a) = a ∷ []

pub put_one_lem :
    {A : Type 0} (a : A) (s s' : Option A)
    → put_one a s ≡ some s'
    → content s' ≡ content s ++ a ∷ []
put_one_lem a none s' h = cc h
put_one_lem a (some _) s' h = cc h

pub take_one_lem :
    {A : Type 0} (a : A) (s s' : Option A) → take_one s ≡ some (a, s') → content s ≡ a ∷ content s'
take_one_lem a none s' h = cc h
take_one_lem a (some b) s' h = cc h

abbrev single-IsChannel : (A : Type 0) → IsChannel (single A)
single-IsChannel A = record { contents = content; send_lem = put_one_lem; recv_lem = take_one_lem }

is_full : {A : Type 0} (a : A) (s : Option A) → put_one a s ≡ none → is_some (take_one s) ≡ true
is_full a none h = cc h
is_full a (some _) h = refl

has_room :
    {A : Type 0} (a b : A) (s s' : Option A)
    → take_one s ≡ some (b, s')
    → is_some (put_one a s') ≡ true
has_room a b none s' h = cc h
has_room a b (some d) s' h = cc h

single-IsBounded : (A : Type 0) → IsBounded (single A)
single-IsBounded A = record { full_lem = is_full; room_lem = has_room }

abbrev pub channels : Channels
channels = record { online = single _; reachable = single _; unknown = single _ }

abbrev pub channels-AreChannels : AreChannels channels
channels-AreChannels = record {
  online = single-IsChannel _;
  reachable = single-IsChannel _;
  unknown = single-IsChannel _;
}

channels-AreBounded : AreBounded channels
channels-AreBounded = record {
  online = single-IsBounded _;
  reachable = single-IsBounded _;
  unknown = single-IsBounded _;
}

abbrev pub P : Type 0
P = Process memory memory_scans silent toy_texts toy_json recorder read_endpoint config channels

abbrev pub no_messages : Queues channels
no_messages = record { online = none; reachable = none; unknown = none }

-- The peer is reported online twice, with a lost connection between.
abbrev reports : List (Option (String × Payload))
reports = some ("peer/online", online seen) ∷ none ∷ some ("peer/online", online seen) ∷ []

abbrev before : P
before = record { stream = reports; queues = no_messages; station = idle }

abbrev after_pause : Station memory silent recorder
after_pause =
    (handle memory memory_scans silent toy_texts toy_json recorder read_endpoint config
      (message (wait 20)) idle).1

-- The first report is read, and the main loop has a pause before it takes it.
abbrev between : P
between = record {
  stream = none ∷ some ("peer/online", online seen) ∷ [];
  queues = record no_messages { online = some seen };
  station = after_pause;
}

steps :
    Schedule memory memory_scans silent toy_texts toy_json recorder read_endpoint config channels
      before
      (message (wait 20) ∷ [])
      between
unfolding ingest handle rest_for
steps =
    next
      (next start (
        read (some ("peer/online", online seen)) _ (to_online seen ∷ []) _ refl refl
          (send_online seen (some seen) refl)))
      (pause 20 _ refl)

Schedule-Handles_example :
    Handles channels channels-AreChannels memory memory_scans silent toy_texts toy_json recorder
      read_endpoint config before
      (message (wait 20) ∷ [])
      between
Schedule-Handles_example =
    Schedule-Handles channels channels-AreChannels memory memory_scans silent toy_texts toy_json
      recorder read_endpoint config before between (message (wait 20) ∷ []) steps

Schedule-Drains_example :
    Drains memory memory_scans silent toy_texts toy_json recorder read_endpoint config channels
      between
Schedule-Drains_example =
    Schedule-Drains memory-IsScan read_endpoint silent toy_texts toy_json recorder
      recorder-IsConnected config refl refl channels channels-AreBounded channels-AreChannels before
      between (message (wait 20) ∷ []) steps refl empty-IsTyped

abbrev place : IpDetails
place = record { country = "DE"; city = "Berlin"; region = "Berlin"; loc = "52.5,13.4" }

abbrev informed : Station memory silent recorder
informed = record idle { world = record fresh { cache = ("52.33.75.45", place) ∷ [] } }

run-lookup_ipinfo_example :
    Distinct
      (run memory memory_scans silent toy_texts toy_json recorder read_endpoint config
        (message (reachable_event 1 1 report) ∷ tick 2 ∷ [])
        informed).1.world.cache
    × (lookup_ipinfo "52.33.75.45"
          (run memory memory_scans silent toy_texts toy_json recorder read_endpoint config
            (message (reachable_event 1 1 report) ∷ tick 2 ∷ [])
            informed).1.world
        ≡ (
          ok (some place),
          (run memory memory_scans silent toy_texts toy_json recorder read_endpoint config
              (message (reachable_event 1 1 report) ∷ tick 2 ∷ [])
              informed).1.world,
        ))
unfolding cached
run-lookup_ipinfo_example =
    run-lookup_ipinfo memory memory_scans silent toy_texts toy_json recorder read_endpoint config
      (message (reachable_event 1 1 report) ∷ tick 2 ∷ []) informed "52.33.75.45" place (refl, tt)
      refl
