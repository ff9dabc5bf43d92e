-- ===== src/Tests/Interleavings.antt =====
-- marci/src/main.rs: two schedules of the two tasks on the same stream, with channels of one place.
use ckb_discovery.Prelude.{String, ◌≡◌, refl, Option, none, some, List, [], ◌∷◌, ok}
use ckb_discovery.Handler.{Payload, online, reachable}
use ckb_discovery.Marci.Typed.{IsTyped}
use ckb_discovery.Marci.Arms.{online_event, reachable_event}
use ckb_discovery.Marci.Broadcast.{Station, Input, message, handle}
use ckb_discovery.Marci.Entries.{status_in}
use ckb_discovery.Marci.Ingest.{to_online, to_reachable, ingest}
use ckb_discovery.Marci.Process.{
  send_online, send_reachable, receive_online, receive_reachable, read, receive, Schedule, start,
  next,
}
use ckb_discovery.Marci.Running.{Runs, handle-Runs}
use ckb_discovery.Marci.Order.{sent_of, collect}
use ckb_discovery.Marci.Schedule.{unknown_left}
use ckb_discovery.Marci.Confluent.{IsComplete, IsComplete-agree}
use ckb_discovery.Tests.Doubles.{silent, toy_texts}
use ckb_discovery.Tests.Memory.{memory, memory_scans, memory-IsScan, find}
use ckb_discovery.Tests.Peers.{toy_json}
use ckb_discovery.Tests.Database.{config}
use ckb_discovery.Tests.Schedules.{channels, channels-AreChannels, no_messages, P}
use ckb_discovery.Tests.Pipelines.{
  recorder, recorder-IsConnected, read_endpoint, idle, seen, report, empty-IsTyped,
}

abbrev S : Type 0
S = Station memory silent recorder

abbrev then_handled : Input → S → S
then_handled e st =
    (handle memory memory_scans silent toy_texts toy_json recorder read_endpoint config e st).1

runs :
    (e : Input) (st : S)
    → IsTyped (find st.world.db)
    → Runs memory-IsScan read_endpoint toy_texts toy_json recorder recorder-IsConnected config refl
        refl
        (handle memory memory_scans silent toy_texts toy_json recorder read_endpoint config e st)
runs e st typed =
    handle-Runs memory-IsScan read_endpoint toy_texts toy_json recorder recorder-IsConnected config
      refl refl e st refl typed

handled :
    (e : Input) (st : S)
    → IsTyped (find st.world.db)
    → handle memory memory_scans silent toy_texts toy_json recorder read_endpoint config e st
      ≡ (ok tt, then_handled e st)
handled e st typed = λ i. ((runs e st typed).reply i, then_handled e st)

abbrev see : Input
see = message (online_event 1 seen)

abbrev hear : Input
hear = message (reachable_event 2 2 report)

abbrev one : Option (String × Payload)
one = some ("peer/online", online seen)

abbrev two : Option (String × Payload)
two = some ("peer/reachable", reachable report)

abbrev before : P
before = record { stream = one ∷ two ∷ []; queues = no_messages; station = idle }

abbrev at_end : S → P
at_end st = record { stream = []; queues = no_messages; station = st }

abbrev RunsTo : List Input → P → Type 0
RunsTo es u =
    Schedule memory memory_scans silent toy_texts toy_json recorder read_endpoint config channels
      before es u

-- Each message is handled as soon as it is read.
in_turn : RunsTo (see ∷ hear ∷ []) (at_end (then_handled hear (then_handled see idle)))
unfolding ingest
in_turn =
    next
      (next
        (next
          (next start (
            read one (two ∷ []) (to_online seen ∷ []) (record no_messages { online = some seen })
              refl refl (send_online seen (some seen) refl)))
          (receive (online_event 1 seen) no_messages (then_handled see idle)
            (receive_online 1 seen none refl) (handled see idle empty-IsTyped)))
        (read two [] (to_reachable report ∷ []) (record no_messages { reachable = some report })
          refl refl (send_reachable report (some report) refl)))
      (receive (reachable_event 2 2 report) no_messages (then_handled hear (then_handled see idle))
        (receive_reachable 2 2 report none refl)
        (handled hear (then_handled see idle) (runs see idle empty-IsTyped).typed))

-- Both are read first, and the second one is handled first.
crossed : RunsTo (hear ∷ see ∷ []) (at_end (then_handled see (then_handled hear idle)))
unfolding ingest
crossed =
    next
      (next
        (next
          (next start (
            read one (two ∷ []) (to_online seen ∷ []) (record no_messages { online = some seen })
              refl refl (send_online seen (some seen) refl)))
          (read two [] (to_reachable report ∷ [])
            (record { online = some seen; reachable = some report; unknown = none }) refl refl
            (send_reachable report (some report) refl)))
        (receive (reachable_event 2 2 report) (record no_messages { online = some seen })
          (then_handled hear idle) (receive_reachable 2 2 report none refl)
          (handled hear idle empty-IsTyped)))
      (receive (online_event 1 seen) no_messages (then_handled see (then_handled hear idle))
        (receive_online 1 seen none refl)
        (handled see (then_handled hear idle) (runs hear idle empty-IsTyped).typed))

no_dials :
    unknown_left channels channels-AreChannels memory memory_scans silent toy_texts toy_json
      recorder read_endpoint config before
    ≡ []
unfolding sent_of collect ingest
no_dials = refl

abbrev Complete : List Input → P → Type 0
Complete =
    IsComplete memory-IsScan read_endpoint toy_texts toy_json recorder recorder-IsConnected config
      refl refl channels channels-AreChannels before refl empty-IsTyped no_dials

in_turn-IsComplete : Complete (see ∷ hear ∷ []) (at_end (then_handled hear (then_handled see idle)))
unfolding sent_of collect
in_turn-IsComplete = record {
  schedule = in_turn;
  prompt = (refl, (refl, tt));
  online = refl;
  reachable = refl;
}

crossed-IsComplete : Complete (hear ∷ see ∷ []) (at_end (then_handled see (then_handled hear idle)))
unfolding sent_of collect
crossed-IsComplete = record {
  schedule = crossed;
  prompt = (refl, (refl, tt));
  online = refl;
  reachable = refl;
}

IsComplete-agree_example :
    status_in (find (then_handled hear (then_handled see idle)).world.db) "Qm"
    ≡ status_in (find (then_handled see (then_handled hear idle)).world.db) "Qm"
IsComplete-agree_example =
    IsComplete-agree memory-IsScan read_endpoint toy_texts toy_json recorder recorder-IsConnected
      config refl refl channels channels-AreChannels before refl empty-IsTyped no_dials "Qm"
      (see ∷ hear ∷ []) (hear ∷ see ∷ []) (at_end (then_handled hear (then_handled see idle)))
      (at_end (then_handled see (then_handled hear idle))) in_turn-IsComplete crossed-IsComplete
