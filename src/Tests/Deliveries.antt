-- ===== src/Tests/Deliveries.antt =====
-- src/ and marci/src/main.rs: what reaches the dialers, on a server in memory.
use ckb_discovery.Prelude.{
  contains, ℕ, ◌≡◌, ◌≢◌, refl, Option, none, some, List, [], ◌∷◌, ◌++◌, String, ap, sym, inr, inl,
  Elem,
}
use mathlib.Core.Path.{subst}
use ckb_discovery.Types.{from_string, into_str, mirana, dev, NodeMetaInfo, ReachableInfo, new}
use ckb_discovery.Network.{meta_info_to_addr, addr_to_node_meta}
use ckb_discovery.Handler.{Payload, unknown, publish, reachable, received_discovery}
use ckb_discovery.Handler.Discovery.{received_discovery-reports}
use ckb_discovery.Dialer.{dial_on, on_message, MqttMessage, mqtt_task}
use ckb_discovery.Dialer.Dials.{present}
use ckb_discovery.Dialer.Task.{all_dials, mqtt_task-dev}
use ckb_discovery.Marci.Ingest.{to_reachable, ingest}
use ckb_discovery.Marci.Networks.{HasPublicNetworks}
use ckb_discovery.Compress.{Bytes}
use ckb_discovery.Marci.Arms.{reachable_event, arm}
use ckb_discovery.Marci.Broadcast.{
  Input, message, tick, run, handle, on_world, announce_all, broadcast, valid_endpoints,
}
use ckb_discovery.Marci.Published.{needs_dial}
use ckb_discovery.Marci.Exec
use ckb_discovery.Marci.Arms
use ckb_discovery.Marci.Broadcast
use ckb_discovery.Marci.Lookup.{
  query_by_reachable, lookup_ipinfo, cache_or_ask, keep_answer, cached,
}
use ckb_discovery.Keys.{key_text, keys_to_peer_ids}
use ckb_discovery.Prelude.Texts.{rsplit_once, to_lowercase}
use ckb_discovery.Redis.Glob.{glob}
use ckb_discovery.Redis.Reference.{with_member}
use ckb_discovery.Pipeline.Safe.{announcements-mqtt_task}
use ckb_discovery.Pipeline.Gossip.{gossip, published, record_for}
use ckb_discovery.Tests.Doubles.{silent, toy_texts, toy_p2p, toy_wire, known_addr, known_ip}
use ckb_discovery.Tests.Memory.{memory, memory_scans, stored_names, names, memory-IsScan, find}
use ckb_discovery.Tests.Peers.{
  toy_json, toy_json-IsJson, endpoint, session, announced_peer, decoded,
}
use ckb_discovery.Tests.Database.{config}
use ckb_discovery.Tests.Pipelines.{
  report, recorder_log, peer, recorder, recorder-IsConnected, read_endpoint, idle, empty-IsTyped,
  public_network,
}

empty-HasPublicNetworks : HasPublicNetworks (find [])
unfolding find from_string
empty-HasPublicNetworks = record { at = λ id h. cc h }

-- A peer is announced, and published once.
abbrev once : List Input
once = message (reachable_event 1 1 report) ∷ tick 2 ∷ []

once-published :
    recorder_log.sent
      (run memory memory_scans silent toy_texts toy_json recorder read_endpoint config once
        idle).1.client
    ≡ needs_dial toy_json peer ∷ []
unfolding Exec.◌>>=◌ Exec.call Exec.pure Exec.attempt Arms.reachable_arm Arms.add_addresses
    Arms.locate Arms.set_location arm query_by_reachable lookup_ipinfo cache_or_ask keep_answer
    cached run handle on_world Broadcast.publish Broadcast.read_peer announce_all broadcast
    valid_endpoints key_text keys_to_peer_ids from_string into_str find stored_names names glob
    contains with_member rsplit_once to_lowercase
once-published = refl

-- Every payload is empty, and read as the published record.
abbrev no_bytes : Payload → Bytes
no_bytes _ = []

abbrev read_first : Bytes → Option NodeMetaInfo
read_first _ = some peer

-- A record to dial, delivered twice, a message under another topic, and the loss of the connection.
abbrev stream : List (Option MqttMessage)
stream =
    some (record { topic = "peer/needs_dial"; payload = [] })
    ∷ none
    ∷ some (record { topic = "peer/online"; payload = [] })
    ∷ some (record { topic = "peer/needs_dial"; payload = [] })
    ∷ []

delivered :
    {topic : String}
    → topic ≡ "peer/needs_dial"
    → (text : Payload) × Elem
        ("peer/needs_dial", text)
        (recorder_log.sent
          (run memory memory_scans silent toy_texts toy_json recorder read_endpoint config once
            idle).1.client)
      × (no_bytes text ≡ [])
delivered h = (
  unknown peer,
  subst (λ sent. Elem (needs_dial toy_json peer) sent) (sym once-published) (inl refl),
  refl,
)

reads_once :
    (n : NodeMetaInfo)
    → Elem (needs_dial toy_json n) (needs_dial toy_json peer ∷ [])
    → read_first [] ≡ some n
reads_once n (inl e) = ap (λ (a : String × Payload). toy_json.read_node_meta_info a.1) e
reads_once n (inr h) = absurd h

announcements-mqtt_task_example :
    mqtt_task toy_p2p read_first stream ≡ (none, all_dials toy_p2p read_first stream)
announcements-mqtt_task_example =
    announcements-mqtt_task memory-IsScan read_endpoint toy_texts toy_json recorder_log
      recorder-IsConnected config refl refl no_bytes toy_p2p read_first once idle stream
      (public_network, (tt, tt)) refl empty-IsTyped empty-HasPublicNetworks refl
      (λ n m. reads_once n (subst (λ sent. Elem (needs_dial toy_json n) sent) once-published m))
      (delivered, (tt, (delivered, (delivered, tt))))

abbrev of_dev : NodeMetaInfo
of_dev = record peer { network = dev }

abbrev read_dev : List ℕ → Option NodeMetaInfo
read_dev [] = some peer
read_dev (_ ∷ _) = some of_dev

dev-is_parsed : present toy_p2p read_dev (meta_info_to_addr toy_p2p of_dev) ≢ []
unfolding meta_info_to_addr
dev-is_parsed = λ h. cc h

mqtt_task-dev_example :
    mqtt_task toy_p2p read_dev
      (stream ++ some (record { topic = "peer/needs_dial"; payload = 7 ∷ [] }) ∷ stream)
    ≡ (none, all_dials toy_p2p read_dev stream)
mqtt_task-dev_example =
    mqtt_task-dev toy_p2p read_dev stream stream
      (record { topic = "peer/needs_dial"; payload = 7 ∷ [] }) of_dev
      (public_network, (tt, (tt, (public_network, tt)))) refl refl refl dev-is_parsed

abbrev source : NodeMetaInfo
source = addr_to_node_meta toy_p2p known_addr mirana

abbrev heard : ReachableInfo
heard = new announced_peer source

is_published :
    Elem
      (publish "peer/reachable" (reachable heard))
      (received_discovery toy_p2p toy_wire mirana session (known_ip ∷ [])).1
is_published =
    rw
      (received_discovery-reports toy_p2p toy_wire mirana session (known_ip ∷ [])
        (announced_peer ∷ []) decoded)
      (inl refl)

abbrev stored : NodeMetaInfo
stored =
    record_for toy_p2p toy_wire mirana session toy_json toy_json-IsJson memory-IsScan read_endpoint
      toy_texts recorder_log recorder-IsConnected config 1 1 2 idle refl empty-IsTyped heard

abbrev read_stored : List ℕ → Option NodeMetaInfo
read_stored _ = some stored

gossip_example :
    (ingest toy_json "peer/reachable" (reachable heard) ≡ to_reachable heard ∷ [])
    × Elem
        ("peer/needs_dial", unknown stored)
        (published toy_p2p toy_wire mirana session toy_json toy_json-IsJson memory-IsScan
          read_endpoint toy_texts recorder_log recorder-IsConnected config 1 1 2 idle refl
          empty-IsTyped heard)
    × Elem
        (dial_on mirana known_addr)
        (on_message toy_p2p read_stored
          (some (record { topic = "peer/needs_dial"; payload = [] }))).1
gossip_example =
    gossip toy_p2p toy_wire mirana session toy_json toy_json-IsJson memory-IsScan read_endpoint
      toy_texts recorder_log recorder-IsConnected config 1 1 2 idle refl empty-IsTyped
      (known_ip ∷ []) "peer/reachable" heard endpoint known_addr no_bytes read_stored public_network
      is_published (refl, (refl, tt)) (inl refl) refl refl refl
