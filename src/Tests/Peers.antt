-- ===== src/Tests/Peers.antt =====
-- src/handler.rs, src/network.rs and src/main.rs: one peer at 52.33.75.45, whose multiaddress is known.
use ckb_discovery.Prelude.{
  ℕ, ◌≡◌, refl, ◌↔◌, true, not, Option, none, some, List, [], ◌∷◌, ◌++◌, map, retain, All,
}
use ckb_discovery.Types.{
  mirana, pudge, dev, v4, is_loopback, localhost, EndpointInfo, NodeMetaInfo, PeerInfo,
  ReachableInfo,
}
use ckb_discovery.Multiaddr.{P2p, Protocol, tcp, dns4}
use ckb_discovery.Network.{addr_to_node_meta, addr_to_endpoint, meta_info_to_addr}
use ckb_discovery.Network.Bootnodes.{get_bootnodes}
use ckb_discovery.Network.RoundTrip.{
  ReadsBack, read_node, single, meta_info_to_addr-addr_to_node_meta,
}
use ckb_discovery.Handler.{
  Payload, online, reachable, unknown, received, handle_error, dialer_error, full_flag, Context,
  dial, received_identify, received_discovery, init, notify,
}
use ckb_discovery.Handler.Identify.{received_identify_lem, identify_actions, identify_of}
use ckb_discovery.Handler.Discovery.{
  records_of, reports, received_discovery-reports, received_discovery-panic_iff, decode_nodes,
  decode_all,
}
use ckb_discovery.Handler.Sound.{IsSound, received_discovery-IsSound}
use ckb_discovery.Handler.Service.{init-notify, wakes}
use ckb_discovery.Dialer.{dial_on, on_message}
use ckb_discovery.Marci.Ingest.{Json}
use ckb_discovery.Marci.Delivery.{IsJson, IsDelivered, received-IsDelivered}
use ckb_discovery.Tests.Doubles.{toy_p2p, toy_wire, known_addr, known_ip}

abbrev pub session : Context (List Protocol)
session = record { proto_id = 1; session_id = 5; session_address = known_addr }

abbrev pub endpoint : EndpointInfo
endpoint = record { address = v4 known_ip; port = 8114 }

abbrev local : EndpointInfo
local = record { address = localhost; port = 8114 }

abbrev stored : NodeMetaInfo
stored = record { peer_id = "Qm"; addresses = endpoint ∷ local ∷ []; network = pudge }

-- A light client that serves discovery is kept; one that serves blocks only is not.
identify_runs :
    ((received_identify toy_p2p toy_wire mirana session (2 ∷ [])).1
      ≡ identify_actions toy_p2p toy_wire mirana session (identify_of toy_p2p toy_wire (2 ∷ [])))
    × ((received_identify toy_p2p toy_wire mirana session []).0 ≡ some tt)
unfolding received_identify full_flag
identify_runs = (refl, refl)

received_identify_lem_example : received_identify toy_p2p toy_wire mirana session (4 ∷ []) ≡ (
  some tt,
  identify_actions toy_p2p toy_wire mirana session (identify_of toy_p2p toy_wire (4 ∷ [])),
)
received_identify_lem_example = received_identify_lem toy_p2p toy_wire mirana session (4 ∷ [])

abbrev by_name : List Protocol
by_name = dns4 "node.example" ∷ tcp 8114 ∷ []

reads_known : ReadsBack toy_p2p "Qm" endpoint
reads_known = record {
  addr = known_addr;
  key = known_ip ∷ [];
  parsed = refl;
  protocols = refl;
  encoded = refl;
}

meta_info_to_addr-addr_to_node_meta_example :
    map
      (read_node toy_p2p pudge)
      (meta_info_to_addr toy_p2p (record stored { addresses = endpoint ∷ [] }))
    ≡ map
        (single toy_p2p (record stored { addresses = endpoint ∷ [] }))
        (retain (λ e. not (is_loopback e.address)) (endpoint ∷ []))
meta_info_to_addr-addr_to_node_meta_example =
    meta_info_to_addr-addr_to_node_meta toy_p2p (record stored { addresses = endpoint ∷ [] })
      (reads_known, tt)

-- One node with a public and a loopback address, and one with no address.
abbrev pub announced_peer : NodeMetaInfo
announced_peer = record { peer_id = "Qm"; addresses = endpoint ∷ []; network = mirana }

pub decoded :
    records_of toy_p2p toy_wire mirana session (known_ip ∷ []) ≡ some (announced_peer ∷ [])
unfolding decode_nodes decode_all addr_to_node_meta addr_to_endpoint
decoded = refl

received_discovery-reports_example :
    received_discovery toy_p2p toy_wire mirana session (known_ip ∷ []) ≡ (
      some tt,
      reports toy_p2p toy_wire session
          (addr_to_node_meta toy_p2p known_addr mirana)
          (announced_peer ∷ []),
    )
received_discovery-reports_example =
    received_discovery-reports toy_p2p toy_wire mirana session (known_ip ∷ []) (announced_peer ∷ [])
      decoded

received_discovery-panic_iff_example :
    ((received_discovery toy_p2p toy_wire mirana session (known_ip ∷ [])).0 ≡ none)
    ↔ (records_of toy_p2p toy_wire mirana session (known_ip ∷ []) ≡ none)
received_discovery-panic_iff_example =
    received_discovery-panic_iff toy_p2p toy_wire mirana session (known_ip ∷ [])

received_discovery-IsSound_example :
    All
      (IsSound toy_p2p toy_wire mirana session)
      (received_discovery toy_p2p toy_wire mirana session (known_ip ∷ [])).1
received_discovery-IsSound_example =
    received_discovery-IsSound toy_p2p toy_wire mirana session (known_ip ∷ [])

-- A library that reads every text, so that the bootstrap addresses parse.
abbrev lenient : P2p
lenient = record toy_p2p { parse = λ _. some known_addr }

abbrev dev_bootnodes : List (List Protocol)
dev_bootnodes = known_addr ∷ []

dev_bootnodes_lem : get_bootnodes lenient dev ≡ some dev_bootnodes
unfolding get_bootnodes
dev_bootnodes_lem = refl

init-notify_example :
    (init lenient toy_wire dev 2 true
      ≡ (some tt, map dial dev_bootnodes ++ wakes lenient toy_wire dev 1))
    × (notify lenient toy_wire dev 1 ≡ (some tt, map dial dev_bootnodes))
init-notify_example = init-notify lenient toy_wire dev 2 1 true dev_bootnodes dev_bootnodes_lem

abbrev read_stored : List ℕ → Option NodeMetaInfo
read_stored bytes = some stored

-- The stored peer is dialled at its public address, on its network.
dialled :
    on_message toy_p2p read_stored (some (record { topic = "peer/needs_dial"; payload = [] }))
    ≡ (some tt, dial_on pudge known_addr ∷ [])
unfolding on_message meta_info_to_addr
dialled = refl

abbrev read_online : Payload → Option PeerInfo
read_online (online v) = some v
read_online _ = none

abbrev read_reachable : Payload → Option ReachableInfo
read_reachable (reachable v) = some v
read_reachable _ = none

abbrev read_unknown : Payload → Option NodeMetaInfo
read_unknown (unknown v) = some v
read_unknown _ = none

-- A payload that is the published value itself.
abbrev pub toy_json : Json
toy_json = record {
  Text = Payload;
  read_peer_info = read_online;
  read_reachable_info = read_reachable;
  read_node_meta_info = read_unknown;
  write_peer_info = online;
  write_reachable_info = reachable;
  write_node_meta_info = unknown;
}

pub toy_json-IsJson : IsJson toy_json
toy_json-IsJson = record {
  peer_info_lem = λ v. refl;
  reachable_info_lem = λ v. refl;
  node_meta_info_lem = λ v. refl;
}

received-IsDelivered_example :
    All
      (IsDelivered toy_p2p toy_wire toy_json)
      (received toy_p2p toy_wire mirana session (known_ip ∷ [])).1
    × All
        (IsDelivered toy_p2p toy_wire toy_json)
        (handle_error toy_p2p toy_wire mirana (dialer_error known_addr)).1
received-IsDelivered_example =
    received-IsDelivered toy_p2p toy_wire toy_json toy_json-IsJson mirana session (known_ip ∷ [])
      (dialer_error known_addr)
