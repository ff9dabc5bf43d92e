-- ===== src/Handler.antt =====
-- src/handler.rs: the callbacks that the `p2p` service calls. A callback is a `Run`: the actions that
-- it takes, in order, and `none` if it panics. What the code does with the outcome of an action (a
-- publication, a dial, a disconnection) is to log it, so no outcome comes back; log lines are left
-- out. A publication is spawned on a task of its own: `publish` is the moment of the spawn.
pub mod Identify
pub mod Discovery
pub mod Sound
pub mod Service
use ckb_discovery.Prelude.{
  ℕ, ◌*◌, String, Bool, true, false, not, ◌&&◌, ◌||◌, Option, none, some, List, [], ◌∷◌, ◌++◌,
  length, is_empty, drop, retain, ltb, ◌==◌, bit_and, bit_or, if◌then◌else◌,
}
use ckb_discovery.Prelude.Runs.{Run, pure, unwrap, emit, ◌>>=◌, ◌>>◌}
use ckb_discovery.Types.{
  CkbNetworkType, is_loopback, EndpointInfo, NodeMetaInfo, ReachableInfo, new, PeerInfo,
}
use ckb_discovery.Compress.{Bytes}
use ckb_discovery.Multiaddr.{P2p}
use ckb_discovery.Network.{addr_to_node_meta, addr_to_endpoint}
use ckb_discovery.Network.Bootnodes.{get_bootnodes}
use ckb_discovery.Message.{
  Node, Nodes, DiscoveryPayload, get_nodes, nodes, DiscoveryMessage, build_discovery_get_nodes,
}
use ckb_discovery.Protocols.{SupportProtocols, discovery, identify, protocol_id}

-- `packed::Identify`, unpacked.
pub record IdentifyPayload : Type 0 where
  pub client_version : Bytes
  pub flag : ℕ

-- The readers and writers of the `ckb_types` crate; `none` is their error. `identify_message` gives
-- the raw data of the message's `identify` field. `from_utf8_lossy` is Rust's.
pub record Wire : Type 0 where
  pub identify_message : Bytes → Option Bytes
  pub identify_payload : Bytes → Option IdentifyPayload
  pub discovery_message : Bytes → Option DiscoveryMessage
  pub discovery_bytes : DiscoveryMessage → Bytes
  pub from_utf8_lossy : Bytes → String

-- The value whose JSON is published.
pub data Payload : Type 0 where
  online : PeerInfo → Payload
  reachable : ReachableInfo → Payload
  unknown : NodeMetaInfo → Payload

pub data Action (Multiaddr : Type 0) : Type 0 where
  publish : String → Payload → Action Multiaddr
  disconnect : ℕ → Action Multiaddr
  dial : Multiaddr → Action Multiaddr
  send_message : Bytes → Action Multiaddr
  set_service_notify : (proto_id seconds token : ℕ) → Action Multiaddr

pub data ServiceError (Multiaddr : Type 0) : Type 0 where
  dialer_error : Multiaddr → ServiceError Multiaddr
  protocol_select_error : (session : ℕ) → ServiceError Multiaddr
  other_error : ServiceError Multiaddr

-- The part of `ProtocolContextMutRef` that the callbacks read.
pub record Context (Multiaddr : Type 0) : Type 0 where
  pub proto_id : ℕ
  pub session_id : ℕ
  pub session_address : Multiaddr

-- `full` of `received_identify`.
unfoldable pub full_flag : ℕ → Bool
full_flag client_flag = (bit_or client_flag 0b1 == 0b1) || (bit_and client_flag 0b11110 == 0b11110)

module _ (x : P2p) (w : Wire) where
  abbrev pub Effects : Type 0
  Effects = Run (Action x.Multiaddr) (Unit {0})

  abbrev pub peer_of : CkbNetworkType → Context x.Multiaddr → IdentifyPayload → PeerInfo
  peer_of network context payload = record {
    info = addr_to_node_meta x context.session_address network;
    version = w.from_utf8_lossy payload.client_version;
    full = full_flag payload.flag;
    is_ex = false;
  }

  -- The arms of the two nested matches of `received_identify`; the result is `need_disconnect`.
  identify_payload_arm :
      CkbNetworkType → Context x.Multiaddr → Option IdentifyPayload → Run (Action x.Multiaddr) Bool
  identify_payload_arm network context none = pure true
  identify_payload_arm network context (some payload) = do
    emit (publish "peer/online" (online (peer_of network context payload)))
    pure (not (full_flag payload.flag || (bit_and payload.flag 0b10 == 0b10)))

  identify_message_arm :
      CkbNetworkType → Context x.Multiaddr → Option Bytes → Run (Action x.Multiaddr) Bool
  unfolding identify_payload_arm
  identify_message_arm network context none = pure true
  identify_message_arm network context (some raw) =
      identify_payload_arm network context (w.identify_payload raw)

  unfoldable pub received_identify : CkbNetworkType → Context x.Multiaddr → Bytes → Effects
  unfolding identify_message_arm
  received_identify network context bytes = do
    need_disconnect ← identify_message_arm network context (w.identify_message bytes)
    if need_disconnect then emit (disconnect context.session_id) else pure tt

  unfoldable pub connected_discovery : Effects
  connected_discovery =
      emit (send_message (w.discovery_bytes (build_discovery_get_nodes none 1000 0b1110)))

  -- The loop over `addresses[1..]`; `Multiaddr::try_from` is unwrapped.
  push_endpoints : List Bytes → Run (Action x.Multiaddr) (List EndpointInfo)
  push_endpoints [] = pure []
  push_endpoints (address ∷ addresses) = do
    endpoint ← unwrap (x.try_from address)
    rest ← push_endpoints addresses
    pure (addr_to_endpoint x endpoint ∷ rest)

  -- The addresses of a node that has some, `first` being `addresses.get(0)`.
  meta_of_addresses : CkbNetworkType → Bytes → List Bytes → Run (Action x.Multiaddr) NodeMetaInfo
  unfolding push_endpoints
  meta_of_addresses network first more = do
    addr ← unwrap (x.try_from first)
    let meta = addr_to_node_meta x addr network
    endpoints ← push_endpoints more
    pure (record meta {
      addresses = retain (λ e. not (is_loopback e.address)) (meta.addresses ++ endpoints);
    })

  -- One round of the loop over the nodes.
  pub report_node : CkbNetworkType → Context x.Multiaddr → NodeMetaInfo → List Bytes → Effects
  unfolding meta_of_addresses
  report_node network context from [] = pure tt
  report_node network context from (first ∷ more) = do
    meta ← meta_of_addresses network first more
    emit (publish "peer/reachable" (reachable (new meta from)))
    emit (disconnect context.session_id)

  pub report_nodes : CkbNetworkType → Context x.Multiaddr → NodeMetaInfo → List Node → Effects
  report_nodes network context from [] = pure tt
  report_nodes network context from (node ∷ rest) = do
    report_node network context from node.addresses
    report_nodes network context from rest

  payload_arm : CkbNetworkType → Context x.Multiaddr → DiscoveryPayload → Effects
  unfolding report_nodes report_node
  payload_arm network context (nodes discovery_nodes) =
      report_nodes network context (addr_to_node_meta x context.session_address network)
        discovery_nodes.items
  payload_arm network context (get_nodes _) = pure tt

  message_arm : CkbNetworkType → Context x.Multiaddr → Option DiscoveryMessage → Effects
  unfolding payload_arm
  message_arm network context none = pure tt
  message_arm network context (some message) = payload_arm network context message.payload

  unfoldable pub received_discovery : CkbNetworkType → Context x.Multiaddr → Bytes → Effects
  unfolding message_arm
  received_discovery network context bytes = message_arm network context (w.discovery_message bytes)

  unfoldable pub received : CkbNetworkType → Context x.Multiaddr → Bytes → Effects
  unfolding received_discovery received_identify protocol_id
  received network context bytes =
      if context.proto_id == protocol_id discovery
      then received_discovery network context bytes
      else if context.proto_id == protocol_id identify
      then received_identify network context bytes
      else pure tt

  unfoldable pub connected : Context x.Multiaddr → Effects
  unfolding connected_discovery protocol_id
  connected context =
      if context.proto_id == protocol_id discovery then connected_discovery else pure tt

  unfoldable pub handle_error : CkbNetworkType → ServiceError x.Multiaddr → Effects
  handle_error network (dialer_error address) =
      emit (publish "peer/unknown" (unknown (addr_to_node_meta x address network)))
  handle_error network (protocol_select_error session) = emit (disconnect session)
  handle_error network other_error = pure tt

  dial_all : List x.Multiaddr → Effects
  dial_all [] = pure tt
  dial_all (node ∷ rest) = do emit (dial node); dial_all rest

  unfoldable pub dial_bootnodes : CkbNetworkType → Effects
  unfolding dial_all
  dial_bootnodes network = do bootnodes ← unwrap (get_bootnodes x network); dial_all bootnodes

  -- `armed` is the outcome of `set_service_notify`, which is unwrapped.
  unfoldable pub init : CkbNetworkType → (proto_id : ℕ) → (armed : Bool) → Effects
  unfolding protocol_id
  init network proto_id armed =
      if proto_id == protocol_id identify
      then (do
        dial_bootnodes network
        emit (set_service_notify (protocol_id identify) (12 * 60 * 60) 1)
        unwrap (if armed then some tt else none))
      else pure tt

  unfoldable pub notify : CkbNetworkType → (token : ℕ) → Effects
  notify network token = if token == 1 then dial_bootnodes network else pure tt
