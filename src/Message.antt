-- ===== src/Message.antt =====
-- src/message.rs: the discovery messages. The builders of the `ckb_types` crate make the molecule
-- values that stand here as data; `as_bytes` and `from_compatible_slice` are in `Handler.Wire`.
use ckb_discovery.Prelude.{ℕ, ◌/◌, ◌%◌, Bool, Option, none, some, List, [], ◌∷◌, map}
use ckb_discovery.Compress.{Bytes}
use ckb_discovery.Multiaddr.{P2p}

-- `listen_port` is the two bytes of a `Uint16`.
pub record GetNodes : Type 0 where
  pub listen_port : Option Bytes
  pub count : ℕ
  pub version : ℕ

pub record Node : Type 0 where
  pub addresses : List Bytes

pub record Nodes : Type 0 where
  pub announce : Bool
  pub items : List Node

pub data DiscoveryPayload : Type 0 where
  get_nodes : GetNodes → DiscoveryPayload
  nodes : Nodes → DiscoveryPayload

pub record DiscoveryMessage : Type 0 where
  pub payload : DiscoveryPayload

-- `u16::to_le_bytes`
to_le_bytes : ℕ → Bytes
to_le_bytes port = (port % 256) ∷ (port / 256 % 256) ∷ []

port_opt : Option ℕ → Option Bytes
unfolding to_le_bytes
port_opt none = none
port_opt (some port) = some (to_le_bytes port)

unfoldable pub build_discovery_get_nodes : Option ℕ → ℕ → ℕ → DiscoveryMessage
unfolding port_opt
build_discovery_get_nodes listening_port max_nodes self_defined_flag = record {
  payload = get_nodes (record {
    listen_port = port_opt listening_port;
    count = max_nodes;
    version = self_defined_flag;
  });
}

module _ (x : P2p) (to_vec : x.Multiaddr → Bytes) where
  node_of : x.Multiaddr → Node
  node_of address = record { addresses = to_vec address ∷ [] }

  unfoldable pub build_discovery_nodes : Bool → List x.Multiaddr → DiscoveryMessage
  unfolding node_of
  build_discovery_nodes active_push addresses = record {
    payload = nodes (record { announce = active_push; items = map node_of addresses });
  }
