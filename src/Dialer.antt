-- ===== src/Dialer.antt =====
-- src/main.rs: the dialer's reaction to a message of the MQTT stream. The service of each network is
-- named by the network. The outcome of a dial is only logged. A lost connection (`none` from the
-- stream) leads to reconnection attempts, which change nothing here.
pub mod Dials
pub mod Task
pub mod Start
use ckb_discovery.Prelude.{String, Option, none, some, List, [], ◌∷◌, str_eq, if◌then◌else◌}
use ckb_discovery.Prelude.Runs.{Run, pure, emit, panic, ◌>>=◌, ◌>>◌}
use ckb_discovery.Types.{CkbNetworkType, mirana, pudge, dev, NodeMetaInfo}
use ckb_discovery.Compress.{Bytes}
use ckb_discovery.Multiaddr.{P2p}
use ckb_discovery.Network.{meta_info_to_addr}

pub record MqttMessage : Type 0 where
  pub topic : String
  pub payload : Bytes

pub data Dial (Multiaddr : Type 0) : Type 0 where
  dial_on : CkbNetworkType → Multiaddr → Dial Multiaddr

-- `from_slice` is `serde_json::from_slice::<NodeMetaInfo>`.
module _ (x : P2p) (from_slice : Bytes → Option NodeMetaInfo) where
  abbrev pub Dials : Type 0
  Dials = Run (Dial x.Multiaddr) (Unit {0})

  -- The match on `node.network`; its last arm is `unreachable!()`.
  pub dial_addr : CkbNetworkType → x.Multiaddr → Dials
  dial_addr pudge addr = emit (dial_on pudge addr)
  dial_addr mirana addr = emit (dial_on mirana addr)
  dial_addr dev addr = panic

  -- The loop over `addrs.into_iter().flatten()`.
  pub dial_addrs : CkbNetworkType → List (Option x.Multiaddr) → Dials
  dial_addrs network [] = pure tt
  dial_addrs network (none ∷ addrs) = dial_addrs network addrs
  dial_addrs network (some addr ∷ addrs) = do dial_addr network addr; dial_addrs network addrs

  dial_node : Option NodeMetaInfo → Dials
  unfolding dial_addrs dial_addr
  dial_node none = pure tt
  dial_node (some node) = dial_addrs node.network (meta_info_to_addr x node)

  unfoldable pub on_message : Option MqttMessage → Dials
  unfolding dial_node
  on_message none = pure tt
  on_message (some msg) =
      if str_eq msg.topic "peer/needs_dial" then dial_node (from_slice msg.payload) else pure tt

  -- The task that reads the stream; it panics when the stream ends.
  unfoldable pub mqtt_task : List (Option MqttMessage) → Dials
  mqtt_task [] = panic
  mqtt_task (msg_opt ∷ stream) = do on_message msg_opt; mqtt_task stream
