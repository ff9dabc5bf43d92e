-- ===== src/Marci/Ingest.antt =====
-- marci/src/main.rs: the task that reads the MQTT stream and sends what it reads to the channels of the
-- main loop. A channel that is full makes the task wait; its receiver lives as long as the main loop,
-- so no message is lost. A lost connection leads to reconnection attempts, which change nothing here.
use ckb_discovery.Prelude.{String, Option, none, some, List, [], ◌∷◌, str_eq, if◌then◌else◌}
use ckb_discovery.Types.{PeerInfo, ReachableInfo, NodeMetaInfo}

-- `serde_json::from_slice` and `serde_json::to_string` at the three types. `Text` are the payloads.
pub record Json : Type 1 where
  pub Text : Type 0
  pub read_peer_info : Text → Option PeerInfo
  pub read_reachable_info : Text → Option ReachableInfo
  pub read_node_meta_info : Text → Option NodeMetaInfo
  pub write_peer_info : PeerInfo → Text
  pub write_reachable_info : ReachableInfo → Text
  pub write_node_meta_info : NodeMetaInfo → Text

-- The topics that marci subscribes to.
abbrev pub topics : List String
topics = "peer/online" ∷ "peer/reachable" ∷ "peer/unknown" ∷ "peer/online2" ∷ []

-- A message of one of the three channels.
pub data Sent : Type 0 where
  to_online : PeerInfo → Sent
  to_reachable : ReachableInfo → Sent
  to_unknown : NodeMetaInfo → Sent

-- A payload that is not of the type is only logged.
abbrev pub send_if_some : {A : Type 0} → (A → Sent) → Option A → List Sent
send_if_some to none = []
send_if_some to (some a) = to a ∷ []

-- The body of the loop, for a message of the stream.
unfoldable pub ingest : (j : Json) → (topic : String) → (payload : j.Text) → List Sent
ingest j topic payload =
    if str_eq topic "peer/online"
    then send_if_some to_online (j.read_peer_info payload)
    else if str_eq topic "peer/online2"
    then send_if_some to_online (j.read_peer_info payload)
    else if str_eq topic "peer/reachable"
    then send_if_some to_reachable (j.read_reachable_info payload)
    else if str_eq topic "peer/unknown"
    then send_if_some to_unknown (j.read_node_meta_info payload)
    else []
