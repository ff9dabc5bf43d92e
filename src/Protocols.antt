-- ===== src/Protocols.antt =====
-- src/support_protocols.rs: the CKB sub-protocols and their parameters.
pub mod Distinct
use ckb_discovery.Prelude.{ℕ, ◌*◌, String, List, [], ◌∷◌}

pub data SupportProtocols : Type 0 where
  ping discovery identify feeler disconnect_message sync relay relay_v2 time alert :
      SupportProtocols

unfoldable pub protocol_id : SupportProtocols → ℕ
protocol_id ping = 0
protocol_id discovery = 1
protocol_id identify = 2
protocol_id feeler = 3
protocol_id disconnect_message = 4
protocol_id sync = 100
protocol_id relay = 101
protocol_id time = 102
protocol_id relay_v2 = 103
protocol_id alert = 110

unfoldable pub name : SupportProtocols → String
name ping = "/ckb/ping"
name discovery = "/ckb/discovery"
name identify = "/ckb/identify"
name feeler = "/ckb/flr"
name disconnect_message = "/ckb/disconnectmsg"
name sync = "/ckb/syn"
name relay = "/ckb/rel"
name relay_v2 = "/ckb/relay"
name time = "/ckb/tim"
name alert = "/ckb/alt"

unfoldable pub support_versions : SupportProtocols → List String
support_versions ping = "3" ∷ []
support_versions discovery = "3" ∷ []
support_versions identify = "3" ∷ []
support_versions feeler = "3" ∷ []
support_versions disconnect_message = "3" ∷ []
support_versions sync = "3" ∷ []
support_versions relay = "3" ∷ []
support_versions time = "3" ∷ []
support_versions alert = "3" ∷ []
support_versions relay_v2 = "3" ∷ []

unfoldable pub max_frame_length : SupportProtocols → ℕ
max_frame_length ping = 1024
max_frame_length discovery = 512 * 1024
max_frame_length identify = 2 * 1024
max_frame_length feeler = 1024
max_frame_length disconnect_message = 1024
max_frame_length sync = 2 * 1024 * 1024
max_frame_length relay = 4 * 1024 * 1024
max_frame_length relay_v2 = 4 * 1024 * 1024
max_frame_length time = 1024
max_frame_length alert = 128 * 1024

-- What `From<SupportProtocols> for MetaBuilder` hands to the `p2p` crate.
pub record MetaBuilder : Type 0 where
  pub id : ℕ
  pub versions : List String
  pub label : String
  pub frame_limit : ℕ

unfoldable pub meta_builder : SupportProtocols → MetaBuilder
unfolding protocol_id name support_versions max_frame_length
meta_builder p = record {
  id = protocol_id p;
  versions = support_versions p;
  label = name p;
  frame_limit = max_frame_length p;
}
