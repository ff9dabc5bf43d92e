-- ===== src/Keys.antt =====
-- The keys of the shared Redis database: the `format!` macros of marci/src/main.rs, which writes them,
-- and the functions of exposed/src/main.rs and of marci's broadcast that read a peer id out of a key.
pub mod Laws
pub mod Distinct
pub mod Equality
pub mod Listed
use ckb_discovery.Prelude.{String, Option, none, some, List, [], ◌∷◌, ◌>>=◌, map}
use ckb_discovery.Prelude.Texts.{◌++◌, rsplit, rsplit_once, to_lowercase}
use ckb_discovery.Types.{CkbNetworkType, into_str}

-- The fields of "peer_info.{}.".
pub data InfoField : Type 0 where
  last_seen ip country city region full pos network : InfoField

-- One constructor for each macro, `info` for those of "peer_info.{}.", and the service's own key.
pub data Key : Type 0 where
  online online2 online_ip reachable unknown : String → Key
  info : InfoField → String → Key
  network_quick : String → CkbNetworkType → Key
  last_update : Key

abbrev pub field_text : InfoField → String
field_text last_seen = ".last_seen"
field_text ip = ".ip"
field_text country = ".country"
field_text city = ".city"
field_text region = ".region"
field_text full = ".full"
field_text pos = ".pos"
field_text network = ".network"

unfoldable pub key_text : Key → String
unfolding into_str to_lowercase
key_text (online id) = "peer.online." ++ id
key_text (online2 id) = "peer.online2." ++ id
key_text (online_ip id) = "online." ++ (id ++ ".ip")
key_text (reachable id) = "peer.reachable." ++ id
key_text (unknown id) = "peer.unknown." ++ id
key_text (info field id) = "peer_info." ++ (id ++ field_text field)
key_text (network_quick id net) = "network.peer." ++ (id ++ ("." ++ to_lowercase (into_str net)))
key_text last_update = "service.last_update"

-- `rsplit_once('.').map(|(_, part)| part).unwrap_or("")`
abbrev pub last_part : Option (String × String) → String
last_part none = ""
last_part (some (_, part)) = part

unfoldable pub keys_to_peer_ids : List String → List String
keys_to_peer_ids keys = map (λ key. last_part (rsplit_once key)) keys

-- `[1]`, a panic (`none`) when there is one part only.
pub second : List String → Option String
second (_ ∷ part ∷ _) = some part
second _ = none

unfoldable pub reachable_keys_to_peer_ids : List String → Option (List String)
unfolding second
reachable_keys_to_peer_ids [] = some []
reachable_keys_to_peer_ids (key ∷ keys) = do
  id ← second (rsplit key)
  ids ← reachable_keys_to_peer_ids keys
  some (id ∷ ids)
