-- ===== src/Marci/Broadcast.antt =====
-- marci/src/main.rs: the arm of the timer, which publishes the reachable peers for the dialers, and the
-- main loop over the arms of the channels and of the timer.
use ckb_discovery.Prelude.{ℕ, String, Option, none, some, List, [], ◌∷◌}
use ckb_discovery.Types.{EndpointInfo, NodeMetaInfo, from_string}
use ckb_discovery.Keys.{info, last_update, ip, network, key_text, keys_to_peer_ids}
use ckb_discovery.Redis.{Redis}
use ckb_discovery.Redis.Reference.{Reply}
use ckb_discovery.Redis.Scan.{Scans}
use ckb_discovery.Marci.Exec.{
  Config, IpInfo, Texts, World, Act, M, pure, call, attempt, unwrap_or, ◌>>=◌, ◌>>◌,
}
use ckb_discovery.Marci.Ingest.{Json}
use ckb_discovery.Marci.Arms.{Event, arm}

-- The MQTT client: a publication may fail.
pub record Mqtt (Text : Type 0) : Type 1 where
  pub Client : Type 0
  pub publish : (topic : String) → Text → Client → Reply (Unit {0}) × Client

pub record Station (r : Redis) (i : IpInfo) {Text : Type 0} (q : Mqtt Text) : Type 0 where
  pub world : World r i
  pub client : q.Client

abbrev pub push_valid : Option EndpointInfo → List EndpointInfo → List EndpointInfo
push_valid none rest = rest
push_valid (some e) rest = e ∷ rest

-- `read_endpoint` is `serde_json::from_str::<EndpointInfo>`; what it does not read is left out.
unfoldable pub valid_endpoints :
    (read_endpoint : String → Option EndpointInfo) → List String → List EndpointInfo
valid_endpoints read [] = []
valid_endpoints read (s ∷ ss) = push_valid (read s) (valid_endpoints read ss)

-- What reaches the main loop: a message or a pause, or a tick of the timer, whose arm reads the time.
pub data Input : Type 0 where
  message : Event → Input
  tick : (now : ℕ) → Input

module _ (r : Redis) (sc : Scans r) (i : IpInfo) (t : Texts) (j : Json) (q : Mqtt j.Text)
    (read_endpoint : String → Option EndpointInfo) where
  abbrev pub Step : Type 0 → Type 0
  Step = Act (Station r i q)

  unfoldable pub on_world : {A : Type 0} → M r i A → Step A
  on_world m st = let (reply, w) = m st.world in (reply, record st { world = w })

  unfoldable pub publish : (topic : String) → j.Text → Step (Unit {0})
  publish topic text st =
      let (reply, client) = q.publish topic text st.client in (reply, record st { client = client })

  -- What is read about a peer, with `unwrap_or_default`.
  unfoldable pub read_peer : String → M r i NodeMetaInfo
  unfolding valid_endpoints from_string
  read_peer id = do
    raw_info ← attempt (call (sc.smembers (key_text (info ip id))))
    network_string ← attempt (call (r.get (key_text (info network id))))
    pure (record {
      peer_id = id;
      addresses = valid_endpoints read_endpoint (unwrap_or [] raw_info);
      network = from_string (unwrap_or "" network_string);
    })

  -- The loop over the peers.
  unfoldable pub announce_all : List String → Step (Unit {0})
  unfolding read_peer on_world publish
  announce_all [] = pure tt
  announce_all (id ∷ ids) = do
    meta_info ← on_world (read_peer id)
    publish "peer/needs_dial" (j.write_node_meta_info meta_info)
    announce_all ids

  unfoldable pub broadcast : (now : ℕ) → Step (Unit {0})
  unfolding announce_all keys_to_peer_ids
  broadcast now = do
    keys ← on_world (call (sc.keys "peer.reachable.*"))
    announce_all (keys_to_peer_ids keys)
    on_world (attempt (call (r.set (key_text last_update) (t.show_u64 now))))
    pure tt

  module _ (cfg : Config) where
    unfoldable pub handle : Input → Step (Unit {0})
    unfolding arm broadcast
    handle (message e) = on_world (arm r i t cfg e)
    handle (tick now) = broadcast now

    -- The main loop; the error of an arm ends it.
    unfoldable pub run : List Input → Step (Unit {0})
    run [] = pure tt
    run (e ∷ es) = do handle e; run es
