-- ===== src/Exposed/Peers.antt =====
-- exposed/src/main.rs: `peer_in_map` and `get_peers`.
pub mod Listing
pub mod Settled
pub mod InMap
use ckb_discovery.Prelude.{
  contains, ℕ, ◌+◌, String, Bool, true, false, not, ◌||◌, Option, none, some, List, [], ◌∷◌, Result,
  ok, err, str_eq, if◌then◌else◌, is_empty,
}
use ckb_discovery.Types.{CkbNetworkType, mirana, pudge, dev}
use ckb_discovery.Keys.{
  online, online2, unknown, last_update, key_text, keys_to_peer_ids, reachable_keys_to_peer_ids,
}
use ckb_discovery.Redis.Reference.{Reply}
use ckb_discovery.Exposed.Exec.{
  Reader, Libraries, Peer, PeerStatus, S, pure, panic, expect, call, call_text, attempt, ◌>>=◌,
}
use ckb_discovery.Exposed.Info.{describe, version_short, text_or_none, or_empty}

abbrev pub keys_or_none : Reply (List String) → List String
keys_or_none (ok keys) = keys
keys_or_none (err _) = []

-- The peer ids of the three kinds of keys.
pub record Known : Type 0 where
  pub online : List String
  pub online2 : List String
  pub unknown : List String

unfoldable pub is_known : Known → String → Bool
unfolding contains
is_known k id = contains k.online id || contains k.online2 id || contains k.unknown id

module _ (r : Reader) (l : Libraries) where
  in_map_as : (id version short : String) → S r.Db (PeerStatus l)
  unfolding describe
  in_map_as id version short = do
    peer ← describe r l 0 id version short
    pure (record { peer_id = id; in_map = true; info = some peer })

  in_map_with : (id key : String) → S r.Db (PeerStatus l)
  unfolding in_map_as version_short
  in_map_with id key = do
    stored ← attempt (r.get key)
    in_map_as id (or_empty (text_or_none stored))
        (version_short r l (or_empty (text_or_none stored)))

  -- What is left when the keys looked at before are missing.
  by_unknown : String → List String → S r.Db (PeerStatus l)
  unfolding in_map_as
  by_unknown id [] = pure (record { peer_id = id; in_map = false; info = none })
  by_unknown id (_ ∷ _) = in_map_as id "" "Unknown"

  by_online2 : String → List String → S r.Db (PeerStatus l)
  unfolding in_map_with by_unknown
  by_online2 id [] = do
    unknowns ← attempt (r.keys (key_text (unknown id)))
    by_unknown id (keys_or_none unknowns)
  by_online2 id (_ ∷ _) = in_map_with id (key_text (online2 id))

  by_online : String → List String → S r.Db (PeerStatus l)
  unfolding in_map_with by_online2
  by_online id [] = do
    ons2 ← attempt (r.keys (key_text (online2 id)))
    by_online2 id (keys_or_none ons2)
  by_online id (_ ∷ _) = in_map_with id (key_text (online id))

  unfoldable pub peer_in_map : String → S r.Db (PeerStatus l)
  unfolding by_online
  peer_in_map id = do ons ← attempt (r.keys (key_text (online id))); by_online id (keys_or_none ons)

  -- The last arm is `unreachable!()`.
  pub network_keys : CkbNetworkType → S r.Db (List String)
  network_keys mirana = call (r.keys "network.peer.*.mirana")
  network_keys pudge = call (r.keys "network.peer.*.pudge")
  network_keys dev = panic

  pub version_of : Known → String → S r.Db String
  unfolding contains
  version_of k id =
      if contains k.online id
      then call_text (r.get (key_text (online id)))
      else if contains k.online2 id
      then call_text (r.get (key_text (online2 id)))
      else pure ""

  pub short_of : Known → (id version : String) → String
  unfolding version_short
  short_of k id version =
      if contains k.online id || contains k.online2 id then version_short r l version else "Unknown"

  -- One round of the loop for a peer that is not skipped.
  pub row : Known → ℕ → String → S r.Db (Peer l)
  unfolding version_of short_of describe
  row k index id = do
    version ← version_of k id
    describe r l index id version (short_of k id version)

  -- The loop over `peer_ids.into_iter().enumerate()`; an index is below 2 ^ 31.
  pub rows : Known → ℕ → List String → S r.Db (List (Peer l))
  unfolding is_known
  rows k index [] = pure []
  rows k index (id ∷ ids) =
      let rest = rows k (index + 1) ids in
      if is_known k id then (do peer ← row k index id; peers ← rest; pure (peer ∷ peers)) else rest

  unfoldable pub get_peers : CkbNetworkType → S r.Db (List (Peer l))
  unfolding network_keys rows row
  get_peers network = do
    keys ← network_keys network
    peer_ids ← expect (reachable_keys_to_peer_ids keys)
    ons ← call (r.keys "peer.online.*")
    ons2 ← call (r.keys "peer.online2.*")
    unknowns ← call (r.keys "peer.unknown.*")
    rows
        (record {
          online = keys_to_peer_ids ons;
          online2 = keys_to_peer_ids ons2;
          unknown = keys_to_peer_ids unknowns;
        })
        0 peer_ids
