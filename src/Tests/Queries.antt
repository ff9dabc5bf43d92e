-- ===== src/Tests/Queries.antt =====
-- exposed/src/main.rs, on a database that no other program writes.
use ckb_discovery.Prelude.{
  contains, ℕ, String, ◌≡◌, refl, true, none, some, List, [], ◌∷◌, ok, arith, str_eq, if◌then◌else◌,
}
use ckb_discovery.Types.{mirana, from_string}
use ckb_discovery.Prelude.Texts.{rsplit, rsplit_once}
use ckb_discovery.Keys.{reachable_keys_to_peer_ids, keys_to_peer_ids, key_text}
use ckb_discovery.Exposed.Exec.{Reader, Libraries, Peer, done}
use ckb_discovery.Exposed.Info.{version_short, split_comma, node_type_from_full}
use ckb_discovery.Exposed.Peers.{is_known, get_peers, peer_in_map}
use ckb_discovery.Exposed.Peers.Listing.{IsStill, IsFilled, get_peers_lem}
use ckb_discovery.Exposed.Peers.InMap.{peer_in_map_lem}
use ckb_discovery.Exposed.Cache.{
  ServiceData, peers_json, renewed, peer_handler, peer_handler-cached,
}

-- Two peers are announced on a network, and one of them is online.
abbrev matching : String → List String
matching pattern =
    if str_eq pattern "network.peer.*.mirana"
    then "network.peer.Qm.mirana" ∷ "network.peer.Qn.mirana" ∷ []
    else if str_eq pattern "peer.online.*"
    then "peer.online.Qn" ∷ []
    else if str_eq pattern "peer.online.Qn"
    then "peer.online.Qn" ∷ []
    else []

abbrev pub toy_reader : Reader
toy_reader = record {
  Db = Unit;
  keys = λ pattern db. (ok (matching pattern), db);
  get = λ key db. (ok (some "0.120"), db);
}

abbrev pub toy_libraries : Libraries
toy_libraries = record {
  Number = ℕ;
  Date = ℕ;
  parse_f64 = λ s. none;
  read_u64 = λ s. some 7;
  read_bool = λ s. none;
  captures = λ s. none;
  date = some;
}

abbrev toy-IsStill : IsStill toy_reader tt
toy-IsStill = record {
  listed = matching;
  stored = λ key. ok (some "0.120");
  keys_lem = λ pattern. refl;
  get_lem = λ key. refl;
}

toy-IsFilled : IsFilled toy_libraries toy-IsStill
toy-IsFilled = record { online_lem = λ id h. refl; online2_lem = λ id h. refl }

abbrev pub described : ℕ → Peer toy_libraries
described index = record {
  id = index;
  version = "0.120";
  version_short = "0.120";
  last_seen = some 7;
  country = some "0.120";
  city = some "0.120";
  latitude = none;
  longitude = none;
  node_type = 0;
}

described_peers : get_peers toy_reader toy_libraries mirana tt ≡ (done (described 1 ∷ []), tt)
unfolding reachable_keys_to_peer_ids keys_to_peer_ids key_text is_known contains rsplit rsplit_once
    version_short split_comma node_type_from_full
described_peers = get_peers_lem toy_libraries toy-IsStill toy-IsFilled (λ id. 7) (λ id. refl) mirana

peer_in_map_lem_example :
    peer_in_map toy_reader toy_libraries "Qn" tt
    ≡ (done (record { peer_id = "Qn"; in_map = true; info = some (described 0) }), tt)
unfolding key_text version_short split_comma node_type_from_full
peer_in_map_lem_example = peer_in_map_lem toy_libraries toy-IsStill (λ id. 7) (λ id. refl) "Qn"

abbrev pub cold : ServiceData toy_reader toy_libraries
cold = record { db = tt; last_cache_update = 0; peers = [] }

pub peer_handler-cached_example :
    (peer_handler toy_reader toy_libraries "mirana" 5 6 true cold
      ≡ (peers_json (described 1 ∷ []), renewed toy_reader toy_libraries 6 tt (described 1 ∷ [])))
    × (peer_handler toy_reader toy_libraries "pudge" 7 8 true
          (renewed toy_reader toy_libraries 6 tt (described 1 ∷ []))
        ≡ (peers_json (described 1 ∷ []), renewed toy_reader toy_libraries 6 tt (described 1 ∷ [])))
unfolding from_string
peer_handler-cached_example =
    peer_handler-cached toy_reader toy_libraries "mirana" "pudge" 5 6 7 8 true cold (described 1) []
      tt tt refl described_peers (omega arith)
