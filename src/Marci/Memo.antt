-- ===== src/Marci/Memo.antt =====
-- marci/src/main.rs: what the arms and the main loop do to the cache of `lookup_ipinfo`.
use ckb_discovery.Prelude.{
  String, ◌≡◌, refl, Option, none, some, List, [], ◌∷◌, ok, err, str_eq, eq_iff, Bool-cases, inl,
  inr,
}
use ckb_discovery.Types.{EndpointInfo, NodeMetaInfo, PeerInfo}
use ckb_discovery.Redis.{Redis}
use ckb_discovery.Redis.Reference.{Reply}
use ckb_discovery.Redis.Scan.{Scans}
use ckb_discovery.Marci.Exec.{Config, IpDetails, IpInfo, Texts, World}
use ckb_discovery.Marci.Lookup.{
  lookup_ipinfo, query_by_reachable, query_by_ip, cached, cache_or_ask, keep_answer,
}
use ckb_discovery.Marci.Arms.{
  set_location, mark_online, record_address, online_arm, promote, judge, unknown_arm, add_addresses,
  locate, reachable_arm, Event, online_event, unknown_event, reachable_event, wait, rest_for, arm,
}
use ckb_discovery.Marci.Ingest.{Json}
use ckb_discovery.Marci.Broadcast.{
  Mqtt, Station, Input, message, tick, publish, read_peer, announce_all, broadcast, handle, run,
}
use ckb_discovery.Marci.Keeps.{
  Cache, Distinct, Extends, Extends-refl, Keeps, Keeps-bind, Keeps-pure, Keeps-on_world,
  keeps_rules,
}

abbrev cache_of : (r : Redis) (i : IpInfo) → World r i → Cache
cache_of r i w = w.cache

module _ {r : Redis} {i : IpInfo} (t : Texts) (cfg : Config) where
  keep_answer-Extends :
      (ip : String) (w : World r i) (answer : Option IpDetails × i.Service)
      → cached ip w.cache ≡ none
      → Extends w.cache (keep_answer ip w answer).1.cache
  unfolding keep_answer cached
  keep_answer-Extends ip w (none, service) h = Extends-refl w.cache
  keep_answer-Extends ip w (some d, service) h = record {
    found = λ ip' d' e. elim (Bool-cases (str_eq ip ip')) [
      | inl same ↦ cc ((eq_iff ip ip').0 same, h, e)
      | inr other ↦ rw other e
    ];
    distinct = λ k. (h, k);
  }

  cache_or_ask-Extends :
      (ip : String) (w : World r i) (found : Option IpDetails)
      → cached ip w.cache ≡ found
      → Extends w.cache (cache_or_ask ip w found).1.cache
  unfolding cache_or_ask
  cache_or_ask-Extends ip w (some d) h = Extends-refl w.cache
  cache_or_ask-Extends ip w none h = keep_answer-Extends ip w (i.lookup ip w.service) h

  lookup_ipinfo-Keeps : (ip : String) → Keeps (cache_of r i) (lookup_ipinfo ip)
  unfolding lookup_ipinfo
  lookup_ipinfo-Keeps ip = record { at = λ w. cache_or_ask-Extends ip w (cached ip w.cache) refl }

  query_by_reachable-Keeps :
      (addrs : List EndpointInfo) → Keeps (cache_of r i) (query_by_reachable t addrs)
  unfolding query_by_reachable
  query_by_reachable-Keeps [] = search keeps_rules
  query_by_reachable-Keeps (addr ∷ addrs) =
      Keeps-bind _ _ _ (lookup_ipinfo-Keeps (t.show_ip addr.address))
        (elim [ some d ↦ Keeps-pure _ (some d) | none ↦ query_by_reachable-Keeps addrs ])

  query_by_ip-Keeps : (addr : EndpointInfo) → Keeps (cache_of r i) (query_by_ip t addr)
  unfolding query_by_ip
  query_by_ip-Keeps addr = lookup_ipinfo-Keeps (t.show_ip addr.address)

  set_location-Keeps :
      (id : String) (d : Option IpDetails) → Keeps (cache_of r i) (set_location r i t cfg id d)
  unfolding set_location
  set_location-Keeps id none = search keeps_rules
  set_location-Keeps id (some d) = search keeps_rules depth 12

  mark_online-Keeps :
      (peer : PeerInfo) (found : Reply String)
      → Keeps (cache_of r i) (mark_online r i t cfg peer found)
  unfolding mark_online
  mark_online-Keeps peer (ok v) = search keeps_rules
  mark_online-Keeps peer (err e) = search keeps_rules

  record_address-Keeps :
      (id : String) (addr : Option EndpointInfo)
      → Keeps (cache_of r i) (record_address r i t cfg id addr)
  unfolding record_address
  record_address-Keeps id none = search keeps_rules
  record_address-Keeps id (some addr) =
      search (keeps_rules, query_by_ip-Keeps, set_location-Keeps) depth 12

  judge-Keeps :
      (id : String) (found : Reply String) → Keeps (cache_of r i) (judge r i t cfg id found)
  unfolding judge promote
  judge-Keeps id (ok v) = search keeps_rules
  judge-Keeps id (err e) = search keeps_rules depth 12

  add_addresses-Keeps :
      (id : String) (addrs : List EndpointInfo)
      → Keeps (cache_of r i) (add_addresses r i t cfg id addrs)
  unfolding add_addresses
  add_addresses-Keeps id [] = search keeps_rules
  add_addresses-Keeps id (addr ∷ addrs) =
      Keeps-bind _ _ _ (search keeps_rules) (λ _. add_addresses-Keeps id addrs)

  locate-Keeps :
      (peer : NodeMetaInfo) (known : String) → Keeps (cache_of r i) (locate r i t cfg peer known)
  unfolding locate
  locate-Keeps peer known = search (keeps_rules, query_by_reachable-Keeps, set_location-Keeps)

  arm-Keeps : (e : Event) → Keeps (cache_of r i) (arm r i t cfg e)
  unfolding arm online_arm unknown_arm reachable_arm rest_for
  arm-Keeps (online_event now peer) =
      search (keeps_rules, mark_online-Keeps, record_address-Keeps) depth 16
  arm-Keeps (unknown_event now peer) = search (keeps_rules, judge-Keeps) depth 12
  arm-Keeps (reachable_event now later msg) =
      search (keeps_rules, add_addresses-Keeps, locate-Keeps) depth 20
  arm-Keeps (wait n) = record { at = λ w. Extends-refl w.cache }

module _ (r : Redis) (sc : Scans r) (i : IpInfo) (t : Texts) (j : Json) (q : Mqtt j.Text)
    (read_endpoint : String → Option EndpointInfo) (cfg : Config) where
  abbrev station_cache : Station r i q → Cache
  station_cache st = st.world.cache

  publish-Keeps :
      (topic : String) (text : j.Text)
      → Keeps station_cache (publish r sc i t j q read_endpoint topic text)
  unfolding publish
  publish-Keeps topic text = record { at = λ st. Extends-refl st.world.cache }

  read_peer-Keeps : (id : String) → Keeps (cache_of r i) (read_peer r sc i t j q read_endpoint id)
  unfolding read_peer
  read_peer-Keeps id = search keeps_rules depth 12

  announce_all-Keeps :
      (ids : List String) → Keeps station_cache (announce_all r sc i t j q read_endpoint ids)
  unfolding announce_all
  announce_all-Keeps [] = search keeps_rules
  announce_all-Keeps (id ∷ ids) =
      Keeps-bind _ _ _ (Keeps-on_world sc t j read_endpoint _ (read_peer-Keeps id))
        (λ p. Keeps-bind _ _ _ (publish-Keeps _ _) (λ _. announce_all-Keeps ids))

  handle-Keeps : (e : Input) → Keeps station_cache (handle r sc i t j q read_endpoint cfg e)
  unfolding handle broadcast
  handle-Keeps (message e) = Keeps-on_world sc t j read_endpoint _ (arm-Keeps t cfg e)
  handle-Keeps (tick now) = search (keeps_rules, Keeps-on_world, announce_all-Keeps) depth 12

  run-Keeps : (es : List Input) → Keeps station_cache (run r sc i t j q read_endpoint cfg es)
  unfolding run
  run-Keeps [] = search keeps_rules
  run-Keeps (e ∷ es) = Keeps-bind _ _ _ (handle-Keeps e) (λ _. run-Keeps es)

  -- Whatever the database, the service and the MQTT client do, and whether the main loop ends with an
  -- error or not: the texts of addresses in the cache stay pairwise distinct, and an address that the cache knows is
  -- looked up later with the same details, without asking the service.
  pub run-lookup_ipinfo :
      (es : List Input) (st : Station r i q) (ip : String) (d : IpDetails)
      → Distinct st.world.cache
      → cached ip st.world.cache ≡ some d
      → Distinct (run r sc i t j q read_endpoint cfg es st).1.world.cache
        × (lookup_ipinfo ip (run r sc i t j q read_endpoint cfg es st).1.world
            ≡ (ok (some d), (run r sc i t j q read_endpoint cfg es st).1.world))
  unfolding lookup_ipinfo cache_or_ask
  run-lookup_ipinfo es st ip d h e =
      let x = (run-Keeps es).at st in (x.distinct h, rw (x.found ip d e))
