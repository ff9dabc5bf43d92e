-- ===== src/Marci/Simulation.antt =====
-- marci/src/main.rs: each arm on a real server refines the arm on the reference map.
use ckb_discovery.Prelude.{ℕ, String, true, ◌≡◌, refl, Option, none, some, List, [], ◌∷◌, ok, err}
use ckb_discovery.Types.{EndpointInfo, NodeMetaInfo, ReachableInfo, PeerInfo}
use ckb_discovery.Redis.{Redis, IsServer, reference}
use ckb_discovery.Redis.Reference.{Reply}
use ckb_discovery.Marci.Exec.{Config, IpDetails, IpInfo, Texts, World}
use ckb_discovery.Marci.Lookup.{
  lookup_ipinfo, query_by_reachable, query_by_ip, cached, cache_or_ask, keep_answer,
}
use ckb_discovery.Marci.Arms.{
  set_location, mark_online, record_address, online_arm, promote, judge, unknown_arm, add_addresses,
  locate, reachable_arm, Event, online_event, unknown_event, reachable_event, wait, rest_for, arm,
  serve,
}
use ckb_discovery.Marci.Refines.{
  abstract, RefinesAt, Refines, refines_rules, Refines-bind, Refines-pure,
}

module _ {r : Redis} (s : IsServer r) {i : IpInfo} (t : Texts) (cfg : Config) where
  keep_answer-RefinesAt :
      (ip : String) (w : World r i) (answer : Option IpDetails × i.Service)
      → s.alive w.db ≡ true
      → RefinesAt s (keep_answer ip w answer) (keep_answer ip (abstract s w) answer)
  unfolding keep_answer
  keep_answer-RefinesAt ip w (none, service) h = record { reply = refl; world = refl; still = h }
  keep_answer-RefinesAt ip w (some d, service) h = record { reply = refl; world = refl; still = h }

  cache_or_ask-RefinesAt :
      (ip : String) (w : World r i) (found : Option IpDetails)
      → s.alive w.db ≡ true
      → RefinesAt s (cache_or_ask ip w found) (cache_or_ask ip (abstract s w) found)
  unfolding cache_or_ask
  cache_or_ask-RefinesAt ip w (some d) h = record { reply = refl; world = refl; still = h }
  cache_or_ask-RefinesAt ip w none h = keep_answer-RefinesAt ip w (i.lookup ip w.service) h

  lookup_ipinfo-Refines : (ip : String) → Refines s {i = i} (lookup_ipinfo ip) (lookup_ipinfo ip)
  unfolding lookup_ipinfo
  lookup_ipinfo-Refines ip = record {
    at = λ w h. cache_or_ask-RefinesAt ip w (cached ip w.cache) h;
  }

  query_by_reachable-Refines :
      (addrs : List EndpointInfo)
      → Refines s {i = i} (query_by_reachable t addrs) (query_by_reachable t addrs)
  unfolding query_by_reachable
  query_by_reachable-Refines [] = search refines_rules
  query_by_reachable-Refines (addr ∷ addrs) =
      Refines-bind s _ _ _ _ (lookup_ipinfo-Refines (t.show_ip addr.address))
        (elim [ some d ↦ Refines-pure s (some d) | none ↦ query_by_reachable-Refines addrs ])

  query_by_ip-Refines :
      (addr : EndpointInfo) → Refines s {i = i} (query_by_ip t addr) (query_by_ip t addr)
  unfolding query_by_ip
  query_by_ip-Refines addr = lookup_ipinfo-Refines (t.show_ip addr.address)

  set_location-Refines :
      (id : String) (d : Option IpDetails)
      → Refines s {i = i} (set_location r i t cfg id d) (set_location reference i t cfg id d)
  unfolding set_location
  set_location-Refines id none = search refines_rules
  set_location-Refines id (some d) = search (refines_rules, s.set_lem) depth 12

  mark_online-Refines :
      (peer : PeerInfo) (found : Reply String)
      → Refines s {i = i}
          (mark_online r i t cfg peer found)
          (mark_online reference i t cfg peer found)
  unfolding mark_online
  mark_online-Refines peer (ok v) = search (refines_rules, s.expire_lem)
  mark_online-Refines peer (err e) = search (refines_rules, s.set_ex_lem)

  record_address-Refines :
      (id : String) (addr : Option EndpointInfo)
      → Refines s {i = i}
          (record_address r i t cfg id addr)
          (record_address reference i t cfg id addr)
  unfolding record_address
  record_address-Refines id none = search refines_rules
  record_address-Refines id (some addr) =
      search (refines_rules, s.set_ex_lem, query_by_ip-Refines, set_location-Refines)

  -- On a server that answers, the online arm replies and stores what it does on the reference map.
  pub online_arm-Refines :
      (now : ℕ) (peer : PeerInfo)
      → Refines s (online_arm r i t cfg now peer) (online_arm reference i t cfg now peer)
  unfolding online_arm
  online_arm-Refines now peer =
      search
        (
          refines_rules, s.get_lem, s.set_lem, s.del_lem, mark_online-Refines,
          record_address-Refines,
        )
        depth 16

  promote-Refines :
      (id : String) (n : ℕ)
      → Refines s {i = i} (promote r i t cfg id n) (promote reference i t cfg id n)
  unfolding promote
  promote-Refines id n = search (refines_rules, s.set_ex_lem, s.del_lem)

  judge-Refines :
      (id : String) (found : Reply String)
      → Refines s {i = i} (judge r i t cfg id found) (judge reference i t cfg id found)
  unfolding judge
  judge-Refines id (ok v) = search (refines_rules, s.expire_lem)
  judge-Refines id (err e) = search (refines_rules, s.scard_lem, promote-Refines)

  -- On a server that answers, so does the unknown arm.
  pub unknown_arm-Refines :
      (now : ℕ) (peer : NodeMetaInfo)
      → Refines s (unknown_arm r i t cfg now peer) (unknown_arm reference i t cfg now peer)
  unfolding unknown_arm
  unknown_arm-Refines now peer =
      search (refines_rules, s.get_lem, s.set_lem, judge-Refines) depth 12

  add_addresses-Refines :
      (id : String) (addrs : List EndpointInfo)
      → Refines s {i = i}
          (add_addresses r i t cfg id addrs)
          (add_addresses reference i t cfg id addrs)
  unfolding add_addresses
  add_addresses-Refines id [] = search refines_rules
  add_addresses-Refines id (addr ∷ addrs) =
      Refines-bind s _ _ _ _ (search (refines_rules, s.sadd_lem))
        (λ _. add_addresses-Refines id addrs)

  locate-Refines :
      (peer : NodeMetaInfo) (known : String)
      → Refines s {i = i} (locate r i t cfg peer known) (locate reference i t cfg peer known)
  unfolding locate
  locate-Refines peer known =
      search (refines_rules, query_by_reachable-Refines, set_location-Refines)

  -- On a server that answers, so does the reachable arm.
  pub reachable_arm-Refines :
      (now later : ℕ) (msg : ReachableInfo)
      → Refines s
          (reachable_arm r i t cfg now later msg)
          (reachable_arm reference i t cfg now later msg)
  unfolding reachable_arm
  reachable_arm-Refines now later msg =
      search
        (refines_rules, s.get_lem, s.set_lem, s.sadd_lem, add_addresses-Refines, locate-Refines)
        depth 20

  rest_for-Refines :
      (n : ℕ) → Refines s {i = i} (rest_for r i t cfg n) (rest_for reference i t cfg n)
  unfolding rest_for
  rest_for-Refines n = record {
    at = λ w alive.
        let (stored, still) = s.elapse_lem n w.db alive in
        record {
          reply = refl;
          world = λ j. record { db = stored j; cache = w.cache; service = w.service };
          still = still;
        };
  }

  -- On a server that answers, so does every arm.
  pub arm-Refines : (e : Event) → Refines s {i = i} (arm r i t cfg e) (arm reference i t cfg e)
  unfolding arm
  arm-Refines (online_event now peer) = online_arm-Refines now peer
  arm-Refines (unknown_event now peer) = unknown_arm-Refines now peer
  arm-Refines (reachable_event now later msg) = reachable_arm-Refines now later msg
  arm-Refines (wait n) = rest_for-Refines n

  serve-Refines :
      (es : List Event) → Refines s {i = i} (serve r i t cfg es) (serve reference i t cfg es)
  unfolding serve
  serve-Refines [] = search refines_rules
  serve-Refines (e ∷ es) = Refines-bind s _ _ _ _ (arm-Refines e) (λ _. serve-Refines es)

  -- From a database from which the server answers, whatever messages come and however long nothing
  -- comes between them, the main loop has the outcome, the cache and the stored keys that it has on
  -- the reference map.
  pub serve_simulated :
      (es : List Event) (w : World r i)
      → s.alive w.db ≡ true
      → RefinesAt s (serve r i t cfg es w) (serve reference i t cfg es (abstract s w))
  serve_simulated es w alive = (serve-Refines es).at w alive
