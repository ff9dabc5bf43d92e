-- ===== src/Marci/Alive.antt =====
-- marci/src/main.rs: no message ends the main loop, and what the keys hold keeps its shape.
use ckb_discovery.Prelude.{
  ℕ, String, ◌≡◌, refl, sym, ◌∙◌, true, Option, none, some, List, [], ◌∷◌, ok, err,
}
use mathlib.Core.Path.{subst}
use ckb_discovery.Types.{EndpointInfo, NodeMetaInfo, ReachableInfo, PeerInfo}
use ckb_discovery.Redis.{Redis, IsServer, reference}
use ckb_discovery.Redis.Reference.{is_time, Reply}
use ckb_discovery.Marci.Exec.{Config, IpDetails, IpInfo, Texts, World}
use ckb_discovery.Marci.Lookup.{
  lookup_ipinfo, query_by_reachable, query_by_ip, cached, cache_or_ask, keep_answer,
}
use ckb_discovery.Marci.Arms.{
  set_location, mark_online, record_address, online_arm, promote, judge, unknown_arm, add_addresses,
  locate, reachable_arm, Event, online_event, unknown_event, reachable_event, wait, rest_for, arm,
  serve,
}
use ckb_discovery.Marci.Refines.{abstract}
use ckb_discovery.Marci.Simulation.{serve_simulated, arm-Refines}
use ckb_discovery.Marci.Typed.{
  IsTyped, Succeeds, succeeds_rules, Succeeds-bind, Succeeds-pure, Succeeds-attempt,
  Succeeds-expire, elapse-IsTyped,
}

module _ {i : IpInfo} (t : Texts) (cfg : Config) (lasts : is_time cfg.default_timeout ≡ true)
    (unknown_lasts : is_time cfg.unknown_default_timeout ≡ true) where
  keep_answer-Succeeds :
      (ip : String) (w : World reference i) (answer : Option IpDetails × i.Service)
      → IsTyped w.db
      → (a : Option IpDetails) × ((keep_answer ip w answer).0 ≡ ok a)
        × IsTyped (keep_answer ip w answer).1.db
  unfolding keep_answer
  keep_answer-Succeeds ip w (none, service) h = (none, refl, h)
  keep_answer-Succeeds ip w (some d, service) h = (some d, refl, h)

  cache_or_ask-Succeeds :
      (ip : String) (w : World reference i) (found : Option IpDetails)
      → IsTyped w.db
      → (a : Option IpDetails) × ((cache_or_ask ip w found).0 ≡ ok a)
        × IsTyped (cache_or_ask ip w found).1.db
  unfolding cache_or_ask
  cache_or_ask-Succeeds ip w (some d) h = (some d, refl, h)
  cache_or_ask-Succeeds ip w none h = keep_answer-Succeeds ip w (i.lookup ip w.service) h

  lookup_ipinfo-Succeeds : (ip : String) → Succeeds {i = i} (lookup_ipinfo ip)
  unfolding lookup_ipinfo
  lookup_ipinfo-Succeeds ip = record {
    at = λ w h. cache_or_ask-Succeeds ip w (cached ip w.cache) h;
  }

  query_by_reachable-Succeeds :
      (addrs : List EndpointInfo) → Succeeds {i = i} (query_by_reachable t addrs)
  unfolding query_by_reachable
  query_by_reachable-Succeeds [] = search succeeds_rules
  query_by_reachable-Succeeds (addr ∷ addrs) =
      Succeeds-bind _ _ (lookup_ipinfo-Succeeds (t.show_ip addr.address))
        (elim [ some d ↦ Succeeds-pure (some d) | none ↦ query_by_reachable-Succeeds addrs ])

  query_by_ip-Succeeds : (addr : EndpointInfo) → Succeeds {i = i} (query_by_ip t addr)
  unfolding query_by_ip
  query_by_ip-Succeeds addr = lookup_ipinfo-Succeeds (t.show_ip addr.address)

  set_location-Succeeds :
      (id : String) (d : Option IpDetails) → Succeeds {i = i} (set_location reference i t cfg id d)
  unfolding set_location
  set_location-Succeeds id none = search succeeds_rules
  set_location-Succeeds id (some d) = search succeeds_rules depth 12

  mark_online-Succeeds :
      (peer : PeerInfo) (found : Reply String)
      → Succeeds {i = i} (mark_online reference i t cfg peer found)
  unfolding mark_online
  mark_online-Succeeds peer (ok v) = Succeeds-expire _ _ refl lasts
  mark_online-Succeeds peer (err e) = search (succeeds_rules, lasts)

  record_address-Succeeds :
      (id : String) (addr : Option EndpointInfo)
      → Succeeds {i = i} (record_address reference i t cfg id addr)
  unfolding record_address
  record_address-Succeeds id none = search succeeds_rules
  record_address-Succeeds id (some addr) =
      search (succeeds_rules, lasts, query_by_ip-Succeeds, set_location-Succeeds)

  online_arm-Succeeds :
      (now : ℕ) (peer : PeerInfo) → Succeeds {i = i} (online_arm reference i t cfg now peer)
  unfolding online_arm
  online_arm-Succeeds now peer =
      search (succeeds_rules, mark_online-Succeeds, record_address-Succeeds) depth 16

  promote-Succeeds : (id : String) (n : ℕ) → Succeeds {i = i} (promote reference i t cfg id n)
  unfolding promote
  promote-Succeeds id n = search (succeeds_rules, unknown_lasts)

  judge-Succeeds :
      (id : String) (found : Reply String) → Succeeds {i = i} (judge reference i t cfg id found)
  unfolding judge
  judge-Succeeds id (ok v) = Succeeds-expire _ _ refl lasts
  judge-Succeeds id (err e) = search (succeeds_rules, promote-Succeeds)

  unknown_arm-Succeeds :
      (now : ℕ) (peer : NodeMetaInfo) → Succeeds {i = i} (unknown_arm reference i t cfg now peer)
  unfolding unknown_arm
  unknown_arm-Succeeds now peer = search (succeeds_rules, judge-Succeeds) depth 12

  add_addresses-Succeeds :
      (id : String) (addrs : List EndpointInfo)
      → Succeeds {i = i} (add_addresses reference i t cfg id addrs)
  unfolding add_addresses
  add_addresses-Succeeds id [] = search succeeds_rules
  add_addresses-Succeeds id (addr ∷ addrs) =
      Succeeds-bind _ _ (search succeeds_rules) (λ _. add_addresses-Succeeds id addrs)

  locate-Succeeds :
      (peer : NodeMetaInfo) (known : String)
      → Succeeds {i = i} (locate reference i t cfg peer known)
  unfolding locate
  locate-Succeeds peer known =
      search (succeeds_rules, query_by_reachable-Succeeds, set_location-Succeeds)

  reachable_arm-Succeeds :
      (now later : ℕ) (msg : ReachableInfo)
      → Succeeds {i = i} (reachable_arm reference i t cfg now later msg)
  unfolding reachable_arm
  reachable_arm-Succeeds now later msg =
      search (succeeds_rules, Succeeds-attempt, add_addresses-Succeeds, locate-Succeeds) depth 20

  rest_for-Succeeds : (n : ℕ) → Succeeds {i = i} (rest_for reference i t cfg n)
  unfolding rest_for
  rest_for-Succeeds n = record { at = λ w h. (tt, refl, elapse-IsTyped n w.db h) }

  arm-Succeeds : (e : Event) → Succeeds {i = i} (arm reference i t cfg e)
  unfolding arm
  arm-Succeeds (online_event now peer) = online_arm-Succeeds now peer
  arm-Succeeds (unknown_event now peer) = unknown_arm-Succeeds now peer
  arm-Succeeds (reachable_event now later msg) = reachable_arm-Succeeds now later msg
  arm-Succeeds (wait n) = rest_for-Succeeds n

  serve-Succeeds : (es : List Event) → Succeeds {i = i} (serve reference i t cfg es)
  unfolding serve
  serve-Succeeds [] = search succeeds_rules
  serve-Succeeds (e ∷ es) = Succeeds-bind _ _ (arm-Succeeds e) (λ _. serve-Succeeds es)

  pub arm_alive :
      {r : Redis} (s : IsServer r) (e : Event) (w : World r i)
      → s.alive w.db ≡ true
      → IsTyped (s.view w.db)
      → ((arm r i t cfg e w).0 ≡ ok tt)
        × IsTyped (s.view (arm r i t cfg e w).1.db)
        × (s.alive (arm r i t cfg e w).1.db ≡ true)
  arm_alive s e w alive typed =
      let a = (arm-Refines s t cfg e).at w alive in
      let (u, o, h) = (arm-Succeeds e).at (abstract s w) typed in
      (a.reply ∙ o, subst (λ (x : World reference i). IsTyped x.db) (sym a.world) h, a.still)

  -- With timeouts that Redis takes (`is_time`), on a server that answers and whose keys hold what the program keeps
  -- under them: whatever the messages and the pauses between them, the main loop does not end with
  -- an error, the keys still hold what the program keeps under them, and the server still answers.
  serve_alive :
      {r : Redis} (s : IsServer r) (es : List Event) (w : World r i)
      → s.alive w.db ≡ true
      → IsTyped (s.view w.db)
      → ((serve r i t cfg es w).0 ≡ ok tt)
        × IsTyped (s.view (serve r i t cfg es w).1.db)
        × (s.alive (serve r i t cfg es w).1.db ≡ true)
  serve_alive s es w alive typed =
      let a = serve_simulated s t cfg es w alive in
      let (u, e, h) = (serve-Succeeds es).at (abstract s w) typed in
      (a.reply ∙ e, subst (λ (x : World reference i). IsTyped x.db) (sym a.world) h, a.still)
