-- ===== src/Marci/Named.antt =====
-- marci/src/main.rs: the main loop writes only the program's own keys, about peers whose ids have no dot as
-- long as the messages are about such peers.
use ckb_discovery.Prelude.{
  ℕ, String, ◌≡◌, sym, true, Option, none, some, List, [], ◌∷◌, ok, err, All,
}
use ckb_discovery.Prelude.Texts.{NoDot}
use ckb_discovery.Types.{EndpointInfo, NodeMetaInfo, PeerInfo}
use ckb_discovery.Keys.{last_update}
use mathlib.Core.Path.{subst}
use ckb_discovery.Redis.{Redis, IsServer, reference}
use ckb_discovery.Redis.Scan.{Scans, IsScan}
use ckb_discovery.Marci.Refines.{abstract}
use ckb_discovery.Marci.Simulation.{arm-Refines}
use ckb_discovery.Marci.Ingest.{Json}
use ckb_discovery.Marci.Broadcast.{Mqtt, Station, Input, message, tick, on_world, handle, run}
use ckb_discovery.Marci.BroadcastSpec.{dated, broadcast_lem}
use ckb_discovery.Redis.Reference.{View, Reply}
use ckb_discovery.Marci.Exec.{Config, IpDetails, IpInfo, Texts, World, Act, pure, continue, ◌>>=◌}
use ckb_discovery.Marci.Lookup.{
  lookup_ipinfo, query_by_reachable, query_by_ip, cached, cache_or_ask, keep_answer,
}
use ckb_discovery.Marci.Arms.{
  set_location, mark_online, record_address, online_arm, promote, judge, unknown_arm, add_addresses,
  locate, reachable_arm, Event, online_event, unknown_event, reachable_event, wait, rest_for, arm,
}
use ckb_discovery.Marci.Names.{
  AreNamed, put-AreNamed, elapse-AreNamed, Names, Names-bind, Names-pure, names_rules,
}

-- The messages about peers whose ids have no dot.
abbrev pub DotlessEvent : Event → Type 0
DotlessEvent (online_event now peer) = NoDot peer.info.peer_id
DotlessEvent (unknown_event now peer) = NoDot peer.peer_id
DotlessEvent (reachable_event now later msg) = NoDot msg.peer.peer_id
DotlessEvent (wait n) = Unit

module _ {i : IpInfo} (t : Texts) (cfg : Config) where
  keep_answer-AreNamed :
      (ip : String) (w : World reference i) (answer : Option IpDetails × i.Service)
      → AreNamed w.db
      → AreNamed (keep_answer ip w answer).1.db
  unfolding keep_answer
  keep_answer-AreNamed ip w (none, service) h = h
  keep_answer-AreNamed ip w (some d, service) h = h

  cache_or_ask-AreNamed :
      (ip : String) (w : World reference i) (found : Option IpDetails)
      → AreNamed w.db
      → AreNamed (cache_or_ask ip w found).1.db
  unfolding cache_or_ask
  cache_or_ask-AreNamed ip w (some d) h = h
  cache_or_ask-AreNamed ip w none h = keep_answer-AreNamed ip w (i.lookup ip w.service) h

  lookup_ipinfo-Names : (ip : String) → Names {i = i} (lookup_ipinfo ip)
  unfolding lookup_ipinfo
  lookup_ipinfo-Names ip = record { at = λ w h. cache_or_ask-AreNamed ip w (cached ip w.cache) h }

  query_by_reachable-Names :
      (addrs : List EndpointInfo) → Names {i = i} (query_by_reachable t addrs)
  unfolding query_by_reachable
  query_by_reachable-Names [] = search names_rules
  query_by_reachable-Names (addr ∷ addrs) =
      Names-bind _ _ (lookup_ipinfo-Names (t.show_ip addr.address))
        (elim [ some d ↦ Names-pure (some d) | none ↦ query_by_reachable-Names addrs ])

  query_by_ip-Names : (addr : EndpointInfo) → Names {i = i} (query_by_ip t addr)
  unfolding query_by_ip
  query_by_ip-Names addr = lookup_ipinfo-Names (t.show_ip addr.address)

  set_location-Names :
      (id : String) (d : Option IpDetails)
      → NoDot id
      → Names {i = i} (set_location reference i t cfg id d)
  unfolding set_location
  set_location-Names id none dots = search names_rules
  set_location-Names id (some d) dots = search names_rules depth 14

  mark_online-Names :
      (peer : PeerInfo) (found : Reply String)
      → NoDot peer.info.peer_id
      → Names {i = i} (mark_online reference i t cfg peer found)
  unfolding mark_online
  mark_online-Names peer (ok v) dots = search names_rules
  mark_online-Names peer (err e) dots = search names_rules

  record_address-Names :
      (id : String) (addr : Option EndpointInfo)
      → NoDot id
      → Names {i = i} (record_address reference i t cfg id addr)
  unfolding record_address
  record_address-Names id none dots = search names_rules
  record_address-Names id (some addr) dots =
      search (names_rules, query_by_ip-Names, set_location-Names) depth 12

  judge-Names :
      (id : String) (found : Reply String)
      → NoDot id
      → Names {i = i} (judge reference i t cfg id found)
  unfolding judge promote
  judge-Names id (ok v) dots = search names_rules
  judge-Names id (err e) dots = search names_rules depth 14

  add_addresses-Names :
      (id : String) (addrs : List EndpointInfo)
      → NoDot id
      → Names {i = i} (add_addresses reference i t cfg id addrs)
  unfolding add_addresses
  add_addresses-Names id [] dots = search names_rules
  add_addresses-Names id (addr ∷ addrs) dots =
      Names-bind _ _ (search names_rules) (λ _. add_addresses-Names id addrs dots)

  locate-Names :
      (peer : NodeMetaInfo) (known : String)
      → NoDot peer.peer_id
      → Names {i = i} (locate reference i t cfg peer known)
  unfolding locate
  locate-Names peer known dots = search (names_rules, query_by_reachable-Names, set_location-Names)

  pub arm-Names : (e : Event) → DotlessEvent e → Names {i = i} (arm reference i t cfg e)
  unfolding arm online_arm unknown_arm reachable_arm rest_for
  arm-Names (online_event now peer) dots =
      search (names_rules, mark_online-Names, record_address-Names) depth 18
  arm-Names (unknown_event now peer) dots = search (names_rules, judge-Names) depth 14
  arm-Names (reachable_event now later msg) dots =
      search (names_rules, add_addresses-Names, locate-Names) depth 22
  arm-Names (wait n) dots = record { at = λ w h. elapse-AreNamed n w.db h }

abbrev pub DotlessInput : Input → Type 0
DotlessInput (message e) = DotlessEvent e
DotlessInput (tick now) = Unit

dated-AreNamed :
    (t : Texts) (now : ℕ) (o : Reply (Unit {0})) (v : View)
    → AreNamed v
    → AreNamed (dated t now o v)
dated-AreNamed t now (ok _) v h = put-AreNamed last_update _ v tt h
dated-AreNamed t now (err _) v h = h

module _ {r : Redis} {s : IsServer r} {sc : Scans r} (x : IsScan s sc)
    (read_endpoint : String → Option EndpointInfo) {i : IpInfo} (t : Texts) (j : Json)
    (q : Mqtt j.Text) (cfg : Config) where
  -- The server answers, and the keys are the program's.
  pub record KeepsNames (st : Station r i q) : Type 0 where
    pub named : AreNamed (s.view st.world.db)
    pub still : s.alive st.world.db ≡ true

  handle-KeepsNames :
      (e : Input) (st : Station r i q)
      → DotlessInput e
      → KeepsNames st
      → KeepsNames (handle r sc i t j q read_endpoint cfg e st).1
  unfolding handle on_world
  handle-KeepsNames (message e) st dots h =
      let a = (arm-Refines s t cfg e).at st.world h.still in
      record {
        named =
            subst (λ (w : World reference i). AreNamed w.db) (sym a.world)
              ((arm-Names t cfg e dots).at (abstract s st.world) h.named);
        still = a.still;
      }
  handle-KeepsNames (tick now) st dots h =
      let b = broadcast_lem x read_endpoint t j q now st h.still in
      record { named = rw b.stored (dated-AreNamed t now _ _ h.named); still = b.still }

  continue-KeepsNames :
      (o : Reply (Unit {0})) (st : Station r i q) (m : Act (Station r i q) (Unit {0}))
      → KeepsNames st
      → (KeepsNames st → KeepsNames (m st).1)
      → KeepsNames (continue o st (λ _. m)).1
  continue-KeepsNames (ok u) st m h k = k h
  continue-KeepsNames (err e) st m h k = h

  -- On a server that answers, and as long as the messages are about peers whose ids have no dot: the
  -- main loop, also when it ends with an error, leaves under the program's keys about such peers what is
  -- stored, and nothing under other keys, if it was so before.
  pub run-KeepsNames :
      (es : List Input) (st : Station r i q)
      → All DotlessInput es
      → KeepsNames st
      → KeepsNames (run r sc i t j q read_endpoint cfg es st).1
  unfolding run ◌>>=◌ pure
  run-KeepsNames [] st dots h = h
  run-KeepsNames (e ∷ es) st (d, ds) h =
      continue-KeepsNames _ _ (run r sc i t j q read_endpoint cfg es) (handle-KeepsNames e st d h)
        (λ k. run-KeepsNames es (handle r sc i t j q read_endpoint cfg e st).1 ds k)
