-- ===== src/Marci/Arms.antt =====
-- marci/src/main.rs: the arms of `select!` for the three channels.
use ckb_discovery.Prelude.{
  ℕ, String, Option, none, some, List, [], ◌∷◌, ok, err, str_eq, leb, if◌then◌else◌,
}
use ckb_discovery.Types.{into_str, EndpointInfo, NodeMetaInfo, ReachableInfo, PeerInfo}
use ckb_discovery.Keys.{
  online, online2, online_ip, reachable, unknown, info, network_quick, last_update, last_seen, ip,
  country, city, region, full, pos, network, key_text,
}
use ckb_discovery.Redis.{Redis}
use ckb_discovery.Redis.Reference.{Reply}
use ckb_discovery.Marci.Exec.{
  Config, IpDetails, IpInfo, Texts, M, pure, call, attempt, to_i64, unwrap_or, ◌>>=◌, ◌>>◌,
}
use ckb_discovery.Marci.Lookup.{query_by_reachable, query_by_ip}

abbrev pub first : List EndpointInfo → Option EndpointInfo
first [] = none
first (e ∷ _) = some e

-- What reaches the main loop: a message of one of the three channels, or nothing for some seconds.
pub data Event : Type 0 where
  online_event : (now : ℕ) → PeerInfo → Event
  unknown_event : (now : ℕ) → NodeMetaInfo → Event
  reachable_event : (now later : ℕ) → ReachableInfo → Event
  wait : ℕ → Event

module _ (r : Redis) (i : IpInfo) (t : Texts) (cfg : Config) where
  abbrev pub Arm : Type 0
  Arm = M r i (Unit {0})

  unfoldable pub set_location : String → Option IpDetails → Arm
  set_location id none = pure tt
  set_location id (some d) = do
    call (r.set (key_text (info country id)) d.country)
    call (r.set (key_text (info city id)) d.city)
    call (r.set (key_text (info region id)) d.region)
    call (r.set (key_text (info pos id)) d.loc)

  -- The ladder on the answer to GET of the online key.
  unfoldable pub mark_online : PeerInfo → Reply String → Arm
  mark_online peer (ok _) = do
    seconds ← to_i64 cfg.default_timeout
    call (r.expire (key_text (online peer.info.peer_id)) seconds)
  mark_online peer (err _) =
      if peer.is_ex
      then call (r.set_ex (key_text (online2 peer.info.peer_id)) peer.version cfg.default_timeout)
      else call (r.set_ex (key_text (online peer.info.peer_id)) peer.version cfg.default_timeout)

  unfoldable pub record_address : String → Option EndpointInfo → Arm
  record_address id none = pure tt
  record_address id (some addr) = do
    call (r.set_ex (key_text (online_ip id)) (t.endpoint_json addr) cfg.default_timeout)
    details ← query_by_ip t addr
    set_location id details

  -- `now` is the time in seconds that the arm reads.
  unfoldable pub online_arm : (now : ℕ) → PeerInfo → Arm
  unfolding mark_online record_address set_location
  online_arm now peer = do
    found ← attempt (call (r.get (key_text (online peer.info.peer_id))))
    mark_online peer found
    record_address peer.info.peer_id (first peer.info.addresses)
    call (r.set (key_text (info full peer.info.peer_id)) (t.show_bool peer.full))
    call (r.set (key_text (info last_seen peer.info.peer_id)) (t.show_u64 now))
    call (r.del (key_text (unknown peer.info.peer_id)))

  unfoldable pub promote : String → ℕ → Arm
  promote id witnesses =
      if leb cfg.default_witnesses witnesses
      then (do
        call (r.set_ex (key_text (unknown id)) "unknown" cfg.unknown_default_timeout)
        call (r.del (key_text (reachable id))))
      else pure tt

  unfoldable pub judge : String → Reply String → Arm
  judge id (ok _) = do
    seconds ← to_i64 cfg.default_timeout
    call (r.expire (key_text (online id)) seconds)
  judge id (err _) = do
    witnesses ← attempt (call (r.scard (key_text (reachable id))))
    promote id (unwrap_or 0 witnesses)

  unfoldable pub unknown_arm : (now : ℕ) → NodeMetaInfo → Arm
  unfolding judge promote
  unknown_arm now peer = do
    found ← attempt (call (r.get (key_text (online peer.peer_id))))
    judge peer.peer_id found
    call (r.set (key_text (info last_seen peer.peer_id)) (t.show_u64 now))

  unfoldable pub add_addresses : String → List EndpointInfo → Arm
  add_addresses id [] = pure tt
  add_addresses id (addr ∷ addrs) = do
    call (r.sadd (key_text (info ip id)) (t.endpoint_json addr))
    add_addresses id addrs

  unfoldable pub locate : NodeMetaInfo → String → Arm
  locate peer known =
      if str_eq known ""
      then (do details ← query_by_reachable t peer.addresses; set_location peer.peer_id details)
      else pure tt

  -- `now` and `later` are the two times that the arm reads.
  unfoldable pub reachable_arm : (now later : ℕ) → ReachableInfo → Arm
  unfolding add_addresses locate into_str
  reachable_arm now later msg = do
    call (r.sadd (key_text (reachable msg.peer.peer_id)) msg.from.peer_id)
    call (r.set (key_text (network_quick msg.peer.peer_id msg.peer.network)) "0")
    add_addresses msg.peer.peer_id msg.peer.addresses
    call (r.set (key_text (info network msg.peer.peer_id)) (into_str msg.peer.network))
    call (r.set (key_text (info last_seen msg.peer.peer_id)) (t.show_u64 now))
    stored ← attempt (call (r.get (key_text (info country msg.peer.peer_id))))
    locate msg.peer (unwrap_or "" stored)
    attempt (call (r.set (key_text last_update) (t.show_u64 later)))
    pure tt

  unfoldable pub rest_for : ℕ → Arm
  rest_for n w = (ok tt, record w { db = r.elapse n w.db })

  unfoldable pub arm : Event → Arm
  arm (online_event now peer) = online_arm now peer
  arm (unknown_event now peer) = unknown_arm now peer
  arm (reachable_event now later msg) = reachable_arm now later msg
  arm (wait n) = rest_for n

  -- The loop; the error of an arm ends it.
  unfoldable pub serve : List Event → Arm
  serve [] = pure tt
  serve (e ∷ es) = do arm e; serve es
