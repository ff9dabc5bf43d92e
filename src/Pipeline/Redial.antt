-- ===== src/Pipeline/Redial.antt =====
-- marci/src/main.rs and src/main.rs: a peer that one dialer announces is published to all of them at the
-- next tick, and dialled.
use ckb_discovery.Prelude.{
  ℕ, String, ◌≡◌, ◌≢◌, refl, sym, ◌∙◌, true, false, Option, some, eq_refl, is_some, map, Elem,
  contains-Elem, Elem-contains, Elem-map,
}
use mathlib.Core.Path.{subst}
use ckb_discovery.Prelude.Texts.{NoDot}
use ckb_discovery.Types.{
  CkbNetworkType, dev, is_loopback, EndpointInfo, NodeMetaInfo, ReachableInfo,
}
use ckb_discovery.Types.Names.{from_string-into_str}
use ckb_discovery.Keys.{reachable, info, ip, network, key_text}
use ckb_discovery.Keys.Laws.{is_reachable}
use ckb_discovery.Compress.{Bytes}
use ckb_discovery.Multiaddr.{P2p}
use ckb_discovery.Network.{multiaddr_text}
use ckb_discovery.Network.Public.{Elem-meta_info_to_addr}
use ckb_discovery.Dialer.{dial_on, on_message}
use ckb_discovery.Dialer.Dials.{Elem-present, Elem-dials_of, on_message_lem}
use ckb_discovery.Redis.{Redis, IsServer}
use ckb_discovery.Redis.Scan.{Scans, IsScan, is_member}
use ckb_discovery.Marci.Exec.{Config, IpInfo, Texts, World}
use ckb_discovery.Marci.Arms.{reachable_arm}
use ckb_discovery.Marci.Simulation.{reachable_arm-Refines}
use ckb_discovery.Marci.Typed.{IsTyped}
use ckb_discovery.Marci.Spec.{at}
use ckb_discovery.Marci.ReachableSpec.{reachable_arm_lem}
use ckb_discovery.Marci.Witnesses.{
  is_member-grown, is_member-grown_all, is_member-Set, Elem-valid_endpoints,
}
use ckb_discovery.Marci.BroadcastSpec.{stored_record, reachable_records}
use ckb_discovery.Pipeline.Listed.{listed_peer_id}

module _ {r : Redis} {s : IsServer r} {sc : Scans r} (x : IsScan s sc)
    (read_endpoint : String → Option EndpointInfo) {i : IpInfo} (t : Texts) (cfg : Config)
    (now later : ℕ) (msg : ReachableInfo) (w : World r i) (alive : s.alive w.db ≡ true)
    (typed : IsTyped (s.view w.db)) where
  abbrev pub id : String
  id = msg.peer.peer_id

  -- The database after the report.
  abbrev pub db : r.Db
  db = (reachable_arm r i t cfg now later msg w).1.db

  pub still : s.alive db ≡ true
  still = ((reachable_arm-Refines s t cfg now later msg).at w alive).still

  is_witness : (is_some (at (s.view db) (reachable id)) ≡ true)
  is_witness = rw ((reachable_arm_lem s t cfg now later msg w (reachable id) alive typed).1) (
      rw (eq_refl id)
        (is_member-Set _ msg.from.peer_id (
          rw (is_member-grown msg.from.peer_id _ msg.from.peer_id (typed.at (reachable id)))
            (rw (eq_refl msg.from.peer_id) refl))).0)

  is_published :
      NoDot id → Elem (stored_record x read_endpoint db id) (reachable_records x read_endpoint db)
  is_published dots =
      Elem-map (stored_record x read_endpoint db) id _
        (listed_peer_id x db still is_reachable id dots is_witness)

  stored_network : (stored_record x read_endpoint db id).network ≡ msg.peer.network
  stored_network =
      rw ((reachable_arm_lem s t cfg now later msg w (info network id) alive typed).1)
        (rw (eq_refl id) ((from_string-into_str msg.peer.network).0))

  is_address :
      (e : EndpointInfo)
      → Elem e msg.peer.addresses
      → is_member (at (s.view db) (info ip id)) (t.endpoint_json e) ≡ true
  is_address e h = rw ((reachable_arm_lem s t cfg now later msg w (info ip id) alive typed).1) (
      rw (eq_refl id) (
        rw (is_member-grown_all t msg.peer.addresses _ (t.endpoint_json e) (typed.at (info ip id)))
          (rw
            (Elem-contains (t.endpoint_json e) (map t.endpoint_json msg.peer.addresses)
              (Elem-map t.endpoint_json e msg.peer.addresses h))
            refl)))

  is_stored :
      (e : EndpointInfo)
      → read_endpoint (t.endpoint_json e) ≡ some e
      → Elem e msg.peer.addresses
      → Elem e (stored_record x read_endpoint db id).addresses
  is_stored e round h = rw ((is_member-Set _ (t.endpoint_json e) (is_address e h)).1) (
      Elem-valid_endpoints t read_endpoint e _ round (
        contains-Elem (t.endpoint_json e) _
          (x.member_lem (key_text (info ip id)) (t.endpoint_json e) db still ∙ is_address e h)))

  module _ (p : P2p) (from_slice : Bytes → Option NodeMetaInfo) where
    -- On a server that answers, whose keys hold what the program keeps under them: after the report of a
    -- reachable peer whose id has no dot, the records that a tick publishes have one with the peer's id
    -- and network, and for each address of the report that is no loopback one, whose JSON is read back
    -- and whose multiaddress parses, a dialer that reads this record dials the address on the peer's
    -- network, unless this is the development network.
    pub redial :
        (e : EndpointInfo) (addr : p.Multiaddr) (bytes : Bytes)
        → NoDot id
        → read_endpoint (t.endpoint_json e) ≡ some e
        → Elem e msg.peer.addresses
        → is_loopback e.address ≡ false
        → p.parse (multiaddr_text p e id) ≡ some addr
        → msg.peer.network ≢ dev
        → from_slice bytes ≡ some (stored_record x read_endpoint db id)
        → Elem (stored_record x read_endpoint db id) (reachable_records x read_endpoint db)
          × (((stored_record x read_endpoint db id).peer_id ≡ id)
              × ((stored_record x read_endpoint db id).network ≡ msg.peer.network))
          × Elem
              (dial_on msg.peer.network addr)
              (on_message p from_slice
                (some (record { topic = "peer/needs_dial"; payload = bytes }))).1
    redial e addr bytes dots round m public parses known read = (
      is_published dots,
      (refl, stored_network),
      subst
          (λ (n : CkbNetworkType).
            Elem (dial_on n addr)
              (on_message p from_slice
                (some (record { topic = "peer/needs_dial"; payload = bytes }))).1)
          stored_network
          (rw (on_message_lem p from_slice bytes (stored_record x read_endpoint db id) read) (
            Elem-dials_of p from_slice (stored_record x read_endpoint db id).network _ addr
              (λ f. known (sym stored_network ∙ f))
              (Elem-present p from_slice _ addr (
                rw parses at (
                  Elem-meta_info_to_addr p (stored_record x read_endpoint db id) e public
                    (is_stored e round m)))))),
    )
