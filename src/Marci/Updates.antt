-- ===== src/Marci/Updates.antt =====
-- marci/src/main.rs: the updates of the database that the online arm makes, on the reference map.
use ckb_discovery.Prelude.{
  ℕ, String, ◌≡◌, refl, Bool, true, false, Option, none, some, List, ◌∷◌, ok, err, Bool-cases, inl,
  inr,
}
use ckb_discovery.Types.{EndpointInfo, PeerInfo}
use ckb_discovery.Keys.{
  online, online2, online_ip, unknown, info, last_seen, country, city, region, full, pos, key_text,
}
use ckb_discovery.Redis.{reference}
use ckb_discovery.Redis.Reference.{is_time, View, Reply, plain, lasting, refreshed, put}
use ckb_discovery.Marci.Exec.{
  Config, IpDetails, IpInfo, Texts, World, pure, call, attempt, to_i64, ◌>>=◌,
}
use ckb_discovery.Marci.Lookup.{cached, lookup_ipinfo, cache_or_ask, keep_answer, query_by_ip}
use ckb_discovery.Marci.Arms.{first, set_location, mark_online, record_address, online_arm}
use ckb_discovery.Marci.Typed.{fits_i64, taken}
use ckb_discovery.Marci.Spec.{at, is_ok, is_online}

module _ (i : IpInfo) where
  -- The answer to a query: the cached one, or else the service's.
  abbrev pub answer_or : String → i.Service → Option IpDetails → Option IpDetails
  answer_or host service (some d) = some d
  answer_or host service none = (i.lookup host service).0

  keep_answer_lem :
      (host : String) (w : World reference i) (answer : Option IpDetails × i.Service)
      → (c : List (String × IpDetails)) × (u : i.Service) × (keep_answer host w answer
          ≡ (ok answer.0, record w { cache = c; service = u }))
  unfolding keep_answer
  keep_answer_lem host w (none, u) = (w.cache, u, refl)
  keep_answer_lem host w (some d, u) = ((host, d) ∷ w.cache, u, refl)

  cache_or_ask_lem :
      (host : String) (w : World reference i) (found : Option IpDetails)
      → (c : List (String × IpDetails)) × (u : i.Service) × (cache_or_ask host w found
          ≡ (ok (answer_or host w.service found), record w { cache = c; service = u }))
  unfolding cache_or_ask
  cache_or_ask_lem host w (some d) = (w.cache, w.service, refl)
  cache_or_ask_lem host w none = keep_answer_lem host w (i.lookup host w.service)

  -- What is known about the first address of a peer.
  abbrev pub located : Texts → World reference i → Option EndpointInfo → Option IpDetails
  located t w none = none
  located t w (some addr) =
      answer_or (t.show_ip addr.address) w.service (cached (t.show_ip addr.address) w.cache)

abbrev pub place : String → Option IpDetails → View → View
place id none v = v
place id (some d) v = put (key_text (info pos id)) (plain d.loc) (
    put (key_text (info region id)) (plain d.region) (
      put (key_text (info city id)) (plain d.city)
        (put (key_text (info country id)) (plain d.country) v)))

module _ (t : Texts) (cfg : Config) where
  abbrev pub addressed : String → Option EndpointInfo → View → View
  addressed id none v = v
  addressed id (some addr) v =
      put (key_text (online_ip id)) (lasting (t.endpoint_json addr) cfg.default_timeout) v

  abbrev pub marked : PeerInfo → (on ex : Bool) → View → View
  marked peer true ex v =
      put (key_text (online peer.info.peer_id))
        (refreshed cfg.default_timeout (at v (online peer.info.peer_id))) v
  marked peer false true v =
      put (key_text (online2 peer.info.peer_id)) (lasting peer.version cfg.default_timeout) v
  marked peer false false v =
      put (key_text (online peer.info.peer_id)) (lasting peer.version cfg.default_timeout) v

  abbrev pub noted : PeerInfo → (now : ℕ) → View → View
  noted peer now v = put (key_text (unknown peer.info.peer_id)) none (
      put (key_text (info last_seen peer.info.peer_id)) (plain (t.show_u64 now))
        (put (key_text (info full peer.info.peer_id)) (plain (t.show_bool peer.full)) v))

module _ {i : IpInfo} (t : Texts) (cfg : Config) where
  pub set_location_lem :
      (id : String) (d : Option IpDetails) (w : World reference i)
      → set_location reference i t cfg id d w ≡ (ok tt, record w { db = place id d w.db })
  unfolding set_location ◌>>=◌ call pure
  set_location_lem id none w = refl
  set_location_lem id (some d) w = refl

  module _ (lasts : is_time cfg.default_timeout ≡ true) where
    record_address_lem :
        (id : String) (addr : Option EndpointInfo) (w : World reference i)
        → (c : List (String × IpDetails)) × (u : i.Service) × (record_address reference i t cfg id
              addr w
            ≡ (
              ok tt,
              record w {
                db = place id (located i t w addr) (addressed t cfg id addr w.db);
                cache = c;
                service = u;
              },
            ))
    unfolding record_address query_by_ip lookup_ipinfo pure ◌>>=◌ call
    record_address_lem id none w = (w.cache, w.service, refl)
    record_address_lem id (some addr) w =
        let (c, u, e) =
          cache_or_ask_lem i (t.show_ip addr.address)
            (record w { db = addressed t cfg id (some addr) w.db })
            (cached (t.show_ip addr.address) w.cache) in
        (c, u, rw lasts (rw e (rw set_location_lem refl)))

    mark_online_lem :
        (peer : PeerInfo) (found : Reply String) (w : World reference i)
        → mark_online reference i t cfg peer found w
          ≡ (ok tt, record w { db = marked t cfg peer (is_ok found) peer.is_ex w.db })
    unfolding mark_online call to_i64 ◌>>=◌
    mark_online_lem peer (ok s) w =
        rw (fits_i64 cfg.default_timeout lasts) (rw (taken cfg.default_timeout lasts) refl)
    mark_online_lem peer (err e) w = elim (Bool-cases peer.is_ex) [
      | inl x ↦ rw x (rw lasts refl)
      | inr x ↦ rw x (rw lasts refl)
    ]

    pub online_arm-reference :
        (now : ℕ) (peer : PeerInfo) (w : World reference i)
        → (c : List (String × IpDetails)) × (u : i.Service) × (online_arm reference i t cfg now peer
              w
            ≡ (
              ok tt,
              record w {
                db = noted t cfg peer now (
                    place peer.info.peer_id (located i t w (first peer.info.addresses)) (
                      addressed t cfg peer.info.peer_id
                        (first peer.info.addresses)
                        (marked t cfg peer (is_online w.db peer.info.peer_id) peer.is_ex w.db)));
                cache = c;
                service = u;
              },
            ))
    unfolding online_arm ◌>>=◌ call attempt
    online_arm-reference now peer w =
        let (c, u, e) = record_address_lem peer.info.peer_id (first peer.info.addresses) (record w {
          db = marked t cfg peer (is_online w.db peer.info.peer_id) peer.is_ex w.db;
        }) in
        (c, u, rw mark_online_lem (rw e refl))
