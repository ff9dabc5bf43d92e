-- ===== src/Marci/BroadcastSpec.antt =====
-- marci/src/main.rs: what the arm of the timer publishes and stores.
use ckb_discovery.Prelude.{
  ℕ, String, ◌≡◌, refl, true, Option, List, [], ◌∷◌, ok, err, if◌then◌else◌, map, arith,
}
use ckb_discovery.Types.{EndpointInfo, NodeMetaInfo, from_string}
use ckb_discovery.Keys.{info, last_update, ip, network, key_text, keys_to_peer_ids}
use ckb_discovery.Redis.{Redis, IsServer}
use ckb_discovery.Redis.Reference.{Reply, View, text_of, plain, put}
use ckb_discovery.Redis.Scan.{Scans, IsScan, is_text}
use ckb_discovery.Marci.Exec.{
  IpInfo, Texts, World, Act, continue, ◌>>◌, pure, call, attempt, unwrap_or, ◌>>=◌,
}
use ckb_discovery.Marci.Ingest.{Json}
use ckb_discovery.Marci.Spec.{at}
use ckb_discovery.Marci.Broadcast.{
  Mqtt, Station, valid_endpoints, on_world, publish, read_peer, announce_all, broadcast,
}

-- The publications of some records, in order, up to the first that fails.
unfoldable pub publish_each :
    (j : Json) (q : Mqtt j.Text) → List NodeMetaInfo → Act q.Client (Unit {0})
publish_each j q [] = pure tt
publish_each j q (p ∷ ps) = do
  q.publish "peer/needs_dial" (j.write_node_meta_info p)
  publish_each j q ps

-- The time of the update is stored if every record was published.
abbrev pub dated : Texts → (now : ℕ) → Reply (Unit {0}) → View → View
dated t now (ok _) v = put (key_text last_update) (plain (t.show_u64 now)) v
dated t now (err _) v = v

module _ {r : Redis} {s : IsServer r} {sc : Scans r} (x : IsScan s sc)
    (read_endpoint : String → Option EndpointInfo) where
  -- The texts of a set, and none where the key is missing or holds a text.
  abbrev pub members_at : String → r.Db → List String
  members_at key db = if is_text (s.view db key) then [] else x.members_of key db

  -- The stored record of a peer.
  abbrev pub stored_record : r.Db → String → NodeMetaInfo
  stored_record db id = record {
    peer_id = id;
    addresses = valid_endpoints read_endpoint (members_at (key_text (info ip id)) db);
    network = from_string (unwrap_or "" (text_of (at (s.view db) (info network id))));
  }

  -- The peers whose reachable key is listed, as they are stored.
  abbrev pub reachable_records : r.Db → List NodeMetaInfo
  reachable_records db = map (stored_record db) (keys_to_peer_ids (x.listed "peer.reachable.*" db))

  module _ {i : IpInfo} (t : Texts) (j : Json) (q : Mqtt j.Text) where
    read_peer_lem :
        (id : String) (w : World r i)
        → s.alive w.db ≡ true
        → read_peer r sc i t j q read_endpoint id w ≡ (ok (stored_record w.db id), w)
    unfolding read_peer ◌>>=◌ attempt call pure
    read_peer_lem id w alive = rw (x.smembers_lem (key_text (info ip id)) w.db alive) (
        rw (x.get_same (key_text (info network id)) w.db alive)
          (rw ((s.get_lem (key_text (info network id)) w.db alive).reply) (ground arith)))

    -- The rest of the loop after a publication.
    after_publish :
        (rest : Act (Station r i q) (Unit {0})) (ps : List NodeMetaInfo) (st : Station r i q)
        (p : Reply (Unit {0}) × q.Client)
        → ((c : q.Client)
            → rest (record st { client = c })
              ≡ ((publish_each j q ps c).0, record st { client = (publish_each j q ps c).1 }))
        → continue p.0 (record st { client = p.1 }) (λ _. rest) ≡ (
          (continue p.0 p.1 (λ _. publish_each j q ps)).0,
          record st { client = (continue p.0 p.1 (λ _. publish_each j q ps)).1 },
        )
    after_publish rest ps st (ok _, c) h = h c
    after_publish rest ps st (err e, c) h = refl

    announce_all_lem :
        (ids : List String) (st : Station r i q)
        → s.alive st.world.db ≡ true
        → announce_all r sc i t j q read_endpoint ids st ≡ (
          (publish_each j q (map (stored_record st.world.db) ids) st.client).0,
          record st {
            client = (publish_each j q (map (stored_record st.world.db) ids) st.client).1;
          },
        )
    unfolding announce_all ◌>>=◌ on_world publish publish_each pure
    announce_all_lem [] st alive = refl
    announce_all_lem (id ∷ ids) st alive = rw (read_peer_lem id st.world alive) (
        after_publish (announce_all r sc i t j q read_endpoint ids)
          (map (stored_record st.world.db) ids) st _
          (λ c. announce_all_lem ids (record st { client = c }) alive))

    -- The outcome and the client are those of the publications `p`.
    pub record Broadcasts (now : ℕ) (st : Station r i q) (p : Reply (Unit {0}) × q.Client)
        (o : Reply (Unit {0}) × Station r i q) : Type 0 where
      pub reply : o.0 ≡ p.0
      pub client : o.1.client ≡ p.1
      pub stored : s.view o.1.world.db ≡ dated t now p.0 (s.view st.world.db)
      pub still : s.alive o.1.world.db ≡ true

    finish_lem :
        (now : ℕ) (st : Station r i q) (p : Reply (Unit {0}) × q.Client)
        → s.alive st.world.db ≡ true
        → Broadcasts now st p (
            continue p.0
              (record st { client = p.1 })
              (λ _.
                on_world r sc i t j q read_endpoint
                  (attempt (call (r.set (key_text last_update) (t.show_u64 now))))
                >> pure tt))
    unfolding ◌>>=◌ on_world call attempt pure
    finish_lem now st (ok _, c) alive =
        let a = s.set_lem (key_text last_update) (t.show_u64 now) st.world.db alive in
        record { reply = refl; client = refl; stored = a.stored; still = a.still }
    finish_lem now st (err e, c) alive = record {
      reply = refl;
      client = refl;
      stored = refl;
      still = alive;
    }

    -- On a server that answers, a tick publishes, in the order of the listed keys, the stored record of
    -- each peer that has a reachable key, up to the first publication that fails, whose error ends the
    -- arm. If none fails, the time of the update is stored. Nothing else is stored.
    pub broadcast_lem :
        (now : ℕ) (st : Station r i q)
        → s.alive st.world.db ≡ true
        → Broadcasts now st
            (publish_each j q (reachable_records st.world.db) st.client)
            (broadcast r sc i t j q read_endpoint now st)
    unfolding broadcast ◌>>=◌ on_world call
    broadcast_lem now st alive = rw (x.keys_lem "peer.reachable.*" st.world.db alive) (
        rw (announce_all_lem (keys_to_peer_ids (x.listed "peer.reachable.*" st.world.db)) st alive)
          (finish_lem now st (publish_each j q (reachable_records st.world.db) st.client) alive))
