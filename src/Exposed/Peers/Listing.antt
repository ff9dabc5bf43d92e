-- ===== src/Exposed/Peers/Listing.antt =====
-- exposed/src/main.rs: what `get_peers` and `peer_in_map` answer while no other program writes.
use ckb_discovery.Prelude.{
  contains, ℕ, ◌+◌, String, ◌≡◌, refl, true, ◌||◌, Option, none, some, List, [], ◌∷◌, ok, err,
  if◌then◌else◌, retain, map, is_some, Bool-cases, inl, inr,
}
use ckb_discovery.Types.{CkbNetworkType, mirana, pudge, dev}
use ckb_discovery.Keys.{
  online, online2, info, country, city, pos, full, last_seen, key_text, keys_to_peer_ids,
  reachable_keys_to_peer_ids,
}
use ckb_discovery.Redis.Reference.{Reply}
use ckb_discovery.Exposed.Exec.{
  Reader, Libraries, Peer, Outcome, done, panicked, present, pure, expect, call, call_text, panic,
  attempt, ◌>>=◌,
}
use ckb_discovery.Exposed.Info.{
  Details, get_peer_info, listed_peer, describe, version_short, text_or_none, or_empty, or_zero,
  latitude_of, longitude_of, then_read,
}
use ckb_discovery.Exposed.Peers.{
  Known, is_known, version_of, short_of, network_keys, rows, row, get_peers,
}

-- From `db` the server answers every command, and finds the same database after it: `listed` are the
-- keys that match a pattern, and `stored` is the
-- answer about a key.
pub record IsStill (r : Reader) (db : r.Db) : Type 0 where
  pub listed : String → List String
  pub stored : String → Reply (Option String)
  pub keys_lem : (pattern : String) → r.keys pattern db ≡ (ok (listed pattern), db)
  pub get_lem : (key : String) → r.get key db ≡ (stored key, db)

abbrev pub numbered : {A : Type 0} → ℕ → List A → List (ℕ × A)
numbered n [] = []
numbered n (a ∷ rest) = (n, a) ∷ numbered (n + 1) rest

module _ {r : Reader} (l : Libraries) {db : r.Db} (s : IsStill r db) where
  -- What is stored about a peer.
  abbrev pub details : String → Details l
  details id = record {
    country = text_or_none (s.stored (key_text (info country id)));
    city = text_or_none (s.stored (key_text (info city id)));
    latitude = latitude_of r l (text_or_none (s.stored (key_text (info pos id))));
    longitude = longitude_of r l (text_or_none (s.stored (key_text (info pos id))));
    full = then_read (text_or_none (s.stored (key_text (info full id)))) l.read_bool;
    timestamp =
        or_zero (then_read (text_or_none (s.stored (key_text (info last_seen id)))) l.read_u64);
  }

  get_peer_info_lem : (id : String) → get_peer_info r l id db ≡ (done (details id), db)
  unfolding get_peer_info ◌>>=◌ attempt pure
  get_peer_info_lem id = simp s.get_lem refl

  module _ (day : String → l.Date)
      (dates : (id : String) → l.date (details id).timestamp ≡ some (day id)) where
    pub describe_lem :
        (index : ℕ) (id version short : String)
        → describe r l index id version short db
          ≡ (done (listed_peer r l index version short (details id) (day id)), db)
    unfolding describe ◌>>=◌ expect pure
    describe_lem index id version short = rw (get_peer_info_lem id) (rw (dates id) refl)

  -- The peers that have a key of each kind.
  abbrev pub known : Known
  known = record {
    online = keys_to_peer_ids (s.listed "peer.online.*");
    online2 = keys_to_peer_ids (s.listed "peer.online2.*");
    unknown = keys_to_peer_ids (s.listed "peer.unknown.*");
  }

  abbrev pub version_at : String → String
  version_at id =
      if contains known.online id
      then or_empty (text_or_none (s.stored (key_text (online id))))
      else if contains known.online2 id
      then or_empty (text_or_none (s.stored (key_text (online2 id))))
      else ""

  abbrev pub short_at : String → String
  short_at id =
      if contains known.online id || contains known.online2 id
      then version_short r l (version_at id)
      else "Unknown"

  -- A key that is listed holds a text.
  pub record IsFilled : Type 0 where
    pub online_lem :
        (id : String)
        → contains known.online id ≡ true
        → is_some (text_or_none (s.stored (key_text (online id)))) ≡ true
    pub online2_lem :
        (id : String)
        → contains known.online2 id ≡ true
        → is_some (text_or_none (s.stored (key_text (online2 id)))) ≡ true

  present_lem :
      (o : Reply (Option String))
      → is_some (text_or_none o) ≡ true
      → present o ≡ ok (or_empty (text_or_none o))
  present_lem (ok none) h = cc
  present_lem (ok (some v)) h = refl
  present_lem (err e) h = cc

  module _ (filled : IsFilled) where
    version_of_lem : (id : String) → version_of r l known id db ≡ (done (version_at id), db)
    unfolding version_of call_text pure
    version_of_lem id = elim (Bool-cases (contains known.online id)) [
      | inl e ↦ rw e (rw (s.get_lem) (rw (present_lem _ (filled.online_lem id e)) refl))
      | inr e ↦ rw e (elim (Bool-cases (contains known.online2 id)) [
        | inl f ↦ rw f (rw (s.get_lem) (rw (present_lem _ (filled.online2_lem id f)) refl))
        | inr f ↦ rw f refl
      ])
    ]

    module _ (day : String → l.Date)
        (dates : (id : String) → l.date (details id).timestamp ≡ some (day id)) where
      abbrev pub row_at : ℕ × String → Peer l
      row_at (index, id) = listed_peer r l index (version_at id) (short_at id) (details id) (day id)

      row_lem :
          (index : ℕ) (id : String) → row r l known index id db ≡ (done (row_at (index, id)), db)
      unfolding row ◌>>=◌ short_of
      row_lem index id =
          rw (version_of_lem id) (describe_lem day dates index id (version_at id) (short_at id))

      rows_lem :
          (index : ℕ) (ids : List String)
          → rows r l known index ids db
            ≡ (done (map row_at (retain (λ p. is_known known p.1) (numbered index ids))), db)
      unfolding rows ◌>>=◌ pure
      rows_lem index [] = refl
      rows_lem index (id ∷ ids) = elim (Bool-cases (is_known known id)) [
        | inl e ↦ rw e (rw (row_lem index id) (rw (rows_lem (index + 1) ids) refl))
        | inr e ↦ rw e (rows_lem (index + 1) ids)
      ]

      -- The peers of a network: those with a key of the network, if every such key has two parts.
      abbrev pub ids_of : CkbNetworkType → Option (List String)
      ids_of mirana = reachable_keys_to_peer_ids (s.listed "network.peer.*.mirana")
      ids_of pudge = reachable_keys_to_peer_ids (s.listed "network.peer.*.pudge")
      ids_of dev = none

      abbrev pub table : Option (List String) → Outcome (List (Peer l))
      table none = panicked
      table (some ids) = done (map row_at (retain (λ p. is_known known p.1) (numbered 0 ids)))

      by_ids :
          (ids : Option (List String))
          → (expect ids >>= (λ peer_ids. call (r.keys "peer.online.*") >>= (λ ons.
                call (r.keys "peer.online2.*") >>= (λ ons2.
                  call (r.keys "peer.unknown.*") >>= (λ unknowns.
                    rows r l
                      (record {
                        online = keys_to_peer_ids ons;
                        online2 = keys_to_peer_ids ons2;
                        unknown = keys_to_peer_ids unknowns;
                      })
                      0
                      peer_ids)))))
              db
            ≡ (table ids, db)
      unfolding ◌>>=◌ expect call
      by_ids none = refl
      by_ids (some ids) = rw s.keys_lem (rw s.keys_lem (rw s.keys_lem (rows_lem 0 ids)))

      -- While no other program writes, the server answers, listed keys hold texts and dates are in
      -- range, `get_peers` panics on the development network and on a key of the network that has
      -- one part only. Else it returns, in the order of the network's keys and numbered by it, one
      -- row for each peer that has an online, ex-online or unknown key, and none for the others; the
      -- row holds what is stored about the peer.
      pub get_peers_lem :
          (network : CkbNetworkType) → get_peers r l network db ≡ (table (ids_of network), db)
      unfolding get_peers network_keys ◌>>=◌ call panic
      get_peers_lem mirana = rw s.keys_lem (by_ids (ids_of mirana))
      get_peers_lem pudge = rw s.keys_lem (by_ids (ids_of pudge))
      get_peers_lem dev = refl
