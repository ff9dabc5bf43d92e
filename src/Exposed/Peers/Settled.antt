-- ===== src/Exposed/Peers/Settled.antt =====
-- exposed/src/main.rs: when `get_peers` does not panic while no other program writes.
use ckb_discovery.Prelude.{
  ℕ, ◌+◌, String, ◌≡◌, ◌≢◌, refl, Bool, true, false, Option, none, some, List, [], ◌∷◌, ok, err,
  is_some, contains, Bool-cases, inl, inr,
}
use ckb_discovery.Types.{CkbNetworkType, mirana, pudge, dev}
use ckb_discovery.Keys.{reachable_keys_to_peer_ids, keys_to_peer_ids}
use ckb_discovery.Redis.Reference.{Reply}
use ckb_discovery.Exposed.Exec.{
  Reader, Libraries, Outcome, done, refused, panicked, continue, outcome, S, expect, call,
  call_text, panic, pure, ◌>>=◌,
}
use ckb_discovery.Exposed.Peers.{
  Known, is_known, version_of, short_of, row, rows, network_keys, get_peers,
}
use ckb_discovery.Exposed.Peers.Listing.{IsStill, details, describe_lem}

-- The pattern of a network's keys.
abbrev pub key_pattern : CkbNetworkType → String
key_pattern mirana = "network.peer.*.mirana"
key_pattern pudge = "network.peer.*.pudge"
key_pattern dev = ""

-- No panic.
abbrev pub settles : {A : Type 0} → Outcome A → Bool
settles panicked = false
settles _ = true

settles-outcome : {A : Type 0} (o : Reply A) → settles (outcome o) ≡ true
settles-outcome (ok a) = refl
settles-outcome (err e) = refl

pub settles-panicked : {A : Type 0} (o : Outcome A) → settles o ≡ true → o ≢ panicked
settles-panicked (done a) h k = cc k
settles-panicked (refused e) h k = cc k
settles-panicked panicked h k = cc h

module _ {r : Reader} (l : Libraries) {db : r.Db} (s : IsStill r db) (day : String → l.Date)
    (dates : (id : String) → l.date (details l s id).timestamp ≡ some (day id)) where
  -- A version is read, or the request ends with an error; the database is the same.
  record Reads {A : Type 0} (p : Outcome A × r.Db) : Type 0 where
    settled : settles p.0 ≡ true
    same : p.1 ≡ db

  Reads-version_of : (k : Known) (id : String) → Reads (version_of r l k id db)
  unfolding version_of call_text pure
  Reads-version_of k id = elim (Bool-cases (contains k.online id)) [
    | inl e ↦ rw e (rw s.get_lem (record { settled = settles-outcome _; same = refl }))
    | inr e ↦ rw e (elim (Bool-cases (contains k.online2 id)) [
      | inl f ↦ rw f (rw s.get_lem (record { settled = settles-outcome _; same = refl }))
      | inr f ↦ rw f (record { settled = refl; same = refl })
    ])
  ]

  Reads-continue :
      {A B : Type 0} (p : Outcome A × r.Db) (f : A → S r.Db B)
      → Reads p
      → ((a : A) → Reads (f a db))
      → Reads (continue p.0 p.1 f)
  Reads-continue (done a, d) f h k = rw h.same (k a)
  Reads-continue (refused e, d) f h k = record { settled = refl; same = h.same }
  Reads-continue (panicked, d) f h k = cc (h.settled)

  Reads-row : (k : Known) (index : ℕ) (id : String) → Reads (row r l k index id db)
  unfolding row ◌>>=◌
  Reads-row k index id = Reads-continue (version_of r l k id db) _ (Reads-version_of k id) (λ v.
      rw (describe_lem l s day dates index id v (short_of r l k id v))
        (record { settled = refl; same = refl }))

  Reads-rows : (k : Known) (index : ℕ) (ids : List String) → Reads (rows r l k index ids db)
  unfolding rows ◌>>=◌ pure
  Reads-rows k index [] = record { settled = refl; same = refl }
  Reads-rows k index (id ∷ ids) = elim (Bool-cases (is_known k id)) [
    | inl e ↦ rw e (
        Reads-continue (row r l k index id db) _ (Reads-row k index id) (λ p.
          Reads-continue (rows r l k (index + 1) ids db) _ (Reads-rows k (index + 1) ids)
            (λ ps. record { settled = refl; same = refl })))
    | inr e ↦ rw e (Reads-rows k (index + 1) ids)
  ]

  -- The request goes on when every key of the network has two parts.
  Reads-by_ids :
      (ids : Option (List String))
      → is_some ids ≡ true
      → Reads (
          (expect ids >>= (λ peer_ids. call (r.keys "peer.online.*") >>= (λ ons.
              call (r.keys "peer.online2.*") >>= (λ ons2.
                call (r.keys "peer.unknown.*") >>= (λ unknowns.
                  rows r l
                    (record {
                      online = keys_to_peer_ids ons;
                      online2 = keys_to_peer_ids ons2;
                      unknown = keys_to_peer_ids unknowns;
                    })
                    0
                    peer_ids)))))
            db)
  unfolding ◌>>=◌ expect call
  Reads-by_ids none h = cc h
  Reads-by_ids (some ids) h = rw s.keys_lem (rw s.keys_lem (rw s.keys_lem (Reads-rows _ 0 ids)))

  -- The request for a network other than the development one settles if each key of the network has
  -- two parts.
  pub get_peers-settles :
      (network : CkbNetworkType)
      → network ≢ dev
      → is_some (reachable_keys_to_peer_ids (s.listed (key_pattern network))) ≡ true
      → settles (get_peers r l network db).0 ≡ true
  unfolding get_peers network_keys ◌>>=◌ call
  get_peers-settles mirana h k = rw s.keys_lem ((Reads-by_ids _ k).settled)
  get_peers-settles pudge h k = rw s.keys_lem ((Reads-by_ids _ k).settled)
  get_peers-settles dev h k = absurd (h refl)

  pub get_peers-dev : (get_peers r l dev db).0 ≡ panicked
  unfolding get_peers network_keys ◌>>=◌ panic
  get_peers-dev = refl
