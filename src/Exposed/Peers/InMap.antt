-- ===== src/Exposed/Peers/InMap.antt =====
-- exposed/src/main.rs: what `peer_in_map` answers while no other program writes.
use mathlib.Core.Option
use ckb_discovery.Prelude.{String, ◌≡◌, refl, Option, none, some, List, [], ◌∷◌, is_some}
use ckb_discovery.Keys.{online, online2, unknown, key_text}
use ckb_discovery.Exposed.Exec.{Reader, Libraries, Peer, PeerStatus, done, pure, attempt, ◌>>=◌}
use ckb_discovery.Exposed.Info.{listed_peer, version_short, text_or_none, or_empty}
use ckb_discovery.Exposed.Peers.{
  in_map_as, in_map_with, by_unknown, by_online2, by_online, peer_in_map,
}
use ckb_discovery.Exposed.Peers.Listing.{IsStill, details, describe_lem}

module _ {r : Reader} (l : Libraries) {db : r.Db} (s : IsStill r db) where
  abbrev stored_version : String → String × String
  stored_version key = (
    or_empty (text_or_none (s.stored key)),
    version_short r l (or_empty (text_or_none (s.stored key))),
  )

  -- The version of a peer and its short form, from the keys of the three kinds that are listed.
  abbrev pub version_from : String → (ons ons2 unknowns : List String) → Option (String × String)
  version_from id (_ ∷ _) ons2 unknowns = some (stored_version (key_text (online id)))
  version_from id [] (_ ∷ _) unknowns = some (stored_version (key_text (online2 id)))
  version_from id [] [] (_ ∷ _) = some ("", "Unknown")
  version_from id [] [] [] = none

  abbrev pub version_in_map : String → Option (String × String)
  version_in_map id =
      version_from id (s.listed (key_text (online id))) (s.listed (key_text (online2 id)))
        (s.listed (key_text (unknown id)))

  module _ (day : String → l.Date)
      (dates : (id : String) → l.date (details l s id).timestamp ≡ some (day id)) where
    abbrev pub peer_from : String → String × String → Peer l
    peer_from id v = listed_peer r l 0 v.0 v.1 (details l s id) (day id)

    abbrev pub status : String → Option (String × String) → PeerStatus l
    status id found = record {
      peer_id = id;
      in_map = is_some found;
      info = Option.map (peer_from id) found;
    }

    in_map_as_lem :
        (id version short : String)
        → in_map_as r l id version short db ≡ (done (status id (some (version, short))), db)
    unfolding in_map_as ◌>>=◌ pure
    in_map_as_lem id version short = rw (describe_lem l s day dates 0 id version short) refl

    in_map_with_lem :
        (id key : String)
        → in_map_with r l id key db ≡ (done (status id (some (stored_version key))), db)
    unfolding in_map_with ◌>>=◌ attempt
    in_map_with_lem id key = rw (s.get_lem key) (in_map_as_lem id _ _)

    by_unknown_lem :
        (id : String) (unknowns : List String)
        → by_unknown r l id unknowns db ≡ (done (status id (version_from id [] [] unknowns)), db)
    unfolding by_unknown pure
    by_unknown_lem id [] = refl
    by_unknown_lem id (_ ∷ _) = in_map_as_lem id "" "Unknown"

    by_online2_lem :
        (id : String) (ons2 : List String)
        → by_online2 r l id ons2 db
          ≡ (done (status id (version_from id [] ons2 (s.listed (key_text (unknown id))))), db)
    unfolding by_online2 ◌>>=◌ attempt
    by_online2_lem id [] = rw (s.keys_lem (key_text (unknown id))) (by_unknown_lem id _)
    by_online2_lem id (_ ∷ _) = in_map_with_lem id (key_text (online2 id))

    by_online_lem :
        (id : String) (ons : List String)
        → by_online r l id ons db ≡ (
          done (
              status id (
                version_from id ons
                  (s.listed (key_text (online2 id)))
                  (s.listed (key_text (unknown id))))),
          db,
        )
    unfolding by_online ◌>>=◌ attempt
    by_online_lem id [] = rw (s.keys_lem (key_text (online2 id))) (by_online2_lem id _)
    by_online_lem id (_ ∷ _) = in_map_with_lem id (key_text (online id))

    -- While no other program writes, the server answers and dates are in range, `peer_in_map` returns,
    -- and the peer is in the map exactly when an online, ex-online or unknown key of it is listed. Its
    -- row has the version that is stored under the first of the online and ex-online keys that is
    -- listed, or none, and what is stored about the peer.
    pub peer_in_map_lem :
        (id : String) → peer_in_map r l id db ≡ (done (status id (version_in_map id)), db)
    unfolding peer_in_map ◌>>=◌ attempt
    peer_in_map_lem id = rw (s.keys_lem (key_text (online id))) (by_online_lem id _)
