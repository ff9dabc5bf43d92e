-- ===== src/Pipeline/Shown.antt =====
-- marci/src/main.rs and exposed/src/main.rs: which peers the query service shows, in terms of the keys that
-- marci keeps.
use ckb_discovery.Prelude.{
  String, ◌≡◌, refl, sym, ap, ◌∙◌, Bool, true, not, ◌&&◌, ◌||◌, Option, none, some, List, [], ◌∷◌,
  arith, is_empty, is_some, contains, eq_refl, Bool-cases, inl, inr,
}
use mathlib.Core.Path.{subst}
use ckb_discovery.Keys.{online, online2, unknown, key_text}
use ckb_discovery.Keys.Laws.{PeerKey, is_online, is_online2, is_reachable, is_unknown, peer_key}
use ckb_discovery.Redis.{Redis, IsServer}
use ckb_discovery.Redis.Glob.{glob, Plain, Plain-Simple, glob_refl, glob-Plain}
use ckb_discovery.Redis.Scan.{Scans, IsScan, option_of}
use ckb_discovery.Marci.Spec.{at}
use ckb_discovery.Exposed.Exec.{Reader, Libraries, PeerStatus, Outcome, done}
use ckb_discovery.Exposed.Peers.{peer_in_map}
use ckb_discovery.Exposed.Peers.Listing.{IsStill, details}
use ckb_discovery.Exposed.Peers.InMap.{peer_in_map_lem, version_from}

-- The query service reads the server that marci writes.
abbrev pub reader_of : {r : Redis} → Scans r → Reader
reader_of {r} sc = record { Db = r.Db; keys = sc.keys; get = sc.get_option }

and_parts : (a b : Bool) → (a && b) ≡ true → (a ≡ true) × (b ≡ true)
and_parts a b h = ground arith

Plain-peer_key : (kind : PeerKey) (id : String) → Plain id → Plain (key_text (peer_key kind id))
unfolding key_text
Plain-peer_key is_online id h = h
Plain-peer_key is_online2 id h = h
Plain-peer_key is_reachable id h = h
Plain-peer_key is_unknown id h = h

module _ {r : Redis} {s : IsServer r} {sc : Scans r} (x : IsScan s sc) (db : r.Db)
    (alive : s.alive db ≡ true) where
  abbrev pub still_of : IsStill (reader_of sc) db
  still_of = record {
    listed = λ pattern. x.listed pattern db;
    stored = λ key. option_of (s.view db key);
    keys_lem = λ pattern. x.keys_lem pattern db alive;
    get_lem = λ key. x.get_option_lem key db alive;
  }

  -- A list of the keys that fit a plain text, when that key is missing or there.
  module _ (key : String) (plain : Plain key) (keys : List String)
      (h : (k : String) → contains keys k ≡ (glob key k && is_some (s.view db k))) where
    found : (k : String) → contains keys k ≡ true → is_some (s.view db key) ≡ true
    found k m =
        let (fits, there) = and_parts (glob key k) (is_some (s.view db k)) (sym (h k) ∙ m) in
        subst (λ (j : String). is_some (s.view db j) ≡ true) (glob-Plain key k plain fits) there

    listed_there : is_some (s.view db key) ≡ true → contains keys key ≡ true
    listed_there there = h key ∙ rw (glob_refl key, there) refl

  empty_iff :
      (keys : List String) (key : String)
      → ((k : String) → contains keys k ≡ true → is_some (s.view db key) ≡ true)
      → (is_some (s.view db key) ≡ true → contains keys key ≡ true)
      → is_empty keys ≡ not (is_some (s.view db key))
  unfolding contains
  empty_iff [] key f g = elim (Bool-cases (is_some (s.view db key))) [
    | inl e ↦ cc (g e)
    | inr e ↦ rw e refl
  ]
  empty_iff (k ∷ keys) key f g = rw (f k (rw (eq_refl k) refl)) refl

  -- KEYS with a plain text lists something exactly when that key is there.
  listed-is_empty :
      (key : String) → Plain key → is_empty (x.listed key db) ≡ not (is_some (s.view db key))
  listed-is_empty key plain =
      let h = λ (k : String). x.listed_lem key k db (Plain-Simple key plain) alive in
      empty_iff (x.listed key db) key (found key plain _ h) (listed_there key plain _ h)

  has_key :
      (kind : PeerKey) (id : String)
      → Plain id
      → not (is_empty (x.listed (key_text (peer_key kind id)) db))
        ≡ is_some (at (s.view db) (peer_key kind id))
  has_key kind id plain =
      rw (listed-is_empty (key_text (peer_key kind id)) (Plain-peer_key kind id plain))
        (ground arith)

  module _ (l : Libraries) (day : String → l.Date)
      (dates : (id : String) → l.date (details l still_of id).timestamp ≡ some (day id)) where
    -- Whether the answer says that the peer is in the map, if the request is answered.
    abbrev pub shown : Outcome (PeerStatus l) → Option Bool
    shown (done status) = some status.in_map
    shown _ = none

    is_some-version_from :
        (id : String) (ons ons2 unknowns : List String)
        → is_some (version_from l still_of id ons ons2 unknowns)
          ≡ (not (is_empty ons) || not (is_empty ons2) || not (is_empty unknowns))
    is_some-version_from id (_ ∷ _) ons2 unknowns = refl
    is_some-version_from id [] (_ ∷ _) unknowns = refl
    is_some-version_from id [] [] (_ ∷ _) = refl
    is_some-version_from id [] [] [] = refl

    -- For a peer id without special characters, on a server that answers and that no other program
    -- writes, and with dates in range: `peer_in_map` answers, and the peer is in the map exactly when
    -- marci's online, ex-online or unknown key of it is there.
    pub peer_in_map-shown :
        (id : String)
        → Plain id
        → shown (peer_in_map (reader_of sc) l id db).0
          ≡ some (
              is_some (at (s.view db) (online id))
              || is_some (at (s.view db) (online2 id))
              || is_some (at (s.view db) (unknown id)))
    peer_in_map-shown id plain = rw (peer_in_map_lem l still_of day dates id) (
        ap (λ (b : Bool). some b)
          (rw is_some-version_from (
            rw
              (has_key is_online id plain, has_key is_online2 id plain, has_key is_unknown id plain)
              refl)))
