-- ===== src/Pipeline/Lifetime.antt =====
-- marci/src/main.rs and exposed/src/main.rs: how long a peer that was seen online is shown.
use ckb_discovery.Prelude.{
  ℕ, String, ◌≡◌, refl, ap, ◌∙◌, true, false, not, Option, none, some, arith, leb, is_some, eq_refl,
  if◌then◌else◌,
}
use ckb_discovery.Types.{PeerInfo}
use ckb_discovery.Keys.{Key}
use ckb_discovery.Keys.{online, online2, unknown}
use ckb_discovery.Redis.{Redis, IsServer}
use ckb_discovery.Redis.Reference.{is_time, View, Entry, aged, refreshed, lasting, text_of}
use ckb_discovery.Redis.Glob.{Plain}
use ckb_discovery.Redis.Scan.{Scans, IsScan}
use ckb_discovery.Marci.Exec.{Config, IpInfo, Texts, World}
use ckb_discovery.Marci.Arms.{online_arm, rest_for}
use ckb_discovery.Marci.Simulation.{online_arm-Refines}
use ckb_discovery.Marci.Arms.{first}
use ckb_discovery.Marci.Refines.{abstract}
use ckb_discovery.Marci.Updates.{located}
use ckb_discovery.Marci.Typed.{nonzero}
use ckb_discovery.Marci.Spec.{at, is_ok, is_online}
use ckb_discovery.Marci.OnlineSpec.{online_arm_lem, after_online}
use ckb_discovery.Exposed.Exec.{Libraries}
use ckb_discovery.Exposed.Peers.{peer_in_map}
use ckb_discovery.Exposed.Peers.Listing.{details}
use ckb_discovery.Pipeline.Shown.{reader_of, still_of, shown, peer_in_map-shown}

-- The online key right after the report that the peer is online.
abbrev pub renewed : ℕ → String → (old : Option Entry) → Option Entry
renewed seconds version old =
    if is_ok (text_of old) then refreshed seconds old else lasting version seconds

aged-renewed :
    (seconds n : ℕ) (version : String) (old : Option Entry)
    → is_time seconds ≡ true
    → is_some (aged n (renewed seconds version old)) ≡ not (leb seconds n)
aged-renewed seconds n version none h = ground arith
aged-renewed seconds n version (some e) h = ground (arith, nonzero seconds h)

module _ {r : Redis} {s : IsServer r} {sc : Scans r} (x : IsScan s sc) {i : IpInfo} (t : Texts)
    (cfg : Config) (now : ℕ) (peer : PeerInfo) (n : ℕ) (w : World r i) (alive : s.alive w.db ≡ true)
    (lasts : is_time cfg.default_timeout ≡ true) (regular : peer.is_ex ≡ false) where
  abbrev pub id : String
  id = peer.info.peer_id

  abbrev reported : World r i
  reported = (online_arm r i t cfg now peer w).1

  -- The database some seconds after the report.
  abbrev pub db : r.Db
  db = (rest_for r i t cfg n reported).1.db

  still_reported : s.alive reported.db ≡ true
  still_reported = ((online_arm-Refines s t cfg now peer).at w alive).still

  pub still : s.alive db ≡ true
  unfolding rest_for
  still = (s.elapse_lem n reported.db still_reported).1

  view_lem : (k : Key) → at (s.view db) k ≡ aged n (at (s.view reported.db) k)
  unfolding rest_for
  view_lem k = ap (λ (v : View). at v k) (s.elapse_lem n reported.db still_reported).0

  reported_lem :
      (k : Key)
      → at (s.view db) k
        ≡ aged n (
            after_online t cfg peer
              (s.view w.db)
              (is_online (s.view w.db) id)
              peer.is_ex
              now
              (first peer.info.addresses)
              (located i t (abstract s w) (first peer.info.addresses))
              k)
  reported_lem k = view_lem k ∙ ap (aged n) (online_arm_lem s t cfg now peer w k lasts alive).1

  online_key : is_some (at (s.view db) (online id)) ≡ not (leb cfg.default_timeout n)
  online_key =
      rw (reported_lem (online id), eq_refl id, regular)
        (aged-renewed cfg.default_timeout n peer.version (at (s.view w.db) (online id)) lasts)

  unknown_key : is_some (at (s.view db) (unknown id)) ≡ false
  unknown_key = rw (reported_lem (unknown id), eq_refl id) refl

  online2_key : at (s.view w.db) (online2 id) ≡ none → is_some (at (s.view db) (online2 id)) ≡ false
  online2_key h = rw (reported_lem (online2 id), eq_refl id, regular, h) (ground arith)

  module _ (l : Libraries) (day : String → l.Date)
      (dates : (a : String)
        → l.date (details l (still_of x db still) a).timestamp ≡ some (day a)) where
    -- On a server that answers and that only marci writes, with a time for online peers that Redis takes (`is_time`) and
    -- dates in range: after the report that a peer whose id has no special characters is online, and
    -- that is no ex-peer and has no ex-online key, the query service answers that the peer is in the map
    -- as long as less than the configured time has gone by, and that it is not from then on.
    pub peer_in_map-online_arm :
        Plain id
        → at (s.view w.db) (online2 id) ≡ none
        → shown x db still l day dates (peer_in_map (reader_of sc) l id db).0
          ≡ some (not (leb cfg.default_timeout n))
    peer_in_map-online_arm plain fresh =
        rw (peer_in_map-shown x db still l day dates id plain)
          (rw (online_key, online2_key fresh, unknown_key) (ground arith))
