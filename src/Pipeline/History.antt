-- ===== src/Pipeline/History.antt =====
-- marci/src/main.rs and exposed/src/main.rs: which peers the query service shows after a history of messages,
-- pauses and ticks.
use ckb_discovery.Prelude.{
  ℕ, ◌≤◌, String, ◌≡◌, refl, sym, ap, ◌∙◌, Bool, true, false, not, ◌||◌, Option, some, List, ◌∷◌,
  ◌++◌, is_some, leb,
}
use ckb_discovery.Types.{EndpointInfo, PeerInfo}
use ckb_discovery.Keys.{online, online2, unknown}
use ckb_discovery.Redis.{Redis, IsServer}
use ckb_discovery.Redis.Reference.{is_time, View}
use ckb_discovery.Redis.Glob.{Plain}
use ckb_discovery.Redis.Scan.{Scans, IsScan}
use ckb_discovery.Marci.Exec.{Config, IpInfo, Texts}
use ckb_discovery.Marci.Ingest.{Json}
use ckb_discovery.Marci.Arms.{online_event}
use ckb_discovery.Marci.Broadcast.{Mqtt, Station, Input, message, run}
use ckb_discovery.Marci.Typed.{IsTyped}
use ckb_discovery.Marci.Spec.{at}
use ckb_discovery.Marci.Running.{IsConnected, Runs, run-Runs}
use ckb_discovery.Marci.Status.{Status, steps}
use ckb_discovery.Marci.Entries.{status_in, timed, is_some-timed, is_some-seconds_of}
use ckb_discovery.Marci.Machine.{IsSilent, waited}
use ckb_discovery.Marci.Kept.{IsKept, is_shown, steps-forget, steps-seen}
use ckb_discovery.Marci.Tracked.{run_tracked}
use ckb_discovery.Exposed.Exec.{Libraries}
use ckb_discovery.Exposed.Peers.{peer_in_map}
use ckb_discovery.Exposed.Peers.Listing.{details}
use ckb_discovery.Pipeline.Shown.{reader_of, still_of, shown, peer_in_map-shown}

pub is_shown-status_in :
    (v : View) (id : String)
    → IsTyped v
    → is_shown (status_in v id)
      ≡ (is_some (at v (online id)) || is_some (at v (online2 id)) || is_some (at v (unknown id)))
is_shown-status_in v id typed =
    rw
      (
        is_some-timed (at v (online id)) (typed.at (online id)),
        is_some-timed (at v (online2 id)) (typed.at (online2 id)),
        is_some-seconds_of (timed (at v (unknown id))),
        is_some-timed (at v (unknown id)) (typed.at (unknown id)),
      )
      refl

module _ {r : Redis} {s : IsServer r} {sc : Scans r} (x : IsScan s sc)
    (read_endpoint : String → Option EndpointInfo) {i : IpInfo} (t : Texts) (j : Json)
    (q : Mqtt j.Text) (connected : IsConnected q) (cfg : Config)
    (lasts : is_time cfg.default_timeout ≡ true)
    (unknown_lasts : is_time cfg.unknown_default_timeout ≡ true) (st : Station r i q)
    (alive : s.alive st.world.db ≡ true) (typed : IsTyped (s.view st.world.db)) where
  module _ (es : List Input) where
    -- The database after the history.
    abbrev pub db : r.Db
    db = (run r sc i t j q read_endpoint cfg es st).1.world.db

    runs :
        Runs x read_endpoint t j q connected cfg lasts unknown_lasts
          (run r sc i t j q read_endpoint cfg es st)
    runs = run-Runs x read_endpoint t j q connected cfg lasts unknown_lasts es st alive typed

    pub still : s.alive db ≡ true
    still = runs.still

    module _ (l : Libraries) (day : String → l.Date)
        (dates : (a : String)
          → l.date (details l (still_of x db still) a).timestamp ≡ some (day a)) where
      -- With timeouts that Redis takes (`is_time`) and an MQTT client that publishes, on a server that answers, that
      -- only marci writes and whose keys hold what the program keeps under them, with dates in range:
      -- after any messages, pauses and ticks, the query service answers that a peer whose id has no
      -- special characters is in the map exactly when the machine of that peer's status, moved by the
      -- same inputs from what the database said before, has it as an online peer, as an ex-peer or as
      -- an unknown one.
      pub peer_in_map-steps :
          (id : String)
          → Plain id
          → shown x db still l day dates (peer_in_map (reader_of sc) l id db).0
            ≡ some (is_shown (steps cfg id es (status_in (s.view st.world.db) id)))
      peer_in_map-steps id plain =
          peer_in_map-shown x db still l day dates id plain
          ∙ ap (λ (b : Bool). some b) (sym (is_shown-status_in (s.view db) id runs.typed))
          ∙ ap (λ (u : Status). some (is_shown u))
              (run_tracked x read_endpoint t j q connected cfg lasts unknown_lasts es st id alive
                typed)

  module _ (es fs : List Input)
      (kept : (id : String) → IsKept cfg (status_in (s.view st.world.db) id)) (l : Libraries)
      (day : String → l.Date)
      (dates : (a : String)
        → l.date (details l (still_of x (db (es ++ fs)) (still (es ++ fs))) a).timestamp
          ≡ some (day a)) where
    -- With timeouts that Redis takes (`is_time`) and an MQTT client that publishes, on a server that answers, that
    -- only marci writes and whose keys hold what the program keeps under them, with at most the
    -- configured seconds left to those that have a time, and with dates in range: whatever the
    -- history, once the pauses since the last message about a peer whose id has no special characters
    -- add up to both timeouts, the query service answers that it is not in the map.
    pub peer_in_map-forgotten :
        (id : String)
        → Plain id
        → IsSilent id fs
        → cfg.default_timeout ≤ waited fs
        → cfg.unknown_default_timeout ≤ waited fs
        → shown x
            (db (es ++ fs))
            (still (es ++ fs))
            l
            day
            dates
            (peer_in_map (reader_of sc) l id (db (es ++ fs))).0
          ≡ some false
    peer_in_map-forgotten id plain silent le le' =
        peer_in_map-steps (es ++ fs) l day dates id plain
        ∙ ap (λ (b : Bool). some b)
            (steps-forget cfg lasts unknown_lasts id es fs _ (kept id) silent le le')

  module _ (es fs : List Input) (now : ℕ) (peer : PeerInfo)
      (kept : (id : String) → IsKept cfg (status_in (s.view st.world.db) id)) (l : Libraries)
      (day : String → l.Date) where
    abbrev pub seen_then : List Input
    seen_then = es ++ message (online_event now peer) ∷ fs

    -- With timeouts that Redis takes (`is_time`) and an MQTT client that publishes, on a server that answers, that
    -- only marci writes and whose keys hold what the program keeps under them, with at most the
    -- configured seconds left to those that have a time, and with dates in range: whatever the history
    -- before the report that a peer whose id has no special characters is online, if the messages
    -- since are about other peers, the query service answers that the peer is in the map as long as
    -- the pauses since add up to less than the configured time, and that it is not from then on.
    pub peer_in_map-seen :
        (dates : (a : String)
          → l.date (details l (still_of x (db seen_then) (still seen_then)) a).timestamp
            ≡ some (day a))
        → Plain peer.info.peer_id
        → IsSilent peer.info.peer_id fs
        → shown x
            (db seen_then)
            (still seen_then)
            l
            day
            dates
            (peer_in_map (reader_of sc) l peer.info.peer_id (db seen_then)).0
          ≡ some (not (leb cfg.default_timeout (waited fs)))
    peer_in_map-seen dates plain silent =
        peer_in_map-steps seen_then l day dates peer.info.peer_id plain
        ∙ ap (λ (b : Bool). some b)
            (steps-seen cfg lasts unknown_lasts es fs now peer _ (kept peer.info.peer_id) silent)
