-- ===== src/Pipeline/Rows.antt =====
-- marci/src/main.rs and exposed/src/main.rs: what the query service lists after a history of messages, pauses
-- and ticks.
use ckb_discovery.Redis.Reference.{is_time}
use ckb_discovery.Prelude.{
  String, ◌≡◌, ◌≢◌, ◌↔◌, sym, ap, ◌∙◌, Bool, true, ◌||◌, Option, some, List, All, Elem, contains,
}
use ckb_discovery.Prelude.Texts.{NoDot}
use ckb_discovery.Types.{CkbNetworkType, dev, EndpointInfo}
use ckb_discovery.Keys.{network_quick, key_text}
use ckb_discovery.Redis.{Redis, IsServer}
use ckb_discovery.Redis.Scan.{Scans, IsScan}
use ckb_discovery.Marci.Exec.{Config, IpInfo, Texts}
use ckb_discovery.Marci.Ingest.{Json}
use ckb_discovery.Marci.Broadcast.{Mqtt, Station, Input, run}
use ckb_discovery.Marci.Typed.{IsTyped}
use ckb_discovery.Marci.Names.{AreNamed}
use ckb_discovery.Marci.Named.{DotlessInput, run-KeepsNames}
use ckb_discovery.Marci.Running.{IsConnected, Runs, run-Runs}
use ckb_discovery.Marci.Status.{steps}
use ckb_discovery.Marci.Entries.{status_in}
use ckb_discovery.Marci.Kept.{is_shown}
use ckb_discovery.Marci.Tracked.{run_tracked}
use ckb_discovery.Marci.Members.{is_announced, is_member, run-is_member}
use ckb_discovery.Exposed.Exec.{Libraries, Outcome, Peer}
use ckb_discovery.Exposed.Peers.{is_known, get_peers}
use ckb_discovery.Exposed.Peers.Listing.{details, known}
use ckb_discovery.Exposed.Peers.Settled.{key_pattern}
use ckb_discovery.Pipeline.Shown.{reader_of, still_of}
use ckb_discovery.Pipeline.Panics.{Simple-key_pattern}
use ckb_discovery.Pipeline.History.{is_shown-status_in}
use ckb_discovery.Pipeline.Table.{
  is_known_lem, network_ids, rows_of, get_peers-rows_of, glob-key_pattern,
}

module _ {r : Redis} {s : IsServer r} {sc : Scans r} (x : IsScan s sc)
    (read_endpoint : String → Option EndpointInfo) {i : IpInfo} (t : Texts) (j : Json)
    (q : Mqtt j.Text) (connected : IsConnected q) (cfg : Config)
    (lasts : is_time cfg.default_timeout ≡ true)
    (unknown_lasts : is_time cfg.unknown_default_timeout ≡ true) (es : List Input)
    (dots : All DotlessInput es) (st : Station r i q) (alive : s.alive st.world.db ≡ true)
    (typed : IsTyped (s.view st.world.db)) (named : AreNamed (s.view st.world.db))
    (network : CkbNetworkType) (public : network ≢ dev) where
  abbrev pub db : r.Db
  db = (run r sc i t j q read_endpoint cfg es st).1.world.db

  runs :
      Runs x read_endpoint t j q connected cfg lasts unknown_lasts
        (run r sc i t j q read_endpoint cfg es st)
  runs = run-Runs x read_endpoint t j q connected cfg lasts unknown_lasts es st alive typed

  pub still : s.alive db ≡ true
  still = runs.still

  pub still_typed : IsTyped (s.view db)
  still_typed = runs.typed

  pub still_named : AreNamed (s.view db)
  still_named =
      (run-KeepsNames x read_endpoint t j q cfg es st dots
        (record { named = named; still = alive })).named

  -- The machine of the peer's status has it as an online peer, an ex-peer or an unknown one.
  abbrev pub shown : String → Bool
  shown id = is_shown (steps cfg id es (status_in (s.view st.world.db) id))

  -- The peer was announced on the network, in the history or before.
  abbrev pub is_of_network : String → Bool
  is_of_network id = is_announced id network es || is_member (s.view st.world.db) id network

  is_known-shown :
      (l : Libraries) (id : String)
      → NoDot id
      → is_known (known l (still_of x db still)) id ≡ shown id
  is_known-shown l id d =
      is_known_lem x db still still_typed still_named l id d
      ∙ sym (is_shown-status_in (s.view db) id still_typed)
      ∙ ap is_shown
          (run_tracked x read_endpoint t j q connected cfg lasts unknown_lasts es st id alive typed)

  listed_lem :
      (id : String)
      → contains (x.listed (key_pattern network) db) (key_text (network_quick id network))
        ≡ is_of_network id
  listed_lem id =
      x.listed_lem (key_pattern network) (key_text (network_quick id network)) db
        (Simple-key_pattern network) still
      ∙ rw (glob-key_pattern network id public) (
          run-is_member x read_endpoint t j q connected cfg lasts unknown_lasts id network es st
            alive typed)

  abbrev pub ids : List String
  ids = (network_ids x db still still_typed still_named network public).ids

  module _ (l : Libraries) (day : String → l.Date)
      (dates : (a : String)
        → l.date (details l (still_of x db still) a).timestamp ≡ some (day a)) where
    abbrev pub rows_for : List String → Outcome (List (Peer l))
    rows_for peers =
        rows_of x db still still_typed still_named network public l day dates peers shown

    -- With timeouts that Redis takes (`is_time`) and an MQTT client that publishes, on a server that answers, that only
    -- marci writes and whose keys were the program's at the start: after any messages about peers
    -- whose ids have no dot, with pauses and ticks between them, and with dates in range,
    -- `get_peers`, for a network other than the development one, returns the rows, in the order of the
    -- keys of the network, of the peers that were announced on that network, then or before, except for those that the
    -- machine of the peer's status, moved by the same inputs, has neither as an online peer nor as an
    -- ex-peer nor as an unknown one.
    pub run-get_peers-rows :
        ((get_peers (reader_of sc) l network db).0 ≡ rows_for ids)
        × ((id : String) → Elem id ids ↔ (is_of_network id ≡ true))
    run-get_peers-rows =
        let found = network_ids x db still still_typed still_named network public in
        (
          get_peers-rows_of x db still still_typed still_named network public l day dates shown
              (is_known-shown l),
          λ id.
              (λ m. sym (listed_lem id) ∙ found.only id m, λ h. found.there id (listed_lem id ∙ h)),
        )
