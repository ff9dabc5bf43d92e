-- ===== src/Pipeline/Panics.antt =====
-- exposed/src/main.rs: which requests make `get_peers` panic, on the server that marci writes.
use ckb_discovery.Prelude.{
  ℕ, List, Bool-cases, inl, inr, String, ◌≡◌, ◌≢◌, ◌↔◌, ◌⊎◌, refl, sym, ◌∙◌, Bool, true, false,
  ◌&&◌, some, contains, arith,
}
use mathlib.Core.Path.{subst}
use ckb_discovery.Prelude.Texts.{◌++◌, rsplit, has_two, has_two-rsplit}
use ckb_discovery.Types.{CkbNetworkType, mirana, pudge, dev, from_string}
use ckb_discovery.Types.Names.{from_string-eq-dev_iff}
use ckb_discovery.Keys.Laws.{reachable_keys_to_peer_ids-is_some}
use ckb_discovery.Redis.{Redis, IsServer}
use ckb_discovery.Redis.Glob.{glob, Simple, glob-star}
use ckb_discovery.Redis.Scan.{Scans, IsScan}
use ckb_discovery.Exposed.Exec.{Reader, Libraries, Peer, Outcome, done, refused, panicked}
use ckb_discovery.Exposed.Cache.{ServiceData, crashed, is_stale, answer, peer_handler}
use ckb_discovery.Exposed.Peers.{get_peers}
use ckb_discovery.Exposed.Peers.Listing.{details}
use ckb_discovery.Exposed.Peers.Settled.{
  settles-panicked, key_pattern, get_peers-settles, get_peers-dev,
}
use ckb_discovery.Pipeline.Shown.{reader_of, still_of}

-- What fits the pattern of a network's keys has two parts.
pub has_two-key :
    (network : CkbNetworkType) (k : String)
    → network ≢ dev
    → glob (key_pattern network) k ≡ true
    → has_two (rsplit k) ≡ true
has_two-key mirana k h g =
    let (t, e) = glob-star ".mirana" refl "network.peer." k refl g in
    subst (λ (j : String). has_two (rsplit j) ≡ true) (sym e)
      (has_two-rsplit "network.peer" (t ++ ".mirana"))
has_two-key pudge k h g =
    let (t, e) = glob-star ".pudge" refl "network.peer." k refl g in
    subst (λ (j : String). has_two (rsplit j) ≡ true) (sym e)
      (has_two-rsplit "network.peer" (t ++ ".pudge"))
has_two-key dev k h g = absurd (h refl)

pub Simple-key_pattern : (network : CkbNetworkType) → Simple (key_pattern network)
Simple-key_pattern mirana = refl
Simple-key_pattern pudge = refl
Simple-key_pattern dev = refl

both_true : (a b : Bool) → (a && b) ≡ true → a ≡ true
both_true a b h = ground arith

module _ {r : Redis} {s : IsServer r} {sc : Scans r} (x : IsScan s sc) (db : r.Db)
    (alive : s.alive db ≡ true) (l : Libraries) (day : String → l.Date)
    (dates : (id : String)
      → l.date (details l (still_of x db alive) id).timestamp ≡ some (day id)) where
  pub fits :
      (network : CkbNetworkType) (k : String)
      → contains (x.listed (key_pattern network) db) k ≡ true
      → glob (key_pattern network) k ≡ true
  fits network k h =
      both_true _ _
        (sym (x.listed_lem (key_pattern network) k db (Simple-key_pattern network) alive) ∙ h)

  is_dev :
      (network : CkbNetworkType)
      → (get_peers (reader_of sc) l network db).0 ≡ panicked
      → network ≡ dev
  is_dev dev h = refl
  is_dev mirana h = absurd (
      settles-panicked _
        (get_peers-settles l (still_of x db alive) day dates mirana (λ e. cc e)
          (reachable_keys_to_peer_ids-is_some _
            (λ k m. has_two-key mirana k (λ e. cc e) (fits mirana k m))))
        h)
  is_dev pudge h = absurd (
      settles-panicked _
        (get_peers-settles l (still_of x db alive) day dates pudge (λ e. cc e)
          (reachable_keys_to_peer_ids-is_some _
            (λ k m. has_two-key pudge k (λ e. cc e) (fits pudge k m))))
        h)

  -- On a server that answers and that no other program writes, with dates in range: `get_peers`, on the
  -- network that a text names, panics exactly when the text is one of the two names of the
  -- development network, whatever the keys hold.
  pub get_peers-panic_iff :
      (network : String)
      → ((get_peers (reader_of sc) l (from_string network) db).0 ≡ panicked)
        ↔ ((network ≡ "dev") ⊎ (network ≡ "ckb_dev"))
  get_peers-panic_iff network = (
    λ h. (from_string-eq-dev_iff network).0 (is_dev (from_string network) h),
    λ h.
        rw ((from_string-eq-dev_iff network).1 h) (get_peers-dev l (still_of x db alive) day dates),
  )

not_true : (false ≡ true) → ⊥
not_true h = cc h

module _ (r : Reader) (l : Libraries) where
  answer-crashed_iff :
      (free : Bool) (later : ℕ) (s : ServiceData r l) (o : Outcome (List (Peer l)) × r.Db)
      → ((answer r l free later s o).0 ≡ crashed) ↔ (o.0 ≡ panicked)
  unfolding answer
  answer-crashed_iff true later s (done ps, db) = (λ h. cc h, λ h. cc h)
  answer-crashed_iff true later s (refused e, db) = (λ h. cc h, λ h. cc h)
  answer-crashed_iff true later s (panicked, db) = (λ h. refl, λ h. refl)
  answer-crashed_iff false later s (done ps, db) = (λ h. cc h, λ h. cc h)
  answer-crashed_iff false later s (refused e, db) = (λ h. cc h, λ h. cc h)
  answer-crashed_iff false later s (panicked, db) = (λ h. refl, λ h. refl)

module _ {r : Redis} {s : IsServer r} {sc : Scans r} (x : IsScan s sc) (l : Libraries)
    (d : ServiceData (reader_of sc) l) (alive : s.alive d.db ≡ true) (day : String → l.Date)
    (dates : (id : String)
      → l.date (details l (still_of x d.db alive) id).timestamp ≡ some (day id)) where
  -- On a server that answers and that no other program writes, with dates in range: the handler of a
  -- request for the peers of a network, once it has read the query, panics exactly when the cache is
  -- to be renewed and the query names the development network, by one of its two names, whatever
  -- the keys hold and whether or not the cache is locked.
  pub peer_handler-panic_iff :
      (network : String) (now later : ℕ) (free : Bool)
      → ((peer_handler (reader_of sc) l network now later free d).0 ≡ crashed)
        ↔ ((is_stale (reader_of sc) l now d ≡ true) × ((network ≡ "dev") ⊎ (network ≡ "ckb_dev")))
  unfolding peer_handler
  peer_handler-panic_iff network now later free =
      elim (Bool-cases (is_stale (reader_of sc) l now d)) [
        | inl stale ↦
            let a =
              answer-crashed_iff (reader_of sc) l free later d
                (get_peers (reader_of sc) l (from_string network) d.db) in
            let g = get_peers-panic_iff x d.db alive l day dates network in
            rw stale (λ h. (refl, g.0 (a.0 h)), λ h. a.1 (g.1 h.1))
        | inr recent ↦ rw recent (λ h. cc h, λ h. absurd (not_true h.0))
      ]
