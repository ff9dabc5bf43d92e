-- ===== src/Exposed/Cache.antt =====
-- exposed/src/main.rs: `peer_handler` and its cache. Times are in nanoseconds; the difference of two
-- times is 0 where the code gets an error (the later one is earlier). No other request changes the
-- cache between the test of its age and its renewal, but another one may hold its lock.
use ckb_discovery.Prelude.{
  ℕ, ◌-◌, ◌/◌, ◌^◌, ◌≡◌, ◌≤◌, refl, String, Bool, true, false, ◌||◌, List, ◌∷◌, is_empty, ltb,
  if◌then◌else◌, arith,
}
use ckb_discovery.Types.{from_string}
use ckb_discovery.Exposed.Exec.{Reader, Libraries, Peer, Outcome, done, refused, panicked}
use ckb_discovery.Exposed.Peers.{get_peers}

pub data Response (l : Libraries) : Type 0 where
  peers_json : List (Peer l) → Response l
  internal_error : Response l
  crashed : Response l

pub record ServiceData (r : Reader) (l : Libraries) : Type 0 where
  pub db : r.Db
  pub last_cache_update : ℕ
  pub peers : List (Peer l)

module _ (r : Reader) (l : Libraries) where
  abbrev pub is_stale : (now : ℕ) → ServiceData r l → Bool
  is_stale now s = is_empty s.peers || ltb 30 ((now - s.last_cache_update) / 10 ^ 9)

  abbrev pub renewed : (later : ℕ) → r.Db → List (Peer l) → ServiceData r l
  renewed later db peers = record { db = db; last_cache_update = later; peers = peers }

  -- `free` says that `try_lock` succeeds, `later` is the time at which the cache is renewed.
  unfoldable pub answer :
      (free : Bool) (later : ℕ)
      → ServiceData r l
      → Outcome (List (Peer l)) × r.Db
      → Response l × ServiceData r l
  answer true later s (done peers, db) = (peers_json peers, renewed later db peers)
  answer false later s (done peers, db) = (peers_json peers, record s { db = db })
  answer free later s (refused e, db) = (internal_error, record s { db = db })
  answer free later s (panicked, db) = (crashed, record s { db = db })

  -- `network` is the text of the query.
  unfoldable pub peer_handler :
      (network : String) (now later : ℕ) (free : Bool)
      → ServiceData r l
      → Response l × ServiceData r l
  unfolding answer
  peer_handler network now later free s =
      if is_stale now s
      then answer free later s (get_peers r l (from_string network) s.db)
      else (peers_json s.peers, s)

  -- A request that renews the cache with some peers settles the requests that follow within 30 seconds,
  -- counted whole: a request gets the same peers, whatever network it asks for and whatever the database then holds,
  -- and it changes nothing.
  pub peer_handler-cached :
      (network network' : String) (now later now' later' : ℕ) (free' : Bool) (s : ServiceData r l)
      (p : Peer l) (ps : List (Peer l)) (db db' : r.Db)
      → is_stale now s ≡ true
      → get_peers r l (from_string network) s.db ≡ (done (p ∷ ps), db)
      → (now' - later) / 10 ^ 9 ≤ 30
      → (peer_handler network now later true s ≡ (peers_json (p ∷ ps), renewed later db (p ∷ ps)))
        × (peer_handler network' now' later' free' (renewed later db' (p ∷ ps))
            ≡ (peers_json (p ∷ ps), renewed later db' (p ∷ ps)))
  unfolding peer_handler answer
  peer_handler-cached network network' now later now' later' free' s p ps db db' stale found age =
      (rw stale (rw found refl), ground arith)
