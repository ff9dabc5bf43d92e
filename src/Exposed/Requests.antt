-- ===== src/Exposed/Requests.antt =====
-- exposed/src/main.rs: what holds over all requests of a worker of the query service.
use ckb_discovery.Prelude.{
  ℕ, ◌-◌, ◌/◌, ◌^◌, ◌≡◌, ◌≤◌, refl, String, Bool, true, false, Option, none, some, List, [], ◌∷◌,
  ◌++◌, arith, Elem, ◌⊎◌, inl, inr, Bool-cases,
}
use mathlib.Core.Path.{subst}
use ckb_discovery.Types.{from_string}
use ckb_discovery.Exposed.Exec.{Reader, Libraries, Peer, Outcome, done, refused, panicked}
use ckb_discovery.Exposed.Peers.{get_peers}
use ckb_discovery.Exposed.Cache.{Response, peers_json, ServiceData, is_stale, answer, peer_handler}
use ckb_discovery.Exposed.Service.{
  QueryParams, Extraction, extracted, malformed, crash, extract, Request, list_peers, health,
  add_node, peer_status, serve_request, list_with,
}

-- Peers that were read from the database and put into the cache, and the time of that.
pub record Fetch (l : Libraries) : Type 0 where
  pub peers : List (Peer l)
  pub time : ℕ

module _ (r : Reader) (l : Libraries) (env : String → Option String)
    (read : String → Option ℕ) where
  abbrev pub fetched : (free : Bool) (later : ℕ) → Outcome (List (Peer l)) → List (Fetch l)
  fetched true later (done ps) = record { peers = ps; time = later } ∷ []
  fetched free later _ = []

  abbrev fetched_if : (stale free : Bool) (later : ℕ) → Outcome (List (Peer l)) → List (Fetch l)
  fetched_if true free later o = fetched free later o
  fetched_if false free later o = []

  abbrev pub fetches_with :
      (now later : ℕ) (free : Bool) → ServiceData r l → Extraction QueryParams → List (Fetch l)
  fetches_with now later free s (extracted p) =
      fetched_if (is_stale r l now s) free later (get_peers r l (from_string p.network) s.db).0
  fetches_with now later free s _ = []

  -- What a request fetches into the cache.
  abbrev pub fetches : Request → ServiceData r l → List (Fetch l)
  fetches (list_peers fields now later free) s =
      fetches_with now later free s (extract env read fields)
  fetches _ s = []

  -- The states of a worker: it starts with an empty cache and handles requests, while other programs
  -- write the database. The list holds what was fetched, latest first.
  pub data History : ServiceData r l → List (Fetch l) → Type 0 where
    started : (db : r.Db) → History (record { db = db; last_cache_update = 0; peers = [] }) []
    request :
        {s : ServiceData r l} {log : List (Fetch l)} (q : Request)
        → History s log
        → History (serve_request r l env read q s).1 (fetches q s ++ log)
    written :
        {s : ServiceData r l} {log : List (Fetch l)} (db : r.Db)
        → History s log
        → History (record s { db = db }) log

  abbrev IsBacked : ServiceData r l → List (Fetch l) → Type 0
  IsBacked s log =
      (s.peers ≡ []) ⊎ Elem (record { peers = s.peers; time = s.last_cache_update }) log

  answer-IsBacked :
      (free : Bool) (later : ℕ) (s : ServiceData r l) (o : Outcome (List (Peer l)) × r.Db)
      (log : List (Fetch l))
      → IsBacked s log
      → IsBacked (answer r l free later s o).1 (fetched free later o.0 ++ log)
  unfolding answer
  answer-IsBacked true later s (done ps, db) log h = inr (inl refl)
  answer-IsBacked false later s (done ps, db) log h = h
  answer-IsBacked true later s (refused e, db) log h = h
  answer-IsBacked false later s (refused e, db) log h = h
  answer-IsBacked true later s (panicked, db) log h = h
  answer-IsBacked false later s (panicked, db) log h = h

  peer_handler-IsBacked :
      (network : String) (now later : ℕ) (free : Bool) (s : ServiceData r l) (log : List (Fetch l))
      → IsBacked s log
      → IsBacked (peer_handler r l network now later free s).1 (
          fetched_if (is_stale r l now s) free later (get_peers r l (from_string network) s.db).0
          ++ log)
  unfolding peer_handler
  peer_handler-IsBacked network now later free s log h = elim (Bool-cases (is_stale r l now s)) [
    | inl e ↦ rw e (answer-IsBacked free later s (get_peers r l (from_string network) s.db) log h)
    | inr e ↦ rw e h
  ]

  list_with-IsBacked :
      (now later : ℕ) (free : Bool) (s : ServiceData r l) (log : List (Fetch l))
      (p : Extraction QueryParams)
      → IsBacked s log
      → IsBacked
          (list_with r l env read now later free s p).1
          (fetches_with now later free s p ++ log)
  list_with-IsBacked now later free s log (extracted p) h =
      peer_handler-IsBacked p.network now later free s log h
  list_with-IsBacked now later free s log malformed h = h
  list_with-IsBacked now later free s log crash h = h

  serve_request-IsBacked :
      (q : Request) (s : ServiceData r l) (log : List (Fetch l))
      → IsBacked s log
      → IsBacked (serve_request r l env read q s).1 (fetches q s ++ log)
  unfolding serve_request
  serve_request-IsBacked (list_peers fields now later free) s log h =
      list_with-IsBacked now later free s log (extract env read fields) h
  serve_request-IsBacked health s log h = h
  serve_request-IsBacked (add_node id ip) s log h = h
  serve_request-IsBacked (peer_status none) s log h = h
  serve_request-IsBacked (peer_status (some id)) s log h = h

  History-IsBacked : (s : ServiceData r l) (log : List (Fetch l)) → History s log → IsBacked s log
  History-IsBacked s log (started db) = inl refl
  History-IsBacked s log (request {s = s'} {log = log'} q h) =
      serve_request-IsBacked q s' log' (History-IsBacked s' log' h)
  History-IsBacked s log (written {s = s'} db h) = History-IsBacked s' log h

  -- Peers that were in the cache at some time in the last 30 seconds, counted whole.
  pub record Recent (now : ℕ) (ps : List (Peer l)) (log : List (Fetch l)) : Type 0 where
    pub time : ℕ
    pub member : Elem (record { peers = ps; time = time }) log
    pub age : (now - time) / 10 ^ 9 ≤ 30

  settled :
      (now : ℕ) (s : ServiceData r l) (ps : List (Peer l)) (log : List (Fetch l))
      → IsBacked s log
      → is_stale r l now s ≡ false
      → s.peers ≡ ps
      → Recent now ps log
  settled now s ps log (inl e) k h = ground arith
  settled now s ps log (inr m) k h = record {
    time = s.last_cache_update;
    member =
        subst (λ (qs : List (Peer l)). Elem (record { peers = qs; time = s.last_cache_update }) log)
          h m;
    age = ground arith;
  }

  answered :
      (free : Bool) (later : ℕ) (s : ServiceData r l) (o : Outcome (List (Peer l)) × r.Db)
      (ps : List (Peer l))
      → (answer r l free later s o).0 ≡ peers_json ps
      → o.0 ≡ done ps
  unfolding answer
  answered true later s (done qs, db) ps h = cc h
  answered false later s (done qs, db) ps h = cc h
  answered true later s (refused e, db) ps h = cc h
  answered false later s (refused e, db) ps h = cc h
  answered true later s (panicked, db) ps h = cc h
  answered false later s (panicked, db) ps h = cc h

  cached_peers :
      (qs ps : List (Peer l)) → ◌≡◌ {A = Response l} (peers_json qs) (peers_json ps) → qs ≡ ps
  cached_peers qs ps h = cc h

  -- After any requests and writes of other programs, an answer with peers gives what the request itself
  -- found in the database, or what was fetched for some request in the last 30 seconds, counted whole.
  pub peer_handler-Recent :
      (s : ServiceData r l) (log : List (Fetch l)) (network : String) (now later : ℕ) (free : Bool)
      (ps : List (Peer l))
      → History s log
      → (peer_handler r l network now later free s).0 ≡ peers_json ps
      → ((get_peers r l (from_string network) s.db).0 ≡ done ps) ⊎ Recent now ps log
  unfolding peer_handler
  peer_handler-Recent s log network now later free ps h e = elim (Bool-cases (is_stale r l now s)) [
    | inl k ↦ inl (answered free later s (get_peers r l (from_string network) s.db) ps (rw k at e))
    | inr k ↦
        inr
          (settled now s ps log (History-IsBacked s log h) k (cached_peers s.peers ps (rw k at e)))
  ]
