-- ===== src/Exposed/Service.antt =====
-- exposed/src/main.rs and exposed/src/model.rs: the handlers behind the routes, with the query of a request
-- and its defaults. Each worker thread of the server has a cache of its own, so these are the requests
-- of one worker.
use ckb_discovery.Prelude.{ℕ, String, Bool, Option, none, some}
use ckb_discovery.Prelude.Texts.{◌++◌}
use ckb_discovery.Prelude.Decimal.{parse_u64, text_or}
use ckb_discovery.Exposed.Exec.{Reader, Libraries, PeerStatus, Outcome, done, refused, panicked}
use ckb_discovery.Exposed.Info.{last_update_of}
use ckb_discovery.Exposed.Peers.{peer_in_map}
use ckb_discovery.Exposed.Cache.{Response, ServiceData, peer_handler}

pub record QueryParams : Type 0 where
  pub network : String
  pub offline_timeout : ℕ
  pub unknown_offline_timeout : ℕ

-- What `web::Query` makes of a query: its value, a refusal of the request, or the panic of a default.
pub data Extraction (A : Type 0) : Type 0 where
  extracted : A → Extraction A
  malformed : Extraction A
  crash : Extraction A

-- A number in a query.
pub data Field : Type 0 where
  absent : Field
  number : ℕ → Field
  ill_formed : Field

abbrev number_or : Option ℕ → Field
number_or none = ill_formed
number_or (some n) = number n

-- `read` is `serde`'s reading of a number.
abbrev pub field_of : (read : String → Option ℕ) → Option String → Field
field_of read none = absent
field_of read (some text) = number_or (read text)

abbrev pub complete : (network : String) → Option ℕ → Option ℕ → Extraction QueryParams
complete network (some offline) (some unknown) =
    extracted
      (record { network = network; offline_timeout = offline; unknown_offline_timeout = unknown })
complete network _ _ = crash

-- The program's environment.
module _ (env : String → Option String) where
  -- `none` is the panic of `unwrap`.
  unfoldable pub default_timeout : Option ℕ
  default_timeout = parse_u64 (text_or "43200" (env "MARCI_DEFAULT_TIMEOUT"))

  unfoldable pub default_unknown_timeout : Option ℕ
  default_unknown_timeout = parse_u64 (text_or "1440" (env "MARCI_DEFAULT_UNKNOWN_TIMEOUT"))

  abbrev pub or_default : Option ℕ → Field → Option ℕ
  or_default default (number n) = some n
  or_default default _ = default

  -- A field that is ill-formed is refused before the missing ones get their defaults.
  unfoldable pub extract_fields : (network : String) → Field → Field → Extraction QueryParams
  extract_fields network ill_formed _ = malformed
  extract_fields network _ ill_formed = malformed
  extract_fields network offline unknown =
      complete network (or_default default_timeout offline)
        (or_default default_unknown_timeout unknown)

  -- `fields` are the texts of the query's fields.
  unfoldable pub extract :
      (read : String → Option ℕ) → (fields : String → Option String) → Extraction QueryParams
  unfolding default_timeout default_unknown_timeout extract_fields
  extract read fields =
      extract_fields (text_or "mirana" (fields "network"))
        (field_of read (fields "offline_timeout"))
        (field_of read (fields "unknown_offline_timeout"))

-- A request of one of the routes: `/` and `/peer`, `/health`, `/add_node`, `/peer_status`. `now` and
-- `later` are the times that `peer_handler` reads, `free` says that its lock is.
pub data Request : Type 0 where
  list_peers : (fields : String → Option String) → (now later : ℕ) → (free : Bool) → Request
  health : Request
  add_node : (node_id : String) → (ip : Option String) → Request
  peer_status : (peer_id : Option String) → Request

pub data Answer (l : Libraries) : Type 0 where
  peers_answer : Response l → Answer l
  last_update_json : ℕ → Answer l
  peer_status_json : PeerStatus l → Answer l
  text_body : String → Answer l
  not_acceptable : String → Answer l
  bad_request : Answer l
  server_error : Answer l
  no_answer : Answer l

module _ {l : Libraries} where
  abbrev pub answer_with : {A : Type 0} → (A → Answer l) → Outcome A → Answer l
  answer_with f (done a) = f a
  answer_with f (refused e) = server_error
  answer_with f panicked = no_answer

  -- `{:?}` of an address's text puts it in quotation marks.
  abbrev pub added_node : (node_id : String) → Option String → Answer l
  added_node node_id (some ip) =
      text_body ("node_id: " ++ node_id ++ ", addr: " ++ "\"" ++ ip ++ "\"")
  added_node node_id none = not_acceptable ("{node_id: " ++ node_id ++ "}")

module _ (r : Reader) (l : Libraries) (env : String → Option String)
    (read : String → Option ℕ) where
  abbrev pub list_with :
      (now later : ℕ)
      → (free : Bool) → ServiceData r l
      → Extraction QueryParams
      → Answer l × ServiceData r l
  list_with now later free s (extracted p) =
      let (response, s') = peer_handler r l p.network now later free s in
      (peers_answer response, s')
  list_with now later free s malformed = (bad_request, s)
  list_with now later free s crash = (no_answer, s)

  -- A command of a request leaves the cache alone.
  abbrev pub on_db :
      {A : Type 0}
      → (A → Answer l)
      → ServiceData r l
      → Outcome A × r.Db
      → Answer l × ServiceData r l
  on_db f s (o, db) = (answer_with f o, record s { db = db })

  abbrev pub status_of : ServiceData r l → Option String → Answer l × ServiceData r l
  status_of s none = (bad_request, s)
  status_of s (some id) = on_db (λ a. peer_status_json a) s (peer_in_map r l id s.db)

  unfoldable pub serve_request : Request → ServiceData r l → Answer l × ServiceData r l
  unfolding extract
  serve_request (list_peers fields now later free) s =
      list_with now later free s (extract env read fields)
  serve_request health s = on_db (λ n. last_update_json n) s (last_update_of r l s.db)
  serve_request (add_node id ip) s = (added_node id ip, s)
  serve_request (peer_status id) s = status_of s id
