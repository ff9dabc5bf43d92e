-- ===== src/Tests/Requests.antt =====
-- marci/src/main.rs and exposed/src/: the settings, and requests of the query service.
use ckb_discovery.Prelude.{
  String, ◌≡◌, refl, ap, ◌∙◌, true, ◌⊎◌, Option, none, some, List, [], ◌∷◌, ◌++◌, is_some, str_eq,
  if◌then◌else◌,
}
use ckb_discovery.Prelude.Decimal.{parse_u64}
use ckb_discovery.Types.{from_string}
use ckb_discovery.Marci.Settings.{settings, settings_lem, with_ex, read_setting}
use ckb_discovery.Exposed.Exec.{done}
use ckb_discovery.Exposed.Peers.{get_peers}
use ckb_discovery.Exposed.Cache.{Response, ServiceData, peers_json, peer_handler, renewed}
use ckb_discovery.Exposed.Service.{
  QueryParams, extracted, extract, list_peers, serve_request, default_timeout,
  default_unknown_timeout, extract_fields,
}
use ckb_discovery.Exposed.Requests.{Fetch, started, request, fetches, Recent, peer_handler-Recent}
use ckb_discovery.Tests.Queries.{
  toy_reader, toy_libraries, cold, described, peer_handler-cached_example,
}

abbrev no_variables : String → Option String
no_variables _ = none

settings_lem_example :
    (is_some (settings no_variables) ≡ true) × (settings (with_ex (some "x") no_variables) ≡ none)
unfolding parse_u64 read_setting
settings_lem_example = settings_lem no_variables (some "x")

abbrev no_fields : String → Option String
no_fields _ = none

abbrev fields : String → Option String
fields name = if str_eq name "offline_timeout" then some "5" else none

abbrev defaults : QueryParams
defaults = record { network = "mirana"; offline_timeout = 43200; unknown_offline_timeout = 1440 }

default_query : extract no_variables parse_u64 no_fields ≡ extracted defaults
unfolding extract extract_fields default_timeout default_unknown_timeout parse_u64
default_query = refl

five_query :
    extract no_variables parse_u64 fields ≡ extracted (record defaults { offline_timeout = 5 })
unfolding extract extract_fields default_timeout default_unknown_timeout parse_u64
five_query = refl

abbrev warm : ServiceData toy_reader toy_libraries
warm =
    (serve_request toy_reader toy_libraries no_variables parse_u64 (list_peers no_fields 5 6 true)
      cold).1

abbrev log : List (Fetch toy_libraries)
log =
    fetches toy_reader toy_libraries no_variables parse_u64 (list_peers no_fields 5 6 true) cold
    ++ []

warm_lem : warm ≡ renewed toy_reader toy_libraries 6 tt (described 1 ∷ [])
unfolding serve_request parse_u64
warm_lem =
    ap (λ (p : Response toy_libraries × ServiceData toy_reader toy_libraries). p.1)
      peer_handler-cached_example.0

cached_answer :
    (peer_handler toy_reader toy_libraries "pudge" 7 8 true warm).0 ≡ peers_json (described 1 ∷ [])
cached_answer =
    ap
      (λ (s : ServiceData toy_reader toy_libraries).
        (peer_handler toy_reader toy_libraries "pudge" 7 8 true s).0)
      warm_lem
    ∙ ap (λ (p : Response toy_libraries × ServiceData toy_reader toy_libraries). p.0)
        peer_handler-cached_example.1

peer_handler-Recent_example :
    ((get_peers toy_reader toy_libraries (from_string "pudge") warm.db).0 ≡ done (described 1 ∷ []))
    ⊎ Recent toy_reader toy_libraries no_variables parse_u64 7 (described 1 ∷ []) log
peer_handler-Recent_example =
    peer_handler-Recent toy_reader toy_libraries no_variables parse_u64 warm log "pudge" 7 8 true
      (described 1 ∷ []) (request (list_peers no_fields 5 6 true) (started tt)) cached_answer
