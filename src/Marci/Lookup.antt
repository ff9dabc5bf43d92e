-- ===== src/Marci/Lookup.antt =====
-- marci/src/main.rs: `lookup_ipinfo` with its cache, and the queries by address.
use ckb_discovery.Prelude.{String, Option, none, some, List, [], ◌∷◌, ok, str_eq, if◌then◌else◌}
use ckb_discovery.Types.{EndpointInfo}
use ckb_discovery.Redis.{Redis}
use ckb_discovery.Redis.Reference.{Reply}
use ckb_discovery.Marci.Exec.{IpDetails, IpInfo, Texts, World, M, pure, ◌>>=◌}

unfoldable pub cached : String → List (String × IpDetails) → Option IpDetails
cached ip [] = none
cached ip ((k, d) ∷ cache) = if str_eq k ip then some d else cached ip cache

module _ {r : Redis} {i : IpInfo} where
  -- The answer of the service, which is put into the cache when it is no error.
  unfoldable pub keep_answer :
      String → World r i → Option IpDetails × i.Service → Reply (Option IpDetails) × World r i
  keep_answer ip w (none, service) = (ok none, record w { service = service })
  keep_answer ip w (some details, service) =
      (ok (some details), record w { cache = (ip, details) ∷ w.cache; service = service })

  unfoldable pub cache_or_ask :
      String → World r i → Option IpDetails → Reply (Option IpDetails) × World r i
  cache_or_ask ip w (some details) = (ok (some details), w)
  cache_or_ask ip w none = keep_answer ip w (i.lookup ip w.service)

  -- The error of a lookup is only logged, so it is `none` here.
  unfoldable pub lookup_ipinfo : String → M r i (Option IpDetails)
  unfolding keep_answer cache_or_ask cached
  lookup_ipinfo ip w = cache_or_ask ip w (cached ip w.cache)

  module _ (t : Texts) where
    -- The loop of `query_by_reachable` returns at the first address that has an answer.
    unfoldable pub query_by_reachable : List EndpointInfo → M r i (Option IpDetails)
    query_by_reachable [] = pure none
    query_by_reachable (addr ∷ addrs) = do
      answer ← lookup_ipinfo (t.show_ip addr.address)
      elim answer [ some details ↦ pure (some details) | none ↦ query_by_reachable addrs ]

    unfoldable pub query_by_ip : EndpointInfo → M r i (Option IpDetails)
    query_by_ip ip = lookup_ipinfo (t.show_ip ip.address)
