-- ===== src/Exposed/Query.antt =====
-- exposed/src/main.rs and exposed/src/model.rs: what a query for peers says.
use ckb_discovery.Prelude.{ℕ, String, ◌≡◌, refl, Bool, Option, none, some}
use ckb_discovery.Prelude.Decimal.{text_or}
use ckb_discovery.Exposed.Exec.{Reader, Libraries}
use ckb_discovery.Exposed.Cache.{ServiceData}
use ckb_discovery.Exposed.Service.{
  QueryParams, extracted, Field, absent, number, ill_formed, complete, default_timeout,
  default_unknown_timeout, extract_fields, extract, list_peers, serve_request,
}

-- A query that is extracted has the network that it gives, or else mirana.
complete-network :
    (network : String) (a b : Option ℕ) (p : QueryParams)
    → complete network a b ≡ extracted p
    → p.network ≡ network
complete-network network (some a) (some b) p h = cc h
complete-network network (some a) none p h = cc h
complete-network network none b p h = cc h

module _ (env : String → Option String) where
  extract_fields-network :
      (network : String) (offline unknown : Field) (p : QueryParams)
      → extract_fields env network offline unknown ≡ extracted p
      → p.network ≡ network
  unfolding extract_fields
  extract_fields-network network ill_formed unknown p h = cc h
  extract_fields-network network absent ill_formed p h = cc h
  extract_fields-network network (number n) ill_formed p h = cc h
  extract_fields-network network absent absent p h =
      complete-network network (default_timeout env) (default_unknown_timeout env) p h
  extract_fields-network network absent (number m) p h =
      complete-network network (default_timeout env) (some m) p h
  extract_fields-network network (number n) absent p h =
      complete-network network (some n) (default_unknown_timeout env) p h
  extract_fields-network network (number n) (number m) p h =
      complete-network network (some n) (some m) p h

  extract-network :
      (read : String → Option ℕ) (fields : String → Option String) (p : QueryParams)
      → extract env read fields ≡ extracted p
      → p.network ≡ text_or "mirana" (fields "network")
  unfolding extract
  extract-network read fields p h = extract_fields-network _ _ _ p h

  -- Two queries for the peers of one network, both well-formed, are answered alike and leave the same
  -- state, whatever times for offline and for unknown peers they give.
  pub serve_request-timeouts :
      (r : Reader) (l : Libraries) (read : String → Option ℕ)
      (fields fields' : String → Option String) (now later : ℕ) (free : Bool) (s : ServiceData r l)
      (p p' : QueryParams)
      → fields "network" ≡ fields' "network"
      → extract env read fields ≡ extracted p
      → extract env read fields' ≡ extracted p'
      → serve_request r l env read (list_peers fields now later free) s
        ≡ serve_request r l env read (list_peers fields' now later free) s
  unfolding serve_request
  serve_request-timeouts r l read fields fields' now later free s p p' same e e' =
      rw (e, e', extract-network read fields p e, extract-network read fields' p' e', same) refl
