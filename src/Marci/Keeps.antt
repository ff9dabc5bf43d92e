-- ===== src/Marci/Keeps.antt =====
-- marci/src/main.rs: actions that keep what the cache of `lookup_ipinfo` knows.
use ckb_discovery.Prelude.{
  ℕ, ltb, Bool-cases, inl, inr, String, ◌≡◌, Bool, true, false, Option, none, some, List, [], ◌∷◌,
  ok, err, if◌then◌else◌,
}
use ckb_discovery.Redis.{Redis}
use ckb_discovery.Redis.Reference.{Reply}
use ckb_discovery.Redis.Scan.{Scans}
use ckb_discovery.Types.{EndpointInfo}
use ckb_discovery.Marci.Exec.{
  IpDetails, IpInfo, Texts, World, Act, M, pure, call, attempt, to_i64, continue, ◌>>=◌,
}
use ckb_discovery.Marci.Ingest.{Json}
use ckb_discovery.Marci.Broadcast.{Mqtt, Station, on_world}
use ckb_discovery.Marci.Lookup.{cached}

abbrev pub Cache : Type 0
Cache = List (String × IpDetails)

-- No address has two entries.
abbrev pub Distinct : Cache → Type 0
Distinct [] = Unit
Distinct ((k, d) ∷ cache) = (cached k cache ≡ none) × Distinct cache

-- The second cache knows what the first one does, and has no address twice if the first one has none.
pub record Extends (c c' : Cache) : Type 0 where
  pub found : (ip : String) (d : IpDetails) → cached ip c ≡ some d → cached ip c' ≡ some d
  pub distinct : Distinct c → Distinct c'

pub Extends-refl : (c : Cache) → Extends c c
Extends-refl c = record { found = λ ip d h. h; distinct = λ h. h }

Extends-trans : (a b c : Cache) → Extends a b → Extends b c → Extends a c
Extends-trans a b c f g = record {
  found = λ ip d h. g.found ip d (f.found ip d h);
  distinct = λ h. g.distinct (f.distinct h);
}

module _ {S : Type 0} (cache : S → Cache) where
  pub record Keeps {A : Type 0} (m : Act S A) : Type 0 where
    pub at : (s : S) → Extends (cache s) (cache (m s).1)

  pub Keeps-to_i64 : (n : ℕ) → Keeps (to_i64 n)
  unfolding to_i64
  Keeps-to_i64 n = record {
    at = λ s. elim (Bool-cases (ltb n 9223372036854775808)) [
      | inl e ↦ rw e (Extends-refl (cache s))
      | inr e ↦ rw e (Extends-refl (cache s))
    ];
  }

  module _ {A : Type 0} where
    pub Keeps-pure : (a : A) → Keeps (pure a)
    unfolding pure
    Keeps-pure a = record { at = λ s. Extends-refl (cache s) }

    pub Keeps-attempt : (m : Act S A) → Keeps m → Keeps (attempt m)
    unfolding attempt
    Keeps-attempt m h = record { at = h.at }

    pub Keeps-if : (b : Bool) (m n : Act S A) → Keeps m → Keeps n → Keeps (if b then m else n)
    Keeps-if true m n h k = h
    Keeps-if false m n h k = k

  module _ {A B : Type 0} where
    continue-Extends :
        (reply : Reply A) (s : S) (k : A → Act S B)
        → ((a : A) → Keeps (k a))
        → Extends (cache s) (cache (continue reply s k).1)
    continue-Extends (ok a) s k h = (h a).at s
    continue-Extends (err e) s k h = Extends-refl (cache s)

    pub Keeps-bind :
        (m : Act S A) (k : A → Act S B) → Keeps m → ((a : A) → Keeps (k a)) → Keeps (m >>= k)
    unfolding ◌>>=◌
    Keeps-bind m k h hk = record {
      at = λ s.
          Extends-trans (cache s) (cache (m s).1) (cache ((m >>= k) s).1) (h.at s)
            (continue-Extends (m s).0 (m s).1 k hk);
    }

module _ {r : Redis} {i : IpInfo} {A : Type 0} where
  pub Keeps-call : (c : r.Db → Reply A × r.Db) → Keeps (λ (w : World r i). w.cache) (call c)
  unfolding call
  Keeps-call c = record { at = λ w. Extends-refl w.cache }

pub ruleset keeps_rules =
    (Keeps-pure, Keeps-to_i64, Keeps-attempt, Keeps-if, Keeps-bind, Keeps-call)

module _ {r : Redis} (sc : Scans r) {i : IpInfo} (t : Texts) (j : Json) {q : Mqtt j.Text}
    (read_endpoint : String → Option EndpointInfo) {A : Type 0} where
  pub Keeps-on_world :
      (m : M r i A)
      → Keeps (λ (w : World r i). w.cache) m
      → Keeps (λ (st : Station r i q). st.world.cache) (on_world r sc i t j q read_endpoint m)
  unfolding on_world
  Keeps-on_world m h = record { at = λ st. h.at st.world }
