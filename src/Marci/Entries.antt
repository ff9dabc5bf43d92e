-- ===== src/Marci/Entries.antt =====
-- marci/src/main.rs: the status of a peer, read from the entries of the database.
use ckb_discovery.Prelude.{
  ℕ, String, ◌≡◌, ◌⊎◌, refl, true, Option, none, some, List, [], length, is_some, arith, inl, inr,
}
use ckb_discovery.Keys.{online, online2, reachable, unknown}
use ckb_discovery.Redis.Reference.{
  is_time, View, Entry, Value, text, members, lasting, refreshed, aged, text_of, size_of,
  with_member,
}
use ckb_discovery.Marci.Exec.{unwrap_or}
use ckb_discovery.Marci.Typed.{Shape, Fits, lasting_text, plain_set, nonzero}
use ckb_discovery.Marci.Announced.{grown}
use ckb_discovery.Marci.Spec.{at, is_ok}
use ckb_discovery.Marci.Status.{Timed, Status, kept_for, aged_timed, aged_unknown}

abbrev pub timed_value : Value → Option ℕ → Option Timed
timed_value (text s) (some n) = some (record { version = s; seconds = n })
timed_value _ _ = none

abbrev pub timed : Option Entry → Option Timed
timed none = none
timed (some e) = timed_value e.value e.ttl

abbrev pub seconds_of : Option Timed → Option ℕ
seconds_of none = none
seconds_of (some t) = some t.seconds

abbrev pub named_value : Value → List String
named_value (text _) = []
named_value (members ss) = ss

abbrev pub named : Option Entry → List String
named none = []
named (some e) = named_value e.value

-- What the database says about a peer.
abbrev pub status_in : View → String → Status
status_in v id = record {
  online = timed (at v (online id));
  ex = timed (at v (online2 id));
  unknown = seconds_of (timed (at v (unknown id)));
  witnesses = named (at v (reachable id));
}

abbrev pub renew : ℕ → Option Timed → Option Timed
renew n none = none
renew n (some t) = some (kept_for n t)

-- What may stand under a key with a time to live, and under one for a set.
lasting_value :
    (v : Value) (ttl : Option ℕ)
    → Shape lasting_text v ttl
    → (s : String) × (n : ℕ) × (some (record { value = v; ttl = ttl }) ≡ lasting s n)
lasting_value (text s) (some n) h = (s, n, refl)
lasting_value (text s) none h = absurd h
lasting_value (members ss) (some n) h = absurd h
lasting_value (members ss) none h = absurd h

pub Fits-lasting :
    (e : Option Entry)
    → Fits lasting_text e
    → (e ≡ none) ⊎ ((s : String) × (n : ℕ) × (e ≡ lasting s n))
Fits-lasting none h = inl refl
Fits-lasting (some e) h = inr (lasting_value e.value e.ttl h)

abbrev set_of : List String → Option Entry
set_of ss = some (record { value = members ss; ttl = none })

set_value :
    (v : Value) (ttl : Option ℕ)
    → Shape plain_set v ttl
    → (ss : List String) × (some (record { value = v; ttl = ttl }) ≡ set_of ss)
set_value (members ss) none h = (ss, refl)
set_value (members ss) (some n) h = absurd h
set_value (text s) none h = absurd h
set_value (text s) (some n) h = absurd h

pub Fits-set :
    (e : Option Entry) → Fits plain_set e → (e ≡ none) ⊎ ((ss : List String) × (e ≡ set_of ss))
Fits-set none h = inl refl
Fits-set (some e) h = inr (set_value e.value e.ttl h)

pub is_ok-text_of : (e : Option Entry) → Fits lasting_text e → is_ok (text_of e) ≡ is_some (timed e)
is_ok-text_of e h = elim (Fits-lasting e h) [ inl m ↦ rw m | inr (s, n, m) ↦ rw m ]

pub timed-refreshed :
    (n : ℕ) (e : Option Entry)
    → is_time n ≡ true
    → Fits lasting_text e
    → timed (refreshed n e) ≡ renew n (timed e)
timed-refreshed n e k h = elim (Fits-lasting e h) [
  | inl m ↦ rw m
  | inr (s, j, m) ↦ rw m (rw (nonzero n k) refl)
]

pub timed-aged :
    (n : ℕ) (e : Option Entry) → Fits lasting_text e → timed (aged n e) ≡ aged_timed n (timed e)
timed-aged n e h = elim (Fits-lasting e h) [ inl m ↦ rw m | inr (s, j, m) ↦ rw m (ground arith) ]

pub seconds_of-aged_timed :
    (n : ℕ) (t : Option Timed) → seconds_of (aged_timed n t) ≡ aged_unknown n (seconds_of t)
seconds_of-aged_timed n none = refl
seconds_of-aged_timed n (some t) = ground arith

pub named-aged : (n : ℕ) (e : Option Entry) → Fits plain_set e → named (aged n e) ≡ named e
named-aged n e h = elim (Fits-set e h) [ inl m ↦ rw m | inr (ss, m) ↦ rw m ]

pub size-named : (e : Option Entry) → Fits plain_set e → unwrap_or 0 (size_of e) ≡ length (named e)
size-named e h = elim (Fits-set e h) [ inl m ↦ rw m | inr (ss, m) ↦ rw m ]

pub named-grown :
    (s : String) (e : Option Entry) → Fits plain_set e → named (grown s e) ≡ with_member s (named e)
unfolding with_member
named-grown s e h = elim (Fits-set e h) [ inl m ↦ rw m | inr (ss, m) ↦ rw m ]

pub is_some-timed : (e : Option Entry) → Fits lasting_text e → is_some (timed e) ≡ is_some e
is_some-timed e h = elim (Fits-lasting e h) [ inl m ↦ rw m | inr (s, n, m) ↦ rw m ]

pub is_some-seconds_of : (t : Option Timed) → is_some (seconds_of t) ≡ is_some t
is_some-seconds_of none = refl
is_some-seconds_of (some t) = refl
