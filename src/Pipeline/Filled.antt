-- ===== src/Pipeline/Filled.antt =====
-- marci/src/main.rs and exposed/src/main.rs: on the database that marci keeps, the query service answers.
use ckb_discovery.Prelude.{
  ℕ, String, ◌≡◌, ◌≢◌, refl, sym, ap, ◌∙◌, Bool, true, false, ◌&&◌, Option, none, some, List, [],
  ◌∷◌, is_some, contains, arith, map, str_eq, eq_iff, Bool-cases, inl, inr, eq_refl,
}
use mathlib.Core.Path.{subst}
use ckb_discovery.Prelude.Texts.{◌++◌, NoDot, rsplit_once, append_nil}
use ckb_discovery.Types.{CkbNetworkType, mirana, pudge, dev}
use ckb_discovery.Keys.{
  online, online2, key_text, keys_to_peer_ids, last_part, reachable_keys_to_peer_ids,
}
use ckb_discovery.Keys.Laws.{
  PeerKey, is_online, is_online2, is_reachable, is_unknown, peer_key, last_part-peer_key,
  reachable_keys_to_peer_ids-is_some,
}
use ckb_discovery.Keys.Distinct.{key_text-injective}
use ckb_discovery.Redis.{Redis, IsServer}
use ckb_discovery.Redis.Reference.{Entry, Value, text, members}
use ckb_discovery.Redis.Glob.{glob, Plain, glob-star}
use ckb_discovery.Redis.Scan.{Scans, IsScan, option_of}
use ckb_discovery.Marci.Spec.{at}
use ckb_discovery.Marci.Typed.{IsTyped, Fits, Shape, lasting_text}
use ckb_discovery.Marci.Names.{Dotless, AreNamed}
use ckb_discovery.Exposed.Exec.{Libraries, Outcome, done}
use ckb_discovery.Exposed.Info.{text_or_none}
use ckb_discovery.Exposed.Peers.{get_peers}
use ckb_discovery.Exposed.Peers.Listing.{details, IsFilled, get_peers_lem, table}
use ckb_discovery.Exposed.Peers.Settled.{key_pattern}
use ckb_discovery.Pipeline.Listed.{pattern_of, Simple-pattern_of}
use ckb_discovery.Pipeline.Shown.{reader_of, still_of}
use ckb_discovery.Pipeline.Panics.{has_two-key, fits}

contains-map :
    (f : String → String) (l : List String) (id : String)
    → contains (map f l) id ≡ true
    → (k : String) × (contains l k ≡ true) × (f k ≡ id)
unfolding contains
contains-map f [] id h = cc h
contains-map f (k ∷ l) id h = elim (Bool-cases (str_eq (f k) id)) [
  | inl e ↦ (k, rw (eq_refl k) refl, (eq_iff (f k) id).0 e)
  | inr e ↦ let (j, m, n) = contains-map f l id (rw e at h) in (j, rw m (ground arith), n)
]

text_entry :
    (v : Value) (ttl : Option ℕ)
    → Shape lasting_text v ttl
    → is_some (text_or_none (option_of (some (record { value = v; ttl = ttl })))) ≡ true
text_entry (text _) ttl f = refl
text_entry (members _) (some n) f = absurd f
text_entry (members _) none f = absurd f

-- A listed text of a key with a time to live is a text.
is_some-option_of :
    (e : Option Entry)
    → is_some e ≡ true
    → Fits lasting_text e
    → is_some (text_or_none (option_of e)) ≡ true
is_some-option_of none h f = cc h
is_some-option_of (some e) h f = text_entry e.value e.ttl f

NoDot-peer_key : (kind : PeerKey) (id : String) → Dotless (peer_key kind id) → NoDot id
NoDot-peer_key is_online id d = d
NoDot-peer_key is_online2 id d = d
NoDot-peer_key is_reachable id d = d
NoDot-peer_key is_unknown id d = d

-- What fits the pattern of a kind of keys is such a key.
starred :
    (p k : String) → Plain p → glob (p ++ ("*" ++ "")) k ≡ true → (id : String) × (k ≡ p ++ id)
starred p k plain g =
    let (t, e) = glob-star "" refl p k plain g in
    (t, e ∙ ap (λ (u : String). p ++ u) (append_nil t))

peer_key-pattern_of :
    (kind : PeerKey) (k : String)
    → glob (pattern_of kind) k ≡ true
    → (id : String) × (k ≡ key_text (peer_key kind id))
unfolding key_text
peer_key-pattern_of is_online k g = starred "peer.online." k refl g
peer_key-pattern_of is_online2 k g = starred "peer.online2." k refl g
peer_key-pattern_of is_reachable k g = starred "peer.reachable." k refl g
peer_key-pattern_of is_unknown k g = starred "peer.unknown." k refl g

both : (a b : Bool) → (a && b) ≡ true → (a ≡ true) × (b ≡ true)
both a b h = ground arith

-- The request gets its answer: neither an error nor a panic.
abbrev pub is_done : {A : Type 0} → Outcome A → Bool
is_done (done _) = true
is_done _ = false

module _ {r : Redis} {s : IsServer r} {sc : Scans r} (x : IsScan s sc) (db : r.Db)
    (alive : s.alive db ≡ true) (typed : IsTyped (s.view db)) (named : AreNamed (s.view db)) where
  -- A key of a kind that is there is the key of a peer whose id has no dot.
  last_part_lem :
      (kind : PeerKey) (id : String)
      → is_some (s.view db (key_text (peer_key kind id))) ≡ true
      → last_part (rsplit_once (key_text (peer_key kind id))) ≡ id
  last_part_lem kind id there =
      let n = named.at (key_text (peer_key kind id)) there in
      last_part-peer_key kind id (
        NoDot-peer_key kind id
          (subst Dotless (sym (key_text-injective (peer_key kind id) n.key n.text)) n.dotless))

  -- A peer id that is read out of the listed keys of a kind is that of such a key.
  pub is_some-listed :
      (kind : PeerKey) (id : String)
      → contains (keys_to_peer_ids (x.listed (pattern_of kind) db)) id ≡ true
      → is_some (at (s.view db) (peer_key kind id)) ≡ true
  unfolding keys_to_peer_ids
  is_some-listed kind id h =
      let (k, m, e) = contains-map _ (x.listed (pattern_of kind) db) id h in
      let (g, there) =
        both _ _ (sym (x.listed_lem (pattern_of kind) k db (Simple-pattern_of kind) alive) ∙ m) in
      let (a, f) = peer_key-pattern_of kind k g in
      let there' = subst (λ (j : String). is_some (s.view db j) ≡ true) f there in
      subst (λ (b : String). is_some (at (s.view db) (peer_key kind b)) ≡ true)
        (sym (last_part_lem kind a there')
          ∙ (ap (λ (j : String). last_part (rsplit_once j)) (sym f) ∙ e))
        there'

  module _ (l : Libraries) where
    pub filled : IsFilled l (still_of x db alive)
    filled = record {
      online_lem =
          λ id h. is_some-option_of _ (is_some-listed is_online id h) (typed.at (online id));
      online2_lem =
          λ id h. is_some-option_of _ (is_some-listed is_online2 id h) (typed.at (online2 id));
    }

    module _ (day : String → l.Date)
        (dates : (id : String)
          → l.date (details l (still_of x db alive) id).timestamp ≡ some (day id)) where
      table-is_done :
          (ids : Option (List String))
          → is_some ids ≡ true
          → is_done (table l (still_of x db alive) filled day dates ids) ≡ true
      table-is_done (some ids) h = refl
      table-is_done none h = cc h

      two_parts :
          (network : CkbNetworkType)
          → network ≢ dev
          → is_some (reachable_keys_to_peer_ids (x.listed (key_pattern network) db)) ≡ true
      two_parts network h =
          reachable_keys_to_peer_ids-is_some _
            (λ k m. has_two-key network k h (fits x db alive l day dates network k m))

      pub get_peers-is_done :
          (network : CkbNetworkType)
          → network ≢ dev
          → is_done (get_peers (reader_of sc) l network db).0 ≡ true
      get_peers-is_done mirana h =
          rw (get_peers_lem l (still_of x db alive) filled day dates mirana)
            (table-is_done _ (two_parts mirana h))
      get_peers-is_done pudge h =
          rw (get_peers_lem l (still_of x db alive) filled day dates pudge)
            (table-is_done _ (two_parts pudge h))
      get_peers-is_done dev h = absurd (h refl)
