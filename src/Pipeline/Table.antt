-- ===== src/Pipeline/Table.antt =====
-- marci/src/main.rs and exposed/src/main.rs: which peers the query service lists after a history of messages,
-- pauses and ticks.
use ckb_discovery.Prelude.{
  ℕ, String, ◌≡◌, ◌≢◌, refl, sym, ◌∙◌, Bool, true, false, ◌||◌, ◌&&◌, some, List, [], ◌∷◌, All,
  is_some, contains, arith, Elem-contains, retain, map, ◌+◌,
}
use mathlib.Core.Path.{subst}
use ckb_discovery.Prelude.Texts.{NoDot}
use ckb_discovery.Types.{CkbNetworkType, mirana, pudge, dev}
use ckb_discovery.Keys.{
  online, online2, unknown, network_quick, key_text, keys_to_peer_ids, reachable_keys_to_peer_ids,
}
use ckb_discovery.Keys.Laws.{
  PeerKey, is_online, is_online2, is_unknown, peer_key, network_quick_text,
}
use ckb_discovery.Keys.Distinct.{key_text-injective}
use ckb_discovery.Keys.Listed.{IsNetworkKey, ReadsIds, all-ReadsIds}
use ckb_discovery.Redis.{Redis, IsServer}
use ckb_discovery.Redis.Glob.{glob, glob-star, glob-star-append}
use ckb_discovery.Redis.Scan.{Scans, IsScan}
use ckb_discovery.Marci.Spec.{at}
use ckb_discovery.Marci.Typed.{IsTyped}
use ckb_discovery.Marci.Names.{Dotless, AreNamed}
use ckb_discovery.Exposed.Exec.{Libraries, Outcome, done, Peer}
use ckb_discovery.Exposed.Peers.{is_known, get_peers}
use ckb_discovery.Exposed.Peers.Listing.{details, known, get_peers_lem, row_at, ids_of, numbered}
use ckb_discovery.Exposed.Peers.Settled.{key_pattern}
use ckb_discovery.Pipeline.Listed.{pattern_of, listed_peer_id}
use ckb_discovery.Pipeline.Shown.{reader_of, still_of}
use ckb_discovery.Pipeline.Panics.{Simple-key_pattern}
use ckb_discovery.Pipeline.Filled.{filled, is_some-listed}

-- What fits the pattern of a network's keys is such a key.
network_key :
    (network : CkbNetworkType) (k : String)
    → network ≢ dev
    → glob (key_pattern network) k ≡ true
    → (id : String) × (k ≡ key_text (network_quick id network))
unfolding key_text
network_key mirana k h g =
    let (t, e) = glob-star ".mirana" refl "network.peer." k refl g in
    (t, e ∙ sym (network_quick_text mirana t))
network_key pudge k h g =
    let (t, e) = glob-star ".pudge" refl "network.peer." k refl g in
    (t, e ∙ sym (network_quick_text pudge t))
network_key dev k h g = absurd (h refl)

same_truth : (a b : Bool) → (a ≡ true → b ≡ true) → (b ≡ true → a ≡ true) → a ≡ b
same_truth true b f g = sym (f refl)
same_truth false true f g = g refl
same_truth false false f g = refl

pub glob-key_pattern :
    (network : CkbNetworkType) (id : String)
    → network ≢ dev
    → glob (key_pattern network) (key_text (network_quick id network)) ≡ true
unfolding key_text
glob-key_pattern mirana id h = glob-star-append "network.peer." id ".mirana" refl
glob-key_pattern pudge id h = glob-star-append "network.peer." id ".pudge" refl
glob-key_pattern dev id h = absurd (h refl)

retain-same :
    (p q : String → Bool) (n : ℕ) (ids : List String)
    → All (λ (id : String). p id ≡ q id) ids
    → retain (λ (a : ℕ × String). p a.1) (numbered n ids)
      ≡ retain (λ (a : ℕ × String). q a.1) (numbered n ids)
retain-same p q n [] h = refl
retain-same p q n (id ∷ ids) (e, es) = rw (e, retain-same p q (n + 1) ids es) refl

All-same :
    {A : Type 0} (P Q : A → Type 0) (f : (a : A) → P a → Q a) (xs : List A) → All P xs → All Q xs
All-same P Q f [] h = tt
All-same P Q f (a ∷ xs) (h, hs) = (f a h, All-same P Q f xs hs)

parts : (a b : Bool) → (a && b) ≡ true → (a ≡ true) × (b ≡ true)
parts a b h = ground arith

module _ {r : Redis} {s : IsServer r} {sc : Scans r} (x : IsScan s sc) (db : r.Db)
    (alive : s.alive db ≡ true) (typed : IsTyped (s.view db)) (named : AreNamed (s.view db)) where
  has_kind :
      (kind : PeerKey) (id : String)
      → NoDot id
      → contains (keys_to_peer_ids (x.listed (pattern_of kind) db)) id
        ≡ is_some (at (s.view db) (peer_key kind id))
  has_kind kind id dots =
      same_truth _ _ (is_some-listed x db alive typed named kind id)
        (λ there. Elem-contains id _ (listed_peer_id x db alive kind id dots there))

  pub is_known_lem :
      (l : Libraries) (id : String)
      → NoDot id
      → is_known (known l (still_of x db alive)) id ≡ (
          is_some (at (s.view db) (online id))
          || is_some (at (s.view db) (online2 id))
          || is_some (at (s.view db) (unknown id)))
  unfolding is_known
  is_known_lem l id dots =
      rw (has_kind is_online id dots, has_kind is_online2 id dots, has_kind is_unknown id dots) refl

  module _ (network : CkbNetworkType) (public : network ≢ dev) where
    is_network_key :
        (k : String)
        → contains (x.listed (key_pattern network) db) k ≡ true
        → IsNetworkKey network k
    is_network_key k m =
        let (g, there) =
          parts _ _ (
            sym (x.listed_lem (key_pattern network) k db (Simple-key_pattern network) alive) ∙ m) in
        let (a, e) = network_key network k public g in
        let n = named.at k there in
        record {
          id = a;
          dots =
              subst Dotless (key_text-injective n.key (network_quick a network) (sym n.text ∙ e))
                n.dotless;
          text = e;
        }

    pub network_ids : ReadsIds network (x.listed (key_pattern network) db)
    network_ids = all-ReadsIds network (x.listed (key_pattern network) db) is_network_key

    module _ (l : Libraries) (day : String → l.Date)
        (dates : (a : String)
          → l.date (details l (still_of x db alive) a).timestamp ≡ some (day a)) where
      -- The answer with the rows of the peers that are shown, in the order of the keys of the network.
      abbrev pub row_of : ℕ × String → Peer l
      row_of = row_at l (still_of x db alive) (filled x db alive typed named l) day dates

      abbrev pub rows_of : (ids : List String) → (shown : String → Bool) → Outcome (List (Peer l))
      rows_of ids shown =
          done (map row_of (retain (λ (a : ℕ × String). shown a.1) (numbered 0 ids)))

      by_network :
          (n : CkbNetworkType)
          → n ≢ dev
          → ids_of l (still_of x db alive) (filled x db alive typed named l) day dates n
            ≡ reachable_keys_to_peer_ids (x.listed (key_pattern n) db)
      by_network mirana h = refl
      by_network pudge h = refl
      by_network dev h = absurd (h refl)

      pub get_peers-rows_of :
          (shown : String → Bool)
          → ((id : String) → NoDot id → is_known (known l (still_of x db alive)) id ≡ shown id)
          → (get_peers (reader_of sc) l network db).0 ≡ rows_of network_ids.ids shown
      get_peers-rows_of shown h =
          rw
            (
              get_peers_lem l (still_of x db alive) (filled x db alive typed named l) day dates
                  network,
              by_network network public,
              network_ids.read,
            )
            (rw
              (retain-same (is_known (known l (still_of x db alive))) shown 0 network_ids.ids
                (All-same NoDot _ h network_ids.ids network_ids.dots))
              refl)
