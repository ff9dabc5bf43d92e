-- ===== src/Keys/Laws.antt =====
-- What marci writes into a key, the query service reads back; and no two keys share a text.
use ckb_discovery.Prelude.{
  String, ◌≡◌, refl, ap, ◌∙◌, true, is_some, contains, eq_refl, some, List, [], ◌∷◌, map, All,
  arith,
}
use ckb_discovery.Prelude.Texts.{
  ◌++◌, NoDot, rsplit, rsplit_once, rsplit_once-append, rsplit-append, has_two,
}
use ckb_discovery.Types.{CkbNetworkType, mirana, pudge, dev, into_str}
use ckb_discovery.Keys.{
  Key, online, online2, reachable, unknown, network_quick, key_text, keys_to_peer_ids,
  reachable_keys_to_peer_ids, second, last_part,
}

-- The keys whose last part is the peer id.
pub data PeerKey : Type 0 where
  is_online is_online2 is_reachable is_unknown : PeerKey

abbrev pub peer_key : PeerKey → String → Key
peer_key is_online = online
peer_key is_online2 = online2
peer_key is_reachable = reachable
peer_key is_unknown = unknown

pub last_part-peer_key :
    (kind : PeerKey) (id : String)
    → NoDot id
    → last_part (rsplit_once (key_text (peer_key kind id))) ≡ id
unfolding key_text
last_part-peer_key is_online id h = rw (rsplit_once-append "peer.online" id h)
last_part-peer_key is_online2 id h = rw (rsplit_once-append "peer.online2" id h)
last_part-peer_key is_reachable id h = rw (rsplit_once-append "peer.reachable" id h)
last_part-peer_key is_unknown id h = rw (rsplit_once-append "peer.unknown" id h)

-- From the online, ex-online, reachable or unknown keys of peer ids without a dot,
-- `keys_to_peer_ids` gives back those ids.
pub keys_to_peer_ids-key_text :
    (kind : PeerKey) (ids : List String)
    → All NoDot ids
    → keys_to_peer_ids (map (λ id. key_text (peer_key kind id)) ids) ≡ ids
unfolding keys_to_peer_ids
keys_to_peer_ids-key_text kind [] h = refl
keys_to_peer_ids-key_text kind (id ∷ ids) h =
    rw (last_part-peer_key kind id h.0) (ap (λ r. id ∷ r) (keys_to_peer_ids-key_text kind ids h.1))

pub into_str-NoDot : (n : CkbNetworkType) → NoDot (into_str n)
unfolding into_str
into_str-NoDot mirana = ground arith
into_str-NoDot pudge = ground arith
into_str-NoDot dev = ground arith

pub network_quick_text :
    (n : CkbNetworkType) (id : String)
    → key_text (network_quick id n) ≡ "network.peer." ++ (id ++ ("." ++ into_str n))
unfolding key_text
network_quick_text mirana id = refl
network_quick_text pudge id = refl
network_quick_text dev id = refl

pub second-network_quick :
    (n : CkbNetworkType) (id : String)
    → NoDot id
    → second (rsplit (key_text (network_quick id n))) ≡ some id
unfolding second
second-network_quick n id h =
    rw (network_quick_text n id)
      (rw (rsplit-append "network.peer" id (into_str n) h (into_str-NoDot n)))

-- From the network keys of peer ids without a dot, `reachable_keys_to_peer_ids` does not panic and
-- gives back those ids.
pub reachable_keys_to_peer_ids-key_text :
    (n : CkbNetworkType) (ids : List String)
    → All NoDot ids
    → reachable_keys_to_peer_ids (map (λ id. key_text (network_quick id n)) ids) ≡ some ids
unfolding reachable_keys_to_peer_ids
reachable_keys_to_peer_ids-key_text n [] h = refl
reachable_keys_to_peer_ids-key_text n (id ∷ ids) h =
    rw (second-network_quick n id h.0) (rw (reachable_keys_to_peer_ids-key_text n ids h.1) refl)

is_some-second : (l : List String) → is_some (second l) ≡ has_two l
unfolding second
is_some-second [] = refl
is_some-second (_ ∷ []) = refl
is_some-second (_ ∷ _ ∷ _) = refl

-- Keys with a dot each have a second part from the right.
pub reachable_keys_to_peer_ids-is_some :
    (keys : List String)
    → ((k : String) → contains keys k ≡ true → has_two (rsplit k) ≡ true)
    → is_some (reachable_keys_to_peer_ids keys) ≡ true
unfolding reachable_keys_to_peer_ids contains
reachable_keys_to_peer_ids-is_some [] h = refl
reachable_keys_to_peer_ids-is_some (k ∷ keys) h =
    let a = is_some-second (rsplit k) ∙ h k (rw (eq_refl k) refl) in
    let b = reachable_keys_to_peer_ids-is_some keys (λ j m. h j (rw m (ground arith))) in
    ground (arith, a, b)
