-- ===== src/Keys/Listed.antt =====
-- exposed/src/main.rs: the peer ids that are read out of the keys of a network.
use ckb_discovery.Prelude.{
  String, ◌≡◌, refl, ap, true, some, List, [], ◌∷◌, arith, contains, str_eq, eq_iff, eq_refl,
  Bool-cases, inl, inr, Elem, All,
}
use ckb_discovery.Prelude.Texts.{NoDot}
use ckb_discovery.Types.{CkbNetworkType}
use ckb_discovery.Keys.{Key, network_quick, key_text, reachable_keys_to_peer_ids}
use ckb_discovery.Keys.Laws.{second-network_quick}
use ckb_discovery.Keys.Distinct.{key_text-injective}

-- The key of a peer without a dot under the network.
pub record IsNetworkKey (network : CkbNetworkType) (k : String) : Type 0 where
  pub id : String
  pub dots : NoDot id
  pub text : k ≡ key_text (network_quick id network)

peer_of : Key → String
peer_of (network_quick id network) = id
peer_of _ = ""

same_peer :
    (network : CkbNetworkType) (a b : String)
    → key_text (network_quick a network) ≡ key_text (network_quick b network)
    → a ≡ b
unfolding peer_of
same_peer network a b h =
    ap peer_of (key_text-injective (network_quick a network) (network_quick b network) h)

-- The ids that are read out of some keys of the network.
pub record ReadsIds (network : CkbNetworkType) (keys : List String) : Type 0 where
  pub ids : List String
  pub dots : All NoDot ids
  pub read : reachable_keys_to_peer_ids keys ≡ some ids
  pub there :
      (id : String) → contains keys (key_text (network_quick id network)) ≡ true → Elem id ids
  pub only :
      (id : String) → Elem id ids → contains keys (key_text (network_quick id network)) ≡ true

module _ (network : CkbNetworkType) where
  one_more :
      (a : String) (keys : List String)
      → NoDot a
      → ReadsIds network keys
      → ReadsIds network (key_text (network_quick a network) ∷ keys)
  unfolding reachable_keys_to_peer_ids contains
  one_more a keys dots h = record {
    ids = a ∷ h.ids;
    dots = (dots, h.dots);
    read = rw (second-network_quick network a dots) (rw h.read refl);
    there = λ id m.
        elim (Bool-cases
          (str_eq (key_text (network_quick a network)) (key_text (network_quick id network)))) [
            | inl same ↦ inl (
                same_peer network a id (
                  (eq_iff (key_text (network_quick a network))
                      (key_text (network_quick id network))).0
                    same))
            | inr other ↦ inr (h.there id (rw other at m))
          ];
    only = λ id m. elim m [
      | inl same ↦ rw (same, eq_refl (key_text (network_quick id network))) refl
      | inr later ↦ rw (h.only id later) (ground arith)
    ];
  }

  -- From keys of the network, each of a peer without a dot, the ids of exactly these peers are read.
  pub all-ReadsIds :
      (keys : List String)
      → ((k : String) → contains keys k ≡ true → IsNetworkKey network k)
      → ReadsIds network keys
  unfolding reachable_keys_to_peer_ids contains
  all-ReadsIds [] h = record {
    ids = [];
    dots = tt;
    read = refl;
    there = λ id m. cc m;
    only = λ id m. absurd m;
  }
  all-ReadsIds (k ∷ keys) h =
      let first = h k (rw (eq_refl k) refl) in
      rw first.text
        (one_more first.id keys first.dots (all-ReadsIds keys (λ j m. h j (rw m (ground arith)))))
