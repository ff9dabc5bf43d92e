-- ===== src/Pipeline/Listed.antt =====
-- marci/src/main.rs and exposed/src/main.rs: the keys that KEYS lists for the patterns of the programs.
use ckb_discovery.Prelude.{String, ◌≡◌, refl, true, is_some, Elem, contains-Elem, Elem-map}
use ckb_discovery.Prelude.Texts.{◌++◌, NoDot, append_nil}
use mathlib.Core.Path.{subst}
use ckb_discovery.Keys.{key_text, keys_to_peer_ids}
use ckb_discovery.Keys.Laws.{
  PeerKey, is_online, is_online2, is_reachable, is_unknown, peer_key, last_part-peer_key,
}
use ckb_discovery.Redis.{Redis, IsServer}
use ckb_discovery.Redis.Glob.{glob, Plain, Simple, glob-star-append}
use ckb_discovery.Redis.Scan.{Scans, IsScan}
use ckb_discovery.Marci.Spec.{at}

-- The patterns with which the programs look for the keys of all peers.
abbrev pub pattern_of : PeerKey → String
pattern_of is_online = "peer.online.*"
pattern_of is_online2 = "peer.online2.*"
pattern_of is_reachable = "peer.reachable.*"
pattern_of is_unknown = "peer.unknown.*"

star_fits : (p id : String) → Plain p → glob (p ++ ("*" ++ "")) (p ++ id) ≡ true
star_fits p id h =
    subst (λ (s : String). glob (p ++ ("*" ++ "")) (p ++ s) ≡ true) (append_nil id)
      (glob-star-append p id "" h)

glob-pattern_of :
    (kind : PeerKey) (id : String) → glob (pattern_of kind) (key_text (peer_key kind id)) ≡ true
unfolding key_text
glob-pattern_of is_online id = star_fits "peer.online." id refl
glob-pattern_of is_online2 id = star_fits "peer.online2." id refl
glob-pattern_of is_reachable id = star_fits "peer.reachable." id refl
glob-pattern_of is_unknown id = star_fits "peer.unknown." id refl

pub Simple-pattern_of : (kind : PeerKey) → Simple (pattern_of kind)
Simple-pattern_of is_online = refl
Simple-pattern_of is_online2 = refl
Simple-pattern_of is_reachable = refl
Simple-pattern_of is_unknown = refl

module _ {r : Redis} {s : IsServer r} {sc : Scans r} (x : IsScan s sc) (db : r.Db)
    (alive : s.alive db ≡ true) where
  -- A peer with a key of some kind is among the peer ids that are read out of the listed keys.
  pub listed_peer_id :
      (kind : PeerKey) (id : String)
      → NoDot id
      → is_some (at (s.view db) (peer_key kind id)) ≡ true
      → Elem id (keys_to_peer_ids (x.listed (pattern_of kind) db))
  unfolding keys_to_peer_ids
  listed_peer_id kind id dots present =
      subst (λ (i : String). Elem i (keys_to_peer_ids (x.listed (pattern_of kind) db)))
        (last_part-peer_key kind id dots)
        (Elem-map _ (key_text (peer_key kind id)) _ (
          contains-Elem (key_text (peer_key kind id)) _ (
            rw
              (x.listed_lem (pattern_of kind) (key_text (peer_key kind id)) db
                (Simple-pattern_of kind) alive)
              (rw (glob-pattern_of kind id) present))))
