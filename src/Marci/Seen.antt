-- ===== src/Marci/Seen.antt =====
-- marci/src/main.rs: on the report that a peer is online, the database follows the machine of each peer.
use ckb_discovery.Prelude.{
  ℕ, String, ◌≡◌, refl, true, ap, ◌∙◌, not, ◌&&◌, Option, none, List, str_eq, eq_iff, eq_refl,
  if◌then◌else◌, Bool-cases, inl, inr,
}
use mathlib.Core.Path.{subst}
use ckb_discovery.Types.{EndpointInfo, PeerInfo}
use ckb_discovery.Keys.{Key, online, online2, reachable, unknown}
use ckb_discovery.Redis.Reference.{is_time, View, Entry, lasting, refreshed, text_of}
use ckb_discovery.Marci.Exec.{Config, IpDetails, Texts}
use ckb_discovery.Marci.Arms.{online_event}
use ckb_discovery.Marci.Broadcast.{message}
use ckb_discovery.Marci.Typed.{IsTyped, Fits, lasting_text, nonzero}
use ckb_discovery.Marci.Spec.{at, is_ok, is_online}
use ckb_discovery.Marci.OnlineSpec.{after_online}
use ckb_discovery.Marci.Status.{seen_online, step}
use ckb_discovery.Marci.Entries.{timed, seconds_of, named, status_in, Fits-lasting}
use ckb_discovery.Marci.Tracks.{Status-eq, same_status}

module _ (t : Texts) (cfg : Config) (lasts : is_time cfg.default_timeout ≡ true) where
  -- The status after the peer was seen online: `old` is its online key, `old2` its ex-online key.
  seen_lem :
      (peer : PeerInfo) (old old2 e : Option Entry) (ws : List String)
      → Fits lasting_text old
      → record {
        online = timed (
            if is_ok (text_of old)
            then refreshed cfg.default_timeout old
            else if peer.is_ex
            then old
            else lasting peer.version cfg.default_timeout);
        ex = timed (
            if not (is_ok (text_of old)) && peer.is_ex
            then lasting peer.version cfg.default_timeout
            else old2);
        unknown = none;
        witnesses = ws;
      }
        ≡ seen_online cfg peer
            (record {
              online = timed old;
              ex = timed old2;
              unknown = seconds_of (timed e);
              witnesses = ws;
            })
            (timed old)
  seen_lem peer old old2 e ws fits = elim (Fits-lasting old fits) [
    | inr (s, n, m) ↦ rw m (rw (nonzero cfg.default_timeout lasts) refl)
    | inl m ↦ elim (Bool-cases peer.is_ex) [ inl x ↦ rw (m, x) refl | inr x ↦ rw (m, x) refl ]
  ]

  online_own :
      (v v' : View) (now : ℕ) (peer : PeerInfo) (addr : Option EndpointInfo) (d : Option IpDetails)
      → IsTyped v
      → ((k : Key)
          → at v' k
            ≡ after_online t cfg peer v (is_online v peer.info.peer_id) peer.is_ex now addr d k)
      → status_in v' peer.info.peer_id
        ≡ step cfg peer.info.peer_id
            (message (online_event now peer))
            (status_in v peer.info.peer_id)
  online_own v v' now peer addr d typed h =
      let id = peer.info.peer_id in
      rw (eq_refl id) (
        Status-eq _ _ (ap timed (rw (eq_refl id) at (h (online id))))
          (ap timed (rw (eq_refl id) at (h (online2 id))))
          (ap (λ (x : Option Entry). seconds_of (timed x)) (rw (eq_refl id) at (h (unknown id))))
          (ap named (h (reachable id)))
        ∙ seen_lem peer (at v (online id)) (at v (online2 id)) (at v (unknown id))
            (named (at v (reachable id))) (typed.at (online id)))

  pub online_tracks :
      (v v' : View) (id : String) (now : ℕ) (peer : PeerInfo) (addr : Option EndpointInfo)
      (d : Option IpDetails)
      → IsTyped v
      → ((k : Key)
          → at v' k
            ≡ after_online t cfg peer v (is_online v peer.info.peer_id) peer.is_ex now addr d k)
      → status_in v' id ≡ step cfg id (message (online_event now peer)) (status_in v id)
  online_tracks v v' id now peer addr d typed h = elim (Bool-cases (str_eq peer.info.peer_id id)) [
    | inl same ↦
        subst
          (λ (j : String).
            status_in v' j ≡ step cfg j (message (online_event now peer)) (status_in v j))
          ((eq_iff peer.info.peer_id id).0 same) (online_own v v' now peer addr d typed h)
    | inr other ↦ rw other (
        same_status v v' id (h (online id) ∙ rw other) (h (online2 id) ∙ rw other)
          (h (unknown id) ∙ rw other) (h (reachable id)))
  ]
