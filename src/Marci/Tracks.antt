-- ===== src/Marci/Tracks.antt =====
-- marci/src/main.rs: on a failed dial, an announcement and a pause, the database follows the machine of each peer.
use ckb_discovery.Prelude.{
  ℕ, String, ◌≡◌, refl, true, ap, ◌∙◌, Bool, not, ◌&&◌, Option, none, length, leb, str_eq, eq_iff,
  eq_refl, if◌then◌else◌, Bool-cases, inl, inr,
}
use mathlib.Core.Path.{subst}
use ckb_discovery.Types.{NodeMetaInfo, ReachableInfo}
use ckb_discovery.Keys.{Key, online, online2, reachable, unknown}
use ckb_discovery.Redis.Reference.{
  is_time, View, Entry, lasting, refreshed, elapse, text_of, size_of,
}
use ckb_discovery.Marci.Exec.{Config, IpDetails, Texts, unwrap_or}
use ckb_discovery.Marci.Arms.{unknown_event, reachable_event, wait}
use ckb_discovery.Marci.Broadcast.{message}
use ckb_discovery.Marci.Typed.{IsTyped, Fits, lasting_text, plain_set, nonzero}
use ckb_discovery.Marci.Spec.{at, is_ok, is_online, witnesses, after_unknown}
use ckb_discovery.Marci.ReachableSpec.{after_reachable}
use ckb_discovery.Marci.Status.{Status, failed_dial, step}
use ckb_discovery.Marci.Entries.{
  timed, seconds_of, named, status_in, timed-aged, seconds_of-aged_timed, named-aged, size-named,
  named-grown, Fits-lasting,
}

pub Status-eq :
    (a b : Status)
    → a.online ≡ b.online
    → a.ex ≡ b.ex
    → a.unknown ≡ b.unknown
    → a.witnesses ≡ b.witnesses
    → a ≡ b
Status-eq a b o e u w = λ i. record { online = o i; ex = e i; unknown = u i; witnesses = w i }

-- The keys of a peer that a step leaves alone.
pub same_status :
    (v v' : View) (id : String)
    → at v' (online id) ≡ at v (online id)
    → at v' (online2 id) ≡ at v (online2 id)
    → at v' (unknown id) ≡ at v (unknown id)
    → at v' (reachable id) ≡ at v (reachable id)
    → status_in v' id ≡ status_in v id
same_status v v' id o e u w =
    Status-eq _ _ (ap timed o) (ap timed e) (ap (λ (x : Option Entry). seconds_of (timed x)) u)
      (ap named w)

module _ (t : Texts) (cfg : Config) (lasts : is_time cfg.default_timeout ≡ true) where
  -- The status after a dial of the peer failed: `old` is its online key and `e` its unknown one.
  failed_lem :
      (old old2 e ws : Option Entry)
      → Fits lasting_text old
      → Fits plain_set ws
      → record {
        online = timed (if is_ok (text_of old) then refreshed cfg.default_timeout old else old);
        ex = timed old2;
        unknown = seconds_of (
            timed (
              if not (is_ok (text_of old)) && leb cfg.default_witnesses (unwrap_or 0 (size_of ws))
              then lasting "unknown" cfg.unknown_default_timeout
              else e));
        witnesses = named (
            if not (is_ok (text_of old)) && leb cfg.default_witnesses (unwrap_or 0 (size_of ws))
            then none
            else ws);
      }
        ≡ failed_dial cfg
            (record {
              online = timed old;
              ex = timed old2;
              unknown = seconds_of (timed e);
              witnesses = named ws;
            })
            (timed old)
  failed_lem old old2 e ws fits fits' = elim (Fits-lasting old fits) [
    | inr (s, n, m) ↦ rw m (rw (nonzero cfg.default_timeout lasts) refl)
    | inl m ↦
        rw (m, size-named ws fits')
          (elim (Bool-cases (leb cfg.default_witnesses (length (named ws)))) [
            | inl x ↦ rw x refl
            | inr x ↦ rw x refl
          ])
  ]

  unknown_own :
      (v v' : View) (now : ℕ) (peer : NodeMetaInfo)
      → IsTyped v
      → ((k : Key)
          → at v' k
            ≡ after_unknown t cfg peer.peer_id v
                (is_online v peer.peer_id)
                (leb cfg.default_witnesses (witnesses v peer.peer_id))
                now
                k)
      → status_in v' peer.peer_id
        ≡ step cfg peer.peer_id (message (unknown_event now peer)) (status_in v peer.peer_id)
  unknown_own v v' now peer typed h =
      let id = peer.peer_id in
      rw (eq_refl id) (
        Status-eq _ _ (ap timed (rw (eq_refl id) at (h (online id)))) (ap timed (h (online2 id)))
          (ap (λ (x : Option Entry). seconds_of (timed x)) (rw (eq_refl id) at (h (unknown id))))
          (ap named (rw (eq_refl id) at (h (reachable id))))
        ∙ failed_lem (at v (online id)) (at v (online2 id)) (at v (unknown id))
            (at v (reachable id)) (typed.at (online id)) (typed.at (reachable id)))

  pub unknown_tracks :
      (v v' : View) (id : String) (now : ℕ) (peer : NodeMetaInfo)
      → IsTyped v
      → ((k : Key)
          → at v' k
            ≡ after_unknown t cfg peer.peer_id v
                (is_online v peer.peer_id)
                (leb cfg.default_witnesses (witnesses v peer.peer_id))
                now
                k)
      → status_in v' id ≡ step cfg id (message (unknown_event now peer)) (status_in v id)
  unknown_tracks v v' id now peer typed h = elim (Bool-cases (str_eq peer.peer_id id)) [
    | inl same ↦
        subst
          (λ (j : String).
            status_in v' j ≡ step cfg j (message (unknown_event now peer)) (status_in v j))
          ((eq_iff peer.peer_id id).0 same) (unknown_own v v' now peer typed h)
    | inr other ↦ rw other (
        same_status v v' id (h (online id) ∙ rw other) (h (online2 id)) (h (unknown id) ∙ rw other)
          (h (reachable id) ∙ rw other))
  ]

  pub reachable_tracks :
      (v v' : View) (id : String) (known : Bool) (d : Option IpDetails) (now later : ℕ)
      (msg : ReachableInfo)
      → IsTyped v
      → ((k : Key) → at v' k ≡ after_reachable t msg v known d now later k)
      → status_in v' id ≡ step cfg id (message (reachable_event now later msg)) (status_in v id)
  reachable_tracks v v' id known d now later msg typed h =
      elim (Bool-cases (str_eq msg.peer.peer_id id)) [
        | inl same ↦ rw same (
            Status-eq _ _ (ap timed (h (online id))) (ap timed (h (online2 id)))
              (ap (λ (x : Option Entry). seconds_of (timed x)) (h (unknown id)))
              (ap named (rw (same, (eq_iff msg.peer.peer_id id).0 same) at (h (reachable id)))
                ∙ named-grown msg.from.peer_id (at v (reachable id)) (typed.at (reachable id))))
        | inr other ↦ rw other (
            same_status v v' id (h (online id)) (h (online2 id)) (h (unknown id))
              (h (reachable id) ∙ rw other))
      ]

  pub wait_tracks :
      (v v' : View) (id : String) (n : ℕ)
      → IsTyped v
      → v' ≡ elapse n v
      → status_in v' id ≡ step cfg id (message (wait n)) (status_in v id)
  wait_tracks v v' id n typed h = rw h (
      Status-eq _ _ (timed-aged n (at v (online id)) (typed.at (online id)))
        (timed-aged n (at v (online2 id)) (typed.at (online2 id)))
        (ap seconds_of (timed-aged n (at v (unknown id)) (typed.at (unknown id)))
          ∙ seconds_of-aged_timed n (timed (at v (unknown id))))
        (named-aged n (at v (reachable id)) (typed.at (reachable id))))
