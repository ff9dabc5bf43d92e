-- ===== src/Tests/Database.antt =====
-- marci/src/main.rs and exposed/src/main.rs, on the reference map.
use ckb_discovery.Prelude.{◌≡◌, refl, true, false, none, some, List, [], ◌∷◌, ok}
use ckb_discovery.Types.{mirana, v4, NodeMetaInfo, PeerInfo, ReachableInfo}
use ckb_discovery.Keys.{online, reachable, info, last_seen}
use ckb_discovery.Keys.Distinct.{key_text-injective}
use ckb_discovery.Redis.{reference}
use ckb_discovery.Redis.Reference.{View, plain, lasting, members}
use ckb_discovery.Marci.Exec.{Config, World}
use ckb_discovery.Marci.Arms.{
  Event, online_event, unknown_event, reachable_event, wait, unknown_arm, online_arm, reachable_arm,
}
use ckb_discovery.Marci.Typed.{IsTyped}
use ckb_discovery.Marci.Spec.{at, unknown_arm_lem}
use ckb_discovery.Marci.OnlineSpec.{online_arm_lem}
use ckb_discovery.Marci.ReachableSpec.{reachable_arm_lem}
use ckb_discovery.Tests.Doubles.{reference-IsServer, silent, toy_texts}

abbrev pub config : Config
config = record { default_timeout = 60; unknown_default_timeout = 30; default_witnesses = 1 }

abbrev empty : View
empty _ = none

abbrev fresh : World reference silent
fresh = record { db = empty; cache = []; service = tt }

abbrev peer : NodeMetaInfo
peer = record {
  peer_id = "Qm";
  addresses = record { address = v4 1; port = 8114 } ∷ [];
  network = mirana;
}

abbrev seen : PeerInfo
seen = record { info = peer; version = "0.120"; full = true; is_ex = false }

-- A peer is announced, its dial fails, nothing comes for a while, and it comes online.
abbrev day : List Event
day =
    reachable_event 1 1 (record { peer = peer; from = record peer { peer_id = "Qn" } })
    ∷ unknown_event 2 peer
    ∷ wait 20
    ∷ online_event 22 seen
    ∷ []

empty-IsTyped : IsTyped empty
empty-IsTyped = record { at = λ k. tt }

unknown_arm_lem_example :
    ((unknown_arm reference silent toy_texts config 2 peer fresh).0 ≡ ok tt)
    × (at (unknown_arm reference silent toy_texts config 2 peer fresh).1.db (info last_seen "Qm")
        ≡ plain "7")
unknown_arm_lem_example =
    unknown_arm_lem reference-IsServer toy_texts config 2 peer fresh (info last_seen "Qm") refl refl
      refl

online_arm_lem_example :
    ((online_arm reference silent toy_texts config 2 seen fresh).0 ≡ ok tt)
    × (at (online_arm reference silent toy_texts config 2 seen fresh).1.db (online "Qm")
        ≡ lasting "0.120" 60)
online_arm_lem_example =
    online_arm_lem reference-IsServer toy_texts config 2 seen fresh (online "Qm") refl refl

abbrev report : ReachableInfo
report = record { peer = peer; from = record peer { peer_id = "Qn" } }

reachable_arm_lem_example :
    ((reachable_arm reference silent toy_texts config 1 1 report fresh).0 ≡ ok tt)
    × (at (reachable_arm reference silent toy_texts config 1 1 report fresh).1.db (reachable "Qm")
        ≡ some (record { value = members ("Qn" ∷ []); ttl = none }))
reachable_arm_lem_example =
    reachable_arm_lem reference-IsServer toy_texts config 1 1 report fresh (reachable "Qm") refl
      empty-IsTyped

key_text-injective_example : online "Qm" ≡ online "Qm"
key_text-injective_example = key_text-injective (online "Qm") (online "Qm") refl
