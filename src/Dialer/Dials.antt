-- ===== src/Dialer/Dials.antt =====
-- src/main.rs: what is dialled for a record that marci published.
use ckb_discovery.Prelude.{
  ◌≡◌, ◌≢◌, refl, Option, none, some, List, [], ◌∷◌, map, Elem, Elem-map, inl, inr,
}
use ckb_discovery.Prelude.Runs.{Run}
use ckb_discovery.Types.{CkbNetworkType, mirana, pudge, dev, NodeMetaInfo}
use ckb_discovery.Compress.{Bytes}
use ckb_discovery.Multiaddr.{P2p}
use ckb_discovery.Network.{meta_info_to_addr}
use ckb_discovery.Dialer.{Dial, dial_on, dial_addr, dial_addrs, on_message}

module _ (x : P2p) (from_slice : Bytes → Option NodeMetaInfo) where
  abbrev pub present : List (Option x.Multiaddr) → List x.Multiaddr
  present [] = []
  present (none ∷ addrs) = present addrs
  present (some addr ∷ addrs) = addr ∷ present addrs

  -- The dials of a run, and the end of it: the development network has no service.
  abbrev pub dials_of : CkbNetworkType → List x.Multiaddr → Run (Dial x.Multiaddr) (Unit {0})
  dials_of dev (addr ∷ addrs) = (none, [])
  dials_of network addrs = (some tt, map (dial_on network) addrs)

  pub dial_addrs_lem :
      (network : CkbNetworkType) (addrs : List (Option x.Multiaddr))
      → dial_addrs x from_slice network addrs ≡ dials_of network (present addrs)
  unfolding dial_addrs dial_addr
  dial_addrs_lem mirana [] = refl
  dial_addrs_lem pudge [] = refl
  dial_addrs_lem dev [] = refl
  dial_addrs_lem network (none ∷ addrs) = dial_addrs_lem network addrs
  dial_addrs_lem dev (some addr ∷ addrs) = refl
  dial_addrs_lem mirana (some addr ∷ addrs) = rw (dial_addrs_lem mirana addrs)
  dial_addrs_lem pudge (some addr ∷ addrs) = rw (dial_addrs_lem pudge addrs)

  -- For a record that the topic's JSON gives, the dialer dials the multiaddresses of its public
  -- addresses that parse, all and in order, on the service of the record's network, and returns;
  -- but on the development network it panics as soon as there is one such multiaddress.
  pub on_message_lem :
      (bytes : Bytes) (node : NodeMetaInfo)
      → from_slice bytes ≡ some node
      → on_message x from_slice (some (record { topic = "peer/needs_dial"; payload = bytes }))
        ≡ dials_of node.network (present (meta_info_to_addr x node))
  unfolding on_message
  on_message_lem bytes node h = rw h (dial_addrs_lem node.network (meta_info_to_addr x node))

  pub Elem-present :
      (addrs : List (Option x.Multiaddr)) (addr : x.Multiaddr)
      → Elem (some addr) addrs
      → Elem addr (present addrs)
  Elem-present (none ∷ addrs) addr (inl e) = cc
  Elem-present (none ∷ addrs) addr (inr h) = Elem-present addrs addr h
  Elem-present (some a ∷ addrs) addr (inl e) = inl (cc)
  Elem-present (some a ∷ addrs) addr (inr h) = inr (Elem-present addrs addr h)
  Elem-present [] addr h = absurd h

  pub Elem-dials_of :
      (n : CkbNetworkType) (addrs : List x.Multiaddr) (addr : x.Multiaddr)
      → n ≢ dev
      → Elem addr addrs
      → Elem (dial_on n addr) (dials_of n addrs).1
  Elem-dials_of mirana addrs addr h m = Elem-map (dial_on mirana) addr addrs m
  Elem-dials_of pudge addrs addr h m = Elem-map (dial_on pudge) addr addrs m
  Elem-dials_of dev addrs addr h m = absurd (h refl)
