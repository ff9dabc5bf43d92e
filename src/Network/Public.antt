-- ===== src/Network/Public.antt =====
-- src/network.rs: every address that is not a loopback one is dialled.
use ckb_discovery.Prelude.{String, ◌≡◌, refl, false, List, [], ◌∷◌, Elem, Bool-cases, inl, inr}
use ckb_discovery.Types.{is_loopback, EndpointInfo, NodeMetaInfo}
use ckb_discovery.Multiaddr.{P2p}
use ckb_discovery.Network.{multiaddr_text, meta_addrs, meta_info_to_addr}

module _ (x : P2p) where
  Elem-meta_addrs :
      (id : String) (es : List EndpointInfo) (e : EndpointInfo)
      → is_loopback e.address ≡ false
      → Elem e es
      → Elem (x.parse (multiaddr_text x e id)) (meta_addrs x id es)
  unfolding meta_addrs
  Elem-meta_addrs id [] e public h = absurd h
  Elem-meta_addrs id (d ∷ es) e public (inl same) = rw (same, public) (inl refl)
  Elem-meta_addrs id (d ∷ es) e public (inr h) = elim (Bool-cases (is_loopback d.address)) [
    | inl local ↦ rw local (Elem-meta_addrs id es e public h)
    | inr other ↦ rw other (inr (Elem-meta_addrs id es e public h))
  ]

  pub Elem-meta_info_to_addr :
      (node : NodeMetaInfo) (e : EndpointInfo)
      → is_loopback e.address ≡ false
      → Elem e node.addresses
      → Elem (x.parse (multiaddr_text x e node.peer_id)) (meta_info_to_addr x node)
  unfolding meta_info_to_addr
  Elem-meta_info_to_addr node e public h = Elem-meta_addrs node.peer_id node.addresses e public h
