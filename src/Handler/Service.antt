-- ===== src/Handler/Service.antt =====
-- src/handler.rs: `build_protocol_metas`, and the bootstrap dials of `init` and `notify`.
use ckb_discovery.Prelude.{
  ℕ, ◌≡◌, refl, Option, none, some, List, [], ◌∷◌, ◌++◌, map, Result, ok, ◌==◌, Bool, if◌then◌else◌,
  arith, length, ◌≤◌, All, ◌>>=◌,
}
use ckb_discovery.Types.{CkbNetworkType}
use ckb_discovery.Compress.{
  Bytes, Snap, IsCodec, IoError, compress, decompress, max_uncompressed_len,
}
use ckb_discovery.Compress.Laws.{decompress-compress}
use ckb_discovery.Multiaddr.{P2p}
use ckb_discovery.Network.Bootnodes.{get_bootnodes}
use ckb_discovery.Protocols.{SupportProtocols, discovery, identify, sync, MetaBuilder, meta_builder}
use ckb_discovery.Handler.{
  Wire, Action, dial, set_service_notify, dial_all, dial_bootnodes, init, notify,
}

-- The hooks of a protocol: what is done to a frame before it is sent and when it is received.
pub record ProtocolMeta : Type 0 where
  pub builder : MetaBuilder
  pub before_send : Option (Bytes → Option Bytes)
  pub before_receive : Option (Bytes → Option (Result Bytes IoError))

abbrev plain_meta : SupportProtocols → ProtocolMeta
plain_meta p = record { builder = meta_builder p; before_send = none; before_receive = none }

unfoldable pub build_protocol_metas : Snap → List ProtocolMeta
build_protocol_metas snap =
    plain_meta identify
    ∷ plain_meta discovery
    ∷ record {
      builder = meta_builder sync;
      before_send = some (compress snap);
      before_receive = some (decompress snap);
    }
    ∷ []

-- What a frame becomes on its way through the hooks of the two ends.
abbrev pub sent : Option (Bytes → Option Bytes) → Bytes → Option Bytes
sent none src = some src
sent (some hook) src = hook src

abbrev pub received_as :
    Option (Bytes → Option (Result Bytes IoError)) → Bytes → Option (Result Bytes IoError)
received_as none wire = some (ok wire)
received_as (some hook) wire = hook wire

-- With a codec as documented, every protocol that the handler registers delivers a frame of at most
-- 8 MB unchanged.
pub build_protocol_metas-round_trip :
    (snap : Snap) (codec : IsCodec snap) (src : Bytes)
    → length src ≤ max_uncompressed_len
    → All
        (λ meta. (sent meta.before_send src >>= received_as meta.before_receive) ≡ some (ok src))
        (build_protocol_metas snap)
unfolding build_protocol_metas
build_protocol_metas-round_trip snap codec src h =
    (refl, (refl, (ground (arith, decompress-compress snap codec src), tt)))

module _ (x : P2p) (w : Wire) (network : CkbNetworkType) where
  dial_all_lem : (addrs : List x.Multiaddr) → dial_all x w addrs ≡ (some tt, map dial addrs)
  unfolding dial_all
  dial_all_lem [] = refl
  dial_all_lem (addr ∷ addrs) = rw (dial_all_lem addrs)

  dial_bootnodes_lem :
      (bootnodes : List x.Multiaddr)
      → get_bootnodes x network ≡ some bootnodes
      → dial_bootnodes x w network ≡ (some tt, map dial bootnodes)
  unfolding dial_bootnodes
  dial_bootnodes_lem bootnodes h = rw h (rw (dial_all_lem bootnodes))

  abbrev pub wakes : ℕ → List (Action x.Multiaddr)
  wakes token = set_service_notify 2 43200 token ∷ []

  -- If the bootstrap addresses parse, then on the identify protocol `init` dials each of them in
  -- order and asks for a notification every 12 hours, and it panics only if that is refused; on
  -- any other protocol it does nothing. The notification that it asks for, and no other, dials the
  -- same addresses again.
  pub init-notify :
      (proto_id token : ℕ) (armed : Bool) (bootnodes : List x.Multiaddr)
      → get_bootnodes x network ≡ some bootnodes
      → (init x w network proto_id armed ≡ (
          if proto_id == 2
          then (if armed then some tt else none, map dial bootnodes ++ wakes 1)
          else (some tt, [])))
        × (notify x w network token
            ≡ (if token == 1 then (some tt, map dial bootnodes) else (some tt, [])))
  unfolding init notify
  init-notify proto_id token armed bootnodes h = (
    rw (dial_bootnodes_lem bootnodes h) (ground arith),
    rw (dial_bootnodes_lem bootnodes h) (ground arith),
  )
