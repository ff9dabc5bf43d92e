-- ===== src/Handler/Identify.antt =====
-- src/handler.rs: `received_identify`.
use ckb_discovery.Prelude.{
  ℕ, ◌/◌, ◌%◌, ◌≡◌, ◌||◌, Bool, Option, none, some, List, [], ◌∷◌, ◌==◌, leb, if◌then◌else◌, arith,
  ◌>>=◌, bit_or-one, bit_and-two, bit_and-thirty, bit_and, Option-cases, inl, inr,
}
use ckb_discovery.Types.{CkbNetworkType}
use ckb_discovery.Compress.{Bytes}
use ckb_discovery.Multiaddr.{P2p}
use ckb_discovery.Handler.{
  Wire, IdentifyPayload, Context, Action, publish, disconnect, online, full_flag, peer_of,
  received_identify,
}

-- A node counts as full when it announces nothing but bit 0, or all of the bits 1 to 4.
full_flag_lem : (flag : ℕ) → full_flag flag ≡ (leb flag 1 || (flag / 2 % 16 == 15))
unfolding full_flag
full_flag_lem flag = ground (arith, bit_or-one flag, bit_and-thirty flag)

abbrev pub is_kept : ℕ → Bool
is_kept flag = leb flag 1 || (flag / 2 % 2 == 1)

kept_lem : (flag : ℕ) → (full_flag flag || (bit_and flag 2 == 2)) ≡ is_kept flag
kept_lem flag = ground (arith, full_flag_lem flag, bit_and-two flag)

module _ (x : P2p) (w : Wire) where
  -- The payload of the message, if both readers accept it.
  abbrev pub identify_of : Bytes → Option IdentifyPayload
  identify_of bytes = w.identify_message bytes >>= w.identify_payload

  abbrev pub identify_actions :
      CkbNetworkType → Context x.Multiaddr → Option IdentifyPayload → List (Action x.Multiaddr)
  identify_actions network context none = disconnect context.session_id ∷ []
  identify_actions network context (some payload) =
      publish "peer/online" (online (peer_of x w network context payload))
      ∷ (if is_kept payload.flag then [] else disconnect context.session_id ∷ [])

  -- On every message `received_identify` returns. A message that cannot be read only closes the
  -- session. One that can be read is published as an online peer, and the session is closed exactly
  -- when the flag is at least 2 and its bit 1 (discovery) is clear.
  pub received_identify_lem :
      (network : CkbNetworkType) (context : Context x.Multiaddr) (bytes : Bytes)
      → received_identify x w network context bytes
        ≡ (some tt, identify_actions network context (identify_of bytes))
  unfolding received_identify
  received_identify_lem network context bytes = elim (Option-cases (w.identify_message bytes)) [
    | inl e ↦ rw e
    | inr (raw, e) ↦ rw e (elim (Option-cases (w.identify_payload raw)) [
      | inl f ↦ rw f
      | inr (payload, f) ↦ rw (f, kept_lem payload.flag) (ground arith)
    ])
  ]
