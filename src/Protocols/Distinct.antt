-- ===== src/Protocols/Distinct.antt =====
-- src/support_protocols.rs: an id and a name each stand for one protocol.
use ckb_discovery.Prelude.{
  String, str_eq, if◌then◌else◌, ◌⊎◌, inl, inr, ℕ, ◌≡◌, refl, ap, arith, sym, ◌∙◌,
}
use ckb_discovery.Protocols.{
  SupportProtocols, ping, discovery, identify, feeler, disconnect_message, sync, relay, relay_v2,
  time, alert, protocol_id, name,
}

protocol_id-injective : (p q : SupportProtocols) → protocol_id p ≡ protocol_id q → p ≡ q
unfolding protocol_id
protocol_id-injective p q h = ground arith

-- The id that a name stands for.
id_of_name : String → ℕ
id_of_name s =
    if str_eq s "/ckb/ping"
    then 0
    else if str_eq s "/ckb/discovery"
    then 1
    else if str_eq s "/ckb/identify"
    then 2
    else if str_eq s "/ckb/flr"
    then 3
    else if str_eq s "/ckb/disconnectmsg"
    then 4
    else if str_eq s "/ckb/syn"
    then 100
    else if str_eq s "/ckb/rel"
    then 101
    else if str_eq s "/ckb/relay"
    then 103
    else if str_eq s "/ckb/tim"
    then 102
    else if str_eq s "/ckb/alt"
    then 110
    else 111

id_of_name-name : (p : SupportProtocols) → id_of_name (name p) ≡ protocol_id p
unfolding id_of_name name protocol_id
id_of_name-name ping = refl
id_of_name-name discovery = refl
id_of_name-name identify = refl
id_of_name-name feeler = refl
id_of_name-name disconnect_message = refl
id_of_name-name sync = refl
id_of_name-name relay = refl
id_of_name-name relay_v2 = refl
id_of_name-name time = refl
id_of_name-name alert = refl

-- Two protocols whose ids are equal, or whose names are equal, are the same protocol.
pub protocols_distinct :
    (p q : SupportProtocols) → (protocol_id p ≡ protocol_id q) ⊎ (name p ≡ name q) → p ≡ q
protocols_distinct p q (inl h) = protocol_id-injective p q h
protocols_distinct p q (inr h) =
    protocol_id-injective p q (sym (id_of_name-name p) ∙ ap id_of_name h ∙ id_of_name-name q)
