-- ===== src/Types/Names.antt =====
-- types/src/lib.rs: the names of the networks.
use ckb_discovery.Prelude.{String, ◌≡◌, refl, ◌↔◌, ◌⊎◌, arith, eq_iff, inl, inr}
use ckb_discovery.Types.{CkbNetworkType, mirana, pudge, dev, from_string, into_str, into_legacy_str}

-- Both spellings of a network are read back as that network.
pub from_string-into_str :
    (n : CkbNetworkType) → (from_string (into_str n) ≡ n) × (from_string (into_legacy_str n) ≡ n)
unfolding from_string into_str into_legacy_str
from_string-into_str mirana = (refl, refl)
from_string-into_str pudge = (refl, refl)
from_string-into_str dev = (refl, refl)

-- A text is read as the development network exactly when it is one of that network's two names.
pub from_string-eq-dev_iff : (s : String) → (from_string s ≡ dev) ↔ ((s ≡ "dev") ⊎ (s ≡ "ckb_dev"))
unfolding from_string
from_string-eq-dev_iff s = (
  λ h. ground (arith, eq_iff s "dev", eq_iff s "ckb_dev"),
  λ h. elim h [ inl e ↦ rw e | inr e ↦ rw e ],
)

-- A text is read as the Pudge test network exactly when it is one of that network's four names.
pub from_string-eq-pudge_iff :
    (s : String)
    → (from_string s ≡ pudge)
      ↔ ((s ≡ "pudge") ⊎ (s ≡ "ckb_testnet") ⊎ (s ≡ "test") ⊎ (s ≡ "testnet"))
unfolding from_string
from_string-eq-pudge_iff s = (
  λ h.
      ground (arith, eq_iff s "pudge", eq_iff s "ckb_testnet", eq_iff s "test", eq_iff s "testnet"),
  λ h. elim h [
    | inl e ↦ rw e
    | inr (inl e) ↦ rw e
    | inr (inr (inl e)) ↦ rw e
    | inr (inr (inr e)) ↦ rw e
  ],
)
