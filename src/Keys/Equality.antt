-- ===== src/Keys/Equality.antt =====
-- Equality of keys as a test that computes on their constructors, and the test of their texts.
use ckb_discovery.Prelude.{
  ℕ, ◌≡◌, refl, ap, Bool, true, false, ◌&&◌, arith, str_eq, eq_iff, eq_refl, ◌==◌, Bool-cases, inl,
  inr,
}
use ckb_discovery.Prelude.Texts.{str_eq_of_ne}
use ckb_discovery.Types.{CkbNetworkType, mirana, pudge, dev}
use ckb_discovery.Keys.{
  InfoField, last_seen, ip, country, city, region, full, pos, network, Key, online, online2,
  online_ip, reachable, unknown, info, network_quick, last_update, key_text,
}
use ckb_discovery.Keys.Distinct.{key_text-injective}

abbrev field_index : InfoField → ℕ
field_index last_seen = 0
field_index ip = 1
field_index country = 2
field_index city = 3
field_index region = 4
field_index full = 5
field_index pos = 6
field_index network = 7

abbrev pub field_eq : InfoField → InfoField → Bool
field_eq f g = field_index f == field_index g

abbrev net_index : CkbNetworkType → ℕ
net_index mirana = 0
net_index pudge = 1
net_index dev = 2

abbrev pub net_eq : CkbNetworkType → CkbNetworkType → Bool
net_eq m n = net_index m == net_index n

abbrev pub key_eq : Key → Key → Bool
key_eq (online a) (online b) = str_eq a b
key_eq (online2 a) (online2 b) = str_eq a b
key_eq (online_ip a) (online_ip b) = str_eq a b
key_eq (reachable a) (reachable b) = str_eq a b
key_eq (unknown a) (unknown b) = str_eq a b
key_eq (info f a) (info g b) = field_eq f g && str_eq a b
key_eq (network_quick a m) (network_quick b n) = str_eq a b && net_eq m n
key_eq last_update last_update = true
key_eq _ _ = false

pub key_eq_sound : (k j : Key) → key_eq k j ≡ true → k ≡ j
key_eq_sound (online a) (online b) h = ground (arith, eq_iff a b)
key_eq_sound (online2 a) (online2 b) h = ground (arith, eq_iff a b)
key_eq_sound (online_ip a) (online_ip b) h = ground (arith, eq_iff a b)
key_eq_sound (reachable a) (reachable b) h = ground (arith, eq_iff a b)
key_eq_sound (unknown a) (unknown b) h = ground (arith, eq_iff a b)
key_eq_sound (info f a) (info g b) h = ground (arith, eq_iff a b)
key_eq_sound (network_quick a m) (network_quick b n) h = ground (arith, eq_iff a b)
key_eq_sound last_update last_update h = refl
key_eq_sound _ _ h = cc

key_eq_refl : (k : Key) → key_eq k k ≡ true
key_eq_refl (online a) = eq_refl a
key_eq_refl (online2 a) = eq_refl a
key_eq_refl (online_ip a) = eq_refl a
key_eq_refl (reachable a) = eq_refl a
key_eq_refl (unknown a) = eq_refl a
key_eq_refl (info f a) = ground (arith, eq_refl a)
key_eq_refl (network_quick a m) = ground (arith, eq_refl a)
key_eq_refl last_update = refl

-- The texts of two keys are equal exactly when the keys are.
pub str_eq-key_text : (k j : Key) → str_eq (key_text k) (key_text j) ≡ key_eq k j
str_eq-key_text k j = elim (Bool-cases (key_eq k j)) [
  | inl same ↦ rw (same, key_eq_sound k j same) (eq_refl (key_text j))
  | inr other ↦ rw other (
      str_eq_of_ne (key_text k) (key_text j)
        (λ e. cc (other, key_eq_refl j, ap (λ (x : Key). key_eq x j) (key_text-injective k j e))))
]
