-- ===== src/Keys/Distinct.antt =====
-- Two keys of the database with the same text are the same key: no record overwrites another.
use Prim.Native.Char.{code}
use ckb_discovery.Prelude.{
  ℕ, zero, suc, String, ◌≡◌, refl, ap, sym, ◌∙◌, Option, none, some, arith, str_eq, if◌then◌else◌,
}
use ckb_discovery.Prelude.Texts.{◌++◌, NoDot, rsplit_once, rsplit_once-append}
use ckb_discovery.Types.{CkbNetworkType, into_str, from_string}
use ckb_discovery.Types.Names.{from_string-into_str}
use ckb_discovery.Keys.{
  InfoField, last_seen, ip, country, city, region, full, pos, network, Key, online, online2,
  online_ip, reachable, unknown, info, network_quick, last_update, key_text,
}
use ckb_discovery.Keys.Laws.{into_str-NoDot, network_quick_text}

abbrev field_name : InfoField → String
field_name last_seen = "last_seen"
field_name ip = "ip"
field_name country = "country"
field_name city = "city"
field_name region = "region"
field_name full = "full"
field_name pos = "pos"
field_name network = "network"

field_name-NoDot : (f : InfoField) → NoDot (field_name f)
field_name-NoDot last_seen = ground arith
field_name-NoDot _ = ground arith

field_of : String → Option InfoField
field_of s =
    if str_eq s "last_seen"
    then some last_seen
    else if str_eq s "ip"
    then some ip
    else if str_eq s "country"
    then some country
    else if str_eq s "city"
    then some city
    else if str_eq s "region"
    then some region
    else if str_eq s "full"
    then some full
    else if str_eq s "pos"
    then some pos
    else if str_eq s "network"
    then some network
    else none

field_of-field_name : (f : InfoField) → field_of (field_name f) ≡ some f
unfolding field_of
field_of-field_name last_seen = refl
field_of-field_name _ = refl

field_name-injective : (f g : InfoField) → field_name f ≡ field_name g → f ≡ g
field_name-injective f g h = cc (field_of-field_name f, field_of-field_name g)

into_str-injective : (m n : CkbNetworkType) → into_str m ≡ into_str n → m ≡ n
into_str-injective m n h =
    sym (from_string-into_str m).0 ∙ ap from_string h ∙ (from_string-into_str n).0

info-cut :
    (f : InfoField) (id : String)
    → rsplit_once (key_text (info f id)) ≡ some ("peer_info." ++ id, field_name f)
unfolding key_text
info-cut last_seen id =
    rsplit_once-append ("peer_info." ++ id) "last_seen" (field_name-NoDot last_seen)
info-cut f id = rsplit_once-append ("peer_info." ++ id) (field_name f) (field_name-NoDot f)

quick-cut :
    (n : CkbNetworkType) (id : String)
    → rsplit_once (key_text (network_quick id n)) ≡ some ("network.peer." ++ id, into_str n)
quick-cut n id =
    rw (network_quick_text n id)
      (rsplit_once-append ("network.peer." ++ id) (into_str n) (into_str-NoDot n))

-- The code of the character at a position, 0 behind the end.
abbrev code_at : ℕ → String → ℕ
code_at i String.[] = 0
code_at zero (String.◌∷◌ c s) = code c
code_at (suc i) (String.◌∷◌ c s) = code_at i s

-- The keys that the code writes have different texts: whatever the peer ids.
pub key_text-injective : (k j : Key) → key_text k ≡ key_text j → k ≡ j
unfolding key_text
key_text-injective (info f a) (info g b) h =
    let cut = sym (info-cut f a) ∙ ap rsplit_once h ∙ info-cut g b in
    let same = field_name-injective f g (cc cut) in cc (cut, same)
key_text-injective (network_quick a m) (network_quick b n) h =
    let cut = sym (quick-cut m a) ∙ ap rsplit_once h ∙ quick-cut n b in
    let same = into_str-injective m n (cc cut) in cc (cut, same)
key_text-injective (online a) (online b) h = cc
key_text-injective (online2 a) (online2 b) h = cc
key_text-injective (reachable a) (reachable b) h = cc
key_text-injective (unknown a) (unknown b) h = cc
key_text-injective (online_ip a) (online_ip b) h =
    let cut =
      sym (rsplit_once-append ("online." ++ a) "ip" (field_name-NoDot ip))
      ∙ ap rsplit_once h
      ∙ rsplit_once-append ("online." ++ b) "ip" (field_name-NoDot ip) in
    cc cut
key_text-injective last_update last_update h = refl
key_text-injective k j h =
    absurd (omega (arith, ap (code_at 0) h, ap (code_at 4) h, ap (code_at 5) h, ap (code_at 11) h))
