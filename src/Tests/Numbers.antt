-- ===== src/Tests/Numbers.antt =====
-- Numbers read from texts.
use ckb_discovery.Prelude.{◌≡◌, refl, none, some}
use ckb_discovery.Prelude.Decimal.{parse_u64}

parses : parse_u64 "5184000" ≡ some 5184000
unfolding parse_u64
parses = refl

refuses :
    (parse_u64 "+" ≡ none)
    × (parse_u64 "-1" ≡ none)
    × (parse_u64 "18446744073709551616" ≡ none)
    × (parse_u64 "+18446744073709551615" ≡ some 18446744073709551615)
unfolding parse_u64
refuses = (refl, refl, refl, refl)
