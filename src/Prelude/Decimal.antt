-- ===== src/Prelude/Decimal.antt =====
-- `u64::from_str` and texts from the environment, which the programs' settings use.
use Prim.Native.Nat.{ℕ, ◌-◌, ◌+◌, ◌*◌, ◌^◌}
use Prim.Native.Char.{Char, code}
use Prim.Native.String.{String, [], ◌∷◌}
use mathlib.Core.Bool.{◌&&◌}
use mathlib.Core.Option.{Option, none, some}
use package.ckb_discovery.Prelude.Tests.{◌==◌, leb, ltb, if◌then◌else◌}

digit : Char → Option ℕ
digit c = if leb b'0' (code c) && leb (code c) b'9' then some (code c - b'0') else none

abbrev checked : Option ℕ → ℕ → Option ℕ
checked none acc = none
checked (some d) acc = if ltb (acc * 10 + d) (2 ^ 64) then some (acc * 10 + d) else none

abbrev go_on : Option ℕ → (ℕ → Option ℕ) → Option ℕ
go_on none f = none
go_on (some n) f = f n

-- The digits behind `acc`; an overflow is an error.
digits : String → ℕ → Option ℕ
unfolding digit
digits [] acc = some acc
digits (c ∷ s) acc = go_on (checked (digit c) acc) (digits s)

at_least_one : String → Option ℕ
unfolding digits
at_least_one [] = none
at_least_one (c ∷ s) = digits (c ∷ s) 0

-- A sign `+` is allowed, but not alone.
unfoldable pub parse_u64 : String → Option ℕ
unfolding at_least_one
parse_u64 [] = none
parse_u64 (c ∷ s) = if code c == b'+' then at_least_one s else at_least_one (c ∷ s)

-- `env::var(..).unwrap_or(..)`
abbrev pub text_or : String → Option String → String
text_or default none = default
text_or default (some s) = s
