-- ===== src/Marci/Lasting.antt =====
-- marci/src/main.rs: how long a time to live lasts.
use ckb_discovery.Prelude.{
  ℕ, ◌≤◌, ◌≡◌, ◌≢◌, refl, Option, none, some, leb, Bool-cases, inl, inr, arith,
}
use ckb_discovery.Marci.Status.{Timed, aged_seconds, aged_timed, aged_unknown}
use ckb_discovery.Marci.Entries.{seconds_of}

-- Some seconds that have not run out, and at most `most` of them.
abbrev pub Left : (most : ℕ) → Option ℕ → Type 0
Left most none = Unit
Left most (some n) = (n ≢ 0) × (n ≤ most)

aged_seconds-Left : (most n k : ℕ) → Left most (some k) → Left most (aged_seconds n k)
aged_seconds-Left most n k h = elim (Bool-cases (leb k n)) [
  | inl gone ↦ rw gone tt
  | inr left ↦ rw left (ground arith)
]

pub aged_unknown-Left : (most n : ℕ) (o : Option ℕ) → Left most o → Left most (aged_unknown n o)
aged_unknown-Left most n none h = tt
aged_unknown-Left most n (some k) h = aged_seconds-Left most n k h

pub aged_timed-Left :
    (most n : ℕ) (o : Option Timed)
    → Left most (seconds_of o)
    → Left most (seconds_of (aged_timed n o))
aged_timed-Left most n none h = tt
aged_timed-Left most n (some k) h = elim (Bool-cases (leb k.seconds n)) [
  | inl gone ↦ rw gone tt
  | inr left ↦ rw left (ground arith)
]

pub aged_timed-zero : (most : ℕ) (o : Option Timed) → Left most (seconds_of o) → aged_timed 0 o ≡ o
aged_timed-zero most none h = refl
aged_timed-zero most (some k) h = ground arith

pub aged_unknown-zero : (most : ℕ) (o : Option ℕ) → Left most o → aged_unknown 0 o ≡ o
aged_unknown-zero most none h = refl
aged_unknown-zero most (some k) h = ground arith

pub aged_timed-none :
    (most n : ℕ) (o : Option Timed) → Left most (seconds_of o) → most ≤ n → aged_timed n o ≡ none
aged_timed-none most n none h le = refl
aged_timed-none most n (some k) h le = ground arith

pub aged_unknown-none :
    (most n : ℕ) (o : Option ℕ) → Left most o → most ≤ n → aged_unknown n o ≡ none
aged_unknown-none most n none h le = refl
aged_unknown-none most n (some k) h le = ground arith
