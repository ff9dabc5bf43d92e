-- ===== src/Compress.antt =====
-- src/compress.rs: the frame around a message, whose first byte says whether the rest is compressed.
-- Bytes are numbers below 256. The `snap` crate is the record `Snap`, whose laws are those of its
-- documentation. `none` is a panic (an index out of range).
pub mod Laws
use ckb_discovery.Prelude.{
  ℕ, ◌*◌, ◌^◌, ◌≡◌, Bool, not, Option, none, some, List, [], ◌∷◌, ◌++◌, Result, ok, err, length,
  is_empty, take, drop, ltb, ◌==◌, if◌then◌else◌, bit_and, ◌>>=◌,
}

abbrev pub Bytes : Type 0
Bytes = List ℕ

-- `compress_vec` and `decompress_len` return `Result`, whose error the code only logs.
-- `decompress input n` is `Decoder::decompress` into a buffer of n bytes, and returns the buffer.
pub record Snap : Type 0 where
  pub compress_vec : Bytes → Option Bytes
  pub decompress_len : Bytes → Option ℕ
  pub decompress : Bytes → ℕ → Option Bytes

-- A block of the encoder holds the length of its input and decodes to it; a decoder writes to the
-- buffer that it is given.
pub record IsCodec (snap : Snap) : Type 0 where
  pub encoded_len :
      (input block : Bytes)
      → snap.compress_vec input ≡ some block
      → snap.decompress_len block ≡ some (length input)
  pub decoded :
      (input block : Bytes)
      → snap.compress_vec input ≡ some block
      → snap.decompress block (length input) ≡ some input
  pub buffer_len :
      (block : Bytes) (n : ℕ) (out : Bytes) → snap.decompress block n ≡ some out → length out ≡ n

abbrev pub compression_size_threshold : ℕ
compression_size_threshold = 1024

abbrev pub uncompress_flag : ℕ
uncompress_flag = 0b0000_0000

abbrev pub compress_flag_bit : ℕ
compress_flag_bit = 0b1000_0000

abbrev pub max_uncompressed_len : ℕ
max_uncompressed_len = 2 ^ 23

pub data IoError : Type 0 where
  invalid_data : IoError

pub record Message : Type 0 where
  pub inner : Bytes

pub from_raw : Bytes → Message
from_raw raw = record { inner = uncompress_flag ∷ raw }

pub from_compressed : Bytes → Message
from_compressed raw = record { inner = raw }

-- `inner[0] = COMPRESS_FLAG`
set_first : Bytes → Option Bytes
set_first [] = none
set_first (_ ∷ rest) = some (compress_flag_bit ∷ rest)

pub set_compress_flag : Message → Option Message
unfolding set_first
set_compress_flag m = do inner ← set_first m.inner; some (record { inner = inner })

first : Bytes → Option ℕ
first [] = none
first (b ∷ _) = some b

pub compress_flag : Message → Option Bool
unfolding first
compress_flag m = do b ← first m.inner; some (not (bit_and b compress_flag_bit == 0))

-- The two arms of the match on the encoder's result, after `split_off(1)`.
fill : Bytes → Bytes → Option Bytes → Option Message
unfolding set_compress_flag
fill kept input (some block) = set_compress_flag (record { inner = kept ++ block })
fill kept input none = some (record { inner = kept ++ input })

module _ (snap : Snap) where
  pub compress_message : Message → Option Bytes
  unfolding fill
  compress_message m =
      if ltb compression_size_threshold (length m.inner)
      then (do
        let input = drop 1 m.inner
        packed ← fill (take 1 m.inner) input (snap.compress_vec input)
        some packed.inner)
      else some m.inner

  or_invalid : Option Bytes → Result Bytes IoError
  or_invalid (some buf) = ok buf
  or_invalid none = err invalid_data

  -- What follows a flag byte that says "compressed".
  inflate : Bytes → Option ℕ → Result Bytes IoError
  unfolding or_invalid
  inflate body none = err invalid_data
  inflate body (some n) =
      if ltb max_uncompressed_len n then err invalid_data else or_invalid (snap.decompress body n)

  pub decompress_message : Message → Option (Result Bytes IoError)
  unfolding compress_flag inflate
  decompress_message m = if is_empty m.inner then some (err invalid_data) else do
    flagged ← compress_flag m
    let body = drop 1 m.inner
    if flagged then some (inflate body (snap.decompress_len body)) else some (ok body)

  unfoldable pub compress : Bytes → Option Bytes
  unfolding from_raw compress_message
  compress src = compress_message (from_raw src)

  unfoldable pub decompress : Bytes → Option (Result Bytes IoError)
  unfolding from_compressed decompress_message
  decompress src = decompress_message (from_compressed src)
