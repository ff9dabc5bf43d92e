-- ===== src/Compress/Laws.antt =====
-- src/compress.rs: what the frame looks like, the round trip, and the bound on what is decoded.
use ckb_discovery.Prelude.{
  ◌≤◌, ◌≡◌, refl, ◌⊎◌, inl, inr, Option, none, some, [], ◌∷◌, Result, ok, err, length, ltb,
  if◌then◌else◌, arith, ◌+◌, not, bit_and, ◌==◌, Option-cases, Bool-cases, ◌>>=◌, ◌&&◌, is_some,
}
use ckb_discovery.Compress.{
  Bytes, Snap, IsCodec, max_uncompressed_len, compression_size_threshold, compress_flag_bit,
  uncompress_flag, invalid_data, compress, decompress, inflate, or_invalid, IoError,
}

-- The frame that a peer receives: long input is a flagged block, unless the encoder refuses it.
abbrev pub framed : Bytes → Option Bytes → Bytes
framed src none = uncompress_flag ∷ src
framed src (some block) = compress_flag_bit ∷ block

abbrev pub frame : Snap → Bytes → Bytes
frame snap src =
    if ltb compression_size_threshold (length src + 1)
    then framed src (snap.compress_vec src)
    else uncompress_flag ∷ src

-- `compress` does not panic, and its output is the frame of its input.
pub compress-eq-frame : (snap : Snap) (src : Bytes) → compress snap src ≡ some (frame snap src)
unfolding compress
compress-eq-frame snap src = ground arith

decompress-plain : (snap : Snap) (body : Bytes) → decompress snap (0 ∷ body) ≡ some (ok body)
unfolding decompress
decompress-plain snap body = refl

decompress-flagged :
    (snap : Snap) (body : Bytes)
    → decompress snap (compress_flag_bit ∷ body)
      ≡ some (inflate snap body (snap.decompress_len body))
unfolding decompress
decompress-flagged snap body = refl

-- `decompress` does not panic, whatever the bytes.
pub decompress_total :
    (snap : Snap) (wire : Bytes) → (r : Result Bytes IoError) × (decompress snap wire ≡ some r)
unfolding decompress
decompress_total snap [] = (_, refl)
decompress_total snap (flag ∷ body) =
    elim (Bool-cases (not (bit_and flag compress_flag_bit == 0))) [
      | inl e ↦ (inflate snap body (snap.decompress_len body), rw e)
      | inr e ↦ (ok body, rw e)
    ]

module _ (snap : Snap) (codec : IsCodec snap) where
  inflate-block :
      (src block : Bytes)
      → snap.compress_vec src ≡ some block
      → inflate snap block (snap.decompress_len block)
        ≡ (if ltb max_uncompressed_len (length src) then err invalid_data else ok src)
  unfolding inflate
  inflate-block src block e =
      rw (codec.encoded_len src block e) (rw (codec.decoded src block e) refl)

  decompress-frame :
      (src : Bytes)
      → decompress snap (frame snap src)
        ≡ some (
            if ltb max_uncompressed_len (length src) && is_some (snap.compress_vec src)
            then err invalid_data
            else ok src)
  decompress-frame src = elim (Option-cases (snap.compress_vec src)) [
    | inl refused ↦ rw refused (ground (arith, decompress-plain snap src))
    | inr (block, e) ↦ rw e (
        ground (
          arith,
          decompress-plain snap src,
          decompress-flagged snap block,
          inflate-block src block e,
        ))
  ]

  -- With a codec as documented, neither direction panics, and what the receiver decodes is the sender's input, unless the
  -- input is longer than 8 MB and the encoder took it: then the receiver answers `InvalidData`.
  pub decompress-compress :
      (src : Bytes)
      → (compress snap src >>= decompress snap)
        ≡ some (
            if ltb max_uncompressed_len (length src) && is_some (snap.compress_vec src)
            then err invalid_data
            else ok src)
  decompress-compress src = rw compress-eq-frame (decompress-frame src)

-- With a codec as documented, what a frame decodes to, flagged or not, has at most 8 MB or exactly
-- one byte less than the frame.
pub decompress_bound :
    (snap : Snap) (codec : IsCodec snap) (wire out : Bytes)
    → decompress snap wire ≡ some (ok out)
    → (length out ≤ max_uncompressed_len) ⊎ (length out + 1 ≡ length wire)
unfolding decompress inflate or_invalid
decompress_bound snap codec [] out h = cc
decompress_bound snap codec (flag ∷ body) out h = grind (arith, codec.buffer_len)
