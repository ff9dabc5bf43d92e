-- ===== src/Tests/Frames.antt =====
-- src/compress.rs and the hooks of the protocols, on small inputs.
use ckb_discovery.Prelude.{
  ℕ, ◌≤◌, ◌≡◌, refl, ◌⊎◌, some, List, [], ◌∷◌, ok, length, ◌>>=◌, err, ◌+◌, Result,
}
use ckb_discovery.Compress.{compress, decompress, max_uncompressed_len, invalid_data, IoError}
use ckb_discovery.Compress.Laws.{decompress-compress, decompress_bound, decompress_total}
use ckb_discovery.Tests.Doubles.{store, store-IsCodec}

-- A flagged frame of two bytes, and the empty frame.
flagged_frame :
    (decompress store (128 ∷ 7 ∷ 9 ∷ []) ≡ some (ok (7 ∷ 9 ∷ [])))
    × (decompress store [] ≡ some (err invalid_data))
unfolding decompress
flagged_frame = (refl, refl)

decompress-compress_example :
    (compress store (1 ∷ 2 ∷ []) >>= decompress store) ≡ some (ok (1 ∷ 2 ∷ []))
decompress-compress_example = decompress-compress store store-IsCodec (1 ∷ 2 ∷ [])

decompress_bound_example :
    (length {A = ℕ} (7 ∷ 9 ∷ []) ≤ max_uncompressed_len)
    ⊎ (length {A = ℕ} (7 ∷ 9 ∷ []) + 1 ≡ length {A = ℕ} (128 ∷ 7 ∷ 9 ∷ []))
decompress_bound_example =
    decompress_bound store store-IsCodec (128 ∷ 7 ∷ 9 ∷ []) (7 ∷ 9 ∷ []) flagged_frame.0

decompress_total_example : (r : Result (List ℕ) IoError) × (decompress store (128 ∷ []) ≡ some r)
decompress_total_example = decompress_total store (128 ∷ [])
