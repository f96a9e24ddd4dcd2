-- ===== src/Compress/Examples.antt =====
-- A frame of a toy zstd, which stores its input.
use cerclbackup.Prelude.{◌≤◌, ◌≡◌, refl, true, some, [], ◌∷◌, ◌++◌, arith, Bytes, length, ok}
use cerclbackup.Compress.{Zstd, compress, decompress}
use cerclbackup.Compress.RoundTrip.{IsZstd, decompress-compress}

abbrev stored_zstd : Zstd
stored_zstd = record {
  encode_all = λ b. b;
  decode_all = λ b. some b;
  encoder_starts = true;
  decoder_starts = true;
}

stored_zstd-IsZstd : IsZstd stored_zstd
stored_zstd-IsZstd = record { starts = (refl, refl); decodes = λ b. refl }

decompress-compress_example :
    (packed : Bytes) × (compress stored_zstd (8 ∷ 9 ∷ []) ≡ ok packed)
    × (4 ≤ length packed)
    × (decompress stored_zstd (packed ++ (0 ∷ 0 ∷ [])) ≡ ok (8 ∷ 9 ∷ []))
decompress-compress_example =
    decompress-compress stored_zstd (8 ∷ 9 ∷ []) (0 ∷ 0 ∷ []) stored_zstd-IsZstd (omega arith)
