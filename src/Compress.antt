-- ===== src/Compress.antt =====
-- internal/compress/compress.go: a zstd frame behind its length, so that padding can stand behind it.
pub mod RoundTrip
pub mod Examples
use cerclbackup.Prelude.{
  ℕ, ◌+◌, ◌*◌, ◌/◌, ◌%◌, ◌^◌, Bool, not, Option, none, some, [], ◌∷◌, ◌++◌, ltb, if◌then◌else◌,
  Bytes, length, take, drop, Result, ok, err,
}

-- klauspost/compress/zstd: EncodeAll and DecodeAll of the shared coder; `none` is an error.
pub record Zstd : Type 0 where
  pub encode_all : Bytes → Bytes
  pub decode_all : Bytes → Option Bytes
  pub encoder_starts : Bool
  pub decoder_starts : Bool

pub data CompressError : Type 0 where
  no_coder too_short bad_header bad_frame : CompressError

-- binary.LittleEndian.PutUint32 of uint32(n), and Uint32.
unfoldable pub put_uint32_le : ℕ → Bytes
put_uint32_le n =
    let v : ℕ = n % 2 ^ 32 in v % 256 ∷ v / 2 ^ 8 % 256 ∷ v / 2 ^ 16 % 256 ∷ v / 2 ^ 24 ∷ []

unfoldable pub uint32_le : Bytes → ℕ
uint32_le (a ∷ b ∷ c ∷ d ∷ rest) = a + b * 2 ^ 8 + c * 2 ^ 16 + d * 2 ^ 24
uint32_le _ = 0

-- Compress(src)
unfoldable pub compress : Zstd → Bytes → Result CompressError Bytes
unfolding put_uint32_le
compress z src =
    if z.encoder_starts
    then ok (put_uint32_le (length (z.encode_all src)) ++ z.encode_all src)
    else err no_coder

unfoldable pub decode_frame : Zstd → Bytes → Result CompressError Bytes
decode_frame z frame =
    if z.decoder_starts
    then elim (z.decode_all frame) [ none ↦ err bad_frame | some out ↦ ok out ]
    else err no_coder

-- Decompress(src)
unfoldable pub decompress : Zstd → Bytes → Result CompressError Bytes
unfolding uint32_le decode_frame
decompress z src =
    if ltb (length src) 4
    then err too_short
    else if ltb (length src) (4 + uint32_le (take 4 src))
    then err bad_header
    else decode_frame z (take (uint32_le (take 4 src)) (drop 4 src))

-- MaybeDecompress(src, compressed)
unfoldable pub maybe_decompress : Zstd → Bytes → Bool → Result CompressError Bytes
unfolding decompress
maybe_decompress z src compressed = if not compressed then ok src else decompress z src
